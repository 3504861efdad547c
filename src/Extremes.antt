-- ===== src/Extremes.antt =====
-- The outermost edge of several: the least or the greatest of the numbers that things in a list have.
use inputshare.Base.{
  ℤ, ◌≤ℤ◌, min_ℤ, max_ℤ, List, [], ◌∷◌, Each, Any, ◌⊎◌, inl, inr, ◌≡◌, refl, ◌∙◌, arith,
}

-- The one end of a number and those of some things, by an operation that gives one of two numbers.
module _ {A : Type 0} (op : ℤ → ℤ → ℤ) (f : A → ℤ) where
  abbrev pub end_of : ℤ → List A → ℤ
  end_of z [] = z
  end_of z (d ∷ ds) = end_of (op z (f d)) ds

-- Nothing goes beyond `e`, and something goes up to it.
abbrev pub IsEnd : {A : Type 0} → (ℤ → ℤ → Type 0) → (A → ℤ) → List A → ℤ → Type 0
IsEnd R f ds e = Each (λ d. R e (f d)) ds × Any (λ d. f d ≡ e) ds

module _ {A : Type 0} (R : ℤ → ℤ → Type 0) (op : ℤ → ℤ → ℤ) (itself : (a : ℤ) → R a a)
    (through : (a b c : ℤ) → R a b → R b c → R a c)
    (one_of : (a b : ℤ) → R (op a b) a × R (op a b) b × ((a ≡ op a b) ⊎ (b ≡ op a b)))
    (f : A → ℤ) where
  abbrev IsEndFrom : ℤ → List A → ℤ → Type 0
  IsEndFrom z ds e = R e z × Each (λ d. R e (f d)) ds × ((z ≡ e) ⊎ Any (λ d. f d ≡ e) ds)

  met :
      (z e : ℤ) (d : A) (ds : List A)
      → (z ≡ op z (f d)) ⊎ (f d ≡ op z (f d))
      → (op z (f d) ≡ e) ⊎ Any (λ x. f x ≡ e) ds
      → (z ≡ e) ⊎ Any (λ x. f x ≡ e) (d ∷ ds)
  met z e d ds first (inr later) = inr (inr later)
  met z e d ds (inl same) (inl here) = inl (same ∙ here)
  met z e d ds (inr same) (inl here) = inr (inl (same ∙ here))

  end_of-IsEndFrom : (z : ℤ) (ds : List A) → IsEndFrom z ds (end_of op f z ds)
  end_of-IsEndFrom z [] = (itself z, tt, inl refl)
  end_of-IsEndFrom z (d ∷ ds) =
      let one = one_of z (f d) in
      let rest = end_of-IsEndFrom (op z (f d)) ds in
      (
        through (end_of op f z (d ∷ ds)) (op z (f d)) z rest.0 one.0,
        (through (end_of op f z (d ∷ ds)) (op z (f d)) (f d) rest.0 one.1, rest.1),
        met z (end_of op f z (d ∷ ds)) d ds one.2 rest.2,
      )

  end-IsEnd : (d : A) (ds : List A) → IsEnd R f (d ∷ ds) (end_of op f (f d) ds)
  end-IsEnd d ds = let all = end_of-IsEndFrom (f d) ds in ((all.0, all.1), all.2)

min_one_of : (a b : ℤ) → (min_ℤ a b ≤ℤ a) × (min_ℤ a b ≤ℤ b) × ((a ≡ min_ℤ a b) ⊎ (b ≡ min_ℤ a b))
unfolding min_ℤ
min_one_of a b = ground arith

max_one_of : (a b : ℤ) → (a ≤ℤ max_ℤ a b) × (b ≤ℤ max_ℤ a b) × ((a ≡ max_ℤ a b) ⊎ (b ≡ max_ℤ a b))
unfolding max_ℤ
max_one_of a b = ground arith

pub lowest :
    {A : Type 0} (f : A → ℤ) (d : A) (ds : List A) → IsEnd ◌≤ℤ◌ f (d ∷ ds) (end_of min_ℤ f (f d) ds)
lowest f d ds = end-IsEnd ◌≤ℤ◌ min_ℤ (λ a. omega arith) (λ a b c h k. omega arith) min_one_of f d ds

pub highest :
    {A : Type 0} (f : A → ℤ) (d : A) (ds : List A)
    → IsEnd (λ a b. b ≤ℤ a) f (d ∷ ds) (end_of max_ℤ f (f d) ds)
highest f d ds =
    end-IsEnd (λ a b. b ≤ℤ a) max_ℤ (λ a. omega arith) (λ a b c h k. omega arith) max_one_of f d ds
