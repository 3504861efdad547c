-- ===== src/Base/Lists.antt =====
-- A statement about every element of a list.
use mathlib.Core.Path.{subst, ap, ◌≡◌, refl}
use mathlib.Core.Logic.{◌⊎◌, inl, inr}
use mathlib.Core.Option.{Option, none, some}
use Prim.Native.Nat.{ℕ, zero, suc}
use native.Mathlib.Omega.{arith}
use mathlib.Core.List.{Permᴰ, List, [], ◌∷◌, ◌++◌}

module _ {ℓ κ} {A : Type ℓ} where
  abbrev pub Each : (A → Type κ) → List A → Type κ
  Each P [] = Unit
  Each P (x ∷ xs) = P x × Each P xs

module _ {ℓ κ μ} {A : Type ℓ} where
  pub Each-imp :
      (P : A → Type κ) (Q : A → Type μ) (xs : List A)
      → ((x : A) → P x → Q x)
      → Each P xs
      → Each Q xs
  Each-imp P Q [] f a = tt
  Each-imp P Q (x ∷ xs) f a = (f x a.0, Each-imp P Q xs f a.1)

module _ {ℓ κ} {A : Type ℓ} (P : A → Type κ) where
  pub Each-append : (xs ys : List A) → Each P xs → Each P ys → Each P (xs ++ ys)
  Each-append [] ys a b = b
  Each-append (x ∷ xs) ys a b = (a.0, Each-append xs ys a.1 b)

  pub Each-perm : {xs ys : List A} → Permᴰ xs ys → Each P xs → Each P ys
  Each-perm Permᴰ.nil a = a
  Each-perm (Permᴰ.cons e p) a = (subst P e a.0, Each-perm p a.1)
  Each-perm (Permᴰ.swap e f) a = (subst P f a.1.0, (subst P e a.0, a.1.1))
  Each-perm (Permᴰ.trans p q) a = Each-perm q (Each-perm p a)

-- A statement about some element of a list.
module _ {A : Type 0} where
  abbrev pub Any : (A → Type 0) → List A → Type 0
  Any P [] = ⊥
  Any P (x ∷ xs) = P x ⊎ Any P xs

  pub Any-left : (P : A → Type 0) (xs ys : List A) → Any P xs → Any P (xs ++ ys)
  Any-left P [] ys h = absurd h
  Any-left P (x ∷ xs) ys (inl h) = inl h
  Any-left P (x ∷ xs) ys (inr h) = inr (Any-left P xs ys h)

  pub Any-right : (P : A → Type 0) (xs ys : List A) → Any P ys → Any P (xs ++ ys)
  Any-right P [] ys h = h
  Any-right P (x ∷ xs) ys h = inr (Any-right P xs ys h)

module _ {A : Type 0} (P : A → Type 0) where
  pub Each-at : (xs : List A) (x : A) → Each P xs → Any (λ y. y ≡ x) xs → P x
  Each-at [] x all i = absurd i
  Each-at (y ∷ xs) x all (inl same) = subst P same all.0
  Each-at (y ∷ xs) x all (inr i) = Each-at xs x all.1 i

-- Lists of native length.
module _ {ℓ} {A : Type ℓ} where
  abbrev pub length : List A → ℕ
  length [] = 0
  length (x ∷ xs) = suc (length xs)

  abbrev put_front : A → Option (List A × List A) → Option (List A × List A)
  put_front x none = none
  put_front x (some (ls, rs)) = some (x ∷ ls, rs)

  -- The first `n` elements and the others, if there are as many.
  unfoldable pub split_at : ℕ → List A → Option (List A × List A)
  split_at zero xs = some ([], xs)
  split_at (suc n) [] = none
  split_at (suc n) (x ∷ xs) = put_front x (split_at n xs)

  pub split_at-append : (xs ys : List A) → split_at (length xs) (xs ++ ys) ≡ some (xs, ys)
  unfolding split_at
  split_at-append [] ys = refl
  split_at-append (x ∷ xs) ys = rw (split_at-append xs ys) refl

  -- What a split of the tail says of the split of the whole.
  split_step :
      (n : ℕ) (z : A) (zs xs ys : List A) (o : Option (List A × List A))
      → ((ls rs : List A) → o ≡ some (ls, rs) → (zs ≡ ls ++ rs) × (length ls ≡ n))
      → put_front z o ≡ some (xs, ys)
      → (z ∷ zs ≡ xs ++ ys) × (length xs ≡ suc n)
  split_step n z zs xs ys none f h = cc
  split_step n z zs xs ys (some (ls, rs)) f h =
      let inner = f ls rs refl in
      let front : z ∷ ls ≡ xs = cc h in
      let back : rs ≡ ys = cc h in
      (
        subst (λ l. z ∷ zs ≡ l ++ ys) front
            (subst (λ l. z ∷ zs ≡ z ∷ ls ++ l) back (ap (λ l. z ∷ l) inner.0)),
        subst (λ l. length l ≡ suc n) front (ap suc inner.1),
      )

  pub split_at_sound :
      (n : ℕ) (zs xs ys : List A)
      → split_at n zs ≡ some (xs, ys)
      → (zs ≡ xs ++ ys) × (length xs ≡ n)
  unfolding split_at
  split_at_sound zero zs xs ys h = ground arith
  split_at_sound (suc n) [] xs ys h = cc
  split_at_sound (suc n) (z ∷ zs) xs ys h =
      split_step n z zs xs ys (split_at n zs) (split_at_sound n zs) h
