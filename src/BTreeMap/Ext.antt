-- ===== src/BTreeMap/Ext.antt =====
-- Two sorted maps that read alike are equal.
use mathlib.Core.Option.{some-injective}
use native.Mathlib.Decide.{dec_lt}
use inputshare.Base.{ℕ, ◌≤◌, ◌<◌, none, some, [], ◌∷◌, ◌≡◌, refl, sym, ◌∙◌, ap, arith}
use inputshare.BTreeMap.{BTreeMap, get, Above, IsSorted}

module _ {ℓ} {V : Type ℓ} where
  pub get-Above : (m : BTreeMap V) (b k : ℕ) → Above b m → k ≤ b → get m k ≡ none
  unfolding get
  get-Above [] b k a h = refl
  get-Above ((j, v) ∷ m) b k a h = ground (arith, get-Above m b k)

  get-cons_self : (m : BTreeMap V) (j : ℕ) (v : V) → get ((j, v) ∷ m) j ≡ some v
  unfolding get
  get-cons_self m j v = ground arith

  get-cons_gt : (m : BTreeMap V) (j : ℕ) (v : V) (k : ℕ) → j < k → get ((j, v) ∷ m) k ≡ get m k
  unfolding get
  get-cons_gt m j v k h = ground arith

  -- The heads of two sorted maps that read alike have one key.
  head_keys :
      (m n : BTreeMap V) (i j : ℕ) (v w : V)
      → Above i m
      → Above j n
      → ((k : ℕ) → get ((i, v) ∷ m) k ≡ get ((j, w) ∷ n) k)
      → i ≡ j
  unfolding get
  head_keys m n i j v w a b same =
      ground (arith, same i, same j, get-Above m i j a, get-Above n j i b)

  tails_alike :
      (m n : BTreeMap V) (i j : ℕ) (v w : V)
      → Above i m
      → Above j n
      → i ≡ j
      → ((k : ℕ) → get ((i, v) ∷ m) k ≡ get ((j, w) ∷ n) k)
      → (k : ℕ) → get m k ≡ get n k
  tails_alike m n i j v w a b e same k = elim (dec_lt i k) [
    | yes h ↦ sym (get-cons_gt m i v k h) ∙ same k ∙ get-cons_gt n j w k (omega arith)
    | no h ↦ get-Above m i k a (omega arith) ∙ sym (get-Above n j k b (omega arith))
  ]

  head_values :
      (m n : BTreeMap V) (i j : ℕ) (v w : V)
      → i ≡ j
      → ((k : ℕ) → get ((i, v) ∷ m) k ≡ get ((j, w) ∷ n) k)
      → v ≡ w
  head_values m n i j v w e same =
      some-injective v w
        (sym (get-cons_self m i v) ∙ same i ∙ ap (get ((j, w) ∷ n)) e ∙ get-cons_self n j w)

  pub ext : (m n : BTreeMap V) → IsSorted m → IsSorted n → ((k : ℕ) → get m k ≡ get n k) → m ≡ n
  unfolding get
  ext [] [] s t same = refl
  ext [] ((j, w) ∷ n) s t same = cc (same j, get-cons_self n j w)
  ext ((i, v) ∷ m) [] s t same = cc (same i, get-cons_self m i v)
  ext ((i, v) ∷ m) ((j, w) ∷ n) s t same =
      let e : i ≡ j = head_keys m n i j v w s.0 t.0 same in
      cc (
        e,
        head_values m n i j v w e same,
        ext m n s.1 t.1 (tails_alike m n i j v w s.0 t.0 e same),
      )
