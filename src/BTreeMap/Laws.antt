-- ===== src/BTreeMap/Laws.antt =====
-- Reading after a write, and the order of the entries.
use inputshare.Base.{ℕ, ◌<◌, ◌≤◌, none, some, [], ◌∷◌, ◌==◌, ◌≡◌, refl, some, if◌then◌else◌, arith}
use inputshare.BTreeMap.{BTreeMap, get, insert, remove, Above, IsSorted, All}

module _ {ℓ} {V : Type ℓ} where
  pub get-insert :
      (m : BTreeMap V) (k : ℕ) (w : V) (j : ℕ)
      → get (insert m k w) j ≡ (if k == j then some w else get m j)
  unfolding get insert
  get-insert [] k w j = refl
  get-insert ((i, v) ∷ m) k w j = ground (arith, get-insert m k w j)

  pub get-remove :
      (m : BTreeMap V) (k j : ℕ) → get (remove m k) j ≡ (if k == j then none else get m j)
  unfolding get remove
  get-remove [] k j = ground arith
  get-remove ((i, v) ∷ m) k j = ground (arith, get-remove m k j)

  Above-insert :
      (m : BTreeMap V) (k : ℕ) (w : V) (b : ℕ) → b < k → Above b m → Above b (insert m k w)
  unfolding insert
  Above-insert [] k w b h a = (h, tt)
  Above-insert ((j, v) ∷ m) k w b h a = ground (arith, Above-insert m k w b)

  pub Above-weaken : (m : BTreeMap V) (b c : ℕ) → b ≤ c → Above c m → Above b m
  Above-weaken [] b c h a = tt
  Above-weaken ((j, v) ∷ m) b c h a = (omega arith, Above-weaken m b c h a.1)

  pub insert-IsSorted : (m : BTreeMap V) (k : ℕ) (w : V) → IsSorted m → IsSorted (insert m k w)
  unfolding insert
  insert-IsSorted [] k w s = (tt, tt)
  insert-IsSorted ((j, v) ∷ m) k w s =
      ground (arith, insert-IsSorted m k w, Above-insert m k w j, Above-weaken m k j)

module _ {ℓ κ} {V : Type ℓ} (P : ℕ → V → Type κ) where
  pub All-insert : (m : BTreeMap V) (k : ℕ) (w : V) → P k w → All P m → All P (insert m k w)
  unfolding insert
  All-insert [] k w p a = (p, tt)
  All-insert ((j, v) ∷ m) k w p a = ground (arith, All-insert m k w)

  pub All-imp {μ} :
      (Q : ℕ → V → Type μ) (m : BTreeMap V) → ((k : ℕ) (v : V) → P k v → Q k v) → All P m → All Q m
  All-imp Q [] f a = tt
  All-imp Q ((j, v) ∷ m) f a = (f j v a.0, All-imp Q m f a.1)

  pub All-get : (m : BTreeMap V) (k : ℕ) (v : V) → All P m → get m k ≡ some v → P k v
  unfolding get
  All-get [] k v a h = ground arith
  All-get ((j, w) ∷ m) k v a h = ground (arith, All-get m k v)

module _ {ℓ} {V : Type ℓ} where
  get-Above :
      (m n : BTreeMap V) (j : ℕ) (w : V)
      → Above j n
      → All (λ k v. get m k ≡ some v) n
      → All (λ k v. get ((j, w) ∷ m) k ≡ some v) n
  unfolding get
  get-Above m [] j w b a = tt
  get-Above m ((k, v) ∷ n) j w b a = (ground arith, get-Above m n j w b.1 a.1)

  -- In a sorted map each entry is the one that a lookup of its key finds.
  pub get-entries : (m : BTreeMap V) → IsSorted m → All (λ k v. get m k ≡ some v) m
  unfolding get
  get-entries [] s = tt
  get-entries ((j, w) ∷ m) s = (ground arith, get-Above m m j w s.0 (get-entries m s.1))
