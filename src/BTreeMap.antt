-- ===== src/BTreeMap.antt =====
-- The standard library's `BTreeMap` with machine ids as keys: the entries in the order of the keys,
-- which is the order of iteration. An id is a 128-bit number, its bytes read big-endian, so that
-- the order of the numbers is the order of the byte arrays.
pub mod Laws
pub mod Ext
use inputshare.Base.{
  ℕ, ◌<◌, Option, none, some, Bool, true, List, [], ◌∷◌, ◌==◌, ◌≡◌, if◌then◌else◌,
}
use Prim.Native.Nat.{compare, Ordering}

abbrev pub BTreeMap {ℓ} : Type ℓ → Type ℓ
BTreeMap V = List (ℕ × V)

module _ {ℓ} {V : Type ℓ} where
  unfoldable pub get : BTreeMap V → ℕ → Option V
  get [] k = none
  get ((j, v) ∷ m) k = if j == k then some v else get m k

  -- Adds an entry, or replaces the value of a key that is there.
  unfoldable pub insert : BTreeMap V → ℕ → V → BTreeMap V
  insert [] k w = (k, w) ∷ []
  insert ((j, v) ∷ m) k w = elim (compare k j) [
    | Ordering.lt ↦ (k, w) ∷ (j, v) ∷ m
    | Ordering.eq ↦ (k, w) ∷ m
    | Ordering.gt ↦ (j, v) ∷ insert m k w
  ]

  -- Drops the entry of a key.
  unfoldable pub remove : BTreeMap V → ℕ → BTreeMap V
  remove [] k = []
  remove ((j, v) ∷ m) k = let rest = remove m k in if j == k then rest else (j, v) ∷ rest

  unfoldable pub keys : BTreeMap V → List ℕ
  keys [] = []
  keys ((j, v) ∷ m) = j ∷ keys m

  unfoldable pub values : BTreeMap V → List V
  values [] = []
  values ((j, v) ∷ m) = v ∷ values m

  -- Every key lies above `b`.
  abbrev pub Above : ℕ → BTreeMap V → Type 0
  Above b [] = Unit
  Above b ((j, v) ∷ m) = (b < j) × Above b m

  abbrev pub IsSorted : BTreeMap V → Type 0
  IsSorted [] = Unit
  IsSorted ((j, v) ∷ m) = Above j m × IsSorted m

  -- A statement about every entry.
  abbrev pub All {κ} : (ℕ → V → Type κ) → BTreeMap V → Type κ
  All P [] = Unit
  All P ((j, v) ∷ m) = P j v × All P m
