-- ===== src/Stamp.antt =====
-- crates/is-core/src/stamp.rs: Lamport stamps and last-writer-wins registers. The wall clock that
-- `Stamp::new` reads is an argument here.
pub mod Order
use Prim.Native.Nat.{compare, Ordering}
use inputshare.Base.{ℕ, Bool, true, false}

pub record Stamp : Type 0 where
  pub lamport : ℕ
  pub origin : ℕ
  pub wall_clock_ms : ℕ

unfoldable pub new : ℕ → ℕ → ℕ → Stamp
new lamport origin now_ms = record { lamport = lamport; origin = origin; wall_clock_ms = now_ms }

-- The comparison key: the wall clock is not part of it.
abbrev pub key : Stamp → ℕ × ℕ
key s = (s.lamport, s.origin)

-- Tuples compare lexicographically.
unfoldable pub cmp : Stamp → Stamp → Ordering
cmp a b = elim (compare a.lamport b.lamport) [
  | Ordering.eq ↦ compare a.origin b.origin
  | Ordering.lt ↦ Ordering.lt
  | Ordering.gt ↦ Ordering.gt
]

-- `a > b`
unfoldable pub newer : Stamp → Stamp → Bool
unfolding cmp
newer a b = elim (cmp a b) [ Ordering.gt ↦ true | _ ↦ false ]

-- `a >= b`
unfoldable pub not_older : Stamp → Stamp → Bool
unfolding cmp
not_older a b = elim (cmp a b) [ Ordering.lt ↦ false | _ ↦ true ]

pub record Lww {ℓ} (A : Type ℓ) : Type ℓ where
  pub value : A
  pub stamp : Stamp

-- Adopts `incoming` if it is newer, and says whether the register changed.
unfoldable pub merge {ℓ} : {A : Type ℓ} → Lww A → Lww A → Bool × Lww A
merge {A} self incoming = elim (newer incoming.stamp self.stamp) [
  | true ↦ (true, incoming)
  | false ↦ (false, self)
]
