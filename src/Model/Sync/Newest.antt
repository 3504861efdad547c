-- ===== src/Model/Sync/Newest.antt =====
-- The later of two writes to one register or slot, as a join: the order on stamps makes it
-- associative, and commutative where one stamp belongs to one write.
use inputshare.Base.{◌≡◌, refl, Option, none, some, if◌then◌else◌, arith}
use inputshare.Stamp
use inputshare.Stamp.{Stamp, Lww, key, newer}
use inputshare.Stamp.Order.{newer_irrefl, newer_asymm, newer_trans, newer_mono, key_of_not_newer}
use inputshare.Model.{MachineSlot}

abbrev pub later {ℓ} : {A : Type ℓ} → Lww A → Lww A → Lww A
later a b = if newer b.stamp a.stamp then b else a

abbrev later_slot : MachineSlot → MachineSlot → MachineSlot
later_slot a b = if newer b.stamp a.stamp then b else a

abbrev pub newest : Option MachineSlot → Option MachineSlot → Option MachineSlot
newest none b = b
newest (some a) none = some a
newest (some a) (some b) = some (later_slot a b)

pub merge-eq_later : {A : Type 0} (a b : Lww A) → (Stamp.merge a b).1 ≡ later a b
unfolding Stamp.merge
merge-eq_later a b = ground arith

pub later_self : {A : Type 0} (a : Lww A) → later a a ≡ a
later_self a = rw (newer_irrefl a.stamp)

pub later_assoc : {A : Type 0} (a b c : Lww A) → later (later a b) c ≡ later a (later b c)
later_assoc a b c = ground (
  arith,
  newer_trans c.stamp b.stamp a.stamp,
  newer_mono c.stamp b.stamp a.stamp,
  newer_mono b.stamp c.stamp a.stamp,
)

pub later_comm :
    {A : Type 0} (a b : Lww A) → (key a.stamp ≡ key b.stamp → a ≡ b) → later a b ≡ later b a
later_comm a b same = ground (arith, newer_asymm a.stamp b.stamp, key_of_not_newer a.stamp b.stamp)

slot_assoc : (a b c : MachineSlot) → later_slot (later_slot a b) c ≡ later_slot a (later_slot b c)
slot_assoc a b c = ground (
  arith,
  newer_trans c.stamp b.stamp a.stamp,
  newer_mono c.stamp b.stamp a.stamp,
  newer_mono b.stamp c.stamp a.stamp,
)

slot_comm :
    (a b : MachineSlot) → (key a.stamp ≡ key b.stamp → a ≡ b) → later_slot a b ≡ later_slot b a
slot_comm a b same = ground (arith, newer_asymm a.stamp b.stamp, key_of_not_newer a.stamp b.stamp)

pub newest_self : (o : Option MachineSlot) → newest o o ≡ o
newest_self none = refl
newest_self (some a) = rw (newer_irrefl a.stamp)

pub newest_assoc : (a b c : Option MachineSlot) → newest (newest a b) c ≡ newest a (newest b c)
newest_assoc none b c = refl
newest_assoc (some a) none c = refl
newest_assoc (some a) (some b) none = refl
newest_assoc (some a) (some b) (some c) = rw (slot_assoc a b c)

pub newest_comm :
    (o p : Option MachineSlot)
    → ((a b : MachineSlot) → o ≡ some a → p ≡ some b → key a.stamp ≡ key b.stamp → a ≡ b)
    → newest o p ≡ newest p o
newest_comm none none same = refl
newest_comm none (some b) same = refl
newest_comm (some a) none same = refl
newest_comm (some a) (some b) same = rw (slot_comm a b (same a b refl refl))
