-- ===== src/Model/Query/Present.antt =====
-- The records that `machines_present` lists are those that `machine` finds under their own ids.
use inputshare.Base.{
  ℕ, ◌<◌, some, List, [], ◌∷◌, ◌≡◌, refl, Each, arith, Bool-cases, inl, inr, ◌==◌,
}
use mathlib.Core.Path.{subst}
use inputshare.BTreeMap.{BTreeMap, get, values, IsSorted, Above, All}
use inputshare.Model.{MachineRecord, MachineSlot, present, removed, SlotState, WorkspaceDoc}
use inputshare.Model.Invariant.{IsValid, SlotValid, Owns}
use inputshare.Model.Query.{machine, machines_present, present_records, record_of, keep}

Each-keep {κ} :
    (P : MachineRecord → Type κ) (st : SlotState) (rest : List MachineRecord)
    → ((r : MachineRecord) → st ≡ present r → P r)
    → Each P rest
    → Each P (keep st rest)
Each-keep P (present m) rest f a = (f m refl, a)
Each-keep P removed rest f a = a

pub owned_id :
    (id : ℕ) (st : SlotState) (r : MachineRecord) → st ≡ present r → Owns id st → r.id ≡ id
owned_id id (present m) r e h = cc
owned_id id removed r e h = cc

Above-ids :
    (b clock : ℕ) (m : BTreeMap MachineSlot)
    → Above b m
    → All (SlotValid clock) m
    → Each (λ r. b < r.id) (present_records (values m))
unfolding present_records values
Above-ids b clock [] a v = tt
Above-ids b clock ((j, slot) ∷ m) a v =
    Each-keep (λ r. b < r.id) slot.state (present_records (values m))
      (λ r e. let q = owned_id j slot.state r e v.0.1 in omega arith) (Above-ids b clock m a.1 v.1)

found_below :
    (j : ℕ) (slot : MachineSlot) (m : BTreeMap MachineSlot) (rs : List MachineRecord)
    → Each (λ r. j < r.id) rs
    → Each (λ r. record_of (get m r.id) ≡ some r) rs
    → Each (λ r. record_of (get ((j, slot) ∷ m) r.id) ≡ some r) rs
unfolding get
found_below j slot m [] a f = tt
found_below j slot m (r ∷ rs) a f = (ground arith, found_below j slot m rs a.1 f.1)

found_head :
    (j : ℕ) (slot : MachineSlot) (m : BTreeMap MachineSlot) (r : MachineRecord)
    → slot.state ≡ present r
    → r.id ≡ j
    → record_of (get ((j, slot) ∷ m) r.id) ≡ some r
unfolding get
found_head j slot m r e h = ground arith

found-Each :
    (clock : ℕ) (m : BTreeMap MachineSlot)
    → IsSorted m
    → All (SlotValid clock) m
    → Each (λ r. record_of (get m r.id) ≡ some r) (present_records (values m))
unfolding present_records values
found-Each clock [] s v = tt
found-Each clock ((j, slot) ∷ m) s v =
    let rest =
      found_below j slot m (present_records (values m)) (Above-ids j clock m s.0 v.1)
        (found-Each clock m s.1 v.1) in
    Each-keep (λ r. record_of (get ((j, slot) ∷ m) r.id) ≡ some r) slot.state
      (present_records (values m))
      (λ r e. found_head j slot m r e (owned_id j slot.state r e v.0.1)) rest

-- Every record that is listed is the one under its own id.
pub present-found :
    (d : WorkspaceDoc) → IsValid d → Each (λ r. machine d r.id ≡ some r) (machines_present d)
unfolding machine machines_present
present-found d v = found-Each d.lamport d.machines v.sorted v.slots

Each-head {κ} :
    (P : MachineRecord → Type κ) (st : SlotState) (rest : List MachineRecord)
    → Each P (keep st rest)
    → ((r : MachineRecord) → st ≡ present r → P r) × Each P rest
Each-head P (present m) rest a = (λ r e. subst P (cc) a.0, a.1)
Each-head P removed rest a = (λ r e. cc, a)

record_of-present :
    (slot : MachineSlot) (r : MachineRecord)
    → record_of (some slot) ≡ some r
    → slot.state ≡ present r
record_of-present slot r e = ground arith

lookup_each {κ} :
    (P : MachineRecord → Type κ) (m : BTreeMap MachineSlot) (id : ℕ) (r : MachineRecord)
    → Each P (present_records (values m))
    → record_of (get m id) ≡ some r
    → P r
unfolding present_records values get
lookup_each P [] id r a e = cc
lookup_each P ((j, slot) ∷ m) id r a e =
    let parts = Each-head P slot.state (present_records (values m)) a in
    elim (Bool-cases (j == id)) [
      | inl q ↦ parts.0 r (record_of-present slot r (rw q at e))
      | inr q ↦ lookup_each P m id r parts.1 (rw q at e)
    ]

-- What holds of every record that is listed holds of each that is found.
pub present-lookup {κ} :
    (P : MachineRecord → Type κ) (d : WorkspaceDoc) (id : ℕ) (r : MachineRecord)
    → Each P (machines_present d)
    → machine d id ≡ some r
    → P r
unfolding machine machines_present
present-lookup P d id r a e = lookup_each P d.machines id r a e
