-- ===== src/Model/Sync/Slots.antt =====
-- `merge_slot` and the loop of `merge`, read key by key.
use inputshare.Base.{
  ℕ, ◌≤◌, max, Bool, ◌||◌, Option, none, some, [], ◌∷◌, ◌==◌, ◌≡◌, refl, ◌∙◌, if◌then◌else◌, arith,
}
use inputshare.BTreeMap.{BTreeMap, get, IsSorted, All}
use inputshare.BTreeMap.Laws.{get-insert, insert-IsSorted, All-insert}
use inputshare.BTreeMap.Ext.{get-Above}
use inputshare.Stamp.{newer, not_older}
use inputshare.Model.{MachineSlot, WorkspaceDoc}
use inputshare.Model.Sync.{merge_slot, merge_slots}
use inputshare.Model.Sync.Newest.{newest}

module _ (m : BTreeMap MachineSlot) (id : ℕ) (slot : MachineSlot) where
  pub get-merge_slot :
      (j : ℕ)
      → get (merge_slot m id slot).1 j ≡ (if id == j then newest (get m j) (some slot) else get m j)
  unfolding merge_slot not_older newer
  get-merge_slot j = ground (arith, get-insert m id slot j)

  pub merge_slot-IsSorted : IsSorted m → IsSorted (merge_slot m id slot).1
  unfolding merge_slot
  merge_slot-IsSorted s = ground (arith, insert-IsSorted m id slot s)

  pub merge_slot-All {κ} :
      (P : ℕ → MachineSlot → Type κ) → P id slot → All P m → All P (merge_slot m id slot).1
  unfolding merge_slot
  merge_slot-All P p a = ground (arith, All-insert P m id slot p a)

newest-none : (o : Option MachineSlot) → newest o none ≡ o
newest-none none = refl
newest-none (some a) = refl

-- The document after one round of the loop.
abbrev pub round : WorkspaceDoc → ℕ → MachineSlot → WorkspaceDoc
round d id slot = record d {
  lamport = max d.lamport slot.stamp.lamport;
  machines = (merge_slot d.machines id slot).1;
}

pub merge_slots-view :
    (d : WorkspaceDoc) (changed : Bool) (o : BTreeMap MachineSlot) (j : ℕ)
    → IsSorted o
    → get (merge_slots d changed o).1.machines j ≡ newest (get d.machines j) (get o j)
unfolding merge_slots get
merge_slots-view d changed [] j s = rw newest-none
merge_slots-view d changed ((id, slot) ∷ o) j s =
    let x = get d.machines j in
    ground (
      arith,
      merge_slots-view (round d id slot) (changed || (merge_slot d.machines id slot).0) o j s.1,
      get-merge_slot d.machines id slot j,
      get-Above o id j s.0,
      newest-none (newest x (some slot)),
    )

pub merge_slots-IsSorted :
    (d : WorkspaceDoc) (changed : Bool) (o : BTreeMap MachineSlot)
    → IsSorted d.machines
    → IsSorted (merge_slots d changed o).1.machines
unfolding merge_slots
merge_slots-IsSorted d changed [] s = s
merge_slots-IsSorted d changed ((id, slot) ∷ o) s =
    merge_slots-IsSorted (round d id slot) (changed || (merge_slot d.machines id slot).0) o
      (merge_slot-IsSorted d.machines id slot s)

pub merge_slots-All {κ} :
    (P : ℕ → MachineSlot → Type κ) (d : WorkspaceDoc) (changed : Bool) (o : BTreeMap MachineSlot)
    → All P d.machines
    → All P o
    → All P (merge_slots d changed o).1.machines
unfolding merge_slots
merge_slots-All P d changed [] a b = a
merge_slots-All P d changed ((id, slot) ∷ o) a b =
    merge_slots-All P (round d id slot) (changed || (merge_slot d.machines id slot).0) o
      (merge_slot-All d.machines id slot P b.0 a) b.1

-- What the loop leaves alone.
pub record SameRegisters (d e : WorkspaceDoc) : Type 0 where
  pub workspace_id : e.workspace_id ≡ d.workspace_id
  pub schema_version : e.schema_version ≡ d.schema_version
  pub name : e.name ≡ d.name
  pub settings : e.settings ≡ d.settings

pub merge_slots-SameRegisters :
    (d : WorkspaceDoc) (changed : Bool) (o : BTreeMap MachineSlot)
    → SameRegisters d (merge_slots d changed o).1
unfolding merge_slots
merge_slots-SameRegisters d changed [] = record {
  workspace_id = refl;
  schema_version = refl;
  name = refl;
  settings = refl;
}
merge_slots-SameRegisters d changed ((id, slot) ∷ o) =
    let r =
      merge_slots-SameRegisters (round d id slot) (changed || (merge_slot d.machines id slot).0)
        o in
    record {
      workspace_id = r.workspace_id;
      schema_version = r.schema_version;
      name = r.name;
      settings = r.settings;
    }

-- The clock ends at the highest time that it met.
pub merge_slots-lamport :
    (d : WorkspaceDoc) (changed : Bool) (o : BTreeMap MachineSlot)
    → All (λ _ slot. slot.stamp.lamport ≤ d.lamport) o
    → (merge_slots d changed o).1.lamport ≡ d.lamport
unfolding merge_slots
merge_slots-lamport d changed [] a = refl
merge_slots-lamport d changed ((id, slot) ∷ o) a =
    let e : max d.lamport slot.stamp.lamport ≡ d.lamport = omega arith in
    merge_slots-lamport (round d id slot) (changed || (merge_slot d.machines id slot).0) o
      (rw e a.1)
    ∙ e
