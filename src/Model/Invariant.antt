-- ===== src/Model/Invariant.antt =====
-- The invariant of a workspace document, kept by its edits and by what it takes from peers.
use native.Mathlib.Decide.{ℕ_discrete}
use inputshare.Base.{max, ℕ, ◌+◌, ◌≤◌, ◌<◌, String, Bool, ◌≡◌, refl, arith}
use inputshare.BTreeMap.{BTreeMap, IsSorted, All, insert}
use inputshare.BTreeMap.Laws.{All-imp, All-insert, insert-IsSorted}
use inputshare.Stamp
use inputshare.Stamp.{Stamp, Lww, newer}
use inputshare.Model.{
  MachineRecord, SlotState, present, removed, MachineSlot, Op, WorkspaceUpdate, WorkspaceDoc,
  Result, ok, err, u64_mod,
}
use inputshare.Model.Edits.{create, edit, set_name, set_settings, upsert_machine, remove_machine}
use inputshare.Model.Sync.{apply, apply_op, observe, merge, merge_slots}
use inputshare.Model.Sync.Guard.{
  apply-ok, apply-err, merge-ok, merge-err, merge_start, registers_changed,
}
use inputshare.Model.Sync.Slots.{
  merge_slot-IsSorted, merge_slot-All, merge_slots-IsSorted, merge_slots-All,
  merge_slots-SameRegisters, merge_slots-lamport,
}

-- A slot was written no later than the clock, and holds the record of its own key.
abbrev pub Owns : ℕ → SlotState → Type 0
Owns id (present m) = m.id ≡ id
Owns id removed = Unit

abbrev pub SlotValid : ℕ → ℕ → MachineSlot → Type 0
SlotValid clock id slot = (slot.stamp.lamport ≤ clock) × Owns id slot.state

pub record IsValid (d : WorkspaceDoc) : Type 0 where
  pub sorted : IsSorted d.machines
  pub name_seen : d.name.stamp.lamport ≤ d.lamport
  pub settings_seen : d.settings.stamp.lamport ≤ d.lamport
  pub slots : All (SlotValid d.lamport) d.machines

pub later_clock :
    (c e : ℕ) (m : BTreeMap MachineSlot) → c ≤ e → All (SlotValid c) m → All (SlotValid e) m
later_clock c e m h =
    All-imp (SlotValid c) (SlotValid e) m
      λ k v p. (let q : v.stamp.lamport ≤ c = p.0 in omega arith, p.1)

-- A new workspace obeys the invariant: sorted slots, each under its own id, no write after the
-- clock.
pub create-IsValid :
    (name : String) (founder : MachineRecord) (uuid now_ms : ℕ)
    → IsValid (create name founder uuid now_ms)
unfolding create insert
create-IsValid name founder uuid now_ms = omega arith

insert-valid :
    (c e : ℕ) (m : BTreeMap MachineSlot) (id : ℕ) (slot : MachineSlot)
    → c ≤ e
    → SlotValid e id slot
    → All (SlotValid c) m
    → All (SlotValid e) (insert m id slot)
insert-valid c e m id slot h p a = All-insert (SlotValid e) m id slot p (later_clock c e m h a)

-- A local edit keeps the invariant, as long as the clock is not at its last value.
pub edit-IsValid :
    (d : WorkspaceDoc) (origin now_ms : ℕ) (op : Op)
    → IsValid d
    → d.lamport + 1 < u64_mod
    → IsValid (edit d origin now_ms op).0
unfolding set_name set_settings upsert_machine remove_machine Stamp.new
edit-IsValid d origin now_ms (Op.set_name name) v room = record {
  sorted = v.sorted;
  name_seen = omega arith;
  settings_seen = omega arith;
  slots = later_clock d.lamport _ d.machines (omega arith) v.slots;
}
edit-IsValid d origin now_ms (Op.set_settings settings) v room = record {
  sorted = v.sorted;
  name_seen = omega arith;
  settings_seen = omega arith;
  slots = later_clock d.lamport _ d.machines (omega arith) v.slots;
}
edit-IsValid d origin now_ms (Op.upsert_machine m) v room = record {
  sorted = insert-IsSorted d.machines m.id _ v.sorted;
  name_seen = omega arith;
  settings_seen = omega arith;
  slots = insert-valid d.lamport _ d.machines m.id _ (omega arith) (omega arith, refl) v.slots;
}
edit-IsValid d origin now_ms (Op.remove_machine id) v room = record {
  sorted = insert-IsSorted d.machines id _ v.sorted;
  name_seen = omega arith;
  settings_seen = omega arith;
  slots = insert-valid d.lamport _ d.machines id _ (omega arith) (omega arith, tt) v.slots;
}

-- The document after a call that may be refused: an error leaves it as it was.
abbrev pub after : WorkspaceDoc → Result (Bool × WorkspaceDoc) → WorkspaceDoc
after d (ok (changed, e)) = e
after d (err e) = d

apply_op-IsValid :
    (d : WorkspaceDoc) (stamp : Stamp) (op : Op)
    → IsValid d
    → stamp.lamport ≤ d.lamport
    → IsValid (apply_op d stamp op).1
unfolding apply_op
apply_op-IsValid d stamp (Op.set_name name) v h = record {
  sorted = v.sorted;
  name_seen = ground arith;
  settings_seen = v.settings_seen;
  slots = v.slots;
}
apply_op-IsValid d stamp (Op.set_settings settings) v h = record {
  sorted = v.sorted;
  name_seen = v.name_seen;
  settings_seen = ground arith;
  slots = v.slots;
}
apply_op-IsValid d stamp (Op.upsert_machine m) v h = record {
  sorted = merge_slot-IsSorted d.machines m.id _ v.sorted;
  name_seen = v.name_seen;
  settings_seen = v.settings_seen;
  slots = merge_slot-All d.machines m.id _ (SlotValid d.lamport) (h, refl) v.slots;
}
apply_op-IsValid d stamp (Op.remove_machine id) v h = record {
  sorted = merge_slot-IsSorted d.machines id _ v.sorted;
  name_seen = v.name_seen;
  settings_seen = v.settings_seen;
  slots = merge_slot-All d.machines id _ (SlotValid d.lamport) (h, tt) v.slots;
}

observe-IsValid : (d : WorkspaceDoc) (lamport : ℕ) → IsValid d → IsValid (observe d lamport)
unfolding observe
observe-IsValid d lamport v = record {
  sorted = v.sorted;
  name_seen = (let a = v.name_seen in omega arith);
  settings_seen = (let a = v.settings_seen in omega arith);
  slots = later_clock d.lamport _ d.machines (omega arith) v.slots;
}

seen-observe : (d : WorkspaceDoc) (lamport : ℕ) → lamport ≤ (observe d lamport).lamport
unfolding observe
seen-observe d lamport = omega arith

later-seen :
    {A : Type 0} (a b : Lww A) (c e : ℕ)
    → a.stamp.lamport ≤ c
    → b.stamp.lamport ≤ e
    → (Stamp.merge a b).1.stamp.lamport ≤ max c e
unfolding Stamp.merge
later-seen a b c e h k = ground arith

merge_slots-IsValid :
    (d p : WorkspaceDoc)
    → IsValid d
    → IsValid p
    → IsValid (merge_slots (merge_start d p) (registers_changed d p) p.machines).1
merge_slots-IsValid d p v w =
    let start = merge_start d p in
    let clock = max d.lamport p.lamport in
    let same = merge_slots-SameRegisters start (registers_changed d p) p.machines in
    let heard = later_clock p.lamport clock p.machines (omega arith) w.slots in
    let mine = later_clock d.lamport clock d.machines (omega arith) v.slots in
    let lamport =
      merge_slots-lamport start (registers_changed d p) p.machines
        (All-imp (SlotValid clock) _ p.machines (λ _ _ q. q.0) heard) in
    record {
      sorted = merge_slots-IsSorted start (registers_changed d p) p.machines v.sorted;
      name_seen =
          rw (same.name, lamport)
            (later-seen d.name p.name d.lamport p.lamport v.name_seen w.name_seen);
      settings_seen =
          rw (same.settings, lamport)
            (later-seen d.settings p.settings d.lamport p.lamport v.settings_seen w.settings_seen);
      slots =
          rw lamport
            (merge_slots-All (SlotValid clock) start (registers_changed d p) p.machines mine heard);
    }

-- Any update, accepted or refused, keeps the invariant of the document.
pub apply-IsValid :
    (d : WorkspaceDoc) (u : WorkspaceUpdate) → IsValid d → IsValid (after d (apply d u))
apply-IsValid d u v = elim (ℕ_discrete u.workspace_id d.workspace_id) [
  | yes e ↦ rw (apply-ok d u e) (
      apply_op-IsValid (observe d u.stamp.lamport) u.stamp u.op
        (observe-IsValid d u.stamp.lamport v) (seen-observe d u.stamp.lamport))
  | no n ↦ rw (apply-err d u n) v
]

-- Merging any valid document, accepted or refused, keeps the invariant.
pub merge-IsValid :
    (d peer : WorkspaceDoc) → IsValid d → IsValid peer → IsValid (after d (merge d peer))
merge-IsValid d peer v w = elim (ℕ_discrete peer.workspace_id d.workspace_id) [
  | yes e ↦ rw (merge-ok d peer e) (merge_slots-IsValid d peer v w)
  | no n ↦ rw (merge-err d peer n) v
]
