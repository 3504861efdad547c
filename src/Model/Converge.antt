-- ===== src/Model/Converge.antt =====
-- Whole documents: the merge is a join, so machines that merge one another's documents agree
-- whichever merges first.
use inputshare.Base.{ℕ, Bool, some, ◌≡◌, refl, sym, ◌∙◌, max, arith}
use inputshare.BTreeMap.{get, IsSorted}
use inputshare.BTreeMap.Ext.{ext}
use inputshare.Stamp.{key}
use inputshare.Model.{MachineSlot, WorkspaceDoc, ok}
use inputshare.Model.Invariant.{IsValid, after, merge-IsValid, later_clock, SlotValid}
use inputshare.BTreeMap.Laws.{All-imp}
use inputshare.Model.Sync.{merge, merge_slots}
use inputshare.Model.Sync.Guard.{merge-ok, merge_start, registers_changed}
use inputshare.Model.Sync.Slots.{
  merge_slots-SameRegisters, merge_slots-view, merge_slots-lamport, merge_slots-IsSorted,
}
use inputshare.Model.Sync.Newest.{
  later, newest, merge-eq_later, later_self, later_assoc, later_comm, newest_self, newest_assoc,
  newest_comm,
}

-- The document that `merge` leaves, whether it accepts the peer's or not.
abbrev pub merged : WorkspaceDoc → WorkspaceDoc → WorkspaceDoc
merged d p = after d (merge d p)

-- `e` holds, in each register and slot, the later write of `d` and `p`.
pub record IsJoin (d p e : WorkspaceDoc) : Type 0 where
  pub workspace_id : e.workspace_id ≡ d.workspace_id
  pub schema_version : e.schema_version ≡ d.schema_version
  pub name : e.name ≡ later d.name p.name
  pub settings : e.settings ≡ later d.settings p.settings
  pub lamport : e.lamport ≡ max d.lamport p.lamport
  pub sorted : IsSorted e.machines
  pub slots : (id : ℕ) → get e.machines id ≡ newest (get d.machines id) (get p.machines id)

pub IsJoin-ext : {d p a b : WorkspaceDoc} → IsJoin d p a → IsJoin d p b → a ≡ b
IsJoin-ext {d} {p} {a} {b} h k = cc (
  h.workspace_id,
  k.workspace_id,
  h.schema_version,
  k.schema_version,
  h.name,
  k.name,
  h.settings,
  k.settings,
  h.lamport,
  k.lamport,
  ext a.machines b.machines h.sorted k.sorted (λ id. h.slots id ∙ sym (k.slots id)),
)

-- Merging a valid document of the same workspace succeeds, and keeps of each register and slot
-- the later write.
pub merge-IsJoin :
    (d p : WorkspaceDoc)
    → IsValid d
    → IsValid p
    → p.workspace_id ≡ d.workspace_id
    → (changed : Bool) × (e : WorkspaceDoc) × (merge d p ≡ ok (changed, e)) × IsJoin d p e
merge-IsJoin d p v w e =
    let start = merge_start d p in
    let flag = registers_changed d p in
    let clock = max d.lamport p.lamport in
    let same = merge_slots-SameRegisters start flag p.machines in
    let heard = later_clock p.lamport clock p.machines (omega arith) w.slots in
    (
      (merge_slots start flag p.machines).0,
      (merge_slots start flag p.machines).1,
      merge-ok d p e,
      record {
        workspace_id = same.workspace_id;
        schema_version = same.schema_version;
        name = same.name ∙ merge-eq_later d.name p.name;
        settings = same.settings ∙ merge-eq_later d.settings p.settings;
        lamport =
            merge_slots-lamport start flag p.machines
              (All-imp (SlotValid clock) _ p.machines (λ _ _ q. q.0) heard);
        sorted = merge_slots-IsSorted start flag p.machines v.sorted;
        slots = λ id. merge_slots-view start flag p.machines id w.sorted;
      },
    )

pub merged-IsJoin :
    (d p : WorkspaceDoc)
    → IsValid d
    → IsValid p
    → p.workspace_id ≡ d.workspace_id
    → IsJoin d p (merged d p)
merged-IsJoin d p v w e = let (changed, f, q, j) = merge-IsJoin d p v w e in rw q j

-- One stamp belongs to one write: what two documents hold under one stamp is the same.
pub record AreConsistent (d p : WorkspaceDoc) : Type 0 where
  pub name : key d.name.stamp ≡ key p.name.stamp → d.name ≡ p.name
  pub settings : key d.settings.stamp ≡ key p.settings.stamp → d.settings ≡ p.settings
  pub slots :
      (id : ℕ) (a b : MachineSlot)
      → get d.machines id ≡ some a
      → get p.machines id ≡ some b
      → key a.stamp ≡ key b.stamp
      → a ≡ b

-- Two machines that merge each other's valid documents of one workspace and schema, in which one
-- stamp belongs to one write, end with the same document.
pub merge_comm :
    (d p : WorkspaceDoc)
    → IsValid d
    → IsValid p
    → p.workspace_id ≡ d.workspace_id
    → p.schema_version ≡ d.schema_version
    → AreConsistent d p
    → merged d p ≡ merged p d
merge_comm d p v w e s c =
    let j = merged-IsJoin p d w v (sym e) in
    IsJoin-ext (merged-IsJoin d p v w e) (record {
      workspace_id = j.workspace_id ∙ e;
      schema_version = j.schema_version ∙ s;
      name = j.name ∙ sym (later_comm d.name p.name c.name);
      settings = j.settings ∙ sym (later_comm d.settings p.settings c.settings);
      lamport = j.lamport ∙ omega arith;
      sorted = j.sorted;
      slots = λ id. j.slots id ∙ sym (newest_comm _ _ (c.slots id));
    })

-- Merging a valid document into itself changes nothing.
pub merge_idem : (d : WorkspaceDoc) → IsValid d → merged d d ≡ d
merge_idem d v = IsJoin-ext (merged-IsJoin d d v v refl) (record {
  workspace_id = refl;
  schema_version = refl;
  name = sym (later_self d.name);
  settings = sym (later_self d.settings);
  lamport = omega arith;
  sorted = v.sorted;
  slots = λ id. sym (newest_self _);
})

-- Which of three valid documents of one workspace are merged first makes no difference.
pub merge_assoc :
    (d p q : WorkspaceDoc)
    → IsValid d
    → IsValid p
    → IsValid q
    → p.workspace_id ≡ d.workspace_id
    → q.workspace_id ≡ d.workspace_id
    → merged (merged d p) q ≡ merged d (merged p q)
merge_assoc d p q v w u e f =
    let a = merged-IsJoin d p v w e in
    let b = merged-IsJoin (merged d p) q (merge-IsValid d p v w) u (f ∙ sym a.workspace_id) in
    let g = merged-IsJoin p q w u (f ∙ sym e) in
    let h = merged-IsJoin d (merged p q) v (merge-IsValid p q w u) (g.workspace_id ∙ e) in
    IsJoin-ext {d = d} {p = merged p q}
      (record {
        workspace_id = b.workspace_id ∙ a.workspace_id;
        schema_version = b.schema_version ∙ a.schema_version;
        name = cc (b.name, a.name, g.name, later_assoc d.name p.name q.name);
        settings =
            cc (b.settings, a.settings, g.settings, later_assoc d.settings p.settings q.settings);
        lamport = (let x = b.lamport in let y = a.lamport in let z = g.lamport in omega arith);
        sorted = b.sorted;
        slots = λ id. cc (
          b.slots id,
          a.slots id,
          g.slots id,
          newest_assoc (get d.machines id) (get p.machines id) (get q.machines id),
        );
      })
      h
