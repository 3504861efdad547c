-- ===== src/Model/Schema.antt =====
-- crates/is-core/src/model.rs: nothing that is done to a document changes its schema version.
use native.Mathlib.Decide.{ℕ_discrete}
use inputshare.Base.{ℕ, Bool, [], ◌∷◌, ◌≡◌, refl}
use inputshare.BTreeMap.{BTreeMap}
use inputshare.Model.{MachineSlot, Op, WorkspaceDoc, WorkspaceUpdate}
use inputshare.Model.Edits.{edit, set_name, set_settings, upsert_machine, remove_machine}
use inputshare.Model.Sync.{apply, apply_op, observe, merge, merge_slots, merge_slot}
use inputshare.Model.Sync.Guard.{
  apply-ok, apply-err, merge-ok, merge-err, merge_start, registers_changed,
}
use inputshare.Model.Invariant.{after}

pub edit_schema :
    (d : WorkspaceDoc) (origin now_ms : ℕ) (op : Op)
    → (edit d origin now_ms op).0.schema_version ≡ d.schema_version
unfolding set_name set_settings upsert_machine remove_machine
edit_schema d origin now_ms (Op.set_name name) = refl
edit_schema d origin now_ms (Op.upsert_machine m) = refl
edit_schema d origin now_ms (Op.remove_machine id) = refl
edit_schema d origin now_ms (Op.set_settings settings) = refl

apply_op_schema :
    (d : WorkspaceDoc) (u : WorkspaceUpdate) (op : Op)
    → (apply_op (observe d u.stamp.lamport) u.stamp op).1.schema_version ≡ d.schema_version
unfolding apply_op observe
apply_op_schema d u (Op.set_name name) = refl
apply_op_schema d u (Op.upsert_machine m) = refl
apply_op_schema d u (Op.remove_machine id) = refl
apply_op_schema d u (Op.set_settings settings) = refl

merge_slots_schema :
    (d : WorkspaceDoc) (changed : Bool) (m : BTreeMap MachineSlot)
    → (merge_slots d changed m).1.schema_version ≡ d.schema_version
unfolding merge_slots observe
merge_slots_schema d changed [] = refl
merge_slots_schema d changed ((id, slot) ∷ rest) =
    let seen = observe d slot.stamp.lamport in
    merge_slots_schema (record seen { machines = (merge_slot seen.machines id slot).1 }) _ rest

pub apply_schema :
    (d : WorkspaceDoc) (u : WorkspaceUpdate)
    → (after d (apply d u)).schema_version ≡ d.schema_version
apply_schema d u = elim (ℕ_discrete u.workspace_id d.workspace_id) [
  | yes e ↦ rw (apply-ok d u e) (apply_op_schema d u u.op)
  | no n ↦ rw (apply-err d u n) refl
]

pub merge_schema : (d p : WorkspaceDoc) → (after d (merge d p)).schema_version ≡ d.schema_version
merge_schema d p = elim (ℕ_discrete p.workspace_id d.workspace_id) [
  | yes e ↦
      rw (merge-ok d p e) (merge_slots_schema (merge_start d p) (registers_changed d p) p.machines)
  | no n ↦ rw (merge-err d p n) refl
]
