-- ===== src/Model/Sync.antt =====
-- What a document takes over from peers: single updates (`apply`) and whole documents (`merge`).
pub mod Newest
pub mod Guard
pub mod Slots
use inputshare.Base.{
  ℕ, max, Bool, true, false, ◌||◌, Option, none, some, [], ◌∷◌, ◌==◌, if◌then◌else◌,
}
use inputshare.BTreeMap.{BTreeMap, get, insert}
use inputshare.Stamp
use inputshare.Stamp.{Stamp, Lww, not_older}
use inputshare.Model.{
  present, removed, MachineSlot, Op, WorkspaceUpdate, WorkspaceDoc, Error, workspace_mismatch,
  Result, ok, err,
}

unfoldable pub observe : WorkspaceDoc → ℕ → WorkspaceDoc
observe d lamport = record d { lamport = max d.lamport lamport }

-- Keeps what is there unless `incoming` is newer.
unfoldable pub merge_slot : BTreeMap MachineSlot → ℕ → MachineSlot → Bool × BTreeMap MachineSlot
merge_slot machines id incoming = elim (get machines id) [
  | some existing ↦
      if not_older existing.stamp incoming.stamp
      then (false, machines)
      else (true, insert machines id incoming)
  | none ↦ (true, insert machines id incoming)
]

unfoldable pub check_workspace : WorkspaceDoc → ℕ → Option Error
check_workspace d incoming =
    if incoming == d.workspace_id then none else some (workspace_mismatch incoming d.workspace_id)

-- The body of `apply` behind its guard.
unfoldable pub apply_op : WorkspaceDoc → Stamp → Op → Bool × WorkspaceDoc
unfolding Stamp.merge merge_slot
apply_op d stamp (Op.set_name name) =
    let (changed, reg) = Stamp.merge d.name (record { value = name; stamp = stamp }) in
    (changed, record d { name = reg })
apply_op d stamp (Op.set_settings settings) =
    let (changed, reg) = Stamp.merge d.settings (record { value = settings; stamp = stamp }) in
    (changed, record d { settings = reg })
apply_op d stamp (Op.upsert_machine m) =
    let (changed, machines) =
      merge_slot d.machines m.id (record { stamp = stamp; state = present m }) in
    (changed, record d { machines = machines })
apply_op d stamp (Op.remove_machine id) =
    let (changed, machines) =
      merge_slot d.machines id (record { stamp = stamp; state = removed }) in
    (changed, record d { machines = machines })

unfoldable pub apply : WorkspaceDoc → WorkspaceUpdate → Result (Bool × WorkspaceDoc)
unfolding check_workspace observe
apply d update = elim (check_workspace d update.workspace_id) [
  | some e ↦ err e
  | none ↦ ok (apply_op (observe d update.stamp.lamport) update.stamp update.op)
]

-- The loop of `merge` over the other document's entries.
unfoldable pub merge_slots : WorkspaceDoc → Bool → BTreeMap MachineSlot → Bool × WorkspaceDoc
unfolding observe
merge_slots d changed [] = (changed, d)
merge_slots d changed ((id, slot) ∷ rest) =
    let seen = observe d slot.stamp.lamport in
    let (slot_changed, machines) = merge_slot seen.machines id slot in
    merge_slots (record seen { machines = machines }) (changed || slot_changed) rest

unfoldable pub merge : WorkspaceDoc → WorkspaceDoc → Result (Bool × WorkspaceDoc)
unfolding check_workspace observe Stamp.merge
merge d peer = elim (check_workspace d peer.workspace_id) [
  | some e ↦ err e
  | none ↦
      let seen = observe d peer.lamport in
      let (name_changed, name) = Stamp.merge seen.name peer.name in
      let (settings_changed, settings) = Stamp.merge seen.settings peer.settings in
      ok (
        merge_slots (record seen { name = name; settings = settings })
          (name_changed || settings_changed) peer.machines)
]
