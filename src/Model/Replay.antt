-- ===== src/Model/Replay.antt =====
-- The updates that local edits return: what they do on the machine that made them and on its
-- peers, what a removal outlasts, and what the answer of `apply` and `merge` tells.
use inputshare.Base.{
  ℕ, ◌+◌, ◌≤◌, ◌<◌, true, some, [], ◌∷◌, ◌%◌, ◌≡◌, refl, sym, ◌∙◌, ap, max, arith, inl, inr,
  Option-cases,
}
use inputshare.BTreeMap.{BTreeMap, get, insert, All}
use inputshare.BTreeMap.Laws.{get-insert}
use inputshare.Stamp
use inputshare.Stamp.{Stamp, Lww, key, newer, not_older}
use inputshare.Stamp.Order.{newer_of_lamport}
use inputshare.Model.{MachineSlot, present, removed, WorkspaceDoc, Op, ok, u64_mod}
use inputshare.Model.Edits.{edit, set_name, set_settings, upsert_machine, remove_machine}
use inputshare.Model.Invariant.{IsValid, SlotValid}
use inputshare.Model.Sync.{apply, apply_op, observe, merge_slot}
use inputshare.Model.Sync.Guard.{apply-ok}

-- The document holds what an operation wrote under a stamp.
abbrev pub Holds : WorkspaceDoc → Stamp → Op → Type 0
Holds d stamp (Op.set_name name) = d.name ≡ record { value = name; stamp = stamp }
Holds d stamp (Op.set_settings settings) = d.settings ≡ record { value = settings; stamp = stamp }
Holds d stamp (Op.upsert_machine m) =
    get d.machines m.id ≡ some (record { stamp = stamp; state = present m })
Holds d stamp (Op.remove_machine id) =
    get d.machines id ≡ some (record { stamp = stamp; state = removed })

slot_seen :
    (clock : ℕ) (m : BTreeMap MachineSlot) (id : ℕ) (slot : MachineSlot)
    → All (SlotValid clock) m
    → get m id ≡ some slot
    → slot.stamp.lamport ≤ clock
unfolding get
slot_seen clock [] id slot a e = ground arith
slot_seen clock ((j, v) ∷ m) id slot a e = ground (arith, slot_seen clock m id slot a.1)

-- A slot that is newer than what the map holds is put in.
merge_slot_newer :
    (m : BTreeMap MachineSlot) (id clock : ℕ) (slot : MachineSlot)
    → All (SlotValid clock) m
    → clock < slot.stamp.lamport
    → merge_slot m id slot ≡ (true, insert m id slot)
unfolding merge_slot not_older
merge_slot_newer m id clock slot a h = elim (Option-cases (get m id)) [
  | inl e ↦ rw (e, merge_slot)
  | inr (old, e) ↦ let s = slot_seen clock m id old a e in ground arith
]

observed :
    (d : WorkspaceDoc) (lamport : ℕ)
    → d.lamport ≤ lamport
    → observe d lamport ≡ record d { lamport = lamport }
unfolding observe
observed d lamport h = let e : max d.lamport lamport ≡ lamport = omega arith in rw e

-- The document with one operation's write in place.
abbrev written : WorkspaceDoc → Stamp → Op → WorkspaceDoc
written d stamp (Op.set_name name) = record d { name = record { value = name; stamp = stamp } }
written d stamp (Op.set_settings settings) = record d {
  settings = record { value = settings; stamp = stamp };
}
written d stamp (Op.upsert_machine m) = record d {
  machines = insert d.machines m.id (record { stamp = stamp; state = present m });
}
written d stamp (Op.remove_machine id) = record d {
  machines = insert d.machines id (record { stamp = stamp; state = removed });
}

-- An operation that is newer than all that the document holds is written.
apply_op_newer :
    (d : WorkspaceDoc) (lamport : ℕ) (stamp : Stamp) (op : Op)
    → IsValid d
    → d.lamport < stamp.lamport
    → apply_op (observe d lamport) stamp op ≡ (true, written (observe d lamport) stamp op)
unfolding apply_op observe Stamp.merge
apply_op_newer d lamport stamp (Op.set_name name) v h =
    let s = v.name_seen in ground (arith, newer_of_lamport stamp d.name.stamp)
apply_op_newer d lamport stamp (Op.set_settings settings) v h =
    let s = v.settings_seen in ground (arith, newer_of_lamport stamp d.settings.stamp)
apply_op_newer d lamport stamp (Op.upsert_machine m) v h = cc (
    merge_slot_newer d.machines m.id d.lamport (record { stamp = stamp; state = present m }) v.slots
      h)
apply_op_newer d lamport stamp (Op.remove_machine id) v h =
    cc (
      merge_slot_newer d.machines id d.lamport (record { stamp = stamp; state = removed }) v.slots
        h)

Holds-written : (d : WorkspaceDoc) (stamp : Stamp) (op : Op) → Holds (written d stamp op) stamp op
Holds-written d stamp (Op.set_name name) = refl
Holds-written d stamp (Op.set_settings settings) = refl
Holds-written d stamp (Op.upsert_machine m) =
    ground (arith, get-insert d.machines m.id (record { stamp = stamp; state = present m }) m.id)
Holds-written d stamp (Op.remove_machine id) =
    ground (arith, get-insert d.machines id (record { stamp = stamp; state = removed }) id)

-- The stamp of a local edit, and the document that the edit leaves.
edit_stamp : WorkspaceDoc → ℕ → ℕ → Stamp
edit_stamp d origin now_ms = Stamp.new ((d.lamport + 1) % u64_mod) origin now_ms

edit_update :
    (d : WorkspaceDoc) (origin now_ms : ℕ) (op : Op)
    → (edit d origin now_ms op).1 ≡ record {
      workspace_id = d.workspace_id;
      prev_lamport = d.lamport;
      stamp = edit_stamp d origin now_ms;
      op = op;
    }
unfolding set_name set_settings upsert_machine remove_machine edit_stamp
edit_update d origin now_ms (Op.set_name name) = refl
edit_update d origin now_ms (Op.set_settings settings) = refl
edit_update d origin now_ms (Op.upsert_machine m) = refl
edit_update d origin now_ms (Op.remove_machine id) = refl

edit_doc :
    (d : WorkspaceDoc) (origin now_ms : ℕ) (op : Op)
    → (edit d origin now_ms op).0
      ≡ written
          (record d { lamport = (edit_stamp d origin now_ms).lamport })
          (edit_stamp d origin now_ms)
          op
unfolding set_name set_settings upsert_machine remove_machine edit_stamp Stamp.new
edit_doc d origin now_ms (Op.set_name name) = refl
edit_doc d origin now_ms (Op.set_settings settings) = refl
edit_doc d origin now_ms (Op.upsert_machine m) = refl
edit_doc d origin now_ms (Op.remove_machine id) = refl

edit_stamp-lamport :
    (d : WorkspaceDoc) (origin now_ms : ℕ)
    → d.lamport + 1 < u64_mod
    → (edit_stamp d origin now_ms).lamport ≡ d.lamport + 1
unfolding edit_stamp Stamp.new
edit_stamp-lamport d origin now_ms h = omega arith

-- Unless the clock is at its last value: on a valid document of the same workspace whose clock is
-- no further than the editor's, the update of an edit is accepted, changes the document, and its
-- operation is then held there.
pub edit_reaches :
    (d p : WorkspaceDoc) (origin now_ms : ℕ) (op : Op)
    → IsValid p
    → p.workspace_id ≡ d.workspace_id
    → p.lamport ≤ d.lamport
    → d.lamport + 1 < u64_mod
    → (e : WorkspaceDoc) × (apply p (edit d origin now_ms op).1 ≡ ok (true, e))
      × Holds e (edit d origin now_ms op).1.stamp op
edit_reaches d p origin now_ms op v same behind room =
    let s = edit_stamp d origin now_ms in
    let l = edit_stamp-lamport d origin now_ms room in
    rw (edit_update d origin now_ms op) (
      written (observe p s.lamport) s op,
      apply-ok p _ (sym same) ∙ ap ok (apply_op_newer p s.lamport s op v (omega arith)),
      Holds-written (observe p s.lamport) s op,
    )

-- Unless the clock is at its last value: applied to the valid document that it was made from, the
-- update of an edit gives the edited document.
pub edit_replays :
    (d : WorkspaceDoc) (origin now_ms : ℕ) (op : Op)
    → IsValid d
    → d.lamport + 1 < u64_mod
    → apply d (edit d origin now_ms op).1 ≡ ok (true, (edit d origin now_ms op).0)
edit_replays d origin now_ms op v room =
    let s = edit_stamp d origin now_ms in
    let l = edit_stamp-lamport d origin now_ms room in
    rw (edit_update d origin now_ms op, edit_doc d origin now_ms op)
      (apply-ok d _ refl
        ∙ ap ok (apply_op_newer d s.lamport s op v (omega arith))
        ∙ ap (λ x. ok (true, written x s op)) (observed d s.lamport (omega arith)))
