-- ===== src/Model/Changes.antt =====
-- What a merge cannot undo, what the answers of `apply` and `merge` tell, and what happens at the
-- clock's last value.
use native.Mathlib.Decide.{ℕ_discrete}
use inputshare.Base.{
  ℕ, ◌+◌, ◌%◌, ◌<◌, String, Bool, true, false, ◌||◌, Option, none, some, [], ◌∷◌, ◌≡◌, refl, sym,
  ◌∙◌, ap, max, arith,
}
use inputshare.BTreeMap.{BTreeMap, get}
use inputshare.Stamp
use inputshare.Stamp.{Stamp, Lww, key, newer, not_older}
use inputshare.Model.{MachineSlot, WorkspaceDoc, WorkspaceUpdate, Op, ok, u64_mod}
use inputshare.Model.Edits.{set_name}
use inputshare.Model.Query.{is_removed, machine}
use inputshare.Model.Invariant.{IsValid}
use inputshare.Model.Sync.{apply, apply_op, observe, merge_slot, merge_slots, merge}
use inputshare.Model.Sync.Guard.{apply-ok, merge_start, registers_changed, merge-ok, merge-err}
use inputshare.Model.Sync.Slots.{round}
use inputshare.Model.Sync.Newest.{newest}
use inputshare.Model.Converge.{merged, merged-IsJoin}
use inputshare.Model.Writes.{applied}

newest_left :
    (o p : Option MachineSlot) (slot : MachineSlot)
    → o ≡ some slot
    → ((old : MachineSlot) → p ≡ some old → newer old.stamp slot.stamp ≡ false)
    → newest o p ≡ o
newest_left none p slot e h = cc
newest_left (some a) none slot e h = refl
newest_left (some a) (some b) slot e h = ground (arith, h b refl)

-- What the queries say of a machine depends on its slot alone.
same_slot :
    (d e : WorkspaceDoc) (id : ℕ)
    → get e.machines id ≡ get d.machines id
    → (is_removed e id ≡ is_removed d id) × (machine e id ≡ machine d id)
unfolding is_removed machine
same_slot d e id h = (rw h refl, rw h refl)

-- A removed machine stays removed, and a present one keeps its record, through a merge with any
-- valid document of the workspace whose slot for it is not newer.
pub merge_keeps_slot :
    (d p : WorkspaceDoc) (id : ℕ) (slot : MachineSlot)
    → IsValid d
    → IsValid p
    → p.workspace_id ≡ d.workspace_id
    → get d.machines id ≡ some slot
    → ((old : MachineSlot) → get p.machines id ≡ some old → newer old.stamp slot.stamp ≡ false)
    → (is_removed (merged d p) id ≡ is_removed d id) × (machine (merged d p) id ≡ machine d id)
merge_keeps_slot d p id slot v w e held older = same_slot d (merged d p) id (
    (merged-IsJoin d p v w e).slots id
    ∙ newest_left (get d.machines id) (get p.machines id) slot held older)

merge_slot_unchanged :
    (m : BTreeMap MachineSlot) (id : ℕ) (slot : MachineSlot)
    → (merge_slot m id slot).0 ≡ false
    → (merge_slot m id slot).1 ≡ m
unfolding merge_slot
merge_slot_unchanged m id slot h = ground arith

or_false : (a b : Bool) → (a || b) ≡ false → (a ≡ false) × (b ≡ false)
or_false false b h = (refl, h)
or_false true b h = cc

register_unchanged :
    {A : Type 0} (a b : Lww A) → (Stamp.merge a b).0 ≡ false → (Stamp.merge a b).1 ≡ a
unfolding Stamp.merge
register_unchanged a b h = ground arith

merge_slots_unchanged :
    (d : WorkspaceDoc) (changed : Bool) (o : BTreeMap MachineSlot)
    → (merge_slots d changed o).0 ≡ false
    → (changed ≡ false)
      × ((merge_slots d changed o).1 ≡ record d { lamport = (merge_slots d changed o).1.lamport })
unfolding merge_slots observe
merge_slots_unchanged d changed [] h = (h, refl)
merge_slots_unchanged d changed ((id, slot) ∷ o) h =
    let flag = (merge_slot d.machines id slot).0 in
    let ih = merge_slots_unchanged (round d id slot) (changed || flag) o h in
    let both = or_false changed flag ih.0 in
    (
      both.0,
      ih.1
          ∙ ap
              (λ m. record d {
                lamport = (merge_slots (round d id slot) (changed || flag) o).1.lamport;
                machines = m;
              })
              (merge_slot_unchanged d.machines id slot both.1),
    )

apply_op_unchanged :
    (d : WorkspaceDoc) (stamp : Stamp) (op : Op)
    → (apply_op d stamp op).0 ≡ false
    → (apply_op d stamp op).1 ≡ d
unfolding apply_op
apply_op_unchanged d stamp (Op.set_name name) h =
    ap (λ r. record d { name = r }) (register_unchanged d.name _ h)
apply_op_unchanged d stamp (Op.set_settings settings) h =
    ap (λ r. record d { settings = r }) (register_unchanged d.settings _ h)
apply_op_unchanged d stamp (Op.upsert_machine m) h =
    ap (λ r. record d { machines = r }) (merge_slot_unchanged d.machines m.id _ h)
apply_op_unchanged d stamp (Op.remove_machine id) h =
    ap (λ r. record d { machines = r }) (merge_slot_unchanged d.machines id _ h)

merge_loop_unchanged :
    (d p e : WorkspaceDoc)
    → merge_slots (merge_start d p) (registers_changed d p) p.machines ≡ (false, e)
    → e ≡ record d { lamport = e.lamport }
merge_loop_unchanged d p e h =
    let l =
      merge_slots_unchanged (merge_start d p) (registers_changed d p) p.machines
        (ap (λ r. r.0) h) in
    let both = or_false (Stamp.merge d.name p.name).0 (Stamp.merge d.settings p.settings).0 l.0 in
    let f : (merge_slots (merge_start d p) (registers_changed d p) p.machines).1 ≡ e =
      ap (λ r. r.1) h in
    cc (
      f,
      l.1,
      register_unchanged d.name p.name both.0,
      register_unchanged d.settings p.settings both.1,
    )

-- Where `apply` answers that nothing changed, only the clock may have moved on.
pub apply_unchanged :
    (d e : WorkspaceDoc) (u : WorkspaceUpdate)
    → apply d u ≡ ok (false, e)
    → e ≡ record d { lamport = max d.lamport u.stamp.lamport }
unfolding apply observe
apply_unchanged d e u h =
    ground (arith, apply_op_unchanged (observe d u.stamp.lamport) u.stamp u.op)

-- Where `merge` answers that nothing changed, only the clock may have moved on.
pub merge_unchanged :
    (d p e : WorkspaceDoc) → merge d p ≡ ok (false, e) → e ≡ record d { lamport = e.lamport }
merge_unchanged d p e h = elim (ℕ_discrete p.workspace_id d.workspace_id) [
  | yes same ↦ merge_loop_unchanged d p e (cc (h, merge-ok d p same))
  | no other ↦ cc (h, merge-err d p other)
]

-- A name under a stamp of time zero does not replace one that was written later.
old_name_stays :
    (p : WorkspaceDoc) (u : WorkspaceUpdate) (name : String)
    → 0 < p.name.stamp.lamport
    → u.workspace_id ≡ p.workspace_id
    → u.stamp.lamport ≡ 0
    → u.op ≡ Op.set_name name
    → (applied p u).name ≡ p.name
unfolding apply_op observe Stamp.merge newer
old_name_stays p u name heard same zeroed e = rw (apply-ok p u same, e) (ground arith)

-- Where the clock is at its last value, renaming the workspace wraps it to zero, and a peer whose
-- name has a write after zero keeps its own name.
pub edit_lost_at_last_clock :
    (d p : WorkspaceDoc) (origin now_ms : ℕ) (name : String)
    → d.lamport + 1 ≡ u64_mod
    → 0 < p.name.stamp.lamport
    → p.workspace_id ≡ d.workspace_id
    → ((set_name d origin now_ms name).0.lamport ≡ 0)
      × ((applied p (set_name d origin now_ms name).1).name ≡ p.name)
unfolding set_name Stamp.new
edit_lost_at_last_clock d p origin now_ms name last heard same =
    let zero_clock : (d.lamport + 1) % u64_mod ≡ 0 = omega arith in
    (zero_clock, rw zero_clock (old_name_stays p _ name heard (sym same) refl refl))
