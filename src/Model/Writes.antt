-- ===== src/Model/Writes.antt =====
-- A single update as the writes that it makes to the registers and the slots.
use inputshare.Base.{
  ℕ, String, Option, none, some, ◌≡◌, refl, sym, ◌∙◌, ap, max, arith, ◌==◌, if◌then◌else◌,
}
use inputshare.BTreeMap.{get, IsSorted}
use inputshare.BTreeMap.Ext.{ext}
use inputshare.Stamp.{Stamp, Lww, key}
use inputshare.Model.{
  MachineSlot, present, removed, WorkspaceDoc, WorkspaceUpdate, WorkspaceSettings, Op,
}
use inputshare.Model.Invariant.{after}
use inputshare.Model.Sync.{apply, apply_op, observe}
use inputshare.Model.Sync.Guard.{apply-ok}
use inputshare.Model.Sync.Slots.{get-merge_slot, merge_slot-IsSorted}
use inputshare.Model.Sync.Newest.{
  later, newest, merge-eq_later, later_assoc, later_comm, newest_assoc, newest_comm,
}

abbrev pub applied : WorkspaceDoc → WorkspaceUpdate → WorkspaceDoc
applied d u = after d (apply d u)

-- What an update writes to each register and slot.
abbrev pub name_write : Stamp → Op → Option (Lww String)
name_write stamp (Op.set_name name) = some (record { value = name; stamp = stamp })
name_write stamp (Op.upsert_machine m) = none
name_write stamp (Op.remove_machine id) = none
name_write stamp (Op.set_settings settings) = none

abbrev pub settings_write : Stamp → Op → Option (Lww WorkspaceSettings)
settings_write stamp (Op.set_settings settings) = some (record { value = settings; stamp = stamp })
settings_write stamp (Op.set_name name) = none
settings_write stamp (Op.upsert_machine m) = none
settings_write stamp (Op.remove_machine id) = none

abbrev pub slot_write : Stamp → Op → ℕ → Option MachineSlot
slot_write stamp (Op.upsert_machine m) id =
    if m.id == id then some (record { stamp = stamp; state = present m }) else none
slot_write stamp (Op.remove_machine gone) id =
    if gone == id then some (record { stamp = stamp; state = removed }) else none
slot_write stamp (Op.set_name name) id = none
slot_write stamp (Op.set_settings settings) id = none

abbrev pub overwrite : {A : Type 0} → Lww A → Option (Lww A) → Lww A
overwrite a none = a
overwrite a (some b) = later a b

-- `e` holds, in each register and slot, the later of what `d` held and what `u` writes.
pub record IsUpdated (d : WorkspaceDoc) (u : WorkspaceUpdate) (e : WorkspaceDoc) : Type 0 where
  pub workspace_id : e.workspace_id ≡ d.workspace_id
  pub schema_version : e.schema_version ≡ d.schema_version
  pub name : e.name ≡ overwrite d.name (name_write u.stamp u.op)
  pub settings : e.settings ≡ overwrite d.settings (settings_write u.stamp u.op)
  pub lamport : e.lamport ≡ max d.lamport u.stamp.lamport
  pub sorted : IsSorted e.machines
  pub slots : (id : ℕ) → get e.machines id ≡ newest (get d.machines id) (slot_write u.stamp u.op id)

pub newest-none : (o : Option MachineSlot) → newest o none ≡ o
newest-none none = refl
newest-none (some a) = refl

updated :
    (d : WorkspaceDoc) (ws prev : ℕ) (stamp : Stamp) (op : Op)
    → IsSorted d.machines
    → IsUpdated d
        (record { workspace_id = ws; prev_lamport = prev; stamp = stamp; op = op })
        (apply_op (observe d stamp.lamport) stamp op).1
unfolding apply_op observe
updated d ws prev stamp (Op.set_name name) s = record {
  workspace_id = refl;
  schema_version = refl;
  name = merge-eq_later d.name _;
  settings = refl;
  lamport = refl;
  sorted = s;
  slots = λ id. sym (newest-none (get d.machines id));
}
updated d ws prev stamp (Op.set_settings settings) s = record {
  workspace_id = refl;
  schema_version = refl;
  name = refl;
  settings = merge-eq_later d.settings _;
  lamport = refl;
  sorted = s;
  slots = λ id. sym (newest-none (get d.machines id));
}
updated d ws prev stamp (Op.upsert_machine m) s = record {
  workspace_id = refl;
  schema_version = refl;
  name = refl;
  settings = refl;
  lamport = refl;
  sorted = merge_slot-IsSorted d.machines m.id _ s;
  slots = λ id. ground (
    arith,
    get-merge_slot d.machines m.id (record { stamp = stamp; state = present m }) id,
    newest-none (get d.machines id),
  );
}
updated d ws prev stamp (Op.remove_machine gone) s = record {
  workspace_id = refl;
  schema_version = refl;
  name = refl;
  settings = refl;
  lamport = refl;
  sorted = merge_slot-IsSorted d.machines gone _ s;
  slots = λ id. ground (
    arith,
    get-merge_slot d.machines gone (record { stamp = stamp; state = removed }) id,
    newest-none (get d.machines id),
  );
}

pub applied-IsUpdated :
    (d : WorkspaceDoc) (u : WorkspaceUpdate)
    → IsSorted d.machines
    → u.workspace_id ≡ d.workspace_id
    → IsUpdated d u (applied d u)
applied-IsUpdated d u s e =
    rw (apply-ok d u e) (updated d u.workspace_id u.prev_lamport u.stamp u.op s)

pub IsUpdated-ext :
    {d : WorkspaceDoc} {u : WorkspaceUpdate} {a b : WorkspaceDoc}
    → IsUpdated d u a
    → IsUpdated d u b
    → a ≡ b
IsUpdated-ext {d} {u} {a} {b} h k = cc (
  h.workspace_id,
  k.workspace_id,
  h.schema_version,
  k.schema_version,
  h.name,
  k.name,
  h.settings,
  k.settings,
  h.lamport,
  k.lamport,
  ext a.machines b.machines h.sorted k.sorted (λ id. h.slots id ∙ sym (k.slots id)),
)

pub overwrite_comm :
    {A : Type 0} (a : Lww A) (x y : Option (Lww A))
    → ((b c : Lww A) → x ≡ some b → y ≡ some c → key b.stamp ≡ key c.stamp → b ≡ c)
    → overwrite (overwrite a x) y ≡ overwrite (overwrite a y) x
overwrite_comm a none none same = refl
overwrite_comm a none (some c) same = refl
overwrite_comm a (some b) none same = refl
overwrite_comm a (some b) (some c) same =
    later_assoc a b c ∙ ap (later a) (later_comm b c (same b c refl refl)) ∙ sym (later_assoc a c b)

pub newest_swap :
    (a x y : Option MachineSlot)
    → ((b c : MachineSlot) → x ≡ some b → y ≡ some c → key b.stamp ≡ key c.stamp → b ≡ c)
    → newest (newest a x) y ≡ newest (newest a y) x
newest_swap a x y same =
    newest_assoc a x y ∙ ap (newest a) (newest_comm x y same) ∙ sym (newest_assoc a y x)
