-- ===== src/Model/Edits.antt =====
-- The local edits of the document: each advances the clock, writes one register or slot, and
-- returns the update for the peers.
use inputshare.Base.{ℕ, ◌+◌, ◌%◌, String, []}
use inputshare.BTreeMap.{insert}
use inputshare.Stamp
use inputshare.Stamp.{Stamp, Lww, not_older}
use inputshare.Model.{
  MachineRecord, present, removed, WorkspaceSettings, default_settings, Op, WorkspaceUpdate,
  WorkspaceDoc, schema_version, u64_mod,
}

-- The fresh uuid and the wall clock are arguments.
unfoldable pub create : String → MachineRecord → ℕ → ℕ → WorkspaceDoc
unfolding Stamp.new
create name founder uuid now_ms =
    let stamp = Stamp.new 1 founder.id now_ms in
    record {
      workspace_id = uuid;
      schema_version = schema_version;
      name = record { value = name; stamp = stamp };
      lamport = 1;
      machines = insert [] founder.id (record { stamp = stamp; state = present founder });
      settings = record { value = default_settings; stamp = stamp };
    }

unfoldable pub tick : WorkspaceDoc → ℕ → ℕ → WorkspaceDoc × Stamp
unfolding Stamp.new
tick d origin now_ms =
    let lamport = (d.lamport + 1) % u64_mod in
    (record d { lamport = lamport }, Stamp.new lamport origin now_ms)

abbrev update_for : WorkspaceDoc → Stamp → Op → WorkspaceUpdate
update_for before stamp op = record {
  workspace_id = before.workspace_id;
  prev_lamport = before.lamport;
  stamp = stamp;
  op = op;
}

module _ (d : WorkspaceDoc) (origin now_ms : ℕ) where
  unfoldable pub set_name : String → WorkspaceDoc × WorkspaceUpdate
  unfolding tick
  set_name name =
      let (ticked, stamp) = tick d origin now_ms in
      (
        record ticked { name = record { value = name; stamp = stamp } },
        update_for d stamp (Op.set_name name),
      )

  unfoldable pub set_settings : WorkspaceSettings → WorkspaceDoc × WorkspaceUpdate
  unfolding tick
  set_settings settings =
      let (ticked, stamp) = tick d origin now_ms in
      (
        record ticked { settings = record { value = settings; stamp = stamp } },
        update_for d stamp (Op.set_settings settings),
      )

  unfoldable pub upsert_machine : MachineRecord → WorkspaceDoc × WorkspaceUpdate
  unfolding tick
  upsert_machine m =
      let (ticked, stamp) = tick d origin now_ms in
      (
        record ticked {
          machines = insert ticked.machines m.id (record { stamp = stamp; state = present m });
        },
        update_for d stamp (Op.upsert_machine m),
      )

  unfoldable pub remove_machine : ℕ → WorkspaceDoc × WorkspaceUpdate
  unfolding tick
  remove_machine id =
      let (ticked, stamp) = tick d origin now_ms in
      (
        record ticked {
          machines = insert ticked.machines id (record { stamp = stamp; state = removed });
        },
        update_for d stamp (Op.remove_machine id),
      )

-- The local edit that an operation of an update stands for.
abbrev pub edit : WorkspaceDoc → ℕ → ℕ → Op → WorkspaceDoc × WorkspaceUpdate
edit d origin now_ms (Op.set_name name) = set_name d origin now_ms name
edit d origin now_ms (Op.upsert_machine m) = upsert_machine d origin now_ms m
edit d origin now_ms (Op.remove_machine id) = remove_machine d origin now_ms id
edit d origin now_ms (Op.set_settings settings) = set_settings d origin now_ms settings
