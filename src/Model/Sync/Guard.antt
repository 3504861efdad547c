-- ===== src/Model/Sync/Guard.antt =====
-- `apply` and `merge` behind the workspace check.
use inputshare.Base.{◌≡◌, ◌≢◌, max, Bool, ◌||◌, arith}
use inputshare.Stamp
use inputshare.Model.{WorkspaceDoc, WorkspaceUpdate, ok, err, workspace_mismatch}
use inputshare.Model.Sync.{apply, apply_op, observe, merge, merge_slots}

module _ (d : WorkspaceDoc) (u : WorkspaceUpdate) where
  pub apply-ok :
      u.workspace_id ≡ d.workspace_id
      → apply d u ≡ ok (apply_op (observe d u.stamp.lamport) u.stamp u.op)
  unfolding apply
  apply-ok e = ground arith

  pub apply-err :
      u.workspace_id ≢ d.workspace_id
      → apply d u ≡ err (workspace_mismatch u.workspace_id d.workspace_id)
  unfolding apply
  apply-err e = ground arith

module _ (d p : WorkspaceDoc) where
  -- The document that the loop of `merge` starts from.
  abbrev pub merge_start : WorkspaceDoc
  merge_start = record d {
    lamport = max d.lamport p.lamport;
    name = (Stamp.merge d.name p.name).1;
    settings = (Stamp.merge d.settings p.settings).1;
  }

  abbrev pub registers_changed : Bool
  registers_changed = (Stamp.merge d.name p.name).0 || (Stamp.merge d.settings p.settings).0

  pub merge-ok :
      p.workspace_id ≡ d.workspace_id
      → merge d p ≡ ok (merge_slots merge_start registers_changed p.machines)
  unfolding merge
  merge-ok e = ground arith

  pub merge-err :
      p.workspace_id ≢ d.workspace_id
      → merge d p ≡ err (workspace_mismatch p.workspace_id d.workspace_id)
  unfolding merge
  merge-err e = ground arith
