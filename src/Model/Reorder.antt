-- ===== src/Model/Reorder.antt =====
-- Single updates: a document that has applied some updates does not show in which order they came,
-- nor how often.
use mathlib.Core.List.{Permᴰ}
use mathlib.Core.Path.{subst}
use inputshare.Base.{
  Each, Each-imp, Each-perm, ℕ, String, some, List, [], ◌∷◌, ◌≡◌, refl, sym, ◌∙◌, ap, arith,
}
use inputshare.BTreeMap.{get, IsSorted}
use inputshare.Stamp.{Stamp, Lww, key}
use inputshare.Model.{MachineSlot, WorkspaceDoc, WorkspaceUpdate, WorkspaceSettings, Op}
use inputshare.Model.Writes.{
  applied, name_write, settings_write, slot_write, applied-IsUpdated, IsUpdated-ext, overwrite_comm,
  newest_swap,
}

-- One stamp belongs to one operation.
abbrev pub SameWrite : WorkspaceUpdate → WorkspaceUpdate → Type 0
SameWrite u v = key u.stamp ≡ key v.stamp → (u.stamp ≡ v.stamp) × (u.op ≡ v.op)

name_write-stamp :
    (stamp : Stamp) (op : Op) (b : Lww String) → name_write stamp op ≡ some b → b.stamp ≡ stamp
name_write-stamp stamp op b p = ground arith

settings_write-stamp :
    (stamp : Stamp) (op : Op) (b : Lww WorkspaceSettings)
    → settings_write stamp op ≡ some b
    → b.stamp ≡ stamp
settings_write-stamp stamp op b p = ground arith

slot_write-stamp :
    (stamp : Stamp) (op : Op) (id : ℕ) (b : MachineSlot)
    → slot_write stamp op id ≡ some b
    → b.stamp ≡ stamp
slot_write-stamp stamp op id b p = ground arith

module _ (u v : WorkspaceUpdate) (same : SameWrite u v) where
  name_write_agree :
      (b c : Lww String)
      → name_write u.stamp u.op ≡ some b
      → name_write v.stamp v.op ≡ some c
      → key b.stamp ≡ key c.stamp
      → b ≡ c
  name_write_agree b c p q k =
      let x = name_write-stamp u.stamp u.op b p in
      let y = name_write-stamp v.stamp v.op c q in
      let w = same (cc (x, y, k)) in cc (p, q, w.0, w.1)

  settings_write_agree :
      (b c : Lww WorkspaceSettings)
      → settings_write u.stamp u.op ≡ some b
      → settings_write v.stamp v.op ≡ some c
      → key b.stamp ≡ key c.stamp
      → b ≡ c
  settings_write_agree b c p q k =
      let x = settings_write-stamp u.stamp u.op b p in
      let y = settings_write-stamp v.stamp v.op c q in
      let w = same (cc (x, y, k)) in cc (p, q, w.0, w.1)

  slot_write_agree :
      (id : ℕ) (b c : MachineSlot)
      → slot_write u.stamp u.op id ≡ some b
      → slot_write v.stamp v.op id ≡ some c
      → key b.stamp ≡ key c.stamp
      → b ≡ c
  slot_write_agree id b c p q k =
      let x = slot_write-stamp u.stamp u.op id b p in
      let y = slot_write-stamp v.stamp v.op id c q in
      let w = same (cc (x, y, k)) in cc (p, q, w.0, w.1)

-- Two updates of the document's workspace, the same one if their stamps agree, can be applied in
-- either order.
pub applied_comm :
    (d : WorkspaceDoc) (u v : WorkspaceUpdate)
    → IsSorted d.machines
    → u.workspace_id ≡ d.workspace_id
    → v.workspace_id ≡ d.workspace_id
    → SameWrite u v
    → applied (applied d u) v ≡ applied (applied d v) u
applied_comm d u v s e f same =
    let a = applied-IsUpdated d u s e in
    let b = applied-IsUpdated (applied d u) v a.sorted (f ∙ sym a.workspace_id) in
    let g = applied-IsUpdated d v s f in
    let h = applied-IsUpdated (applied d v) u g.sorted (e ∙ sym g.workspace_id) in
    IsUpdated-ext {d = applied d v} {u = u}
      (record {
        workspace_id = b.workspace_id ∙ a.workspace_id ∙ sym g.workspace_id;
        schema_version = b.schema_version ∙ a.schema_version ∙ sym g.schema_version;
        name = cc (b.name, a.name, g.name, overwrite_comm d.name _ _ (name_write_agree u v same));
        settings = cc (
          b.settings,
          a.settings,
          g.settings,
          overwrite_comm d.settings _ _ (settings_write_agree u v same),
        );
        lamport = (let x = b.lamport in let y = a.lamport in let z = g.lamport in omega arith);
        sorted = b.sorted;
        slots = λ id. cc (
          b.slots id,
          a.slots id,
          g.slots id,
          newest_swap (get d.machines id) _ _ (slot_write_agree u v same id),
        );
      })
      h

pub apply_all : WorkspaceDoc → List WorkspaceUpdate → WorkspaceDoc
apply_all d [] = d
apply_all d (u ∷ us) = apply_all (applied d u) us

-- Updates of one workspace in which one stamp belongs to one operation.
pub record IsLog (workspace_id : ℕ) (us : List WorkspaceUpdate) : Type 0 where
  pub ours : Each (λ u. u.workspace_id ≡ workspace_id) us
  pub unique : Each (λ u. Each (SameWrite u) us) us

IsLog-tail :
    {ws : ℕ} {u : WorkspaceUpdate} {us : List WorkspaceUpdate} → IsLog ws (u ∷ us) → IsLog ws us
IsLog-tail {us = us} h = record {
  ours = h.ours.1;
  unique = Each-imp _ _ us (λ v e. e.1) h.unique.1;
}

IsLog-perm : {ws : ℕ} {us vs : List WorkspaceUpdate} → Permᴰ us vs → IsLog ws us → IsLog ws vs
IsLog-perm {us = us} p h = record {
  ours = Each-perm _ p h.ours;
  unique = Each-perm _ p (Each-imp _ _ us (λ v e. Each-perm (SameWrite v) p e) h.unique);
}

-- On a document with sorted slots, the order in which updates of the workspace arrive makes no
-- difference, where one stamp belongs to one operation.
pub apply_all-perm :
    (d : WorkspaceDoc) {us vs : List WorkspaceUpdate}
    → Permᴰ us vs
    → IsSorted d.machines
    → IsLog d.workspace_id us
    → apply_all d us ≡ apply_all d vs
unfolding apply_all
apply_all-perm d Permᴰ.nil s h = refl
apply_all-perm d (Permᴰ.cons {a = a} {b = b} {l₁ = l} {l₂ = m} e p) s h =
    let j = applied-IsUpdated d a s h.ours.0 in
    apply_all-perm (applied d a) p j.sorted
      (subst (λ w. IsLog w l) (sym j.workspace_id) (IsLog-tail h))
    ∙ ap (λ x. apply_all (applied d x) m) e
apply_all-perm d (Permᴰ.swap {a = a} {b = b} {l = l} e f) s h =
    cc (applied_comm d a b s h.ours.0 h.ours.1.0 h.unique.0.1.0, e, f)
apply_all-perm d (Permᴰ.trans p q) s h =
    apply_all-perm d p s h ∙ apply_all-perm d q s (IsLog-perm p h)
