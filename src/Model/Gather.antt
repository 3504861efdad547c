-- ===== src/Model/Gather.antt =====
-- A machine that hears of several documents: in which order does not matter.
use mathlib.Core.List.{Permᴰ}
use inputshare.Base.{
  ℕ, Option, List, [], ◌∷◌, ◌≡◌, refl, sym, ap, ◌∙◌, Each, Each-perm, Any, inl, inr,
}
use inputshare.Stamp.{Lww}
use inputshare.BTreeMap.{get}
use inputshare.Model.{MachineSlot, WorkspaceDoc}
use inputshare.Model.Invariant.{IsValid, merge-IsValid}
use inputshare.Model.Sync.Newest.{later, newest}
use inputshare.Model.Converge.{merged, merged-IsJoin, AreConsistent, merge_comm, merge_assoc}

-- What a machine holds after it has merged the documents one after the other.
abbrev pub gathered : WorkspaceDoc → List WorkspaceDoc → WorkspaceDoc
gathered d [] = d
gathered d (p ∷ ps) = gathered (merged d p) ps

-- A valid document of one workspace and schema.
abbrev pub IsOf : ℕ → ℕ → WorkspaceDoc → Type 0
IsOf workspace schema p = IsValid p × (p.workspace_id ≡ workspace) × (p.schema_version ≡ schema)

-- The latest of some writes.
abbrev pub latest {ℓ} : {A : Type ℓ} → (WorkspaceDoc → Lww A) → Lww A → List WorkspaceDoc → Lww A
latest of a [] = a
latest of a (p ∷ ps) = latest of (later a (of p)) ps

abbrev pub latest_slot : ℕ → Option MachineSlot → List WorkspaceDoc → Option MachineSlot
latest_slot id o [] = o
latest_slot id o (p ∷ ps) = latest_slot id (newest o (get p.machines id)) ps

-- `e` holds the latest write of `d` and the documents to each register and slot.
pub record IsLatest (d : WorkspaceDoc) (ps : List WorkspaceDoc) (e : WorkspaceDoc) : Type 0 where
  pub name : e.name ≡ latest (λ p. p.name) d.name ps
  pub settings : e.settings ≡ latest (λ p. p.settings) d.settings ps
  pub slots : (id : ℕ) → get e.machines id ≡ latest_slot id (get d.machines id) ps

merged-IsOf :
    (workspace schema : ℕ) (d p : WorkspaceDoc)
    → IsOf workspace schema d
    → IsOf workspace schema p
    → IsOf workspace schema (merged d p)
merged-IsOf workspace schema d p v w =
    let j = merged-IsJoin d p v.0 w.0 (w.1 ∙ sym v.1) in
    (merge-IsValid d p v.0 w.0, j.workspace_id ∙ v.1, j.schema_version ∙ v.2)

gathered-IsLatest :
    (workspace schema : ℕ) (d : WorkspaceDoc) (ps : List WorkspaceDoc)
    → IsOf workspace schema d
    → Each (IsOf workspace schema) ps
    → IsLatest d ps (gathered d ps)
gathered-IsLatest workspace schema d [] v all = record {
  name = refl;
  settings = refl;
  slots = λ id. refl;
}
gathered-IsLatest workspace schema d (p ∷ ps) v all =
    let j = merged-IsJoin d p v.0 all.0.0 (all.0.1 ∙ sym v.1) in
    let rest =
      gathered-IsLatest workspace schema (merged d p) ps (merged-IsOf workspace schema d p v all.0)
        all.1 in
    record {
      name = rest.name ∙ ap (λ a. latest (λ p. p.name) a ps) j.name;
      settings = rest.settings ∙ ap (λ a. latest (λ p. p.settings) a ps) j.settings;
      slots = λ id. rest.slots id ∙ ap (λ o. latest_slot id o ps) (j.slots id);
    }

-- Two consistent documents are merged in either order.
merged_swap :
    (workspace schema : ℕ) (d p q : WorkspaceDoc)
    → IsOf workspace schema d
    → IsOf workspace schema p
    → IsOf workspace schema q
    → AreConsistent p q
    → merged (merged d p) q ≡ merged (merged d q) p
merged_swap workspace schema d p q v w u c =
    let pd = w.1 ∙ sym v.1 in
    let qd = u.1 ∙ sym v.1 in
    merge_assoc d p q v.0 w.0 u.0 pd qd
    ∙ (ap (merged d) (merge_comm p q w.0 u.0 (u.1 ∙ sym w.1) (u.2 ∙ sym w.2) c)
        ∙ sym (merge_assoc d q p v.0 u.0 w.0 qd pd))

-- One stamp belongs to one write in all of some documents.
abbrev pub AllConsistent : List WorkspaceDoc → Type 0
AllConsistent ps =
    (p q : WorkspaceDoc) → Any (λ x. x ≡ p) ps → Any (λ x. x ≡ q) ps → AreConsistent p q

among-perm :
    {ps qs : List WorkspaceDoc} (p : WorkspaceDoc)
    → Permᴰ ps qs
    → Any (λ x. x ≡ p) qs
    → Any (λ x. x ≡ p) ps
among-perm p Permᴰ.nil i = i
among-perm p (Permᴰ.cons e r) (inl h) = inl (e ∙ h)
among-perm p (Permᴰ.cons e r) (inr i) = inr (among-perm p r i)
among-perm p (Permᴰ.swap e f) (inl h) = inr (inl (f ∙ h))
among-perm p (Permᴰ.swap e f) (inr (inl h)) = inl (e ∙ h)
among-perm p (Permᴰ.swap e f) (inr (inr i)) = inr (inr i)
among-perm p (Permᴰ.trans r s) i = among-perm p r (among-perm p s i)

gathered-perm :
    (workspace schema : ℕ) (d : WorkspaceDoc) {ps qs : List WorkspaceDoc}
    → Permᴰ ps qs
    → IsOf workspace schema d
    → Each (IsOf workspace schema) ps
    → AllConsistent ps
    → gathered d ps ≡ gathered d qs
gathered-perm workspace schema d Permᴰ.nil v all c = refl
gathered-perm workspace schema d (Permᴰ.cons {a = a} {b = b} {l₁ = l} {l₂ = m} e r) v all c =
    gathered-perm workspace schema (merged d a) r (merged-IsOf workspace schema d a v all.0) all.1
      (λ p q i j. c p q (inr i) (inr j))
    ∙ ap (λ x. gathered (merged d x) m) e
gathered-perm workspace schema d (Permᴰ.swap {a = a} {b = b} {l = l} e f) v all c =
    let swapped =
      merged_swap workspace schema d a b v all.0 all.1.0 (c a b (inl refl) (inr (inl refl))) in
    cc (swapped, e, f)
gathered-perm workspace schema d (Permᴰ.trans r s) v all c =
    gathered-perm workspace schema d r v all c
    ∙ gathered-perm workspace schema d s v (Each-perm (IsOf workspace schema) r all)
        (λ p q i j. c p q (among-perm p r i) (among-perm q r j))

-- A machine merges valid documents of its workspace and schema, in which one stamp belongs to one
-- write, one after the other. In whatever order they come, it ends with the same document, which
-- holds the latest write to each register and slot.
pub gathered_anyhow :
    (workspace schema : ℕ) (d : WorkspaceDoc) {ps qs : List WorkspaceDoc}
    → Permᴰ ps qs
    → IsOf workspace schema d
    → Each (IsOf workspace schema) ps
    → AllConsistent ps
    → (gathered d ps ≡ gathered d qs) × IsLatest d ps (gathered d ps)
gathered_anyhow workspace schema d {ps} {qs} r v all c =
    (gathered-perm workspace schema d r v all c, gathered-IsLatest workspace schema d ps v all)
