-- ===== src/Agent/Saved.antt =====
-- crates/is-agent/src/lib.rs: the document in memory and the one on disk.
use mathlib.Core.Path.{subst}
use inputshare.Base.{
  ℕ, ◌+◌, ◌≤◌, ◌<◌, Bool, true, false, Option, none, some, ◌≡◌, ◌≢◌, refl, sym, ap, ◌∙◌, arith,
  Bool-cases, inl, inr, if◌then◌else◌, ltb,
}
use inputshare.Model.{WorkspaceDoc, WorkspaceUpdate, Op, schema_version, u64_mod}
use inputshare.Model
use inputshare.Model.Edits.{edit}
use inputshare.Model.Invariant.{IsValid, edit-IsValid, after}
use inputshare.Model.Schema.{edit_schema}
use inputshare.Store
use inputshare.Store.{Bytes, Codec, denied, write_atomic}
use inputshare.Store.Crash.{written, write-eq}
use inputshare.Store.Files.{Disk, load_workspace, save_workspace}
use inputshare.Store.Laws.{saved_loads}
use inputshare.Agent.{
  Agent, NetCall, broadcast, call_net, announce_change, persist, taken_over, updated,
}
use inputshare.Agent.Commands.{mutate}
use inputshare.Agent.Trust.{mutate-Holds}

module _ (docs : Codec WorkspaceDoc) where
  -- What the next launch would load is the document, but for the clock, which moves on silently where
  -- a peer has nothing new.
  pub record InSync (doc : WorkspaceDoc) (disk : Disk) : Type 0 where
    pub saved : WorkspaceDoc
    pub loaded : load_workspace docs disk ≡ Store.ok (some saved)
    pub same : saved ≡ record doc { lamport = saved.lamport }
    pub valid : IsValid doc
    pub known : doc.schema_version ≤ schema_version
    pub free : disk.workspace.main ≢ denied

  abbrev pub Sound : Option WorkspaceDoc → Disk → Type 0
  Sound none disk = disk.workspace.main ≢ denied
  Sound (some doc) disk = InSync doc disk

  abbrev pub IsSound : Agent → Type 0
  IsSound a = Sound a.doc a.disk

  -- A document that serde_json can write.
  abbrev pub Encodable : Option WorkspaceDoc → Type 0
  Encodable none = Unit
  Encodable (some doc) = (b : Bytes) × (docs.encode doc ≡ some b)

  pub Sound-free :
      (o : Option WorkspaceDoc) (disk : Disk) → Sound o disk → disk.workspace.main ≢ denied
  Sound-free none disk h = h
  Sound-free (some doc) disk h = h.free

  saved_free :
      (doc : WorkspaceDoc) (disk : Disk) (b : Bytes)
      → docs.encode doc ≡ some b
      → disk.workspace.main ≢ denied
      → (save_workspace docs doc none disk).1.workspace.main ≢ denied
  unfolding save_workspace
  saved_free doc disk b e q = rw (write-eq docs doc b none disk.workspace e) (
      let w = (written docs disk.workspace.main disk.workspace.bak disk.workspace.tmp b q).1 in
      λ barred. cc (w, barred))

  saved_sound :
      (doc : WorkspaceDoc) (disk : Disk)
      → Encodable (some doc)
      → IsValid doc
      → doc.schema_version ≤ schema_version
      → disk.workspace.main ≢ denied
      → InSync doc (save_workspace docs doc none disk).1
  saved_sound doc disk enc v k q =
      let current : ltb schema_version doc.schema_version ≡ false = ground arith in
      record {
        saved = doc;
        loaded =
            saved_loads docs doc disk enc.0 enc.1 q
            ∙ ap
                (λ b.
                  if b
                  then Store.err (Store.newer_schema doc.schema_version schema_version)
                  else Store.ok (some doc))
                current;
        same = refl;
        valid = v;
        known = k;
        free = saved_free doc disk enc.0 enc.1 q;
      }

  -- The operations, with the store's writes going through, and no newer document taken over.
  pub Sound-of :
      (b : Agent) (o : Option WorkspaceDoc) (disk : Disk)
      → b.doc ≡ o
      → b.disk ≡ disk
      → Sound o disk
      → IsSound b
  Sound-of b o disk e f h = rw (e, f) h

  pub call_net-disk : (c : NetCall) (a : Agent) → (call_net c a).disk ≡ a.disk
  unfolding call_net
  call_net-disk c a = elim (Bool-cases a.net) [ inl e ↦ rw e refl | inr e ↦ rw e refl ]

  mutate-disk :
      (now_ms : ℕ) (op : Op) (a : Agent) (doc : WorkspaceDoc)
      → a.doc ≡ some doc
      → (mutate docs none now_ms op a).1.disk
        ≡ (save_workspace docs (edit doc a.identity.machine_id now_ms op).0 none a.disk).1
  unfolding mutate announce_change persist
  mutate-disk now_ms op a doc e =
      let made = edit doc a.identity.machine_id now_ms op in
      rw e (
        call_net-disk (broadcast made.1)
          (announce_change (persist docs none (record a { doc = some made.0 }))))

  made_sound :
      (doc : WorkspaceDoc) (origin now_ms : ℕ) (op : Op) (disk : Disk)
      → InSync doc disk
      → doc.lamport + 1 < u64_mod
      → Encodable (some (edit doc origin now_ms op).0)
      → (let made = (edit doc origin now_ms op).0 in
          InSync made (save_workspace docs made none disk).1)
  made_sound doc origin now_ms op disk h clock w =
      saved_sound (edit doc origin now_ms op).0 disk w
        (edit-IsValid doc origin now_ms op h.valid clock)
        (rw (edit_schema doc origin now_ms op) h.known) h.free

  pub recorded : (a : Agent) (doc : WorkspaceDoc) → a.doc ≡ some doc → IsSound a → InSync doc a.disk
  recorded a doc e h = subst (λ o. Sound o a.disk) e h

  pub mutate-IsSound :
      (now_ms : ℕ) (op : Op) (a : Agent) (doc : WorkspaceDoc)
      → a.doc ≡ some doc
      → doc.lamport + 1 < u64_mod
      → IsSound a
      → Encodable (mutate docs none now_ms op a).1.doc
      → IsSound (mutate docs none now_ms op a).1
  mutate-IsSound now_ms op a doc e clock h w =
      let after = (mutate-Holds docs none now_ms op a doc e).document in
      Sound-of (mutate docs none now_ms op a).1 _ _ after (mutate-disk now_ms op a doc e) (
        made_sound doc a.identity.machine_id now_ms op a.disk (recorded a doc e h) clock
          (subst Encodable after w))

  -- The agent after a call of the workspace: an error leaves it as it was.
  abbrev pub left : Agent → Model.Result (Bool × Agent) → Agent
  left a (Model.ok (changed, b)) = b
  left a (Model.err e) = a

  pub settle-IsSound :
      (a : Agent) (d : WorkspaceDoc) (r : Model.Result (Bool × WorkspaceDoc))
      → a.doc ≡ some d
      → IsSound a
      → IsValid (after d r)
      → (after d r).schema_version ≡ d.schema_version
      → ((e : WorkspaceDoc) → r ≡ Model.ok (false, e) → e ≡ record d { lamport = e.lamport })
      → Encodable (left a (taken_over docs none a r)).doc
      → IsSound (left a (taken_over docs none a r))
  unfolding persist announce_change
  settle-IsSound a d (Model.err e) q h v s k w = h
  settle-IsSound a d (Model.ok (true, doc)) q h v s k w =
      saved_sound doc a.disk w v (rw s (recorded a d q h).known) (recorded a d q h).free
  settle-IsSound a d (Model.ok (false, doc)) q h v s k w =
      let before = recorded a d q h in
      record {
        saved = before.saved;
        loaded = before.loaded;
        same =
            before.same
            ∙ sym (
                ap {A = WorkspaceDoc} (λ x. record x { lamport = before.saved.lamport })
                  (k doc refl));
        valid = v;
        known = rw s before.known;
        free = before.free;
      }

  pub update-IsSound :
      (a : Agent) (d : WorkspaceDoc) (r : Model.Result (Bool × WorkspaceDoc))
      → a.doc ≡ some d
      → IsSound a
      → IsValid (after d r)
      → (after d r).schema_version ≡ d.schema_version
      → ((e : WorkspaceDoc) → r ≡ Model.ok (false, e) → e ≡ record d { lamport = e.lamport })
      → Encodable (left a (updated docs none a (some r))).doc
      → IsSound (left a (updated docs none a (some r)))
  unfolding persist announce_change
  update-IsSound a d (Model.err e) q h v s k w = h
  update-IsSound a d (Model.ok (true, doc)) q h v s k w =
      settle-IsSound a d (Model.ok (true, doc)) q h v s k w
  update-IsSound a d (Model.ok (false, doc)) q h v s k w =
      settle-IsSound a d (Model.ok (false, doc)) q h v s k w

  pub merge_none-IsSound :
      (a : Agent) (incoming : WorkspaceDoc)
      → IsValid incoming
      → incoming.schema_version ≤ schema_version
      → a.disk.workspace.main ≢ denied
      → Encodable (some incoming)
      → IsSound (left a (taken_over docs none a (Model.ok (true, incoming))))
  unfolding persist announce_change
  merge_none-IsSound a incoming v k q w = saved_sound incoming a.disk w v k q
