-- ===== src/Agent/Runs.antt =====
-- crates/is-agent/src/lib.rs: everything that changes the document or the file of it, in any order.
use inputshare.Base.{
  ℕ, ◌+◌, ◌≤◌, ◌<◌, false, Option, none, some, ◌==◌, ◌≡◌, refl, sym, ap, ◌∙◌, Bool-cases, inl, inr,
}
use inputshare.BTreeMap.{get, insert}
use inputshare.Model.{WorkspaceDoc, WorkspaceUpdate, Op, schema_version, u64_mod}
use inputshare.Model
use inputshare.Model.Sync
use inputshare.Model.Invariant.{IsValid, apply-IsValid, merge-IsValid}
use inputshare.Model.Changes.{merge_unchanged, apply_unchanged}
use inputshare.Model.Schema.{apply_schema, merge_schema}
use inputshare.Store.{Codec, Fault}
use inputshare.Store.Files.{Identity, Backup, Disk, clear_workspace, export_backup}
use inputshare.Service.{Event}
use inputshare.Agent.{
  persist, Agent, Candidate, NetCall, announce_change, merge, apply, merged, applied, taken_over,
  updated, drop_online,
}
use inputshare.Agent.Facts.{admission, free_position}
use inputshare.Agent.Local.{rescan}
use inputshare.Agent.Commands.{
  mutate, Result, ok, err, pair, unpair, forget_candidate, disconnect, admit,
}
use inputshare.Agent.Events.{on_net_event, yielded, adopt_configuration_of, cleared, should_yield}
use inputshare.Agent.Trust.{call_net-Holds}
use inputshare.Agent.Saved.{
  Encodable, IsSound, left, mutate-IsSound, settle-IsSound, update-IsSound, merge_none-IsSound,
  Sound-of, Sound-free, recorded, call_net-disk,
}

module _ (ids : Codec Identity) (docs : Codec WorkspaceDoc) (backups : Codec Backup) where
  abbrev Room : Agent → Type 0
  Room a = (doc : WorkspaceDoc) → a.doc ≡ some doc → doc.lamport + 1 < u64_mod

  -- One operation. The clock of the document is not at its last value where this machine writes.
  pub data Step : Agent → Agent → Type 0 where
    changed : (now_ms : ℕ) (op : Op) (a : Agent) → Room a → Step a (mutate docs none now_ms op a).1
    paired :
        (paired_at now_ms id : ℕ) (a : Agent)
        → Room a
        → Step a (pair docs none paired_at now_ms id a).1
    unpaired : (now_ms id : ℕ) (a : Agent) → Room a → Step a (unpair docs none now_ms id a).1
    merging :
        (incoming : WorkspaceDoc) (a : Agent)
        → IsValid incoming
        → incoming.schema_version ≤ schema_version
        → Step a (left docs a (merge docs none a incoming))
    applying :
        (update : WorkspaceUpdate) (a : Agent) → Step a (left docs a (apply docs none a update))
    reported :
        (fresh : Identity) (fault : Option Fault) (now_ms : ℕ) (event : Event) (a : Agent)
        → Step a (on_net_event ids docs backups fresh fault none now_ms event a)

  merge-IsSound :
      (a : Agent) (o : Option WorkspaceDoc) (incoming : WorkspaceDoc)
      → a.doc ≡ o
      → IsSound docs a
      → IsValid incoming
      → incoming.schema_version ≤ schema_version
      → Encodable docs ((left docs a (taken_over docs none a (merged o incoming)))).doc
      → IsSound docs (left docs a (taken_over docs none a (merged o incoming)))
  unfolding persist announce_change
  merge-IsSound a none incoming e h v k w =
      merge_none-IsSound docs a incoming v k (Sound-free docs a.doc a.disk h) w
  merge-IsSound a (some doc) incoming e h v k w =
      let before = recorded docs a doc e h in
      settle-IsSound docs a doc (Model.Sync.merge doc incoming) e h
        (merge-IsValid doc incoming before.valid v) (merge_schema doc incoming)
        (merge_unchanged doc incoming) w

  quiet_update :
      (d e : WorkspaceDoc) (u : WorkspaceUpdate)
      → Model.Sync.apply d u ≡ Model.ok (false, e)
      → e ≡ record d { lamport = e.lamport }
  quiet_update d e u h =
      let q = apply_unchanged d e u h in
      q
      ∙ ap {A = ℕ} (λ n. record d { lamport = n }) (sym (ap {A = WorkspaceDoc} (λ x. x.lamport) q))

  apply-IsSound :
      (a : Agent) (o : Option WorkspaceDoc) (u : WorkspaceUpdate)
      → a.doc ≡ o
      → IsSound docs a
      → Encodable docs ((left docs a (updated docs none a (applied o u)))).doc
      → IsSound docs (left docs a (updated docs none a (applied o u)))
  apply-IsSound a none u e h w = h
  apply-IsSound a (some doc) u e h w =
      let before = recorded docs a doc e h in
      update-IsSound docs a doc (Model.Sync.apply doc u) e h (apply-IsValid doc u before.valid)
        (apply_schema doc u) (λ f q. quiet_update doc f u q) w

  changed-IsSound :
      (now_ms : ℕ) (op : Op) (a : Agent) (o : Option WorkspaceDoc)
      → a.doc ≡ o
      → Room a
      → IsSound docs a
      → Encodable docs ((mutate docs none now_ms op a).1).doc
      → IsSound docs (mutate docs none now_ms op a).1
  unfolding mutate
  changed-IsSound now_ms op a none e r h w = rw e (Sound-free docs a.doc a.disk h)
  changed-IsSound now_ms op a (some doc) e r h w =
      mutate-IsSound docs now_ms op a doc e (r doc e) h w

  forgotten-IsSound :
      (id : ℕ) (r : Result (Unit {0}) × Agent)
      → (Encodable docs r.1.doc → IsSound docs r.1)
      → Encodable docs (forget_candidate docs id r).1.doc
      → IsSound docs (forget_candidate docs id r).1
  forgotten-IsSound id (ok done, b) f w = f w
  forgotten-IsSound id (err e, b) f w = f w

  disconnected-IsSound :
      (id : ℕ) (r : Result (Unit {0}) × Agent)
      → (Encodable docs r.1.doc → IsSound docs r.1)
      → Encodable docs (disconnect docs id r).1.doc
      → IsSound docs (disconnect docs id r).1
  disconnected-IsSound id (ok done, b) f w = f w
  disconnected-IsSound id (err e, b) f w = f w

  admit-IsSound :
      (paired_at now_ms id : ℕ) (c : Candidate) (a : Agent) (o : Option WorkspaceDoc)
      → a.doc ≡ o
      → Room a
      → IsSound docs a
      → Encodable docs ((admit docs none paired_at now_ms c id a o).1).doc
      → IsSound docs (admit docs none paired_at now_ms c id a o).1
  unfolding announce_change
  admit-IsSound paired_at now_ms id c a none e r h w = h
  admit-IsSound paired_at now_ms id c a (some doc) e r h w =
      let op = Op.upsert_machine (admission c (free_position (some doc)) paired_at) in
      forgotten-IsSound id (mutate docs none now_ms op a)
        (changed-IsSound now_ms op a (some doc) e r h) w

  pair-IsSound :
      (paired_at now_ms id : ℕ) (a : Agent) (o : Option Candidate)
      → get a.candidates id ≡ o
      → Room a
      → IsSound docs a
      → Encodable docs ((pair docs none paired_at now_ms id a).1).doc
      → IsSound docs (pair docs none paired_at now_ms id a).1
  unfolding pair
  pair-IsSound paired_at now_ms id a none e r h = rw (e, pair) (λ _. h)
  pair-IsSound paired_at now_ms id a (some c) e r h =
      rw (e, pair) (admit-IsSound paired_at now_ms id c a a.doc refl r h)

  unpair-IsSound :
      (now_ms id : ℕ) (a : Agent)
      → Room a
      → IsSound docs a
      → Encodable docs ((unpair docs none now_ms id a).1).doc
      → IsSound docs (unpair docs none now_ms id a).1
  unfolding unpair
  unpair-IsSound now_ms id a r h = elim (Bool-cases (id == a.identity.machine_id)) [
    | inl e ↦ rw (e, unpair) (λ _. h)
    | inr e ↦
        rw (e, unpair)
          (disconnected-IsSound id (mutate docs none now_ms (Op.remove_machine id) a)
            (changed-IsSound now_ms (Op.remove_machine id) a a.doc refl r h))
  ]

  cleared-IsSound :
      (disk : Disk) (a : Agent)
      → a.doc ≡ none
      → IsSound docs (cleared ids docs backups (clear_workspace none disk) a).1
  unfolding clear_workspace rescan announce_change
  cleared-IsSound disk a e =
      let gone = (clear_workspace none disk).1 in
      let told : Agent = announce_change (record a { disk = gone }) in
      Sound-of docs (rescan told) none gone
        (call_net-Holds NetCall.rescan told none told.pending_trust
          (record { document = e; waiting = refl })).document
        (call_net-disk docs NetCall.rescan told) (λ q. cc q)

  yield-IsSound :
      (fresh : Identity) (fault : Option Fault) (id key theirs size : ℕ) (a : Agent)
      (o : Option WorkspaceDoc)
      → IsSound docs a
      → IsSound docs (yielded ids docs backups fresh fault none id key theirs size a o)
  unfolding adopt_configuration_of
  yield-IsSound fresh fault id key theirs size a none h = h
  yield-IsSound fresh fault id key theirs size a (some doc) h =
      elim (Bool-cases (should_yield doc theirs size)) [
        | inr e ↦ rw e h
        | inl e ↦ rw e (
            cleared-IsSound (export_backup ids docs backups fresh fault a.disk).1
              (record a {
                doc = none;
                online = drop_online a.online id;
                pending_trust = insert a.pending_trust id key;
              })
              refl)
      ]

  event-IsSound :
      (fresh : Identity) (fault : Option Fault) (now_ms : ℕ) (event : Event) (a : Agent)
      → IsSound docs a
      → IsSound docs (on_net_event ids docs backups fresh fault none now_ms event a)
  unfolding on_net_event announce_change
  event-IsSound fresh fault now_ms (Event.different_workspaces id name key theirs size) a h =
      yield-IsSound fresh fault id key theirs size a a.doc h
  event-IsSound fresh fault now_ms (Event.online id) a h = h
  event-IsSound fresh fault now_ms (Event.offline id reason) a h = h
  event-IsSound fresh fault now_ms (Event.candidate id name k w addr invited) a h = h
  event-IsSound fresh fault now_ms (Event.rejected id k addr) a h = h
  event-IsSound fresh fault now_ms Event.workspace_changed a h = h
  event-IsSound fresh fault now_ms (Event.sighted id) a h = h
  event-IsSound fresh fault now_ms (Event.connecting id) a h = h

  step-IsSound : {a b : Agent} → Step a b → IsSound docs a → Encodable docs b.doc → IsSound docs b
  unfolding merge apply
  step-IsSound (Step.changed now_ms op a r) h w = changed-IsSound now_ms op a a.doc refl r h w
  step-IsSound (Step.paired paired_at now_ms id a r) h w =
      pair-IsSound paired_at now_ms id a (get a.candidates id) refl r h w
  step-IsSound (Step.unpaired now_ms id a r) h w = unpair-IsSound now_ms id a r h w
  step-IsSound (Step.merging incoming a v k) h w = merge-IsSound a a.doc incoming refl h v k w
  step-IsSound (Step.applying update a) h w = apply-IsSound a a.doc update refl h w
  step-IsSound (Step.reported fresh fault now_ms event a) h w =
      event-IsSound fresh fault now_ms event a h

  -- Any number of operations, after each of which the document can be written.
  pub data Run : Agent → Agent → Type 0 where
    rest : (a : Agent) → Run a a
    then : {a b c : Agent} → Run a b → Step b c → Encodable docs c.doc → Run a c

  -- Through any run of operations whose writes succeed, in which peers send valid documents of a
  -- known schema and this machine's clock does not overflow: the document stays valid, and the next
  -- launch would load it as it stands in memory, but for the clock.
  pub Run-IsSound : {a b : Agent} → Run a b → IsSound docs a → IsSound docs b
  Run-IsSound (Run.rest a) h = h
  Run-IsSound (Run.then run step w) h = step-IsSound step (Run-IsSound run h) w
