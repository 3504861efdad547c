-- ===== src/Agent/Joining.antt =====
-- crates/is-agent/src/lib.rs: a machine that gives way ends up in the other's workspace.
use Prim.Native.String.{String}
use mathlib.Core.Option.{some-injective}
use inputshare.Base.{ℕ, true, Option, none, some, ◌≡◌, refl, ap, ◌∙◌, arith, ==_iff}
use inputshare.BTreeMap.{BTreeMap, get, insert, keys}
use inputshare.Model.{WorkspaceDoc, MachineRecord}
use inputshare.Model
use inputshare.Model.Query.{machine}
use inputshare.Store.{Codec, Fault}
use inputshare.Store.Files.{Identity, Backup, clear_workspace, export_backup}
use inputshare.Service.{Event}
use inputshare.Agent.{
  Agent, authorize, merge, merged, taken_over, announce_change, persist, drop_online, remove_all,
  adopted,
}
use inputshare.Agent.Trust.{Holds, decided, decision}
use inputshare.Agent.Yield.{cleared-Holds, adopt_trust}
use inputshare.Agent.Events.{on_net_event, should_yield, adopt_configuration_of, yielded}

-- The agent has taken over the document, and admits its machines under their recorded keys.
abbrev pub HasJoined : Agent → WorkspaceDoc → Type 0
HasJoined c peer =
    (c.doc ≡ some peer)
    × ((id : ℕ) (m : MachineRecord) → machine peer id ≡ some m → authorize c id m.public_key ≡ true)

recorded_admits :
    (c : Agent) (peer : WorkspaceDoc) (pending : BTreeMap ℕ) (id : ℕ) (m : MachineRecord)
    → Holds c (some peer) pending
    → machine peer id ≡ some m
    → authorize c id m.public_key ≡ true
recorded_admits c peer pending id m h found =
    decided c (some peer) pending id m.public_key h
    ∙ ap (λ o. decision o (get pending id) m.public_key) found
    ∙ (==_iff m.public_key m.public_key).1 refl

module _ (ids : Codec Identity) (docs : Codec WorkspaceDoc) (backups : Codec Backup) where
  takes_over :
      (fault : Option Fault) (b : Agent) (peer : WorkspaceDoc)
      → b.doc ≡ none
      → (c : Agent) × (merge docs fault b peer ≡ Model.ok (true, c)) × HasJoined c peer
  unfolding merge announce_change persist
  takes_over fault b peer e =
      let pending = remove_all (adopted peer (keys b.pending_trust)) b.pending_trust in
      let c : Agent =
        announce_change
          (persist docs fault (record b { doc = some peer; pending_trust = pending })) in
      (
        c,
        ap (λ o. taken_over docs fault b (merged o peer)) e,
        (
          refl,
          λ id m found.
              recorded_admits c peer pending id m (record { document = refl; waiting = refl })
                found,
        ),
      )

  emptied :
      (fresh : Identity) (fault : Option Fault) (refusal : Option ℕ) (id key theirs size : ℕ)
      (a : Agent) (doc : WorkspaceDoc)
      → should_yield doc theirs size ≡ true
      → (yielded ids docs backups fresh fault refusal id key theirs size a (some doc)).doc ≡ none
  unfolding adopt_configuration_of
  emptied fresh fault refusal id key theirs size a doc y =
      let given_up : Agent = record a {
        doc = none;
        online = drop_online a.online id;
        pending_trust = insert a.pending_trust id key;
      } in
      rw y
        (cleared-Holds ids docs backups
          (clear_workspace refusal (export_backup ids docs backups fresh fault a.disk).1)
          given_up).document

  joins :
      (fresh : Identity) (fault later : Option Fault) (refusal : Option ℕ) (id key size : ℕ)
      (a : Agent) (doc peer : WorkspaceDoc) (o : Option WorkspaceDoc)
      → o ≡ some doc
      → should_yield doc peer.workspace_id size ≡ true
      → (let b = yielded ids docs backups fresh fault refusal id key peer.workspace_id size a o in
          (authorize b id key ≡ true)
          × (c : Agent) × (merge docs later b peer ≡ Model.ok (true, c))
          × HasJoined c peer)
  joins fresh fault later refusal id key size a doc peer none e y = ground arith
  joins fresh fault later refusal id key size a doc peer (some own) e y =
      let own_yields : should_yield own peer.workspace_id size ≡ true =
        ap (λ d. should_yield d peer.workspace_id size) (some-injective own doc e) ∙ y in
      let b =
        yielded ids docs backups fresh fault refusal id key peer.workspace_id size a (some own) in
      let after =
        takes_over later b peer
          (emptied fresh fault refusal id key peer.workspace_id size a own own_yields) in
      (
        rw own_yields (
            adopt_trust ids docs backups fresh fault refusal id key a id key
            ∙ rw ((==_iff id id).1 refl) ((==_iff key key).1 refl)),
        after.0,
        after.1,
        after.2,
      )

  -- A machine that is told of another configuration and gives way to it admits the machine that
  -- reported it under the key it proved, and takes over the very next document that it is sent: it then
  -- holds that document, and admits each of its machines under the recorded key. Failures to write
  -- or to clear files change nothing of this.
  pub yielding_joins :
      (fresh : Identity) (fault later : Option Fault) (refusal : Option ℕ) (now_ms id key size : ℕ)
      (name : String) (a : Agent) (doc peer : WorkspaceDoc)
      → a.doc ≡ some doc
      → should_yield doc peer.workspace_id size ≡ true
      → (let b =
            on_net_event ids docs backups fresh fault refusal now_ms
              (Event.different_workspaces id name key peer.workspace_id size)
              a in
          (authorize b id key ≡ true)
          × (c : Agent) × (merge docs later b peer ≡ Model.ok (true, c))
          × HasJoined c peer)
  unfolding on_net_event
  yielding_joins fresh fault later refusal now_ms id key size name a doc peer e y =
      joins fresh fault later refusal id key size a doc peer a.doc e y
