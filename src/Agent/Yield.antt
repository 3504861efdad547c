-- ===== src/Agent/Yield.antt =====
-- crates/is-agent/src/lib.rs: two configurations that meet, of which one gives way.
use inputshare.Base.{
  ℕ, Bool, not, Option, none, some, ◌==◌, ◌≡◌, ◌≢◌, refl, if◌then◌else◌, arith, Bool-cases, inl,
  inr,
}
use inputshare.BTreeMap.{get, insert}
use inputshare.BTreeMap.Laws.{get-insert}
use inputshare.Model.{WorkspaceDoc}
use inputshare.Store
use inputshare.Store.{Codec, Fault}
use inputshare.Store.Files.{Identity, Backup, Disk, clear_workspace, export_backup}
use inputshare.Service.{Event}
use inputshare.Session.{size_of}
use inputshare.Agent.{NetCall, Agent, authorize, same_key, announce_change, drop_online}
use inputshare.Agent.Local.{rescan}
use inputshare.Agent.Trust.{Holds, decided, call_net-Holds}
use inputshare.Agent.Events.{on_net_event, should_yield, adopt_configuration_of, cleared, yielded}

-- Of two machines whose configurations have different identifiers exactly one gives way, when each
-- is told the other's identifier and size as a session announces them.
pub one_yields :
    (ours theirs : WorkspaceDoc)
    → ours.workspace_id ≢ theirs.workspace_id
    → should_yield ours theirs.workspace_id (size_of (some theirs))
      ≡ not (should_yield theirs ours.workspace_id (size_of (some ours)))
unfolding should_yield
one_yields ours theirs different = ground arith

-- Which keys are admitted after an event: those of before, unless this machine gives way to another,
-- and then the key of that one and what waits for a record.
abbrev pub admitted_after : Agent → Event → ℕ → ℕ → Bool
admitted_after a (Event.different_workspaces id name theirs_key theirs size) other key =
    elim a.doc [
      | none ↦ authorize a other key
      | some doc ↦
          if should_yield doc theirs size
          then (if id == other then theirs_key == key else same_key (get a.pending_trust other) key)
          else authorize a other key
    ]
admitted_after a _ other key = authorize a other key

module _ (ids : Codec Identity) (docs : Codec WorkspaceDoc) (backups : Codec Backup) where
  pub cleared-Holds :
      (r : Store.Result (Unit {0}) × Disk) (a : Agent)
      → Holds (cleared ids docs backups r a).1 a.doc a.pending_trust
  unfolding rescan announce_change
  cleared-Holds (Store.err e, disk) a = record { document = refl; waiting = refl }
  cleared-Holds (Store.ok done, disk) a =
      call_net-Holds NetCall.rescan (announce_change (record a { disk = disk })) a.doc
        a.pending_trust (record { document = refl; waiting = refl })

  pub adopt_trust :
      (fresh : Identity) (fault : Option Fault) (refusal : Option ℕ) (id their_key : ℕ) (a : Agent)
      (other key : ℕ)
      → authorize
          (adopt_configuration_of ids docs backups fresh fault refusal id their_key a).1
          other
          key
        ≡ (if id == other then their_key == key else same_key (get a.pending_trust other) key)
  unfolding adopt_configuration_of
  adopt_trust fresh fault refusal id their_key a other key =
      let rescued = (export_backup ids docs backups fresh fault a.disk).1 in
      let given_up : Agent = record a {
        doc = none;
        online = drop_online a.online id;
        pending_trust = insert a.pending_trust id their_key;
      } in
      let left = adopt_configuration_of ids docs backups fresh fault refusal id their_key a in
      let after =
        decided left.1 none given_up.pending_trust other key
          (cleared-Holds (clear_workspace refusal rescued) given_up) in
      elim (Bool-cases (id == other)) [
        | inl q ↦ rw (after, get-insert a.pending_trust id their_key other, q) refl
        | inr q ↦ rw (after, get-insert a.pending_trust id their_key other, q) refl
      ]

  yield_trust :
      (fresh : Identity) (fault : Option Fault) (refusal : Option ℕ) (id their_key theirs size : ℕ)
      (a : Agent) (o : Option WorkspaceDoc) (other key : ℕ)
      → a.doc ≡ o
      → authorize
          (yielded ids docs backups fresh fault refusal id their_key theirs size a o)
          other
          key
        ≡ elim o [
          | none ↦ authorize a other key
          | some doc ↦
              if should_yield doc theirs size
              then (if id == other
                  then their_key == key
                  else same_key (get a.pending_trust other) key)
              else authorize a other key
        ]
  yield_trust fresh fault refusal id their_key theirs size a none other key e = refl
  yield_trust fresh fault refusal id their_key theirs size a (some doc) other key e =
      elim (Bool-cases (should_yield doc theirs size)) [
        | inl q ↦ rw q (adopt_trust fresh fault refusal id their_key a other key)
        | inr q ↦ rw q refl
      ]

  -- What the network reports changes nothing about who is admitted, with one exception: a machine
  -- with another configuration, to which this one gives way. Then the key of that machine is admitted, and
  -- of the others only those of which a decision waits for a record.
  pub event_trust :
      (fresh : Identity) (fault : Option Fault) (refusal : Option ℕ) (now_ms : ℕ) (event : Event)
      (a : Agent) (other key : ℕ)
      → authorize (on_net_event ids docs backups fresh fault refusal now_ms event a) other key
        ≡ admitted_after a event other key
  unfolding on_net_event authorize announce_change
  event_trust fresh fault refusal now_ms (Event.different_workspaces id name their_key theirs size)
        a other key =
      yield_trust fresh fault refusal id their_key theirs size a a.doc other key refl
  event_trust fresh fault refusal now_ms (Event.online id) a other key = refl
  event_trust fresh fault refusal now_ms (Event.offline id reason) a other key = refl
  event_trust fresh fault refusal now_ms (Event.candidate id name k w addr invited) a other key =
      refl
  event_trust fresh fault refusal now_ms (Event.rejected id k addr) a other key = refl
  event_trust fresh fault refusal now_ms Event.workspace_changed a other key = refl
  event_trust fresh fault refusal now_ms (Event.sighted id) a other key = refl
  event_trust fresh fault refusal now_ms (Event.connecting id) a other key = refl
