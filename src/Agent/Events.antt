-- ===== src/Agent/Events.antt =====
-- crates/is-agent/src/lib.rs: the first launch, what the network reports, and which of two
-- configurations gives way to the other.
use Prim.Native.String.{String}
use Prim.Native.Nat.{compare, Ordering}
use inputshare.Base.{ℕ, Bool, true, false, Option, none, some, [], ltb, if◌then◌else◌}
use inputshare.BTreeMap.{get, insert, remove}
use inputshare.Model.{WorkspaceDoc, MachineRecord}
use inputshare.Model.Edits.{create}
use inputshare.Store
use inputshare.Store.{Codec, Fault, Bytes}
use inputshare.Store.Files.{
  Identity, Disk, Backup, load_or_create_identity, load_workspace, save_workspace, clear_workspace,
  export_backup,
}
use inputshare.Service.{Event}
use inputshare.Session.{size_of}
use inputshare.Agent.{Agent, Candidate, announce_change, add_online, drop_online}
use inputshare.Agent.Local.{rescan}
use inputshare.Agent.Commands.{Result, ok, err, core}

-- Nothing is known of the network at first.
abbrev pub started : Identity → Disk → WorkspaceDoc → Agent
started identity disk doc = record {
  identity = identity;
  disk = disk;
  doc = some doc;
  online = [];
  candidates = [];
  pending_trust = [];
  manual_peers = [];
  announced_owner = none;
  remote_input = none;
  cursor_owner = none;
  sharing = false;
  net = false;
  calls = [];
  notices = 0;
  injected = [];
}

module _ (ids : Codec Identity) (docs : Codec WorkspaceDoc) where
  abbrev pub first_saved :
      Identity → WorkspaceDoc → Store.Result (Unit {0}) × Disk → Result Agent × Disk
  first_saved identity doc (Store.ok done, disk) = (ok (started identity disk doc), disk)
  first_saved identity doc (Store.err e, disk) = (err (core e), disk)

  abbrev pub with_workspace :
      Option Fault
      → (Identity → WorkspaceDoc)
      → Identity
      → Disk
      → Store.Result (Option WorkspaceDoc)
      → Result Agent × Disk
  with_workspace fault first identity disk (Store.err e) = (err (core e), disk)
  with_workspace fault first identity disk (Store.ok (some doc)) =
      (ok (started identity disk doc), disk)
  with_workspace fault first identity disk (Store.ok none) =
      first_saved identity (first identity) (save_workspace docs (first identity) fault disk)

  abbrev pub with_identity :
      Option Fault → (Identity → WorkspaceDoc) → Store.Result Identity × Disk → Result Agent × Disk
  with_identity fault first (Store.err e, disk) = (err (core e), disk)
  with_identity fault first (Store.ok identity, disk) =
      with_workspace fault first identity disk (load_workspace docs disk)

  -- `local` is the record of this machine; the fresh identity and uuid are arguments, and each of the
  -- two writes may have a fault.
  unfoldable pub load :
      Identity
      → (Identity → MachineRecord)
      → String
      → ℕ
      → ℕ
      → Option Fault
      → Option Fault
      → Disk
      → Result Agent × Disk
  unfolding create
  load fresh local computer uuid now_ms fault later disk =
      with_identity later (λ identity. create computer (local identity) uuid now_ms)
        (load_or_create_identity ids fresh fault disk)

-- Both sides compare the same two numbers, and the identifiers when those are equal.
unfoldable pub should_yield : WorkspaceDoc → ℕ → ℕ → Bool
should_yield ours their_workspace their_size = elim (compare (size_of (some ours)) their_size) [
  | Ordering.lt ↦ true
  | Ordering.gt ↦ false
  | Ordering.eq ↦ ltb their_workspace ours.workspace_id
]

-- The copy of what is given up is written elsewhere; making it mints an identity if there is none.
-- The argument `refusal` is the removal that the system refuses.
module _ (ids : Codec Identity) (docs : Codec WorkspaceDoc) (backups : Codec Backup) where
  abbrev pub cleared : Store.Result (Unit {0}) × Disk → Agent → Result (Unit {0}) × Agent
  cleared (Store.err e, disk) a = (err (core e), record a { disk = disk })
  cleared (Store.ok done, disk) a = (ok tt, rescan (announce_change (record a { disk = disk })))

  unfoldable pub adopt_configuration_of :
      Identity → Option Fault → Option ℕ → ℕ → ℕ → Agent → Result (Unit {0}) × Agent
  unfolding announce_change rescan drop_online
  adopt_configuration_of fresh fault refusal id their_key a =
      let rescued = (export_backup ids docs backups fresh fault a.disk).1 in
      cleared (clear_workspace refusal rescued) (record a {
        doc = none;
        online = drop_online a.online id;
        pending_trust = insert a.pending_trust id their_key;
      })

  abbrev pub yielded :
      Identity → Option Fault → Option ℕ → ℕ → ℕ → ℕ → ℕ → Agent → Option WorkspaceDoc → Agent
  yielded fresh fault refusal id key theirs size a none = a
  yielded fresh fault refusal id key theirs size a (some doc) =
      if should_yield doc theirs size
      then (adopt_configuration_of fresh fault refusal id key a).1
      else a

  abbrev pub or_candidate : Option Candidate → Candidate → Candidate
  or_candidate none c = c
  or_candidate (some known) c = known

  unfoldable pub on_net_event : Identity → Option Fault → Option ℕ → ℕ → Event → Agent → Agent
  unfolding adopt_configuration_of should_yield announce_change add_online drop_online
  on_net_event fresh fault refusal now_ms (Event.different_workspaces id name key theirs size) a =
      yielded fresh fault refusal id key theirs size a a.doc
  on_net_event fresh fault refusal now_ms (Event.online id) a =
      announce_change
        (record a { online = add_online a.online id; candidates = remove a.candidates id })
  on_net_event fresh fault refusal now_ms (Event.offline id reason) a =
      announce_change (record a { online = drop_online a.online id })
  on_net_event fresh fault refusal now_ms (Event.candidate id name key workspace_id addr invited_us)
        a =
      announce_change (record a {
        candidates = insert a.candidates id (record {
          machine_id = id;
          display_name = name;
          identity_key = key;
          invited_us = invited_us;
          addr = addr;
          last_seen_ms = now_ms;
          has_workspace = elim workspace_id [ none ↦ false | some w ↦ true ];
        });
      })
  on_net_event fresh fault refusal now_ms (Event.rejected id key addr) a =
      announce_change (record a {
        candidates = insert a.candidates id (
            or_candidate (get a.candidates id) (record {
              machine_id = id;
              display_name = "Unknown computer";
              identity_key = key;
              invited_us = false;
              addr = addr;
              last_seen_ms = now_ms;
              has_workspace = true;
            }));
      })
  on_net_event fresh fault refusal now_ms Event.workspace_changed a = a
  on_net_event fresh fault refusal now_ms (Event.sighted id) a = a
  on_net_event fresh fault refusal now_ms (Event.connecting id) a = a
