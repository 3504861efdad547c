-- ===== src/Examples/Desk.antt =====
-- The agent of the desk, in the workspace that it shares with the laptop.
use inputshare.Examples.{screen}
use inputshare.Service.Handle.{Handle, started as up, default_config}
use inputshare.Agent.Network.{Edit, edited_all, Agrees, reached_all, manual-Agrees}
use inputshare.Agent.Refresher.{refreshes, IsPublished, refresher_rests}
use inputshare.Model.{DisplayInfo}
use inputshare.Examples.{screen, paired-IsValid}
use inputshare.Agent.Autostart.{Faults}
use inputshare.Agent.Autostart.Switch.{Machine, is_enabled, set, set_holds}
use inputshare.Agent.Autostart.Switch
use inputshare.Base.{List}
use inputshare.Examples.{DisplayInfo}
use inputshare.Base.{true, false, not, Option, none, some, [], ◌∷◌, ◌≡◌, refl, arith, if◌then◌else◌}
use inputshare.BTreeMap.{get, insert}
use inputshare.Model.{bounds, WorkspaceDoc, Platform}
use inputshare.Model
use inputshare.Model.Edits.{create, upsert_machine}
use inputshare.Store.{Bytes, Codec}
use inputshare.Store.Files.{Backup, LocalPrefs}
use inputshare.Service.{Event}
use inputshare.Session.{Workspace, size_of}
use inputshare.Agent.{Agent, Candidate, authorize, workspace, merge, persist, announce_change}
use inputshare.Agent.Commands.{pair, unpair}
use inputshare.Agent.Events.{started, on_net_event, should_yield}
use inputshare.Model.Query.{machines_present}
use inputshare.Agent.Trust.{pair_admits, unpair_revokes}
use inputshare.Agent.Yield.{one_yields, event_trust, admitted_after}
use inputshare.Agent.Joining.{HasJoined, yielding_joins}
use inputshare.Agent.Saved.{IsSound, left}
use inputshare.Agent.Runs.{Run, Step, Run-IsSound}
use inputshare.Examples.{founded, paired, founded-IsValid}
use inputshare.Examples.Files.{identities, documents, disk, own, document-Discrete, write_same}

abbrev pub desk_agent : Agent
desk_agent = started own disk paired

abbrev pub desk_workspace : Workspace Agent
desk_workspace = workspace documents "desk" (λ e. true) none

abbrev phone : Candidate
phone = record {
  machine_id = 3;
  display_name = "phone";
  identity_key = 33;
  invited_us = false;
  addr = record { ip = 5; port = 47452 };
  last_seen_ms = 10;
  has_workspace = false;
}

abbrev meeting : Agent
meeting = record desk_agent { candidates = (3, phone) ∷ [] }

pair_admits_example : authorize (pair documents none 2000 2001 3 meeting).1 3 33 ≡ true
unfolding get
pair_admits_example = pair_admits documents none 2000 2001 3 phone meeting 3 33 refl

unpair_revokes_example : authorize (unpair documents none 2000 2 desk_agent).1 2 22 ≡ false
unfolding get
unpair_revokes_example =
    unpair_revokes documents none 2000 2 desk_agent paired 2 22 (λ e. ground arith) refl

abbrev elsewhere : WorkspaceDoc
elsewhere = record founded { workspace_id = 8 }

one_yields_example :
    should_yield founded elsewhere.workspace_id (size_of (some elsewhere))
    ≡ not (should_yield elsewhere founded.workspace_id (size_of (some founded)))
unfolding create
one_yields_example = one_yields founded elsewhere (λ e. ground arith)

-- A codec that can write nothing.
abbrev backups : Codec Backup
backups = record { encode = λ b. none; decode = λ b. none; decode-encode = λ v b e. ground arith }

abbrev mismatch : Event
mismatch = Event.different_workspaces 2 "laptop" 22 9 5

event_trust_example :
    authorize
      (on_net_event identities documents backups own none none 3000 mismatch desk_agent)
      2
      22
    ≡ admitted_after desk_agent mismatch 2 22
event_trust_example =
    event_trust identities documents backups own none none 3000 mismatch desk_agent 2 22

abbrev read_prefs : Bytes → Option LocalPrefs
read_prefs [] = some (record { sharing = false })
read_prefs (b ∷ bs) = some (record { sharing = true })

abbrev preferences : Codec LocalPrefs
preferences = record {
  encode = λ p. some (if p.sharing then 1 ∷ [] else []);
  decode = read_prefs;
  decode-encode = λ p b e. ground arith;
}

yielding_joins_example :
    (let b =
        on_net_event identities documents backups own none none 3000
          (Event.different_workspaces 2 "laptop" 22 elsewhere.workspace_id 9)
          desk_agent in
      (authorize b 2 22 ≡ true)
      × (c : Agent) × (merge documents none b elsewhere ≡ Model.ok (true, c))
      × HasJoined c elsewhere)
unfolding should_yield create machines_present upsert_machine insert
yielding_joins_example =
    yielding_joins identities documents backups own none none none 3000 2 22 9 "laptop" desk_agent
      paired elsewhere refl refl

-- A machine that has given up its configuration and is sent the one of the other.
abbrev joining : Agent
joining = record desk_agent { doc = none }

abbrev joined : Agent
joined = left documents joining (merge documents none joining founded)

joined-Run : Run identities documents backups joining joined
unfolding merge persist announce_change create
joined-Run =
    Run.then (Run.rest joining) (Step.merging founded joining founded-IsValid (omega arith))
      ([], write_same founded (document-Discrete founded founded))

Run-IsSound_example : IsSound documents joined
Run-IsSound_example = Run-IsSound identities documents backups joined-Run (λ e. ground arith)

-- The desk with its service running.
abbrev reachable : Agent
reachable = record desk_agent { net = true }

abbrev handle : Handle
handle = up (default_config own) 47452

abbrev edits : List Edit
edits =
    Edit.add (record { ip = 5; port = 47451 })
    ∷ Edit.add (record { ip = 6; port = 47451 })
    ∷ Edit.forget (record { ip = 5; port = 47451 })
    ∷ []

manual-Agrees_example : Agrees handle (edited_all edits reachable)
unfolding reached_all
manual-Agrees_example = manual-Agrees edits handle reachable (refl, refl)

-- The screen of the desk has become wider.
abbrev wider : DisplayInfo
wider = record screen { width = 200 }

refresher_rests_example :
    (let end =
        refreshes documents
          (wider ∷ [])
          Platform.linux
          ((none, 3000) ∷ (none, 3001) ∷ (none, 3002) ∷ [])
          (record { is_running = true; unread = 2 }, desk_agent) in
      (end.0 ≡ record { is_running = true; unread = 0 })
      × IsPublished documents (wider ∷ []) Platform.linux end.1)
refresher_rests_example =
    refresher_rests documents (wider ∷ []) Platform.linux none 3000
      ((none, 3001) ∷ (none, 3002) ∷ []) 1 desk_agent paired refl paired-IsValid (refl, tt)
      (omega arith) (omega arith)

-- A desk whose program is not started at login, where every call of the system works.
abbrev working : Faults
working = record { opening = none; change = none; left = none }

abbrev at_home : Machine
at_home = Switch.unix (record { home = some "/home/desk"; xdg_config_home = none; entry = none })

set_holds_example : is_enabled (set working true "/usr/bin/inputshare" at_home).1 ≡ true
unfolding set
set_holds_example =
    set_holds working true "/usr/bin/inputshare" at_home refl (λ e. ground arith) refl
