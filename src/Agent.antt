-- ===== src/Agent.antt =====
-- crates/is-agent/src/lib.rs: what this machine knows and does about its workspace. The agent's
-- document, peers and switches are one state, with the files of the store; what it asks of the network
-- service and how often it tells its views to refresh is recorded in order. The clock, a fault of the
-- store and what the operating system answers are arguments. A set has no order here but that of its
-- insertions. Locks are not modelled: an operation runs as one.
pub mod Facts
pub mod Commands
pub mod Local
pub mod Events
pub mod Trust
pub mod Yield
pub mod Position
pub mod Switches
pub mod Displays
pub mod Saved
pub mod Runs
pub mod Joining
pub mod View
pub mod Refresher
pub mod Network
pub mod Autostart
use inputshare.Base.{
  ℕ, ◌+◌, ◌==◌, String, Bool, true, false, not, ◌||◌, ◌&&◌, Option, none, some, List, [], ◌∷◌, ◌++◌,
  if◌then◌else◌, ltb, length,
}
use inputshare.BTreeMap.{BTreeMap, get, remove, keys}
use inputshare.Model.{WorkspaceDoc, WorkspaceUpdate, MachineRecord}
use inputshare.Model
use inputshare.Model.Query.{machine, machines_present}
use inputshare.Model.Sync
use inputshare.Sharing.{InputEvent}
use inputshare.Store.{Codec, Fault}
use inputshare.Store.Files.{Identity, Disk, save_workspace}
use inputshare.Service.{SocketAddr, contains}
use inputshare.Session.{Workspace}

-- The address is kept as such, where the source keeps its text.
pub record Candidate : Type 0 where
  pub machine_id : ℕ
  pub display_name : String
  pub identity_key : ℕ
  pub invited_us : Bool
  pub addr : SocketAddr
  pub last_seen_ms : ℕ
  pub has_workspace : Bool

-- The commands that the agent gives to the network service.
pub data NetCall : Type 0 where
  broadcast : WorkspaceUpdate → NetCall
  announce_cursor_owner : ℕ → NetCall
  send_input : ℕ → List InputEvent → NetCall
  add_manual_peer forget_manual_peer : SocketAddr → NetCall
  rescan : NetCall

-- `Agent`, its `Core` and the `State` inside. `net` says whether the service runs, `remote_input` is
-- the queue to the sharing loop while that runs, and `injected` is what was replayed on the desktop.
pub record Agent : Type 0 where
  pub identity : Identity
  pub disk : Disk
  pub doc : Option WorkspaceDoc
  pub online : List ℕ
  pub candidates : BTreeMap Candidate
  pub pending_trust : BTreeMap ℕ
  pub manual_peers : List SocketAddr
  pub announced_owner : Option ℕ
  pub remote_input : Option (List (ℕ × List InputEvent))
  pub cursor_owner : Option ℕ
  pub sharing : Bool
  pub net : Bool
  pub calls : List NetCall
  pub notices : ℕ
  pub injected : List InputEvent

-- `insert` and `remove` of a hash set.
unfoldable pub add_online : List ℕ → ℕ → List ℕ
add_online ids id = if contains ids id then ids else id ∷ ids

unfoldable pub drop_online : List ℕ → ℕ → List ℕ
drop_online [] id = []
drop_online (x ∷ xs) id = let rest = drop_online xs id in if id == x then rest else x ∷ rest

unfoldable pub announce_change : Agent → Agent
announce_change a = record a { notices = a.notices + 1 }

-- A command to the service, if there is one.
unfoldable pub call_net : NetCall → Agent → Agent
call_net c a = if a.net then record a { calls = a.calls ++ c ∷ [] } else a

abbrev pub record_in : Option WorkspaceDoc → ℕ → Option MachineRecord
record_in none id = none
record_in (some doc) id = machine doc id

abbrev pub same_key : Option ℕ → ℕ → Bool
same_key none key = false
same_key (some trusted) key = trusted == key

-- The document's record decides; without one, a decision of the user that waits for its record.
unfoldable pub authorize : Agent → ℕ → ℕ → Bool
authorize a id key = elim (record_in a.doc id) [
  | some paired ↦ paired.public_key == key
  | none ↦ same_key (get a.pending_trust id) key
]

abbrev is_recorded : WorkspaceDoc → ℕ → Bool
is_recorded doc id = elim (machine doc id) [ some m ↦ true | none ↦ false ]

-- The keys of `pending_trust` that the document has a record for.
unfoldable pub adopted : WorkspaceDoc → List ℕ → List ℕ
adopted doc [] = []
adopted doc (id ∷ ids) =
    let rest = adopted doc ids in if is_recorded doc id then id ∷ rest else rest

unfoldable pub remove_all : List ℕ → BTreeMap ℕ → BTreeMap ℕ
unfolding remove
remove_all [] pending = pending
remove_all (id ∷ ids) pending = remove_all ids (remove pending id)

abbrev pub merged : Option WorkspaceDoc → WorkspaceDoc → Model.Result (Bool × WorkspaceDoc)
merged none incoming = Model.ok (true, incoming)
merged (some doc) incoming = Model.Sync.merge doc incoming

abbrev applied : Option WorkspaceDoc → WorkspaceUpdate → Option (Model.Result (Bool × WorkspaceDoc))
applied none update = none
applied (some doc) update = some (Model.Sync.apply doc update)

abbrev pub name_of : Option MachineRecord → String → String
name_of none computer = computer
name_of (some m) computer = m.display_name

unfoldable pub display_name : String → Agent → String
display_name computer a = name_of (record_in a.doc a.identity.machine_id) computer

-- The ids of the machines that are neither this one nor online.
unfoldable pub absent_of : ℕ → List ℕ → List MachineRecord → List ℕ
absent_of me online [] = []
absent_of me online (m ∷ ms) =
    let rest = absent_of me online ms in
    if not (m.id == me) && not (contains online m.id) then m.id ∷ rest else rest

unfoldable pub pending_invitations : Agent → List ℕ
unfolding absent_of
pending_invitations a = elim a.doc [
  | none ↦ []
  | some doc ↦ absent_of a.identity.machine_id a.online (machines_present doc)
]

-- The queue to the sharing loop holds 1024 batches.
abbrev pub room : ℕ
room = 1024

-- The events before the first one that the desktop refuses.
unfoldable pub until_refused : (InputEvent → Bool) → List InputEvent → List InputEvent
until_refused inject [] = []
until_refused inject (e ∷ events) =
    let rest = until_refused inject events in if inject e then e ∷ rest else []

unfoldable pub on_input : (InputEvent → Bool) → ℕ → List InputEvent → Agent → Agent
unfolding until_refused
on_input inject from events a = elim a.remote_input [
  | some queue ↦
      if ltb (length queue) room
      then record a { remote_input = some (queue ++ (from, events) ∷ []) }
      else a
  | none ↦ record a { injected = a.injected ++ until_refused inject events }
]

unfoldable pub on_cursor_owner : ℕ → ℕ → Agent → Agent
on_cursor_owner from machine a = record a { announced_owner = some machine }

module _ (docs : Codec WorkspaceDoc) where
  -- A write that fails is logged and dropped.
  unfoldable pub persist : Option Fault → Agent → Agent
  persist fault a = elim a.doc [
    | none ↦ a
    | some doc ↦ record a { disk = (save_workspace docs doc fault a.disk).1 }
  ]

  abbrev taken_over :
      Option Fault → Agent → Model.Result (Bool × WorkspaceDoc) → Model.Result (Bool × Agent)
  taken_over fault a (Model.err e) = Model.err e
  taken_over fault a (Model.ok (false, doc)) = Model.ok (false, record a { doc = some doc })
  taken_over fault a (Model.ok (true, doc)) = Model.ok (
    true,
    announce_change (
        persist fault (record a {
          doc = some doc;
          pending_trust = remove_all (adopted doc (keys a.pending_trust)) a.pending_trust;
        })),
  )

  unfoldable pub merge : Option Fault → Agent → WorkspaceDoc → Model.Result (Bool × Agent)
  unfolding persist announce_change adopted remove_all
  merge fault a incoming = taken_over fault a (merged a.doc incoming)

  abbrev updated :
      Option Fault
      → Agent
      → Option (Model.Result (Bool × WorkspaceDoc))
      → Model.Result (Bool × Agent)
  updated fault a none = Model.ok (false, a)
  updated fault a (some (Model.err e)) = Model.err e
  updated fault a (some (Model.ok (false, doc))) = Model.ok (false, record a { doc = some doc })
  updated fault a (some (Model.ok (true, doc))) =
      Model.ok (true, announce_change (persist fault (record a { doc = some doc })))

  unfoldable pub apply : Option Fault → Agent → WorkspaceUpdate → Model.Result (Bool × Agent)
  unfolding persist announce_change
  apply fault a update = updated fault a (applied a.doc update)

  -- What the network service is given.
  abbrev pub workspace : String → (InputEvent → Bool) → Option Fault → Workspace Agent
  workspace computer inject fault = record {
    snapshot = λ a. a.doc;
    display_name = display_name computer;
    authorize = authorize;
    merge = merge fault;
    apply = apply fault;
    on_input = on_input inject;
    on_cursor_owner = on_cursor_owner;
  }
