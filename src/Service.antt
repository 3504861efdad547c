-- ===== src/Service.antt =====
-- crates/is-net/src/service.rs: the actor that owns all peer state. Each message in its mailbox is
-- a function on the actor; what it emits, dials and queues for peers is recorded in order. Times
-- are milliseconds on the monotonic clock, and the time of a message is an argument. Whether a key
-- is admitted (`Workspace::authorize`) and whether a peer's queue has room (`try_send`) are
-- functions that the handlers take. A hash map has no order of iteration; here it is the order of
-- the ids.
pub mod Handle
pub mod Handlers
pub mod Delivery
pub mod Dialling
pub mod Loop
pub mod Laws
pub mod Queues
pub mod Due
pub mod Stuck
use inputshare.Base.{
  ℕ, ◌+◌, ◌-◌, ◌*◌, ◌^◌, min, max, String, Bool, true, false, not, ◌&&◌, ◌||◌, Option, none, some,
  List, [], ◌∷◌, ◌++◌, ◌==◌, ltb, leb, if◌then◌else◌,
}
use inputshare.BTreeMap.{BTreeMap, get, insert}
use inputshare.Model.{WorkspaceDoc, MachineRecord, WorkspaceUpdate}
use inputshare.Model.Query.{machine}
use inputshare.Wire.{Announcement, Message}

pub record SocketAddr : Type 0 where
  pub ip : ℕ
  pub port : ℕ

pub data Event : Type 0 where
  sighted connecting online : ℕ → Event
  candidate : ℕ → String → ℕ → Option ℕ → SocketAddr → Bool → Event
  offline : ℕ → String → Event
  rejected : ℕ → ℕ → SocketAddr → Event
  different_workspaces : ℕ → String → ℕ → ℕ → ℕ → Event
  workspace_changed : Event

pub data SessionOutcome : Type 0 where
  established : ℕ → String → ℕ → SessionOutcome
  closed : ℕ → String → SessionOutcome
  rejected : ℕ → ℕ → SocketAddr → SessionOutcome
  different_workspaces : ℕ → String → ℕ → ℕ → ℕ → SessionOutcome
  workspace_changed : SessionOutcome

pub data Status : Type 0 where
  offline connecting online : Status

-- The queue to a session is named by the number of the session.
pub record PeerSlot : Type 0 where
  pub display_name : String
  pub addr : Option SocketAddr
  pub last_workspace : Option (Option ℕ)
  pub last_seen : Option ℕ
  pub status : Status
  pub outbound : Option ℕ
  pub attempts : ℕ
  pub next_attempt : ℕ

pub record Actor : Type 0 where
  pub me : ℕ
  pub peers : BTreeMap PeerSlot
  pub events : List Event
  pub dials : List (ℕ × SocketAddr)
  pub replies : List ℕ
  pub sent : List (ℕ × Message)

abbrev pub hint_ttl : ℕ
hint_ttl = 20000

abbrev pub is_offline : Status → Bool
is_offline offline = true
is_offline connecting = false
is_offline online = false

unfoldable pub new_slot : String → ℕ → PeerSlot
new_slot name now = record {
  display_name = name;
  addr = none;
  last_workspace = none;
  last_seen = none;
  status = offline;
  outbound = none;
  attempts = 0;
  next_attempt = now;
}

-- `duration_since` is zero for a later instant.
abbrev heard_within : Option ℕ → ℕ → Bool
heard_within none now = false
heard_within (some seen) now = ltb (now - seen) hint_ttl

unfoldable pub fresh : PeerSlot → ℕ → Bool
fresh slot now = heard_within slot.last_seen now

unfoldable pub emit : Event → Actor → Actor
emit e a = record a { events = a.events ++ e ∷ [] }

unfoldable pub contains : List ℕ → ℕ → Bool
contains [] id = false
contains (x ∷ xs) id = id == x || contains xs id

abbrev pub slot_or : Option PeerSlot → PeerSlot → PeerSlot
slot_or none fallback = fallback
slot_or (some slot) fallback = slot

-- `get_mut`: a machine that is not known stays unknown.
unfoldable pub change : (PeerSlot → PeerSlot) → ℕ → BTreeMap PeerSlot → BTreeMap PeerSlot
change f id peers = elim (get peers id) [ none ↦ peers | some slot ↦ insert peers id (f slot) ]

-- A loop over `peers.iter_mut()`.
unfoldable pub map_slots : (ℕ → PeerSlot → PeerSlot) → BTreeMap PeerSlot → BTreeMap PeerSlot
map_slots f [] = []
map_slots f ((id, slot) ∷ rest) = (id, f id slot) ∷ map_slots f rest
