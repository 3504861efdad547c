-- ===== src/Service/Handle.antt =====
-- crates/is-net/src/service.rs: the handle on a running service, and what `Service::start` works out. The
-- channel to the actor is the list of what went into it; binding a port is the system's.
use Prim.Native.String.{String}
use inputshare.Base.{
  ℕ, ◌+◌, ◌==◌, Bool, false, ◌||◌, ◌&&◌, Option, none, some, List, [], ◌∷◌, ◌++◌, if◌then◌else◌,
}
use inputshare.Store.Files.{Identity}
use inputshare.Model.{WorkspaceDoc, WorkspaceUpdate}
use inputshare.Sharing.{InputEvent}
use inputshare.Wire.{Announcement, protocol_version}
use inputshare.Service.{SocketAddr}
use inputshare.Service.Loop.{Internal}

-- What a request to bind a port comes to.
pub data Bound : Type 0 where
  listening : ℕ → Bound
  in_use refused : Bound

abbrev pub port_of : Bound → Option ℕ
port_of (listening port) = some port
port_of in_use = none
port_of refused = none

-- A port that is taken is given up for any free one.
unfoldable pub bind_transport : (ℕ → Bound) → ℕ → Option ℕ
bind_transport bind preferred = elim (bind preferred) [
  | listening port ↦ some port
  | in_use ↦ if preferred == 0 then none else port_of (bind 0)
  | refused ↦ none
]

pub record Config : Type 0 where
  pub identity : Identity
  pub discovery_port : ℕ
  pub transport_port : ℕ
  pub announce_interval : ℕ

abbrev pub default_config : Identity → Config
default_config identity = record {
  identity = identity;
  discovery_port = 47451;
  transport_port = 47452;
  announce_interval = 3000;
}

-- What the announcements and the replies say of this machine, each time anew.
abbrev workspace_of : Option WorkspaceDoc → Option ℕ
workspace_of none = none
workspace_of (some doc) = some doc.workspace_id

unfoldable pub describe : ℕ → ℕ → String → Option WorkspaceDoc → List ℕ → ℕ → Announcement
describe machine_id identity_key name doc invitations port = record {
  protocol = protocol_version;
  machine_id = machine_id;
  identity_key = identity_key;
  display_name = name;
  workspace_id = workspace_of doc;
  transport_port = port;
  probe = false;
  invitations = invitations;
}

-- The handle; `woken` counts the calls that wake the announcer.
pub record Handle : Type 0 where
  pub inbox : List Internal
  pub woken : ℕ
  pub manual : List SocketAddr
  pub discovery_port : ℕ
  pub transport_port : ℕ

abbrev pub started : Config → ℕ → Handle
started config port = record {
  inbox = [];
  woken = 0;
  manual = [];
  discovery_port = config.discovery_port;
  transport_port = port;
}

unfoldable pub posted : Internal → Handle → Handle
posted message h = record h { inbox = h.inbox ++ message ∷ [] }

unfoldable pub broadcast : WorkspaceUpdate → Handle → Handle
unfolding posted
broadcast u h = posted (Internal.broadcast u) h

unfoldable pub send_input : ℕ → List InputEvent → Handle → Handle
unfolding posted
send_input to events h = posted (Internal.send_input to events) h

unfoldable pub announce_cursor_owner : ℕ → Handle → Handle
unfolding posted
announce_cursor_owner machine h = posted (Internal.announce_cursor_owner machine) h

abbrev same_addr : SocketAddr → SocketAddr → Bool
same_addr a b = a.ip == b.ip && a.port == b.port

unfoldable pub holds_addr : List SocketAddr → SocketAddr → Bool
holds_addr [] addr = false
holds_addr (x ∷ xs) addr = same_addr x addr || holds_addr xs addr

unfoldable pub retained : List SocketAddr → SocketAddr → List SocketAddr
retained [] addr = []
retained (x ∷ xs) addr = let rest = retained xs addr in if same_addr x addr then rest else x ∷ rest

unfoldable pub add_manual_peer : SocketAddr → Handle → Handle
unfolding holds_addr
add_manual_peer addr h = record h {
  manual = (if holds_addr h.manual addr then h.manual else h.manual ++ addr ∷ []);
  woken = h.woken + 1;
}

unfoldable pub forget_manual_peer : SocketAddr → Handle → Handle
unfolding retained
forget_manual_peer addr h = record h { manual = retained h.manual addr }

unfoldable pub rescan : Handle → Handle
unfolding posted
rescan h = posted Internal.rescan (record h { woken = h.woken + 1 })

unfoldable pub shutdown : Handle → Handle
unfolding posted
shutdown h = posted Internal.shutdown h
