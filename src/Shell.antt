-- ===== src/Shell.antt =====
-- crates/is-ui/src/main.rs: what the desktop shell shows. The texts of ids, keys and addresses are the
-- parameter `Texts`; what the shell asks the system for is `Surroundings`.
pub mod Commands
pub mod Placing
pub mod Choices
use Prim.Native.String.{String}
use inputshare.Base.{
  ℕ, ◌-◌, ◌/◌, ◌==◌, ℤ, ltb_ℤ, Bool, true, false, not, ◌||◌, ◌&&◌, Option, none, some, List, [],
  ◌∷◌, ◌≡◌, map, if◌then◌else◌,
}
use inputshare.Geometry.{Point, Rect}
use inputshare.Model.{
  WorkspaceDoc, MachineRecord, DisplayInfo, Platform, OfflineEdgeBehavior, WorkspaceSettings,
  bounds,
}
use inputshare.Model.Query.{machine, machines_present}
use inputshare.Layout.{fallback_owner}
use inputshare.Discovery.{Interface}
use inputshare.Service.{SocketAddr, contains}
use inputshare.Sharing.{add_i32}
use inputshare.Agent.{Agent, Candidate, add_online}
use inputshare.Agent.Local.{discovery_port}
use inputshare.Agent.View.{View, view}
use inputshare.Input.Mac.{eq_ℤ}

-- uuid and std: an id is read back from its text.
pub record Texts : Type 0 where
  pub id_text : ℕ → String
  pub parse_id : String → Option ℕ
  pub fingerprint : ℕ → String
  pub public_key : ℕ → ℕ
  pub ip_text : ℕ → String
  pub addr_text : SocketAddr → String
  pub parse_addr : String → Option SocketAddr
  pub with_port : String → ℕ → String
  pub trim : String → String
  pub parse-id_text : (id : ℕ) → parse_id (id_text id) ≡ some id

pub record Surroundings : Type 0 where
  pub config_dir : String
  pub transport_port : ℕ
  pub autostart : Bool
  pub computer_name : String
  pub interfaces : List Interface
  pub now_ms : ℕ

pub record UiCandidate : Type 0 where
  pub machine_id : String
  pub display_name : String
  pub fingerprint : String
  pub addr : String
  pub seconds_since_seen : ℕ
  pub has_workspace : Bool
  pub invited_us : Bool

pub record UiInterface : Type 0 where
  pub name : String
  pub address : String
  pub self_assigned : Bool

pub record UiSettings : Type 0 where
  pub clipboard_sync : Bool
  pub offline_edge : String
  pub discovery_port : ℕ
  pub transport_port : ℕ
  pub autostart : Bool

pub record UiScreen : Type 0 where
  pub name : String
  pub x : ℤ
  pub y : ℤ
  pub width : ℕ
  pub height : ℕ
  pub primary : Bool

pub record UiMachine : Type 0 where
  pub id : String
  pub name : String
  pub platform : String
  pub fingerprint : String
  pub x : ℤ
  pub y : ℤ
  pub width : ℕ
  pub height : ℕ
  pub keyboard : Bool
  pub mouse : Bool
  pub online : Bool
  pub is_local : Bool
  pub known_displays : Bool
  pub screens : List UiScreen

pub record UiWorkspace : Type 0 where
  pub id : String
  pub name : String
  pub revision : ℕ
  pub settings : UiSettings
  pub machines : List UiMachine
  pub cursor_owner : Option String

pub record UiState : Type 0 where
  pub machine_id : String
  pub fingerprint : String
  pub config_dir : String
  pub transport_port : Option ℕ
  pub autostart : Bool
  pub sharing : Bool
  pub computer_name : String
  pub discovery_port : ℕ
  pub interfaces : List UiInterface
  pub manual_peers : List String
  pub candidates : List UiCandidate
  pub awaiting_join : List String
  pub workspace : Option UiWorkspace

abbrev pub platform_label : Platform → String
platform_label Platform.windows = "Windows"
platform_label Platform.mac_os = "macOS"
platform_label Platform.linux = "Linux"
platform_label Platform.other = "Unknown"

abbrev pub edge_text : OfflineEdgeBehavior → String
edge_text OfflineEdgeBehavior.block = "block"
edge_text OfflineEdgeBehavior.skip_over = "skip_over"

unfoldable pub shown_settings : WorkspaceSettings → UiSettings
shown_settings s = record {
  clipboard_sync = s.clipboard_sync;
  offline_edge = edge_text s.offline_edge;
  discovery_port = s.discovery_port;
  transport_port = s.transport_port;
  autostart = s.autostart;
}

abbrev screen_of : Point → DisplayInfo → UiScreen
screen_of position d = record {
  name = d.name;
  x = add_i32 d.x position.x;
  y = add_i32 d.y position.y;
  width = d.width;
  height = d.height;
  primary = d.primary;
}

-- The corner and the size of what a machine covers.
abbrev pub corner : Point → Option Rect → Point
corner position none = position
corner position (some b) = record { x = b.x; y = b.y }

abbrev width_of : Option Rect → ℕ
width_of none = 0
width_of (some b) = b.width

abbrev height_of : Option Rect → ℕ
height_of none = 0
height_of (some b) = b.height

abbrev has_any : List DisplayInfo → Bool
has_any [] = false
has_any (d ∷ ds) = true

-- `sort_by_key` of (y, x), which keeps the order of equal keys.
abbrev comes_before : UiMachine → UiMachine → Bool
comes_before a b = ltb_ℤ a.y b.y || (eq_ℤ a.y b.y && ltb_ℤ a.x b.x)

unfoldable pub insert_card : UiMachine → List UiMachine → List UiMachine
insert_card m [] = m ∷ []
insert_card m (n ∷ ns) =
    let rest = insert_card m ns in if comes_before n m then n ∷ rest else m ∷ n ∷ ns

unfoldable pub sort_cards : List UiMachine → List UiMachine
unfolding insert_card
sort_cards [] = []
sort_cards (m ∷ ms) = insert_card m (sort_cards ms)

abbrev named_machine : Option MachineRecord → Option String
named_machine none = none
named_machine (some m) = some m.display_name

abbrev or_fallback : Option ℕ → Option ℕ → Option ℕ
or_fallback none other = other
or_fallback (some id) other = some id

abbrev owner_name : WorkspaceDoc → Option ℕ → Option String
owner_name doc none = none
owner_name doc (some id) = named_machine (machine doc id)

module _ (texts : Texts) where
  unfoldable pub card : ℕ → List ℕ → MachineRecord → UiMachine
  card me online m = record {
    id = texts.id_text m.id;
    name = m.display_name;
    platform = platform_label m.platform;
    fingerprint = texts.fingerprint m.public_key;
    x = (corner m.position (bounds m)).x;
    y = (corner m.position (bounds m)).y;
    width = width_of (bounds m);
    height = height_of (bounds m);
    keyboard = m.input.provides_keyboard;
    mouse = m.input.provides_mouse;
    online = contains online m.id || m.id == me;
    is_local = m.id == me;
    known_displays = has_any m.displays;
    screens = map (screen_of m.position) m.displays;
  }

  unfoldable pub shown_workspace : ℕ → List ℕ → Option ℕ → WorkspaceDoc → UiWorkspace
  unfolding card shown_settings sort_cards
  shown_workspace me online owner doc = record {
    id = texts.id_text doc.workspace_id;
    name = doc.name.value;
    revision = doc.lamport;
    settings = shown_settings doc.settings.value;
    machines = sort_cards (map (card me online) (machines_present doc));
    cursor_owner =
        owner_name doc
          (or_fallback owner (fallback_owner doc (contains (add_online online me)) me));
  }

  abbrev shown : View → Option WorkspaceDoc → Option UiWorkspace
  shown v none = none
  shown v (some doc) = some (shown_workspace v.identity.machine_id v.online v.cursor_owner doc)

  abbrev shown_candidate : ℕ → Candidate → UiCandidate
  shown_candidate now_ms c = record {
    machine_id = texts.id_text c.machine_id;
    display_name = c.display_name;
    fingerprint = texts.fingerprint c.identity_key;
    addr = texts.addr_text c.addr;
    seconds_since_seen = (now_ms - c.last_seen_ms) / 1000;
    has_workspace = c.has_workspace;
    invited_us = c.invited_us;
  }

  abbrev shown_interface : Interface → UiInterface
  shown_interface i = record {
    name = i.name;
    address = texts.ip_text i.address;
    self_assigned = i.self_assigned;
  }

  unfoldable pub ui_view : Surroundings → Agent → UiState
  unfolding view shown_workspace
  ui_view w a =
      let v = view w.config_dir w.transport_port a in
      record {
        machine_id = texts.id_text v.identity.machine_id;
        fingerprint = texts.fingerprint (texts.public_key v.identity.secret_key);
        config_dir = v.config_dir;
        transport_port = v.transport_port;
        autostart = w.autostart;
        sharing = a.sharing;
        computer_name = w.computer_name;
        discovery_port = discovery_port a;
        interfaces = map shown_interface w.interfaces;
        manual_peers = map texts.addr_text v.manual_peers;
        candidates = map (shown_candidate w.now_ms) v.candidates;
        awaiting_join = map texts.id_text v.awaiting_join;
        workspace = shown v v.doc;
      }
