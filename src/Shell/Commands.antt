-- ===== src/Shell/Commands.antt =====
-- crates/is-ui/src/main.rs: the commands of the desktop shell. Where the source answers with a text,
-- the error is a value; the view that a command returns is that of the agent it leaves.
use Prim.Native.String.{String}
use text.Mathlib.Text.{◌==◌ as ◌==ₛ◌}
use inputshare.Base.{ℕ, ℤ, pos, Bool, false, Option, none, some, List, [], if◌then◌else◌}
use inputshare.Geometry.{Point, Rect, contains}
use inputshare.Model.{WorkspaceDoc, MachineRecord, OfflineEdgeBehavior, WorkspaceSettings, bounds}
use inputshare.Model.Query.{machine}
use inputshare.Layout.{resolve_cursor, Resolution}
use inputshare.Service
use inputshare.Service.{SocketAddr}
use inputshare.Store.{Codec, Fault}
use inputshare.Sharing.{sub_i32}
use inputshare.Agent.{Agent, record_in, add_online}
use inputshare.Agent.Commands
use inputshare.Agent.Commands.{upsert_machine, rename_workspace, pair, unpair}
use inputshare.Agent.Local.{discovery_port}
use inputshare.Agent.Local
use inputshare.Shell.{Texts, UiSettings}

pub data Error : Type 0 where
  not_an_id not_an_address unknown_edge : String → Error
  no_such_machine no_workspace no_address no_name : Error
  agent : Commands.Error → Error
  autostart : String → Error

pub data Result {ℓ} (A : Type ℓ) : Type ℓ where
  ok : A → Result A
  err : Error → Result A

-- `map_err(message)`.
abbrev pub told {ℓ} : {A : Type ℓ} → Commands.Result A × Agent → Result A × Agent
told (Commands.ok r, a) = (ok r, a)
told (Commands.err e, a) = (err (agent e), a)

-- From the machine's own origin to the corner of what it covers.
abbrev pub offset_of : Point → Option Rect → Point
offset_of position none = record { x = pos 0; y = pos 0 }
offset_of position (some b) = record { x = sub_i32 b.x position.x; y = sub_i32 b.y position.y }

abbrev pub placed : ℤ → ℤ → MachineRecord → MachineRecord
placed x y m = record m {
  position = record {
    x = sub_i32 x (offset_of m.position (bounds m)).x;
    y = sub_i32 y (offset_of m.position (bounds m)).y;
  };
}

abbrev pub parse_edge : String → Option OfflineEdgeBehavior
parse_edge text =
    if text ==ₛ "skip_over"
    then some OfflineEdgeBehavior.skip_over
    else if text ==ₛ "block"
    then some OfflineEdgeBehavior.block
    else none

abbrev pub preferred : Option WorkspaceDoc → List String
preferred none = []
preferred (some doc) = doc.settings.value.preferred_interfaces

abbrev pub chosen : UiSettings → OfflineEdgeBehavior → List String → WorkspaceSettings
chosen s edge interfaces = record {
  clipboard_sync = s.clipboard_sync;
  offline_edge = edge;
  discovery_port = s.discovery_port;
  transport_port = s.transport_port;
  preferred_interfaces = interfaces;
  autostart = s.autostart;
}

-- The machine is told after the document; the last argument says why that fails, if it does.
abbrev pub enacted : Option String → Result (Unit {0}) × Agent → Result (Unit {0}) × Agent
enacted failure (err e, a) = (err e, a)
enacted none (ok done, a) = (ok done, a)
enacted (some reason) (ok done, a) = (err (autostart reason), a)

module _ (texts : Texts) (docs : Codec WorkspaceDoc) where
  abbrev pub on_id :
      String
      → Option ℕ
      → (ℕ → Agent → Result (Unit {0}) × Agent)
      → Agent
      → Result (Unit {0}) × Agent
  on_id text none f a = (err (not_an_id text), a)
  on_id text (some id) f a = f id a

  abbrev pub rewritten :
      Option Fault
      → ℕ
      → (MachineRecord → MachineRecord)
      → Option MachineRecord
      → Agent
      → Result (Unit {0}) × Agent
  rewritten fault now_ms change none a = (err no_such_machine, a)
  rewritten fault now_ms change (some m) a = told (upsert_machine docs fault now_ms (change m) a)

  unfoldable pub edit_machine :
      Option Fault
      → ℕ
      → String
      → (MachineRecord → MachineRecord)
      → Agent
      → Result (Unit {0}) × Agent
  unfolding upsert_machine
  edit_machine fault now_ms id change =
      on_id id (texts.parse_id id) (λ i a. rewritten fault now_ms change (record_in a.doc i) a)

  unfoldable pub ui_pair : Option Fault → ℕ → ℕ → String → Agent → Result (Unit {0}) × Agent
  ui_pair fault paired_at now_ms id =
      on_id id (texts.parse_id id) (λ i a. told (pair docs fault paired_at now_ms i a))

  unfoldable pub ui_unpair : Option Fault → ℕ → String → Agent → Result (Unit {0}) × Agent
  ui_unpair fault now_ms id =
      on_id id (texts.parse_id id) (λ i a. told (unpair docs fault now_ms i a))

  unfoldable pub move_machine :
      Option Fault → ℕ → String → ℤ → ℤ → Agent → Result (Unit {0}) × Agent
  unfolding edit_machine
  move_machine fault now_ms id x y = edit_machine fault now_ms id (placed x y)

  unfoldable pub rename_machine :
      Option Fault → ℕ → String → String → Agent → Result (Unit {0}) × Agent
  unfolding edit_machine
  rename_machine fault now_ms id name =
      edit_machine fault now_ms id (λ m. record m { display_name = name })

  unfoldable pub set_input :
      Option Fault → ℕ → String → Bool → Bool → Agent → Result (Unit {0}) × Agent
  unfolding edit_machine
  set_input fault now_ms id keyboard mouse =
      edit_machine fault now_ms id
        (λ m. record m { input = record { provides_keyboard = keyboard; provides_mouse = mouse } })

  unfoldable pub ui_rename_workspace : Option Fault → ℕ → String → Agent → Result (Unit {0}) × Agent
  ui_rename_workspace fault now_ms name a = told (rename_workspace docs fault now_ms name a)

  abbrev pub updated :
      Option String
      → Option Fault
      → ℕ
      → UiSettings
      → Option OfflineEdgeBehavior
      → Agent
      → Result (Unit {0}) × Agent
  updated failure fault now_ms s none a = (err (unknown_edge s.offline_edge), a)
  updated failure fault now_ms s (some edge) a =
      enacted failure
        (told (Commands.update_settings docs fault now_ms (chosen s edge (preferred a.doc)) a))

  unfoldable pub update_settings :
      Option String → Option Fault → ℕ → UiSettings → Agent → Result (Unit {0}) × Agent
  unfolding Commands.update_settings
  update_settings failure fault now_ms s =
      updated failure fault now_ms s (parse_edge s.offline_edge)

  unfoldable pub rename_this_machine : Option Fault → ℕ → String → Agent → Result (Unit {0}) × Agent
  rename_this_machine fault now_ms name a =
      if texts.trim name ==ₛ ""
      then (err no_name, a)
      else told (Commands.rename_this_machine docs texts.trim fault now_ms (texts.trim name) a)

  abbrev or_with_port : String → ℕ → Option SocketAddr → Option SocketAddr
  or_with_port text port none = texts.parse_addr (texts.with_port text port)
  or_with_port text port (some addr) = some addr

  unfoldable pub add_manual_peer : String → Agent → Result (Unit {0}) × Agent
  unfolding Local.add_manual_peer
  add_manual_peer address a =
      if texts.trim address ==ₛ ""
      then (err no_address, a)
      else elim (or_with_port (texts.trim address) (discovery_port a)
          (texts.parse_addr (texts.trim address))) [
            | none ↦ (err (not_an_address (texts.trim address)), a)
            | some addr ↦ (ok tt, Local.add_manual_peer addr a)
          ]

  unfoldable pub forget_manual_peer : String → Agent → Result (Unit {0}) × Agent
  unfolding Local.forget_manual_peer
  forget_manual_peer address a = elim (texts.parse_addr address) [
    | none ↦ (ok tt, a)
    | some addr ↦ (ok tt, Local.forget_manual_peer addr a)
  ]

pub record RouteResult : Type 0 where
  pub outcome : String
  pub machine : Option String
  pub x : ℤ
  pub y : ℤ
  pub explanation : String

abbrev covers : Point → Option Rect → Bool
covers target none = false
covers target (some b) = contains b target

abbrev bounds_of : Option MachineRecord → Option Rect
bounds_of none = none
bounds_of (some m) = bounds m

abbrev name_of : Option MachineRecord → Option String
name_of none = none
name_of (some m) = some m.display_name

abbrev explained : WorkspaceDoc → ℕ → Point → Resolution → RouteResult
explained doc from target (Resolution.stay point) =
    let inside = covers target (bounds_of (machine doc from)) in
    record {
      outcome = (if inside then "same" else "blocked");
      machine = name_of (machine doc from);
      x = point.x;
      y = point.y;
      explanation =
          (if inside
            then "still on the same machine"
            else "held at the boundary — nothing online over there");
    }
explained doc from target (Resolution.move id point) = record {
  outcome = "handoff";
  machine = name_of (machine doc id);
  x = point.x;
  y = point.y;
  explanation = "crosses over";
}

unfoldable pub resolve_route : Texts → String → ℤ → ℤ → Agent → Result RouteResult
resolve_route texts from x y a = elim a.doc [
  | none ↦ err no_workspace
  | some doc ↦ elim (texts.parse_id from) [
    | none ↦ err (not_an_id from)
    | some id ↦
        let target : Point = record { x = x; y = y } in
        ok (
          explained doc id target (
            resolve_cursor doc (Service.contains (add_online a.online a.identity.machine_id)) id
              target))
  ]
]
