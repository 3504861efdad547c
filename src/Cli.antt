-- ===== src/Cli.antt =====
-- crates/is-cli/src/main.rs: the command line. What is printed is a list of values; numbers are parsed by
-- the argument `parse_i32`, the fresh identities, times and texts of the system are `Setting`. The demonstration is
-- an argument: it works in a directory of its own.
pub mod Runs
use Prim.Native.String.{String}
use text.Mathlib.Text.{◌==◌ as ◌==ₛ◌}
use inputshare.Base.{
  ℕ, ◌==◌, ℤ, pos, ltb_ℤ, Bool, true, false, ◌||◌, ◌&&◌, Option, none, some, List, [], ◌∷◌, map,
  if◌then◌else◌,
}
use inputshare.Geometry.{Point, Rect}
use inputshare.Model.{WorkspaceDoc, MachineRecord, DisplayInfo, Platform, bounds}
use inputshare.Model.Edits.{create, upsert_machine}
use inputshare.Model.Query.{machine, machines_present}
use inputshare.Layout.{resolve_cursor, Resolution}
use inputshare.Store.{Codec, Fault, Error, Result, ok, err}
use inputshare.Store.Files.{Identity, Disk, load_or_create_identity, load_workspace, save_workspace}
use inputshare.Input.Mac.{eq_ℤ}

pub record Setting : Type 0 where
  pub fresh : Identity
  pub peer : Identity
  pub public_key : ℕ → ℕ
  pub identity_fault : Option Fault
  pub save_fault : Option Fault
  pub now_ms : ℕ
  pub uuid : ℕ
  pub computer : String
  pub platform : Platform

-- A line of the topology.
pub record Line : Type 0 where
  pub name : String
  pub is_online : Bool
  pub is_local : Bool
  pub covered : Option Rect

pub data Said : Type 0 where
  usage unknown : String → Said
  already : String → ℕ → Said
  created : String → ℕ → Said
  added : String → Point → Said
  none_yet : Said
  identified : ℕ → ℕ → Said
  workspace : String → ℕ → ℕ → Said
  line : Line → Said
  stays hands_off : Point → Option String → Point → Said

pub record Outcome : Type 0 where
  pub result : Result (Unit {0})
  pub said : List Said
  pub disk : Disk

abbrev pub done : List Said → Disk → Outcome
done said disk = record { result = ok tt; said = said; disk = disk }

abbrev pub failed : Error → Disk → Outcome
failed e disk = record { result = err e; said = []; disk = disk }

abbrev placeholder_display : DisplayInfo
placeholder_display = record {
  id = "display-0";
  name = "Primary (placeholder)";
  x = pos 0;
  y = pos 0;
  width = 1920;
  height = 1080;
  scale_bits = 1065353216;
  primary = true;
}

abbrev pub record_for : ℕ → String → Point → ℕ → Platform → ℕ → MachineRecord
record_for id name position key platform now_ms = record {
  id = id;
  display_name = name;
  platform = platform;
  public_key = key;
  position = position;
  displays = placeholder_display ∷ [];
  input = record { provides_keyboard = true; provides_mouse = true };
  paired_at_ms = now_ms;
}

abbrev pub origin : Point
origin = record { x = pos 0; y = pos 0 }

-- `sort_by_key` of the position, by rows.
abbrev comes_before : MachineRecord → MachineRecord → Bool
comes_before a b =
    ltb_ℤ a.position.y b.position.y
    || (eq_ℤ a.position.y b.position.y && ltb_ℤ a.position.x b.position.x)

unfoldable pub insert_row : MachineRecord → List MachineRecord → List MachineRecord
insert_row m [] = m ∷ []
insert_row m (n ∷ ns) =
    let rest = insert_row m ns in if comes_before n m then n ∷ rest else m ∷ n ∷ ns

unfoldable pub sort_rows : List MachineRecord → List MachineRecord
unfolding insert_row
sort_rows [] = []
sort_rows (m ∷ ms) = insert_row m (sort_rows ms)

abbrev line_of : (ℕ → Bool) → ℕ → MachineRecord → Said
line_of online local m = line (record {
  name = m.display_name;
  is_online = online m.id;
  is_local = m.id == local;
  covered = bounds m;
})

unfoldable pub print_topology : WorkspaceDoc → (ℕ → Bool) → ℕ → List Said
unfolding sort_rows
print_topology doc online local = map (line_of online local) (sort_rows (machines_present doc))

abbrev name_of : Option MachineRecord → Option String
name_of none = none
name_of (some m) = some m.display_name

abbrev told : WorkspaceDoc → ℕ → Point → Resolution → Said
told doc from target (Resolution.stay point) = stays target (name_of (machine doc from)) point
told doc from target (Resolution.move id point) = hands_off target (name_of (machine doc id)) point

unfoldable pub describe_route : WorkspaceDoc → (ℕ → Bool) → ℕ → Point → Said
describe_route doc online from target = told doc from target (resolve_cursor doc online from target)

abbrev pub written : List Said → Result (Unit {0}) × Disk → Outcome
written said (ok saved, disk) = done said disk
written said (err e, disk) = failed e disk

abbrev pub only : ℕ → ℕ → Bool
only me id = id == me

module _ (ids : Codec Identity) (docs : Codec WorkspaceDoc) (w : Setting) where
  -- The `?` on the identity and on the workspace, with what is there.
  abbrev pub opened_on :
      (Identity → Option WorkspaceDoc → Disk → Outcome)
      → Identity
      → Result (Option WorkspaceDoc)
      → Disk
      → Outcome
  opened_on go identity (err e) d = failed e d
  opened_on go identity (ok found) d = go identity found d

  abbrev pub opened :
      (Identity → Option WorkspaceDoc → Disk → Outcome) → Result Identity × Disk → Outcome
  opened go (err e, d) = failed e d
  opened go (ok identity, d) = opened_on go identity (load_workspace docs d) d

  abbrev pub identity_of : Disk → Result Identity × Disk
  identity_of d = load_or_create_identity ids w.fresh w.identity_fault d

  abbrev pub founded_by : String → Identity → WorkspaceDoc
  founded_by name identity =
      create name
        (record_for identity.machine_id w.computer origin (w.public_key identity.secret_key)
          w.platform w.now_ms)
        w.uuid w.now_ms

  abbrev pub initialised : String → Identity → Option WorkspaceDoc → Disk → Outcome
  initialised name identity (some existing) d =
      done (already existing.name.value existing.workspace_id ∷ []) d
  initialised name identity none d =
      written (created name w.uuid ∷ [])
        (save_workspace docs (founded_by name identity) w.save_fault d)

  unfoldable pub init : String → Disk → Outcome
  unfolding load_or_create_identity load_workspace save_workspace create
  init name d = opened (initialised name) (identity_of d)

  abbrev pub grown : String → Point → Identity → WorkspaceDoc → WorkspaceDoc
  grown name position identity doc =
      (upsert_machine doc identity.machine_id w.now_ms (
        record_for w.peer.machine_id name position (w.public_key w.peer.secret_key) Platform.other
          w.now_ms)).0

  abbrev pub extended : String → Point → Identity → Option WorkspaceDoc → Disk → Outcome
  extended name position identity none d = done (none_yet ∷ []) d
  extended name position identity (some doc) d =
      written (added name position ∷ [])
        (save_workspace docs (grown name position identity doc) w.save_fault d)

  unfoldable pub add : String → Point → Disk → Outcome
  unfolding load_or_create_identity load_workspace save_workspace upsert_machine
  add name position d = opened (extended name position) (identity_of d)

  -- The identity is printed before the workspace is read.
  abbrev reported : Identity → Result (Option WorkspaceDoc) → Disk → Outcome
  reported identity found d =
      let first = identified identity.machine_id (w.public_key identity.secret_key) in
      elim found [
        | err e ↦ record { result = err e; said = first ∷ []; disk = d }
        | ok none ↦ done (first ∷ none_yet ∷ []) d
        | ok (some doc) ↦
            done
              (first
                ∷ workspace doc.name.value doc.workspace_id doc.lamport
                ∷ print_topology doc (only identity.machine_id) identity.machine_id)
              d
      ]

  abbrev shown : Result Identity × Disk → Outcome
  shown (err e, d) = failed e d
  shown (ok identity, d) = reported identity (load_workspace docs d) d

  unfoldable pub status : Disk → Outcome
  unfolding load_or_create_identity load_workspace print_topology
  status d = shown (identity_of d)

  abbrev routed : Point → Identity → Option WorkspaceDoc → Disk → Outcome
  routed target identity none d = done (none_yet ∷ []) d
  routed target identity (some doc) d =
      done (describe_route doc (only identity.machine_id) identity.machine_id target ∷ []) d

  unfoldable pub route : Point → Disk → Outcome
  unfolding load_or_create_identity load_workspace describe_route
  route target d = opened (routed target) (identity_of d)

  -- `usage` is no error.
  abbrev pub misused : String → Disk → Outcome
  misused problem d = done (usage problem ∷ []) d

  abbrev pointed : (Point → Disk → Outcome) → String → Option ℤ → Option ℤ → Disk → Outcome
  pointed go problem (some x) (some y) d = go (record { x = x; y = y }) d
  pointed go problem _ _ d = misused problem d

  module _ (parse_i32 : String → Option ℤ) (demo : Disk → Outcome) where
    abbrev init_with : List String → Disk → Outcome
    init_with [] = misused "init needs a workspace name"
    init_with (name ∷ rest) = init name

    abbrev add_with : List String → Disk → Outcome
    add_with (name ∷ x ∷ y ∷ rest) =
        pointed (add name) "add needs integer x and y" (parse_i32 x) (parse_i32 y)
    add_with _ = misused "add needs a name, an x and a y"

    abbrev route_with : List String → Disk → Outcome
    route_with (x ∷ y ∷ rest) =
        pointed route "route needs integer x and y" (parse_i32 x) (parse_i32 y)
    route_with _ = misused "route needs an x and a y"

    abbrev pub is_help : String → Bool
    is_help c = c ==ₛ "help" || c ==ₛ "--help" || c ==ₛ "-h"

    unfoldable pub command : String → List String → Disk → Outcome
    unfolding init add status route
    command c rest d =
        if c ==ₛ "demo"
        then demo d
        else if c ==ₛ "status"
        then status d
        else if c ==ₛ "init"
        then init_with rest d
        else if c ==ₛ "add"
        then add_with rest d
        else if c ==ₛ "route"
        then route_with rest d
        else if is_help c
        then misused "" d
        else done (unknown c ∷ []) d

    abbrev pub main : List String → Disk → Outcome
    main [] d = command "demo" [] d
    main (c ∷ rest) d = command c rest d

-- The exit code: success but for an error.
abbrev pub succeeds : Outcome → Bool
succeeds o = elim o.result [ ok tt ↦ true | err e ↦ false ]
