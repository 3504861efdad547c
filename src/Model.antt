-- ===== src/Model.antt =====
-- crates/is-core/src/model.rs and error.rs: the data of the synchronized workspace document. In the
-- modules below a method on `&mut self` returns the new document beside its result; `u64` and `u32`
-- values are numbers, and the clock's increment wraps as in a release build. Uuids and keys are the
-- numbers that their bytes spell; a scale factor is carried as its bits.
pub mod Edits
pub mod Sync
pub mod Query
pub mod Invariant
pub mod Changes
pub mod Replay
pub mod Writes
pub mod Reorder
pub mod Converge
pub mod Gather
pub mod Schema
use inputshare.Base.{
  ℕ, ◌+◌, ◌%◌, max, String, Bool, true, false, ◌||◌, Option, none, some, List, [], ◌∷◌, ◌==◌,
  if◌then◌else◌, ℤ,
}
use inputshare.BTreeMap.{BTreeMap, get, insert, values}
use inputshare.Stamp
use inputshare.Stamp.{Stamp, Lww, not_older}
use inputshare.Geometry.{Point, Rect, translate, union}

pub data OfflineEdgeBehavior : Type 0 where
  block skip_over : OfflineEdgeBehavior

pub data Platform : Type 0 where
  windows mac_os linux other : Platform

pub record DisplayInfo : Type 0 where
  pub id : String
  pub name : String
  pub x : ℤ
  pub y : ℤ
  pub width : ℕ
  pub height : ℕ
  pub scale_bits : ℕ
  pub primary : Bool

unfoldable pub rect : DisplayInfo → Rect
rect d = record { x = d.x; y = d.y; width = d.width; height = d.height }

pub record InputAssignment : Type 0 where
  pub provides_keyboard : Bool
  pub provides_mouse : Bool

pub record MachineRecord : Type 0 where
  pub id : ℕ
  pub display_name : String
  pub platform : Platform
  pub public_key : ℕ
  pub position : Point
  pub displays : List DisplayInfo
  pub input : InputAssignment
  pub paired_at_ms : ℕ

-- `reduce(Rect::union)` over the displays in workspace coordinates.
unfoldable pub bounds_from : Point → Rect → List DisplayInfo → Rect
bounds_from position acc [] = acc
bounds_from position acc (d ∷ ds) =
    bounds_from position (union acc (translate (rect d) position)) ds

abbrev pub bounds_of : Point → List DisplayInfo → Option Rect
bounds_of position [] = none
bounds_of position (d ∷ ds) = some (bounds_from position (translate (rect d) position) ds)

unfoldable pub bounds : MachineRecord → Option Rect
bounds m = bounds_of m.position m.displays

pub data SlotState : Type 0 where
  present : MachineRecord → SlotState
  removed : SlotState

pub record MachineSlot : Type 0 where
  pub stamp : Stamp
  pub state : SlotState

pub record WorkspaceSettings : Type 0 where
  pub clipboard_sync : Bool
  pub offline_edge : OfflineEdgeBehavior
  pub discovery_port : ℕ
  pub transport_port : ℕ
  pub preferred_interfaces : List String
  pub autostart : Bool

abbrev pub default_settings : WorkspaceSettings
default_settings = record {
  clipboard_sync = true;
  offline_edge = block;
  discovery_port = 47451;
  transport_port = 47452;
  preferred_interfaces = [];
  autostart = true;
}

pub data Op : Type 0 where
  set_name : String → Op
  upsert_machine : MachineRecord → Op
  remove_machine : ℕ → Op
  set_settings : WorkspaceSettings → Op

pub record WorkspaceUpdate : Type 0 where
  pub workspace_id : ℕ
  pub prev_lamport : ℕ
  pub stamp : Stamp
  pub op : Op

pub record WorkspaceDoc : Type 0 where
  pub workspace_id : ℕ
  pub schema_version : ℕ
  pub name : Lww String
  pub lamport : ℕ
  pub machines : BTreeMap MachineSlot
  pub settings : Lww WorkspaceSettings

-- The errors of the document; those of files are in the model of the store.
pub data Error : Type 0 where
  workspace_mismatch : ℕ → ℕ → Error

pub data Result {ℓ} (A : Type ℓ) : Type ℓ where
  ok : A → Result A
  err : Error → Result A

abbrev pub schema_version : ℕ
schema_version = 1

-- `self.lamport += 1` on a `u64`.
abbrev pub u64_mod : ℕ
u64_mod = 18446744073709551616
