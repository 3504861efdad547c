-- ===== src/Examples.antt =====
-- The theorems at concrete inputs: two machines side by side in one workspace.
pub mod Documents
pub mod Routing
pub mod Handoff
pub mod Files
pub mod Peers
pub mod Desk
pub mod Link
pub mod Hooks
pub mod Apple
pub mod Canvas
pub mod Terminal
pub mod Radio
use inputshare.Base.{ℕ, ◌+◌, ◌<◌, pos, ◌≡◌, refl, true, false, none, some, [], ◌∷◌, arith}
use inputshare.Geometry.{Point}
use inputshare.Model.{
  MachineRecord, DisplayInfo, Platform, WorkspaceDoc, WorkspaceUpdate, Op, u64_mod,
}
use inputshare.Model.Edits.{create, edit, upsert_machine, set_name, remove_machine}
use inputshare.Model.Invariant.{IsValid, create-IsValid, edit-IsValid}

abbrev pub screen : DisplayInfo
screen = record {
  id = "a";
  name = "screen";
  x = pos 0;
  y = pos 0;
  width = 100;
  height = 80;
  scale_bits = 1065353216;
  primary = true;
}

abbrev pub desk : MachineRecord
desk = record {
  id = 1;
  display_name = "desk";
  platform = Platform.linux;
  public_key = 11;
  position = record { x = pos 0; y = pos 0 };
  displays = screen ∷ [];
  input = record { provides_keyboard = true; provides_mouse = true };
  paired_at_ms = 5;
}

abbrev pub laptop : MachineRecord
laptop = record desk {
  id = 2;
  display_name = "laptop";
  public_key = 22;
  position = record { x = pos 100; y = pos 0 };
}

abbrev pub founded : WorkspaceDoc
founded = create "home" desk 7 1000

-- The document after the laptop has been added, on the desk.
abbrev pub paired : WorkspaceDoc
paired = (edit founded 1 1001 (Op.upsert_machine laptop)).0

abbrev pub pairing : WorkspaceUpdate
pairing = (edit founded 1 1001 (Op.upsert_machine laptop)).1

-- The documents after an edit on either machine that the other has not seen.
abbrev pub renamed : WorkspaceDoc
renamed = (edit paired 1 1002 (Op.set_name "office")).0

abbrev pub reduced : WorkspaceDoc
reduced = (edit paired 2 1003 (Op.remove_machine 1)).0

pub founded-IsValid : IsValid founded
founded-IsValid = create-IsValid "home" desk 7 1000

pub founded_room : founded.lamport + 1 < u64_mod
unfolding create
founded_room = omega arith

pub paired_room : paired.lamport + 1 < u64_mod
unfolding create upsert_machine
paired_room = omega arith

pub paired-IsValid : IsValid paired
paired-IsValid = edit-IsValid founded 1 1001 (Op.upsert_machine laptop) founded-IsValid founded_room

pub renamed-IsValid : IsValid renamed
renamed-IsValid = edit-IsValid paired 1 1002 (Op.set_name "office") paired-IsValid paired_room

pub reduced-IsValid : IsValid reduced
reduced-IsValid = edit-IsValid paired 2 1003 (Op.remove_machine 1) paired-IsValid paired_room
