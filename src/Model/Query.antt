-- ===== src/Model/Query.antt =====
-- Which machines belong to the workspace.
pub mod Present
use inputshare.Base.{ℕ, Bool, true, false, Option, none, some, List, [], ◌∷◌}
use inputshare.BTreeMap.{get, values}
use inputshare.Model.{MachineRecord, present, removed, MachineSlot, SlotState, WorkspaceDoc}

abbrev pub record_of : Option MachineSlot → Option MachineRecord
record_of none = none
record_of (some slot) = elim slot.state [ present m ↦ some m | removed ↦ none ]

unfoldable pub machine : WorkspaceDoc → ℕ → Option MachineRecord
machine d id = record_of (get d.machines id)

-- The filter of `machines_present` on one slot.
abbrev pub keep : SlotState → List MachineRecord → List MachineRecord
keep (present m) rest = m ∷ rest
keep removed rest = rest

unfoldable pub present_records : List MachineSlot → List MachineRecord
present_records [] = []
present_records (slot ∷ slots) = keep slot.state (present_records slots)

unfoldable pub machines_present : WorkspaceDoc → List MachineRecord
unfolding present_records values
machines_present d = present_records (values d.machines)

abbrev removed_slot : Option MachineSlot → Bool
removed_slot none = false
removed_slot (some slot) = elim slot.state [ present m ↦ false | removed ↦ true ]

unfoldable pub is_removed : WorkspaceDoc → ℕ → Bool
is_removed d id = removed_slot (get d.machines id)
