-- ===== src/Agent/Facts.antt =====
-- crates/is-agent/src/lib.rs and crates/is-input/src/displays.rs: what the agent works out about this
-- machine and about a place for another. The string library's `trim` is a parameter.
use Prim.Native.String.{String}
use text.Mathlib.Text.{◌==◌ as ◌==ₛ◌}
use inputshare.Base.{
  ℕ, ◌%◌, ◌==◌, ℤ, pos, max_ℤ, Bool, true, false, not, length, ltb, leb_ℤ, ◌||◌, ◌&&◌, Option, none,
  some, List, [], ◌∷◌, if◌then◌else◌,
}
use inputshare.Geometry.{Point, Rect, max_x}
use inputshare.Model.{WorkspaceDoc, MachineRecord, Platform, other, DisplayInfo, bounds}
use inputshare.Model.Query.{machines_present}
use inputshare.Store.Files.{Identity}
use inputshare.Agent.{Candidate}

abbrev pub is_nan : ℕ → Bool
is_nan bits = ltb 2139095040 (bits % 2147483648)

-- `PartialEq` of `f32` on the bits: NaN differs from itself, and the two zeros are equal.
unfoldable pub same_scale : ℕ → ℕ → Bool
same_scale a b = not (is_nan a) && (a == b || (a % 2147483648 == 0 && b % 2147483648 == 0))

abbrev same_ℤ : ℤ → ℤ → Bool
same_ℤ a b = leb_ℤ a b && leb_ℤ b a

abbrev pub same_bool : Bool → Bool → Bool
same_bool true b = b
same_bool false b = not b

unfoldable pub same_display : DisplayInfo → DisplayInfo → Bool
unfolding same_scale
same_display a b =
    a.id ==ₛ b.id
    && a.name ==ₛ b.name
    && same_ℤ a.x b.x
    && same_ℤ a.y b.y
    && a.width == b.width
    && a.height == b.height
    && same_scale a.scale_bits b.scale_bits
    && same_bool a.primary b.primary

unfoldable pub any_differs : List DisplayInfo → List DisplayInfo → Bool
unfolding same_display
any_differs (a ∷ rest) (b ∷ others) = not (same_display a b) || any_differs rest others
any_differs _ _ = false

-- crates/is-input/src/displays.rs: whether two layouts differ.
unfoldable pub differ : List DisplayInfo → List DisplayInfo → Bool
unfolding any_differs
differ a b = not (length a == length b) || any_differs a b

abbrev assumed : DisplayInfo
assumed = record {
  id = "assumed";
  name = "Screen (not detected)";
  x = pos 0;
  y = pos 0;
  width = 1920;
  height = 1080;
  scale_bits = 1065353216;
  primary = true;
}

-- The screens that the platform reports, or one that stands in for them.
unfoldable pub local_displays : Option (List DisplayInfo) → List DisplayInfo
local_displays none = assumed ∷ []
local_displays (some []) = assumed ∷ []
local_displays (some (d ∷ ds)) = d ∷ ds

module _ (trim : String → String) where
  abbrev pub named : Option String → String
  named none = "Unnamed computer"
  named (some name) = if trim name ==ₛ "" then "Unnamed computer" else trim name

  -- From the variables COMPUTERNAME and HOSTNAME.
  unfoldable pub computer_name : Option String → Option String → String
  computer_name none hostname = named hostname
  computer_name (some name) hostname = named (some name)

unfoldable pub local_record :
    Identity → ℕ → String → Platform → List DisplayInfo → ℕ → MachineRecord
local_record identity public_key computer platform displays now_ms = record {
  id = identity.machine_id;
  display_name = computer;
  platform = platform;
  public_key = public_key;
  position = record { x = pos 0; y = pos 0 };
  displays = displays;
  input = record { provides_keyboard = true; provides_mouse = true };
  paired_at_ms = now_ms;
}

abbrev pub further : Option Rect → Option ℤ → Option ℤ
further none x = x
further (some b) none = some (max_x b)
further (some b) (some x) = some (max_ℤ (max_x b) x)

unfoldable pub rightmost : List MachineRecord → Option ℤ
rightmost [] = none
rightmost (m ∷ ms) = further (bounds m) (rightmost ms)

abbrev pub or_zero : Option ℤ → ℤ
or_zero none = pos 0
or_zero (some x) = x

unfoldable pub free_position : Option WorkspaceDoc → Point
unfolding rightmost
free_position none = record { x = pos 0; y = pos 0 }
free_position (some doc) = record { x = or_zero (rightmost (machines_present doc)); y = pos 0 }

-- The record under which a candidate is admitted.
unfoldable pub admission : Candidate → Point → ℕ → MachineRecord
admission c position now_ms = record {
  id = c.machine_id;
  display_name = c.display_name;
  platform = other;
  public_key = c.identity_key;
  position = position;
  displays = [];
  input = record { provides_keyboard = false; provides_mouse = false };
  paired_at_ms = now_ms;
}
