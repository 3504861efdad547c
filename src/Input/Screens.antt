-- ===== src/Input/Screens.antt =====
-- crates/is-input/src/platform/windows.rs: the monitors as Windows reports them. What the system says of a
-- monitor is an argument, and so is the ratio of two numbers as an `f32`, by its bits.
pub mod Order
use Prim.Native.Nat.{Ordering}
use Prim.Native.String.{String, compare}
use inputshare.Base.{
  ℕ, ◌+◌, ◌%◌, ◌==◌, ℤ, pos_part, Bool, true, false, not, Option, none, some, List, [], ◌∷◌,
  if◌then◌else◌, ◌++◌,
}
use inputshare.Model.{DisplayInfo}
use inputshare.Sharing.{sub_i32}

-- `MONITORINFOEXW`: the rectangle, the device's name without its padding, and the flags; and the effective
-- DPI, if the system tells it.
pub record MonitorInfo : Type 0 where
  pub left : ℤ
  pub top : ℤ
  pub right : ℤ
  pub bottom : ℤ
  pub device : String
  pub flags : ℕ
  pub dpi_x : Option ℕ

abbrev or_96 : Option ℕ → ℕ
or_96 none = 96
or_96 (some dpi) = dpi

abbrev pub is_gt : Ordering → Bool
is_gt Ordering.lt = false
is_gt Ordering.eq = false
is_gt Ordering.gt = true

-- `sort_by` of the ids, which keeps the order of equal ones.
abbrev pub is_after : String → String → Bool
is_after a b = is_gt (compare a b)

unfoldable pub insert_by_id : DisplayInfo → List DisplayInfo → List DisplayInfo
insert_by_id d [] = d ∷ []
insert_by_id d (e ∷ es) =
    let rest = insert_by_id d es in if is_after d.id e.id then e ∷ rest else d ∷ e ∷ es

unfoldable pub sort_by_id : List DisplayInfo → List DisplayInfo
unfolding insert_by_id
sort_by_id [] = []
sort_by_id (d ∷ ds) = insert_by_id d (sort_by_id ds)

module _ (f32_ratio : ℕ → ℕ → ℕ) (monitor_info : ℕ → Option MonitorInfo) where
  abbrev pub display_of : MonitorInfo → DisplayInfo
  display_of info = record {
    id = info.device;
    name = info.device;
    x = info.left;
    y = info.top;
    width = pos_part (sub_i32 info.right info.left);
    height = pos_part (sub_i32 info.bottom info.top);
    scale_bits = f32_ratio (or_96 info.dpi_x) 96;
    primary = not (info.flags % 2 == 0);
  }

  -- A monitor that the system says nothing of is skipped.
  abbrev pub collect : Option MonitorInfo → List DisplayInfo → List DisplayInfo
  collect none collected = collected
  collect (some info) collected = collected ++ display_of info ∷ []

  unfoldable pub monitor_callback : ℕ → List DisplayInfo → List DisplayInfo
  monitor_callback monitor collected = collect (monitor_info monitor) collected

  unfoldable pub each_monitor : List ℕ → List DisplayInfo → List DisplayInfo
  unfolding monitor_callback
  each_monitor [] collected = collected
  each_monitor (m ∷ ms) collected = each_monitor ms (monitor_callback m collected)

  -- The monitors in the order in which the system calls back, unless the enumeration fails.
  unfoldable pub enumerate_displays : Option (List ℕ) → Option (List DisplayInfo)
  unfolding sort_by_id each_monitor
  enumerate_displays none = none
  enumerate_displays (some monitors) = some (sort_by_id (each_monitor monitors []))
