-- ===== src/Input/Mac/Inject.antt =====
-- crates/is-input/src/platform/macos.rs: the replay of what another machine sends.
use Prim.Native.String.{String}
use inputshare.Base.{
  ℕ, zero, suc, ◌-◌, ◌/◌, ℤ, pos, negsuc, sub_ℕ, ltb, ltb_ℤ, max_ℤ, min_ℤ, wrap, Bool, true, false,
  not, ◌||◌, Option, none, some, List, [], ◌∷◌, ◌==◌, if◌then◌else◌,
}
use inputshare.Model.{DisplayInfo}
use inputshare.Sharing.{
  InputEvent, MouseButton, mouse_move, cursor_enter, mouse_button, wheel, key, add_i32, sub_i32,
}
use inputshare.Input.Capture.{injected_marker}
use inputshare.Input.Keys.{from_pc}
use inputshare.Input.Mac.{
  Desktop, Mac, Kind, CgEvent, System, left_mouse_down, left_mouse_up, right_mouse_down,
  right_mouse_up, mouse_moved, left_mouse_dragged, right_mouse_dragged, other_mouse_down,
  other_mouse_up, other_mouse_dragged, shift_bit, control_bit, alternate_bit, command_bit, eq_ℤ,
}

-- What a call ends in: an event that was posted, none, an error, or a panic.
pub data Outcome : Type 0 where
  posted : CgEvent → Outcome
  nothing : Outcome
  refused : String → Outcome
  panicked : Outcome

-- The rectangle that covers every display.
abbrev pub covering : DisplayInfo → Desktop
covering d = record {
  min_x = d.x;
  min_y = d.y;
  max_x = add_i32 d.x (wrap (pos d.width));
  max_y = add_i32 d.y (wrap (pos d.height));
}

unfoldable pub widened : Desktop → List DisplayInfo → Desktop
widened r [] = r
widened r (d ∷ ds) =
    widened
      (record {
        min_x = min_ℤ r.min_x d.x;
        min_y = min_ℤ r.min_y d.y;
        max_x = max_ℤ r.max_x (add_i32 d.x (wrap (pos d.width)));
        max_y = max_ℤ r.max_y (add_i32 d.y (wrap (pos d.height)));
      })
      ds

unfoldable pub measured : Option (List DisplayInfo) → Option Desktop
unfolding widened
measured none = none
measured (some []) = none
measured (some (d ∷ ds)) = some (widened (covering d) ds)

abbrev pub cached : ℕ → Option (Desktop × ℕ) → Option Desktop
cached now none = none
cached now (some (rect, at)) = if ltb ((now - at) / 1000) 2 then some rect else none

abbrev pub reread : ℕ → Option Desktop → Mac → Option Desktop × Mac
reread now none s = (none, s)
reread now (some rect) s = (some rect, record s { cache = some (rect, now) })

abbrev pub kept : ℕ → Option Desktop → Option (List DisplayInfo) → Mac → Option Desktop × Mac
kept now (some rect) displays s = (some rect, s)
kept now none displays s = reread now (measured displays) s

unfoldable pub desktop_bounds : System → Mac → Option Desktop × Mac
desktop_bounds sys s = kept sys.instant (cached sys.instant s.cache) sys.displays s

unfoldable pub post : CgEvent → Mac → CgEvent
post e s = record e {
  user_data = pos injected_marker;
  flags = (λ i. e.flags i || s.inject_flags i);
}

abbrev or_origin : Option (ℤ × ℤ) → ℤ × ℤ
or_origin none = (pos 0, pos 0)
or_origin (some p) = p

unfoldable pub current_point : System → Mac → ℤ × ℤ
current_point sys s = if s.have_last then (s.last_x, s.last_y) else or_origin sys.cursor

unfoldable pub remember : ℤ → ℤ → Mac → Mac
remember x y s = record s { last_x = x; last_y = y; have_last = true }

-- `Ord::clamp`, which panics on an empty range.
abbrev pub clamp_i32 : ℤ → ℤ → ℤ → Option ℤ
clamp_i32 low high v =
    if ltb_ℤ high low
    then none
    else some (if ltb_ℤ v low then low else if ltb_ℤ high v then high else v)

abbrev pub both : Option ℤ → Option ℤ → Option (ℤ × ℤ)
both none other = none
both (some x) none = none
both (some x) (some y) = some (x, y)

abbrev pub on_desktop : Option Desktop → ℤ → ℤ → Option (ℤ × ℤ)
on_desktop none x y = some (x, y)
on_desktop (some d) x y =
    both (clamp_i32 d.min_x (sub_i32 d.max_x (pos 1)) x)
      (clamp_i32 d.min_y (sub_i32 d.max_y (pos 1)) y)

abbrev pub any_below : ℕ → (ℕ → Bool) → Bool
any_below zero word = false
any_below (suc n) word = word n || any_below n word

unfoldable pub motion_kind : (ℕ → Bool) → Kind × ℕ
motion_kind held =
    if held 0
    then (left_mouse_dragged, 0)
    else if held 1
    then (right_mouse_dragged, 1)
    else if any_below 32 held
    then (other_mouse_dragged, 2)
    else (mouse_moved, 0)

abbrev pub moved : ℤ → ℤ → ℤ → ℤ → Option CgEvent → Mac → Outcome × Mac
moved x y nx ny none s = (refused "CGEventCreateMouseEvent returned nothing", s)
moved x y nx ny (some e) s = (
  posted (post (record e { delta_x = sub_i32 nx x; delta_y = sub_i32 ny y }) s),
  remember nx ny s,
)

abbrev pub move_to : System → ℤ → ℤ → Option (ℤ × ℤ) → Mac → Outcome × Mac
move_to sys x y none s = (panicked, s)
move_to sys x y (some (nx, ny)) s =
    let kind = motion_kind s.held_buttons in
    moved x y nx ny (sys.create_mouse kind.0 nx ny kind.1) s

unfoldable pub inject_move : System → ℤ → ℤ → Mac → Outcome × Mac
unfolding current_point desktop_bounds measured motion_kind post remember
inject_move sys dx dy s =
    let at = current_point sys s in
    let bounds = desktop_bounds sys s in
    move_to sys at.0 at.1 (on_desktop bounds.0 (add_i32 at.0 dx) (add_i32 at.1 dy)) bounds.1

abbrev pub button_kind : MouseButton → Bool → Kind × ℕ
button_kind MouseButton.left true = (left_mouse_down, 0)
button_kind MouseButton.left false = (left_mouse_up, 0)
button_kind MouseButton.right true = (right_mouse_down, 1)
button_kind MouseButton.right false = (right_mouse_up, 1)
button_kind MouseButton.middle true = (other_mouse_down, 2)
button_kind MouseButton.middle false = (other_mouse_up, 2)
button_kind MouseButton.x1 true = (other_mouse_down, 3)
button_kind MouseButton.x1 false = (other_mouse_up, 3)
button_kind MouseButton.x2 true = (other_mouse_down, 4)
button_kind MouseButton.x2 false = (other_mouse_up, 4)

abbrev pub button_bit : MouseButton → ℕ
button_bit MouseButton.left = 0
button_bit MouseButton.right = 1
button_bit MouseButton.middle = 2
button_bit MouseButton.x1 = 3
button_bit MouseButton.x2 = 4

abbrev pub with_bit : ℕ → Bool → (ℕ → Bool) → ℕ → Bool
with_bit bit on word i = if i == bit then on else word i

abbrev clicked : ℕ → Option CgEvent → Mac → Outcome × Mac
clicked number none s = (refused "CGEventCreateMouseEvent returned nothing", s)
clicked number (some e) s = (posted (post (record e { button_number = pos number }) s), s)

unfoldable pub inject_button : System → MouseButton → Bool → Mac → Outcome × Mac
unfolding current_point post
inject_button sys button down s =
    let held = record s { held_buttons = with_bit (button_bit button) down s.held_buttons } in
    let at = current_point sys held in
    let kind = button_kind button down in
    clicked kind.1 (sys.create_mouse kind.0 at.0 at.1 kind.1) held

abbrev notch : ℤ → ℤ
notch (pos n) = pos (n / 120)
notch (negsuc n) = sub_ℕ 0 (suc n / 120)

abbrev signum : ℤ → ℤ
signum (pos zero) = pos 0
signum (pos (suc n)) = pos 1
signum (negsuc n) = negsuc 0

unfoldable pub lines_of : ℤ → ℤ
lines_of delta = if eq_ℤ (notch delta) (pos 0) then signum delta else notch delta

abbrev scrolled : ℤ → Bool → Option CgEvent → Mac → Outcome × Mac
scrolled lines horizontal none s = (refused "CGEventCreateScrollWheelEvent failed", s)
scrolled lines true (some e) s = (posted (post (record e { axis_2 = lines }) s), s)
scrolled lines false (some e) s = (posted (post e s), s)

unfoldable pub inject_wheel : System → ℤ → Bool → Mac → Outcome × Mac
unfolding lines_of post
inject_wheel sys delta horizontal s =
    if eq_ℤ delta (pos 0)
    then (nothing, s)
    else scrolled (lines_of delta) horizontal
        (sys.create_scroll (if horizontal then 2 else 1)
          (if horizontal then pos 0 else lines_of delta))
        s

-- The bit of the modifier that a key stands for.
abbrev pub modifier : ℕ → Option ℕ
modifier code =
    if code == 56 || code == 60
    then some shift_bit
    else if code == 59 || code == 62
    then some control_bit
    else if code == 58 || code == 61
    then some alternate_bit
    else if code == 55 || code == 54
    then some command_bit
    else none

abbrev pub modified : Option ℕ → Bool → (ℕ → Bool) → ℕ → Bool
modified none down word = word
modified (some bit) down word = with_bit bit down word

abbrev pub typed : Option CgEvent → Mac → Outcome × Mac
typed none s = (refused "CGEventCreateKeyboardEvent failed", s)
typed (some e) s = (posted (post e s), s)

abbrev pub press : System → Option ℕ → Bool → Mac → Outcome × Mac
press sys none down s = (nothing, s)
press sys (some code) down s =
    typed (sys.create_key code down)
      (record s { inject_flags = modified (modifier code) down s.inject_flags })

unfoldable pub inject_key : System → ℕ → ℕ → Bool → Bool → Mac → Outcome × Mac
unfolding post
inject_key sys vk scan down extended s = press sys (from_pc scan vk extended) down s

unfoldable pub set_cursor_position : System → ℤ → ℤ → Mac → Outcome × Mac
unfolding remember
set_cursor_position sys x y s =
    if not sys.warped then (refused "CGWarpMouseCursorPosition failed", s) else (
      nothing,
      remember x y (record s { associated = (if s.detached then s.associated else true) }),
    )

unfoldable pub inject : System → InputEvent → Mac → Outcome × Mac
unfolding inject_move inject_button inject_wheel inject_key set_cursor_position
inject sys (cursor_enter x y) s = set_cursor_position sys x y s
inject sys (mouse_move dx dy) s = inject_move sys dx dy s
inject sys (mouse_button button down) s = inject_button sys button down s
inject sys (wheel delta horizontal) s = inject_wheel sys delta horizontal s
inject sys (key vk scan down extended) s = inject_key sys vk scan down extended s
