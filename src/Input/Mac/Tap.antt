-- ===== src/Input/Mac/Tap.antt =====
-- crates/is-input/src/platform/macos.rs: what the event tap reports and what it swallows.
use inputshare.Base.{◌≡◌, refl}
use inputshare.Base.{
  ◌*◌, ◌+◌, negsuc, not, ℕ, ℤ, pos, wrap, Bool, true, false, ◌&&◌, Option, none, some, ◌==◌,
  if◌then◌else◌,
}
use inputshare.Sharing.{InputEvent, MouseButton, mouse_move, mouse_button, wheel, key}
use inputshare.Input.Capture.{Verdict, pass, swallow, injected_marker}
use inputshare.Input.Keys.{to_pc}
use inputshare.Input.Mac.{
  Mac, Kind, CgEvent, left_mouse_down, left_mouse_up, right_mouse_down, right_mouse_up, mouse_moved,
  left_mouse_dragged, right_mouse_dragged, other_mouse_down, other_mouse_up, other_mouse_dragged,
  key_down, key_up, flags_changed, scroll_wheel, tap_disabled_by_timeout,
  tap_disabled_by_user_input, control_bit, alternate_bit, eq_ℤ, as_u16, set_suppression,
  suppressing_now, emit,
}
use inputshare.Input.Mac.Inject.{modifier}

abbrev pub is_disabled : Kind → Bool
is_disabled tap_disabled_by_timeout = true
is_disabled tap_disabled_by_user_input = true
is_disabled _ = false

abbrev moved : ℤ → ℤ → Option InputEvent
moved dx dy = if eq_ℤ dx (pos 0) && eq_ℤ dy (pos 0) then none else some (mouse_move dx dy)

abbrev which : ℤ → MouseButton
which number =
    if eq_ℤ number (pos 2)
    then MouseButton.middle
    else if eq_ℤ number (pos 3)
    then MouseButton.x1
    else MouseButton.x2

-- `* WHEEL_NOTCH` in 32 bits.
abbrev pub notches : ℤ → ℤ
notches (pos n) = wrap (pos (n * 120))
notches (negsuc n) = wrap (negsuc (n * 120 + 119))

abbrev scrolled : ℤ → ℤ → Option InputEvent
scrolled vertical horizontal =
    if not (eq_ℤ vertical (pos 0))
    then some (wheel (notches vertical) false)
    else if not (eq_ℤ horizontal (pos 0))
    then some (wheel (notches horizontal) true)
    else none

abbrev flag_of : Option ℕ → (ℕ → Bool) → Bool
flag_of none flags = false
flag_of (some bit) flags = flags bit

-- Whether a key is down; a modifier says only that the modifiers have changed.
abbrev pub is_down : Kind → ℕ → (ℕ → Bool) → Bool
is_down key_down code flags = true
is_down key_up code flags = false
is_down _ code flags = flag_of (modifier code) flags

abbrev pub named : Option (ℕ × ℕ × Bool) → Bool → Option InputEvent
named none down = none
named (some (scan, vk, extended)) down = some (key vk scan down extended)

abbrev pub is_key : Kind → Bool
is_key key_down = true
is_key key_up = true
is_key flags_changed = true
is_key _ = false

abbrev pub typed : CgEvent → Option InputEvent
typed e = named (to_pc (as_u16 e.keycode)) (is_down e.kind (as_u16 e.keycode) e.flags)

abbrev pub captured_as : Kind → CgEvent → Option InputEvent
captured_as mouse_moved e = moved (wrap e.delta_x) (wrap e.delta_y)
captured_as left_mouse_dragged e = moved (wrap e.delta_x) (wrap e.delta_y)
captured_as right_mouse_dragged e = moved (wrap e.delta_x) (wrap e.delta_y)
captured_as other_mouse_dragged e = moved (wrap e.delta_x) (wrap e.delta_y)
captured_as left_mouse_down e = some (mouse_button MouseButton.left true)
captured_as left_mouse_up e = some (mouse_button MouseButton.left false)
captured_as right_mouse_down e = some (mouse_button MouseButton.right true)
captured_as right_mouse_up e = some (mouse_button MouseButton.right false)
captured_as other_mouse_down e = some (mouse_button (which e.button_number) true)
captured_as other_mouse_up e = some (mouse_button (which e.button_number) false)
captured_as scroll_wheel e = scrolled (wrap e.axis_1) (wrap e.axis_2)
captured_as key_down e = typed e
captured_as key_up e = typed e
captured_as flags_changed e = typed e
captured_as _ e = none

unfoldable pub captured : CgEvent → Option InputEvent
captured e = captured_as e.kind e

-- Control, Option and F12.
abbrev pub is_emergency : CgEvent → Bool
is_emergency e =
    is_key e.kind
    && is_down e.kind (as_u16 e.keycode) e.flags
    && as_u16 e.keycode == 111
    && e.flags control_bit
    && e.flags alternate_bit

abbrev pub reported : Option InputEvent → Mac → Mac
reported none s = s
reported (some e) s = emit e s

abbrev pub judged : Bool × Mac → Verdict × Mac
judged (true, s) = (swallow, s)
judged (false, s) = (pass, s)

unfoldable pub tap_callback : ℕ → CgEvent → Mac → Verdict × Mac
unfolding captured set_suppression suppressing_now emit
tap_callback now e s =
    if is_disabled e.kind
    then (pass, record s { enabled = (if s.tap then true else s.enabled) })
    else if eq_ℤ e.user_data (pos injected_marker)
    then (pass, s)
    else if is_emergency e
    then (pass, (if s.suppressing then set_suppression false s else s))
    else judged (suppressing_now now (reported (captured e) s))

-- The kinds of events that the tap asks for.
unfoldable pub event_mask : Kind → Bool
event_mask tap_disabled_by_timeout = false
event_mask tap_disabled_by_user_input = false
event_mask Kind.other = false
event_mask _ = true

-- Nothing that the tap would report is of a kind that it does not ask for.
asked_for : (kind : Kind) (e : CgEvent) → event_mask kind ≡ false → captured_as kind e ≡ none
unfolding event_mask
asked_for tap_disabled_by_timeout e h = refl
asked_for tap_disabled_by_user_input e h = refl
asked_for Kind.other e h = refl
asked_for left_mouse_down e h = cc
asked_for left_mouse_up e h = cc
asked_for right_mouse_down e h = cc
asked_for right_mouse_up e h = cc
asked_for mouse_moved e h = cc
asked_for left_mouse_dragged e h = cc
asked_for right_mouse_dragged e h = cc
asked_for key_down e h = cc
asked_for key_up e h = cc
asked_for flags_changed e h = cc
asked_for scroll_wheel e h = cc
asked_for other_mouse_down e h = cc
asked_for other_mouse_up e h = cc
asked_for other_mouse_dragged e h = cc
