-- ===== src/Input/Mac.antt =====
-- crates/is-input/src/platform/macos.rs: the statics, the events, and the life of a capture. A word of
-- flags is the function from its bits. An event is what its fields read back; what the system
-- makes of a request is the parameter `System`, one value for each call.
pub mod Displays
pub mod Inject
pub mod Tap
pub mod Pointer
pub mod Replay
pub mod Modifiers
pub mod Wheel
pub mod Drag
pub mod Monitors
pub mod Motion
use inputshare.Base.{
  ℕ, ◌-◌, ◌%◌, ℤ, pos, negsuc, pos_part, neg_part, ltb, Bool, true, false, not, ◌&&◌, Option, none,
  some, List, [], ◌∷◌, ◌++◌, ◌==◌, ◌≡◌, if◌then◌else◌,
}
use Prim.Native.String.{String}
use inputshare.Model.{DisplayInfo}
use inputshare.Sharing.{InputEvent}
use inputshare.Input.Capture.{watchdog_limit_ms, Error, already_running, os}

pub record Desktop : Type 0 where
  pub min_x : ℤ
  pub min_y : ℤ
  pub max_x : ℤ
  pub max_y : ℤ

-- The statics. `associated` is what the system was last told of the mouse and the cursor, `tap` that
-- there is a tap and `enabled` that it is on, `cache` the last rectangle with the time it was read.
pub record Mac : Type 0 where
  pub last_x : ℤ
  pub last_y : ℤ
  pub have_last : Bool
  pub held_buttons : ℕ → Bool
  pub inject_flags : ℕ → Bool
  pub cache : Option (Desktop × ℕ)
  pub suppressing : Bool
  pub detached : Bool
  pub associated : Bool
  pub watchdog : ℕ
  pub tap : Bool
  pub enabled : Bool
  pub running : Bool
  pub sink : Option (List InputEvent)

pub data Kind : Type 0 where
  left_mouse_down left_mouse_up right_mouse_down right_mouse_up mouse_moved left_mouse_dragged
        right_mouse_dragged key_down key_up flags_changed scroll_wheel other_mouse_down
        other_mouse_up other_mouse_dragged tap_disabled_by_timeout tap_disabled_by_user_input
        other :
      Kind

-- The fields are the 64-bit integers of the source.
pub record CgEvent : Type 0 where
  pub kind : Kind
  pub x : ℤ
  pub y : ℤ
  pub user_data : ℤ
  pub flags : ℕ → Bool
  pub button_number : ℤ
  pub delta_x : ℤ
  pub delta_y : ℤ
  pub axis_1 : ℤ
  pub axis_2 : ℤ
  pub keycode : ℤ

abbrev pub shift_bit : ℕ
shift_bit = 17

abbrev pub control_bit : ℕ
control_bit = 18

abbrev pub alternate_bit : ℕ
alternate_bit = 19

abbrev pub command_bit : ℕ
command_bit = 20

-- What CoreGraphics answers during one call: the events it makes, or nothing; where the cursor is; the
-- monitors; the status of a warp; the time. An event that is made has the kind, the code and the
-- amount that were asked for.
pub record System : Type 0 where
  pub create_mouse : Kind → ℤ → ℤ → ℕ → Option CgEvent
  pub create_key : ℕ → Bool → Option CgEvent
  pub create_scroll : ℕ → ℤ → Option CgEvent
  pub cursor : Option (ℤ × ℤ)
  pub displays : Option (List DisplayInfo)
  pub warped : Bool
  pub instant : ℕ
  pub mouse_kind :
      (kind : Kind) (x y : ℤ) (button : ℕ) (e : CgEvent)
      → create_mouse kind x y button ≡ some e
      → e.kind ≡ kind
  pub key_fields :
      (code : ℕ) (down : Bool) (e : CgEvent)
      → create_key code down ≡ some e
      → (e.kind ≡ (if down then key_down else key_up)) × (e.keycode ≡ pos code)
  pub scroll_fields :
      (wheels : ℕ) (amount : ℤ) (e : CgEvent)
      → create_scroll wheels amount ≡ some e
      → (e.kind ≡ scroll_wheel) × (e.axis_1 ≡ amount)

abbrev pub eq_ℤ : ℤ → ℤ → Bool
eq_ℤ a b = pos_part a == pos_part b && neg_part a == neg_part b

-- `as u16` of a 64-bit integer.
abbrev pub as_u16 : ℤ → ℕ
as_u16 (pos n) = n % 65536
as_u16 (negsuc n) = 65535 - n % 65536

unfoldable pub detach_pointer : Bool → Mac → Mac
detach_pointer true s = if s.detached then s else record s { detached = true; associated = false }
detach_pointer false s = if s.detached then record s { detached = false; associated = true } else s

unfoldable pub set_suppression : Bool → Mac → Mac
unfolding detach_pointer
set_suppression suppress s = detach_pointer suppress (record s { suppressing = suppress })

unfoldable pub suppressing_now : ℕ → Mac → Bool × Mac
unfolding set_suppression
suppressing_now now s =
    if not s.suppressing
    then (false, s)
    else if ltb watchdog_limit_ms (now - s.watchdog)
    then (false, set_suppression false s)
    else (true, s)

abbrev sent_to : InputEvent → Option (List InputEvent) → Option (List InputEvent)
sent_to e none = none
sent_to e (some events) = some (events ++ e ∷ [])

unfoldable pub emit : InputEvent → Mac → Mac
emit e s = record s { sink = sent_to e s.sink }

-- How the thread with the tap comes up: it does, it is not spawned, or it gets no tap or no source.
pub data Startup : Type 0 where
  up : Startup
  not_spawned refused : String → Startup

abbrev pub came_up : Startup → Option Error × Bool
came_up up = (none, true)
came_up (not_spawned reason) = (some (os reason), true)
came_up (refused reason) = (some (os reason), false)

abbrev tapped : Startup → Bool → Bool
tapped up t = true
tapped (not_spawned reason) t = t
tapped (refused reason) t = false

abbrev pub no_bits : ℕ → Bool
no_bits i = false

unfoldable pub start : Startup → ℕ → Mac → Option Error × Mac
unfolding set_suppression
start startup now s = if s.running then (some already_running, s) else (
  (came_up startup).0,
  record (set_suppression false s) {
    sink = some [];
    watchdog = now;
    have_last = false;
    held_buttons = no_bits;
    inject_flags = no_bits;
    tap = tapped startup s.tap;
    enabled = tapped startup s.enabled;
    running = (came_up startup).1;
  },
)

unfoldable pub set_suppressing : Bool → ℕ → Mac → Mac
unfolding set_suppression
set_suppressing suppress now s =
    let set = set_suppression suppress (record s { watchdog = now }) in
    record set { have_last = (if suppress then false else set.have_last) }

unfoldable pub heartbeat : ℕ → Mac → Mac
heartbeat now s = record s { watchdog = now }

-- The end of a capture, with what its thread does before it ends.
unfoldable pub drop : Mac → Mac
unfolding set_suppression
drop s = record (set_suppression false s) {
  tap = false;
  enabled = false;
  sink = none;
  running = false;
}
