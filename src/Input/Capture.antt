-- ===== src/Input/Capture.antt =====
-- crates/is-input/src/platform/windows.rs: the capture of the local keyboard and mouse, and the replay
-- of what other machines send. The statics are one state; the clock and the state of the keys are
-- arguments, and so are the key and button codes of the Windows headers. What the system is told is
-- returned: whether an event goes on to the desktop or is swallowed.
pub mod Watchdog
pub mod Thread
use Prim.Native.String.{String}
use inputshare.Base.{
  ℕ, ◌-◌, ◌/◌, ◌%◌, ℤ, pos, negsuc, pos_part, neg_part, ltb, Bool, true, false, not, ◌&&◌, ◌||◌,
  Option, none, some, List, [], ◌∷◌, ◌++◌, ◌==◌, if◌then◌else◌,
}
use inputshare.Sharing.{InputEvent, MouseButton, mouse_move, cursor_enter, mouse_button, wheel, key}

-- `SUPPRESSING`, `WATCHDOG`, `HAVE_LAST`, `RUNNING` and what went into `SINK`, while there is one.
pub record Hooks : Type 0 where
  pub suppressing : Bool
  pub watchdog : ℕ
  pub have_last : Bool
  pub running : Bool
  pub sink : Option (List InputEvent)

pub data Verdict : Type 0 where
  pass swallow : Verdict

abbrev pub watchdog_limit_ms : ℕ
watchdog_limit_ms = 2000

abbrev pub injected_marker : ℕ
injected_marker = 21909589

-- The answer, and the state: an owner that has been quiet for too long loses the input.
unfoldable pub suppressing_now : ℕ → Hooks → Bool × Hooks
suppressing_now now h =
    if not h.suppressing
    then (false, h)
    else if ltb watchdog_limit_ms (now - h.watchdog)
    then (false, record h { suppressing = false })
    else (true, h)

abbrev sent_to : InputEvent → Option (List InputEvent) → Option (List InputEvent)
sent_to e none = none
sent_to e (some events) = some (events ++ e ∷ [])

unfoldable pub emit : InputEvent → Hooks → Hooks
emit e h = record h { sink = sent_to e h.sink }

pub data Error : Type 0 where
  already_running : Error
  os : String → Error

-- How the thread with the hooks comes up: it does, it is not spawned, or the hooks are refused.
pub data Startup : Type 0 where
  up : Startup
  not_spawned hooks_refused : String → Startup

abbrev pub came_up : Startup → Option Error × Bool
came_up up = (none, true)
came_up (not_spawned reason) = (some (os reason), true)
came_up (hooks_refused reason) = (some (os reason), false)

unfoldable pub start : Startup → ℕ → Hooks → Option Error × Hooks
start startup now h = if h.running then (some already_running, h) else (
  (came_up startup).0,
  record h {
    sink = some [];
    suppressing = false;
    watchdog = now;
    have_last = false;
    running = (came_up startup).1;
  },
)

unfoldable pub set_suppressing : Bool → ℕ → Hooks → Hooks
set_suppressing suppress now h = record h {
  watchdog = now;
  suppressing = suppress;
  have_last = (if suppress then false else h.have_last);
}

unfoldable pub heartbeat : ℕ → Hooks → Hooks
heartbeat now h = record h { watchdog = now }

-- The end of a capture: its thread has gone, and the hooks with it.
unfoldable pub drop : Hooks → Hooks
drop h = record h { suppressing = false; sink = none; running = false }

-- The messages of the mouse hook, with `mouseData` where it is read.
pub data MouseMessage : Type 0 where
  wm_mousemove wm_lbuttondown wm_lbuttonup wm_rbuttondown wm_rbuttonup wm_mbuttondown wm_mbuttonup :
      MouseMessage
  wm_xbuttondown wm_xbuttonup wm_mousewheel wm_mousehwheel : ℕ → MouseMessage
  other : MouseMessage

-- The messages of the keyboard hook.
pub data KeyMessage : Type 0 where
  wm_keydown wm_keyup wm_syskeydown wm_syskeyup other : KeyMessage

-- `(data.mouseData >> 16) as u16`, and the same as an `i16`.
abbrev high_word : ℕ → ℕ
high_word word = word / 65536 % 65536

abbrev as_i16 : ℕ → ℤ
as_i16 n = if ltb n 32768 then pos n else negsuc (65535 - n)

module _ (xbutton1 : ℕ) where
  abbrev which : ℕ → MouseButton
  which word = if high_word word == xbutton1 then MouseButton.x1 else MouseButton.x2

  unfoldable pub mouse_event : MouseMessage → Option InputEvent
  mouse_event wm_mousemove = none
  mouse_event wm_lbuttondown = some (mouse_button MouseButton.left true)
  mouse_event wm_lbuttonup = some (mouse_button MouseButton.left false)
  mouse_event wm_rbuttondown = some (mouse_button MouseButton.right true)
  mouse_event wm_rbuttonup = some (mouse_button MouseButton.right false)
  mouse_event wm_mbuttondown = some (mouse_button MouseButton.middle true)
  mouse_event wm_mbuttonup = some (mouse_button MouseButton.middle false)
  mouse_event (wm_xbuttondown word) = some (mouse_button (which word) true)
  mouse_event (wm_xbuttonup word) = some (mouse_button (which word) false)
  mouse_event (wm_mousewheel word) = some (wheel (as_i16 (high_word word)) false)
  mouse_event (wm_mousehwheel word) = some (wheel (as_i16 (high_word word)) true)
  mouse_event MouseMessage.other = none

  abbrev pub judged : Bool × Hooks → Verdict × Hooks
  judged (true, h) = (swallow, h)
  judged (false, h) = (pass, h)

  abbrev pub reported : Option InputEvent → Hooks → Hooks
  reported none h = h
  reported (some e) h = emit e h

  -- A negative code is passed on, and so is what this process has injected.
  unfoldable pub mouse_hook : Bool → MouseMessage → ℕ → ℕ → Hooks → Verdict × Hooks
  unfolding mouse_event emit suppressing_now
  mouse_hook negative message extra_info now h =
      if negative || extra_info == injected_marker
      then (pass, h)
      else judged (suppressing_now now (reported (mouse_event message) h))

-- `GetAsyncKeyState` says which keys are held.
module _ (vk_f12 vk_control vk_menu : ℕ) (held : ℕ → Bool) where
  abbrev pub is_down : KeyMessage → Bool
  is_down wm_keyup = false
  is_down wm_syskeyup = false
  is_down _ = true

  abbrev pub is_key : KeyMessage → Bool
  is_key KeyMessage.other = false
  is_key _ = true

  abbrev pub is_emergency : KeyMessage → ℕ → Bool
  is_emergency message vk =
      is_down message && vk % 65536 == vk_f12 && held vk_control && held vk_menu

  unfoldable pub keyboard_hook : Bool → KeyMessage → ℕ → ℕ → ℕ → ℕ → ℕ → Hooks → Verdict × Hooks
  unfolding emit suppressing_now
  keyboard_hook negative message vk scan flags extra_info now h =
      if negative || extra_info == injected_marker
      then (pass, h)
      else if not (is_key message)
      then (pass, h)
      else if is_emergency message vk
      then (pass, record h { suppressing = false })
      else judged vk_f12 (
          suppressing_now now
            (emit (key (vk % 65536) (scan % 65536) (is_down message) (not (flags % 2 == 0))) h))

-- A report of raw motion: no absolute position, and nothing that this process has injected.
abbrev is_zero : ℤ → Bool
is_zero z = pos_part z == 0 && neg_part z == 0

unfoldable pub raw_input : Bool → ℤ → ℤ → ℕ → Hooks → Hooks
unfolding emit
raw_input absolute dx dy extra_info h =
    if not (extra_info == injected_marker) && not absolute && (not (is_zero dx) || not (is_zero dy))
    then emit (mouse_move dx dy) h
    else h

-- The flags of an injected mouse event.
pub data MouseFlags : Type 0 where
  mouseeventf_move mouseeventf_leftdown mouseeventf_leftup mouseeventf_rightdown mouseeventf_rightup
        mouseeventf_middledown mouseeventf_middleup mouseeventf_xdown mouseeventf_xup
        mouseeventf_wheel mouseeventf_hwheel :
      MouseFlags

-- What `inject` asks of the system: a direct move, or an input that carries the marker.
pub data Injection : Type 0 where
  set_cursor_position : ℤ → ℤ → Injection
  mouse_input : ℤ → ℤ → ℤ → MouseFlags → Injection
  keyboard_input : ℕ → ℕ → Bool → Bool → Injection

abbrev button_flags : MouseButton → Bool → MouseFlags × ℤ
button_flags MouseButton.left true = (mouseeventf_leftdown, pos 0)
button_flags MouseButton.left false = (mouseeventf_leftup, pos 0)
button_flags MouseButton.right true = (mouseeventf_rightdown, pos 0)
button_flags MouseButton.right false = (mouseeventf_rightup, pos 0)
button_flags MouseButton.middle true = (mouseeventf_middledown, pos 0)
button_flags MouseButton.middle false = (mouseeventf_middleup, pos 0)
button_flags MouseButton.x1 true = (mouseeventf_xdown, pos 1)
button_flags MouseButton.x1 false = (mouseeventf_xup, pos 1)
button_flags MouseButton.x2 true = (mouseeventf_xdown, pos 2)
button_flags MouseButton.x2 false = (mouseeventf_xup, pos 2)

unfoldable pub inject : InputEvent → Injection
inject (cursor_enter x y) = set_cursor_position x y
inject (mouse_move dx dy) = mouse_input dx dy (pos 0) mouseeventf_move
inject (mouse_button button down) =
    mouse_input (pos 0) (pos 0) (button_flags button down).1 (button_flags button down).0
inject (wheel delta horizontal) =
    mouse_input (pos 0) (pos 0) delta (if horizontal then mouseeventf_hwheel else mouseeventf_wheel)
inject (key vk scan down extended) = keyboard_input vk scan (not down) extended
