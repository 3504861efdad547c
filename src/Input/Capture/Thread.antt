-- ===== src/Input/Capture/Thread.antt =====
-- crates/is-input/src/platform/windows.rs: the thread of the hooks, `hook_thread`. What it has asked the system
-- for is a table; what the system grants and which messages arrive are arguments.
use inputshare.Base.{
  ℕ, Bool, true, false, not, ◌&&◌, ◌||◌, Option, some, List, [], ◌∷◌, ◌≡◌, arith, if◌then◌else◌, ℤ,
}
use inputshare.Input.Capture.{
  Hooks, Startup, up, hooks_refused, mouse_hook, keyboard_hook, raw_input, MouseMessage, KeyMessage,
}

-- What the thread holds of the system.
pub record Held : Type 0 where
  pub mouse : Bool
  pub keyboard : Bool
  pub window : Bool

abbrev pub nothing : Held
nothing = record { mouse = false; keyboard = false; window = false }

-- Whether the system grants the two hooks, the window, and raw reports for it.
pub record Grants : Type 0 where
  pub mouse : Bool
  pub keyboard : Bool
  pub window : Bool
  pub reports : Bool

-- The calls of the system, on the table.
abbrev set_windows_hooks : Grants → Held → Held
set_windows_hooks g s = record s { mouse = g.mouse; keyboard = g.keyboard }

abbrev unhook_mouse : Held → Held
unhook_mouse s = record s { mouse = false }

abbrev unhook_keyboard : Held → Held
unhook_keyboard s = record s { keyboard = false }

abbrev destroy_window : Held → Held
destroy_window s = record s { window = false }

-- Whether there is a window for raw reports, which is destroyed again when the reports are refused.
unfoldable pub start_raw_input : Grants → Held → Bool × Held
start_raw_input g s =
    let made = record s { window = g.window } in
    if not g.window
    then (false, made)
    else if not g.reports
    then (false, destroy_window made)
    else (true, made)

-- One message, which the system hands to a hook or to the window.
pub data Message : Type 0 where
  mouse : Bool → MouseMessage → ℕ → ℕ → Message
  keyboard : Bool → KeyMessage → ℕ → ℕ → ℕ → ℕ → ℕ → Message
  raw : Bool → ℤ → ℤ → ℕ → Message

pub record Thread : Type 0 where
  pub held : Held
  pub ready : Option Startup
  pub hooks : Hooks

abbrev unhooked : Bool → (Held → Held) → Held → Held
unhooked installed unhook s = if installed then unhook s else s

module _ (xbutton1 vk_f12 vk_control vk_menu : ℕ) (is_held : ℕ → Bool) where
  -- Without the window no raw report arrives.
  abbrev pub dispatch : Bool → Message → Hooks → Hooks
  dispatch raw_window (mouse negative message extra_info now) h =
      (mouse_hook xbutton1 negative message extra_info now h).1
  dispatch raw_window (keyboard negative message vk scan flags extra_info now) h =
      (keyboard_hook vk_f12 vk_control vk_menu is_held negative message vk scan flags extra_info now
        h).1
  dispatch raw_window (raw absolute dx dy extra_info) h =
      if raw_window then raw_input absolute dx dy extra_info h else h

  unfoldable pub pump : Bool → List Message → Hooks → Hooks
  unfolding mouse_hook keyboard_hook raw_input
  pump raw_window [] h = h
  pump raw_window (m ∷ ms) h = pump raw_window ms (dispatch raw_window m h)

  -- The thread up to its answer to `Capture::start`.
  unfoldable pub come_up : Grants → Hooks → Thread
  unfolding start_raw_input
  come_up g h =
      let set = set_windows_hooks g nothing in
      if not g.mouse || not g.keyboard
      then record {
        held = unhooked g.keyboard unhook_keyboard (unhooked g.mouse unhook_mouse set);
        ready = some (hooks_refused "could not install the input hooks");
        hooks = h;
      }
      else record { held = (start_raw_input g set).1; ready = some up; hooks = h }

  -- Its end, when the messages have come to an end.
  unfoldable pub wind_up : Thread → Thread
  wind_up t =
      let closed = unhooked t.held.window destroy_window t.held in
      record t {
        held = unhook_keyboard (unhook_mouse closed);
        hooks = record t.hooks { suppressing = false };
      }

  unfoldable pub hook_thread : Grants → List Message → Hooks → Thread
  unfolding come_up pump wind_up
  hook_thread g messages h =
      let t = come_up g h in
      if not g.mouse || not g.keyboard
      then t
      else wind_up (record t { hooks = pump t.held.window messages t.hooks })

  abbrev pub said_up : Option Startup → Bool
  said_up (some up) = true
  said_up _ = false

  -- Whatever the system grants and whatever arrives, if local input goes through when the thread begins:
  -- while it waits for messages it has each of the two hooks if it has said that it is up, and neither of
  -- them and no window otherwise; and it ends with no hook and no window, with local input going through.
  pub hooks_gone :
      (g : Grants) (messages : List Message) (h : Hooks)
      → h.suppressing ≡ false
      → (let t = come_up g h in
          let end = hook_thread g messages h in
          (t.held.mouse ≡ said_up t.ready)
          × (t.held.keyboard ≡ said_up t.ready)
          × ((t.held.window && not (said_up t.ready)) ≡ false)
          × (end.ready ≡ t.ready)
          × (end.held ≡ nothing)
          × (end.hooks.suppressing ≡ false))
  unfolding hook_thread come_up start_raw_input wind_up
  hooks_gone g messages h quiet = ground arith
