-- ===== src/Examples/Apple.antt =====
-- A Mac that captures and replays.
use mathlib.Core.Option.{some-injective}
use inputshare.Sharing.{MouseButton, mouse_button, key}
use inputshare.Examples.{screen}
use inputshare.Input.Mac.{
  Kind, CgEvent, System, Mac, no_bits, key_down, key_up, scroll_wheel, left_mouse_down,
  left_mouse_dragged, flags_changed, shift_bit, as_u16,
}
use inputshare.Input.Mac.Inject.{
  post, posted, inject, inject_button, inject_move, current_point, modifier,
}
use inputshare.Input.Mac.Tap.{tap_callback, captured}
use inputshare.Base.{not}
use inputshare.Input.Mac.Pointer.{
  is_swallowed, suppress, tapping, performed, IsCoupled, IsFrozen, pointer_follows,
  release_between_freezes, begun, finished,
}
use inputshare.Input.Mac.Replay.{no_feedback, typed_returns}
use inputshare.Input.Mac.Drag.{IsMotion, drag_exact, clicked}
use inputshare.Input.Mac.Motion.{Monitors, Saved, Landed, used, move_lands}
use inputshare.Input.Mac.Monitors.{IsScreen}
use inputshare.Sharing.{add_i32}
use inputshare.Input.Mac.Modifiers.{IsChange, tapped, release_lost}
use inputshare.Base.{pos, negsuc, none, ap, sym, ◌&&◌, ◌==◌, if◌then◌else◌}
use inputshare.Base.{ℕ, Bool, true, false, some, [], ◌∷◌, ◌≡◌, refl, arith}
use inputshare.Input.Keys.{to_pc, find}
use inputshare.Input.Capture.{pass}

-- A Mac on which every request of CoreGraphics is granted.
abbrev blank : Kind → CgEvent
blank kind = record {
  kind = kind;
  x = pos 0;
  y = pos 0;
  user_data = pos 0;
  flags = no_bits;
  button_number = pos 0;
  delta_x = pos 0;
  delta_y = pos 0;
  axis_1 = pos 0;
  axis_2 = pos 0;
  keycode = pos 0;
}

abbrev key_event : ℕ → Bool → CgEvent
key_event code down = record (blank (if down then key_down else key_up)) { keycode = pos code }

key_event_fields :
    (code : ℕ) (down : Bool) (e : CgEvent)
    → some (key_event code down) ≡ some e
    → (e.kind ≡ (if down then key_down else key_up)) × (e.keycode ≡ pos code)
key_event_fields code down e h =
    let same = some-injective (key_event code down) e h in
    (ap (λ (k : CgEvent). k.kind) (sym same), ap (λ (k : CgEvent). k.keycode) (sym same))

abbrev granting : System
granting = record {
  create_mouse = λ kind x y button. some (record (blank kind) { x = x; y = y });
  create_key = λ code down. some (key_event code down);
  create_scroll = λ wheels amount. some (record (blank scroll_wheel) { axis_1 = amount });
  cursor = none;
  displays = some (screen ∷ []);
  warped = true;
  instant = 9000;
  mouse_kind = λ kind x y button e h.
      ap (λ (k : CgEvent). k.kind)
        (sym (some-injective (record (blank kind) { x = x; y = y }) e h));
  key_fields = key_event_fields;
  scroll_fields = λ wheels amount e h.
      let same = some-injective (record (blank scroll_wheel) { axis_1 = amount }) e h in
      (ap (λ (k : CgEvent). k.kind) (sym same), ap (λ (k : CgEvent). k.axis_1) (sym same));
}

abbrev mac : Mac
mac = record {
  last_x = pos 100;
  last_y = pos 100;
  have_last = true;
  held_buttons = no_bits;
  inject_flags = no_bits;
  cache = none;
  suppressing = false;
  detached = false;
  associated = true;
  watchdog = 1000;
  tap = true;
  enabled = true;
  running = true;
  sink = some [];
}

coupled : IsCoupled mac
coupled = record { pointer = refl; system = refl }

pointer_follows_example :
    (let t = performed (suppress true 1000 ∷ tapping 1600 (key_event 0 true) ∷ []) mac in
      let r = tap_callback 4000 (key_event 0 true) t in
      IsCoupled t × (is_swallowed r.0 ≡ r.1.detached) × (not (is_swallowed r.0) ≡ r.1.associated))
pointer_follows_example =
    pointer_follows (suppress true 1000 ∷ tapping 1600 (key_event 0 true) ∷ []) mac 4000
      (key_event 0 true) coupled refl refl

abbrev escape : CgEvent
escape = record (key_event 111 true) { flags = (λ i. true) }

release_between_freezes_example : IsFrozen (
    performed
      (tapping 1700 (key_event 0 true) ∷ [])
      (finished (tap_callback 1600 escape (begun 1500 mac)).1))
release_between_freezes_example =
    release_between_freezes 1500 1600 escape (tapping 1700 (key_event 0 true) ∷ []) mac coupled refl
      refl refl (refl, tt)

abbrev click : CgEvent
click =
    post (record (blank left_mouse_down) { x = pos 100; y = pos 100; button_number = pos 0 }) mac

no_feedback_example :
    ((tap_callback 1600 click mac).0 ≡ pass)
    × ((tap_callback 1600 click mac).1.sink ≡ mac.sink)
    × ((tap_callback 1600 click mac).1.suppressing ≡ mac.suppressing)
unfolding inject inject_button
no_feedback_example =
    no_feedback granting (mouse_button MouseButton.left true) click 1600 mac mac refl

typed_returns_example :
    (p : CgEvent) × ((inject granting (key 65 30 true false) mac).0 ≡ posted p)
    × (p.keycode ≡ pos 0)
    × (p.kind ≡ key_down)
unfolding captured to_pc find
typed_returns_example =
    typed_returns (key_event 0 true) (key_event 0 true) 65 30 true false granting mac refl refl

screen_is : IsScreen screen
screen_is = ground arith

drag_exact_example :
    IsMotion granting left_mouse_dragged
      (inject_move granting
        (pos 5)
        (negsuc 7)
        (clicked ((granting, MouseButton.left, true) ∷ []) mac)).0
unfolding Monitors Saved
drag_exact_example =
    drag_exact ((granting, MouseButton.left, true) ∷ []) granting [] (pos 5) (negsuc 7) mac refl
      (screen_is, tt) tt

move_lands_example :
    (let at = current_point granting mac in
      Landed granting
        (used [] granting mac)
        at
        (add_i32 at.0 (pos 5000))
        (add_i32 at.1 (negsuc 7))
        (inject_move granting (pos 5000) (negsuc 7) mac))
unfolding Monitors Saved
move_lands_example = move_lands granting [] (pos 5000) (negsuc 7) mac (screen_is, tt) tt

abbrev change : ℕ → Bool → CgEvent
change code held = record (blank flags_changed) {
  keycode = pos code;
  flags = (λ i. held && i == shift_bit);
}

is_change :
    (code : ℕ) (held : Bool)
    → modifier (as_u16 (pos code)) ≡ some shift_bit
    → IsChange (change code held) shift_bit held
is_change code held known = record {
  kind = refl;
  bit_of = known;
  flag = ground arith;
  foreign = refl;
}

release_lost_example :
    (tapped 1600 (change 56 true ∷ change 60 true ∷ change 56 true ∷ change 60 false ∷ []) mac).sink
    ≡ some (
        key 160 42 true false
        ∷ key 161 54 true false
        ∷ key 160 42 true false
        ∷ key 161 54 false false
        ∷ [])
unfolding to_pc find
release_lost_example =
    release_lost 1600 shift_bit (change 56 true) (change 60 true) (change 56 true) (change 60 false)
      160 42 161 54 false false [] mac (is_change 56 true refl) (is_change 60 true refl)
      (is_change 56 true refl) (is_change 60 false refl) refl refl refl refl refl
