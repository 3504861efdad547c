-- ===== src/Input/Mac/Replay.antt =====
-- Replayed input: it is not captured again, keys come back as themselves, and a held button drags.
use inputshare.Base.{ℕ, pos, Bool, some, ◌≡◌, refl, arith, if◌then◌else◌}
use inputshare.Sharing.{InputEvent, mouse_move, cursor_enter, mouse_button, wheel, key}
use inputshare.Input.Capture.{pass, injected_marker}
use inputshare.Input.Keys.{to_pc}
use inputshare.Input.Keys.RoundTrip.{keys_round_trip}
use inputshare.Input.Mac.{Mac, Kind, CgEvent, System, as_u16, key_down, key_up}
use inputshare.Input.Mac.Inject.{
  modified, modifier, Outcome, posted, post, inject, inject_move, inject_button, inject_wheel,
  inject_key, set_cursor_position,
}
use inputshare.Input.Mac.{Kind}
use inputshare.Input.Mac.Tap.{captured_as, tap_callback, captured}

-- What is posted carries the marker.
IsMarked : Outcome → Type 0
IsMarked (posted e) = e.user_data ≡ pos injected_marker
IsMarked other = Unit

inject-IsMarked : (sys : System) (e : InputEvent) (s : Mac) → IsMarked (inject sys e s).0
unfolding IsMarked inject inject_move inject_button inject_wheel inject_key set_cursor_position post
inject-IsMarked sys (cursor_enter x y) s = ground arith
inject-IsMarked sys (mouse_move dx dy) s = ground arith
inject-IsMarked sys (mouse_button button down) s = ground arith
inject-IsMarked sys (wheel delta horizontal) s = ground arith
inject-IsMarked sys (key vk scan down extended) s = ground arith

-- Whatever a machine replays goes through its own tap unreported and untouched, in every state and
-- at every time.
pub no_feedback :
    (sys : System) (e : InputEvent) (p : CgEvent) (now : ℕ) (s t : Mac)
    → (inject sys e s).0 ≡ posted p
    → ((tap_callback now p t).0 ≡ pass)
      × ((tap_callback now p t).1.sink ≡ t.sink)
      × ((tap_callback now p t).1.suppressing ≡ t.suppressing)
unfolding tap_callback IsMarked
no_feedback sys e p now s t h = let mark = inject-IsMarked sys e s in ground arith

reported_code :
    (kind : Kind) (e : CgEvent) (vk scan : ℕ) (down extended : Bool)
    → captured_as kind e ≡ some (key vk scan down extended)
    → to_pc (as_u16 e.keycode) ≡ some (scan, vk, extended)
reported_code kind e vk scan down extended h = ground arith

-- A key that the tap of one machine reports is pressed or released as the same key on another, when
-- CoreGraphics makes an event for it.
pub typed_returns :
    (e made : CgEvent) (vk scan : ℕ) (down extended : Bool) (sys : System) (s : Mac)
    → captured e ≡ some (key vk scan down extended)
    → sys.create_key (as_u16 e.keycode) down ≡ some made
    → (p : CgEvent) × ((inject sys (key vk scan down extended) s).0 ≡ posted p)
      × (p.keycode ≡ pos (as_u16 e.keycode))
      × (p.kind ≡ (if down then key_down else key_up))
unfolding inject inject_key post captured
typed_returns e made vk scan down extended sys s h m =
    let known =
      keys_round_trip (as_u16 e.keycode) scan vk extended
        (reported_code e.kind e vk scan down extended h) in
    let fields = sys.key_fields (as_u16 e.keycode) down made m in
    (
      post made
          (record s { inject_flags = modified (modifier (as_u16 e.keycode)) down s.inject_flags }),
      rw known (rw m refl),
      fields.1,
      fields.0,
    )
