-- ===== src/Input/Mac/Pointer.antt =====
-- Suppression and the attachment of the pointer, which are to change together.
use inputshare.Base.{
  ap, Each, pos, pos, Each, true, ℕ, Bool, false, not, Option, List, [], ◌∷◌, ◌≡◌, sym, ◌∙◌, arith,
}
use inputshare.Sharing.{InputEvent, mouse_move, cursor_enter, mouse_button, wheel, key}
use inputshare.Input.Capture.{injected_marker}
use inputshare.Input.Mac.{
  eq_ℤ, eq_ℤ, Mac, CgEvent, System, Startup, start, set_suppressing, heartbeat, drop,
  detach_pointer, set_suppression, suppressing_now, emit,
}
use inputshare.Input.Mac.Inject.{
  inject, inject_move, inject_button, inject_wheel, inject_key, set_cursor_position,
}
use inputshare.Input.Capture.{Verdict, pass, swallow}
use inputshare.Input.Mac.Tap.{is_disabled, is_emergency, tap_callback, captured, reported, judged}

-- What runs on the statics.
pub data Call : Type 0 where
  starting : Startup → ℕ → Call
  suppress : Bool → ℕ → Call
  beat : ℕ → Call
  dropping : Call
  tapping : ℕ → CgEvent → Call
  injecting : System → InputEvent → Call

unfoldable pub perform : Call → Mac → Mac
perform (starting startup now) s = (start startup now s).1
perform (suppress on now) s = set_suppressing on now s
perform (beat now) s = heartbeat now s
perform dropping s = drop s
perform (tapping now e) s = (tap_callback now e s).1
perform (injecting sys e) s = (inject sys e s).1

unfoldable pub performed : List Call → Mac → Mac
unfolding perform
performed [] s = s
performed (c ∷ cs) s = performed cs (perform c s)

-- The mouse moves the cursor of this machine exactly while its input is not swallowed.
pub record IsCoupled (s : Mac) : Type 0 where
  pub pointer : s.detached ≡ s.suppressing
  pub system : s.associated ≡ not s.detached

-- What a call that leaves suppression alone may change.
pub record IsKept (s t : Mac) : Type 0 where
  pub suppression : t.suppressing ≡ s.suppressing
  pub pointer : t.detached ≡ s.detached
  pub system : s.associated ≡ not s.detached → t.associated ≡ not t.detached

kept-IsCoupled : {s t : Mac} → IsKept s t → IsCoupled s → IsCoupled t
kept-IsCoupled k c = record {
  pointer = k.pointer ∙ (c.pointer ∙ sym k.suppression);
  system = k.system c.system;
}

set_suppression-IsCoupled :
    (on : Bool) (s : Mac) → s.associated ≡ not s.detached → IsCoupled (set_suppression on s)
unfolding set_suppression detach_pointer
set_suppression-IsCoupled on s c = ground arith

inject-IsKept : (sys : System) (e : InputEvent) (s : Mac) → IsKept s (inject sys e s).1
unfolding inject inject_move inject_button inject_wheel inject_key set_cursor_position
inject-IsKept sys (cursor_enter x y) s = ground arith
inject-IsKept sys (mouse_move dx dy) s = ground arith
inject-IsKept sys (mouse_button button down) s = ground arith
inject-IsKept sys (wheel delta horizontal) s = ground arith
inject-IsKept sys (key vk scan down extended) s = ground arith

reported-IsKept : (o : Option InputEvent) (s : Mac) → IsKept s (reported o s)
unfolding emit
reported-IsKept o s = ground arith

judged-IsCoupled : (now : ℕ) (s : Mac) → IsCoupled s → IsCoupled (judged (suppressing_now now s)).1
unfolding suppressing_now set_suppression detach_pointer
judged-IsCoupled now s c = ground arith

tap_callback-IsCoupled :
    (now : ℕ) (e : CgEvent) (s : Mac) → IsCoupled s → IsCoupled (tap_callback now e s).1
unfolding tap_callback
tap_callback-IsCoupled now e s c = ground (
  arith,
  set_suppression-IsCoupled false s,
  kept-IsCoupled (reported-IsKept (captured e) s) c,
  judged-IsCoupled now (reported (captured e) s),
)

perform-IsCoupled : (c : Call) (s : Mac) → IsCoupled s → IsCoupled (perform c s)
unfolding perform start set_suppressing heartbeat drop set_suppression detach_pointer
perform-IsCoupled (starting startup now) s c = ground arith
perform-IsCoupled (suppress on now) s c = ground arith
perform-IsCoupled (beat now) s c = ground arith
perform-IsCoupled dropping s c = ground arith
perform-IsCoupled (tapping now e) s c = tap_callback-IsCoupled now e s c
perform-IsCoupled (injecting sys e) s c = kept-IsCoupled (inject-IsKept sys e s) c

performed-IsCoupled : (cs : List Call) (s : Mac) → IsCoupled s → IsCoupled (performed cs s)
unfolding performed
performed-IsCoupled [] s c = c
performed-IsCoupled (k ∷ cs) s c = performed-IsCoupled cs (perform k s) (perform-IsCoupled k s c)

abbrev pub is_swallowed : Verdict → Bool
is_swallowed swallow = true
is_swallowed pass = false

-- What becomes of an event is what the pointer is then set for.
judged-told :
    (now : ℕ) (s : Mac)
    → IsCoupled s
    → (let r = judged (suppressing_now now s) in r.1.suppressing ≡ is_swallowed r.0)
unfolding suppressing_now set_suppression detach_pointer
judged-told now s c = ground arith

tap_callback-told :
    (now : ℕ) (e : CgEvent) (s : Mac)
    → IsCoupled s
    → is_disabled e.kind ≡ false
    → eq_ℤ e.user_data (pos injected_marker) ≡ false
    → (let r = tap_callback now e s in r.1.suppressing ≡ is_swallowed r.0)
unfolding tap_callback set_suppression detach_pointer
tap_callback-told now e s c working foreign = ground (
  arith,
  judged-told now (reported (captured e) s) (kept-IsCoupled (reported-IsKept (captured e) s) c),
)

-- When the mouse and the cursor are coupled at first, then after any sequence of calls that run one after
-- the other, starts and ends of a capture, its owner's calls, events at the tap and replayed input:
-- the mouse is detached exactly while suppression is on, and the system was told so. And an event that
-- then comes to the tap, neither a notice that the tap is off nor this process's own, is swallowed
-- exactly if the mouse is detached once the tap has answered, and goes through exactly if the system
-- was last told that the mouse moves the cursor.
pub pointer_follows :
    (cs : List Call) (s : Mac) (now : ℕ) (e : CgEvent)
    → IsCoupled s
    → is_disabled e.kind ≡ false
    → eq_ℤ e.user_data (pos injected_marker) ≡ false
    → (let t = performed cs s in
        let r = tap_callback now e t in
        IsCoupled t × (is_swallowed r.0 ≡ r.1.detached) × (not (is_swallowed r.0) ≡ r.1.associated))
pointer_follows cs s now e c working foreign =
    let t = performed cs s in
    let coupled = performed-IsCoupled cs s c in
    let told = tap_callback-told now e t coupled working foreign in
    let after = tap_callback-IsCoupled now e t coupled in
    (coupled, sym (after.pointer ∙ told), sym (after.system ∙ ap not (after.pointer ∙ told)))

-- `set_suppressing(true)` in two steps: another thread may run between the store and the detachment.
abbrev pub begun : ℕ → Mac → Mac
begun now s = record s { watchdog = now; suppressing = true }

abbrev pub finished : Mac → Mac
finished s = record (detach_pointer true s) { have_last = false }

two_steps : (now : ℕ) (s : Mac) → finished (begun now s) ≡ set_suppressing true now s
unfolding set_suppressing set_suppression detach_pointer
two_steps now s = ground arith

-- Local input goes through, and the mouse moves nothing.
pub record IsFrozen (s : Mac) : Type 0 where
  pub through : s.suppressing ≡ false
  pub pointer : s.detached ≡ true
  pub system : s.associated ≡ false

-- What runs without the owner: events, heartbeats and replayed input.
abbrev pub is_passive : Call → Bool
is_passive (beat now) = true
is_passive (tapping now e) = true
is_passive (injecting sys e) = true
is_passive _ = false

perform-IsFrozen : (c : Call) (s : Mac) → is_passive c ≡ true → IsFrozen s → IsFrozen (perform c s)
unfolding perform heartbeat tap_callback emit suppressing_now
perform-IsFrozen (starting startup now) s p f = ground arith
perform-IsFrozen (suppress on now) s p f = ground arith
perform-IsFrozen (beat now) s p f = ground arith
perform-IsFrozen dropping s p f = ground arith
perform-IsFrozen (tapping now e) s p f = ground (arith, reported-IsKept (captured e) s)
perform-IsFrozen (injecting sys e) s p f =
    let k = inject-IsKept sys e s in
    record {
      through = k.suppression ∙ f.through;
      pointer = k.pointer ∙ f.pointer;
      system = k.system (f.system ∙ ap not (sym f.pointer)) ∙ ap not (k.pointer ∙ f.pointer);
    }

performed-IsFrozen :
    (cs : List Call) (s : Mac)
    → Each (λ c. is_passive c ≡ true) cs
    → IsFrozen s
    → IsFrozen (performed cs s)
unfolding performed
performed-IsFrozen [] s p f = f
performed-IsFrozen (c ∷ cs) s p f =
    performed-IsFrozen cs (perform c s) p.1 (perform-IsFrozen c s p.0 f)

-- When Control+Option+F12 comes to the tap while the owner is between the two steps of turning
-- suppression on, the capture ends up with local input going through and the mouse detached from the
-- cursor, and no later event, heartbeat or replayed input attaches it again.
pub release_between_freezes :
    (now later : ℕ) (e : CgEvent) (cs : List Call) (s : Mac)
    → IsCoupled s
    → s.suppressing ≡ false
    → eq_ℤ e.user_data (pos injected_marker) ≡ false
    → is_emergency e ≡ true
    → Each (λ c. is_passive c ≡ true) cs
    → IsFrozen (performed cs (finished (tap_callback later e (begun now s)).1))
unfolding tap_callback set_suppression detach_pointer
release_between_freezes now later e cs s coupled off foreign emergency passive =
    performed-IsFrozen cs (finished (tap_callback later e (begun now s)).1) passive (ground arith)
