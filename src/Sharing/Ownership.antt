-- ===== src/Sharing/Ownership.antt =====
-- What the router asks of the capture hook, and what it publishes, agree with who owns the pointer. The hook
-- itself gives the keyboard back earlier, on Ctrl+Alt+F12 or when the router is quiet, and does not say so:
-- Input.Capture.Watchdog is about that.
use inputshare.Base.{
  ℕ, ℤ, true, false, not, ◌&&◌, ◌≡◌, ◌≢◌, Option, none, some, List, [], ◌∷◌, ◌++◌, ◌==◌, refl,
  arith, Each, Bool-cases, inl, inr,
}
use inputshare.Geometry.{Point}
use inputshare.Model.{WorkspaceDoc}
use inputshare.Model.Invariant.{IsValid}
use inputshare.Model.Query.{machine}
use inputshare.Layout.{Resolution, stay, move}
use inputshare.Layout.Safety.{move_safe}
use inputshare.Sharing.{
  InputEvent, cursor_enter, mouse_move, mouse_button, wheel, key, Source, local, remote, World,
  Router, flush, apply_announcement, take_ownership, enter, follow, on_motion, act, dispatch,
  handle, handle_all, on_motion_in, replay, queue, Effect, enter_event, owner_is_reachable, emit,
}
use inputshare.Sharing.Loop.{
  run, Wake, stopped, heartbeat, flush_tick, local_event, remote_batch, Turn, running, finished,
  turn, start, shut_down,
}

-- What the hook was last asked for, the published owner and the queue agree with who owns the pointer.
pub record IsCoherent (r : Router) : Type 0 where
  pub asked : r.suppressing ≡ not (r.owner == r.me)
  pub published : r.noted ≡ some r.owner
  pub idle : (r.owner == r.me) ≡ true → r.pending ≡ []

abbrev DocValid : Option WorkspaceDoc → Type 0
DocValid none = Unit
DocValid (some doc) = IsValid doc

-- A document that was read obeys the invariant of documents.
abbrev pub WorldValid : World → Type 0
WorldValid w = DocValid w.doc

-- An announcement that hands the pointer to this machine leaves the queue to the flush behind it.
announced-asked :
    (w : World) (o : Option ℕ) (r : Router)
    → IsCoherent r
    → (let s = apply_announcement w o r in s.suppressing ≡ not (s.owner == s.me))
unfolding apply_announcement
announced-asked w none r c = c.asked
announced-asked w (some owner) r c = ground arith

announced-published :
    (w : World) (o : Option ℕ) (r : Router)
    → IsCoherent r
    → (let s = apply_announcement w o r in s.noted ≡ some s.owner)
unfolding apply_announcement
announced-published w none r c = c.published
announced-published w (some owner) r c = ground arith

flush-IsCoherent :
    (r : Router)
    → r.suppressing ≡ not (r.owner == r.me)
    → r.noted ≡ some r.owner
    → IsCoherent (flush r)
unfolding flush
flush-IsCoherent r s p = ground arith

take_ownership-IsCoherent : (w : World) (r : Router) → IsCoherent (take_ownership w r)
unfolding take_ownership
take_ownership-IsCoherent w r = ground arith

enter-IsCoherent : (w : World) (x y : ℤ) (r : Router) → IsCoherent r → IsCoherent (enter w x y r)
unfolding enter
enter-IsCoherent w x y r c = ground arith

emit-IsCoherent : (e : Effect) (r : Router) → IsCoherent r → IsCoherent (emit e r)
unfolding emit
emit-IsCoherent e r c = record { asked = c.asked; published = c.published; idle = c.idle }

replay-IsCoherent :
    (event : InputEvent) (source : Source) (r : Router)
    → IsCoherent r
    → IsCoherent (replay event source r)
replay-IsCoherent event local r c = c
replay-IsCoherent event remote r c = emit-IsCoherent _ r c

queue-IsCoherent :
    (event : InputEvent) (source : Source) (r : Router)
    → (r.owner == r.me) ≡ false
    → IsCoherent r
    → IsCoherent (queue event source r)
queue-IsCoherent event local r h c = record {
  asked = c.asked;
  published = c.published;
  idle = λ k. cc (h, k);
}
queue-IsCoherent event remote r h c = c

follow-IsCoherent :
    (doc : WorkspaceDoc) (source : Source) (res : Resolution) (r : Router)
    → ((m : ℕ) (p : Point) → res ≡ move m p → m ≢ r.me)
    → IsCoherent r
    → IsCoherent (follow doc source res r)
unfolding follow
follow-IsCoherent doc source (stay p) r h c = ground arith
follow-IsCoherent doc source (move m p) r h c =
    let away = h m p refl in
    let f =
      flush-IsCoherent
        (record r {
          cursor = p;
          owner = m;
          noted = some m;
          pending = r.pending ++ enter_event (machine doc m) p;
          suppressing = true;
        })
        (ground arith) refl in
    emit-IsCoherent _ _ f

on_motion_in-IsCoherent :
    (w : World) (o : Option WorkspaceDoc) (dx dy : ℤ) (source : Source) (r : Router)
    → DocValid o
    → IsCoherent r
    → IsCoherent (on_motion_in w o dx dy source r)
on_motion_in-IsCoherent w none dx dy source r v c = c
on_motion_in-IsCoherent w (some doc) dx dy source r v c =
    follow-IsCoherent doc source _ _ (λ m p e. (move_safe doc _ r.me _ m p v e).1)
      (record { asked = c.asked; published = c.published; idle = c.idle })

act-IsCoherent :
    (w : World) (event : InputEvent) (source : Source) (r : Router)
    → WorldValid w
    → IsCoherent r
    → IsCoherent (act w event source r)
unfolding act on_motion
act-IsCoherent w (mouse_move dx dy) source r v c =
    on_motion_in-IsCoherent w w.doc dx dy source r v c
act-IsCoherent w (cursor_enter x y) source r v c = c
act-IsCoherent w (mouse_button b d) source r v c = replay-IsCoherent _ source r c
act-IsCoherent w (wheel d h) source r v c = replay-IsCoherent _ source r c
act-IsCoherent w (key a b d e) source r v c = replay-IsCoherent _ source r c

dispatch-IsCoherent :
    (w : World) (event : InputEvent) (source : Source) (r : Router)
    → WorldValid w
    → IsCoherent r
    → IsCoherent (dispatch w event source r)
unfolding dispatch
dispatch-IsCoherent w event source r v c = elim (Bool-cases (r.owner == r.me)) [
  | inl h ↦ rw h (act-IsCoherent w event source r v c)
  | inr h ↦ rw h (queue-IsCoherent event source r h c)
]

handle-IsCoherent :
    (w : World) (event : InputEvent) (source : Source) (r : Router)
    → WorldValid w
    → IsCoherent r
    → IsCoherent (handle w event source r)
unfolding handle
handle-IsCoherent w (cursor_enter x y) remote r v c = enter-IsCoherent w x y r c
handle-IsCoherent w event source r v c = dispatch-IsCoherent w event source r v c

handle_all-IsCoherent :
    (events : List (World × InputEvent)) (r : Router)
    → Each (λ e. WorldValid e.0) events
    → IsCoherent r
    → IsCoherent (handle_all events r)
unfolding handle_all
handle_all-IsCoherent [] r v c = c
handle_all-IsCoherent ((w, event) ∷ events) r v c =
    handle_all-IsCoherent events (handle w event remote r) v.1
      (handle-IsCoherent w event remote r v.0 c)

-- Each world that a turn reads obeys the invariant of documents.
abbrev pub WakeValid : World → Wake → Type 0
WakeValid w (remote_batch (some events)) = Each (λ e. WorldValid e.0) events
WakeValid w wake = WorldValid w

-- A turn that ends the loop leaves the hook not swallowing.
abbrev pub Sound : Turn → Type 0
Sound (running r) = IsCoherent r
Sound (finished r) = (r.suppressing ≡ false) × (r.noted ≡ none)

-- One turn, whatever wakes the loop.
pub turn-Sound :
    (w : World) (wake : Wake) (r : Router) → WakeValid w wake → IsCoherent r → Sound (turn w wake r)
unfolding turn
turn-Sound w stopped r v c = unfold shut_down in (refl, refl)
turn-Sound w heartbeat r v c =
    elim (Bool-cases (not (r.owner == r.me) && not (owner_is_reachable w r))) [
      | inl h ↦ rw h (take_ownership-IsCoherent w r)
      | inr h ↦ rw h c
    ]
turn-Sound w (flush_tick announced) r v c =
    flush-IsCoherent (apply_announcement w announced r) (announced-asked w announced r c)
      (announced-published w announced r c)
turn-Sound w (local_event none) r v c = unfold shut_down in (refl, refl)
turn-Sound w (local_event (some event)) r v c = handle-IsCoherent w event local r v c
turn-Sound w (remote_batch none) r v c = unfold shut_down in (refl, refl)
turn-Sound w (remote_batch (some events)) r v c = handle_all-IsCoherent events r v c

start-IsCoherent : (w : World) (me : ℕ) → IsCoherent (start w me)
unfolding start
start-IsCoherent w me = ground arith

run-Sound :
    (wakes : List (World × Wake)) (r : Router)
    → Each (λ e. WakeValid e.0 e.1) wakes
    → IsCoherent r
    → Sound (run wakes r)
unfolding run
run-Sound [] r v c = c
run-Sound ((w, wake) ∷ wakes) r v c =
    (elim (turn w wake r)
        as (λ t. Sound t → Sound (elim t [ running s ↦ run wakes s | finished s ↦ finished s ])) [
          | running s ↦ λ q. run-Sound wakes s v.1 q
          | finished s ↦ λ q. q
        ])
      (turn-Sound w wake r v.0 c)

-- From the start of sharing, after any sequence of wake-ups in which every document that is read is
-- valid: while the loop runs, the last thing that the router has asked of the capture hook is to swallow
-- the local input if another machine owns the pointer, and to let it through if this one does; the
-- owner is the one that is published; and nothing is queued while this machine owns the pointer. Once the
-- loop has ended, the hook is not left swallowing and no owner is published.
pub sharing-Sound :
    (w : World) (me : ℕ) (wakes : List (World × Wake))
    → Each (λ e. WakeValid e.0 e.1) wakes
    → Sound (run wakes (start w me))
sharing-Sound w me wakes v = run-Sound wakes (start w me) v (start-IsCoherent w me)
