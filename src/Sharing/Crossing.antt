-- ===== src/Sharing/Crossing.antt =====
-- What single events do: the handoff in both directions, forwarding, and recovery.
use inputshare.Base.{
  ◌∙◌, ap, ℕ, ℤ, Bool, true, false, ◌||◌, ◌≡◌, ◌≢◌, some, [], ◌∷◌, ◌++◌, ◌==◌, refl, arith, ==_iff,
}
use inputshare.Geometry.{Point}
use inputshare.Model.{WorkspaceDoc, MachineRecord}
use inputshare.Model.Invariant.{IsValid}
use inputshare.Model.Query.{machine}
use inputshare.Layout.{Resolution, move, resolve_cursor}
use inputshare.Layout.Safety.{move_safe}
use inputshare.Sharing.{
  on_motion_in, InputEvent, cursor_enter, mouse_move, mouse_button, wheel, key, Source, local,
  remote, World, Router, flush, take_ownership, enter, follow, on_motion, act, dispatch, handle,
  owner_is_reachable, emit, resync, pointer_now, send_input, announce_cursor_owner, add_i32,
  sub_i32, set_cursor_position,
}
use inputshare.Sharing.Loop.{heartbeat, running, turn}
use inputshare.Sharing.Ownership.{IsCoherent}

-- The point that a motion aims at, from the tracked pointer or, where that has drifted, the real
-- one.
abbrev pub aim : World → Router → ℤ → ℤ → Point
aim w r dx dy =
    let cursor = resync (pointer_now w r.me) r.cursor in
    record { x = add_i32 cursor.x dx; y = add_i32 cursor.y dy }

abbrev pub online_with : World → ℕ → ℕ → Bool
online_with w me id = id == me || w.online id

motion_follows :
    (w : World) (doc : WorkspaceDoc) (dx dy : ℤ) (source : Source) (r : Router) (res : Resolution)
    → w.doc ≡ some doc
    → r.owner ≡ r.me
    → resolve_cursor doc (online_with w r.me) r.me (aim w r dx dy) ≡ res
    → handle w (mouse_move dx dy) source r
      ≡ follow doc source res (record r { cursor = resync (pointer_now w r.me) r.cursor })
unfolding handle dispatch act on_motion
motion_follows w doc dx dy source r res d o e =
    let start = record r { cursor = resync (pointer_now w r.me) r.cursor } in
    rw ((==_iff r.owner r.me).1 o)
      (ap (λ q. on_motion_in w q dx dy source r) d ∙ ap (λ t. follow doc source t start) e)

follow_move :
    (doc : WorkspaceDoc) (source : Source) (r : Router) (m : ℕ) (p : Point) (target : MachineRecord)
    → m ≢ r.me
    → r.pending ≡ []
    → machine doc m ≡ some target
    → (let s = follow doc source (move m p) r in
        (s.owner ≡ m)
        × (s.suppressing ≡ true)
        × (s.pending ≡ [])
        × (s.effects
            ≡ (r.effects
                ++ send_input m (
                    cursor_enter (sub_i32 p.x target.position.x) (sub_i32 p.y target.position.y)
                    ∷ [])
                  ∷ [])
              ++ announce_cursor_owner m ∷ []))
unfolding follow flush emit
follow_move doc source r m p target away empty t = rw (t, empty) (ground arith)

-- On a coherent router with a valid document, a motion of the owner's that crosses to another
-- machine tells that machine first, and alone, where the pointer enters, in that machine's own
-- coordinates; then it tells all who owns it. And the capture hook is asked to swallow the local input.
pub crossing :
    (w : World) (doc : WorkspaceDoc) (dx dy : ℤ) (source : Source) (r : Router) (m : ℕ) (p : Point)
    (target : MachineRecord)
    → IsCoherent r
    → IsValid doc
    → w.doc ≡ some doc
    → r.owner ≡ r.me
    → resolve_cursor doc (online_with w r.me) r.me (aim w r dx dy) ≡ move m p
    → machine doc m ≡ some target
    → (let s = handle w (mouse_move dx dy) source r in
        (s.owner ≡ m)
        × (s.suppressing ≡ true)
        × (s.pending ≡ [])
        × (s.effects
            ≡ (r.effects
                ++ send_input m (
                    cursor_enter (sub_i32 p.x target.position.x) (sub_i32 p.y target.position.y)
                    ∷ [])
                  ∷ [])
              ++ announce_cursor_owner m ∷ []))
crossing w doc dx dy source r m p target c v d o res t =
    rw (motion_follows w doc dx dy source r (move m p) d o res) (
      follow_move doc source (record r { cursor = resync (pointer_now w r.me) r.cursor }) m p target
        (move_safe doc (online_with w r.me) r.me (aim w r dx dy) m p v res).1
        (c.idle ((==_iff r.owner r.me).1 o)) t)

-- A local event on a machine that does not own the pointer is queued for the owner, and nothing
-- else is done.
pub forwarded :
    (w : World) (event : InputEvent) (r : Router)
    → r.owner ≢ r.me
    → handle w event local r ≡ record r { pending = r.pending ++ event ∷ [] }
unfolding handle dispatch
forwarded w (cursor_enter x y) r away = ground arith
forwarded w (mouse_move dx dy) r away = ground arith
forwarded w (mouse_button b d) r away = ground arith
forwarded w (wheel d h) r away = ground arith
forwarded w (key a b d e) r away = ground arith

-- A remote handoff to a coherent router makes this machine the owner, gives its keyboard back and
-- places the pointer.
pub handed_over :
    (w : World) (x y : ℤ) (r : Router)
    → IsCoherent r
    → (let s = handle w (cursor_enter x y) remote r in
        (s.owner ≡ r.me)
        × (s.suppressing ≡ false)
        × (s.noted ≡ some r.me)
        × (s.effects ≡ r.effects ++ set_cursor_position x y ∷ []))
unfolding handle enter
handed_over w x y r c = ground arith

-- A heartbeat while another machine owns the pointer and cannot be reached takes the pointer back,
-- gives the keyboard back, drops what was queued and says so.
pub heartbeat_recovers :
    (w : World) (r : Router)
    → r.owner ≢ r.me
    → w.online r.owner ≡ false
    → (s : Router) × (turn w heartbeat r ≡ running s)
      × (s.owner ≡ r.me)
      × (s.suppressing ≡ false)
      × (s.pending ≡ [])
      × (s.effects ≡ r.effects ++ announce_cursor_owner r.me ∷ [])
unfolding turn owner_is_reachable take_ownership
heartbeat_recovers w r away off = (take_ownership w r, ground arith, refl, refl, refl, refl)
