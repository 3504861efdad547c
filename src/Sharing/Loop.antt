-- ===== src/Sharing/Loop.antt =====
-- crates/is-agent/src/sharing.rs: the event loop of the router.
use inputshare.Base.{
  ℕ, pos, false, not, ◌&&◌, Option, none, some, List, [], ◌∷◌, ◌==◌, if◌then◌else◌,
}
use inputshare.Sharing.{
  InputEvent, local, World, Router, pointer_now, or_cursor, owner_is_reachable, apply_announcement,
  take_ownership, flush, handle, handle_all,
}

-- What `select!` wakes up for. A channel that is closed gives `none`.
pub data Wake : Type 0 where
  stopped : Wake
  heartbeat : Wake
  flush_tick : Option ℕ → Wake
  local_event : Option InputEvent → Wake
  remote_batch : Option (List (World × InputEvent)) → Wake

-- After the loop the hooks are gone and nobody is noted as the owner.
unfoldable pub shut_down : Router → Router
shut_down r = record r { suppressing = false; noted = none }

pub data Turn : Type 0 where
  running : Router → Turn
  finished : Router → Turn

unfoldable pub turn : World → Wake → Router → Turn
unfolding shut_down take_ownership owner_is_reachable apply_announcement flush handle handle_all
turn w stopped r = finished (shut_down r)
turn w heartbeat r =
    if not (r.owner == r.me) && not (owner_is_reachable w r)
    then running (take_ownership w r)
    else running r
turn w (flush_tick announced) r = running (flush (apply_announcement w announced r))
turn w (local_event none) r = finished (shut_down r)
turn w (local_event (some event)) r = running (handle w event local r)
turn w (remote_batch none) r = finished (shut_down r)
turn w (remote_batch (some events)) r = running (handle_all events r)

unfoldable pub start : World → ℕ → Router
unfolding pointer_now
start w me = record {
  me = me;
  owner = me;
  cursor = or_cursor (pointer_now w me) (record { x = pos 0; y = pos 0 });
  pending = [];
  suppressing = false;
  noted = some me;
  effects = [];
}

-- The loop, over what wakes it and the world at that time.
unfoldable pub run : List (World × Wake) → Router → Turn
unfolding turn
run [] r = running r
run ((w, wake) ∷ rest) r = elim (turn w wake r) [ running s ↦ run rest s | finished s ↦ finished s ]
