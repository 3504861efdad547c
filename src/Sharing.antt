-- ===== src/Sharing.antt =====
-- crates/is-agent/src/sharing.rs and crates/is-core/src/input.rs: the router that moves keyboard
-- and mouse between machines. The loop itself is in Loop; a turn of it is a function on the
-- router's state; what it asks of the capture hook and of the agent is kept beside it
-- (`suppressing`, `noted`) or recorded, in order, in `effects`. `World` is what the turn reads: the
-- document, the machines online and where the system says the pointer is. Coordinates add and
-- subtract as in a release build.
pub mod Loop
pub mod Ownership
pub mod Crossing
use inputshare.Base.{
  ℕ, ℤ, pos, Bool, true, false, not, ◌&&◌, ◌||◌, Option, none, some, List, [], ◌∷◌, ◌++◌, ◌==◌,
  ltb_ℤ, ◌+ℤ◌, ◌-ℤ◌, wrap, abs_ℤ, if◌then◌else◌,
}
use inputshare.Geometry.{Point}
use inputshare.Model.{MachineRecord, WorkspaceDoc}
use inputshare.Model.Query.{machine}
use inputshare.Layout.{Resolution, stay, move, resolve_cursor}

pub data MouseButton : Type 0 where
  left right middle x1 x2 : MouseButton

pub data InputEvent : Type 0 where
  mouse_move : ℤ → ℤ → InputEvent
  cursor_enter : ℤ → ℤ → InputEvent
  mouse_button : MouseButton → Bool → InputEvent
  wheel : ℤ → Bool → InputEvent
  key : ℕ → ℕ → Bool → Bool → InputEvent

pub data Source : Type 0 where
  local remote : Source

-- Requests to the agent and to the input system.
pub data Effect : Type 0 where
  send_input : ℕ → List InputEvent → Effect
  announce_cursor_owner : ℕ → Effect
  set_cursor_position : ℤ → ℤ → Effect
  inject : InputEvent → Effect

pub record World : Type 0 where
  pub doc : Option WorkspaceDoc
  pub online : ℕ → Bool
  pub pointer : Option Point

pub record Router : Type 0 where
  pub me : ℕ
  pub owner : ℕ
  pub cursor : Point
  pub pending : List InputEvent
  pub suppressing : Bool
  pub noted : Option ℕ
  pub effects : List Effect

abbrev pub drift_limit : ℤ
drift_limit = pos 80

abbrev pub add_i32 : ℤ → ℤ → ℤ
add_i32 a b = wrap (a +ℤ b)

abbrev pub sub_i32 : ℤ → ℤ → ℤ
sub_i32 a b = wrap (a -ℤ b)

abbrev shift : Option MachineRecord → Option Point → Option Point
shift none p = none
shift (some m) none = none
shift (some m) (some p) =
    some (record { x = add_i32 p.x m.position.x; y = add_i32 p.y m.position.y })

abbrev record_in : Option WorkspaceDoc → ℕ → Option MachineRecord
record_in none id = none
record_in (some doc) id = machine doc id

unfoldable pub pointer_now : World → ℕ → Option Point
pointer_now w me = shift (record_in w.doc me) w.pointer

abbrev pub or_cursor : Option Point → Point → Point
or_cursor none cursor = cursor
or_cursor (some here) cursor = here

unfoldable pub emit : Effect → Router → Router
emit e r = record r { effects = r.effects ++ e ∷ [] }

unfoldable pub flush : Router → Router
unfolding emit
flush r = elim r.pending [
  | [] ↦ record r { pending = [] }
  | e ∷ rest ↦
      if r.owner == r.me
      then record r { pending = [] }
      else emit (send_input r.owner (e ∷ rest)) (record r { pending = [] })
]

unfoldable pub owner_is_reachable : World → Router → Bool
owner_is_reachable w r = w.online r.owner

-- An announcement from another machine, if there is one.
unfoldable pub apply_announcement : World → Option ℕ → Router → Router
apply_announcement w none r = r
apply_announcement w (some owner) r =
    if owner == r.owner
    then r
    else if owner == r.me
    then record r {
      owner = owner;
      noted = some owner;
      suppressing = false;
      cursor = or_cursor (pointer_now w r.me) r.cursor;
    }
    else record r { owner = owner; noted = some owner; pending = []; suppressing = true }

unfoldable pub take_ownership : World → Router → Router
unfolding emit
take_ownership w r = emit (announce_cursor_owner r.me) (record r {
  owner = r.me;
  pending = [];
  suppressing = false;
  cursor = or_cursor (pointer_now w r.me) r.cursor;
  noted = some r.me;
})

-- The handoff: whoever receives it owns the pointer.
unfoldable pub enter : World → ℤ → ℤ → Router → Router
unfolding emit
enter w x y r =
    let owned =
      if r.owner == r.me
      then r
      else record r { owner = r.me; pending = []; suppressing = false; noted = some r.me } in
    let placed = emit (set_cursor_position x y) owned in
    record placed { cursor = or_cursor (pointer_now w r.me) placed.cursor }

-- The real pointer wins when the tracked one is further off than a nudge.
unfoldable pub resync : Option Point → Point → Point
resync none cursor = cursor
resync (some here) cursor =
    if ltb_ℤ drift_limit (wrap (abs_ℤ (sub_i32 here.x cursor.x)))
      || ltb_ℤ drift_limit (wrap (abs_ℤ (sub_i32 here.y cursor.y)))
    then here
    else cursor

abbrev place : Source → Option MachineRecord → Point → Router → Router
place local m p r = r
place remote none p r = r
place remote (some m) p r =
    emit (set_cursor_position (sub_i32 p.x m.position.x) (sub_i32 p.y m.position.y)) r

abbrev enter_event : Option MachineRecord → Point → List InputEvent
enter_event none p = []
enter_event (some m) p = cursor_enter (sub_i32 p.x m.position.x) (sub_i32 p.y m.position.y) ∷ []

unfoldable pub follow : WorkspaceDoc → Source → Resolution → Router → Router
unfolding emit flush
follow doc source (stay p) r = place source (machine doc r.me) p (record r { cursor = p })
follow doc source (move m p) r = emit (announce_cursor_owner m) (
    flush (record r {
      cursor = p;
      owner = m;
      noted = some m;
      pending = r.pending ++ enter_event (machine doc m) p;
      suppressing = true;
    }))

abbrev on_motion_in : World → Option WorkspaceDoc → ℤ → ℤ → Source → Router → Router
on_motion_in w none dx dy source r = r
on_motion_in w (some doc) dx dy source r =
    let online : ℕ → Bool = λ id. id == r.me || w.online id in
    let cursor = resync (pointer_now w r.me) r.cursor in
    let target : Point = record { x = add_i32 cursor.x dx; y = add_i32 cursor.y dy } in
    follow doc source (resolve_cursor doc online r.me target) (record r { cursor = cursor })

unfoldable pub on_motion : World → ℤ → ℤ → Source → Router → Router
unfolding resync follow
on_motion w dx dy source r = on_motion_in w w.doc dx dy source r

abbrev replay : InputEvent → Source → Router → Router
replay event local r = r
replay event remote r = emit (inject event) r

-- On the owner: motion is routed, other remote events are replayed.
unfoldable pub act : World → InputEvent → Source → Router → Router
unfolding on_motion emit
act w (mouse_move dx dy) source r = on_motion w dx dy source r
act w (cursor_enter x y) source r = r
act w event source r = replay event source r

abbrev queue : InputEvent → Source → Router → Router
queue event local r = record r { pending = r.pending ++ event ∷ [] }
queue event remote r = r

unfoldable pub dispatch : World → InputEvent → Source → Router → Router
unfolding act
dispatch w event source r =
    if not (r.owner == r.me) then queue event source r else act w event source r

unfoldable pub handle : World → InputEvent → Source → Router → Router
unfolding dispatch enter
handle w (cursor_enter x y) remote r = enter w x y r
handle w event source r = dispatch w event source r

-- Each event of a batch is handled in the world as it is by then.
unfoldable pub handle_all : List (World × InputEvent) → Router → Router
unfolding handle
handle_all [] r = r
handle_all ((w, event) ∷ events) r = handle_all events (handle w event remote r)
