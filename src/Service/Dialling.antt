-- ===== src/Service/Dialling.antt =====
-- crates/is-net/src/service.rs: the timer, and a rescan.
use inputshare.Base.{
  ℕ, Bool, true, false, not, ◌&&◌, Option, none, some, List, [], ◌∷◌, ◌++◌, ltb, leb, if◌then◌else◌,
}
use inputshare.Service.{
  BTreeMap, SocketAddr, Event, Status, PeerSlot, Actor, is_offline, fresh, map_slots,
}

unfoldable pub rescan_slot : ℕ → ℕ → PeerSlot → PeerSlot
rescan_slot now id slot =
    if is_offline slot.status then record slot { attempts = 0; next_attempt = now } else slot

unfoldable pub on_rescan : ℕ → Actor → Actor
unfolding map_slots rescan_slot
on_rescan now a = record a { peers = map_slots (rescan_slot now) a.peers }

-- The test of the dialling loop.
unfoldable pub due : ℕ → ℕ → ℕ → PeerSlot → Bool
unfolding fresh
due me now id slot =
    is_offline slot.status && ltb me id && fresh slot now && leb slot.next_attempt now

abbrev pub dial_at : Bool → ℕ → Option SocketAddr → List (ℕ × SocketAddr)
dial_at false id addr = []
dial_at true id none = []
dial_at true id (some addr) = (id, addr) ∷ []

unfoldable pub dials_due : ℕ → ℕ → BTreeMap PeerSlot → List (ℕ × SocketAddr)
unfolding due
dials_due me now [] = []
dials_due me now ((id, slot) ∷ rest) =
    dial_at (due me now id slot) id slot.addr ++ dials_due me now rest

abbrev is_some : Option SocketAddr → Bool
is_some none = false
is_some (some addr) = true

-- A slot after a tick: connecting if it is dialled, without its address if that has expired.
unfoldable pub tick_slot : ℕ → ℕ → ℕ → PeerSlot → PeerSlot
unfolding due fresh
tick_slot me now id slot =
    if due me now id slot && is_some slot.addr
    then record slot { status = Status.connecting }
    else if is_offline slot.status && not (fresh slot now)
    then record slot { addr = none }
    else slot

abbrev connecting_events : List (ℕ × SocketAddr) → List Event
connecting_events [] = []
connecting_events ((id, addr) ∷ rest) = Event.connecting id ∷ connecting_events rest

unfoldable pub on_tick : ℕ → Actor → Actor
unfolding dials_due map_slots tick_slot
on_tick now a =
    let dials = dials_due a.me now a.peers in
    record a {
      peers = map_slots (tick_slot a.me now) a.peers;
      events = a.events ++ connecting_events dials;
      dials = a.dials ++ dials;
    }
