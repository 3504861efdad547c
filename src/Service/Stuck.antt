-- ===== src/Service/Stuck.antt =====
-- What the outcome of a session does to the slot of its machine, and what leaves a slot as it is.
use inputshare.Base.{
  ◌+◌, ap, ℕ, Bool, false, ◌≡◌, refl, Option, none, some, List, [], ◌∷◌, ◌==◌, arith, Bool-cases,
  inl, inr, Each, ==_iff,
}
use Prim.Native.String.{String}
use inputshare.BTreeMap.{BTreeMap, get, insert}
use inputshare.BTreeMap.Laws.{get-insert}
use inputshare.Service.{
  PeerSlot, change, map_slots, Status, Actor, SocketAddr, SessionOutcome, established, closed,
  slot_or, new_slot,
}
use inputshare.Wire.{Announcement}
use inputshare.Service.Laws.{get-change, get-map_slots, map_option}
use inputshare.Service.Handlers.{on_sighting, on_session, sight, open_slot, close_slot, refuse_slot}
use inputshare.Service.Delivery.{queue_update, on_broadcast, on_send_input, on_announce_owner}
use inputshare.Service.Dialling.{tick_slot, rescan_slot, on_tick, on_rescan}
use inputshare.Service.Loop.{
  react, run, Internal, Moment, sighting, session, broadcast, send_input, announce_cursor_owner,
  rescan, tick, shutdown, ends,
}

abbrev pub status_of : Option PeerSlot → Option Status
status_of none = none
status_of (some slot) = some slot.status

-- An outcome that changes the slot of `id`.
abbrev pub concerns : ℕ → SessionOutcome → Bool
concerns id (established other name queue) = other == id
concerns id (closed other reason) = other == id
concerns id (SessionOutcome.rejected other key addr) = false
concerns id (SessionOutcome.different_workspaces other name key theirs size) = other == id
concerns id SessionOutcome.workspace_changed = false

abbrev pub settles : ℕ → Internal → Bool
settles id (session outcome) = concerns id outcome
settles id _ = false

keeps :
    (f : PeerSlot → PeerSlot) (o : Option PeerSlot)
    → ((slot : PeerSlot) → slot.status ≡ Status.connecting → (f slot).status ≡ Status.connecting)
    → status_of o ≡ some Status.connecting
    → status_of (map_option f o) ≡ some Status.connecting
keeps f none h c = c
keeps f (some slot) h c = ap some (h slot (ground (arith, c)))

queue_keeps :
    (accepts : ℕ → Bool) (id : ℕ) (slot : PeerSlot)
    → slot.status ≡ Status.connecting
    → (queue_update accepts id slot).status ≡ Status.connecting
unfolding queue_update
queue_keeps accepts id slot h = ground arith

tick_keeps :
    (me now id : ℕ) (slot : PeerSlot)
    → slot.status ≡ Status.connecting
    → (tick_slot me now id slot).status ≡ Status.connecting
unfolding tick_slot
tick_keeps me now id slot h = ground arith

rescan_keeps :
    (now id : ℕ) (slot : PeerSlot)
    → slot.status ≡ Status.connecting
    → (rescan_slot now id slot).status ≡ Status.connecting
unfolding rescan_slot
rescan_keeps now id slot h = ground arith

sight_keeps :
    (n : Announcement) (addr : SocketAddr) (now : ℕ) (name : String) (o : Option PeerSlot)
    → status_of o ≡ some Status.connecting
    → status_of (some (sight n addr now (slot_or o (new_slot name now)))) ≡ some Status.connecting
unfolding sight
sight_keeps n addr now name none h = ground arith
sight_keeps n addr now name (some slot) h = h

sighted_keeps :
    (n : Announcement) (addr : SocketAddr) (now : ℕ) (name : String) (m : BTreeMap PeerSlot)
    (id j : ℕ)
    → status_of (get m id) ≡ some Status.connecting
    → status_of (get (insert m j (sight n addr now (slot_or (get m j) (new_slot name now)))) id)
      ≡ some Status.connecting
sighted_keeps n addr now name m id j h = elim (Bool-cases (j == id)) [
  | inl e ↦
      rw
        (
          get-insert m j (sight n addr now (slot_or (get m j) (new_slot name now))) id,
          e,
          (==_iff j id).0 e,
        )
        (sight_keeps n addr now name (get m id) h)
  | inr e ↦ rw (get-insert m j (sight n addr now (slot_or (get m j) (new_slot name now))) id, e) h
]

other_kept :
    (f : PeerSlot → PeerSlot) (m : BTreeMap PeerSlot) (id j : ℕ)
    → (j == id) ≡ false
    → get (change f j m) id ≡ get m id
other_kept f m id j h = rw (get-change f j m id, h) refl

change_keeps :
    (f : PeerSlot → PeerSlot) (m : BTreeMap PeerSlot) (id j : ℕ)
    → ((slot : PeerSlot) → slot.status ≡ Status.connecting → (f slot).status ≡ Status.connecting)
    → status_of (get m id) ≡ some Status.connecting
    → status_of (get (change f j m) id) ≡ some Status.connecting
change_keeps f m id j k h =
    rw (get-change f j m id)
      (elim (Bool-cases (j == id)) [ inl e ↦ rw e (keeps f (get m id) k h) | inr e ↦ rw e h ])

map_keeps :
    (f : ℕ → PeerSlot → PeerSlot) (m : BTreeMap PeerSlot) (id : ℕ)
    → ((slot : PeerSlot) → slot.status ≡ Status.connecting → (f id slot).status ≡ Status.connecting)
    → status_of (get m id) ≡ some Status.connecting
    → status_of (get (map_slots f m) id) ≡ some Status.connecting
map_keeps f m id k h = rw (get-map_slots f m id) (keeps (f id) (get m id) k h)

sighting_keeps :
    (authorize : ℕ → ℕ → Bool) (now : ℕ) (n : Announcement) (ip : ℕ) (a : Actor) (id : ℕ)
    → status_of (get a.peers id) ≡ some Status.connecting
    → status_of (get (on_sighting authorize now n ip a).peers id) ≡ some Status.connecting
unfolding on_sighting
sighting_keeps authorize now n ip a id h = elim (Bool-cases (n.machine_id == a.me)) [
  | inl mine ↦ rw mine h
  | inr other ↦ elim (Bool-cases (authorize n.machine_id n.identity_key)) [
    | inl admitted ↦
        rw (other, admitted)
          (sighted_keeps n (record { ip = ip; port = n.transport_port }) now n.display_name a.peers
            id n.machine_id h)
    | inr refused ↦ rw (other, refused) h
  ]
]

session_keeps :
    (now : ℕ) (outcome : SessionOutcome) (a : Actor) (id : ℕ)
    → concerns id outcome ≡ false
    → status_of (get a.peers id) ≡ some Status.connecting
    → status_of (get (on_session now outcome a).peers id) ≡ some Status.connecting
unfolding on_session
session_keeps now (established j name queue) a id c h =
    rw
      (
        get-insert a.peers j
            (open_slot name queue now (slot_or (get a.peers j) (new_slot name now))) id,
        c,
      )
      h
session_keeps now (closed j reason) a id c h = rw (other_kept (close_slot now) a.peers id j c) h
session_keeps now (SessionOutcome.rejected j key addr) a id c h = h
session_keeps now (SessionOutcome.different_workspaces j name key theirs size) a id c h =
    rw (other_kept (refuse_slot now) a.peers id j c) h
session_keeps now SessionOutcome.workspace_changed a id c h = h

react_keeps :
    (w : Moment) (message : Internal) (a : Actor) (id : ℕ)
    → settles id message ≡ false
    → status_of (get a.peers id) ≡ some Status.connecting
    → status_of (get (react w message a).peers id) ≡ some Status.connecting
unfolding react on_broadcast on_send_input on_announce_owner on_rescan on_tick
react_keeps w (sighting n ip) a id c h = sighting_keeps w.authorize w.now n ip a id h
react_keeps w (session outcome) a id c h = session_keeps w.now outcome a id c h
react_keeps w (broadcast u) a id c h =
    map_keeps (queue_update w.accepts) a.peers id (queue_keeps w.accepts id) h
react_keeps w (send_input to events) a id c h =
    change_keeps (queue_update w.accepts to) a.peers id to (queue_keeps w.accepts to) h
react_keeps w (announce_cursor_owner j) a id c h = h
react_keeps w rescan a id c h = map_keeps (rescan_slot w.now) a.peers id (rescan_keeps w.now id) h
react_keeps w tick a id c h =
    map_keeps (tick_slot a.me w.now) a.peers id (tick_keeps a.me w.now id) h
react_keeps w shutdown a id c h = h

-- A machine that is being dialled stays so through any messages except an established or closed
-- session of its own, or one with another workspace: sightings, ticks, rescans and a session that
-- is rejected do not make it offline, the state from which alone it is dialled.
pub connecting_stays :
    (log : List (Moment × Internal)) (a : Actor) (id : ℕ)
    → Each (λ e. settles id e.1 ≡ false) log
    → status_of (get a.peers id) ≡ some Status.connecting
    → status_of (get (run log a).peers id) ≡ some Status.connecting
unfolding run
connecting_stays [] a id c h = h
connecting_stays ((w, message) ∷ rest) a id c h = elim (Bool-cases (ends message)) [
  | inl e ↦ rw e h
  | inr e ↦
      rw e (connecting_stays rest (react w message a) id c.1 (react_keeps w message a id c.0 h))
]

-- The end of a session closes its machine's slot whichever session the slot holds: when a second
-- session of a machine is established and then the first one closes, the machine is offline and the
-- queue to the second session is dropped, and the next attempt waits two seconds.
pub late_close :
    (now later : ℕ) (id queue : ℕ) (name reason : String) (a : Actor)
    → (let b = on_session later (closed id reason) (on_session now (established id name queue) a) in
        (slot : PeerSlot) × (get b.peers id ≡ some slot)
        × (slot.status ≡ Status.offline)
        × (slot.outbound ≡ none)
        × (slot.attempts ≡ 1)
        × (slot.next_attempt ≡ later + 2000))
unfolding on_session open_slot close_slot
late_close now later id queue name reason a =
    let slot = open_slot name queue now (slot_or (get a.peers id) (new_slot name now)) in
    (
      close_slot later slot,
      rw
          (
            get-change (close_slot later) id (insert a.peers id slot) id,
            get-insert a.peers id slot id,
          )
          ground arith,
      refl,
      refl,
      refl,
      ground arith,
    )
