-- ===== src/Service/Queues.antt =====
-- Which slots have a queue, through every message.
use inputshare.Base.{
  ℕ, Bool, ◌≡◌, refl, Option, none, some, List, [], ◌∷◌, ◌==◌, arith, Bool-cases, inl, inr,
}
use inputshare.BTreeMap.{BTreeMap, get, insert, All}
use inputshare.BTreeMap.Laws.{All-insert, All-get}
use Prim.Native.String.{String}
use inputshare.Service.{
  SocketAddr, slot_or, new_slot, established, closed, SessionOutcome, PeerSlot, change, map_slots,
  Status, Actor,
}
use inputshare.Wire.{Announcement}
use inputshare.Service.Handlers.{refuse_slot, close_slot, sight, on_sighting, on_session}
use inputshare.Service.Delivery.{on_announce_owner, on_send_input, on_broadcast, queue_update}
use inputshare.Service.Dialling.{on_tick, on_rescan, tick_slot, rescan_slot}
use inputshare.Service.Loop.{
  sighting, session, broadcast, send_input, announce_cursor_owner, rescan, tick, shutdown, ends,
  react, run, Internal, Moment,
}

-- A slot with a queue is online.
abbrev pub HasQueue : Status → Option ℕ → Type 0
HasQueue Status.online queue = Unit
HasQueue Status.connecting queue = queue ≡ none
HasQueue Status.offline queue = queue ≡ none

unfoldable pub SlotSound : ℕ → PeerSlot → Type 0
SlotSound id slot = HasQueue slot.status slot.outbound

unfoldable pub IsSound : Actor → Type 0
IsSound a = All SlotSound a.peers

All-map :
    (f : ℕ → PeerSlot → PeerSlot) (m : BTreeMap PeerSlot)
    → ((id : ℕ) (slot : PeerSlot) → SlotSound id slot → SlotSound id (f id slot))
    → All SlotSound m
    → All SlotSound (map_slots f m)
unfolding map_slots
All-map f [] h a = tt
All-map f ((id, slot) ∷ m) h a = (h id slot a.0, All-map f m h a.1)

queue-Sound :
    (accepts : ℕ → Bool) (id : ℕ) (slot : PeerSlot)
    → SlotSound id slot
    → SlotSound id (queue_update accepts id slot)
unfolding SlotSound queue_update
queue-Sound accepts id slot h = ground arith

tick-Sound :
    (me now id : ℕ) (slot : PeerSlot) → SlotSound id slot → SlotSound id (tick_slot me now id slot)
unfolding SlotSound tick_slot
tick-Sound me now id slot h = ground arith

rescan-Sound :
    (now id : ℕ) (slot : PeerSlot) → SlotSound id slot → SlotSound id (rescan_slot now id slot)
unfolding SlotSound rescan_slot
rescan-Sound now id slot h = ground arith

change_with :
    (f : PeerSlot → PeerSlot) (id : ℕ) (m : BTreeMap PeerSlot) (o : Option PeerSlot)
    → get m id ≡ o
    → ((slot : PeerSlot) → SlotSound id slot → SlotSound id (f slot))
    → All SlotSound m
    → All SlotSound (elim o [ none ↦ m | some slot ↦ insert m id (f slot) ])
change_with f id m none e h a = a
change_with f id m (some slot) e h a =
    All-insert SlotSound m id (f slot) (h slot (All-get SlotSound m id slot a e)) a

change-Sound :
    (f : PeerSlot → PeerSlot) (id : ℕ) (m : BTreeMap PeerSlot)
    → ((slot : PeerSlot) → SlotSound id slot → SlotSound id (f slot))
    → All SlotSound m
    → All SlotSound (change f id m)
unfolding change
change-Sound f id m = change_with f id m (get m id) refl

slot_or-Sound :
    (n : Announcement) (addr : SocketAddr) (now : ℕ) (id : ℕ) (name : String)
    (m : BTreeMap PeerSlot) (o : Option PeerSlot)
    → get m id ≡ o
    → All SlotSound m
    → SlotSound id (sight n addr now (slot_or o (new_slot name now)))
unfolding SlotSound sight new_slot
slot_or-Sound n addr now id name m none e h = refl
slot_or-Sound n addr now id name m (some slot) e h = All-get SlotSound m id slot h e

sighting-Sound :
    (authorize : ℕ → ℕ → Bool) (now : ℕ) (n : Announcement) (ip : ℕ) (a : Actor)
    → IsSound a
    → IsSound (on_sighting authorize now n ip a)
unfolding on_sighting IsSound
sighting-Sound authorize now n ip a h =
    let addr : SocketAddr = record { ip = ip; port = n.transport_port } in
    let known =
      slot_or-Sound n addr now n.machine_id n.display_name a.peers (get a.peers n.machine_id) refl
        h in
    let after = All-insert SlotSound a.peers n.machine_id _ known h in
    elim (Bool-cases (n.machine_id == a.me)) [
      | inl mine ↦ rw mine h
      | inr other ↦ elim (Bool-cases (authorize n.machine_id n.identity_key)) [
        | inl admitted ↦ rw (other, admitted) after
        | inr refused ↦ rw (other, refused) h
      ]
    ]

session-Sound :
    (now : ℕ) (outcome : SessionOutcome) (a : Actor)
    → IsSound a
    → IsSound (on_session now outcome a)
unfolding on_session IsSound SlotSound
session-Sound now (established id name queue) a h = All-insert SlotSound a.peers id _ tt h
session-Sound now (closed id reason) a h =
    change-Sound (close_slot now) id a.peers (λ slot s. refl) h
session-Sound now (SessionOutcome.rejected id key addr) a h = h
session-Sound now (SessionOutcome.different_workspaces id name key theirs size) a h =
    change-Sound (refuse_slot now) id a.peers (λ slot s. refl) h
session-Sound now SessionOutcome.workspace_changed a h = h

react-Sound :
    (w : Moment) (message : Internal) (a : Actor) → IsSound a → IsSound (react w message a)
unfolding react IsSound on_broadcast on_send_input on_announce_owner on_rescan on_tick
react-Sound w (sighting n ip) a h = sighting-Sound w.authorize w.now n ip a h
react-Sound w (session outcome) a h = session-Sound w.now outcome a h
react-Sound w (broadcast u) a h = All-map _ a.peers (queue-Sound w.accepts) h
react-Sound w (send_input to events) a h = change-Sound _ to a.peers (queue-Sound w.accepts to) h
react-Sound w (announce_cursor_owner id) a h = h
react-Sound w rescan a h = All-map _ a.peers (rescan-Sound w.now) h
react-Sound w tick a h = All-map _ a.peers (tick-Sound a.me w.now) h
react-Sound w shutdown a h = h

-- From an actor in which this holds, and however the messages of the mailbox follow each other, a
-- slot that has the queue to a session is online: a machine that is offline or being dialled has
-- none.
pub queues-IsSound : (log : List (Moment × Internal)) (a : Actor) → IsSound a → IsSound (run log a)
unfolding run
queues-IsSound [] a h = h
queues-IsSound ((w, message) ∷ rest) a h = elim (Bool-cases (ends message)) [
  | inl e ↦ rw e h
  | inr e ↦ rw e (queues-IsSound rest (react w message a) (react-Sound w message a h))
]
