-- ===== src/Service/Delivery.antt =====
-- crates/is-net/src/service.rs: what is queued for the connected peers.
use inputshare.Base.{ℕ, Bool, Option, none, some, List, [], ◌∷◌, ◌++◌, if◌then◌else◌}
use inputshare.Model.{WorkspaceUpdate}
use inputshare.Sharing.{InputEvent}
use inputshare.Service.{BTreeMap, get, PeerSlot, Actor, change, map_slots}
use inputshare.Wire.{Message, update, input, cursor_owner}

-- Every connected peer gets the update; one whose queue is full loses its connection instead.
unfoldable pub queue_update : (ℕ → Bool) → ℕ → PeerSlot → PeerSlot
queue_update accepts id slot = elim slot.outbound [
  | none ↦ slot
  | some session ↦ if accepts session then slot else record slot { outbound = none }
]

abbrev delivery : (ℕ → Bool) → ℕ → Message → Option ℕ → List (ℕ × Message)
delivery accepts id m none = []
delivery accepts id m (some session) = if accepts session then (id, m) ∷ [] else []

unfoldable pub deliveries : (ℕ → Bool) → Message → BTreeMap PeerSlot → List (ℕ × Message)
deliveries accepts m [] = []
deliveries accepts m ((id, slot) ∷ rest) =
    delivery accepts id m slot.outbound ++ deliveries accepts m rest

unfoldable pub on_broadcast : (ℕ → Bool) → WorkspaceUpdate → Actor → Actor
unfolding map_slots queue_update deliveries
on_broadcast accepts u a = record a {
  peers = map_slots (queue_update accepts) a.peers;
  sent = a.sent ++ deliveries accepts (update u) a.peers;
}

unfoldable pub on_announce_owner : (ℕ → Bool) → ℕ → Actor → Actor
unfolding deliveries
on_announce_owner accepts id a = record a {
  sent = a.sent ++ deliveries accepts (cursor_owner id) a.peers;
}

abbrev outbound_of : Option PeerSlot → Option ℕ
outbound_of none = none
outbound_of (some slot) = slot.outbound

unfoldable pub on_send_input : (ℕ → Bool) → ℕ → List InputEvent → Actor → Actor
unfolding change queue_update
on_send_input accepts to events a = record a {
  peers = change (queue_update accepts to) to a.peers;
  sent = a.sent ++ delivery accepts to (input events) (outbound_of (get a.peers to));
}
