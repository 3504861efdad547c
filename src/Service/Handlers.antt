-- ===== src/Service/Handlers.antt =====
-- crates/is-net/src/service.rs: a sighting of a machine, and what a session reports.
use inputshare.Base.{
  List, ℕ, ◌+◌, ◌*◌, ◌^◌, min, max, String, Bool, true, false, not, ◌||◌, Option, none, some, [],
  ◌∷◌, ◌++◌, ◌==◌, if◌then◌else◌,
}
use inputshare.Model.{WorkspaceDoc, MachineRecord}
use inputshare.Model.Query.{machine}
use inputshare.Service.{
  get, insert, SocketAddr, Event, SessionOutcome, established, closed, Status, PeerSlot, Actor,
  new_slot, fresh, emit, contains, slot_or, change,
}
use inputshare.Wire.{Announcement}

-- `2u32.saturating_pow` of at most 5 does not saturate.
unfoldable pub backoff : ℕ → ℕ
backoff attempts = min (1000 * 2 ^ min attempts 5) 30000

abbrev pub u32_max : ℕ
u32_max = 4294967295

abbrev same_id : Option ℕ → Option ℕ → Bool
same_id none none = true
same_id (some a) (some b) = a == b
same_id _ _ = false

abbrev moved : Option (Option ℕ) → Option ℕ → Bool
moved none announced = false
moved (some seen) announced = not (same_id seen announced)

-- The slot after a sighting of a machine that is admitted.
unfoldable pub sight : Announcement → SocketAddr → ℕ → PeerSlot → PeerSlot
unfolding fresh
sight n addr now slot =
    let retry = not (fresh slot now) || moved slot.last_workspace n.workspace_id in
    record slot {
      display_name = n.display_name;
      addr = some addr;
      last_workspace = some n.workspace_id;
      last_seen = some now;
      attempts = (if retry then 0 else slot.attempts);
      next_attempt = (if retry then now else slot.next_attempt);
    }

abbrev reply : Bool → ℕ → List ℕ
reply false ip = []
reply true ip = ip ∷ []

unfoldable pub on_sighting : (ℕ → ℕ → Bool) → ℕ → Announcement → ℕ → Actor → Actor
unfolding emit sight new_slot contains
on_sighting authorize now n ip a =
    let addr : SocketAddr = record { ip = ip; port = n.transport_port } in
    let asked : Actor = record a { replies = a.replies ++ reply n.probe ip } in
    if n.machine_id == a.me
    then a
    else if not (authorize n.machine_id n.identity_key)
    then emit
        (Event.candidate n.machine_id n.display_name n.identity_key n.workspace_id addr
          (contains n.invitations a.me))
        asked
    else emit (Event.sighted n.machine_id) (record asked {
      peers =
          insert a.peers n.machine_id
            (sight n addr now (slot_or (get a.peers n.machine_id) (new_slot n.display_name now)));
    })

-- The slot after a session of it has ended.
unfoldable pub close_slot : ℕ → PeerSlot → PeerSlot
unfolding backoff
close_slot now slot =
    let attempts = min (slot.attempts + 1) u32_max in
    record slot {
      status = Status.offline;
      outbound = none;
      attempts = attempts;
      next_attempt = now + backoff attempts;
    }

unfoldable pub refuse_slot : ℕ → PeerSlot → PeerSlot
refuse_slot now slot = record slot {
  status = Status.offline;
  outbound = none;
  attempts = max slot.attempts 5;
  next_attempt = now + 30000;
}

unfoldable pub open_slot : String → ℕ → ℕ → PeerSlot → PeerSlot
open_slot name session now slot = record slot {
  display_name = name;
  status = Status.online;
  outbound = some session;
  attempts = 0;
  last_seen = some now;
}

unfoldable pub on_session : ℕ → SessionOutcome → Actor → Actor
unfolding emit new_slot open_slot close_slot refuse_slot change
on_session now (established id name session) a = emit (Event.online id) (record a {
  peers =
      insert a.peers id (open_slot name session now (slot_or (get a.peers id) (new_slot name now)));
})
on_session now (closed id reason) a =
    emit (Event.offline id reason) (record a { peers = change (close_slot now) id a.peers })
on_session now (SessionOutcome.rejected id key addr) a = emit (Event.rejected id key addr) a
on_session now (SessionOutcome.different_workspaces id name key theirs size) a =
    emit (Event.different_workspaces id name key theirs size)
      (record a { peers = change (refuse_slot now) id a.peers })
on_session now SessionOutcome.workspace_changed a = emit Event.workspace_changed a

-- `Workspace::authorize` as the trait gives it: a member, with the key of its pairing.
abbrev paired : Option MachineRecord → ℕ → Bool
paired none key = false
paired (some m) key = m.public_key == key

abbrev paired_in : Option WorkspaceDoc → ℕ → ℕ → Bool
paired_in none id key = false
paired_in (some doc) id key = paired (machine doc id) key

unfoldable pub authorize : Option WorkspaceDoc → ℕ → ℕ → Bool
authorize snapshot id key = paired_in snapshot id key
