-- ===== src/Examples/Peers.antt =====
-- The peers of the desk, with the laptop known to it.
use inputshare.Base.{ℕ, ◌≡◌, refl, true, false, none, some, List, [], ◌∷◌}
use inputshare.BTreeMap.{get}
use inputshare.Service.{PeerSlot, SocketAddr, Actor, Status, SessionOutcome}
use inputshare.Service.Loop.{Internal, Moment, run, session, tick, rescan}
use inputshare.Service.Queues.{IsSound, SlotSound, queues-IsSound}
use inputshare.Service.Stuck.{status_of, connecting_stays}

abbrev laptop_addr : SocketAddr
laptop_addr = record { ip = 9; port = 47452 }

abbrev heard : PeerSlot
heard = record {
  display_name = "laptop";
  addr = some laptop_addr;
  last_workspace = some (some 7);
  last_seen = some 1000;
  status = Status.offline;
  outbound = none;
  attempts = 0;
  next_attempt = 1000;
}

abbrev with_laptop : PeerSlot → Actor
with_laptop slot = record {
  me = 1;
  peers = (2, slot) ∷ [];
  events = [];
  dials = [];
  replies = [];
  sent = [];
}

abbrev at : ℕ → Moment
at now = record { now = now; authorize = λ id key. true; accepts = λ id. false }

-- The laptop is dialled and turned away, and the user asks for another try.
abbrev refusal : List (Moment × Internal)
refusal =
    (at 2000, session (SessionOutcome.rejected 2 33 laptop_addr))
    ∷ (at 3000, rescan)
    ∷ (at 4000, tick)
    ∷ []

queues-IsSound_example : IsSound (run refusal (with_laptop heard))
unfolding IsSound SlotSound
queues-IsSound_example = queues-IsSound refusal (with_laptop heard) (refl, tt)

connecting_stays_example :
    status_of
      (get (run refusal (with_laptop (record heard { status = Status.connecting }))).peers 2)
    ≡ some Status.connecting
unfolding get
connecting_stays_example =
    connecting_stays refusal (with_laptop (record heard { status = Status.connecting })) 2
      (refl, (refl, (refl, tt))) refl
