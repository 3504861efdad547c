-- ===== src/Examples/Link.antt =====
-- Two machines that talk to each other, with a cipher that is a marked copy.
use inputshare.Crypto.{open_frame}
use inputshare.Crypto.{Direction}
use inputshare.Crypto.{seal}
use Prim.Native.String.{String}
use inputshare.Base.{
  inl, ℕ, ◌+◌, ◌&&◌, true, false, Option, none, some, List, [], ◌∷◌, ◌==◌, ◌≡◌, ◌≢◌, ◌⊎◌, refl,
  arith, if◌then◌else◌,
}
use inputshare.Model
use inputshare.BTreeMap.{get}
use inputshare.Store.Files.{Identity}
use inputshare.Service.{SocketAddr, Actor, new_slot}
use inputshare.Wire.{Error, ok, err, identify, protocol_version}
use inputshare.Crypto.{
  Primitives, Initiation, Hello, Session, begin, complete, transcript, new_direction,
}
use inputshare.Crypto.Agreement.{handshake_agrees, handshake_authentic}
use inputshare.Crypto.Stream.{Opens, Binds, after, IsBeginning, stream_exact}
use inputshare.Session.{Connection, run, spawn_dial, still_open}
use inputshare.Session.Order.{session_order, Untouched, Reserved, IsAdmitted, IsIdentified}
use inputshare.Session.Settled.{dial_settles, told, Settled, Rejected}
use inputshare.Agent.{Agent}
use inputshare.Examples.Desk.{desk_agent, desk_workspace}

abbrev unmark : ℕ → ℕ → List ℕ → Option (List ℕ)
unmark k n [] = none
unmark k n (a ∷ []) = none
unmark k n (a ∷ b ∷ m) = if a == k && b == n then some m else none

unmark-mark : (k n : ℕ) (m c : List ℕ) → some (k ∷ n ∷ m) ≡ some c → unmark k n c ≡ some m
unmark-mark k n m c e = ground arith

mark-unmark : (k n : ℕ) (m c : List ℕ) → unmark k n c ≡ some m → some (k ∷ n ∷ m) ≡ some c
mark-unmark k n m [] e = ground arith
mark-unmark k n m (a ∷ []) e = ground arith
mark-unmark k n m (a ∷ b ∷ c) e = ground arith

abbrev marks : Primitives
marks = record {
  public_key = λ s. s;
  sign = λ s m. s;
  verify = λ k m signature. k == signature;
  exchange_key = λ s. s;
  diffie_hellman = λ a b. a + b;
  expand = λ salt shared. some (shared, shared + 1);
  encrypt = λ k n m. some (k ∷ n ∷ m);
  decrypt = unmark;
  verify-sign = λ s m. ground arith;
  exchange_comm = λ a b. omega arith;
  decrypt-encrypt = unmark-mark;
  encrypt-decrypt = mark-unmark;
}

abbrev near : Identity
near = record { machine_id = 1; created_at_ms = 900; secret_key = 11 }

abbrev far : Identity
far = record { machine_id = 2; created_at_ms = 950; secret_key = 22 }

handshake_agrees_example :
    (s : Session) × (t : Session) × (complete marks
        (begin marks near 3 4)
        (begin marks far 5 6).hello
        true
      ≡ ok s)
    × (complete marks (begin marks far 5 6) (begin marks near 3 4).hello false ≡ ok t)
    × (s.send ≡ t.receive)
    × (s.receive ≡ t.send)
    × (s.peer_machine ≡ 2)
    × (s.peer_key ≡ 22)
    × (t.peer_machine ≡ 1)
    × (t.peer_key ≡ 11)
handshake_agrees_example = handshake_agrees marks near far 3 4 5 6 8 9 (λ e. ground arith) refl

abbrev greeting : Hello
greeting = record {
  protocol = protocol_version;
  machine_id = 2;
  identity_key = 22;
  ephemeral = 5;
  nonce = 6;
  signature = 22;
}

abbrev opening : Initiation
opening = record {
  hello = record greeting { machine_id = 1; identity_key = 11 };
  secret = 3;
  nonce = 4;
}

abbrev agreed : Session
agreed = record {
  peer_machine = 2;
  peer_key = 22;
  send = new_direction 8;
  receive = new_direction 9;
}

handshake_authentic_example :
    (greeting.protocol ≡ protocol_version)
    × (agreed.peer_machine ≢ opening.hello.machine_id)
    × (marks.verify agreed.peer_key
          (transcript agreed.peer_machine greeting.ephemeral greeting.nonce)
          greeting.signature
        ≡ true)
unfolding complete
handshake_authentic_example = handshake_authentic marks opening greeting true agreed refl

unmark_binds : Binds marks
unmark_binds k n j [] m h apart = ground arith
unmark_binds k n j (a ∷ []) m h apart = ground arith
unmark_binds k n j (a ∷ b ∷ c) m h apart = ground arith

abbrev ended : Direction
ended = record { key = 8; counter = 2 }

stream_exact_example :
    Opens marks
      ((8 ∷ 0 ∷ 1 ∷ []) ∷ (8 ∷ 1 ∷ 2 ∷ []) ∷ [])
      (new_direction 8)
      ((1 ∷ []) ∷ (2 ∷ []) ∷ [])
      ended
    × (ended ≡ after marks 2 (new_direction 8))
    × IsBeginning marks
        ((1 ∷ []) ∷ (2 ∷ []) ∷ [])
        ((8 ∷ 0 ∷ 1 ∷ []) ∷ (8 ∷ 1 ∷ 2 ∷ []) ∷ [])
        ((1 ∷ []) ∷ [])
        ((8 ∷ 0 ∷ 1 ∷ []) ∷ [])
        (new_direction 8)
        (record { key = 8; counter = 1 })
unfolding seal open_frame new_direction
stream_exact_example =
    stream_exact marks ((1 ∷ []) ∷ (2 ∷ []) ∷ []) ((8 ∷ 0 ∷ 1 ∷ []) ∷ (8 ∷ 1 ∷ 2 ∷ []) ∷ [])
      ((8 ∷ 0 ∷ 1 ∷ []) ∷ []) ((1 ∷ []) ∷ []) (new_direction 8) ended
      (record { key = 8; counter = 1 }) unmark_binds (omega arith) (refl, (refl, refl))
      (inl refl, tt) (refl, refl)

abbrev addr : SocketAddr
addr = record { ip = 5; port = 47452 }

-- The laptop, in the workspace of the desk; it falls silent after its first words.
abbrev link : Connection Agent
link = record {
  addr = addr;
  handshake = ok (2, 22);
  expect = some 2;
  identify_sent = true;
  first = record { meanwhile = λ a. a; received = ok (identify "laptop" (some 7) 2) };
  doc_sent = true;
  queue = 1;
  arrivals = record { meanwhile = λ a. a; received = err Error.timeout } ∷ [];
}

abbrev explain : Error → String
explain e = "the connection failed"

abbrev explain_core : Model.Error → String
explain_core e = "another workspace"

session_order_example :
    (let p = run desk_workspace explain explain_core link desk_agent in
      (Untouched desk_workspace explain explain_core p
        ⊎ ((id : ℕ) × (key : ℕ) × IsAdmitted desk_workspace explain explain_core link desk_agent id
              key))
      × (Reserved desk_workspace explain explain_core p
          ⊎ IsIdentified desk_workspace explain explain_core link desk_agent))
session_order_example = session_order desk_workspace explain explain_core link desk_agent

abbrev actor : Actor
actor = record {
  me = 1;
  peers = (2, new_slot "laptop" 0) ∷ [];
  events = [];
  dials = [];
  replies = [];
  sent = [];
}

dial_settles_example :
    (let p = spawn_dial desk_workspace explain explain_core 2 (ok link) desk_agent in
      (p.ending ≡ still_open) ⊎ (Rejected 2 p.reports ⊎ Settled 2 (told 50 p.reports actor)))
unfolding get
dial_settles_example =
    dial_settles desk_workspace explain explain_core 2 (ok link) desk_agent 50 actor
      (new_slot "laptop" 0) refl
