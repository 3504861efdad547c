-- ===== src/Crypto/Agreement.antt =====
-- The two ends of a connection after the handshake.
use inputshare.Base.{
  ℕ, Bool, true, false, some, none, Option, ◌==◌, ◌≡◌, ◌≢◌, refl, sym, if◌then◌else◌, arith,
  Bool-cases, inl, inr, ==_iff,
}
use inputshare.Store.Files.{Identity}
use inputshare.Wire.{protocol_version, ok}
use inputshare.Crypto.{
  Primitives, Hello, Initiation, Session, transcript, new_direction, verify, begin, complete,
  keys_of,
}

module _ (lib : Primitives) where
  begin-verify :
      (identity : Identity) (secret nonce : ℕ)
      → verify lib (begin lib identity secret nonce).hello ≡ true
  unfolding verify begin
  begin-verify identity secret nonce =
      lib.verify-sign identity.secret_key
        (transcript identity.machine_id (lib.exchange_key secret) nonce)

  complete_keys :
      (self : Initiation) (peer : Hello) (dialled : Bool) (o : Option (ℕ × ℕ))
      → verify lib peer ≡ true
      → peer.machine_id ≢ self.hello.machine_id
      → lib.expand
          (if dialled then (self.nonce, peer.nonce) else (peer.nonce, self.nonce))
          (lib.diffie_hellman self.secret peer.ephemeral)
        ≡ o
      → complete lib self peer dialled ≡ keys_of lib peer dialled o
  unfolding complete
  complete_keys self peer dialled o v other e =
      rw (v, e)
        (elim (Bool-cases (peer.machine_id == self.hello.machine_id)) [
          | inl same ↦ absurd (other ((==_iff peer.machine_id self.hello.machine_id).0 same))
          | inr differs ↦ rw differs refl
        ])

  -- Two machines with different ids that each use the other's hello, one as the side that dialled, both
  -- complete the handshake if the keys can be derived. Each learns the other's id and key, and what the
  -- one sends with is what the other receives with, in both directions.
  pub handshake_agrees :
      (a b : Identity) (sa na sb nb first second : ℕ)
      → a.machine_id ≢ b.machine_id
      → lib.expand (na, nb) (lib.diffie_hellman sa (lib.exchange_key sb)) ≡ some (first, second)
      → (let i = begin lib a sa na in
          let j = begin lib b sb nb in
          (s : Session) × (t : Session) × (complete lib i j.hello true ≡ ok s)
          × (complete lib j i.hello false ≡ ok t)
          × (s.send ≡ t.receive)
          × (s.receive ≡ t.send)
          × (s.peer_machine ≡ b.machine_id)
          × (s.peer_key ≡ lib.public_key b.secret_key)
          × (t.peer_machine ≡ a.machine_id)
          × (t.peer_key ≡ lib.public_key a.secret_key))
  unfolding begin
  handshake_agrees a b sa na sb nb first second other keys =
      let i = begin lib a sa na in
      let j = begin lib b sb nb in
      (
        record {
          peer_machine = b.machine_id;
          peer_key = lib.public_key b.secret_key;
          send = new_direction first;
          receive = new_direction second;
        },
        record {
          peer_machine = a.machine_id;
          peer_key = lib.public_key a.secret_key;
          send = new_direction second;
          receive = new_direction first;
        },
        complete_keys i j.hello true (some (first, second)) (begin-verify b sb nb)
            (λ e. other (sym e)) keys,
        complete_keys j i.hello false (some (first, second)) (begin-verify a sa na) other
            (rw (lib.exchange_comm sb sa) keys),
        refl,
        refl,
        refl,
        refl,
        refl,
        refl,
      )

  keys_of-peer :
      (peer : Hello) (dialled : Bool) (o : Option (ℕ × ℕ)) (s : Session)
      → keys_of lib peer dialled o ≡ ok s
      → (s.peer_machine ≡ peer.machine_id) × (s.peer_key ≡ peer.identity_key)
  keys_of-peer peer dialled none s h = cc
  keys_of-peer peer dialled (some keys) s h = ground (arith, h)

  verified :
      (h : Hello)
      → verify lib h ≡ true
      → (h.protocol ≡ protocol_version)
        × (lib.verify h.identity_key (transcript h.machine_id h.ephemeral h.nonce) h.signature
            ≡ true)
  unfolding verify
  verified h v = ground (arith, v)

  complete_checks :
      (self : Initiation) (peer : Hello) (dialled : Bool) (s : Session)
      → complete lib self peer dialled ≡ ok s
      → (verify lib peer ≡ true)
        × (peer.machine_id ≢ self.hello.machine_id)
        × (keys_of lib peer dialled (
              lib.expand
                (if dialled then (self.nonce, peer.nonce) else (peer.nonce, self.nonce))
                (lib.diffie_hellman self.secret peer.ephemeral))
            ≡ ok s)
  unfolding complete
  complete_checks self peer dialled s h = elim (Bool-cases (verify lib peer)) [
    | inl v ↦ elim (Bool-cases (peer.machine_id == self.hello.machine_id)) [
      | inl same ↦ absurd (ground arith)
      | inr differs ↦ (v, λ e. ground arith, ground arith)
    ]
    | inr n ↦ absurd (ground arith)
  ]

  -- A handshake completes only with a peer of this protocol and another id whose signature, over its id,
  -- its ephemeral key and its nonce, is accepted under the very key that the session reports.
  pub handshake_authentic :
      (self : Initiation) (peer : Hello) (dialled : Bool) (s : Session)
      → complete lib self peer dialled ≡ ok s
      → (peer.protocol ≡ protocol_version)
        × (s.peer_machine ≢ self.hello.machine_id)
        × (lib.verify s.peer_key
              (transcript s.peer_machine peer.ephemeral peer.nonce)
              peer.signature
            ≡ true)
  handshake_authentic self peer dialled s h =
      let checked = complete_checks self peer dialled s h in
      let signed = verified peer checked.0 in
      let same = keys_of-peer peer dialled _ s checked.2 in
      rw (same.0, same.1) (signed.0, checked.1, signed.1)
