-- ===== src/Crypto.antt =====
-- crates/is-net/src/crypto.rs: the handshake and the cipher behind it. Keys, nonces and secrets are the
-- numbers that their bytes spell, and a nonce of the cipher is its counter. The curves, the hash and
-- the cipher are libraries; what is used of them is `Primitives`.
pub mod Agreement
pub mod Stream
use inputshare.Base.{
  ℕ, zero, suc, ◌+◌, ◌*◌, ◌/◌, ◌%◌, Bool, true, false, not, Option, none, some, List, [], ◌∷◌, ◌++◌,
  ◌==◌, ◌≡◌, if◌then◌else◌,
}
use inputshare.Model.{u64_mod}
use inputshare.Store.Files.{Identity}
use inputshare.Wire.{protocol_version, Error, handshake, crypto, Result, ok, err}

-- Ed25519, X25519, HKDF-SHA256 to two keys, and ChaCha20-Poly1305.
pub record Primitives : Type 0 where
  pub public_key : ℕ → ℕ
  pub sign : ℕ → List ℕ → ℕ
  pub verify : ℕ → List ℕ → ℕ → Bool
  pub exchange_key : ℕ → ℕ
  pub diffie_hellman : ℕ → ℕ → ℕ
  pub expand : ℕ × ℕ → ℕ → Option (ℕ × ℕ)
  pub encrypt : ℕ → ℕ → List ℕ → Option (List ℕ)
  pub decrypt : ℕ → ℕ → List ℕ → Option (List ℕ)
  -- A signature of one's own key is accepted.
  pub verify-sign : (secret : ℕ) (m : List ℕ) → verify (public_key secret) m (sign secret m) ≡ true
  -- Both sides of the exchange compute the same secret.
  pub exchange_comm :
      (a b : ℕ) → diffie_hellman a (exchange_key b) ≡ diffie_hellman b (exchange_key a)
  -- What is encrypted under a key and a nonce is decrypted under them.
  pub decrypt-encrypt : (k n : ℕ) (m c : List ℕ) → encrypt k n m ≡ some c → decrypt k n c ≡ some m
  -- The cipher is a function of key, nonce and text, and a frame that is accepted is what it gives.
  pub encrypt-decrypt : (k n : ℕ) (m c : List ℕ) → decrypt k n c ≡ some m → encrypt k n m ≡ some c

-- `w` bytes, big-endian.
unfoldable pub be_bytes : ℕ → ℕ → List ℕ
be_bytes zero n = []
be_bytes (suc w) n = be_bytes w (n / 256) ++ n % 256 ∷ []

-- "inputshare-handshake-v1"
abbrev pub signing_context : List ℕ
signing_context =
    105 ∷ 110 ∷ 112 ∷ 117 ∷ 116 ∷ 115 ∷ 104 ∷ 97 ∷ 114 ∷ 101 ∷ 45 ∷ 104 ∷ 97 ∷ 110 ∷ 100 ∷ 115 ∷ 104
    ∷ 97 ∷ 107 ∷ 101 ∷ 45 ∷ 118 ∷ 49 ∷ []

pub record Hello : Type 0 where
  pub protocol : ℕ
  pub machine_id : ℕ
  pub identity_key : ℕ
  pub ephemeral : ℕ
  pub nonce : ℕ
  pub signature : ℕ

unfoldable pub transcript : ℕ → ℕ → ℕ → List ℕ
unfolding be_bytes
transcript machine_id ephemeral nonce =
    ((signing_context ++ be_bytes 16 machine_id) ++ be_bytes 32 ephemeral) ++ be_bytes 32 nonce

pub record Initiation : Type 0 where
  pub hello : Hello
  pub secret : ℕ
  pub nonce : ℕ

pub record Direction : Type 0 where
  pub key : ℕ
  pub counter : ℕ

pub record Session : Type 0 where
  pub peer_machine : ℕ
  pub peer_key : ℕ
  pub send : Direction
  pub receive : Direction

unfoldable pub new_direction : ℕ → Direction
new_direction key = record { key = key; counter = 0 }

module _ (lib : Primitives) where
  unfoldable pub verify : Hello → Bool
  verify h =
      if not (h.protocol == protocol_version)
      then false
      else lib.verify h.identity_key (transcript h.machine_id h.ephemeral h.nonce) h.signature

  -- The ephemeral secret and the nonce are fresh random numbers.
  unfoldable pub begin : Identity → ℕ → ℕ → Initiation
  begin identity secret nonce =
      let ephemeral = lib.exchange_key secret in
      let hello : Hello = record {
        protocol = protocol_version;
        machine_id = identity.machine_id;
        identity_key = lib.public_key identity.secret_key;
        ephemeral = ephemeral;
        nonce = nonce;
        signature = lib.sign identity.secret_key (transcript identity.machine_id ephemeral nonce);
      } in
      record { hello = hello; secret = secret; nonce = nonce }

  abbrev pub keys_of : Hello → Bool → Option (ℕ × ℕ) → Result Session
  keys_of peer dialled none = err (handshake "key derivation failed")
  keys_of peer dialled (some (first, second)) = ok (record {
    peer_machine = peer.machine_id;
    peer_key = peer.identity_key;
    send = new_direction (if dialled then first else second);
    receive = new_direction (if dialled then second else first);
  })

  unfoldable pub complete : Initiation → Hello → Bool → Result Session
  unfolding verify
  complete self peer dialled =
      let shared = lib.diffie_hellman self.secret peer.ephemeral in
      let salt = if dialled then (self.nonce, peer.nonce) else (peer.nonce, self.nonce) in
      if not (verify peer)
      then err (handshake "peer could not prove its identity key")
      else if peer.machine_id == self.hello.machine_id
      then err (handshake "peer reports our own machine id")
      else keys_of peer dialled (lib.expand salt shared)

  -- The counter of a `u64`.
  unfoldable pub next_nonce : Direction → ℕ × Direction
  next_nonce d = (d.counter, record d { counter = (d.counter + 1) % u64_mod })

  abbrev pub sealed : Option (List ℕ) → Result (List ℕ)
  sealed none = err (crypto "could not encrypt frame")
  sealed (some c) = ok c

  unfoldable pub seal : List ℕ → Direction → Result (List ℕ) × Direction
  unfolding next_nonce
  seal plaintext d =
      let (nonce, next) = next_nonce d in (sealed (lib.encrypt d.key nonce plaintext), next)

  abbrev pub opened : Option (List ℕ) → Result (List ℕ)
  opened none = err (crypto "frame failed authentication")
  opened (some m) = ok m

  unfoldable pub open_frame : List ℕ → Direction → Result (List ℕ) × Direction
  unfolding next_nonce
  open_frame ciphertext d =
      let (nonce, next) = next_nonce d in (opened (lib.decrypt d.key nonce ciphertext), next)
