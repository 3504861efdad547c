-- ===== src/Keys.antt =====
-- crates/is-core/src/identity.rs: public keys and secrets in their written forms. The libraries for
-- hexadecimal text and for Ed25519 are parameters.
use Prim.Native.String.{String}
use mathlib.Core.List.{take}
use inputshare.Base.{
  ℕ, ◌<◌, Bool, false, Option, none, some, List, [], ◌≡◌, sym, ◌==◌, refl, ap, ◌∙◌, Each, length,
  if◌then◌else◌, arith, Bool-cases, inl, inr, ==_iff,
}

-- Hexadecimal text: bytes are read back, and what is read are bytes.
pub record Hex : Type 0 where
  pub encode : List ℕ → String
  pub decode : String → Option (List ℕ)
  pub decode-encode : (bs : List ℕ) → Each (λ b. b < 256) bs → decode (encode bs) ≡ some bs
  pub decode_bytes : (s : String) (bs : List ℕ) → decode s ≡ some bs → Each (λ b. b < 256) bs

pub record PubKey : Type 0 where
  pub bytes : List ℕ

-- The array type of a key: 32 bytes.
abbrev pub IsArray : List ℕ → Type 0
IsArray bs = (length bs ≡ 32) × Each (λ b. b < 256) bs

pub data Error : Type 0 where
  malformed_hex : Error
  key_length : ℕ → ℕ → Error

pub data Result (A : Type 0) : Type 0 where
  ok : A → Result A
  err : Error → Result A

-- A slice as an array of 32 bytes.
abbrev pub try_from : List ℕ → Result (List ℕ)
try_from raw = if length raw == 32 then ok raw else err (key_length 32 (length raw))

abbrev pub as_key : Option (List ℕ) → Result PubKey
as_key none = err malformed_hex
as_key (some raw) = elim (try_from raw) [ ok bytes ↦ ok (record { bytes = bytes }) | err e ↦ err e ]

abbrev pub as_secret : Option (List ℕ) → Option (List ℕ)
as_secret none = none
as_secret (some raw) = elim (try_from raw) [ ok bytes ↦ some bytes | err e ↦ none ]

abbrev bytes_of : Result PubKey → List ℕ
bytes_of (ok key) = key.bytes
bytes_of (err e) = []

-- Bytes that are accepted as a key are 32, and the key's own.
accepted :
    (raw : Option (List ℕ)) (key : PubKey)
    → as_key raw ≡ ok key
    → (raw ≡ some key.bytes) × (length key.bytes ≡ 32)
accepted none key e = ground arith
accepted (some raw) key e = elim (Bool-cases (length raw == 32)) [
  | inl q ↦
      let same = ap bytes_of (rw (as_key, q) at e) in
      (ap some same, ap length (sym same) ∙ (==_iff (length raw) 32).0 q)
  | inr q ↦ absurd (ground (arith, rw (as_key, q) at e))
]

module _ (hex : Hex) where
  unfoldable pub to_hex : PubKey → String
  to_hex key = hex.encode key.bytes

  unfoldable pub from_hex : String → Result PubKey
  from_hex s = as_key (hex.decode s)

  unfoldable pub fingerprint : PubKey → String
  fingerprint key = hex.encode (take 4 key.bytes)

  -- `hex32`, the form of the secret in the identity file.
  unfoldable pub serialize : List ℕ → String
  serialize bytes = hex.encode bytes

  unfoldable pub deserialize : String → Option (List ℕ)
  deserialize s = as_secret (hex.decode s)

  -- A key is read back from its text.
  pub from_hex-to_hex : (key : PubKey) → IsArray key.bytes → from_hex (to_hex key) ≡ ok key
  unfolding from_hex to_hex
  from_hex-to_hex key a = ap as_key (hex.decode-encode key.bytes a.1) ∙ rw (as_key, a.0) refl

  -- Text that is read as a key has 32 bytes.
  pub from_hex-IsArray : (s : String) (key : PubKey) → from_hex s ≡ ok key → IsArray key.bytes
  unfolding from_hex
  from_hex-IsArray s key e =
      let read = accepted (hex.decode s) key e in (read.1, hex.decode_bytes s key.bytes read.0)

  -- A secret is read back from its text.
  pub deserialize-serialize :
      (bytes : List ℕ) → IsArray bytes → deserialize (serialize bytes) ≡ some bytes
  unfolding deserialize serialize
  deserialize-serialize bytes a =
      ap as_secret (hex.decode-encode bytes a.1) ∙ rw (as_secret, a.0) refl

-- The keys of Ed25519 that are points of the curve, and the signatures that they accept.
pub record Ed25519 : Type 1 where
  pub VerifyingKey : Type 0
  pub from_bytes : List ℕ → Option VerifyingKey
  pub verify : VerifyingKey → List ℕ → List ℕ → Bool

unfoldable pub verify : Ed25519 → PubKey → List ℕ → List ℕ → Bool
verify lib key msg sig = elim (lib.from_bytes key.bytes) [
  | none ↦ false
  | some vk ↦ lib.verify vk msg sig
]
