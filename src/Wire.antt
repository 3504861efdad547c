-- ===== src/Wire.antt =====
-- crates/is-net/src/wire.rs: what goes over the network, and how it is framed. A stream is the list of
-- its bytes; serde_json is a parameter of those who encode.
pub mod Frames
use inputshare.Base.{
  ℕ, ◌+◌, ◌*◌, ◌/◌, ◌%◌, String, Bool, Option, none, some, List, [], ◌∷◌, ◌++◌, ltb, ◌==◌,
  if◌then◌else◌, length, split_at,
}
use inputshare.Model.{WorkspaceDoc, WorkspaceUpdate}
use inputshare.Sharing.{InputEvent}

abbrev pub protocol_version : ℕ
protocol_version = 1

pub record Announcement : Type 0 where
  pub protocol : ℕ
  pub machine_id : ℕ
  pub identity_key : ℕ
  pub display_name : String
  pub workspace_id : Option ℕ
  pub transport_port : ℕ
  pub probe : Bool
  pub invitations : List ℕ

unfoldable pub is_current : Announcement → Bool
is_current n = n.protocol == protocol_version

pub data Message : Type 0 where
  identify : String → Option ℕ → ℕ → Message
  doc_full : WorkspaceDoc → Message
  update : WorkspaceUpdate → Message
  input : List InputEvent → Message
  cursor_owner : ℕ → Message
  ping pong : ℕ → Message
  goodbye : String → Message

abbrev pub max_frame : ℕ
max_frame = 4194304

-- `io` is also the end of the stream.
pub data Error : Type 0 where
  io json timeout closed : Error
  handshake crypto : String → Error
  frame_too_large : ℕ → Error

pub data Result {ℓ} (A : Type ℓ) : Type ℓ where
  ok : A → Result A
  err : Error → Result A

-- `to_be_bytes` and `from_be_bytes` of a `u32`.
unfoldable pub be_u32 : ℕ → List ℕ
be_u32 n = n / 16777216 % 256 ∷ n / 65536 % 256 ∷ n / 256 % 256 ∷ n % 256 ∷ []

-- What is written to the stream.
unfoldable pub write_frame : List ℕ → Result (List ℕ)
unfolding be_u32
write_frame bytes =
    if ltb max_frame (length bytes)
    then err (frame_too_large (length bytes))
    else ok (be_u32 (length bytes % 4294967296) ++ bytes)

abbrev pub exactly : Option (List ℕ × List ℕ) → Result (List ℕ × List ℕ)
exactly none = err io
exactly (some (bytes, rest)) = ok (bytes, rest)

-- The frame and the rest of the stream.
unfoldable pub read_frame : List ℕ → Result (List ℕ × List ℕ)
unfolding split_at
read_frame (a ∷ b ∷ c ∷ d ∷ rest) =
    let len = a * 16777216 + b * 65536 + c * 256 + d in
    if ltb max_frame len then err (frame_too_large len) else exactly (split_at len rest)
read_frame _ = err io
