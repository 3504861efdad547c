-- ===== src/Wire/Frames.antt =====
-- Frames come out of the stream as they went in.
use inputshare.Base.{
  Option, ◌*◌, ◌/◌, ◌%◌, ap, ℕ, ◌+◌, ◌≤◌, List, [], ◌∷◌, ◌++◌, ◌≡◌, some, none, arith, length,
  split_at, split_at-append, split_at_sound,
}
use inputshare.Wire.{exactly, ok, max_frame, be_u32, write_frame, read_frame}

abbrev spelled : ℕ → ℕ → ℕ → ℕ → ℕ
spelled a b c d = a * 16777216 + b * 65536 + c * 256 + d

spelled-be_u32 :
    (n : ℕ)
    → n ≤ max_frame
    → spelled (n / 16777216 % 256) (n / 65536 % 256) (n / 256 % 256) (n % 256) ≡ n
spelled-be_u32 n h = omega arith

-- A frame within the limit is written, and read back with the rest of the stream behind it.
pub frame_round_trip :
    (bytes rest : List ℕ)
    → length bytes ≤ max_frame
    → (w : List ℕ) × (write_frame bytes ≡ ok w) × (read_frame (w ++ rest) ≡ ok (bytes, rest))
unfolding write_frame read_frame be_u32
frame_round_trip bytes rest h = (
  be_u32 (length bytes) ++ bytes,
  ground arith,
  rw (spelled-be_u32 (length bytes) h, split_at-append bytes rest) (ground arith),
)

exactly-ok :
    (o : Option (List ℕ × List ℕ)) (bytes rest : List ℕ)
    → exactly o ≡ ok (bytes, rest)
    → o ≡ some (bytes, rest)
exactly-ok none bytes rest h = cc
exactly-ok (some both) bytes rest h = cc

read_split :
    (a b c d : ℕ) (more bytes rest : List ℕ)
    → read_frame (a ∷ b ∷ c ∷ d ∷ more) ≡ ok (bytes, rest)
    → (spelled a b c d ≤ max_frame) × (split_at (spelled a b c d) more ≡ some (bytes, rest))
unfolding read_frame
read_split a b c d more bytes rest h =
    ground (arith, exactly-ok (split_at (spelled a b c d) more) bytes rest)

-- Whatever is in the stream, a frame that is read is within the limit, and the stream was a header of
-- four bytes that spell its length, then the frame, then the rest.
pub frame_bounded :
    (stream bytes rest : List ℕ)
    → read_frame stream ≡ ok (bytes, rest)
    → (length bytes ≤ max_frame)
      × (a : ℕ) × (b : ℕ) × (c : ℕ) × (d : ℕ) × (stream ≡ a ∷ b ∷ c ∷ d ∷ (bytes ++ rest))
      × (length bytes ≡ spelled a b c d)
unfolding read_frame
frame_bounded [] bytes rest h = cc
frame_bounded (a ∷ []) bytes rest h = cc
frame_bounded (a ∷ b ∷ []) bytes rest h = cc
frame_bounded (a ∷ b ∷ c ∷ []) bytes rest h = cc
frame_bounded (a ∷ b ∷ c ∷ d ∷ more) bytes rest h =
    let k = read_split a b c d more bytes rest h in
    let s = split_at_sound (spelled a b c d) more bytes rest k.1 in
    (omega (arith, s.1, k.0), a, b, c, d, ap (λ l. a ∷ b ∷ c ∷ d ∷ l) s.0, s.1)
