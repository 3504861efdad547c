-- ===== src/Examples/Files.antt =====
-- The files of the desk, with codecs that write one value.
use inputshare.Base.{Bool-cases, inl, inr, ℕ, ◌≡◌, ◌⊎◌, refl, none, some, Option, [], ◌∷◌, arith}
use inputshare.Model.{WorkspaceDoc}
use inputshare.Store.{
  Bytes, absent, content, Cells, Codec, parse, ok, err, read_json, read_with_fallback, write_atomic,
}
use inputshare.Store.Crash.{write_crash_safe, good_backup_lost}
use inputshare.Store.Files.{Identity, Disk}
use text.Mathlib.Text.{◌==◌}
use Prim.Native.String.{String}
use text.Mathlib.TextEquality.{eq_iff}
use native.Mathlib.Decide.{ℕ_discrete}
use inputshare.Examples.{founded}

-- Numbers as single bytes.
abbrev digit : Bytes → Option ℕ
digit [] = none
digit (n ∷ []) = some n
digit (n ∷ m ∷ rest) = none

abbrev digits : Codec ℕ
digits = record {
  encode = λ n. some (n ∷ []);
  decode = digit;
  decode-encode = λ n b e. ground arith;
}

abbrev cells : Cells
cells = record { main = content (4 ∷ []); bak = absent; tmp = absent }

write_crash_safe_example :
    (read_with_fallback digits (write_atomic digits 5 (some (1, content [])) cells).1 ≡ ok (some 4))
    ⊎ (read_with_fallback digits (write_atomic digits 5 (some (1, content [])) cells).1
        ≡ ok (some 5))
unfolding read_json
write_crash_safe_example = write_crash_safe digits 5 (some (1, content [])) cells (some 4) refl

good_backup_lost_example :
    (let c : Cells = record { main = content []; bak = content (4 ∷ []); tmp = absent } in
      (read_with_fallback digits c ≡ ok (some 4))
      × (read_with_fallback digits (write_atomic digits 5 (some (2, absent)) c).1 ≡ err parse))
good_backup_lost_example =
    good_backup_lost digits 5 4 [] (5 ∷ []) absent absent (4 ∷ []) refl refl refl

abbrev pub own : Identity
own = record { machine_id = 1; created_at_ms = 900; secret_key = 12 }

abbrev pub other : Identity
other = record { machine_id = 8; created_at_ms = 950; secret_key = 13 }

-- An identity as its three numbers.
abbrev read_identity : Bytes → Option Identity
read_identity (a ∷ b ∷ c ∷ []) = some (record { machine_id = a; created_at_ms = b; secret_key = c })
read_identity _ = none

abbrev pub identities : Codec Identity
identities = record {
  encode = λ i. some (i.machine_id ∷ i.created_at_ms ∷ i.secret_key ∷ []);
  decode = read_identity;
  decode-encode = λ i b e. ground arith;
}

abbrev empty : Cells
empty = record { main = absent; bak = absent; tmp = absent }

abbrev pub disk : Disk
disk = record { identity = empty; workspace = empty; hints = empty; prefs = empty }

String-Discrete : Discrete String
String-Discrete s t = elim (Bool-cases (s == t)) [
  | inl e ↦ yes ((eq_iff s t).0 e)
  | inr n ↦ no (λ e. ground (arith, eq_iff s t))
]

pub document-Discrete : Discrete WorkspaceDoc
document-Discrete = hlevel (ℕ_discrete, String-Discrete)

-- A codec of one document, whose bytes are empty.
abbrev write_if : (only doc : WorkspaceDoc) → Dec (doc ≡ only) → Option Bytes
write_if only doc (yes e) = some []
write_if only doc (no n) = none

abbrev read_only : WorkspaceDoc → Bytes → Option WorkspaceDoc
read_only only [] = some only
read_only only (_ ∷ _) = none

pub read_back :
    (only doc : WorkspaceDoc) (same : Dec (doc ≡ only)) (b : Bytes)
    → write_if only doc same ≡ some b
    → read_only only b ≡ some doc
read_back only doc (yes same) b e = ground (arith, same)
read_back only doc (no other) b e = ground arith

abbrev pub codec_of : WorkspaceDoc → Codec WorkspaceDoc
codec_of only = record {
  encode = λ doc. write_if only doc (document-Discrete doc only);
  decode = read_only only;
  decode-encode = λ doc. read_back only doc (document-Discrete doc only);
}

abbrev pub documents : Codec WorkspaceDoc
documents = codec_of founded

pub write_same :
    (only : WorkspaceDoc) (same : Dec (only ≡ only)) → write_if only only same ≡ some []
write_same only (yes e) = refl
write_same only (no n) = absurd (n refl)

abbrev saved : Disk
saved = record disk {
  workspace = record { main = content []; bak = content (3 ∷ []); tmp = absent };
}
