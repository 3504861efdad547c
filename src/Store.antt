-- ===== src/Store.antt =====
-- crates/is-core/src/store.rs: the files of the config directory. Each of the four files has the
-- copies `.bak` and `.tmp` beside it, and every operation works on one such group, `Cells`. The
-- bytes of a value are made and read by serde_json, which is the parameter `Codec`. A write that
-- fails or is cut short by a power loss is a `Fault`: the step at which it stops, and what that
-- step leaves in the file that it was writing.
pub mod Crash
pub mod Files
pub mod Laws
use inputshare.Base.{
  ℕ, zero, suc, Bool, true, false, ◌≡◌, Option, none, some, List, [], ◌∷◌, ltb, if◌then◌else◌,
}
use inputshare.Model.{WorkspaceDoc, schema_version}

abbrev pub Bytes : Type 0
Bytes = List ℕ

-- `denied` is a file that is there and cannot be read.
pub data File : Type 0 where
  absent denied : File
  content : Bytes → File

pub record Cells : Type 0 where
  pub main : File
  pub bak : File
  pub tmp : File

pub data Error : Type 0 where
  io : Error
  parse : Error
  serialize : Error
  not_found : Error
  newer_schema : ℕ → ℕ → Error

pub data Result {ℓ} (A : Type ℓ) : Type ℓ where
  ok : A → Result A
  err : Error → Result A

-- What is used of serde_json for one type: a value that is written can be read back.
pub record Codec (T : Type 0) : Type 0 where
  pub encode : T → Option Bytes
  pub decode : Bytes → Option T
  pub decode-encode : (v : T) (b : Bytes) → encode v ≡ some b → decode b ≡ some v

-- One step on the file system. Creating the temporary file and filling it is one step, and so is
-- the copy; either may stop halfway. The rename is atomic.
pub data Step : Type 0 where
  fill_tmp : Bytes → Step
  copy_to_bak : Step
  rename_tmp : Step

-- How many steps are done before the one that stops, and what that one leaves in its file.
abbrev pub Fault : Type 0
Fault = ℕ × File

unfoldable pub perform : Step → Cells → Cells
perform (fill_tmp b) c = record c { tmp = content b }
perform copy_to_bak c = record c { bak = c.main }
perform rename_tmp c = record c { main = c.tmp; tmp = absent }

-- What a step leaves that stops halfway.
unfoldable pub tear : Step → File → Cells → Cells
tear (fill_tmp b) junk c = record c { tmp = junk }
tear copy_to_bak junk c = record c { bak = junk }
tear rename_tmp junk c = c

-- A file that cannot be read cannot be copied.
unfoldable pub refused : Step → File → Bool
refused copy_to_bak denied = true
refused _ main = false

-- The steps in order, up to the fault if there is one.
unfoldable pub perform_all : List Step → Option Fault → Cells → Result (Unit {0}) × Cells
unfolding perform tear refused
perform_all [] fault c = (ok tt, c)
perform_all (s ∷ steps) none c =
    let rest = perform_all steps none (perform s c) in
    if refused s c.main then (err io, c) else rest
perform_all (s ∷ steps) (some (zero, junk)) c = (err io, tear s junk c)
perform_all (s ∷ steps) (some (suc n, junk)) c =
    let rest = perform_all steps (some (n, junk)) (perform s c) in
    if refused s c.main then (err io, c) else rest

-- The backup is made if there is something to keep.
abbrev pub write_steps : File → Bytes → List Step
write_steps absent b = fill_tmp b ∷ rename_tmp ∷ []
write_steps main b = fill_tmp b ∷ copy_to_bak ∷ rename_tmp ∷ []

module _ {T : Type 0} (codec : Codec T) where
  unfoldable pub read_json : File → Result (Option T)
  read_json absent = ok none
  read_json denied = err io
  read_json (content b) = elim (codec.decode b) [ some v ↦ ok (some v) | none ↦ err parse ]

  abbrev or_else : Result (Option T) → Error → Result (Option T)
  or_else (ok (some v)) primary = ok (some v)
  or_else other primary = err primary

  unfoldable pub read_with_fallback : Cells → Result (Option T)
  unfolding read_json
  read_with_fallback c = elim (read_json c.main) [
    | ok value ↦ ok value
    | err primary ↦ or_else (read_json c.bak) primary
  ]

  unfoldable pub write_atomic : T → Option Fault → Cells → Result (Unit {0}) × Cells
  unfolding perform_all
  write_atomic v fault c = elim (codec.encode v) [
    | none ↦ (err serialize, c)
    | some b ↦ perform_all (write_steps c.main b) fault c
  ]
