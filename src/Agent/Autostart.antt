-- ===== src/Agent/Autostart.antt =====
-- crates/is-agent/src/autostart.rs: the entry that starts the program at login, on each platform. The registry
-- and the file of the entry are a state, and which calls of the system fail is an argument. Only the entry's own
-- file has a part here, since no other is touched; a write that fails leaves what the argument says.
pub mod Windows
pub mod MacOs
pub mod Unix
pub mod Switch
use Prim.Native.String.{String, ◌++◌}
use inputshare.Base.{Bool, true, false, ◌&&◌, Option, none, some, List, [], ◌∷◌, if◌then◌else◌}

pub data IoError : Type 0 where
  not_found : IoError
  other : String → IoError

pub data Result (A : Type 0) : Type 0 where
  ok : A → Result A
  err : IoError → Result A

abbrev pub entry_name : String
entry_name = "InputShare"

abbrev pub joined : List String → String
joined [] = ""
joined (s ∷ ss) = s ++ joined ss

abbrev pub is_there : Option String → Bool
is_there none = false
is_there (some s) = true

-- `is_ok`, of a key or of the way to a file.
abbrev pub reached : {A : Type 0} → Result A → Bool
reached (ok a) = true
reached (err e) = false

-- Removing what is gone already is a success.
abbrev pub gone : Option String → Option IoError → Result (Unit {0}) × Option String
gone none fault = (ok tt, none)
gone (some s) none = (ok tt, none)
gone (some s) (some not_found) = (ok tt, some s)
gone (some s) (some (other reason)) = (err (other reason), some s)

-- What a call of `enable` or `disable` meets: the key for writing, or the directory; and the value or the file,
-- with what a failed write leaves there.
pub record Faults : Type 0 where
  pub opening : Option IoError
  pub change : Option IoError
  pub left : Option String

-- Windows: the value under the name in the key of the programs that are started.
pub record Registry : Type 0 where
  pub may_read : Bool
  pub value : Option String

-- The other systems: the environment, and the file of the entry.
pub record Home : Type 0 where
  pub home : Option String
  pub xdg_config_home : Option String
  pub entry : Option String

abbrev pub entered :
    Option IoError → Option IoError → Option String → String → Home → Result (Unit {0}) × Home
entered none none left text h = (ok tt, record h { entry = some text })
entered none (some e) left text h = (err e, record h { entry = left })
entered (some e) change left text h = (err e, h)

abbrev pub at_path :
    Result (List String) → (Home → Result (Unit {0}) × Home) → Home → Result (Unit {0}) × Home
at_path (err e) go h = (err e, h)
at_path (ok path) go h = go h

abbrev pub removed : Result (Unit {0}) × Option String → Home → Result (Unit {0}) × Home
removed (result, entry) h = (result, record h { entry = entry })
