-- ===== src/Agent/Autostart/Windows.antt =====
-- crates/is-agent/src/autostart.rs, `platform` of Windows.
use Prim.Native.String.{String}
use inputshare.Base.{Bool, ◌&&◌, Option, none, some, [], ◌∷◌}
use inputshare.Agent.Autostart.{IoError, Result, ok, err, joined, is_there, gone, Faults, Registry}

unfoldable pub is_enabled : Registry → Bool
is_enabled r = r.may_read && is_there r.value

abbrev pub quoted : String → String
quoted executable = joined ("\"" ∷ executable ∷ "\"" ∷ [])

abbrev set_value : Option IoError → String → Registry → Result (Unit {0}) × Registry
set_value none text r = (ok tt, record r { value = some text })
set_value (some e) text r = (err e, r)

abbrev deleted : Result (Unit {0}) × Option String → Registry → Result (Unit {0}) × Registry
deleted (result, value) r = (result, record r { value = value })

abbrev written :
    Option IoError
    → (Registry → Result (Unit {0}) × Registry)
    → Registry
    → Result (Unit {0}) × Registry
written none go r = go r
written (some e) go r = (err e, r)

unfoldable pub enable : Faults → String → Registry → Result (Unit {0}) × Registry
enable faults executable = written faults.opening (set_value faults.change (quoted executable))

unfoldable pub disable : Faults → Registry → Result (Unit {0}) × Registry
disable faults = written faults.opening (λ r. deleted (gone r.value faults.change) r)
