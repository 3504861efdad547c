-- ===== src/Agent/Autostart/Switch.antt =====
-- crates/is-agent/src/autostart.rs: `is_enabled` and `set`, on whichever platform.
use inputshare.Base.{◌≢◌}
use Prim.Native.String.{String}
use inputshare.Base.{Bool, true, some, if◌then◌else◌}
use inputshare.Agent.Autostart.{not_found, Result, ok, Faults, Registry, Home}
use inputshare.Base.{◌≡◌, ◌≢◌, arith}
use inputshare.Agent.Autostart.Windows
use inputshare.Agent.Autostart.MacOs
use inputshare.Agent.Autostart.Unix

-- A machine of one of the platforms.
pub data Machine : Type 0 where
  windows : Registry → Machine
  mac_os unix : Home → Machine

unfoldable pub is_enabled : Machine → Bool
unfolding Windows.is_enabled MacOs.is_enabled Unix.is_enabled
is_enabled (windows r) = Windows.is_enabled r
is_enabled (mac_os h) = MacOs.is_enabled h
is_enabled (unix h) = Unix.is_enabled h

abbrev on : {S : Type 0} → (S → Machine) → Result (Unit {0}) × S → Result (Unit {0}) × Machine
on machine (result, s) = (result, machine s)

unfoldable pub set : Faults → Bool → String → Machine → Result (Unit {0}) × Machine
unfolding Windows.enable Windows.disable MacOs.enable MacOs.disable Unix.enable Unix.disable
set faults enabled executable (windows r) =
    on windows (if enabled then Windows.enable faults executable r else Windows.disable faults r)
set faults enabled executable (mac_os h) =
    on mac_os (if enabled then MacOs.enable faults executable h else MacOs.disable faults h)
set faults enabled executable (unix h) =
    on unix (if enabled then Unix.enable faults executable h else Unix.disable faults h)

abbrev pub readable : Machine → Bool
readable (windows r) = r.may_read
readable (mac_os h) = true
readable (unix h) = true

-- When `set` says that it has worked, the entry is on or off as it was asked for, and is shown so; where the
-- key can be read that holds it, and the system calls nothing missing that is there.
pub set_holds :
    (faults : Faults) (enabled : Bool) (executable : String) (m : Machine)
    → readable m ≡ true
    → faults.change ≢ some not_found
    → (set faults enabled executable m).0 ≡ ok tt
    → is_enabled (set faults enabled executable m).1 ≡ enabled
unfolding set is_enabled
set_holds faults enabled executable (windows r) may there worked = ground arith
set_holds faults enabled executable (mac_os h) may there worked = ground arith
set_holds faults enabled executable (unix h) may there worked = ground arith
