-- ===== src/Agent/Autostart/Unix.antt =====
-- crates/is-agent/src/autostart.rs, `platform` of the other Unixes.
use Prim.Native.String.{String}
use inputshare.Base.{Bool, ◌&&◌, Option, none, some, List, [], ◌∷◌}
use inputshare.Agent.Autostart.{
  not_found, Result, ok, err, entry_name, joined, is_there, reached, gone, Faults, Home, entered,
  at_path, removed,
}

abbrev under : Option String → Option String → Result (List String)
under (some base) home = ok (base ∷ "autostart" ∷ "inputshare.desktop" ∷ [])
under none (some home) = ok (home ∷ ".config" ∷ "autostart" ∷ "inputshare.desktop" ∷ [])
under none none = err not_found

abbrev pub desktop_path : Home → Result (List String)
desktop_path h = under h.xdg_config_home h.home

unfoldable pub is_enabled : Home → Bool
is_enabled h = reached (desktop_path h) && is_there h.entry

abbrev pub desktop_entry : String → String
desktop_entry executable = joined (
    "[Desktop Entry]\nType=Application\nName=" ∷ entry_name ∷ "\nExec=" ∷ executable
    ∷ "\nX-GNOME-Autostart-enabled=true\n" ∷ [])

unfoldable pub enable : Faults → String → Home → Result (Unit {0}) × Home
enable faults executable h =
    at_path (desktop_path h)
      (entered faults.opening faults.change faults.left (desktop_entry executable)) h

unfoldable pub disable : Faults → Home → Result (Unit {0}) × Home
disable faults h = at_path (desktop_path h) (λ k. removed (gone k.entry faults.change) k) h
