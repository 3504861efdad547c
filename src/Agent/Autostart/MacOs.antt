-- ===== src/Agent/Autostart/MacOs.antt =====
-- crates/is-agent/src/autostart.rs, `platform` of a Mac.
use Prim.Native.String.{String}
use inputshare.Base.{Bool, ◌&&◌, Option, none, some, List, [], ◌∷◌}
use inputshare.Agent.Autostart.{
  not_found, Result, ok, err, joined, is_there, reached, gone, Faults, Home, entered, at_path,
  removed,
}

abbrev joined_to : Option String → Result (List String)
joined_to none = err not_found
joined_to (some home) = ok (home ∷ "Library/LaunchAgents" ∷ "dev.inputshare.agent.plist" ∷ [])

abbrev pub plist_path : Home → Result (List String)
plist_path h = joined_to h.home

unfoldable pub is_enabled : Home → Bool
is_enabled h = reached (plist_path h) && is_there h.entry

abbrev pub plist : String → String
plist executable = joined (
    "<?xml version=\"1.0\" encoding=\"UTF-8\"?>\n"
    ∷ "<!DOCTYPE plist PUBLIC \"-//Apple//DTD PLIST 1.0//EN\" \"http://www.apple.com/DTDs/PropertyList-1.0.dtd\">\n"
    ∷ "<plist version=\"1.0\">\n" ∷ "<dict>\n" ∷ "    <key>Label</key>\n"
    ∷ "    <string>dev.inputshare.agent</string>\n" ∷ "    <key>ProgramArguments</key>\n"
    ∷ "    <array>\n" ∷ "        <string>" ∷ executable ∷ "</string>\n" ∷ "    </array>\n"
    ∷ "    <key>RunAtLoad</key>\n" ∷ "    <true/>\n" ∷ "    <key>KeepAlive</key>\n"
    ∷ "    <true/>\n" ∷ "</dict>\n" ∷ "</plist>\n" ∷ [])

unfoldable pub enable : Faults → String → Home → Result (Unit {0}) × Home
enable faults executable h =
    at_path (plist_path h) (entered faults.opening faults.change faults.left (plist executable)) h

unfoldable pub disable : Faults → Home → Result (Unit {0}) × Home
disable faults h = at_path (plist_path h) (λ k. removed (gone k.entry faults.change) k) h
