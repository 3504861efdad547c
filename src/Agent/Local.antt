-- ===== src/Agent/Local.antt =====
-- crates/is-agent/src/lib.rs: the operations that leave the document alone.
use Prim.Native.String.{String}
use inputshare.Base.{
  ℕ, ◌==◌, Bool, true, false, ◌||◌, ◌&&◌, Option, none, some, List, [], ◌∷◌, ◌++◌, if◌then◌else◌,
}
use inputshare.Model.Query.{machine}
use inputshare.Store.{Codec, Fault}
use inputshare.Store.Files.{LocalPrefs, load_prefs, save_prefs}
use inputshare.Service.{SocketAddr}
use inputshare.Sharing.{InputEvent}
use inputshare.Agent.{Agent, NetCall, announce_change, call_net}
use inputshare.Agent.Facts.{same_bool}
use inputshare.Agent.Commands.{refused, Result, ok, err}

abbrev pub same_owner : Option ℕ → Option ℕ → Bool
same_owner none none = true
same_owner (some a) (some b) = a == b
same_owner _ _ = false

abbrev same_addr : SocketAddr → SocketAddr → Bool
same_addr a b = a.ip == b.ip && a.port == b.port

unfoldable pub has_addr : List SocketAddr → SocketAddr → Bool
has_addr [] addr = false
has_addr (x ∷ xs) addr = same_addr x addr || has_addr xs addr

unfoldable pub without_addr : List SocketAddr → SocketAddr → List SocketAddr
without_addr [] addr = []
without_addr (x ∷ xs) addr =
    let rest = without_addr xs addr in if same_addr x addr then rest else x ∷ rest

unfoldable pub note_cursor_owner : Option ℕ → Agent → Agent
note_cursor_owner owner a =
    if same_owner a.cursor_owner owner
    then a
    else announce_change (record a { cursor_owner = owner })

-- Takes the announcement out.
unfoldable pub take_announced_owner : Agent → Option ℕ × Agent
take_announced_owner a = (a.announced_owner, record a { announced_owner = none })

unfoldable pub add_manual_peer : SocketAddr → Agent → Agent
unfolding announce_change call_net
add_manual_peer addr a =
    let kept =
      if has_addr a.manual_peers addr then a.manual_peers else a.manual_peers ++ addr ∷ [] in
    announce_change (call_net (NetCall.add_manual_peer addr) (record a { manual_peers = kept }))

unfoldable pub forget_manual_peer : SocketAddr → Agent → Agent
unfolding announce_change call_net
forget_manual_peer addr a = announce_change (
    call_net (NetCall.forget_manual_peer addr)
      (record a { manual_peers = without_addr a.manual_peers addr }))

unfoldable pub announce_cursor_owner : ℕ → Agent → Agent
unfolding call_net
announce_cursor_owner machine a = call_net (NetCall.announce_cursor_owner machine) a

unfoldable pub send_input : ℕ → List InputEvent → Agent → Agent
unfolding call_net
send_input to events a = call_net (NetCall.send_input to events) a

unfoldable pub rescan : Agent → Agent
unfolding call_net
rescan a = call_net NetCall.rescan a

abbrev pub discovery_port : Agent → ℕ
discovery_port a = elim a.doc [ none ↦ 47451 | some doc ↦ doc.settings.value.discovery_port ]

module _ (prefs : Codec LocalPrefs) where
  -- A choice that is not there yet is written; a failure is logged and dropped.
  unfoldable pub remember_sharing : Bool → Option Fault → Agent → Agent
  remember_sharing enabled fault a =
      let found = load_prefs prefs a.disk in
      if same_bool found.sharing enabled then a else record a {
        disk = (save_prefs prefs (record found { sharing = enabled }) fault a.disk).1;
      }

  unfoldable pub sharing_was_on : Agent → Bool
  sharing_was_on a = (load_prefs prefs a.disk).sharing

  -- `sharing::start` and the end of its loop, which gives the input of peers back. The first argument
  -- says why the capture of input does not start, if it does not.
  abbrev pub switch : Option String → Bool → Agent → Result (Unit {0}) × Agent
  switch none true a =
      (ok tt, announce_change (record a { sharing = true; remote_input = some [] }))
  switch (some reason) true a = (err (refused reason), a)
  switch failure false a = (
    ok tt,
    announce_change (note_cursor_owner none (record a { sharing = false; remote_input = none })),
  )

  unfoldable pub set_sharing :
      Option String → Bool → Option Fault → Agent → Result (Unit {0}) × Agent
  unfolding remember_sharing announce_change note_cursor_owner
  set_sharing failure enabled fault a =
      let chosen = remember_sharing enabled fault a in
      if same_bool enabled chosen.sharing then (ok tt, chosen) else switch failure enabled chosen
