-- ===== src/Agent/Network.antt =====
-- crates/is-agent/src/lib.rs and crates/is-net/src/service.rs: the agent's calls, and the service that they
-- are made on.
use inputshare.Base.{true, List, [], ◌∷◌, ◌++◌, ◌≡◌, refl, ap, ◌∙◌, if◌then◌else◌}
use inputshare.Service.{SocketAddr}
use inputshare.Service.Handle.{Handle, holds_addr, retained, posted}
use inputshare.Service.Handle
use inputshare.Agent.{Agent, NetCall, call_net, announce_change}
use inputshare.Agent.Local.{has_addr, without_addr, add_manual_peer, forget_manual_peer}

-- A call reaches the service.
abbrev pub reached : NetCall → Handle → Handle
reached (NetCall.broadcast u) h = Handle.broadcast u h
reached (NetCall.announce_cursor_owner machine) h = Handle.announce_cursor_owner machine h
reached (NetCall.send_input to events) h = Handle.send_input to events h
reached (NetCall.add_manual_peer addr) h = Handle.add_manual_peer addr h
reached (NetCall.forget_manual_peer addr) h = Handle.forget_manual_peer addr h
reached NetCall.rescan h = Handle.rescan h

unfoldable pub reached_all : List NetCall → Handle → Handle
reached_all [] h = h
reached_all (c ∷ cs) h = reached_all cs (reached c h)

-- What the person at the machine does to the list of addresses.
pub data Edit : Type 0 where
  add forget : SocketAddr → Edit

abbrev pub edited : Edit → Agent → Agent
edited (add addr) a = add_manual_peer addr a
edited (forget addr) a = forget_manual_peer addr a

unfoldable pub edited_all : List Edit → Agent → Agent
edited_all [] a = a
edited_all (e ∷ es) a = edited_all es (edited e a)

-- The calls made so far leave the service with the agent's addresses.
abbrev pub Agrees : Handle → Agent → Type 0
Agrees h a = (a.net ≡ true) × ((reached_all a.calls h).manual ≡ a.manual_peers)

reached-append :
    (cs : List NetCall) (c : NetCall) (h : Handle)
    → reached_all (cs ++ c ∷ []) h ≡ reached c (reached_all cs h)
unfolding reached_all
reached-append [] c h = refl
reached-append (d ∷ cs) c h = reached-append cs c (reached d h)

same_test : (xs : List SocketAddr) (addr : SocketAddr) → holds_addr xs addr ≡ has_addr xs addr
unfolding holds_addr has_addr
same_test [] addr = refl
same_test (x ∷ xs) addr = rw (same_test xs addr) refl

same_rest : (xs : List SocketAddr) (addr : SocketAddr) → retained xs addr ≡ without_addr xs addr
unfolding retained without_addr
same_rest [] addr = refl
same_rest (x ∷ xs) addr = rw (same_rest xs addr) refl

edited-Agrees : (e : Edit) (h : Handle) (a : Agent) → Agrees h a → Agrees h (edited e a)
unfolding add_manual_peer forget_manual_peer call_net announce_change Handle.add_manual_peer
    Handle.forget_manual_peer
edited-Agrees (add addr) h a (up, same) =
    let peers = a.manual_peers in
    let reach = reached-append a.calls (NetCall.add_manual_peer addr) h in
    rw up (
      refl,
      ap (λ (k : Handle). k.manual) reach
          ∙ (ap (λ m. if holds_addr m addr then m else m ++ addr ∷ []) same
              ∙ ap (λ t. if t then peers else peers ++ addr ∷ []) (same_test peers addr)),
    )
edited-Agrees (forget addr) h a (up, same) =
    let reach = reached-append a.calls (NetCall.forget_manual_peer addr) h in
    rw up (
      refl,
      ap (λ (k : Handle). k.manual) reach
          ∙ (ap (λ m. retained m addr) same ∙ same_rest a.manual_peers addr),
    )

-- While the service runs, the addresses that it contacts directly stay those that the agent shows, after
-- any sequence of addresses being typed in and forgotten.
pub manual-Agrees :
    (es : List Edit) (h : Handle) (a : Agent) → Agrees h a → Agrees h (edited_all es a)
unfolding edited_all
manual-Agrees [] h a p = p
manual-Agrees (e ∷ es) h a p = manual-Agrees es h (edited e a) (edited-Agrees e h a p)
