-- ===== src/Discovery/Everywhere.antt =====
-- crates/is-net/src/discovery.rs: an announcement leaves by every interface, and by nothing else.
use inputshare.Base.{
  Any, Any-left, Any-right, sym, ◌∙◌, ℕ, Bool, true, Option, none, some, List, [], ◌∷◌, ◌++◌, ◌==◌,
  ◌≡◌, inl, inr, refl, arith, Each, Each-imp, Each-append, Bool-cases, ==_iff, either_true,
}
use inputshare.Store.{Bytes}
use inputshare.Service.{SocketAddr, contains}
use inputshare.Wire.{Announcement}
use inputshare.Discovery.{
  Interface, Datagram, Target, v4, v6, Announcer, group, has_address, from_interface,
  from_interfaces, from_each, from_one, first_in_subnet, send_unicast, to_targets, probing,
  announce, refresh, broadcast_of,
}
use inputshare.Discovery.Reach.{
  IsReady, refresh-IsReady, refresh-known, refresh-has_address, has_own,
}

-- The datagram is among those that are sent.
abbrev pub IsSent : Datagram → List Datagram → Type 0
IsSent d = Any (λ e. e ≡ d)

-- What an interface is to send to the group.
abbrev pub to_group : ℕ → Bytes → ℕ → Datagram
to_group port payload address = record {
  out = address;
  to = record { ip = group; port = port };
  payload = payload;
}

interface_sends :
    (senders : List ℕ) (port : ℕ) (payload : Bytes) (i : Interface)
    → contains senders i.address ≡ true
    → IsSent (to_group port payload i.address) (from_interface senders port payload i)
interface_sends senders port payload i h = rw h (inl refl)

interfaces_send :
    (senders : List ℕ) (port : ℕ) (payload : Bytes) (is : List Interface)
    → Each (λ i. contains senders i.address ≡ true) is
    → Each
        (λ i. IsSent (to_group port payload i.address) (from_interfaces senders port payload is))
        is
unfolding from_interfaces
interfaces_send senders port payload [] h = tt
interfaces_send senders port payload (i ∷ is) h = (
  Any-left _ (from_interface senders port payload i) _ (interface_sends senders port payload i h.0),
  Each-imp _ _ is (λ j l. Any-right _ (from_interface senders port payload i) _ l)
      (interfaces_send senders port payload is h.1),
)

module _ (P : ℕ → Type 0) where
  abbrev Out : Datagram → Type 0
  Out d = P d.out

  broadcast-Out :
      (out : ℕ) (o : Option ℕ) (port : ℕ) (payload : Bytes)
      → P out
      → Each Out (broadcast_of out o port payload)
  broadcast-Out out none port payload p = tt
  broadcast-Out out (some address) port payload p = (p, tt)

  interface-Out :
      (senders : List ℕ) (port : ℕ) (payload : Bytes) (i : Interface)
      → P i.address
      → Each Out (from_interface senders port payload i)
  interface-Out senders port payload i p = elim (Bool-cases (contains senders i.address)) [
    | inr e ↦ rw e tt
    | inl e ↦ rw e (p, broadcast-Out i.address i.broadcast port payload p)
  ]

  interfaces-Out :
      (senders : List ℕ) (port : ℕ) (payload : Bytes) (is : List Interface)
      → Each (λ i. P i.address) is
      → Each Out (from_interfaces senders port payload is)
  unfolding from_interfaces
  interfaces-Out senders port payload [] h = tt
  interfaces-Out senders port payload (i ∷ is) h =
      Each-append Out (from_interface senders port payload i) _
        (interface-Out senders port payload i h.0) (interfaces-Out senders port payload is h.1)

  Each-Out :
      (senders : List ℕ) (to : SocketAddr) (payload : Bytes)
      → Each P senders
      → Each Out (from_each senders to payload)
  Each-Out [] to payload h = tt
  Each-Out (s ∷ senders) to payload h = (h.0, Each-Out senders to payload h.1)

  one-Out :
      (o : Option ℕ) (senders : List ℕ) (to : SocketAddr) (payload : Bytes)
      → Each P senders
      → ((x : ℕ) → contains senders x ≡ true → P x)
      → Each Out (from_one o senders to payload)
  one-Out none senders to payload h f = Each-Out senders to payload h
  one-Out (some address) senders to payload h f = elim (Bool-cases (contains senders address)) [
    | inl e ↦ rw e (f address e, tt)
    | inr e ↦ rw e (Each-Out senders to payload h)
  ]

  contained : (senders : List ℕ) (x : ℕ) → Each P senders → contains senders x ≡ true → P x
  unfolding contains
  contained [] x h e = ground arith
  contained (s ∷ senders) x h e = elim (either_true (x == s) _ e) [
    | inl q ↦ rw ((==_iff x s).0 q) h.0
    | inr q ↦ contained senders x h.1 q
  ]

  targets-Out :
      (a : Announcer) (payload : Bytes) (ts : List Target)
      → Each P a.senders
      → Each Out (to_targets a payload ts)
  unfolding to_targets send_unicast
  targets-Out a payload [] h = tt
  targets-Out a payload (v6 ∷ ts) h = targets-Out a payload ts h
  targets-Out a payload (v4 target ∷ ts) h =
      Each-append Out (from_one (first_in_subnet a.known target.ip) a.senders target payload) _
        (one-Out (first_in_subnet a.known target.ip) a.senders target payload h
          (λ x. contained a.senders x h))
        (targets-Out a payload ts h)

  probing-Out :
      (o : Option Bytes) (a : Announcer) (ts : List Target)
      → Each P a.senders
      → Each Out (probing o a ts)
  probing-Out none a ts h = tt
  probing-Out (some payload) a ts h = targets-Out a payload ts h

-- One turn of the announcer whose sockets and interfaces belong to each other, where the system opens
-- every socket that it is asked for and the announcement can be encoded: they do so afterwards; by every
-- interface that was found a datagram with the encoded announcement goes to the group and the port, and
-- nothing leaves by any other.
pub announced_everywhere :
    (encode : Announcement → Option Bytes) (opens : ℕ → Bool) (current : List Interface)
    (n : Announcement) (port : ℕ) (manual : List Target) (a : Announcer) (payload : Bytes)
    → ((x : ℕ) → opens x ≡ true)
    → encode n ≡ some payload
    → IsReady a
    → (let r = announce encode opens current n port manual a in
        IsReady r.0
        × Each (λ i. IsSent (to_group port payload i.address) r.1) current
        × Each (λ d. has_address current d.out ≡ true) r.1)
unfolding announce
announced_everywhere encode opens current n port manual a payload all enc h =
    let fresh = refresh opens current a in
    let ready = refresh-IsReady opens current a all h in
    let sent = from_interfaces fresh.senders port payload fresh.known in
    let probes = probing (encode (record n { probe = true })) fresh manual in
    let inside : (x : ℕ) → has_address fresh.known x ≡ true → has_address current x ≡ true =
      λ x e. sym (refresh-has_address opens current a x) ∙ e in
    let found =
      Each-imp _ (λ (i : Interface). has_address current i.address ≡ true) fresh.known
        (λ i. inside i.address) (has_own fresh.known) in
    let bound =
      Each-imp _ (λ (x : ℕ). has_address current x ≡ true) fresh.senders inside ready.within in
    rw (enc, announce)
      (
        ready,
        refresh-known opens current a (λ x. IsSent (to_group port payload x) (sent ++ probes))
            (Each-imp _ _ fresh.known (λ i l. Any-left _ sent probes l)
              (interfaces_send fresh.senders port payload fresh.known ready.covered)),
        Each-append _ sent probes
            (interfaces-Out (λ x. has_address current x ≡ true) fresh.senders port payload
              fresh.known found)
            (probing-Out (λ x. has_address current x ≡ true) (encode (record n { probe = true }))
              fresh manual bound),
      )
