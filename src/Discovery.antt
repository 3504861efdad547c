-- ===== src/Discovery.antt =====
-- crates/is-net/src/discovery.rs: on which interfaces this machine announces itself, where to, and which
-- announcements it takes. An IPv4 address is the number that its octets spell. Sockets are the addresses
-- that they are bound to; what the system reports, which sockets it opens, and serde_json are arguments.
pub mod Reach
pub mod Everywhere
use Prim.Native.String.{String}
use text.Mathlib.Text.{◌==◌ as ◌==ₛ◌}
use inputshare.Base.{
  ℕ, ◌/◌, ◌%◌, ltb, leb, Bool, true, false, not, ◌&&◌, ◌||◌, Option, none, some, List, [], ◌∷◌,
  ◌++◌, ◌==◌, if◌then◌else◌,
}
use inputshare.Store.{Bytes}
use inputshare.Service.{SocketAddr, contains}
use inputshare.Wire.{Announcement, is_current}

-- 239.255.42.98
abbrev pub group : ℕ
group = 4026477154

pub record Interface : Type 0 where
  pub name : String
  pub address : ℕ
  pub broadcast : Option ℕ
  pub self_assigned : Bool

-- What the system reports of one interface; `v4` is its address and broadcast address.
pub record Found : Type 0 where
  pub name : String
  pub is_loopback : Bool
  pub v4 : Option (ℕ × Option ℕ)

abbrev octet_0 : ℕ → ℕ
octet_0 a = a / 16777216 % 256

abbrev octet_1 : ℕ → ℕ
octet_1 a = a / 65536 % 256

abbrev octet_2 : ℕ → ℕ
octet_2 a = a / 256 % 256

abbrev with_v4 : Found → Option (ℕ × Option ℕ) → List Interface → List Interface
with_v4 f none rest = rest
with_v4 f (some (ip, broadcast)) rest =
    record {
      name = f.name;
      address = ip;
      broadcast = broadcast;
      self_assigned = octet_0 ip == 169 && octet_1 ip == 254;
    }
    ∷ rest

unfoldable pub usable : List Found → List Interface
usable [] = []
usable (f ∷ fs) = let rest = usable fs in if f.is_loopback then rest else with_v4 f f.v4 rest

-- `sort_by_key`, which is stable.
unfoldable pub insert_by_address : Interface → List Interface → List Interface
insert_by_address i [] = i ∷ []
insert_by_address i (j ∷ js) =
    let rest = insert_by_address i js in if leb i.address j.address then i ∷ j ∷ js else j ∷ rest

unfoldable pub sort_by_address : List Interface → List Interface
unfolding insert_by_address
sort_by_address [] = []
sort_by_address (i ∷ is) = insert_by_address i (sort_by_address is)

-- `dedup_by`: of neighbours with one address the first stays.
unfoldable pub dedup_after : Interface → List Interface → List Interface
dedup_after i [] = []
dedup_after i (j ∷ js) =
    let same = dedup_after i js in
    let other = dedup_after j js in if i.address == j.address then same else j ∷ other

abbrev pub dedup : List Interface → List Interface
dedup [] = []
dedup (i ∷ is) = i ∷ dedup_after i is

unfoldable pub interfaces : Option (List Found) → List Interface
unfolding usable sort_by_address dedup_after
interfaces none = []
interfaces (some found) = dedup (sort_by_address (usable found))

unfoldable pub same_subnet : ℕ → ℕ → Bool
same_subnet a b = octet_0 a == octet_0 b && octet_1 a == octet_1 b && octet_2 a == octet_2 b

pub data Target : Type 0 where
  v4 : SocketAddr → Target
  v6 : Target

-- A datagram, with the address of the interface that it leaves by.
pub record Datagram : Type 0 where
  pub out : ℕ
  pub to : SocketAddr
  pub payload : Bytes

abbrev pub first_in_subnet : List Interface → ℕ → Option ℕ
first_in_subnet [] target = none
first_in_subnet (i ∷ is) target =
    if same_subnet i.address target then some i.address else first_in_subnet is target

abbrev pub from_each : List ℕ → SocketAddr → Bytes → List Datagram
from_each [] to payload = []
from_each (s ∷ senders) to payload =
    record { out = s; to = to; payload = payload } ∷ from_each senders to payload

abbrev pub from_one : Option ℕ → List ℕ → SocketAddr → Bytes → List Datagram
from_one none senders to payload = from_each senders to payload
from_one (some address) senders to payload =
    if contains senders address
    then record { out = address; to = to; payload = payload } ∷ []
    else from_each senders to payload

unfoldable pub send_unicast : List ℕ → List Interface → Target → Bytes → List Datagram
unfolding same_subnet
send_unicast senders known v6 payload = []
send_unicast senders known (v4 target) payload =
    from_one (first_in_subnet known target.ip) senders target payload

-- The state of `announce`.
pub record Announcer : Type 0 where
  pub senders : List ℕ
  pub known : List Interface

abbrev pub has_address : List Interface → ℕ → Bool
has_address [] address = false
has_address (i ∷ is) address = i.address == address || has_address is address

abbrev same_broadcast : Option ℕ → Option ℕ → Bool
same_broadcast none none = true
same_broadcast (some a) (some b) = a == b
same_broadcast _ _ = false

abbrev same_bool : Bool → Bool → Bool
same_bool true b = b
same_bool false b = not b

abbrev pub same_interface : Interface → Interface → Bool
same_interface a b =
    a.address == b.address
    && (a.name ==ₛ b.name
        && same_broadcast a.broadcast b.broadcast
        && same_bool a.self_assigned b.self_assigned)

abbrev pub same_interfaces : List Interface → List Interface → Bool
same_interfaces [] [] = true
same_interfaces (a ∷ rest) (b ∷ others) = same_interface a b && same_interfaces rest others
same_interfaces _ _ = false

unfoldable pub retain : List ℕ → List Interface → List ℕ
retain [] current = []
retain (s ∷ senders) current =
    let rest = retain senders current in if has_address current s then s ∷ rest else rest

-- A socket for each interface that has none, if the system opens it.
unfoldable pub bind_senders : (ℕ → Bool) → List Interface → List ℕ → List ℕ
bind_senders opens [] senders = senders
bind_senders opens (i ∷ is) senders =
    let next =
      if contains senders i.address
      then senders
      else if opens i.address
      then i.address ∷ senders
      else senders in
    bind_senders opens is next

unfoldable pub refresh : (ℕ → Bool) → List Interface → Announcer → Announcer
unfolding retain bind_senders
refresh opens current a =
    if same_interfaces current a.known
    then a
    else record { senders = bind_senders opens current (retain a.senders current); known = current }

abbrev pub broadcast_of : ℕ → Option ℕ → ℕ → Bytes → List Datagram
broadcast_of out none port payload = []
broadcast_of out (some address) port payload =
    record { out = out; to = record { ip = address; port = port }; payload = payload } ∷ []

abbrev pub from_interface : List ℕ → ℕ → Bytes → Interface → List Datagram
from_interface senders port payload i =
    if contains senders i.address
    then record { out = i.address; to = record { ip = group; port = port }; payload = payload }
      ∷ broadcast_of i.address i.broadcast port payload
    else []

unfoldable pub from_interfaces : List ℕ → ℕ → Bytes → List Interface → List Datagram
from_interfaces senders port payload [] = []
from_interfaces senders port payload (i ∷ is) =
    from_interface senders port payload i ++ from_interfaces senders port payload is

unfoldable pub to_targets : Announcer → Bytes → List Target → List Datagram
unfolding send_unicast
to_targets a payload [] = []
to_targets a payload (t ∷ ts) = send_unicast a.senders a.known t payload ++ to_targets a payload ts

abbrev pub probing : Option Bytes → Announcer → List Target → List Datagram
probing none a targets = []
probing (some payload) a targets = to_targets a payload targets

module _ (encode : Announcement → Option Bytes) where
  abbrev pub announced : Option Bytes → Announcement → ℕ → List Target → Announcer → List Datagram
  announced none n port manual a = []
  announced (some payload) n port manual a =
      from_interfaces a.senders port payload a.known
      ++ probing (encode (record n { probe = true })) a manual

  -- One turn of the loop of `announce`.
  unfoldable pub announce :
      (ℕ → Bool)
      → List Interface
      → Announcement
      → ℕ
      → List Target
      → Announcer
      → Announcer × List Datagram
  unfolding refresh from_interfaces to_targets
  announce opens current n port manual a =
      let fresh = refresh opens current a in (fresh, announced (encode n) n port manual fresh)

  abbrev replied : Option Bytes → List ℕ → List Interface → Target → List Datagram
  replied none senders on to = []
  replied (some payload) senders on to = send_unicast senders on to payload

  -- `reply_to_probe`, with sockets of its own.
  unfoldable pub reply_to_probe :
      (ℕ → Bool) → List Interface → Target → Announcement → List Datagram
  unfolding bind_senders send_unicast
  reply_to_probe opens on to n = replied (encode n) (bind_senders opens on []) on to

-- The sighting that a datagram gives, if any.
abbrev pub current_one : Option Announcement → SocketAddr → List (Announcement × SocketAddr)
current_one none from = []
current_one (some n) from = if is_current n then (n, from) ∷ [] else []

unfoldable pub listen :
    (Bytes → Option Announcement) → List (Bytes × SocketAddr) → List (Announcement × SocketAddr)
unfolding is_current
listen decode [] = []
listen decode ((bytes, from) ∷ received) = current_one (decode bytes) from ++ listen decode received
