-- ===== src/Service/Due.antt =====
-- Which machines a tick dials, and how long the wait after a failure is.
use inputshare.Base.{
  ◌+◌, ℕ, Each-append, zero, suc, ◌<◌, ◌≤◌, Bool, true, false, ◌≡◌, refl, Option, none, some, List,
  [], ◌∷◌, ◌++◌, ◌==◌, if◌then◌else◌, arith, Each, Each-imp,
}
use inputshare.BTreeMap.{BTreeMap, get, All, IsSorted}
use inputshare.BTreeMap.Laws.{get-entries}
use inputshare.Service.{PeerSlot, SocketAddr, fresh, map_slots, Status, Actor}
use inputshare.Service.Dialling.{dial_at, dials_due, due, tick_slot, on_tick}
use inputshare.Service.Laws.{get-map_slots}
use inputshare.Service.Handlers.{backoff}

-- A dial of `m` at `addr` that the slots justify.
unfoldable pub IsDue : ℕ → ℕ → BTreeMap PeerSlot → (ℕ × SocketAddr) → Type 0
IsDue me now m (id, addr) =
    (slot : PeerSlot) × (get m id ≡ some slot)
    × (slot.status ≡ Status.offline)
    × (me < id)
    × (fresh slot now ≡ true)
    × (slot.next_attempt ≤ now)
    × (slot.addr ≡ some addr)

backoff_table :
    (n : ℕ)
    → backoff n ≡ (
        if n == 0
        then 1000
        else if n == 1
        then 2000
        else if n == 2
        then 4000
        else if n == 3
        then 8000
        else if n == 4
        then 16000
        else 30000)
unfolding backoff
backoff_table zero = refl
backoff_table (suc zero) = refl
backoff_table (suc (suc zero)) = refl
backoff_table (suc (suc (suc zero))) = refl
backoff_table (suc (suc (suc (suc zero)))) = refl
backoff_table (suc (suc (suc (suc (suc n))))) = ground arith

-- After more failures the wait is no shorter; it lies between one and thirty seconds, and is thirty
-- from the fifth failure on.
pub backoff_bounds :
    (n k : ℕ)
    → n ≤ k
    → (backoff n ≤ backoff k) × (1000 ≤ backoff n) × (backoff k ≤ 30000) × (backoff (5 + n) ≡ 30000)
backoff_bounds n k h = rw (backoff_table n, backoff_table k, backoff_table (5 + n)) (ground arith)

due_slot :
    (me now id : ℕ) (slot : PeerSlot)
    → due me now id slot ≡ true
    → (slot.status ≡ Status.offline)
      × (me < id)
      × (fresh slot now ≡ true)
      × (slot.next_attempt ≤ now)
unfolding due
due_slot me now id slot h = ground arith

dial_due :
    (me now id : ℕ) (slot : PeerSlot) (m : BTreeMap PeerSlot) (b : Bool) (addr : Option SocketAddr)
    → due me now id slot ≡ b
    → slot.addr ≡ addr
    → get m id ≡ some slot
    → Each (IsDue me now m) (dial_at b id addr)
unfolding IsDue
dial_due me now id slot m false addr d e g = tt
dial_due me now id slot m true none d e g = tt
dial_due me now id slot m true (some addr) d e g =
    let s = due_slot me now id slot d in ((slot, g, s.0, s.1, s.2, s.3, e), tt)

dials_are-IsDue :
    (me now : ℕ) (m n : BTreeMap PeerSlot)
    → All (λ id slot. get m id ≡ some slot) n
    → Each (IsDue me now m) (dials_due me now n)
unfolding dials_due
dials_are-IsDue me now m [] a = tt
dials_are-IsDue me now m ((id, slot) ∷ n) a =
    Each-append (IsDue me now m) (dial_at (due me now id slot) id slot.addr) (dials_due me now n)
      (dial_due me now id slot m (due me now id slot) slot.addr refl refl a.0)
      (dials_are-IsDue me now m n a.1)

dialled_status :
    {me now id : ℕ} {addr : SocketAddr} (slot : PeerSlot)
    → slot.status ≡ Status.offline
    → me < id
    → fresh slot now ≡ true
    → slot.next_attempt ≤ now
    → slot.addr ≡ some addr
    → (tick_slot me now id slot).status ≡ Status.connecting
unfolding tick_slot due
dialled_status slot off low recent waited known = rw (off, known, recent) (ground arith)

now_connecting :
    (now : ℕ) (a : Actor) (d : ℕ × SocketAddr)
    → IsDue a.me now a.peers d
    → (slot : PeerSlot) × (get (map_slots (tick_slot a.me now) a.peers) d.0 ≡ some slot)
      × (slot.status ≡ Status.connecting)
unfolding IsDue
now_connecting now a (id, addr) e = (
  tick_slot a.me now id e.0,
  rw (get-map_slots (tick_slot a.me now) a.peers id, e.1) refl,
  dialled_status e.0 e.2 e.3 e.4 e.5 e.6,
)

-- A tick dials only machines that it knows, with the address it knows of them, that are offline,
-- have a higher id, were heard from within the last twenty seconds and have waited out their
-- backoff; each of them is connecting afterwards. The slots are sorted by id.
pub tick_dials :
    (now : ℕ) (a : Actor)
    → IsSorted a.peers
    → (ds : List (ℕ × SocketAddr)) × ((on_tick now a).dials ≡ a.dials ++ ds)
      × Each (IsDue a.me now a.peers) ds
      × Each
          (λ d.
            (slot : PeerSlot) × (get (on_tick now a).peers d.0 ≡ some slot)
            × (slot.status ≡ Status.connecting))
          ds
unfolding on_tick
tick_dials now a s =
    let due_now = dials_are-IsDue a.me now a.peers a.peers (get-entries a.peers s) in
    (
      dials_due a.me now a.peers,
      refl,
      due_now,
      Each-imp _ _ (dials_due a.me now a.peers) (λ d e. now_connecting now a d e) due_now,
    )
