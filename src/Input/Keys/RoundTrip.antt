-- ===== src/Input/Keys/RoundTrip.antt =====
-- What a Mac sends for a key names that key again, and what it presses is in the table.
use inputshare.Base.{
  ==_iff, ℕ, Bool, true, false, ◌&&◌, Option, none, some, List, [], ◌∷◌, ◌==◌, ◌≡◌, refl, arith,
}
use inputshare.Input.Keys.{Key, keys, find, wire, to_pc, from_pc}

all : (Key → Bool) → List Key → Bool
all p [] = true
all p (k ∷ ks) = p k && all p ks

names : Option ℕ → ℕ → Bool
names none mac = false
names (some m) mac = m == mac

names-some : (o : Option ℕ) (mac : ℕ) → names o mac ≡ true → o ≡ some mac
unfolding names
names-some none mac h = ground arith
names-some (some m) mac h = ground arith

returns : Key → Bool
returns k = names (from_pc k.scan k.vk k.extended) k.mac

table_returns : all returns keys ≡ true
unfolding all returns names from_pc
table_returns = refl

find-all :
    (p q : Key → Bool) (ks : List Key) (k : Key)
    → all q ks ≡ true
    → find p ks ≡ some k
    → (p k ≡ true) × (q k ≡ true)
unfolding all find
find-all p q [] k a h = ground arith
find-all p q (j ∷ ks) k a h = ground (arith, find-all p q ks k)

found-returns :
    (o : Option Key) (mac_code scan vk : ℕ) (extended : Bool)
    → ((k : Key) → o ≡ some k → (k.mac == mac_code) ≡ true)
    → ((k : Key) → o ≡ some k → returns k ≡ true)
    → wire o ≡ some (scan, vk, extended)
    → from_pc scan vk extended ≡ some mac_code
unfolding returns
found-returns none mac_code scan vk extended p q h = ground arith
found-returns (some k) mac_code scan vk extended p q h =
    let back = names-some (from_pc k.scan k.vk k.extended) k.mac (q k refl) in
    let same = (==_iff k.mac mac_code).0 (p k refl) in cc (back, same, h)

-- A key that a Mac sends comes back as the same key.
pub keys_round_trip :
    (mac_code scan vk : ℕ) (extended : Bool)
    → to_pc mac_code ≡ some (scan, vk, extended)
    → from_pc scan vk extended ≡ some mac_code
unfolding to_pc
keys_round_trip mac_code scan vk extended h =
    let facts : (k : Key)
        → find (λ k. k.mac == mac_code) keys ≡ some k
        → ((k.mac == mac_code) ≡ true) × (returns k ≡ true) =
      λ k e. find-all (λ k. k.mac == mac_code) returns keys k table_returns e in
    found-returns (find (λ k. k.mac == mac_code) keys) mac_code scan vk extended
      (λ k e. (facts k e).0) (λ k e. (facts k e).1) h
