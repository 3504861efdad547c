-- ===== src/Service/Laws.antt =====
-- The slots after a change of one of them and after a loop over all of them.
use inputshare.Base.{
  Bool-cases, ℕ, ◌≡◌, refl, Option, none, some, [], ◌∷◌, ◌==◌, if◌then◌else◌, arith, ==_iff, sym,
  inl, inr,
}
use inputshare.BTreeMap.{insert, BTreeMap, get}
use inputshare.BTreeMap.Laws.{get-insert}
use inputshare.Service.{PeerSlot, change, map_slots}

abbrev pub map_option : (PeerSlot → PeerSlot) → Option PeerSlot → Option PeerSlot
map_option f none = none
map_option f (some slot) = some (f slot)

pub get-map_slots :
    (f : ℕ → PeerSlot → PeerSlot) (m : BTreeMap PeerSlot) (id : ℕ)
    → get (map_slots f m) id ≡ map_option (f id) (get m id)
unfolding get map_slots
get-map_slots f [] id = refl
get-map_slots f ((j, slot) ∷ m) id = ground (arith, get-map_slots f m id)

change_with :
    (f : PeerSlot → PeerSlot) (id : ℕ) (m : BTreeMap PeerSlot) (k : ℕ) (o : Option PeerSlot)
    → get m id ≡ o
    → get (elim o [ none ↦ m | some slot ↦ insert m id (f slot) ]) k
      ≡ (if id == k then map_option f (get m k) else get m k)
change_with f id m k none h = elim (Bool-cases (id == k)) [
  | inl e ↦ rw (e, sym ((==_iff id k).0 e), h) refl
  | inr e ↦ rw e refl
]
change_with f id m k (some slot) h = elim (Bool-cases (id == k)) [
  | inl e ↦ rw (get-insert m id (f slot) k, e, sym ((==_iff id k).0 e), h) refl
  | inr e ↦ rw (get-insert m id (f slot) k, e) refl
]

pub get-change :
    (f : PeerSlot → PeerSlot) (id : ℕ) (m : BTreeMap PeerSlot) (k : ℕ)
    → get (change f id m) k ≡ (if id == k then map_option f (get m k) else get m k)
unfolding change
get-change f id m k = change_with f id m k (get m id) refl
