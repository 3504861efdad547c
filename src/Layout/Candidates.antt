-- ===== src/Layout/Candidates.antt =====
-- The list of candidates: whom it holds, that it is sorted by distance, and which entry of it the
-- offline rule picks.
use inputshare.Base.{true, false, ◌≡◌, inl, inr, List, [], ◌∷◌, arith, Each, Each-imp, Bool-cases}
use inputshare.Layout.{Candidate, key_le, insert_by_key, sort_by_key}

pub key_le_refl : (a : Candidate) → key_le a a ≡ true
unfolding key_le
key_le_refl a = ground arith

key_le_total : (a b : Candidate) → key_le a b ≡ false → key_le b a ≡ true
unfolding key_le
key_le_total a b h = ground arith

key_le_trans : (a b c : Candidate) → key_le a b ≡ true → key_le b c ≡ true → key_le a c ≡ true
unfolding key_le
key_le_trans a b c h k = ground arith

module _ {κ} (P : Candidate → Type κ) where
  Each-insert :
      (c : Candidate) (cs : List Candidate) → P c → Each P cs → Each P (insert_by_key c cs)
  unfolding insert_by_key
  Each-insert c [] p a = (p, tt)
  Each-insert c (e ∷ cs) p a = elim (Bool-cases (key_le c e)) [
    | inl h ↦ rw h (p, a)
    | inr h ↦ rw h (a.0, Each-insert c cs p a.1)
  ]

  pub Each-sort : (cs : List Candidate) → Each P cs → Each P (sort_by_key cs)
  unfolding sort_by_key
  Each-sort [] a = tt
  Each-sort (c ∷ cs) a = Each-insert c (sort_by_key cs) a.0 (Each-sort cs a.1)

  Each-uninsert :
      (c : Candidate) (cs : List Candidate) → Each P (insert_by_key c cs) → P c × Each P cs
  unfolding insert_by_key
  Each-uninsert c [] a = a
  Each-uninsert c (e ∷ cs) a = elim (Bool-cases (key_le c e)) [
    | inl h ↦ rw h at a
    | inr h ↦
        let b : Each P (e ∷ insert_by_key c cs) = rw h at a in
        let r = Each-uninsert c cs b.1 in (r.0, (b.0, r.1))
  ]

  pub Each-unsort : (cs : List Candidate) → Each P (sort_by_key cs) → Each P cs
  unfolding sort_by_key
  Each-unsort [] a = tt
  Each-unsort (c ∷ cs) a = let r = Each-uninsert c (sort_by_key cs) a in (r.0, Each-unsort cs r.1)

abbrev pub IsOrdered : List Candidate → Type 0
IsOrdered [] = Unit
IsOrdered (c ∷ cs) = Each (λ e. key_le c e ≡ true) cs × IsOrdered cs

insert-IsOrdered :
    (c : Candidate) (cs : List Candidate) → IsOrdered cs → IsOrdered (insert_by_key c cs)
unfolding insert_by_key
insert-IsOrdered c [] o = (tt, tt)
insert-IsOrdered c (e ∷ cs) o = elim (Bool-cases (key_le c e)) [
  | inl h ↦ rw h ((h, Each-imp _ _ cs (λ x q. key_le_trans c e x h q) o.0), o)
  | inr h ↦ rw h (
    Each-insert (λ x. key_le e x ≡ true) c cs (key_le_total c e h) o.0,
    insert-IsOrdered c cs o.1,
  )
]

pub sort-IsOrdered : (cs : List Candidate) → IsOrdered (sort_by_key cs)
unfolding sort_by_key
sort-IsOrdered [] = tt
sort-IsOrdered (c ∷ cs) = insert-IsOrdered c (sort_by_key cs) (sort-IsOrdered cs)
