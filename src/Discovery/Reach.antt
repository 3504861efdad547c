-- ===== src/Discovery/Reach.antt =====
-- crates/is-net/src/discovery.rs: each interface has a socket, and each socket an interface.
use mathlib.Core.Path.{subst}
use inputshare.Base.{
  both_true, or_true, true_or, ℕ, Bool, true, List, [], ◌∷◌, ◌==◌, ◌≡◌, inl, inr, refl, sym,
  if◌then◌else◌, arith, Each, Each-imp, Bool-cases, ==_iff,
}
use inputshare.Service.{contains}
use inputshare.Discovery.{
  Interface, Announcer, has_address, same_interface, same_interfaces, retain, bind_senders, refresh,
}

same_addresses :
    (xs ys : List Interface) (P : ℕ → Type 0)
    → same_interfaces xs ys ≡ true
    → Each (λ i. P i.address) ys
    → Each (λ i. P i.address) xs
same_addresses [] [] P h e = tt
same_addresses [] (y ∷ ys) P h e = tt
same_addresses (x ∷ xs) [] P h e = ground arith
same_addresses (x ∷ xs) (y ∷ ys) P h e =
    let both = both_true (same_interface x y) (same_interfaces xs ys) h in
    let place : x.address ≡ y.address =
      (==_iff x.address y.address).0 (both_true (x.address == y.address) _ both.0).0 in
    (subst P (sym place) e.0, same_addresses xs ys P both.1 e.1)

-- No interface is without a socket, and no socket without an interface.
pub record IsReady (a : Announcer) : Type 0 where
  pub covered : Each (λ i. contains a.senders i.address ≡ true) a.known
  pub within : Each (λ s. has_address a.known s ≡ true) a.senders

contains_kept :
    (opens : ℕ → Bool) (is : List Interface) (senders : List ℕ) (x : ℕ)
    → contains senders x ≡ true
    → contains (bind_senders opens is senders) x ≡ true
unfolding bind_senders contains
contains_kept opens [] senders x h = h
contains_kept opens (i ∷ is) senders x h = elim (Bool-cases (contains senders i.address)) [
  | inl e ↦ rw e (contains_kept opens is senders x h)
  | inr e ↦ elim (Bool-cases (opens i.address)) [
    | inl o ↦
        rw (e, o)
          (contains_kept opens is (i.address ∷ senders) x
            (true_or (x == i.address) (contains senders x) h))
    | inr o ↦ rw (e, o) (contains_kept opens is senders x h)
  ]
]

bind_senders-covered :
    (opens : ℕ → Bool) (is : List Interface) (senders : List ℕ)
    → ((x : ℕ) → opens x ≡ true)
    → Each (λ i. contains (bind_senders opens is senders) i.address ≡ true) is
unfolding bind_senders contains
bind_senders-covered opens [] senders all = tt
bind_senders-covered opens (i ∷ is) senders all =
    let next =
      if contains senders i.address
      then senders
      else if opens i.address
      then i.address ∷ senders
      else senders in
    (
      contains_kept opens is next i.address (holds i senders (all i.address)),
      bind_senders-covered opens is next all,
    )
  where
    holds :
        (i : Interface) (senders : List ℕ)
        → opens i.address ≡ true
        → contains
            (if contains senders i.address
              then senders
              else if opens i.address
              then i.address ∷ senders
              else senders)
            i.address
          ≡ true
    holds i senders o = elim (Bool-cases (contains senders i.address)) [
      | inl e ↦ rw e e
      | inr e ↦
          rw (e, o)
            (or_true (i.address == i.address) (contains senders i.address)
              ((==_iff i.address i.address).1 refl))
    ]

bind_senders-within :
    (P : ℕ → Type 0) (opens : ℕ → Bool) (is : List Interface) (senders : List ℕ)
    → Each (λ i. P i.address) is
    → Each P senders
    → Each P (bind_senders opens is senders)
unfolding bind_senders
bind_senders-within P opens [] senders a e = e
bind_senders-within P opens (i ∷ is) senders a e = elim (Bool-cases (contains senders i.address)) [
  | inl h ↦ rw h (bind_senders-within P opens is senders a.1 e)
  | inr h ↦ elim (Bool-cases (opens i.address)) [
    | inl o ↦ rw (h, o) (bind_senders-within P opens is (i.address ∷ senders) a.1 (a.0, e))
    | inr o ↦ rw (h, o) (bind_senders-within P opens is senders a.1 e)
  ]
]

retain-within :
    (senders : List ℕ) (current : List Interface)
    → Each (λ s. has_address current s ≡ true) (retain senders current)
unfolding retain
retain-within [] current = tt
retain-within (s ∷ senders) current = elim (Bool-cases (has_address current s)) [
  | inl h ↦ rw h (h, retain-within senders current)
  | inr h ↦ rw h (retain-within senders current)
]

has_address_head : (i : Interface) (is : List Interface) → has_address (i ∷ is) i.address ≡ true
has_address_head i is = rw ((==_iff i.address i.address).1 refl) refl

pub has_own : (is : List Interface) → Each (λ i. has_address is i.address ≡ true) is
has_own [] = tt
has_own (i ∷ is) = (
  has_address_head i is,
  Each-imp _ _ is (λ j h. (true_or (i.address == j.address) (has_address is j.address) h))
      (has_own is),
)

pub refresh-IsReady :
    (opens : ℕ → Bool) (current : List Interface) (a : Announcer)
    → ((x : ℕ) → opens x ≡ true)
    → IsReady a
    → IsReady (refresh opens current a)
unfolding refresh
refresh-IsReady opens current a all h = elim (Bool-cases (same_interfaces current a.known)) [
  | inl e ↦ rw (e, refresh) h
  | inr e ↦
      rw (e, refresh)
        (record {
          covered = bind_senders-covered opens current (retain a.senders current) all;
          within =
              bind_senders-within (λ s. has_address current s ≡ true) opens current
                (retain a.senders current) (has_own current) (retain-within a.senders current);
        })
]

-- What holds of the addresses that are known after a refresh holds of those that were found.
pub refresh-known :
    (opens : ℕ → Bool) (current : List Interface) (a : Announcer) (P : ℕ → Type 0)
    → Each (λ i. P i.address) (refresh opens current a).known
    → Each (λ i. P i.address) current
unfolding refresh
refresh-known opens current a P = elim (Bool-cases (same_interfaces current a.known)) [
  | inl e ↦ rw (e, refresh) (same_addresses current a.known P e)
  | inr e ↦ rw (e, refresh) (λ h. h)
]

same_has :
    (xs ys : List Interface) (x : ℕ)
    → same_interfaces xs ys ≡ true
    → has_address ys x ≡ has_address xs x
same_has [] [] x h = refl
same_has [] (j ∷ js) x h = ground arith
same_has (i ∷ is) [] x h = ground arith
same_has (i ∷ is) (j ∷ js) x h =
    let both = both_true (same_interface i j) (same_interfaces is js) h in
    let place : i.address ≡ j.address =
      (==_iff i.address j.address).0 (both_true (i.address == j.address) _ both.0).0 in
    rw (place, same_has is js x both.1) refl

pub refresh-has_address :
    (opens : ℕ → Bool) (current : List Interface) (a : Announcer) (x : ℕ)
    → has_address (refresh opens current a).known x ≡ has_address current x
unfolding refresh
refresh-has_address opens current a x = elim (Bool-cases (same_interfaces current a.known)) [
  | inl e ↦ rw (e, refresh) (same_has current a.known x e)
  | inr e ↦ rw (e, refresh) refl
]
