-- ===== src/Session/Order.antt =====
-- What a session does before its peer is admitted, and before it has said which workspace it is in.
use Prim.Native.String.{String}
use inputshare.Base.{
  ℕ, Bool, true, false, not, some, none, Option, [], ◌≡◌, ◌⊎◌, inl, inr, refl, if◌then◌else◌,
  Bool-cases, Each,
}
use inputshare.Model.{WorkspaceDoc}
use inputshare.Model
use inputshare.Wire.{
  Message, identify, doc_full, update, input, cursor_owner, ping, pong, goodbye, io, Error, Result,
  ok, err,
}
use inputshare.Session.{
  stopped, Workspace, Connection, Progress, introduce, authorised, run, expected, separate, id_of,
  size_of,
}

-- No document, update or input is in the message.
abbrev pub IsPlain : Message → Type 0
IsPlain (doc_full doc) = true ≡ false
IsPlain (update u) = true ≡ false
IsPlain (input events) = true ≡ false
IsPlain other = Unit

module _ {S : Type 0} (w : Workspace S) (explain : Error → String)
    (explain_core : Model.Error → String) where
  -- The handshake has shown the peer's key, and the workspace admits it.
  pub record IsAdmitted (c : Connection S) (s : S) (id key : ℕ) : Type 0 where
    pub shown : c.handshake ≡ ok (id, key)
    pub asked : expected c.expect id ≡ true
    pub admitted : w.authorize s id key ≡ true

  -- The peer has named a workspace that can be ours.
  pub record IsIdentified (c : Connection S) (s : S) : Type 0 where
    pub name : String
    pub workspace_id : Option ℕ
    pub size : ℕ
    pub named : c.first.received ≡ ok (identify name workspace_id size)
    pub ours : separate (id_of (w.snapshot s)) workspace_id ≡ none

  abbrev pub Untouched : Progress S → Type 0
  Untouched p = (p.calls ≡ []) × (p.sent ≡ [])

  abbrev pub Reserved : Progress S → Type 0
  Reserved p = (p.calls ≡ []) × Each IsPlain p.sent

  introduce_order :
      (c : Connection S) (s t : S) (id key : ℕ) (name : String) (received : Result Message)
      → c.first.received ≡ received
      → (let ours = w.snapshot s in
          Reserved (
            introduce w explain explain_core c id key ours
              (identify name (id_of ours) (size_of ours))
              t
              received)
          ⊎ IsIdentified c s)
  unfolding introduce
  introduce_order c s t id key name (ok (identify n workspace_id machines)) e =
      identified (separate (id_of (w.snapshot s)) workspace_id) refl
    where
      identified :
          (o : Option ℕ)
          → separate (id_of (w.snapshot s)) workspace_id ≡ o
          → Reserved (
              introduce w explain explain_core c id key
                (w.snapshot s)
                (identify name (id_of (w.snapshot s)) (size_of (w.snapshot s)))
                t
                (ok (identify n workspace_id machines)))
            ⊎ IsIdentified c s
      identified none f =
          inr
            (record { name = n; workspace_id = workspace_id; size = machines; named = e; ours = f })
      identified (some theirs) f = inl (rw (f, introduce) (refl, (tt, (tt, tt))))
  introduce_order c s t id key name (ok (doc_full doc)) e = inl (refl, (tt, tt))
  introduce_order c s t id key name (ok (update u)) e = inl (refl, (tt, tt))
  introduce_order c s t id key name (ok (input u)) e = inl (refl, (tt, tt))
  introduce_order c s t id key name (ok (cursor_owner u)) e = inl (refl, (tt, tt))
  introduce_order c s t id key name (ok (ping u)) e = inl (refl, (tt, tt))
  introduce_order c s t id key name (ok (pong u)) e = inl (refl, (tt, tt))
  introduce_order c s t id key name (ok (goodbye u)) e = inl (refl, (tt, tt))
  introduce_order c s t id key name (err u) e = inl (refl, (tt, tt))

  sent_order :
      (c : Connection S) (s : S) (id key : ℕ) (sent : Bool)
      → (let ours = w.snapshot s in
          Reserved (
            if not sent
            then stopped s io
            else introduce w explain explain_core c id key ours
                (identify (w.display_name s) (id_of ours) (size_of ours))
                (c.first.meanwhile s)
                c.first.received)
          ⊎ IsIdentified c s)
  sent_order c s id key true =
      introduce_order c s (c.first.meanwhile s) id key (w.display_name s) c.first.received refl
  sent_order c s id key false = inl (refl, tt)

  authorised_order :
      (c : Connection S) (s : S) (id key : ℕ)
      → c.handshake ≡ ok (id, key)
      → (let p = authorised w explain explain_core c id key s in
          (Untouched p ⊎ IsAdmitted c s id key) × (Reserved p ⊎ IsIdentified c s))
  unfolding authorised
  authorised_order c s id key shown = elim (Bool-cases (expected c.expect id)) [
    | inr n ↦ rw n (inl (refl, refl), inl (refl, tt))
    | inl asked ↦ elim (Bool-cases (w.authorize s id key)) [
      | inr n ↦ rw (asked, n) (inl (refl, refl), inl (refl, tt))
      | inl admitted ↦ (
        inr (record { shown = shown; asked = asked; admitted = admitted }),
        rw (asked, admitted) (sent_order c s id key c.identify_sent),
      )
    ]
  ]

  handshake_order :
      (c : Connection S) (s : S) (r : Result (ℕ × ℕ))
      → c.handshake ≡ r
      → (let p : Progress S = elim r [
        | err e ↦ stopped s e
        | ok both ↦ authorised w explain explain_core c both.0 both.1 s
      ] in
          (Untouched p ⊎ ((id : ℕ) × (key : ℕ) × IsAdmitted c s id key))
          × (Reserved p ⊎ IsIdentified c s))
  handshake_order c s (err e) h = (inl (refl, refl), inl (refl, tt))
  handshake_order c s (ok (id, key)) h =
      let o = authorised_order c s id key h in
      (elim o.0 [ inl u ↦ inl u | inr a ↦ inr (id, key, a) ], o.1)

  -- The order of a session: it sends nothing and asks nothing of the workspace unless the handshake has
  -- shown a key that the workspace admits, of the machine that was dialled; and it sends no document
  -- and asks nothing of the workspace unless the peer has named a workspace that can be ours.
  pub session_order :
      (c : Connection S) (s : S)
      → (let p = run w explain explain_core c s in
          (Untouched p ⊎ ((id : ℕ) × (key : ℕ) × IsAdmitted c s id key))
          × (Reserved p ⊎ IsIdentified c s))
  unfolding run
  session_order c s = handshake_order c s c.handshake refl
