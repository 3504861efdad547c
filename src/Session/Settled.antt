-- ===== src/Session/Settled.antt =====
-- What the reports of a dialling task do to the peer's slot in the actor.
use Prim.Native.String.{String}
use inputshare.Base.{
  ℕ, some, List, [], ◌∷◌, ◌++◌, ◌==◌, ◌≡◌, ◌⊎◌, inl, inr, refl, arith, Bool-cases, ==_iff,
}
use inputshare.Model
use inputshare.BTreeMap.{BTreeMap, get, insert}
use inputshare.BTreeMap.Laws.{get-insert}
use inputshare.Service.{
  emit, SessionOutcome, established, closed, Actor, PeerSlot, Status, SocketAddr, change, slot_or,
  new_slot,
}
use inputshare.Service.Laws.{get-change}
use inputshare.Service.Handlers.{on_session, close_slot, refuse_slot, open_slot}
use inputshare.Wire.{Error, Result}
use inputshare.Session.{Workspace, Connection, still_open, spawn_dial}
use inputshare.Session.Reports.{EndsFor, EndsWith, dial_reports}

-- The actor after the reports of a session, each handled at `now`.
abbrev pub told : ℕ → List SessionOutcome → Actor → Actor
told now [] a = a
told now (report ∷ reports) a = told now reports (on_session now report a)

told-append :
    (now : ℕ) (front : List SessionOutcome) (last : SessionOutcome) (a : Actor)
    → told now (front ++ last ∷ []) a ≡ on_session now last (told now front a)
told-append now [] last a = refl
told-append now (r ∷ front) last a = told-append now front last (on_session now r a)

abbrev Known : ℕ → Actor → Type 0
Known id a = (slot : PeerSlot) × (get a.peers id ≡ some slot)

known_insert :
    (id k : ℕ) (new : PeerSlot) (m : BTreeMap PeerSlot)
    → (slot : PeerSlot) × (get m id ≡ some slot)
    → (slot : PeerSlot) × (get (insert m k new) id ≡ some slot)
known_insert id k new m (slot, e) = elim (Bool-cases (k == id)) [
  | inl h ↦ (new, rw (get-insert m k new id, h) refl)
  | inr h ↦ (slot, rw (get-insert m k new id, h) e)
]

known_change :
    (id k : ℕ) (f : PeerSlot → PeerSlot) (m : BTreeMap PeerSlot)
    → (slot : PeerSlot) × (get m id ≡ some slot)
    → (slot : PeerSlot) × (get (change f k m) id ≡ some slot)
known_change id k f m (slot, e) = elim (Bool-cases (k == id)) [
  | inl h ↦ (f slot, rw (get-change f k m id, h, e) refl)
  | inr h ↦ (slot, rw (get-change f k m id, h) e)
]

Known-session :
    (now id : ℕ) (r : SessionOutcome) (a : Actor) → Known id a → Known id (on_session now r a)
unfolding on_session emit
Known-session now id (established other name queue) a k =
    known_insert id other
      (open_slot name queue now (slot_or (get a.peers other) (new_slot name now))) a.peers k
Known-session now id (closed other reason) a k = known_change id other (close_slot now) a.peers k
Known-session now id (SessionOutcome.rejected other key addr) a k = k
Known-session now id (SessionOutcome.different_workspaces other name key theirs size) a k =
    known_change id other (refuse_slot now) a.peers k
Known-session now id SessionOutcome.workspace_changed a k = k

Known-told :
    (now id : ℕ) (reports : List SessionOutcome) (a : Actor)
    → Known id a
    → Known id (told now reports a)
Known-told now id [] a k = k
Known-told now id (r ∷ reports) a k =
    Known-told now id reports (on_session now r a) (Known-session now id r a k)

-- The slot of `id` is offline.
abbrev pub Settled : ℕ → Actor → Type 0
Settled id a = (slot : PeerSlot) × (get a.peers id ≡ some slot) × (slot.status ≡ Status.offline)

-- The last report is the rejection of the machine.
abbrev pub Rejected : ℕ → List SessionOutcome → Type 0
Rejected id reports =
    (front : List SessionOutcome) × (key : ℕ) × (addr : SocketAddr) × (reports
      ≡ front ++ SessionOutcome.rejected id key addr ∷ [])

settled_change :
    (id : ℕ) (f : PeerSlot → PeerSlot) (m : BTreeMap PeerSlot)
    → ((slot : PeerSlot) → (f slot).status ≡ Status.offline)
    → (slot : PeerSlot) × (get m id ≡ some slot)
    → (slot : PeerSlot) × (get (change f id m) id ≡ some slot) × (slot.status ≡ Status.offline)
settled_change id f m off (slot, e) =
    (f slot, rw (get-change f id m id, (==_iff id id).1 refl, e) refl, off slot)

last_settles :
    (now id : ℕ) (front : List SessionOutcome) (last : SessionOutcome) (a : Actor)
    → EndsFor id last
    → Known id a
    → (Rejected id (front ++ last ∷ [])) ⊎ Settled id (on_session now last a)
unfolding on_session emit close_slot refuse_slot
last_settles now id front (established other name queue) a e k = ground arith
last_settles now id front (closed other reason) a e k =
    rw e (inr (settled_change id (close_slot now) a.peers (λ s. refl) k))
last_settles now id front (SessionOutcome.rejected other key addr) a e k =
    inl (front, key, addr, rw e refl)
last_settles now id front (SessionOutcome.different_workspaces other name key theirs size) a e k =
    rw e (inr (settled_change id (refuse_slot now) a.peers (λ s. refl) k))
last_settles now id front SessionOutcome.workspace_changed a e k = ground arith

reports_settle :
    (now id : ℕ) (reports : List SessionOutcome) (a : Actor)
    → EndsWith id reports
    → Known id a
    → Rejected id reports ⊎ Settled id (told now reports a)
reports_settle now id reports a (front, last, e, ends) k =
    rw (e, told-append now front last a)
      (last_settles now id front last (told now front a) ends (Known-told now id front a k))

-- When the actor, which has a slot for the machine that was dialled, handles every report of the
-- dialling task, the slot is offline afterwards and can be dialled again; unless the session is still
-- open, or its last report is that the workspace has rejected the machine.
pub dial_settles :
    {S : Type 0} (w : Workspace S) (explain : Error → String) (explain_core : Model.Error → String)
    (expect : ℕ) (r : Result (Connection S)) (s : S) (now : ℕ) (a : Actor) (slot : PeerSlot)
    → get a.peers expect ≡ some slot
    → (let p = spawn_dial w explain explain_core expect r s in
        (p.ending ≡ still_open)
        ⊎ (Rejected expect p.reports ⊎ Settled expect (told now p.reports a)))
dial_settles w explain explain_core expect r s now a slot known =
    elim (dial_reports w explain explain_core expect r s) [
      | inl o ↦ inl o
      | inr e ↦ inr (
          reports_settle now expect (spawn_dial w explain explain_core expect r s).reports a e
            (slot, known))
    ]
