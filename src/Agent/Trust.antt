-- ===== src/Agent/Trust.antt =====
-- crates/is-agent/src/lib.rs: which keys the agent admits after each operation.
use inputshare.Base.{
  ℕ, Bool, false, Option, none, some, ◌==◌, ◌≡◌, ◌≢◌, refl, if◌then◌else◌, arith, Bool-cases, inl,
  inr,
}
use inputshare.BTreeMap.{BTreeMap, get, insert}
use inputshare.BTreeMap.Laws.{get-insert}
use inputshare.Model.{WorkspaceDoc, MachineRecord, MachineSlot, Op}
use inputshare.Model.Edits.{edit, upsert_machine, remove_machine}
use inputshare.Model.Query.{machine, record_of}
use inputshare.Store.{Codec, Fault}
use inputshare.Agent.{
  record_in, NetCall, Agent, Candidate, authorize, same_key, call_net, announce_change, persist,
  broadcast,
}
use inputshare.Agent.Facts.{admission, free_position}
use inputshare.Agent.Commands.{
  Result, ok, err, disconnect, mutate, pair, unpair, admit, forget_candidate,
}

-- The decision on a record of the document and on what waits for one.
abbrev pub decision : Option MachineRecord → Option ℕ → ℕ → Bool
decision recorded waiting key = elim recorded [
  | some m ↦ m.public_key == key
  | none ↦ same_key waiting key
]

slot_record :
    (m : BTreeMap MachineSlot) (k : ℕ) (slot : MachineSlot) (id : ℕ)
    → record_of (get (insert m k slot) id)
      ≡ (if k == id then record_of (some slot) else record_of (get m id))
slot_record m k slot id = elim (Bool-cases (k == id)) [
  | inl e ↦ rw (get-insert m k slot id, e) refl
  | inr e ↦ rw (get-insert m k slot id, e) refl
]

pub upsert_record :
    (d : WorkspaceDoc) (origin now_ms : ℕ) (m : MachineRecord) (id : ℕ)
    → machine (upsert_machine d origin now_ms m).0 id
      ≡ (if m.id == id then some m else machine d id)
unfolding machine upsert_machine
upsert_record d origin now_ms m id = slot_record d.machines m.id _ id

remove_record :
    (d : WorkspaceDoc) (origin now_ms gone id : ℕ)
    → machine (remove_machine d origin now_ms gone).0 id
      ≡ (if gone == id then none else machine d id)
unfolding machine remove_machine
remove_record d origin now_ms gone id = slot_record d.machines gone _ id

-- What an operation on the document leaves: the document, and the rest of what decides.
pub record Holds (b : Agent) (doc : Option WorkspaceDoc) (pending : BTreeMap ℕ) : Type 0 where
  pub document : b.doc ≡ doc
  pub waiting : b.pending_trust ≡ pending

pub decided :
    (b : Agent) (doc : Option WorkspaceDoc) (pending : BTreeMap ℕ) (id key : ℕ)
    → Holds b doc pending
    → authorize b id key ≡ decision (record_in doc id) (get pending id) key
unfolding authorize
decided b doc pending id key h = rw (h.document, h.waiting) refl

pub call_net-Holds :
    (c : NetCall) (b : Agent) (doc : Option WorkspaceDoc) (pending : BTreeMap ℕ)
    → Holds b doc pending
    → Holds (call_net c b) doc pending
unfolding call_net
call_net-Holds c b doc pending h = elim (Bool-cases b.net) [
  | inl e ↦ rw e (record { document = h.document; waiting = h.waiting })
  | inr e ↦ rw e (record { document = h.document; waiting = h.waiting })
]

upserted_trust :
    (a b : Agent) (doc : WorkspaceDoc) (origin now_ms : ℕ) (m : MachineRecord) (id key : ℕ)
    → a.doc ≡ some doc
    → Holds b (some (upsert_machine doc origin now_ms m).0) a.pending_trust
    → authorize b id key ≡ (if m.id == id then m.public_key == key else authorize a id key)
upserted_trust a b doc origin now_ms m id key e h =
    let before =
      decided a (some doc) a.pending_trust id key (record { document = e; waiting = refl }) in
    let after = decided b _ a.pending_trust id key h in
    elim (Bool-cases (m.id == id)) [
      | inl q ↦ rw (after, upsert_record doc origin now_ms m id, q) refl
      | inr q ↦ rw (after, upsert_record doc origin now_ms m id, q, before) refl
    ]

removed_trust :
    (a b : Agent) (doc : WorkspaceDoc) (origin now_ms gone id key : ℕ)
    → a.doc ≡ some doc
    → Holds b (some (remove_machine doc origin now_ms gone).0) a.pending_trust
    → authorize b id key
      ≡ (if gone == id then same_key (get a.pending_trust id) key else authorize a id key)
removed_trust a b doc origin now_ms gone id key e h =
    let before =
      decided a (some doc) a.pending_trust id key (record { document = e; waiting = refl }) in
    let after = decided b _ a.pending_trust id key h in
    elim (Bool-cases (gone == id)) [
      | inl q ↦ rw (after, remove_record doc origin now_ms gone id, q) refl
      | inr q ↦ rw (after, remove_record doc origin now_ms gone id, q, before) refl
    ]

module _ (docs : Codec WorkspaceDoc) where
  pub mutate-Holds :
      (fault : Option Fault) (now_ms : ℕ) (op : Op) (a : Agent) (doc : WorkspaceDoc)
      → a.doc ≡ some doc
      → Holds
          (mutate docs fault now_ms op a).1
          (some (edit doc a.identity.machine_id now_ms op).0)
          a.pending_trust
  unfolding mutate announce_change persist
  mutate-Holds fault now_ms op a doc e =
      let made = edit doc a.identity.machine_id now_ms op in
      rw e (
        call_net-Holds (broadcast made.1)
          (announce_change (persist docs fault (record a { doc = some made.0 }))) (some made.0)
          a.pending_trust (record { document = refl; waiting = refl }))

  mutate_ok :
      (fault : Option Fault) (now_ms : ℕ) (op : Op) (a : Agent) (doc : WorkspaceDoc)
      → a.doc ≡ some doc
      → (mutate docs fault now_ms op a).0 ≡ ok tt
  unfolding mutate
  mutate_ok fault now_ms op a doc e = rw e refl

  forgotten-Holds :
      (id : ℕ) (r : Result (Unit {0}) × Agent) (doc : Option WorkspaceDoc) (pending : BTreeMap ℕ)
      → Holds r.1 doc pending
      → Holds (forget_candidate docs id r).1 doc pending
  forgotten-Holds id (ok done, b) doc pending h = record {
    document = h.document;
    waiting = h.waiting;
  }
  forgotten-Holds id (err e, b) doc pending h = h

  disconnected-Holds :
      (id : ℕ) (r : Result (Unit {0}) × Agent) (doc : Option WorkspaceDoc) (pending : BTreeMap ℕ)
      → Holds r.1 doc pending
      → Holds (disconnect docs id r).1 doc pending
  disconnected-Holds id (ok done, b) doc pending h = record {
    document = h.document;
    waiting = h.waiting;
  }
  disconnected-Holds id (err e, b) doc pending h = h

  admit_trust :
      (fault : Option Fault) (paired_at now_ms id : ℕ) (c : Candidate) (a : Agent)
      (o : Option WorkspaceDoc) (other key : ℕ)
      → a.doc ≡ o
      → authorize (admit docs fault paired_at now_ms c id a o).1 other key
        ≡ (if c.machine_id == other then c.identity_key == key else authorize a other key)
  unfolding authorize announce_change admission
  admit_trust fault paired_at now_ms id c a none other key e =
      elim (Bool-cases (c.machine_id == other)) [
        | inl q ↦ rw (e, get-insert a.pending_trust c.machine_id c.identity_key other, q) refl
        | inr q ↦ rw (e, get-insert a.pending_trust c.machine_id c.identity_key other, q) refl
      ]
  admit_trust fault paired_at now_ms id c a (some doc) other key e =
      let m = admission c (free_position (some doc)) paired_at in
      let done = mutate docs fault now_ms (Op.upsert_machine m) a in
      upserted_trust a (forget_candidate docs id done).1 doc a.identity.machine_id now_ms m other
        key e
        (forgotten-Holds id done _ a.pending_trust
          (mutate-Holds fault now_ms (Op.upsert_machine m) a doc e))

  -- A candidate that is admitted, into the document or, where there is none yet, ahead of it: from
  -- then on exactly the key that it showed is admitted for it, and nothing changes for any other machine.
  pub pair_admits :
      (fault : Option Fault) (paired_at now_ms id : ℕ) (c : Candidate) (a : Agent) (other key : ℕ)
      → get a.candidates id ≡ some c
      → authorize (pair docs fault paired_at now_ms id a).1 other key
        ≡ (if c.machine_id == other then c.identity_key == key else authorize a other key)
  unfolding pair
  pair_admits fault paired_at now_ms id c a other key found =
      rw (found, pair) (admit_trust fault paired_at now_ms id c a a.doc other key refl)

  -- A machine other than this one that is removed from the workspace: its record no longer admits it,
  -- only a decision that still waits for a record does, and nothing changes for any other machine.
  pub unpair_revokes :
      (fault : Option Fault) (now_ms id : ℕ) (a : Agent) (doc : WorkspaceDoc) (other key : ℕ)
      → id ≢ a.identity.machine_id
      → a.doc ≡ some doc
      → authorize (unpair docs fault now_ms id a).1 other key
        ≡ (if id == other then same_key (get a.pending_trust other) key else authorize a other key)
  unfolding unpair
  unpair_revokes fault now_ms id a doc other key foreign e =
      let done = mutate docs fault now_ms (Op.remove_machine id) a in
      let theirs : (id == a.identity.machine_id) ≡ false = ground arith in
      rw (theirs, unpair)
        (removed_trust a (disconnect docs id done).1 doc a.identity.machine_id now_ms id other key e
          (disconnected-Holds id done _ a.pending_trust
            (mutate-Holds fault now_ms (Op.remove_machine id) a doc e)))
