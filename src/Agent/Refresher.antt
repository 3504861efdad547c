-- ===== src/Agent/Refresher.antt =====
-- crates/is-agent/src/lib.rs, `go_online_on`: the task that publishes this machine's screens again after every
-- change. Its own publishing is such a change.
use mathlib.Core.Path.{subst}
use inputshare.Base.{
  ℕ, zero, suc, ◌+◌, ◌-◌, ◌≤◌, ◌<◌, ltb, length, Bool, true, false, not, ◌||◌, Option, none, some,
  List, [], ◌∷◌, ◌==◌, ◌≡◌, refl, sym, ap, ◌∙◌, if◌then◌else◌, arith, Bool-cases, inl, inr, Each,
}
use inputshare.Model.{MachineRecord, WorkspaceDoc, DisplayInfo, Platform, Op}
use inputshare.Model.Invariant.{IsValid}
use inputshare.Store.{Codec, Fault}
use inputshare.Agent.{Agent, NetCall, call_net, announce_change, persist, broadcast, record_in}
use inputshare.Agent.Commands.{
  Result, ok, err, mutate, publish_local_facts, upsert_machine, published, is_published, corrected,
}
use inputshare.Agent.Facts.{is_nan}
use inputshare.Agent.Displays.{publish_idem}
use inputshare.Model.Edits.{edit}

-- The channel keeps that many changes for a task that is behind.
abbrev pub kept_changes : ℕ
kept_changes = 64

-- The task, with the changes that it has not received yet.
pub record Refresher : Type 0 where
  pub is_running : Bool
  pub unread : ℕ

module _ (docs : Codec WorkspaceDoc) (displays : List DisplayInfo) (platform : Platform) where
  -- One call of `recv` that does not wait, and what follows it. A task that is too far behind is told so
  -- by an error, and ends.
  unfoldable pub refresh : Option Fault → ℕ → Refresher × Agent → Refresher × Agent
  refresh fault now_ms (r, a) =
      if not r.is_running || r.unread == 0
      then (r, a)
      else if ltb kept_changes r.unread
      then (record r { is_running = false }, a)
      else let b = (publish_local_facts docs fault now_ms displays platform a).1 in
        (record r { unread = r.unread - 1 + (b.notices - a.notices) }, b)

  unfoldable pub refreshes : List (Option Fault × ℕ) → Refresher × Agent → Refresher × Agent
  unfolding refresh
  refreshes [] s = s
  refreshes ((fault, now_ms) ∷ turns) s = refreshes turns (refresh fault now_ms s)

  -- Nothing is left to publish.
  abbrev pub IsPublished : Agent → Type 0
  IsPublished a =
      (fault : Option Fault) (now_ms : ℕ)
      → publish_local_facts docs fault now_ms displays platform a ≡ (ok false, a)

  call_net-notices : (c : NetCall) (a : Agent) → (call_net c a).notices ≡ a.notices
  unfolding call_net
  call_net-notices c a = ground arith

  mutate-notices :
      (fault : Option Fault) (now_ms : ℕ) (op : Op) (a : Agent) (o : Option WorkspaceDoc)
      → a.doc ≡ o
      → (mutate docs fault now_ms op a).1.notices ≤ a.notices + 1
  unfolding mutate announce_change persist
  mutate-notices fault now_ms op a none e = rw e (omega arith)
  mutate-notices fault now_ms op a (some doc) e =
      let made = edit doc a.identity.machine_id now_ms op in
      rw e (
        omega (
          arith,
          call_net-notices (broadcast made.1)
              (announce_change (persist docs fault (record a { doc = some made.0 }))),
        ))

  published-notices :
      (n : ℕ) (r : Result (Unit {0}) × Agent) → r.1.notices ≤ n → (published docs r).1.notices ≤ n
  published-notices n (ok done, b) h = h
  published-notices n (err e, b) h = h

  -- Publishing is one change at most.
  publish-notices :
      (fault : Option Fault) (now_ms : ℕ) (a : Agent) (o : Option MachineRecord)
      → record_in a.doc a.identity.machine_id ≡ o
      → (publish_local_facts docs fault now_ms displays platform a).1.notices ≤ a.notices + 1
  unfolding publish_local_facts upsert_machine
  publish-notices fault now_ms a none e = rw (e, publish_local_facts) (omega arith)
  publish-notices fault now_ms a (some m) e =
      elim (Bool-cases (is_published docs displays platform m)) [
        | inl q ↦ rw (e, publish_local_facts, q) (omega arith)
        | inr q ↦
            let op = Op.upsert_machine (corrected docs displays platform m) in
            rw (e, publish_local_facts, q)
              (published-notices (a.notices + 1) (mutate docs fault now_ms op a)
                (mutate-notices fault now_ms op a a.doc refl))
      ]

  idle :
      (turns : List (Option Fault × ℕ)) (a : Agent)
      → refreshes turns (record { is_running = true; unread = 0 }, a)
        ≡ (record { is_running = true; unread = 0 }, a)
  unfolding refreshes refresh
  idle [] a = refl
  idle ((fault, now_ms) ∷ turns) a = idle turns a

  nothing_left :
      (fault : Option Fault) (now_ms n : ℕ) (a : Agent)
      → IsPublished a
      → n < kept_changes
      → refresh fault now_ms (record { is_running = true; unread = suc n }, a)
        ≡ (record { is_running = true; unread = n }, a)
  unfolding refresh
  nothing_left fault now_ms n a p few =
      let some_unread : (suc n == 0) ≡ false = ground arith in
      let in_reach : ltb kept_changes (suc n) ≡ false = ground arith in
      let left : suc n - 1 + (a.notices - a.notices) ≡ n = omega arith in
      rw (some_unread, in_reach, p fault now_ms, left) refl

  drained :
      (turns : List (Option Fault × ℕ)) (n : ℕ) (a : Agent)
      → IsPublished a
      → n ≤ kept_changes
      → n ≤ length turns
      → refreshes turns (record { is_running = true; unread = n }, a)
        ≡ (record { is_running = true; unread = 0 }, a)
  unfolding refreshes
  drained turns zero a p few enough = idle turns a
  drained [] (suc n) a p few enough = absurd (omega arith)
  drained ((fault, now_ms) ∷ turns) (suc n) a p few enough =
      ap (refreshes turns) (nothing_left fault now_ms n a p (omega arith))
      ∙ drained turns n a p (omega arith) (omega arith)

  first_turn :
      (fault : Option Fault) (now_ms n : ℕ) (a : Agent)
      → n < kept_changes
      → (let b = (publish_local_facts docs fault now_ms displays platform a).1 in
          refresh fault now_ms (record { is_running = true; unread = suc n }, a)
          ≡ (record { is_running = true; unread = n + (b.notices - a.notices) }, b))
  unfolding refresh
  first_turn fault now_ms n a few =
      let some_unread : (suc n == 0) ≡ false = ground arith in
      let in_reach : ltb kept_changes (suc n) ≡ false = ground arith in
      let left : suc n - 1 ≡ n = omega arith in rw (some_unread, in_reach, left) refl

  -- While nothing else changes, the task that publishes the screens of this machine comes to rest,
  -- though what it publishes is itself a change. With a valid document, scales of the screens that are
  -- numbers, and at least one and at most 64 changes unread, it still runs after more turns than there are
  -- unread changes, has read every change, and has nothing left to publish.
  pub refresher_rests :
      (fault : Option Fault) (now_ms : ℕ) (turns : List (Option Fault × ℕ)) (n : ℕ) (a : Agent)
      (doc : WorkspaceDoc)
      → a.doc ≡ some doc
      → IsValid doc
      → Each (λ d. is_nan d.scale_bits ≡ false) displays
      → n < kept_changes
      → suc n ≤ length turns
      → (let end =
            refreshes ((fault, now_ms) ∷ turns) (record { is_running = true; unread = suc n }, a) in
          (end.0 ≡ record { is_running = true; unread = 0 }) × IsPublished end.1)
  unfolding refreshes
  refresher_rests fault now_ms turns n a doc e v h few enough =
      let b = (publish_local_facts docs fault now_ms displays platform a).1 in
      let done : IsPublished b = λ later then_ms.
        publish_idem docs displays platform fault later now_ms then_ms a doc e v h in
      let one = publish-notices fault now_ms a (record_in a.doc a.identity.machine_id) refl in
      let left = n + (b.notices - a.notices) in
      let rest =
        ap (refreshes turns) (first_turn fault now_ms n a few)
        ∙ drained turns left b done (omega arith) (omega arith) in
      (
        ap (λ (s : Refresher × Agent). s.0) rest,
        subst IsPublished (sym (ap (λ (s : Refresher × Agent). s.1) rest)) done,
      )

  ended :
      (turns : List (Option Fault × ℕ)) (n : ℕ) (a : Agent)
      → refreshes turns (record { is_running = false; unread = n }, a)
        ≡ (record { is_running = false; unread = n }, a)
  unfolding refreshes refresh
  ended [] n a = refl
  ended ((fault, now_ms) ∷ turns) n a = ended turns n a

  -- A task that is behind by more than 64 changes ends, and whatever happens later it publishes nothing.
  pub lagging_ends :
      (fault : Option Fault) (now_ms n : ℕ) (turns : List (Option Fault × ℕ)) (a : Agent)
      → kept_changes < n
      → refreshes ((fault, now_ms) ∷ turns) (record { is_running = true; unread = n }, a)
        ≡ (record { is_running = false; unread = n }, a)
  unfolding refreshes refresh
  lagging_ends fault now_ms n turns a behind =
      let some_unread : (n == 0) ≡ false = ground arith in
      let out_of_reach : ltb kept_changes n ≡ true = ground arith in
      rw (some_unread, out_of_reach) (ended turns n a)
