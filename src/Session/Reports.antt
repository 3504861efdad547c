-- ===== src/Session/Reports.antt =====
-- What the dialling task reports to the actor.
use Prim.Native.String.{String}
use inputshare.Base.{
  arith, ℕ, true, false, some, none, Option, List, [], ◌∷◌, ◌++◌, ◌≡◌, ◌⊎◌, inl, inr, refl, sym,
  Bool-cases, ==_iff,
}
use inputshare.Model.{WorkspaceDoc}
use inputshare.Model
use inputshare.Service.{SessionOutcome, established, closed}
use inputshare.Wire.{
  Message, identify, doc_full, update, input, cursor_owner, ping, pong, goodbye, Error, Result, ok,
  err,
}
use inputshare.Session.{
  synced, Workspace, Connection, Progress, Call, Ending, failed, finished, still_open, exchange,
  introduce, authorised, run, expected, separate, id_of, size_of, stopped, conclude, spawn_dial,
  close_after, read_loop,
}

-- A report that ends the session of machine `id`.
abbrev pub EndsFor : ℕ → SessionOutcome → Type 0
EndsFor id (established other name queue) = true ≡ false
EndsFor id (closed other reason) = other ≡ id
EndsFor id (SessionOutcome.rejected other key addr) = other ≡ id
EndsFor id (SessionOutcome.different_workspaces other name key theirs size) = other ≡ id
EndsFor id SessionOutcome.workspace_changed = true ≡ false

-- The last report ends the session.
abbrev pub EndsWith : ℕ → List SessionOutcome → Type 0
EndsWith id reports =
    (front : List SessionOutcome) × (last : SessionOutcome) × (reports ≡ front ++ last ∷ [])
    × EndsFor id last

-- An ended session has reported so, unless it failed.
abbrev EndsAs : ℕ → List SessionOutcome → Ending → Type 0
EndsAs id reports still_open = Unit
EndsAs id reports finished = EndsWith id reports
EndsAs id reports (failed e) = Unit

abbrev Ended : {S : Type 0} → ℕ → Progress S → Type 0
Ended id p = EndsAs id p.reports p.ending

expected_same :
    (o : Option ℕ) (expect id : ℕ) → o ≡ some expect → expected o id ≡ true → id ≡ expect
expected_same (some other) expect id e h = ground (arith, ==_iff other id)
expected_same none expect id e h = ground arith

module _ {S : Type 0} (w : Workspace S) (explain : Error → String)
    (explain_core : Model.Error → String) where
  conclude_ends :
      (id : ℕ) (sent : List Message) (opened : SessionOutcome)
      (r : S × List Call × List SessionOutcome × Option String)
      → Ended id (conclude id sent opened r)
  conclude_ends id sent opened (s, calls, reports, none) = tt
  conclude_ends id sent opened (s, calls, reports, some reason) =
      (opened ∷ reports, closed id reason, refl, refl)

  sync_ends :
      (c : Connection S) (id : ℕ) (hello : Message) (opened : SessionOutcome) (s : S)
      (r : S × List Call × List SessionOutcome × Option String) (doc : Option WorkspaceDoc)
      → Ended id (synced c id hello opened s r doc)
  sync_ends c id hello opened s r none = conclude_ends id (hello ∷ []) opened r
  sync_ends c id hello opened s r (some doc) = elim (Bool-cases c.doc_sent) [
    | inl e ↦ rw e (conclude_ends id (hello ∷ doc_full doc ∷ []) opened r)
    | inr e ↦ rw e tt
  ]

  ap-Ended : {a b : ℕ} (p : Progress S) → a ≡ b → Ended a p → Ended b p
  ap-Ended p e h = rw (sym e) h

  introduce_ends :
      (c : Connection S) (id key : ℕ) (ours : Option WorkspaceDoc) (hello : Message) (s : S)
      (r : Result Message)
      → Ended id (introduce w explain explain_core c id key ours hello s r)
  unfolding introduce
  introduce_ends c id key ours hello s (ok (identify name workspace_id machines)) =
      separated (separate (id_of ours) workspace_id) refl
    where
      separated :
          (o : Option ℕ)
          → separate (id_of ours) workspace_id ≡ o
          → Ended id (
              introduce w explain explain_core c id key ours hello s
                (ok (identify name workspace_id machines)))
      separated none f =
          rw (f, introduce, exchange)
            (sync_ends c id hello (established id name c.queue) s
              (read_loop w explain explain_core id c.arrivals s) (w.snapshot s))
      separated (some theirs) f =
          rw (f, introduce)
            ([], SessionOutcome.different_workspaces id name key theirs machines, refl, refl)
  introduce_ends c id key ours hello s (ok (doc_full doc)) = tt
  introduce_ends c id key ours hello s (ok (update u)) = tt
  introduce_ends c id key ours hello s (ok (input u)) = tt
  introduce_ends c id key ours hello s (ok (cursor_owner u)) = tt
  introduce_ends c id key ours hello s (ok (ping u)) = tt
  introduce_ends c id key ours hello s (ok (pong u)) = tt
  introduce_ends c id key ours hello s (ok (goodbye u)) = tt
  introduce_ends c id key ours hello s (err u) = tt

  authorised_ends :
      (c : Connection S) (s : S) (expect id key : ℕ)
      → c.expect ≡ some expect
      → Ended expect (authorised w explain explain_core c id key s)
  unfolding authorised
  authorised_ends c s expect id key e = elim (Bool-cases (expected c.expect id)) [
    | inr n ↦ rw n tt
    | inl asked ↦
        let same = expected_same c.expect expect id e asked in
        elim (Bool-cases (w.authorize s id key)) [
          | inr n ↦ rw (asked, n) ([], SessionOutcome.rejected id key c.addr, refl, same)
          | inl admitted ↦ elim (Bool-cases c.identify_sent) [
            | inr n ↦ rw (asked, admitted, n) tt
            | inl sent ↦
                rw (asked, admitted, sent)
                  (ap-Ended
                    (introduce w explain explain_core c id key (w.snapshot s)
                      (identify (w.display_name s) (id_of (w.snapshot s)) (size_of (w.snapshot s)))
                      (c.first.meanwhile s) c.first.received)
                    same
                    (introduce_ends c id key (w.snapshot s)
                      (identify (w.display_name s) (id_of (w.snapshot s)) (size_of (w.snapshot s)))
                      (c.first.meanwhile s) c.first.received))
          ]
        ]
  ]

  handshake_ends :
      (c : Connection S) (s : S) (expect : ℕ) (r : Result (ℕ × ℕ))
      → c.expect ≡ some expect
      → Ended expect (elim r [
        | err e ↦ stopped s e
        | ok both ↦ authorised w explain explain_core c both.0 both.1 s
      ])
  handshake_ends c s expect (err e) h = tt
  handshake_ends c s expect (ok (id, key)) h = authorised_ends c s expect id key h

  run_ends :
      (c : Connection S) (s : S) (expect : ℕ)
      → c.expect ≡ some expect
      → Ended expect (run w explain explain_core c s)
  unfolding run
  run_ends c s expect h = handshake_ends c s expect c.handshake h

  close_after_ends :
      (expect : ℕ) (p : Progress S)
      → Ended expect p
      → (let q = close_after w explain explain_core expect p in
          (q.ending ≡ still_open) ⊎ EndsWith expect q.reports)
  close_after_ends expect p h = closing p.ending refl h
    where
      closing :
          (ending : Ending)
          → p.ending ≡ ending
          → EndsAs expect p.reports ending
          → (let q = close_after w explain explain_core expect p in
              (q.ending ≡ still_open) ⊎ EndsWith expect q.reports)
      closing still_open e h = rw e (inl refl)
      closing finished e h = rw e (inr h)
      closing (failed f) e h = rw e (inr (p.reports, closed expect (explain f), refl, refl))

  -- A dialling task ends with a report that its session has ended.
  pub dial_reports :
      (expect : ℕ) (r : Result (Connection S)) (s : S)
      → (let p = spawn_dial w explain explain_core expect r s in
          (p.ending ≡ still_open) ⊎ EndsWith expect p.reports)
  unfolding spawn_dial
  dial_reports expect (err e) s = close_after_ends expect (stopped s e) tt
  dial_reports expect (ok c) s =
      let asked : Connection S = record c { expect = some expect } in
      close_after_ends expect (run w explain explain_core asked s) (run_ends asked s expect refl)
