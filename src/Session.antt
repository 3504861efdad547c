-- ===== src/Session.antt =====
-- crates/is-net/src/session.rs: one connection to one peer. The workspace is reached through the trait
-- `Workspace` of crates/is-net/src/service.rs, here a record of operations on a state. A connection is
-- given by what happens on it: how the handshake ends, which sends fail, and what arrives, each with
-- what other tasks do to the workspace before it. The pings of the writer task carry nothing, and its
-- queue is filled by the actor.
pub mod Order
pub mod Reports
pub mod Settled
use Prim.Native.String.{String, ◌++◌ as ◌+++◌}
use inputshare.Base.{
  ℕ, ◌%◌, Bool, true, false, not, Option, none, some, List, [], ◌∷◌, ◌++◌, ◌==◌, if◌then◌else◌,
  length, map,
}
use inputshare.Model.{WorkspaceDoc, WorkspaceUpdate}
use inputshare.Model
use inputshare.Model.Query.{machines_present}
use inputshare.Sharing.{InputEvent}
use inputshare.Service.{SocketAddr, SessionOutcome, established, closed}
use inputshare.Wire.{
  Message, identify, doc_full, update, input, cursor_owner, ping, pong, goodbye, Error, io, timeout,
  handshake, Result, ok, err,
}

pub record Workspace (S : Type 0) : Type 0 where
  pub snapshot : S → Option WorkspaceDoc
  pub display_name : S → String
  pub authorize : S → ℕ → ℕ → Bool
  pub merge : S → WorkspaceDoc → Model.Result (Bool × S)
  pub apply : S → WorkspaceUpdate → Model.Result (Bool × S)
  pub on_input : ℕ → List InputEvent → S → S
  pub on_cursor_owner : ℕ → ℕ → S → S

-- What a session asks of the workspace on behalf of its peer.
pub data Call : Type 0 where
  merge : WorkspaceDoc → Call
  apply : WorkspaceUpdate → Call
  on_input : List InputEvent → Call
  on_cursor_owner : ℕ → Call

-- What `recv` gives, and what the other tasks did until then.
pub record Arrival (S : Type 0) : Type 0 where
  pub meanwhile : S → S
  pub received : Result Message

pub record Connection (S : Type 0) : Type 0 where
  pub addr : SocketAddr
  pub handshake : Result (ℕ × ℕ)
  pub expect : Option ℕ
  pub identify_sent : Bool
  pub first : Arrival S
  pub doc_sent : Bool
  pub queue : ℕ
  pub arrivals : List (Arrival S)

-- `open` is a session that still waits for its peer.
pub data Ending : Type 0 where
  finished still_open : Ending
  failed : Error → Ending

pub record Progress (S : Type 0) : Type 0 where
  pub state : S
  pub calls : List Call
  pub sent : List Message
  pub reports : List SessionOutcome
  pub ending : Ending

-- The state after a message, the call, the report to the actor, and the reason to stop.
pub record Handled (S : Type 0) : Type 0 where
  pub next : S
  pub call : List Call
  pub report : List SessionOutcome
  pub stop : Option String

abbrev pub quiet : {S : Type 0} → S → List Call → Option String → Handled S
quiet s calls stop = record { next = s; call = calls; report = []; stop = stop }

abbrev pub stopped : {S : Type 0} → S → Error → Progress S
stopped s e = record { state = s; calls = []; sent = []; reports = []; ending = failed e }

-- The end of `run`: the loop, and the report that the session is closed.
abbrev pub conclude :
    {S : Type 0}
    → ℕ
    → List Message
    → SessionOutcome
    → S × List Call × List SessionOutcome × Option String
    → Progress S
conclude id sent opened (s, calls, reports, none) = record {
  state = s;
  calls = calls;
  sent = sent;
  reports = opened ∷ reports;
  ending = still_open;
}
conclude id sent opened (s, calls, reports, some reason) = record {
  state = s;
  calls = calls;
  sent = sent;
  reports = opened ∷ (reports ++ closed id reason ∷ []);
  ending = finished;
}

abbrev pub size_of : Option WorkspaceDoc → ℕ
size_of none = 0
size_of (some doc) = length (machines_present doc) % 4294967296

abbrev pub id_of : Option WorkspaceDoc → Option ℕ
id_of none = none
id_of (some doc) = some doc.workspace_id

abbrev pub separate : Option ℕ → Option ℕ → Option ℕ
separate (some ours) (some theirs) = if ours == theirs then none else some theirs
separate _ _ = none

abbrev pub farewell : Message
farewell = goodbye "our configurations are separate; one of us will adopt the other"

abbrev pub expected : Option ℕ → ℕ → Bool
expected none id = true
expected (some other) id = other == id

-- Both sides send their document, if they have one. The loop follows.
abbrev pub synced :
    {S : Type 0}
    → Connection S
    → ℕ
    → Message
    → SessionOutcome
    → S
    → S × List Call × List SessionOutcome × Option String
    → Option WorkspaceDoc
    → Progress S
synced c id hello opened s rest none = conclude id (hello ∷ []) opened rest
synced c id hello opened s rest (some doc) =
    if c.doc_sent then conclude id (hello ∷ doc_full doc ∷ []) opened rest else record {
      state = s;
      calls = [];
      sent = hello ∷ [];
      reports = opened ∷ [];
      ending = failed io;
    }

module _ {S : Type 0} (w : Workspace S) (explain : Error → String)
    (explain_core : Model.Error → String) where
  abbrev settled : S → Call → String → Model.Result (Bool × S) → Handled S
  settled s c prefix (Model.ok (true, t)) = record {
    next = t;
    call = c ∷ [];
    report = SessionOutcome.workspace_changed ∷ [];
    stop = none;
  }
  settled s c prefix (Model.ok (false, t)) = record {
    next = t;
    call = c ∷ [];
    report = [];
    stop = none;
  }
  settled s c prefix (Model.err e) = record {
    next = s;
    call = c ∷ [];
    report = [];
    stop = some (prefix +++ explain_core e);
  }

  unfoldable pub on_message : ℕ → Message → S → Handled S
  on_message peer (doc_full doc) s =
      settled s (Call.merge doc) "incompatible workspace: " (w.merge s doc)
  on_message peer (update u) s = settled s (Call.apply u) "rejected update: " (w.apply s u)
  on_message peer (input events) s =
      quiet (w.on_input peer events s) (Call.on_input events ∷ []) none
  on_message peer (cursor_owner id) s =
      quiet (w.on_cursor_owner peer id s) (Call.on_cursor_owner id ∷ []) none
  on_message peer (goodbye reason) s = quiet s [] (some reason)
  on_message peer other s = quiet s [] none

  abbrev on_received : ℕ → Result Message → S → Handled S
  on_received peer (ok message) s = on_message peer message s
  on_received peer (err timeout) s = quiet s [] (some "peer went quiet")
  on_received peer (err e) s = quiet s [] (some (explain e))

  -- The state, the calls and the reports of the loop, and why it ended if it has.
  unfoldable pub read_loop :
      ℕ → List (Arrival S) → S → S × List Call × List SessionOutcome × Option String
  unfolding on_message
  read_loop peer [] s = (s, [], [], none)
  read_loop peer (a ∷ rest) s =
      let h = on_received peer a.received (a.meanwhile s) in
      let later = read_loop peer rest h.next in
      elim h.stop [
        | some reason ↦ (h.next, h.call, h.report, some reason)
        | none ↦ (later.0, h.call ++ later.1, h.report ++ later.2, later.3)
      ]

  unfoldable pub exchange : Connection S → ℕ → String → Message → S → Progress S
  unfolding read_loop
  exchange c id name hello s =
      synced c id hello (established id name c.queue) s (read_loop id c.arrivals s) (w.snapshot s)

  -- What follows the peer's first message.
  unfoldable pub introduce :
      Connection S → ℕ → ℕ → Option WorkspaceDoc → Message → S → Result Message → Progress S
  unfolding exchange
  introduce c id key ours hello s (ok (identify name workspace_id machines)) =
      elim (separate (id_of ours) workspace_id) [
        | some theirs ↦ record {
          state = s;
          calls = [];
          sent = hello ∷ farewell ∷ [];
          reports = SessionOutcome.different_workspaces id name key theirs machines ∷ [];
          ending = finished;
        }
        | none ↦ exchange c id name hello s
      ]
  introduce c id key ours hello s (ok other) = record {
    state = s;
    calls = [];
    sent = hello ∷ [];
    reports = [];
    ending = failed (handshake "peer did not identify itself");
  }
  introduce c id key ours hello s (err e) = record {
    state = s;
    calls = [];
    sent = hello ∷ [];
    reports = [];
    ending = failed e;
  }

  unfoldable pub authorised : Connection S → ℕ → ℕ → S → Progress S
  unfolding introduce
  authorised c id key s =
      let ours = w.snapshot s in
      let hello = identify (w.display_name s) (id_of ours) (size_of ours) in
      if not (expected c.expect id)
      then stopped s (handshake "connected to a different machine")
      else if not (w.authorize s id key)
      then record {
        state = s;
        calls = [];
        sent = [];
        reports = SessionOutcome.rejected id key c.addr ∷ [];
        ending = finished;
      }
      else if not c.identify_sent
      then stopped s io
      else introduce c id key ours hello (c.first.meanwhile s) c.first.received

  unfoldable pub run : Connection S → S → Progress S
  unfolding authorised
  run c s = elim c.handshake [ err e ↦ stopped s e | ok both ↦ authorised c both.0 both.1 s ]

  abbrev close_after : ℕ → Progress S → Progress S
  close_after expect p = elim p.ending [
    | failed e ↦ record p { reports = p.reports ++ closed expect (explain e) ∷ [] }
    | other ↦ p
  ]

  -- The dialling task. The connection itself may fail.
  unfoldable pub spawn_dial : ℕ → Result (Connection S) → S → Progress S
  unfolding run
  spawn_dial expect (err e) s = close_after expect (stopped s e)
  spawn_dial expect (ok c) s = close_after expect (run (record c { expect = some expect }) s)

  -- The task of a connection that was accepted: an error is only logged.
  unfoldable pub spawn_accepted : Connection S → S → Progress S
  unfolding run
  spawn_accepted c s = run (record c { expect = none }) s
