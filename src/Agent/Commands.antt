-- ===== src/Agent/Commands.antt =====
-- crates/is-agent/src/lib.rs: what the person at this machine can ask of the agent. A change of the
-- document is made, saved and handed to the network in `mutate`.
use Prim.Native.String.{String}
use text.Mathlib.Text.{◌==◌ as ◌==ₛ◌}
use inputshare.Base.{ℕ, ◌==◌, Bool, true, false, not, ◌&&◌, Option, none, some, List, if◌then◌else◌}
use inputshare.BTreeMap.{get, insert, remove}
use inputshare.Model.{WorkspaceDoc, WorkspaceSettings, MachineRecord, Platform, DisplayInfo, Op}
use inputshare.Model.Edits.{edit}
use inputshare.Store
use inputshare.Store.{Codec, Fault}
use inputshare.Agent.{
  Agent, Candidate, broadcast, announce_change, call_net, persist, record_in, drop_online,
}
use inputshare.Agent.Facts.{differ, free_position, admission}

pub data Error : Type 0 where
  core : Store.Error → Error
  no_workspace : Error
  unknown_machine : ℕ → Error
  refused : String → Error

pub data Result {ℓ} (A : Type ℓ) : Type ℓ where
  ok : A → Result A
  err : Error → Result A

module _ (docs : Codec WorkspaceDoc) where
  -- One change of the document: made, saved, announced and broadcast.
  unfoldable pub mutate : Option Fault → ℕ → Op → Agent → Result (Unit {0}) × Agent
  unfolding persist announce_change call_net
  mutate fault now_ms op a = elim a.doc [
    | none ↦ (err no_workspace, a)
    | some doc ↦
        let made = edit doc a.identity.machine_id now_ms op in
        (
          ok tt,
          call_net (broadcast made.1)
              (announce_change (persist docs fault (record a { doc = some made.0 }))),
        )
  ]

  unfoldable pub upsert_machine :
      Option Fault → ℕ → MachineRecord → Agent → Result (Unit {0}) × Agent
  unfolding mutate
  upsert_machine fault now_ms m a = mutate fault now_ms (Op.upsert_machine m) a

  unfoldable pub rename_workspace : Option Fault → ℕ → String → Agent → Result (Unit {0}) × Agent
  unfolding mutate
  rename_workspace fault now_ms name a = mutate fault now_ms (Op.set_name name) a

  unfoldable pub update_settings :
      Option Fault → ℕ → WorkspaceSettings → Agent → Result (Unit {0}) × Agent
  unfolding mutate
  update_settings fault now_ms settings a = mutate fault now_ms (Op.set_settings settings) a

  unfoldable pub rename_this_machine :
      (String → String) → Option Fault → ℕ → String → Agent → Result (Unit {0}) × Agent
  unfolding upsert_machine
  rename_this_machine trim fault now_ms name a =
      if trim name ==ₛ ""
      then (err (refused "a computer needs a name"), a)
      else elim (record_in a.doc a.identity.machine_id) [
        | none ↦ (err (unknown_machine a.identity.machine_id), a)
        | some m ↦ upsert_machine fault now_ms (record m { display_name = trim name }) a
      ]

  -- `?` on `mutate` before the candidate is forgotten.
  abbrev pub forget_candidate : ℕ → Result (Unit {0}) × Agent → Result (Unit {0}) × Agent
  forget_candidate id (err e, a) = (err e, a)
  forget_candidate id (ok done, a) = (ok done, record a { candidates = remove a.candidates id })

  abbrev pub admit :
      Option Fault → ℕ → ℕ → Candidate → ℕ → Agent → Option WorkspaceDoc → Result (Unit {0}) × Agent
  admit fault paired_at now_ms c id a none = (
    ok tt,
    announce_change
        (record a { pending_trust = insert a.pending_trust c.machine_id c.identity_key }),
  )
  admit fault paired_at now_ms c id a (some doc) =
      forget_candidate id (
        mutate fault now_ms (Op.upsert_machine (admission c (free_position (some doc)) paired_at))
          a)

  unfoldable pub pair : Option Fault → ℕ → ℕ → ℕ → Agent → Result (Unit {0}) × Agent
  unfolding mutate announce_change free_position admission
  pair fault paired_at now_ms id a = elim (get a.candidates id) [
    | none ↦ (err (unknown_machine id), a)
    | some c ↦ admit fault paired_at now_ms c id a a.doc
  ]

  abbrev pub disconnect : ℕ → Result (Unit {0}) × Agent → Result (Unit {0}) × Agent
  disconnect id (err e, a) = (err e, a)
  disconnect id (ok done, a) = (ok done, record a { online = drop_online a.online id })

  unfoldable pub unpair : Option Fault → ℕ → ℕ → Agent → Result (Unit {0}) × Agent
  unfolding mutate drop_online
  unpair fault now_ms id a =
      if id == a.identity.machine_id
      then (err (refused "a machine cannot remove itself from its own workspace"), a)
      else disconnect id (mutate fault now_ms (Op.remove_machine id) a)

  abbrev pub same_platform : Platform → Platform → Bool
  same_platform Platform.windows Platform.windows = true
  same_platform Platform.mac_os Platform.mac_os = true
  same_platform Platform.linux Platform.linux = true
  same_platform Platform.other Platform.other = true
  same_platform _ _ = false

  -- The record with this machine's screens and platform.
  abbrev pub corrected : List DisplayInfo → Platform → MachineRecord → MachineRecord
  corrected displays platform m = record m {
    displays = (if differ m.displays displays then displays else m.displays);
    platform = platform;
  }

  abbrev pub is_published : List DisplayInfo → Platform → MachineRecord → Bool
  is_published displays platform m =
      not (differ m.displays displays) && same_platform m.platform platform

  abbrev pub published : Result (Unit {0}) × Agent → Result Bool × Agent
  published (err e, a) = (err e, a)
  published (ok done, a) = (ok true, a)

  unfoldable pub publish_local_facts :
      Option Fault → ℕ → List DisplayInfo → Platform → Agent → Result Bool × Agent
  unfolding upsert_machine differ
  publish_local_facts fault now_ms displays platform a =
      elim (record_in a.doc a.identity.machine_id) [
        | none ↦ (ok false, a)
        | some m ↦
            if is_published displays platform m
            then (ok false, a)
            else published (upsert_machine fault now_ms (corrected displays platform m) a)
      ]
