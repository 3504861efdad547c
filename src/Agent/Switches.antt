-- ===== src/Agent/Switches.antt =====
-- crates/is-agent/src/lib.rs: the sharing switch.
use Prim.Native.String.{String}
use inputshare.Base.{
  ℕ, Bool, true, false, Option, none, some, ◌≡◌, ◌≢◌, ◌∙◌, ap, refl, sym, arith, Bool-cases, inl,
  inr,
}
use inputshare.Store.{Bytes, Codec, denied}
use inputshare.Store.Crash.{read-write}
use inputshare.Store.Files.{LocalPrefs, load_prefs, save_prefs}
use inputshare.Agent.{Agent, announce_change}
use inputshare.Agent.Facts.{same_bool}
use inputshare.Agent.Commands.{ok}
use inputshare.Agent.Local.{
  remember_sharing, sharing_was_on, same_owner, set_sharing, switch, note_cursor_owner,
}

same_bool_sound : (a b : Bool) → same_bool a b ≡ true → a ≡ b
same_bool_sound true true h = refl
same_bool_sound true false h = ground arith
same_bool_sound false true h = ground arith
same_bool_sound false false h = refl

module _ (prefs : Codec LocalPrefs) where
  saved_prefs :
      (v : LocalPrefs) (a : Agent) (b : Bytes)
      → prefs.encode v ≡ some b
      → a.disk.prefs.main ≢ denied
      → load_prefs prefs (save_prefs prefs v none a.disk).1 ≡ v
  unfolding load_prefs save_prefs
  saved_prefs v a b e q = let w = read-write prefs v b a.disk.prefs e q in ground arith

  remembered :
      (enabled : Bool) (a : Agent) (b : Bytes)
      → prefs.encode (record { sharing = enabled }) ≡ some b
      → a.disk.prefs.main ≢ denied
      → (load_prefs prefs (remember_sharing prefs enabled none a).disk).sharing ≡ enabled
  unfolding remember_sharing
  remembered enabled a b e q =
      elim (Bool-cases (same_bool (load_prefs prefs a.disk).sharing enabled)) [
        | inl h ↦ rw h (same_bool_sound (load_prefs prefs a.disk).sharing enabled h)
        | inr h ↦ rw (h, saved_prefs (record { sharing = enabled }) a b e q) refl
      ]

  note_cursor_owner-disk :
      (owner : Option ℕ) (a : Agent) → (note_cursor_owner owner a).disk ≡ a.disk
  unfolding note_cursor_owner announce_change
  note_cursor_owner-disk owner a = elim (Bool-cases (same_owner a.cursor_owner owner)) [
    | inl e ↦ rw e refl
    | inr e ↦ rw e refl
  ]

  note_cursor_owner-sharing :
      (owner : Option ℕ) (a : Agent) → (note_cursor_owner owner a).sharing ≡ a.sharing
  unfolding note_cursor_owner announce_change
  note_cursor_owner-sharing owner a = elim (Bool-cases (same_owner a.cursor_owner owner)) [
    | inl e ↦ rw e refl
    | inr e ↦ rw e refl
  ]

  switch-disk :
      (failure : Option String) (enabled : Bool) (a : Agent)
      → (switch prefs failure enabled a).1.disk ≡ a.disk
  unfolding announce_change
  switch-disk none true a = refl
  switch-disk (some reason) true a = refl
  switch-disk failure false a = note_cursor_owner-disk none _

  switch-sharing :
      (failure : Option String) (enabled : Bool) (a : Agent)
      → (switch prefs failure enabled a).0 ≡ ok tt
      → (switch prefs failure enabled a).1.sharing ≡ enabled
  unfolding announce_change note_cursor_owner
  switch-sharing none true a h = refl
  switch-sharing (some reason) true a h = cc
  switch-sharing failure false a h =
      note_cursor_owner-sharing none (record a { sharing = false; remote_input = none })

  -- The choice to share or not is what the next launch finds, even where the capture of input
  -- cannot start; and where no error is returned, the switch is as it was asked for.
  pub choice_remembered :
      (failure : Option String) (enabled : Bool) (a : Agent) (b : Bytes)
      → prefs.encode (record { sharing = enabled }) ≡ some b
      → a.disk.prefs.main ≢ denied
      → (let done = set_sharing prefs failure enabled none a in
          (sharing_was_on prefs done.1 ≡ enabled) × (done.0 ≡ ok tt → done.1.sharing ≡ enabled))
  unfolding set_sharing sharing_was_on
  choice_remembered failure enabled a b e q =
      let chosen = remember_sharing prefs enabled none a in
      let kept = remembered enabled a b e q in
      elim (Bool-cases (same_bool enabled chosen.sharing)) [
        | inl h ↦ rw h (kept, λ _. sym (same_bool_sound enabled chosen.sharing h))
        | inr h ↦ rw h (
          ap (λ d. (load_prefs prefs d).sharing) (switch-disk failure enabled chosen) ∙ kept,
          switch-sharing failure enabled chosen,
        )
      ]
