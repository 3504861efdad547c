-- ===== src/Input/Capture/Watchdog.antt =====
-- When local input is swallowed, and when no more.
use inputshare.Base.{
  true, ◌∙◌, Each, ℕ, ◌+◌, ◌<◌, Bool, false, not, ◌||◌, Option, none, some, List, [], ◌∷◌, ◌==◌,
  ◌≡◌, inl, inr, refl, arith, Bool-cases,
}
use inputshare.Sharing.{InputEvent}
use inputshare.Input.Capture.{
  injected_marker, is_key, Hooks, Verdict, pass, watchdog_limit_ms, suppressing_now, emit,
  MouseMessage, KeyMessage, mouse_hook, mouse_event, keyboard_hook, judged, reported, is_emergency,
  heartbeat,
}

-- What the system calls the hooks with, at a time.
pub data Report : Type 0 where
  mouse : Bool → MouseMessage → ℕ → ℕ → Report
  keyboard : Bool → KeyMessage → ℕ → ℕ → ℕ → ℕ → ℕ → (ℕ → Bool) → Report
  alive : ℕ → Report

module _ (xbutton1 vk_f12 vk_control vk_menu : ℕ) where
  unfoldable pub answer : Report → Hooks → Verdict × Hooks
  unfolding mouse_hook keyboard_hook heartbeat
  answer (mouse negative message extra now) h = mouse_hook xbutton1 negative message extra now h
  answer (keyboard negative message vk scan flags extra now held) h =
      keyboard_hook vk_f12 vk_control vk_menu held negative message vk scan flags extra now h
  answer (alive now) h = (pass, heartbeat now h)

  unfoldable pub answers : List Report → Hooks → List Verdict × Hooks
  unfolding answer
  answers [] h = ([], h)
  answers (r ∷ rs) h =
      let here = answer r h in let later = answers rs here.1 in (here.0 ∷ later.0, later.1)

  abbrev pub at : Report → ℕ
  at (mouse negative message extra now) = now
  at (keyboard negative message vk scan flags extra now held) = now
  at (alive now) = now

  abbrev pub is_alive : Report → Bool
  is_alive (alive now) = true
  is_alive other = false

  -- The event goes on, and nothing is to be swallowed.
  abbrev pub Passed : Verdict × Hooks → Type 0
  Passed r = (r.0 ≡ pass) × (r.1.suppressing ≡ false)

  released_judged :
      (now : ℕ) (h : Hooks)
      → h.suppressing ≡ false
      → Passed (judged xbutton1 (suppressing_now now h))
  unfolding suppressing_now
  released_judged now h e = ground arith

  late_judged :
      (now : ℕ) (h : Hooks)
      → h.watchdog + watchdog_limit_ms < now
      → Passed (judged xbutton1 (suppressing_now now h))
  unfolding suppressing_now
  late_judged now h e = ground arith

  judged_watchdog :
      (now : ℕ) (h : Hooks) → (judged xbutton1 (suppressing_now now h)).1.watchdog ≡ h.watchdog
  unfolding suppressing_now
  judged_watchdog now h = ground arith

  same_reported :
      (o : Option InputEvent) (h : Hooks)
      → ((reported xbutton1 o h).suppressing ≡ h.suppressing)
        × ((reported xbutton1 o h).watchdog ≡ h.watchdog)
  unfolding emit
  same_reported none h = (refl, refl)
  same_reported (some e) h = (refl, refl)

  -- What holds of a hook that passes the event on, releases the input, or asks the watchdog.
  hooked :
      (P : Verdict × Hooks → Type 0) (r : Report) (h : Hooks)
      → P (pass, h)
      → P (pass, record h { suppressing = false })
      → (is_alive r ≡ true → P (pass, record h { watchdog = at r }))
      → ((k : Hooks)
          → k.suppressing ≡ h.suppressing
          → k.watchdog ≡ h.watchdog
          → P (judged xbutton1 (suppressing_now (at r) k)))
      → P (answer r h)
  unfolding answer mouse_hook keyboard_hook emit heartbeat
  hooked P (mouse negative message extra now) h p q b f =
      elim (Bool-cases (negative || extra == injected_marker)) [
        | inl e ↦ rw (e, mouse_hook) p
        | inr e ↦
            let same = same_reported (mouse_event xbutton1 message) h in
            rw (e, mouse_hook)
              (f (reported xbutton1 (mouse_event xbutton1 message) h) same.0 same.1)
      ]
  hooked P (keyboard negative message vk scan flags extra now held) h p q b f =
      elim (Bool-cases (negative || extra == injected_marker)) [
        | inl e ↦ rw (e, keyboard_hook) p
        | inr e ↦ elim (Bool-cases (not (is_key vk_f12 vk_control vk_menu held message))) [
          | inl k ↦ rw (e, k, keyboard_hook) p
          | inr k ↦ elim (Bool-cases (is_emergency vk_f12 vk_control vk_menu held message vk)) [
            | inl m ↦ rw (e, k, m, keyboard_hook) q
            | inr m ↦ rw (e, k, m, keyboard_hook) (f _ refl refl)
          ]
        ]
      ]
  hooked P (alive now) h p q b f = b refl

  released_answer : (r : Report) (h : Hooks) → h.suppressing ≡ false → Passed (answer r h)
  released_answer r h e =
      hooked Passed r h (refl, e) (refl, refl) (λ _. (refl, e))
        (λ k s _. released_judged (at r) k (s ∙ e))

  released_answers :
      (rs : List Report) (h : Hooks)
      → h.suppressing ≡ false
      → Each (λ v. v ≡ pass) (answers rs h).0 × ((answers rs h).1.suppressing ≡ false)
  unfolding answers
  released_answers [] h e = (tt, e)
  released_answers (r ∷ rs) h e =
      let here = released_answer r h e in
      let later = released_answers rs (answer r h).1 here.1 in ((here.0, later.0), later.1)

  -- After Ctrl+Alt+F12 goes down, whatever state the capture is in, that event goes on to the desktop
  -- and so does every later one, with heartbeats or without, until the owner suppresses again.
  pub emergency_releases :
      (message : KeyMessage) (vk scan flags extra now : ℕ) (held : ℕ → Bool) (rs : List Report)
      (h : Hooks)
      → (extra == injected_marker) ≡ false
      → is_key vk_f12 vk_control vk_menu held message ≡ true
      → is_emergency vk_f12 vk_control vk_menu held message vk ≡ true
      → (let all = answers (keyboard false message vk scan flags extra now held ∷ rs) h in
          Each (λ v. v ≡ pass) all.0 × (all.1.suppressing ≡ false))
  unfolding answers answer keyboard_hook
  emergency_releases message vk scan flags extra now held rs h foreign k m =
      rw (foreign, k, m)
        (let later = released_answers rs (record h { suppressing = false }) refl in
          ((refl, later.0), later.1))

  late_answer :
      (r : Report) (h : Hooks)
      → is_alive r ≡ false
      → h.watchdog + watchdog_limit_ms < at r
      → ((answer r h).0 ≡ pass) × ((answer r h).1.watchdog ≡ h.watchdog)
  late_answer r h quiet late =
      hooked (λ v. (v.0 ≡ pass) × (v.1.watchdog ≡ h.watchdog)) r h (refl, refl) (refl, refl)
        (λ e. cc (quiet, e))
        (λ k s w. ((late_judged (at r) k (rw w late)).0, judged_watchdog (at r) k ∙ w))

  -- When the owner has been quiet for longer than the limit, nothing more is swallowed: every event
  -- that the hooks report after that time goes on to the desktop.
  pub quiet_owner_loses :
      (rs : List Report) (h : Hooks)
      → Each (λ r. (is_alive r ≡ false) × (h.watchdog + watchdog_limit_ms < at r)) rs
      → Each (λ v. v ≡ pass) (answers rs h).0
  unfolding answers
  quiet_owner_loses [] h q = tt
  quiet_owner_loses (r ∷ rs) h ((quiet, late), q) =
      let here = late_answer r h quiet late in
      (here.0, quiet_owner_loses rs (answer r h).1 (rw here.1 q))
