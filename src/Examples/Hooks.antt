-- ===== src/Examples/Hooks.antt =====
-- The capture of a machine whose owner has gone quiet.
use mathlib.Core.Option.{some-injective}
use mathlib.Core.List.{Permᴰ}
use inputshare.Base.{pos, sym, ap, ◌∙◌, not, ◌&&◌}
use inputshare.Input.Screens.{MonitorInfo, enumerate_displays, display_of}
use inputshare.Model.{DisplayInfo}
use inputshare.Input.Screens.Order.{listed_anyhow, IsNamed, seen_of}
use inputshare.Input.Capture.Thread.{Grants, nothing, come_up, hook_thread, said_up, hooks_gone}
use inputshare.Input.Capture.Thread
use inputshare.Examples.Canvas.{strokes, count, count-strokes}
use inputshare.Base.{ℕ, Bool, true, false, some, [], ◌∷◌, ◌≡◌, refl, arith, Each}
use inputshare.Input.Capture.{Hooks, pass, wm_keydown, wm_mousemove}
use inputshare.Input.Capture.Watchdog.{
  Report, mouse, keyboard, answers, emergency_releases, quiet_owner_loses,
}

abbrev held : ℕ → Bool
held code = true

abbrev busy : Hooks
busy = record {
  suppressing = true;
  watchdog = 1000;
  have_last = false;
  running = true;
  sink = some [];
}

abbrev motion : Report
motion = mouse false wm_mousemove 0 3500

emergency_releases_example :
    (let all =
        answers 1 123 17 18 (keyboard false wm_keydown 123 88 0 0 1500 held ∷ motion ∷ []) busy in
      Each (λ v. v ≡ pass) all.0 × (all.1.suppressing ≡ false))
emergency_releases_example =
    emergency_releases 1 123 17 18 wm_keydown 123 88 0 0 1500 held (motion ∷ []) busy refl refl refl

quiet_owner_loses_example : Each (λ v. v ≡ pass) (answers 1 123 17 18 (motion ∷ motion ∷ []) busy).0
quiet_owner_loses_example =
    quiet_owner_loses 1 123 17 18 (motion ∷ motion ∷ []) busy
      ((refl, omega arith), ((refl, omega arith), tt))

-- A desk of monitors side by side, each named by its number.
abbrev monitor : ℕ → MonitorInfo
monitor n = record {
  left = pos n;
  top = pos 0;
  right = pos 1920;
  bottom = pos 1080;
  device = strokes n;
  flags = 1;
  dpi_x = some 120;
}

abbrev shown_at : ℕ → DisplayInfo
shown_at n = display_of (λ a b. a) (λ m. some (monitor m)) (monitor n)

named : IsNamed (seen_of (λ a b. a) (λ m. some (monitor m)))
named m n a b e f same =
    let names : strokes m ≡ strokes n =
      ap (λ (d : DisplayInfo). d.id) (some-injective _ _ e)
      ∙ same
      ∙ sym (ap (λ (d : DisplayInfo). d.id) (some-injective _ _ f)) in
    let numbers : m ≡ n = sym (count-strokes m) ∙ ap count names ∙ count-strokes n in
    sym (some-injective _ _ e) ∙ ap shown_at numbers ∙ some-injective _ _ f

listed_anyhow_example :
    enumerate_displays (λ a b. a) (λ n. some (monitor n)) (some (2 ∷ 1 ∷ []))
    ≡ enumerate_displays (λ a b. a) (λ n. some (monitor n)) (some (1 ∷ 2 ∷ []))
listed_anyhow_example =
    listed_anyhow (λ a b. a) (λ n. some (monitor n)) named (Permᴰ.swap refl refl)

-- The system refuses the reports of raw motion.
abbrev grants : Grants
grants = record { mouse = true; keyboard = true; window = true; reports = false }

abbrev resting : Hooks
resting = record busy { suppressing = false }

hooks_gone_example :
    (let t = come_up 1 123 17 18 held grants resting in
      let end =
        hook_thread 1 123 17 18 held grants (Thread.mouse false wm_mousemove 0 1500 ∷ []) resting in
      (t.held.mouse ≡ said_up 1 123 17 18 held t.ready)
      × (t.held.keyboard ≡ said_up 1 123 17 18 held t.ready)
      × ((t.held.window && not (said_up 1 123 17 18 held t.ready)) ≡ false)
      × (end.ready ≡ t.ready)
      × (end.held ≡ nothing)
      × (end.hooks.suppressing ≡ false))
hooks_gone_example =
    hooks_gone 1 123 17 18 held grants (Thread.mouse false wm_mousemove 0 1500 ∷ []) resting refl
