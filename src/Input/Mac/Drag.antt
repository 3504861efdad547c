-- ===== src/Input/Mac/Drag.antt =====
-- Replayed motion while buttons are held: it drags.
use mathlib.Core.Path.{subst}
use inputshare.Model.{DisplayInfo}
use inputshare.Input.Mac.{Kind, CgEvent}
use inputshare.Input.Mac.Motion.{Monitors, Saved, move_outcome}
use inputshare.Input.Mac.Inject.{
  Outcome, posted, refused, nothing, panicked, moved, post, inject_move, current_point,
  desktop_bounds,
}
use inputshare.Base.{
  ℤ, Option, none, some, sym, ℕ, zero, suc, ◌≤◌, Bool, false, ◌||◌, List, [], ◌∷◌, ◌==◌, ◌≡◌, refl,
  ap, ◌∙◌, arith, if◌then◌else◌,
}
use inputshare.Sharing.{MouseButton}
use inputshare.Input.Mac.{
  Mac, System, no_bits, mouse_moved, left_mouse_dragged, right_mouse_dragged, other_mouse_dragged,
}
use inputshare.Input.Mac.Inject.{inject_button, motion_kind, button_bit, any_below}

-- Whether a button is held after clicks, of which the last is first.
abbrev pub held_at : List (System × MouseButton × Bool) → ℕ → Bool
held_at [] i = false
held_at ((sys, a, down) ∷ clicks) i = if i == button_bit a then down else held_at clicks i

abbrev pub holds : List (System × MouseButton × Bool) → MouseButton → Bool
holds clicks b = held_at clicks (button_bit b)

unfoldable pub clicked : List (System × MouseButton × Bool) → Mac → Mac
clicked [] s = s
clicked ((sys, a, down) ∷ clicks) s = (inject_button sys a down (clicked clicks s)).1

inject_button-held :
    (sys : System) (a : MouseButton) (down : Bool) (s : Mac) (i : ℕ)
    → (inject_button sys a down s).1.held_buttons i
      ≡ (if i == button_bit a then down else s.held_buttons i)
unfolding inject_button
inject_button-held sys a down s i = ground arith

clicked-held :
    (clicks : List (System × MouseButton × Bool)) (s : Mac) (i : ℕ)
    → s.held_buttons ≡ no_bits
    → (clicked clicks s).held_buttons i ≡ held_at clicks i
unfolding clicked
clicked-held [] s i none_held = ap (λ w. w i) none_held
clicked-held ((sys, a, down) ∷ clicks) s i none_held =
    rw (inject_button-held sys a down (clicked clicks s) i, clicked-held clicks s i none_held) refl

held_high : (clicks : List (System × MouseButton × Bool)) (i : ℕ) → 5 ≤ i → held_at clicks i ≡ false
held_high [] i h = refl
held_high ((sys, a, down) ∷ clicks) i h = ground (arith, held_high clicks i)

any_low :
    (k : ℕ) (word : ℕ → Bool)
    → ((i : ℕ) → 5 ≤ i → word i ≡ false)
    → any_below (suc (suc (suc (suc (suc k))))) word ≡ any_below 5 word
any_low zero word high = refl
any_low (suc k) word high =
    rw (high (suc (suc (suc (suc (suc k))))) (omega arith)) (any_low k word high)

-- The kind of a movement after clicks: it drags with the left button if that is held, else with the right
-- one, else with another one that is held, and is a plain movement otherwise.
abbrev pub drag_kind : List (System × MouseButton × Bool) → Kind
drag_kind clicks =
    if holds clicks MouseButton.left
    then left_mouse_dragged
    else if holds clicks MouseButton.right
    then right_mouse_dragged
    else if holds clicks MouseButton.middle
        || holds clicks MouseButton.x1
        || holds clicks MouseButton.x2
    then other_mouse_dragged
    else mouse_moved

motion_kind-clicked :
    (clicks : List (System × MouseButton × Bool)) (s : Mac)
    → s.held_buttons ≡ no_bits
    → (motion_kind (clicked clicks s).held_buttons).0 ≡ drag_kind clicks
unfolding motion_kind
motion_kind-clicked clicks s none_held =
    let word = (clicked clicks s).held_buttons in
    let bit = λ (i : ℕ). clicked-held clicks s i none_held in
    let low = any_low 27 word (λ i h. bit i ∙ held_high clicks i h) in
    ground (arith, low, bit 0, bit 1, bit 2, bit 3, bit 4)

clicked-cache :
    (clicks : List (System × MouseButton × Bool)) (s : Mac) → (clicked clicks s).cache ≡ s.cache
unfolding clicked inject_button
clicked-cache [] s = refl
clicked-cache ((sys, a, down) ∷ clicks) s = ground (arith, clicked-cache clicks s)

-- A movement of one kind: what is posted is of that kind, and it is refused only if the system makes no event
-- of that kind.
unfoldable pub IsMotion : System → Kind → Outcome → Type 0
IsMotion sys kind (posted e) = e.kind ≡ kind
IsMotion sys kind (refused reason) =
    (x : ℤ) × (y : ℤ) × (button : ℕ) × (sys.create_mouse kind x y button ≡ none)
IsMotion sys kind nothing = ⊥
IsMotion sys kind panicked = ⊥

moved-IsMotion :
    (sys : System) (kind : Kind) (x y nx ny : ℤ) (button : ℕ) (o : Option CgEvent) (s : Mac)
    → sys.create_mouse kind nx ny button ≡ o
    → IsMotion sys kind (moved x y nx ny o s).0
unfolding IsMotion post
moved-IsMotion sys kind x y nx ny button none s made = (nx, ny, button, made)
moved-IsMotion sys kind x y nx ny button (some e) s made = sys.mouse_kind kind nx ny button e made

-- With no button held at first, monitors that show something within 2^30 of the origin, and a kept
-- rectangle that is the desktop of its monitors: the event of a replayed movement drags with the left
-- button if that is held after the clicks before it, else with the right one, else with another one
-- that is held, and is a plain movement otherwise; no event is posted only where the system makes none
-- of that kind.
pub drag_exact :
    (clicks : List (System × MouseButton × Bool)) (sys : System) (old : List DisplayInfo)
    (dx dy : ℤ) (s : Mac)
    → s.held_buttons ≡ no_bits
    → Monitors sys.displays
    → Saved old s.cache
    → IsMotion sys (drag_kind clicks) (inject_move sys dx dy (clicked clicks s)).0
drag_exact clicks sys old dx dy s none_held shown saved =
    let t = clicked clicks s in
    let at = current_point sys t in
    let kind = motion_kind t.held_buttons in
    let (p, reaches, ends) =
      move_outcome sys old dx dy t shown (subst (Saved old) (sym (clicked-cache clicks s)) saved) in
    let moves =
      moved-IsMotion sys kind.0 at.0 at.1 p.0 p.1 kind.1 (sys.create_mouse kind.0 p.0 p.1 kind.1)
        (desktop_bounds sys t).1 refl in
    subst (λ k. IsMotion sys k (inject_move sys dx dy t).0) (motion_kind-clicked clicks s none_held)
      (subst (λ r. IsMotion sys kind.0 r.0) (sym ends) moves)
