-- ===== src/Input/Mac/Wheel.antt =====
-- Lines of the wheel on a Mac, and notches on the wire.
use inputshare.Base.{refl, ap, ◌∙◌, wrap_id}
use inputshare.Base.{◌∙◌}
use inputshare.Base.{ap}
use inputshare.Base.{wrap_id}
use inputshare.Base.{zero, suc}
use inputshare.Sharing.{wheel}
use inputshare.Base.{some}
use inputshare.Base.{suc}
use inputshare.Base.{false}
use inputshare.Input.Mac.{scroll_wheel}
use inputshare.Input.Mac.{CgEvent, eq_ℤ}
use inputshare.Input.Mac.Tap.{captured}
use inputshare.Base.{ℕ, ◌≤◌, ℤ, pos, negsuc, pos_part, neg_part, wrap, ◌≡◌, arith}
use inputshare.Input.Mac.Inject.{lines_of}
use inputshare.Input.Mac.Tap.{notches}

-- 2^31 / 120, rounded down.
abbrev pub most_lines : ℕ
most_lines = 17895697

pub record IsFew (z : ℤ) : Type 0 where
  pub above : pos_part z ≤ most_lines
  pub below : neg_part z ≤ most_lines

notches_lem : (v : ℤ) → IsFew v → lines_of (notches v) ≡ v
unfolding lines_of wrap
notches_lem (pos n) f = ground arith
notches_lem (negsuc n) f = ground arith

-- Lines that the tap of one Mac reports scroll by the same lines on another, up to the 2^31 / 120 that
-- the notches of the wire can count.
pub scroll_returns :
    (e : CgEvent)
    → e.kind ≡ scroll_wheel
    → IsFew e.axis_1
    → eq_ℤ (wrap e.axis_1) (pos 0) ≡ false
    → (delta : ℤ) × (captured e ≡ some (wheel delta false)) × (lines_of delta ≡ e.axis_1)
unfolding captured
scroll_returns e kind few turned =
    let exact = wrap_id e.axis_1 (ground (arith, few.above, few.below)) in
    (
      notches (wrap e.axis_1),
      rw (kind, turned) refl,
      ap (λ z. lines_of (notches z)) exact ∙ notches_lem e.axis_1 few,
    )

-- Any turn of a wheel scrolls, also one of less than a notch.
turn_scrolls : (delta : ℤ) → eq_ℤ delta (pos 0) ≡ false → eq_ℤ (lines_of delta) (pos 0) ≡ false
unfolding lines_of
turn_scrolls (pos zero) t = cc
turn_scrolls (pos (suc n)) t = ground arith
turn_scrolls (negsuc n) t = ground arith
