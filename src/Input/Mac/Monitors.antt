-- ===== src/Input/Mac/Monitors.antt =====
-- The desktop that the monitors of a Mac make up: the rectangle that the code works out is the exact one.
use inputshare.Base.{◌∙◌}
use mathlib.Core.Path.{subst}
use inputshare.Base.{
  sym, ◌∙◌, i32_max, +ℤ_parts, +ℤ_parts, ℕ, ◌≤◌, ◌<◌, ℤ, pos, negsuc, ◌≤ℤ◌, ◌<ℤ◌, ◌+ℤ◌, min_ℤ,
  max_ℤ, wrap, wrap_id, pos_part, neg_part, List, [], ◌∷◌, ◌≡◌, refl, arith, Each,
}
use inputshare.Extremes.{end_of, IsEnd, lowest, highest}
use inputshare.Model.{DisplayInfo}
use inputshare.Sharing.{add_i32}
use inputshare.Input.Mac.{Desktop}
use inputshare.Input.Mac.Inject.{widened, covering}

-- A monitor that shows something, within 2^30 of the origin.
pub record IsScreen (d : DisplayInfo) : Type 0 where
  pub wide : 0 < d.width
  pub high : 0 < d.height
  pub width_below : d.width < 1073741824
  pub height_below : d.height < 1073741824
  pub x_below : pos_part d.x ≤ 1073741824
  pub x_above : neg_part d.x ≤ 1073741824
  pub y_below : pos_part d.y ≤ 1073741824
  pub y_above : neg_part d.y ≤ 1073741824

-- A rectangle with a point in it, within the numbers of the source.
pub record IsProper (r : Desktop) : Type 0 where
  pub wide : r.min_x <ℤ r.max_x
  pub high : r.min_y <ℤ r.max_y
  pub left : negsuc 1073741823 ≤ℤ r.min_x
  pub top : negsuc 1073741823 ≤ℤ r.min_y
  pub right : r.max_x ≤ℤ i32_max
  pub bottom : r.max_y ≤ℤ i32_max

-- An edge of a monitor in 32 bits is the exact one.
edge_exact :
    (x : ℤ) (w : ℕ)
    → pos_part x ≤ 1073741824
    → neg_part x ≤ 1073741824
    → w < 1073741824
    → add_i32 x (wrap (pos w)) ≡ x +ℤ pos w
edge_exact x w b a h =
    let sum = +ℤ_parts x (pos w) in
    rw (wrap_id (pos w) (omega arith)) (wrap_id (x +ℤ pos w) (omega arith))

covering-IsProper : (d : DisplayInfo) → IsScreen d → IsProper (covering d)
covering-IsProper d i =
    let right = edge_exact d.x d.width i.x_below i.x_above i.width_below in
    let bottom = edge_exact d.y d.height i.y_below i.y_above i.height_below in
    let across = +ℤ_parts d.x (pos d.width) in
    let down = +ℤ_parts d.y (pos d.height) in
    record {
      wide = rw right (omega (arith, i.wide, i.x_below));
      high = rw bottom (omega (arith, i.high));
      left = omega (arith, i.x_above);
      top = omega (arith, i.y_above);
      right = rw right (omega (arith, i.x_below, i.width_below));
      bottom = rw bottom (omega (arith, i.y_below, i.height_below));
    }

-- The desktop of some monitors, by the numbers alone: no monitor reaches over an edge, and each edge is
-- that of a monitor.
pub record IsDesktop (ds : List DisplayInfo) (r : Desktop) : Type 0 where
  pub left : IsEnd ◌≤ℤ◌ (λ d. d.x) ds r.min_x
  pub top : IsEnd ◌≤ℤ◌ (λ d. d.y) ds r.min_y
  pub right : IsEnd (λ a b. b ≤ℤ a) (λ d. d.x +ℤ pos d.width) ds r.max_x
  pub bottom : IsEnd (λ a b. b ≤ℤ a) (λ d. d.y +ℤ pos d.height) ds r.max_y
  pub proper : IsProper r

joined : Desktop → Desktop → Desktop
joined a b = record {
  min_x = min_ℤ a.min_x b.min_x;
  min_y = min_ℤ a.min_y b.min_y;
  max_x = max_ℤ a.max_x b.max_x;
  max_y = max_ℤ a.max_y b.max_y;
}

joined-IsProper : (a b : Desktop) → IsProper a → IsProper b → IsProper (joined a b)
unfolding joined min_ℤ max_ℤ
joined-IsProper a b p q = record {
  wide = ground arith;
  high = ground arith;
  left = ground arith;
  top = ground arith;
  right = ground arith;
  bottom = ground arith;
}

widened-IsProper :
    (ds : List DisplayInfo) (r : Desktop) → IsProper r → Each IsScreen ds → IsProper (widened r ds)
unfolding widened joined
widened-IsProper [] r p all = p
widened-IsProper (d ∷ ds) r p all =
    widened-IsProper ds (joined r (covering d))
      (joined-IsProper r (covering d) p (covering-IsProper d all.0)) all.1

abbrev right_of : DisplayInfo → ℤ
right_of d = d.x +ℤ pos d.width

abbrev bottom_of : DisplayInfo → ℤ
bottom_of d = d.y +ℤ pos d.height

-- The rectangle that the code works out, edge by edge.
widened-edges :
    (ds : List DisplayInfo) (r : Desktop)
    → Each IsScreen ds
    → widened r ds ≡ record {
      min_x = end_of min_ℤ (λ d. d.x) r.min_x ds;
      min_y = end_of min_ℤ (λ d. d.y) r.min_y ds;
      max_x = end_of max_ℤ right_of r.max_x ds;
      max_y = end_of max_ℤ bottom_of r.max_y ds;
    }
unfolding widened joined
widened-edges [] r all = refl
widened-edges (d ∷ ds) r all =
    let right = edge_exact d.x d.width all.0.x_below all.0.x_above all.0.width_below in
    let bottom = edge_exact d.y d.height all.0.y_below all.0.y_above all.0.height_below in
    widened-edges ds (joined r (covering d)) all.1 ∙ rw (right, bottom) refl

-- The rectangle around monitors that show something is their desktop.
pub widened-IsDesktop :
    (d : DisplayInfo) (ds : List DisplayInfo)
    → Each IsScreen (d ∷ ds)
    → IsDesktop (d ∷ ds) (widened (covering d) ds)
widened-IsDesktop d ds all =
    let right = edge_exact d.x d.width all.0.x_below all.0.x_above all.0.width_below in
    let bottom = edge_exact d.y d.height all.0.y_below all.0.y_above all.0.height_below in
    let proper = widened-IsProper ds (covering d) (covering-IsProper d all.0) all.1 in
    let box : Desktop = record {
      min_x = end_of min_ℤ (λ d. d.x) d.x ds;
      min_y = end_of min_ℤ (λ d. d.y) d.y ds;
      max_x = end_of max_ℤ right_of (right_of d) ds;
      max_y = end_of max_ℤ bottom_of (bottom_of d) ds;
    } in
    let same : widened (covering d) ds ≡ box =
      widened-edges ds (covering d) all.1 ∙ rw (right, bottom) refl in
    subst (IsDesktop (d ∷ ds)) (sym same) (record {
      left = lowest (λ d. d.x) d ds;
      top = lowest (λ d. d.y) d ds;
      right = highest right_of d ds;
      bottom = highest bottom_of d ds;
      proper = subst IsProper same proper;
    })
