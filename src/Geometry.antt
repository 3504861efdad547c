-- ===== src/Geometry.antt =====
-- crates/is-core/src/model.rs: points and rectangles in workspace coordinates. The coordinates are
-- `i32` values and the sizes `u32` values; `as i32` reads a size in two's complement.
pub mod Clamp
pub mod Union
use inputshare.Base.{
  ℕ, ℤ, pos, Bool, ◌&&◌, ◌+ℤ◌, ◌-ℤ◌, ltb_ℤ, leb_ℤ, max_ℤ, min_ℤ, saturate, wrap, if◌then◌else◌,
  pos_part, ◌≤ℤ◌, ◌<ℤ◌,
}

pub record Point : Type 0 where
  pub x : ℤ
  pub y : ℤ

pub record Rect : Type 0 where
  pub x : ℤ
  pub y : ℤ
  pub width : ℕ
  pub height : ℕ

abbrev pub as_i32 : ℕ → ℤ
as_i32 w = wrap (pos w)

unfoldable pub max_x : Rect → ℤ
max_x r = saturate (r.x +ℤ as_i32 r.width)

unfoldable pub max_y : Rect → ℤ
max_y r = saturate (r.y +ℤ as_i32 r.height)

unfoldable pub contains : Rect → Point → Bool
contains r p = leb_ℤ r.x p.x && ltb_ℤ p.x (max_x r) && leb_ℤ r.y p.y && ltb_ℤ p.y (max_y r)

-- `Ord::clamp` on `i32`; the callers below pass `lo <= hi`, where it does not panic.
unfoldable pub clamp_ℤ : ℤ → ℤ → ℤ → ℤ
clamp_ℤ z lo hi = if ltb_ℤ z lo then lo else if ltb_ℤ hi z then hi else z

unfoldable pub hi_x : Rect → ℤ
hi_x r = max_ℤ (saturate (max_x r -ℤ pos 1)) r.x

unfoldable pub hi_y : Rect → ℤ
hi_y r = max_ℤ (saturate (max_y r -ℤ pos 1)) r.y

unfoldable pub clamp : Rect → Point → Point
clamp r p = record { x = clamp_ℤ p.x r.x (hi_x r); y = clamp_ℤ p.y r.y (hi_y r) }

unfoldable pub translate : Rect → Point → Rect
translate r by = record r { x = saturate (r.x +ℤ by.x); y = saturate (r.y +ℤ by.y) }

-- `(hi - lo).max(0) as u32`: the subtraction of a release build, and a number that is not negative.
unfoldable pub extent : ℤ → ℤ → ℕ
extent lo hi = pos_part (max_ℤ (wrap (hi -ℤ lo)) (pos 0))

unfoldable pub union : Rect → Rect → Rect
union a b =
    let x = min_ℤ a.x b.x in
    let y = min_ℤ a.y b.y in
    record {
      x = x;
      y = y;
      width = extent x (max_ℤ (max_x a) (max_x b));
      height = extent y (max_ℤ (max_y a) (max_y b));
    }

-- A point of the rectangle, in exact arithmetic: `contains` as a statement.
pub record Inside (r : Rect) (p : Point) : Type 0 where
  pub left : r.x ≤ℤ p.x
  pub right : p.x <ℤ max_x r
  pub top : r.y ≤ℤ p.y
  pub bottom : p.y <ℤ max_y r
