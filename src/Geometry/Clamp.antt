-- ===== src/Geometry/Clamp.antt =====
-- `Rect::contains` and `Rect::clamp`.
use inputshare.Base.{
  ℤ, pos, true, ◌≡◌, InI32, ◌≤ℤ◌, ◌<ℤ◌, ◌-ℤ◌, saturate, saturate-InI32, saturate_id, max_ℤ,
  int_laws, arith, abs_ℤ,
}
use inputshare.Geometry.{Point, Rect, Inside, max_x, max_y, contains, clamp_ℤ, hi_x, hi_y, clamp}

pub contains→Inside : (r : Rect) (p : Point) → contains r p ≡ true → Inside r p
unfolding contains
contains→Inside r p h = ground arith

pub Inside→contains : (r : Rect) (p : Point) → Inside r p → contains r p ≡ true
unfolding contains
Inside→contains r p h = ground arith

-- A rectangle of `i32` coordinates with a point in it.
pub record IsNonempty (r : Rect) : Type 0 where
  pub x_in : InI32 r.x
  pub y_in : InI32 r.y
  pub wide : r.x <ℤ max_x r
  pub high : r.y <ℤ max_y r

-- The far edge of `clamp`: one short of an edge that lies above the near one.
hi_step : (lo top : ℤ) → InI32 lo → lo <ℤ top → InI32 top → saturate (top -ℤ pos 1) ≡ top -ℤ pos 1
hi_step lo top a h b = saturate_id (top -ℤ pos 1) (omega int_laws)

max_ℤ_left : (a b : ℤ) → b ≤ℤ a → max_ℤ a b ≡ a
unfolding max_ℤ
max_ℤ_left a b h = ground arith

max_x-InI32 : (r : Rect) → InI32 (max_x r)
unfolding max_x
max_x-InI32 r = saturate-InI32 _

max_y-InI32 : (r : Rect) → InI32 (max_y r)
unfolding max_y
max_y-InI32 r = saturate-InI32 _

hi_eq :
    (lo top : ℤ)
    → InI32 lo
    → lo <ℤ top
    → InI32 top
    → max_ℤ (saturate (top -ℤ pos 1)) lo ≡ top -ℤ pos 1
hi_eq lo top a h b = rw (hi_step lo top a h b) (max_ℤ_left (top -ℤ pos 1) lo (omega int_laws))

pub hi_x-eq : (r : Rect) → IsNonempty r → hi_x r ≡ max_x r -ℤ pos 1
unfolding hi_x
hi_x-eq r h = hi_eq r.x (max_x r) h.x_in h.wide (max_x-InI32 r)

pub hi_y-eq : (r : Rect) → IsNonempty r → hi_y r ≡ max_y r -ℤ pos 1
unfolding hi_y
hi_y-eq r h = hi_eq r.y (max_y r) h.y_in h.high (max_y-InI32 r)

clamp_ℤ_range : (z lo hi : ℤ) → lo ≤ℤ hi → (lo ≤ℤ clamp_ℤ z lo hi) × (clamp_ℤ z lo hi ≤ℤ hi)
unfolding clamp_ℤ
clamp_ℤ_range z lo hi h = ground arith

clamp_ℤ_id : (z lo hi : ℤ) → lo ≤ℤ z → z ≤ℤ hi → clamp_ℤ z lo hi ≡ z
unfolding clamp_ℤ
clamp_ℤ_id z lo hi h k = ground arith

-- A clamped point lies inside a rectangle that is not empty.
pub clamp-Inside : (r : Rect) (p : Point) → IsNonempty r → Inside r (clamp r p)
unfolding clamp
clamp-Inside r p h =
    rw (hi_x-eq r h, hi_y-eq r h)
      (let a = clamp_ℤ_range p.x r.x (max_x r -ℤ pos 1) (let w = h.wide in omega int_laws) in
        let b = clamp_ℤ_range p.y r.y (max_y r -ℤ pos 1) (let w = h.high in omega int_laws) in
        record { left = a.0; right = omega int_laws; top = b.0; bottom = omega int_laws })

-- A point that the rectangle contains is left where it is.
pub clamp_id : (r : Rect) (p : Point) → IsNonempty r → contains r p ≡ true → clamp r p ≡ p
unfolding clamp
clamp_id r p h c =
    let i : Inside r p = contains→Inside r p c in
    rw (hi_x-eq r h, hi_y-eq r h)
      (cc (
        clamp_ℤ_id p.x r.x (max_x r -ℤ pos 1) i.left (let w = i.right in omega int_laws),
        clamp_ℤ_id p.y r.y (max_y r -ℤ pos 1) i.top (let w = i.bottom in omega int_laws),
      ))

dist_clamp_ℤ : (z lo hi q : ℤ) → lo ≤ℤ q → q ≤ℤ hi → abs_ℤ (clamp_ℤ z lo hi -ℤ z) ≤ℤ abs_ℤ (q -ℤ z)
unfolding clamp_ℤ abs_ℤ ◌-ℤ◌
dist_clamp_ℤ z lo hi q h k = ground arith

-- For a rectangle that is not empty `clamp` gives the nearest point inside: on each axis no point
-- of the rectangle is nearer.
pub clamp_nearest :
    (r : Rect) (p q : Point)
    → IsNonempty r
    → Inside r q
    → (abs_ℤ ((clamp r p).x -ℤ p.x) ≤ℤ abs_ℤ (q.x -ℤ p.x))
      × (abs_ℤ ((clamp r p).y -ℤ p.y) ≤ℤ abs_ℤ (q.y -ℤ p.y))
unfolding clamp
clamp_nearest r p q h i =
    rw (hi_x-eq r h, hi_y-eq r h)
      (
        dist_clamp_ℤ p.x r.x (max_x r -ℤ pos 1) q.x i.left (let w = i.right in omega int_laws),
        dist_clamp_ℤ p.y r.y (max_y r -ℤ pos 1) q.y i.top (let w = i.bottom in omega int_laws),
      )
