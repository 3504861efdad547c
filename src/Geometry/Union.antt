-- ===== src/Geometry/Union.antt =====
-- `Rect::union`: while no side overflows, the bounding box of the two.
use inputshare.Base.{
  ℤ, pos, negsuc, ◌≡◌, InI32, ◌≤ℤ◌, ◌<ℤ◌, ◌-ℤ◌, ◌+ℤ◌, saturate, saturate_id, wrap_id, max_ℤ, min_ℤ,
  int_laws, arith, refl, ◌⊎◌, inl, inr, pos_part,
}
use inputshare.Geometry.{Point, Rect, Inside, max_x, max_y, extent, as_i32, union}
use inputshare.Geometry.Clamp.{IsNonempty}

-- A rectangle within 2^30 of the origin on every side, with at least one point.
pub record IsSmall (r : Rect) : Type 0 where
  pub left : negsuc 1073741823 ≤ℤ r.x
  pub right : max_x r ≤ℤ pos 1073741823
  pub top : negsuc 1073741823 ≤ℤ r.y
  pub bottom : max_y r ≤ℤ pos 1073741823
  pub wide : r.x <ℤ max_x r
  pub high : r.y <ℤ max_y r

pub IsSmall-IsNonempty : (r : Rect) → IsSmall r → IsNonempty r
IsSmall-IsNonempty r h = omega arith

min_ℤ_le : (a b : ℤ) → (min_ℤ a b ≤ℤ a) × (min_ℤ a b ≤ℤ b)
unfolding min_ℤ
min_ℤ_le a b = ground arith

max_ℤ_ge : (a b : ℤ) → (a ≤ℤ max_ℤ a b) × (b ≤ℤ max_ℤ a b)
unfolding max_ℤ
max_ℤ_ge a b = ground arith

min_ℤ_lower : (a b c : ℤ) → c ≤ℤ a → c ≤ℤ b → c ≤ℤ min_ℤ a b
unfolding min_ℤ
min_ℤ_lower a b c h k = ground arith

max_ℤ_upper : (a b c : ℤ) → a ≤ℤ c → b ≤ℤ c → max_ℤ a b ≤ℤ c
unfolding max_ℤ
max_ℤ_upper a b c h k = ground arith

pos_of_nonneg : (z : ℤ) → pos 0 ≤ℤ z → pos (pos_part (max_ℤ z (pos 0))) ≡ z
unfolding max_ℤ
pos_of_nonneg z h = ground arith

-- A side that fits `i32` ends where it should.
far_edge :
    (lo hi : ℤ)
    → lo ≤ℤ hi
    → InI32 hi
    → InI32 (hi -ℤ lo)
    → saturate (lo +ℤ as_i32 (extent lo hi)) ≡ hi
unfolding extent
far_edge lo hi h b d =
    rw (wrap_id (hi -ℤ lo) d, pos_of_nonneg (hi -ℤ lo) (omega int_laws), wrap_id (hi -ℤ lo) d)
      (let e : lo +ℤ (hi -ℤ lo) ≡ hi = omega int_laws in rw e (saturate_id hi b))

-- One axis of a union, from the near edges `p` and `q` and the far edges `m` and `n`.
axis :
    (p q m n : ℤ)
    → negsuc 1073741823 ≤ℤ p
    → negsuc 1073741823 ≤ℤ q
    → m ≤ℤ pos 1073741823
    → n ≤ℤ pos 1073741823
    → p <ℤ m
    → saturate (min_ℤ p q +ℤ as_i32 (extent (min_ℤ p q) (max_ℤ m n))) ≡ max_ℤ m n
axis p q m n hp hq hm hn h =
    let below = min_ℤ_le p q in
    let above = max_ℤ_ge m n in
    let lower = min_ℤ_lower p q (negsuc 1073741823) hp hq in
    let upper = max_ℤ_upper m n (pos 1073741823) hm hn in
    far_edge (min_ℤ p q) (max_ℤ m n) (omega int_laws) (omega int_laws) (omega int_laws)

module _ (a b : Rect) (ha : IsSmall a) (hb : IsSmall b) where
  pub union-max_x : max_x (union a b) ≡ max_ℤ (max_x a) (max_x b)
  unfolding union max_x
  union-max_x = axis a.x b.x (max_x a) (max_x b) ha.left hb.left ha.right hb.right ha.wide

  pub union-max_y : max_y (union a b) ≡ max_ℤ (max_y a) (max_y b)
  unfolding union max_y
  union-max_y = axis a.y b.y (max_y a) (max_y b) ha.top hb.top ha.bottom hb.bottom ha.high

  pub union-x : (union a b).x ≡ min_ℤ a.x b.x
  unfolding union
  union-x = refl

  pub union-y : (union a b).y ≡ min_ℤ a.y b.y
  unfolding union
  union-y = refl

  pub union-IsSmall : IsSmall (union a b)
  union-IsSmall =
      let x1 = min_ℤ_le a.x b.x in
      let y1 = min_ℤ_le a.y b.y in
      let x2 = max_ℤ_ge (max_x a) (max_x b) in
      let y2 = max_ℤ_ge (max_y a) (max_y b) in
      record {
        left = rw union-x (min_ℤ_lower a.x b.x (negsuc 1073741823) ha.left hb.left);
        right = rw union-max_x (max_ℤ_upper (max_x a) (max_x b) (pos 1073741823) ha.right hb.right);
        top = rw union-y (min_ℤ_lower a.y b.y (negsuc 1073741823) ha.top hb.top);
        bottom =
            rw union-max_y (max_ℤ_upper (max_y a) (max_y b) (pos 1073741823) ha.bottom hb.bottom);
        wide = rw (union-max_x, union-x) (let w = ha.wide in omega int_laws);
        high = rw (union-max_y, union-y) (let w = ha.high in omega int_laws);
      }

  -- The union of two rectangles that are not empty and lie within 2^30 of the origin covers both.
  pub union_covers : (p : Point) → Inside a p ⊎ Inside b p → Inside (union a b) p
  union_covers p h =
      let x1 = min_ℤ_le a.x b.x in
      let y1 = min_ℤ_le a.y b.y in
      let x2 = max_ℤ_ge (max_x a) (max_x b) in
      let y2 = max_ℤ_ge (max_y a) (max_y b) in
      elim h [
        | inl i ↦ record {
          left = rw union-x (let l = i.left in omega int_laws);
          right = rw union-max_x (let l = i.right in omega int_laws);
          top = rw union-y (let l = i.top in omega int_laws);
          bottom = rw union-max_y (let l = i.bottom in omega int_laws);
        }
        | inr i ↦ record {
          left = rw union-x (let l = i.left in omega int_laws);
          right = rw union-max_x (let l = i.right in omega int_laws);
          top = rw union-y (let l = i.top in omega int_laws);
          bottom = rw union-max_y (let l = i.bottom in omega int_laws);
        }
      ]
