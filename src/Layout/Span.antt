-- ===== src/Layout/Span.antt =====
-- The bounds of a machine are the least rectangle around its displays.
use mathlib.Core.Path.{subst}
use inputshare.Base.{
  ℤ, pos, negsuc, ◌≤ℤ◌, ◌+ℤ◌, +ℤ_parts, min_ℤ, max_ℤ, saturate, saturate_id, wrap_id, eq_of_parts,
  some, List, [], ◌∷◌, Each, ◌≡◌, refl, sym, ap, ◌∙◌, ◌<◌, arith,
}
use inputshare.Extremes.{end_of, IsEnd, lowest, highest}
use inputshare.Geometry.{Point, Rect, max_x, max_y, translate, union}
use inputshare.Geometry.Union.{IsSmall, union-IsSmall, union-max_x, union-max_y, union-x, union-y}
use inputshare.Model.{DisplayInfo, MachineRecord, rect, bounds, bounds_of, bounds_from}
use mathlib.Core.Option.{some-injective}

-- The edges of a display in the workspace, in exact numbers.
module _ (p : Point) where
  abbrev pub left_of : DisplayInfo → ℤ
  left_of d = p.x +ℤ d.x

  abbrev pub top_of : DisplayInfo → ℤ
  top_of d = p.y +ℤ d.y

  abbrev pub right_of : DisplayInfo → ℤ
  right_of d = left_of d +ℤ pos d.width

  abbrev pub bottom_of : DisplayInfo → ℤ
  bottom_of d = top_of d +ℤ pos d.height

  -- A display that shows something, within 2^30 of the origin of the workspace.
  pub record IsNear (d : DisplayInfo) : Type 0 where
    pub wide : 0 < d.width
    pub high : 0 < d.height
    pub left : negsuc 1073741823 ≤ℤ left_of d
    pub top : negsuc 1073741823 ≤ℤ top_of d
    pub right : right_of d ≤ℤ pos 1073741823
    pub bottom : bottom_of d ≤ℤ pos 1073741823

  -- No display reaches over an edge of the rectangle, and each edge is that of a display.
  pub record IsSpan (ds : List DisplayInfo) (b : Rect) : Type 0 where
    pub left : IsEnd ◌≤ℤ◌ left_of ds b.x
    pub top : IsEnd ◌≤ℤ◌ top_of ds b.y
    pub right : IsEnd (λ u v. v ≤ℤ u) right_of ds (max_x b)
    pub bottom : IsEnd (λ u v. v ≤ℤ u) bottom_of ds (max_y b)

  -- The rectangle of one display has the exact edges.
  pub record IsExact (d : DisplayInfo) (t : Rect) : Type 0 where
    pub left : t.x ≡ left_of d
    pub top : t.y ≡ top_of d
    pub right : max_x t ≡ right_of d
    pub bottom : max_y t ≡ bottom_of d

  near_edge :
      (a b : ℤ)
      → negsuc 1073741823 ≤ℤ (b +ℤ a)
      → (b +ℤ a) ≤ℤ pos 1073741823
      → saturate (a +ℤ b) ≡ b +ℤ a
  near_edge a b low high =
      let there = +ℤ_parts a b in
      let back = +ℤ_parts b a in
      saturate_id (a +ℤ b) (omega arith) ∙ eq_of_parts (a +ℤ b) (b +ℤ a) (omega arith)

  translate-IsExact : (d : DisplayInfo) → IsNear d → IsExact d (translate (rect d) p)
  unfolding translate max_x max_y rect
  translate-IsExact d n =
      let across = +ℤ_parts (left_of d) (pos d.width) in
      let down = +ℤ_parts (top_of d) (pos d.height) in
      let left = near_edge d.x p.x n.left (omega (arith, n.right)) in
      let top = near_edge d.y p.y n.top (omega (arith, n.bottom)) in
      let right : max_x (translate (rect d) p) ≡ right_of d =
        rw (left, wrap_id (pos d.width) (omega (arith, n.left, n.right)))
          (saturate_id (right_of d) (omega (arith, n.left, n.right))) in
      let bottom : max_y (translate (rect d) p) ≡ bottom_of d =
        rw (top, wrap_id (pos d.height) (omega (arith, n.top, n.bottom)))
          (saturate_id (bottom_of d) (omega (arith, n.top, n.bottom))) in
      record { left = left; top = top; right = right; bottom = bottom }

  exact-IsSmall : (d : DisplayInfo) (t : Rect) → IsNear d → IsExact d t → IsSmall t
  exact-IsSmall d t n e =
      let across = +ℤ_parts (left_of d) (pos d.width) in
      let down = +ℤ_parts (top_of d) (pos d.height) in
      record {
        left = rw e.left n.left;
        right = rw e.right n.right;
        top = rw e.top n.top;
        bottom = rw e.bottom n.bottom;
        wide = rw (e.right, e.left) (omega (arith, n.wide));
        high = rw (e.bottom, e.top) (omega (arith, n.high));
      }

  -- The edges of the union of a rectangle and displays.
  record IsEdged (acc : Rect) (ds : List DisplayInfo) (b : Rect) : Type 0 where
    left : b.x ≡ end_of min_ℤ left_of acc.x ds
    top : b.y ≡ end_of min_ℤ top_of acc.y ds
    right : max_x b ≡ end_of max_ℤ right_of (max_x acc) ds
    bottom : max_y b ≡ end_of max_ℤ bottom_of (max_y acc) ds
    small : IsSmall b

  bounds_from-IsEdged :
      (acc : Rect) (ds : List DisplayInfo)
      → IsSmall acc
      → Each IsNear ds
      → IsEdged acc ds (bounds_from p acc ds)
  unfolding bounds_from
  bounds_from-IsEdged acc [] s all = record {
    left = refl;
    top = refl;
    right = refl;
    bottom = refl;
    small = s;
  }
  bounds_from-IsEdged acc (d ∷ ds) s all =
      let t = translate (rect d) p in
      let exact = translate-IsExact d all.0 in
      let small = exact-IsSmall d t all.0 exact in
      let rest = bounds_from-IsEdged (union acc t) ds (union-IsSmall acc t s small) all.1 in
      record {
        left =
            rest.left
            ∙ ap (λ z. end_of min_ℤ left_of z ds)
                (union-x acc t s small ∙ ap (min_ℤ acc.x) exact.left);
        top =
            rest.top
            ∙ ap (λ z. end_of min_ℤ top_of z ds)
                (union-y acc t s small ∙ ap (min_ℤ acc.y) exact.top);
        right =
            rest.right
            ∙ ap (λ z. end_of max_ℤ right_of z ds)
                (union-max_x acc t s small ∙ ap (max_ℤ (max_x acc)) exact.right);
        bottom =
            rest.bottom
            ∙ ap (λ z. end_of max_ℤ bottom_of z ds)
                (union-max_y acc t s small ∙ ap (max_ℤ (max_y acc)) exact.bottom);
        small = rest.small;
      }

  spanned :
      (ds : List DisplayInfo) (b : Rect)
      → bounds_of p ds ≡ some b
      → Each IsNear ds
      → IsSpan ds b × IsSmall b
  spanned [] b e all = cc
  spanned (d ∷ ds) b e all =
      let t = translate (rect d) p in
      let exact = translate-IsExact d all.0 in
      let edged = bounds_from-IsEdged t ds (exact-IsSmall d t all.0 exact) all.1 in
      let same : bounds_from p t ds ≡ b = some-injective _ _ e in
      subst (λ c. IsSpan (d ∷ ds) c × IsSmall c) same
        (
          record {
            left =
                subst (IsEnd ◌≤ℤ◌ left_of (d ∷ ds))
                  (sym (edged.left ∙ ap (λ z. end_of min_ℤ left_of z ds) exact.left))
                  (lowest left_of d ds);
            top =
                subst (IsEnd ◌≤ℤ◌ top_of (d ∷ ds))
                  (sym (edged.top ∙ ap (λ z. end_of min_ℤ top_of z ds) exact.top))
                  (lowest top_of d ds);
            right =
                subst (IsEnd (λ u v. v ≤ℤ u) right_of (d ∷ ds))
                  (sym (edged.right ∙ ap (λ z. end_of max_ℤ right_of z ds) exact.right))
                  (highest right_of d ds);
            bottom =
                subst (IsEnd (λ u v. v ≤ℤ u) bottom_of (d ∷ ds))
                  (sym (edged.bottom ∙ ap (λ z. end_of max_ℤ bottom_of z ds) exact.bottom))
                  (highest bottom_of d ds);
          },
          edged.small,
        )

-- The bounds of a machine whose displays show something near the origin are the least rectangle around
-- them, which is not empty.
pub bounds-IsSpan :
    (m : MachineRecord) (b : Rect)
    → bounds m ≡ some b
    → Each (IsNear m.position) m.displays
    → IsSpan m.position m.displays b × IsSmall b
unfolding bounds
bounds-IsSpan m b e all = spanned m.position m.displays b e all
