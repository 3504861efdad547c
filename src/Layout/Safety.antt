-- ===== src/Layout/Safety.antt =====
-- `resolve_cursor` as a whole: the cursor never leaves the reach of the user.
use mathlib.Core.Path.{subst}
use inputshare.Geometry.Union.{IsSmall-IsNonempty}
use inputshare.Layout.Span.{IsNear, IsSpan, bounds-IsSpan}
use inputshare.Base.{
  Each, ℕ, Bool, true, ◌≡◌, ◌≢◌, inl, inr, refl, ap, Option, none, some, arith, Bool-cases,
}
use inputshare.Geometry.{Point, Rect, Inside, contains, clamp}
use inputshare.Geometry.Clamp.{IsNonempty, clamp-Inside, contains→Inside}
use inputshare.Model.{MachineRecord, WorkspaceDoc, bounds}
use inputshare.Model.Invariant.{IsValid}
use inputshare.Model.Query.{machine}
use inputshare.Layout.{
  Direction, Resolution, stay, move, Candidate, direction_of, candidates_along, entry_point, choose,
  hand_over, leave, route, resolve_cursor, bounds_of_machine,
}
use inputshare.Layout.Nearest.{
  candidates-IsCandidate, candidates-IsOrdered, choose-IsNearest, choose-each,
}

-- How a crossing comes about: the machine that is left, the ray, and the machine that is met.
pub record IsHandover (doc : WorkspaceDoc) (online : ℕ → Bool) (current : ℕ) (target : Point)
    (m : ℕ) (p : Point) : Type 0 where
  pub start : Rect
  pub placed : bounds_of_machine (machine doc current) ≡ some start
  pub direction : Direction
  pub heading : direction_of (clamp start target) target ≡ some direction
  pub chosen : Candidate
  pub is_chosen :
      choose doc.settings.value.offline_edge online
        (candidates_along doc current (clamp start target) direction)
      ≡ some chosen
  pub to : m ≡ chosen.machine
  pub at : p ≡ entry_point chosen.bounds (clamp start target) direction

entry-Inside :
    (b : Rect) (exit : Point) (direction : Direction)
    → IsNonempty b
    → Inside b (entry_point b exit direction)
unfolding entry_point
entry-Inside b exit direction n = clamp-Inside b _ n

abbrev at_point : Resolution → Point
at_point (stay p) = p
at_point (move m p) = p

module _ (doc : WorkspaceDoc) (online : ℕ → Bool) (current : ℕ) (target : Point) where
  -- The case that the handover is made in the direction `direction`.
  hand_over-case :
      (start : Rect) (direction : Direction) (o : Option Candidate) (m : ℕ) (p : Point)
      → bounds_of_machine (machine doc current) ≡ some start
      → direction_of (clamp start target) target ≡ some direction
      → choose doc.settings.value.offline_edge online
          (candidates_along doc current (clamp start target) direction)
        ≡ o
      → hand_over o (clamp start target) direction ≡ move m p
      → IsHandover doc online current target m p
  hand_over-case start direction none m p f g c e = cc
  hand_over-case start direction (some d) m p f g c e = record {
    start = start;
    placed = f;
    direction = direction;
    heading = g;
    chosen = d;
    is_chosen = c;
    to = cc;
    at = cc;
  }

  leave-case :
      (start : Rect) (o : Option Direction) (m : ℕ) (p : Point)
      → bounds_of_machine (machine doc current) ≡ some start
      → direction_of (clamp start target) target ≡ o
      → leave doc online current (clamp start target) o ≡ move m p
      → IsHandover doc online current target m p
  unfolding leave
  leave-case start none m p f g e = cc
  leave-case start (some direction) m p f g e = hand_over-case start direction _ m p f g refl e

  route-case :
      (o : Option Rect) (m : ℕ) (p : Point)
      → bounds_of_machine (machine doc current) ≡ o
      → route doc online current target o ≡ move m p
      → IsHandover doc online current target m p
  unfolding route
  route-case none m p f e = cc
  route-case (some start) m p f e = elim (Bool-cases (contains start target)) [
    | inl h ↦ cc (rw h at e)
    | inr h ↦ leave-case start _ m p f refl (rw h at e)
  ]

  pub handover :
      (m : ℕ) (p : Point)
      → resolve_cursor doc online current target ≡ move m p
      → IsHandover doc online current target m p
  unfolding resolve_cursor
  handover m p e = route-case _ m p refl e

  leave-stay :
      (exit : Point) (o : Option Direction) (p : Point)
      → leave doc online current exit o ≡ stay p
      → p ≡ exit
  unfolding leave
  leave-stay exit none p e = cc
  leave-stay exit (some direction) p e = ground arith

  -- In a valid document a crossing leads to another machine that is online and belongs to the workspace,
  -- and the cursor lands inside its bounds, if they have any area. These are the least rectangle around
  -- its displays, with an area, where each of them has an area and lies within 2^30 of the origin. Where
  -- the displays leave a part of the rectangle uncovered, the cursor may land there.
  pub move_safe :
      (m : ℕ) (p : Point)
      → IsValid doc
      → resolve_cursor doc online current target ≡ move m p
      → (online m ≡ true)
        × (m ≢ current)
        × (r : MachineRecord) × (b : Rect) × (machine doc m ≡ some r)
        × (bounds r ≡ some b)
        × (IsNonempty b → Inside b p)
        × (Each (IsNear r.position) r.displays → IsSpan r.position r.displays b × IsNonempty b)
  move_safe m p v e =
      let h = handover m p e in
      let exit = clamp h.start target in
      let all = candidates-IsCandidate doc current exit h.direction v in
      let c = choose-each online _ _ _ h.chosen all h.is_chosen in
      let n =
        choose-IsNearest online _ _ h.chosen (candidates-IsOrdered doc current exit h.direction)
          h.is_chosen in
      rw (h.to, h.at)
        (
          n.is_online,
          c.elsewhere,
          c.owner,
          h.chosen.bounds,
          c.found,
          c.placed,
          entry-Inside h.chosen.bounds exit h.direction,
          λ near.
              let span = bounds-IsSpan c.owner h.chosen.bounds c.placed near in
              (span.0, IsSmall-IsNonempty h.chosen.bounds span.1),
        )

  -- A cursor that stays is inside the displays of its machine, if they have any area.
  pub stay-Inside :
      (b : Rect) (p : Point)
      → bounds_of_machine (machine doc current) ≡ some b
      → IsNonempty b
      → resolve_cursor doc online current target ≡ stay p
      → Inside b p
  unfolding resolve_cursor route
  stay-Inside b p placed n e = elim (Bool-cases (contains b target)) [
    | inl h ↦
        let same : stay target ≡ stay p = rw (placed, h) at e in
        subst (Inside b) (ap at_point same) (contains→Inside b target h)
    | inr h ↦
        let q : leave doc online current (clamp b target) (direction_of (clamp b target) target)
            ≡ stay p =
          rw (placed, h) at e in
        rw (leave-stay _ _ p q) (clamp-Inside b target n)
  ]
