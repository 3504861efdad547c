-- ===== src/Layout/Order.antt =====
-- Which machine a crossing leads to, and when there is none.
use inputshare.Base.{ℕ, Bool, true, false, ◌≡◌, ◌≢◌, ◌⊎◌, inl, inr, refl, some, List, ◌∷◌}
use inputshare.Geometry.{Point, Rect, contains, clamp}
use inputshare.Model.{MachineRecord, WorkspaceDoc, block}
use inputshare.Model.Invariant.{IsValid}
use inputshare.Model.Query.{machine}
use inputshare.Layout.{
  Direction, Resolution, stay, move, Candidate, direction_of, candidate, key_le, candidates_along,
  choose, leave, route, resolve_cursor, bounds_of_machine,
}
use inputshare.Layout.Nearest.{
  IsCandidate, candidates-IsCandidate, candidates_all, candidates-IsOrdered, choose-IsNearest,
  choose-each,
}
use inputshare.Layout.Safety.{handover, move_safe}

module _ (doc : WorkspaceDoc) (online : ℕ → Bool) (current : ℕ) (target : Point) where
  -- The machine that a crossing leads to, in a valid document, is the nearest on the ray: the
  -- distance and then the id of no machine of the workspace on the ray are smaller, of those that
  -- are online under `skip_over` and of all under `block`.
  pub move_nearest :
      (m : ℕ) (p : Point)
      → IsValid doc
      → resolve_cursor doc online current target ≡ move m p
      → (start : Rect) × (direction : Direction) × (chosen : Candidate) × (bounds_of_machine
            (machine doc current)
          ≡ some start)
        × (direction_of (clamp start target) target ≡ some direction)
        × (m ≡ chosen.machine)
        × IsCandidate doc current (clamp start target) direction chosen
        × ((r : MachineRecord) (c : Candidate)
            → machine doc r.id ≡ some r
            → candidate current (clamp start target) direction r ≡ some c
            → (doc.settings.value.offline_edge ≡ block) ⊎ (online c.machine ≡ true)
            → key_le chosen c ≡ true)
  move_nearest m p v e =
      let h = handover doc online current target m p e in
      let exit = clamp h.start target in
      let cs = candidates_along doc current exit h.direction in
      let n =
        choose-IsNearest online doc.settings.value.offline_edge cs h.chosen
          (candidates-IsOrdered doc current exit h.direction) h.is_chosen in
      (
        h.start,
        h.direction,
        h.chosen,
        h.placed,
        h.heading,
        h.to,
        choose-each online _ doc.settings.value.offline_edge cs h.chosen
            (candidates-IsCandidate doc current exit h.direction v) h.is_chosen,
        λ r c found q. candidates_all doc current exit h.direction _ n.nearest r c found q,
      )

  resolve_total :
      (o : Resolution)
      → resolve_cursor doc online current target ≡ o
      → ((p : Point) × (resolve_cursor doc online current target ≡ stay p))
        ⊎ ((m : ℕ) × (p : Point) × (resolve_cursor doc online current target ≡ move m p))
  resolve_total (stay p) e = inl (p, e)
  resolve_total (move m p) e = inr (m, p, e)

  -- With no other machine online the cursor stays on its machine, in a valid document.
  pub alone_stays :
      IsValid doc
      → ((id : ℕ) → id ≢ current → online id ≡ false)
      → (p : Point) × (resolve_cursor doc online current target ≡ stay p)
  alone_stays v dark = elim (resolve_total _ refl) [
    | inl s ↦ s
    | inr (m, p, e) ↦
        let safe = move_safe doc online current target m p v e in
        absurd (cc (safe.0, dark m safe.1))
  ]

  -- Under `block` the nearest machine on the ray, if it is offline, is a wall: the cursor stops at
  -- the boundary, whatever lies beyond.
  pub block_wall :
      (start : Rect) (direction : Direction) (c : Candidate) (rest : List Candidate)
      → doc.settings.value.offline_edge ≡ block
      → bounds_of_machine (machine doc current) ≡ some start
      → contains start target ≡ false
      → direction_of (clamp start target) target ≡ some direction
      → candidates_along doc current (clamp start target) direction ≡ c ∷ rest
      → online c.machine ≡ false
      → resolve_cursor doc online current target ≡ stay (clamp start target)
  unfolding resolve_cursor route leave choose
  block_wall start direction c rest b placed out heading cs dark =
      rw (placed, out, heading, cs, b, dark) refl
