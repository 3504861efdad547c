-- ===== src/Input/Mac/Motion.antt =====
-- Replayed motion stays on the desktop, and the event says how far the cursor went.
use mathlib.Core.Path.{subst}
use inputshare.Input.Mac.Monitors.{IsScreen, IsDesktop, widened-IsDesktop}
use inputshare.Input.Mac.{Kind}
use inputshare.Base.{
  sym, i32_max, -ℤ_parts, ◌-ℤ◌, ℕ, ℤ, pos, negsuc, ◌≤ℤ◌, ◌<ℤ◌, ◌-ℤ◌, min_ℤ, max_ℤ, wrap_id, true,
  Option, none, some, List, [], ◌∷◌, ◌≡◌, refl, arith, Bool-cases, inl, inr, Each,
}
use inputshare.Model.{DisplayInfo}
use inputshare.Sharing.{add_i32, sub_i32}
use inputshare.Input.Mac.{Desktop, Mac, CgEvent, System}
use inputshare.Base.{ltb, ◌-◌, ◌/◌, Bool-cases, inl, inr}
use inputshare.Sharing.{sub_i32}
use inputshare.Input.Mac.{CgEvent}
use inputshare.Input.Mac.Inject.{
  moved, kept, cached, reread, clamp_i32, Outcome, posted, nothing, refused, panicked, post,
  remember, measured, widened, covering, desktop_bounds, current_point, on_desktop, moved,
  inject_move, motion_kind,
}

-- The monitors that the desktop is worked out from: those of a rectangle that is fresh, or else the present.
abbrev pub in_use :
    Option Desktop → List DisplayInfo → Option (List DisplayInfo) → Option (List DisplayInfo)
in_use none old displays = displays
in_use (some rect) old displays = some old

abbrev pub used : List DisplayInfo → System → Mac → Option (List DisplayInfo)
used old sys s = in_use (cached sys.instant s.cache) old sys.displays

unfoldable pub Monitors : Option (List DisplayInfo) → Type 0
Monitors none = Unit
Monitors (some ds) = Each IsScreen ds

-- The rectangle that is kept is the desktop of the monitors `old`.
unfoldable pub Saved : List DisplayInfo → Option (Desktop × ℕ) → Type 0
Saved old none = Unit
Saved old (some (r, at)) = IsDesktop old r

-- The number from `low` to before `high` that is nearest to `v`.
abbrev pub nearest : ℤ → ℤ → ℤ → ℤ
nearest low high v = max_ℤ low (min_ℤ v (high -ℤ pos 1))

-- Where a movement to `(x, y)` leads on the monitors: to the nearest point of their desktop, if there are any.
unfoldable pub Reaches : Option (List DisplayInfo) → ℤ → ℤ → ℤ → ℤ → Type 0
Reaches none x y nx ny = (nx ≡ x) × (ny ≡ y)
Reaches (some []) x y nx ny = (nx ≡ x) × (ny ≡ y)
Reaches (some (d ∷ ds)) x y nx ny =
    (r : Desktop) × IsDesktop (d ∷ ds) r
    × (nx ≡ nearest r.min_x r.max_x x)
    × (ny ≡ nearest r.min_y r.max_y y)

-- What the code takes for the desktop.
unfoldable Known : Option (List DisplayInfo) → Option Desktop → Type 0
Known none o = o ≡ none
Known (some []) o = o ≡ none
Known (some (d ∷ ds)) o = (r : Desktop) × (o ≡ some r) × IsDesktop (d ∷ ds) r

measured-Known : (o : Option (List DisplayInfo)) → Monitors o → Known o (measured o)
unfolding measured Known Monitors
measured-Known none m = refl
measured-Known (some []) m = refl
measured-Known (some (d ∷ ds)) m = (widened (covering d) ds, refl, widened-IsDesktop d ds m)

reread-same :
    (now : ℕ) (o : Option Desktop) (s : Mac)
    → ((reread now o s).0 ≡ o) × ((reread now o s).1.held_buttons ≡ s.held_buttons)
reread-same now none s = (refl, refl)
reread-same now (some r) s = (refl, refl)

saved-Known : (old : List DisplayInfo) (r : Desktop) → IsDesktop old r → Known (some old) (some r)
unfolding Known
saved-Known [] r i = absurd i.left.1
saved-Known (d ∷ ds) r i = (r, refl, i)

kept-Known :
    (now : ℕ) (old : List DisplayInfo) (cache : Option (Desktop × ℕ))
    (displays : Option (List DisplayInfo)) (s : Mac)
    → Monitors displays
    → Saved old cache
    → Known (in_use (cached now cache) old displays) (kept now (cached now cache) displays s).0
unfolding Saved
kept-Known now old none displays s m c =
    subst (Known displays) (sym (reread-same now (measured displays) s).0)
      (measured-Known displays m)
kept-Known now old (some (rect, at)) displays s m c =
    elim (Bool-cases (ltb ((now - at) / 1000) 2)) [
      | inl q ↦ rw q (saved-Known old rect c)
      | inr q ↦ rw q (
          subst (Known displays) (sym (reread-same now (measured displays) s).0)
            (measured-Known displays m))
    ]

kept-held :
    (now : ℕ) (o : Option Desktop) (displays : Option (List DisplayInfo)) (s : Mac)
    → (kept now o displays s).1.held_buttons ≡ s.held_buttons
kept-held now (some rect) displays s = refl
kept-held now none displays s = (reread-same now (measured displays) s).1

pinned : (low last v : ℤ) → low ≤ℤ last → clamp_i32 low last v ≡ some (max_ℤ low (min_ℤ v last))
unfolding min_ℤ max_ℤ
pinned low last v room = ground arith

clamp_nearest :
    (low high v : ℤ)
    → low <ℤ high
    → negsuc 1073741823 ≤ℤ low
    → high ≤ℤ i32_max
    → clamp_i32 low (sub_i32 high (pos 1)) v ≡ some (nearest low high v)
clamp_nearest low high v order below above =
    let parts = -ℤ_parts high (pos 1) in
    let last = high -ℤ pos 1 in
    let exact : sub_i32 high (pos 1) ≡ last = wrap_id last (omega arith) in
    let room : low ≤ℤ last = omega arith in rw exact (pinned low last v room)

reached :
    (ds : Option (List DisplayInfo)) (o : Option Desktop) (x y : ℤ)
    → Known ds o
    → (p : ℤ × ℤ) × (on_desktop o x y ≡ some p) × Reaches ds x y p.0 p.1
unfolding Known Reaches
reached none o x y k = ((x, y), rw k refl, (refl, refl))
reached (some []) o x y k = ((x, y), rw k refl, (refl, refl))
reached (some (d ∷ ds)) o x y (r, k, i) =
    let p = i.proper in
    let across = clamp_nearest r.min_x r.max_x x p.wide p.left p.right in
    let down = clamp_nearest r.min_y r.max_y y p.high p.top p.bottom in
    (
      (nearest r.min_x r.max_x x, nearest r.min_y r.max_y y),
      rw (k, across, down) refl,
      (r, i, refl, refl),
    )

-- How a movement ends: at a point that it reaches, with the event that the system made or did not make.
pub move_outcome :
    (sys : System) (old : List DisplayInfo) (dx dy : ℤ) (s : Mac)
    → Monitors sys.displays
    → Saved old s.cache
    → (let at = current_point sys s in
        let kind = motion_kind s.held_buttons in
        (p : ℤ × ℤ) × Reaches (used old sys s) (add_i32 at.0 dx) (add_i32 at.1 dy) p.0 p.1
        × (inject_move sys dx dy s
            ≡ moved at.0 at.1 p.0 p.1
                (sys.create_mouse kind.0 p.0 p.1 kind.1)
                (desktop_bounds sys s).1))
unfolding inject_move desktop_bounds
move_outcome sys old dx dy s m c =
    let at = current_point sys s in
    let bounds = desktop_bounds sys s in
    let (p, lands, reaches) =
      reached (used old sys s) bounds.0 (add_i32 at.0 dx) (add_i32 at.1 dy)
        (kept-Known sys.instant old s.cache sys.displays s m c) in
    let held = kept-held sys.instant (cached sys.instant s.cache) sys.displays s in
    (p, reaches, rw (lands, held) refl)

-- How a movement from `at` to `(x, y)` may end: with an event that says how far the cursor went, and the
-- cursor remembered where it leads, or refused because the system made no event.
unfoldable pub Landed : System → Option (List DisplayInfo) → ℤ × ℤ → ℤ → ℤ → Outcome × Mac → Type 0
Landed sys ds at x y (posted e, t) =
    Reaches ds x y t.last_x t.last_y
    × (t.have_last ≡ true)
    × (e.delta_x ≡ sub_i32 t.last_x at.0)
    × (e.delta_y ≡ sub_i32 t.last_y at.1)
Landed sys ds at x y (refused reason, t) =
    (kind : Kind) × (nx : ℤ) × (ny : ℤ) × (button : ℕ) × Reaches ds x y nx ny
    × (sys.create_mouse kind nx ny button ≡ none)
Landed sys ds at x y (nothing, t) = ⊥
Landed sys ds at x y (panicked, t) = ⊥

moved-Landed :
    (sys : System) (ds : Option (List DisplayInfo)) (at : ℤ × ℤ) (x y nx ny : ℤ) (kind : Kind)
    (button : ℕ) (o : Option CgEvent) (s : Mac)
    → sys.create_mouse kind nx ny button ≡ o
    → Reaches ds x y nx ny
    → Landed sys ds at x y (moved at.0 at.1 nx ny o s)
unfolding Landed remember post
moved-Landed sys ds at x y nx ny kind button none s e h = (kind, nx, ny, button, h, e)
moved-Landed sys ds at x y nx ny kind button (some event) s e h = (h, refl, refl, refl)

-- The monitors show something and lie within 2^30 of the origin, and a rectangle that is kept is the
-- desktop of the monitors it was worked out from. Then a replayed movement never panics, and it leaves the
-- remembered cursor at the point of the desktop that is nearest to where it leads, with the way from
-- where the cursor was for the event's deltas; unless the system makes no event for that point. The
-- desktop is the least rectangle around the monitors, those of the kept rectangle while it is fresh.
pub move_lands :
    (sys : System) (old : List DisplayInfo) (dx dy : ℤ) (s : Mac)
    → Monitors sys.displays
    → Saved old s.cache
    → (let at = current_point sys s in
        Landed sys
          (used old sys s)
          at
          (add_i32 at.0 dx)
          (add_i32 at.1 dy)
          (inject_move sys dx dy s))
move_lands sys old dx dy s m c =
    let at = current_point sys s in
    let kind = motion_kind s.held_buttons in
    let (p, reaches, ends) = move_outcome sys old dx dy s m c in
    rw ends (
      moved-Landed sys (used old sys s) at (add_i32 at.0 dx) (add_i32 at.1 dy) p.0 p.1 kind.0 kind.1
        (sys.create_mouse kind.0 p.0 p.1 kind.1) (desktop_bounds sys s).1 refl reaches)
