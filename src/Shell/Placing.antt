-- ===== src/Shell/Placing.antt =====
-- Where a machine is drawn after it was dropped somewhere.
use inputshare.Base.{
  ℕ, ◌==◌, ◌≡◌, refl, sym, ap, ◌∙◌, ℤ, pos, negsuc, ◌≤ℤ◌, ◌+ℤ◌, ◌-ℤ◌, +ℤ_parts, -ℤ_parts,
  eq_of_parts, min_ℤ, saturate, saturate_id, wrap_id, Option, some, List, [], ◌∷◌, arith, Each,
  Each-imp, if◌then◌else◌,
}
use inputshare.Geometry.{Point, Rect, union, translate}
use inputshare.Model.{
  WorkspaceDoc, MachineRecord, DisplayInfo, bounds, bounds_from, bounds_of, rect, Op,
}
use inputshare.Model.Query.{machine}
use inputshare.Store.{Codec, Fault}
use inputshare.Agent.{Agent, record_in}
use inputshare.Agent.Commands.{mutate, upsert_machine}
use inputshare.Agent.Trust.{mutate-Holds, upsert_record}
use inputshare.Sharing.{sub_i32}
use inputshare.Shell.{Texts, corner, card}
use inputshare.Shell.Commands.{
  ok, placed, offset_of, move_machine, edit_machine, told, on_id, rewritten, Result,
}
use inputshare.Agent.Commands

-- At most 2^29 from the origin, and at most 2^30.
abbrev pub Near : ℤ → Type 0
Near z = (negsuc 536870911 ≤ℤ z) × (z ≤ℤ pos 536870912)

abbrev Fair : ℤ → Type 0
Fair z = (negsuc 1073741823 ≤ℤ z) × (z ≤ℤ pos 1073741824)

-- The least of a number and of the displays' places.
least : (DisplayInfo → ℤ) → ℤ → List DisplayInfo → ℤ
least at a [] = a
least at a (d ∷ ds) = least at (min_ℤ a (at d)) ds

min_ℤ-Near : (a b : ℤ) → Near a → Near b → Near (min_ℤ a b)
unfolding min_ℤ
min_ℤ-Near a b p q = ground arith

least-Near :
    (at : DisplayInfo → ℤ) (a : ℤ) (ds : List DisplayInfo)
    → Near a
    → Each (λ d. Near (at d)) ds
    → Near (least at a ds)
unfolding least
least-Near at a [] p all = p
least-Near at a (d ∷ ds) p all =
    least-Near at (min_ℤ a (at d)) ds (min_ℤ-Near a (at d) p all.0) all.1

shifted : (p a : ℤ) → Fair p → Near a → saturate (a +ℤ p) ≡ p +ℤ a
shifted p a f n =
    let there = +ℤ_parts a p in
    let back = +ℤ_parts p a in
    saturate_id (a +ℤ p) (omega arith) ∙ eq_of_parts (a +ℤ p) (p +ℤ a) (omega arith)

min_ℤ-shift : (p a b : ℤ) → min_ℤ (p +ℤ a) (p +ℤ b) ≡ p +ℤ min_ℤ a b
unfolding min_ℤ
min_ℤ-shift p a b = ground (arith, +ℤ_parts p a, +ℤ_parts p b)

bounds_from-corner_x :
    (p : Point) (acc : Rect) (a : ℤ) (ds : List DisplayInfo)
    → Fair p.x
    → acc.x ≡ p.x +ℤ a
    → Each (λ d. Near d.x) ds
    → (bounds_from p acc ds).x ≡ p.x +ℤ least (λ d. d.x) a ds
unfolding bounds_from least union translate rect
bounds_from-corner_x p acc a [] f e all = e
bounds_from-corner_x p acc a (d ∷ ds) f e all =
    bounds_from-corner_x p (union acc (translate (rect d) p)) (min_ℤ a d.x) ds f
      (rw (e, shifted p.x d.x f all.0) (min_ℤ-shift p.x a d.x)) all.1

bounds_from-corner_y :
    (p : Point) (acc : Rect) (a : ℤ) (ds : List DisplayInfo)
    → Fair p.y
    → acc.y ≡ p.y +ℤ a
    → Each (λ d. Near d.y) ds
    → (bounds_from p acc ds).y ≡ p.y +ℤ least (λ d. d.y) a ds
unfolding bounds_from least union translate rect
bounds_from-corner_y p acc a [] f e all = e
bounds_from-corner_y p acc a (d ∷ ds) f e all =
    bounds_from-corner_y p (union acc (translate (rect d) p)) (min_ℤ a d.y) ds f
      (rw (e, shifted p.y d.y f all.0) (min_ℤ-shift p.y a d.y)) all.1

corner-least :
    (p : Point) (d : DisplayInfo) (ds : List DisplayInfo)
    → Fair p.x
    → Fair p.y
    → Each (λ e. Near e.x × Near e.y) (d ∷ ds)
    → corner p (bounds_of p (d ∷ ds)) ≡ (
        let c : Point = record {
          x = p.x +ℤ least (λ e. e.x) d.x ds;
          y = p.y +ℤ least (λ e. e.y) d.y ds;
        } in
        c)
unfolding translate rect
corner-least p d ds f g all =
    let first = translate (rect d) p in
    let across =
      bounds_from-corner_x p first d.x ds f (shifted p.x d.x f all.0.0)
        (Each-imp _ _ ds (λ e n. n.0) all.1) in
    let down =
      bounds_from-corner_y p first d.y ds g (shifted p.y d.y g all.0.1)
        (Each-imp _ _ ds (λ e n. n.1) all.1) in
    cc (across, down)

-- The offset that is taken off is the least place of the displays.
offset_lem : (p a : ℤ) → Fair p → Near a → sub_i32 (p +ℤ a) p ≡ a
offset_lem p a f n =
    let there = +ℤ_parts p a in
    let back = -ℤ_parts (p +ℤ a) p in
    wrap_id ((p +ℤ a) -ℤ p) (omega arith) ∙ eq_of_parts ((p +ℤ a) -ℤ p) a (omega arith)

landing : (x a : ℤ) → Near x → Near a → Fair (sub_i32 x a) × (sub_i32 x a +ℤ a ≡ x)
landing x a n m =
    let parts = -ℤ_parts x a in
    let exact = wrap_id (x -ℤ a) (omega arith) in
    let back = +ℤ_parts (x -ℤ a) a in
    rw exact ((omega arith, omega arith), eq_of_parts (x -ℤ a +ℤ a) x (omega arith))

minus_zero : (x : ℤ) → Near x → sub_i32 x (pos 0) ≡ x
minus_zero x n =
    let parts = -ℤ_parts x (pos 0) in
    wrap_id (x -ℤ pos 0) (omega arith) ∙ eq_of_parts (x -ℤ pos 0) x (omega arith)

-- A point that a machine is moved to is the corner of what it covers then.
dropped :
    (p : Point) (x y : ℤ) (ds : List DisplayInfo)
    → Fair p.x
    → Fair p.y
    → Near x
    → Near y
    → Each (λ e. Near e.x × Near e.y) ds
    → (let q : Point = record {
      x = sub_i32 x (offset_of p (bounds_of p ds)).x;
      y = sub_i32 y (offset_of p (bounds_of p ds)).y;
    } in
        corner q (bounds_of q ds) ≡ (let c : Point = record { x = x; y = y } in c))
dropped p x y [] f g n m all = cc (minus_zero x n, minus_zero y m)
dropped p x y (d ∷ ds) f g n m all =
    let left = least-Near (λ e. e.x) d.x ds all.0.0 (Each-imp _ _ ds (λ e k. k.0) all.1) in
    let top = least-Near (λ e. e.y) d.y ds all.0.1 (Each-imp _ _ ds (λ e k. k.1) all.1) in
    let before = corner-least p d ds f g all in
    let across = ap (λ (c : Point). sub_i32 c.x p.x) before ∙ offset_lem p.x _ f left in
    let down = ap (λ (c : Point). sub_i32 c.y p.y) before ∙ offset_lem p.y _ g top in
    let there = landing x _ n left in
    let below = landing y _ m top in
    rw (across, down)
      (corner-least
          (record {
            x = sub_i32 x (least (λ e. e.x) d.x ds);
            y = sub_i32 y (least (λ e. e.y) d.y ds);
          })
          d ds there.0 below.0 all
        ∙ cc (there.1, below.1))

pub told_state : (r : Commands.Result (Unit {0}) × Agent) → (told r).1 ≡ r.1
told_state (Commands.ok done, a) = refl
told_state (Commands.err e, a) = refl

pub told_ok : (r : Commands.Result (Unit {0}) × Agent) → r.0 ≡ Commands.ok tt → (told r).0 ≡ ok tt
told_ok (Commands.ok done, a) e = refl
told_ok (Commands.err e, a) h = ground arith

module _ (texts : Texts) (docs : Codec WorkspaceDoc) where
  pub mutated :
      (fault : Option Fault) (now_ms : ℕ) (op : Op) (a : Agent) (doc : WorkspaceDoc)
      → a.doc ≡ some doc
      → (mutate docs fault now_ms op a).0 ≡ Commands.ok tt
  unfolding mutate
  mutated fault now_ms op a doc e = rw e refl

  upserted :
      (fault : Option Fault) (now_ms : ℕ) (m : MachineRecord) (a : Agent) (doc : WorkspaceDoc)
      → a.doc ≡ some doc
      → (let r = told (upsert_machine docs fault now_ms m a) in
          (r.0 ≡ ok tt)
          × ((other : ℕ)
              → record_in r.1.doc other
                ≡ (if m.id == other then some m else record_in a.doc other)))
  unfolding upsert_machine
  upserted fault now_ms m a doc e =
      let made = mutate docs fault now_ms (Op.upsert_machine m) a in
      let after = (mutate-Holds docs fault now_ms (Op.upsert_machine m) a doc e).document in
      (
        told_ok made (mutated fault now_ms (Op.upsert_machine m) a doc e),
        λ other.
            ap (λ (b : Agent). record_in b.doc other) (told_state made)
            ∙ (ap (λ o. record_in o other) after
                ∙ (upsert_record doc a.identity.machine_id now_ms m other
                    ∙ ap (λ o. if m.id == other then some m else record_in o other) (sym e))),
      )

  -- A machine of the workspace that is moved to a point on the canvas is drawn there: its card has the
  -- point for a corner, whatever screens it has, when point and screens lie within 2^29 of the origin and
  -- it stood within 2^30. Its record changes in nothing but its position, and no other record changes.
  pub drop_lands :
      (fault : Option Fault) (now_ms : ℕ) (x y : ℤ) (m : MachineRecord) (a : Agent)
      (doc : WorkspaceDoc) (me : ℕ) (online : List ℕ)
      → a.doc ≡ some doc
      → machine doc m.id ≡ some m
      → Near x
      → Near y
      → Fair m.position.x
      → Fair m.position.y
      → Each (λ d. Near d.x × Near d.y) m.displays
      → (let r = move_machine texts docs fault now_ms (texts.id_text m.id) x y a in
          let moved = placed x y m in
          (r.0 ≡ ok tt)
          × ((other : ℕ)
              → record_in r.1.doc other
                ≡ (if m.id == other then some moved else record_in a.doc other))
          × ((card texts me online moved).x ≡ x)
          × ((card texts me online moved).y ≡ y)
          × (moved ≡ record m { position = moved.position }))
  unfolding move_machine edit_machine card bounds
  drop_lands fault now_ms x y m a doc me online e found n k f g all =
      let there = dropped m.position x y m.displays f g n k all in
      let found_in : record_in a.doc m.id ≡ some m = ap (λ o. record_in o m.id) e ∙ found in
      let change = placed x y in
      let made = upserted fault now_ms (change m) a doc e in
      let same =
        ap
          (λ o.
            on_id texts docs (texts.id_text m.id) o
              (λ i b. rewritten texts docs fault now_ms change (record_in b.doc i) b) a)
          (texts.parse-id_text m.id)
        ∙ ap (λ o. rewritten texts docs fault now_ms change o a) found_in in
      (
        ap (λ (r : Result (Unit {0}) × Agent). r.0) same ∙ made.0,
        (λ other.
            ap (λ (r : Result (Unit {0}) × Agent). record_in r.1.doc other) same ∙ made.1 other),
        ap (λ (c : Point). c.x) there,
        ap (λ (c : Point). c.y) there,
        refl,
      )
