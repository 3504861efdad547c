-- ===== src/Input/Screens/Order.antt =====
-- The order in which the system calls back makes no difference.
use inputshare.Input.Screens.{monitor_callback}
use Prim.Native.Nat.{Ordering}
use Prim.Native.String.{String, compare}
use text.Mathlib.TextEquality.{path_by_compare}
use mathlib.Core.List.{Permᴰ}
use mathlib.Core.Path.{subst}
use inputshare.Base.{
  ℕ, true, false, Option, none, some, List, [], ◌∷◌, ◌++◌, ◌≡◌, ◌≢◌, Bool-cases, refl, sym, ap, ◌∙◌,
  ◌⊎◌, inl, inr, arith,
}
use inputshare.TextOrder.{Fits, flip, compare-Fits, compare-flip}
use inputshare.Model.{DisplayInfo}
use inputshare.Input.Screens.{
  MonitorInfo, is_gt, is_after, insert_by_id, sort_by_id, display_of, collect, each_monitor,
  enumerate_displays,
}

-- Of two texts one comes before the other, unless they are the same.
after-cases :
    (s t : String)
    → (s ≡ t)
      ⊎ ((is_after s t ≡ false) × (is_after t s ≡ true))
      ⊎ ((is_after s t ≡ true) × (is_after t s ≡ false))
after-cases s t = by_answer (compare s t) refl
  where
    by_answer :
        (o : Ordering)
        → compare s t ≡ o
        → (s ≡ t)
          ⊎ ((is_after s t ≡ false) × (is_after t s ≡ true))
          ⊎ ((is_after s t ≡ true) × (is_after t s ≡ false))
    by_answer Ordering.eq e = inl (path_by_compare s t e)
    by_answer Ordering.lt e = inr (inl (ap is_gt e, ap is_gt (compare-flip s t ∙ ap flip e)))
    by_answer Ordering.gt e = inr (inr (ap is_gt e, ap is_gt (compare-flip s t ∙ ap flip e)))

-- Of three texts compared in a circle: if the first is not after the second, nor the second after the
-- third, then the first is not after the third.
not_after : (a b c : Ordering) → Fits a b c → a ≢ Ordering.gt → b ≢ Ordering.gt → c ≢ Ordering.gt
not_after Ordering.eq b c h p q e = q (sym h ∙ e)
not_after Ordering.lt Ordering.eq c h p q e = ground (arith, sym h ∙ e)
not_after Ordering.lt Ordering.lt c h p q e = ground (arith, sym h ∙ e)
not_after Ordering.lt Ordering.gt c h p q e = q refl
not_after Ordering.gt b c h p q e = p refl

-- `is_after` and the answer that it reads.
after-gt : (s t : String) → is_after s t ≡ false → compare s t ≢ Ordering.gt
after-gt s t h e = ground (arith, sym h ∙ ap is_gt e)

gt-after : (s t : String) → compare s t ≢ Ordering.gt → is_after s t ≡ false
gt-after s t h = by_answer (compare s t) h
  where
    by_answer : (o : Ordering) → o ≢ Ordering.gt → is_gt o ≡ false
    by_answer Ordering.lt n = refl
    by_answer Ordering.eq n = refl
    by_answer Ordering.gt n = absurd (n refl)

-- What comes after the later of two comes after the earlier.
after_trans : (s t u : String) → is_after s t ≡ false → is_after t u ≡ false → is_after s u ≡ false
after_trans s t u h k = gt-after s u (
    not_after (compare s t) (compare t u) (compare s u) (compare-Fits s t u) (after-gt s t h)
      (after-gt t u k))

-- Two displays with different ids are put in place in either order.
inserts_ordered :
    (d e : DisplayInfo) (l : List DisplayInfo)
    → is_after d.id e.id ≡ false
    → is_after e.id d.id ≡ true
    → insert_by_id d (insert_by_id e l) ≡ insert_by_id e (insert_by_id d l)
unfolding insert_by_id
inserts_ordered d e [] p q = rw (p, q) refl
inserts_ordered d e (x ∷ l) p q = elim (Bool-cases (is_after e.id x.id)) [
  | inl later ↦ elim (Bool-cases (is_after d.id x.id)) [
    | inl still ↦ rw (later, still, later) (ap (λ r. x ∷ r) (inserts_ordered d e l p q))
    | inr now ↦ rw (later, now, q, later) refl
  ]
  | inr here ↦ rw (here, p, after_trans d.id e.id x.id p here, q, here) refl
]

inserts_swap :
    (d e : DisplayInfo) (l : List DisplayInfo)
    → (d.id ≡ e.id → d ≡ e)
    → insert_by_id d (insert_by_id e l) ≡ insert_by_id e (insert_by_id d l)
inserts_swap d e l h = elim (after-cases d.id e.id) [
  | inl same ↦
      subst (λ z. insert_by_id d (insert_by_id z l) ≡ insert_by_id z (insert_by_id d l)) (h same)
        refl
  | inr (inl (p, q)) ↦ inserts_ordered d e l p q
  | inr (inr (p, q)) ↦ sym (inserts_ordered e d l q p)
]

-- What is sorted into a list that is sorted already.
abbrev inserted : List DisplayInfo → List DisplayInfo → List DisplayInfo
inserted [] l = l
inserted (d ∷ ds) l = insert_by_id d (inserted ds l)

sort-inserted : (ds : List DisplayInfo) → sort_by_id ds ≡ inserted ds []
unfolding sort_by_id
sort-inserted [] = refl
sort-inserted (d ∷ ds) = ap (insert_by_id d) (sort-inserted ds)

inserted-snoc :
    (ds : List DisplayInfo) (d : DisplayInfo) (l : List DisplayInfo)
    → inserted (ds ++ d ∷ []) l ≡ inserted ds (insert_by_id d l)
inserted-snoc [] d l = refl
inserted-snoc (e ∷ ds) d l = ap (insert_by_id e) (inserted-snoc ds d l)

abbrev placed : Option DisplayInfo → List DisplayInfo → List DisplayInfo
placed none l = l
placed (some d) l = insert_by_id d l

-- What is seen of the monitors, sorted; a monitor of which nothing is seen is skipped.
module _ (seen : ℕ → Option DisplayInfo) where
  abbrev pub settled : List ℕ → List DisplayInfo
  settled [] = []
  settled (m ∷ ms) = placed (seen m) (settled ms)

  -- Whether the id tells what is seen of a monitor from what is seen of every other.
  abbrev pub IsNamed : Type 0
  IsNamed = (m n : ℕ) (d e : DisplayInfo) → seen m ≡ some d → seen n ≡ some e → d.id ≡ e.id → d ≡ e

  placed_swap :
      (m n : ℕ) (l : List DisplayInfo)
      → IsNamed
      → placed (seen m) (placed (seen n) l) ≡ placed (seen n) (placed (seen m) l)
  placed_swap m n l named = by_displays (seen m) (seen n) refl refl
    where
      by_displays :
          (o p : Option DisplayInfo)
          → seen m ≡ o
          → seen n ≡ p
          → placed o (placed p l) ≡ placed p (placed o l)
      by_displays none p e f = refl
      by_displays (some a) none e f = refl
      by_displays (some a) (some b) e f = inserts_swap a b l (named m n a b e f)

  pub settled_anyhow : {ms ns : List ℕ} → IsNamed → Permᴰ ms ns → settled ms ≡ settled ns
  settled_anyhow named Permᴰ.nil = refl
  settled_anyhow named (Permᴰ.cons {a = a} {b = b} {l₁ = l} {l₂ = m} e p) =
      ap (λ k. placed (seen k) (settled l)) e ∙ ap (placed (seen b)) (settled_anyhow named p)
  settled_anyhow named (Permᴰ.swap {a = a} {b = b} {l = l} e f) =
      cc (placed_swap a b (settled l) named, e, f)
  settled_anyhow named (Permᴰ.trans p q) = settled_anyhow named p ∙ settled_anyhow named q

module _ (f32_ratio : ℕ → ℕ → ℕ) (monitor_info : ℕ → Option MonitorInfo) where
  abbrev pub shown : Option MonitorInfo → Option DisplayInfo
  shown none = none
  shown (some info) = some (display_of f32_ratio monitor_info info)

  abbrev pub seen_of : ℕ → Option DisplayInfo
  seen_of m = shown (monitor_info m)

  inserted-collect :
      (o : Option MonitorInfo) (collected l : List DisplayInfo)
      → inserted (collect f32_ratio monitor_info o collected) l
        ≡ inserted collected (placed (shown o) l)
  inserted-collect none collected l = refl
  inserted-collect (some info) collected l =
      inserted-snoc collected (display_of f32_ratio monitor_info info) l

  each-settled :
      (ms : List ℕ) (collected : List DisplayInfo)
      → sort_by_id (each_monitor f32_ratio monitor_info ms collected)
        ≡ inserted collected (settled seen_of ms)
  unfolding each_monitor monitor_callback
  each-settled [] collected = sort-inserted collected
  each-settled (m ∷ ms) collected =
      each-settled ms (collect f32_ratio monitor_info (monitor_info m) collected)
      ∙ inserted-collect (monitor_info m) collected (settled seen_of ms)

  -- Where the name of its device tells a monitor from every other, the order in which the system lists
  -- the monitors makes no difference to what is reported: an unchanged layout is the same list of screens.
  pub listed_anyhow :
      {ms ns : List ℕ}
      → IsNamed seen_of
      → Permᴰ ms ns
      → enumerate_displays f32_ratio monitor_info (some ms)
        ≡ enumerate_displays f32_ratio monitor_info (some ns)
  unfolding enumerate_displays
  listed_anyhow {ms} {ns} named p =
      ap some (each-settled ms [] ∙ settled_anyhow seen_of named p ∙ sym (each-settled ns []))
