-- ===== src/Agent/Position.antt =====
-- crates/is-agent/src/lib.rs: where a machine that is admitted is put.
use inputshare.Base.{
  ℤ, ◌≤ℤ◌, max_ℤ, Option, none, some, List, [], ◌∷◌, ◌≡◌, Each, Each-imp, arith, true, false,
}
use inputshare.Geometry.{Rect, max_x}
use inputshare.Model.{WorkspaceDoc, MachineRecord, bounds}
use inputshare.Model.Query.{machines_present}
use inputshare.Agent.Facts.{further, rightmost, or_zero, free_position}

-- At most the value, if there is one.
abbrev Within : ℤ → Option ℤ → Type 0
Within r none = true ≡ false
Within r (some x) = r ≤ℤ x

further_head : (b : Rect) (rest : Option ℤ) → Within (max_x b) (further (some b) rest)
unfolding max_ℤ
further_head b none = omega arith
further_head b (some x) = ground arith

further_tail :
    (o : Option Rect) (rest : Option ℤ) (r : ℤ) → Within r rest → Within r (further o rest)
unfolding max_ℤ
further_tail none rest r h = h
further_tail (some b) none r h = ground arith
further_tail (some b) (some x) r h = ground arith

head-Within :
    (o : Option Rect) (rest : Option ℤ) (b : Rect) → o ≡ some b → Within (max_x b) (further o rest)
head-Within o rest b e = rw e (further_head b rest)

rightmost_bound :
    (ms : List MachineRecord)
    → Each (λ m. (b : Rect) → bounds m ≡ some b → Within (max_x b) (rightmost ms)) ms
unfolding rightmost
rightmost_bound [] = tt
rightmost_bound (m ∷ ms) = (
  λ b e. head-Within (bounds m) (rightmost ms) b e,
  Each-imp _ _ ms (λ k f b e. further_tail (bounds m) (rightmost ms) (max_x b) (f b e))
      (rightmost_bound ms),
)

within_zero : (o : Option ℤ) (r : ℤ) → Within r o → r ≤ℤ or_zero o
within_zero none r h = ground arith
within_zero (some x) r h = h

-- A machine that is admitted is put to the right of every machine of the workspace that has screens.
pub admitted_beside :
    (doc : WorkspaceDoc)
    → Each
        (λ m. (b : Rect) → bounds m ≡ some b → max_x b ≤ℤ (free_position (some doc)).x)
        (machines_present doc)
unfolding free_position
admitted_beside doc =
    Each-imp _ _ (machines_present doc)
      (λ m f b e. within_zero (rightmost (machines_present doc)) (max_x b) (f b e))
      (rightmost_bound (machines_present doc))
