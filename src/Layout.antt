-- ===== src/Layout.antt =====
-- crates/is-core/src/layout.rs: where the cursor goes when it leaves a machine. The set of machines
-- online is a function to `Bool`; `-` and `abs` on coordinates are those of a release build, which
-- wrap; `sort_by_key` is a stable sort, written as an insertion sort.
pub mod Candidates
pub mod Nearest
pub mod Span
pub mod Safety
pub mod Order
pub mod Fallback
use inputshare.Base.{
  ℕ, ℤ, pos, Bool, true, false, not, ◌&&◌, ◌||◌, Option, none, some, List, [], ◌∷◌, ◌==◌, leb, ltb,
  ltb_ℤ, leb_ℤ, ◌-ℤ◌, wrap, saturate, abs_ℤ, min, if◌then◌else◌,
}
use inputshare.Geometry.{Point, Rect, max_x, max_y, contains, clamp}
use inputshare.Model.{MachineRecord, WorkspaceDoc, OfflineEdgeBehavior, block, skip_over, bounds}
use inputshare.Model.Query.{machine, machines_present}

pub data Direction : Type 0 where
  left right up down : Direction

unfoldable pub is_horizontal : Direction → Bool
is_horizontal left = true
is_horizontal right = true
is_horizontal up = false
is_horizontal down = false

pub data Resolution : Type 0 where
  stay : Point → Resolution
  move : ℕ → Point → Resolution

pub record Candidate : Type 0 where
  pub machine : ℕ
  pub bounds : Rect
  pub distance : ℤ

-- Equality of `i32` values.
abbrev pub eq_ℤ : ℤ → ℤ → Bool
eq_ℤ a b = leb_ℤ a b && leb_ℤ b a

-- `abs` of a release build: the least value is its own.
abbrev abs_i32 : ℤ → ℤ
abs_i32 z = wrap (abs_ℤ z)

-- The dominant axis of travel; none where the two points are equal.
unfoldable pub direction_of : Point → Point → Option Direction
direction_of exit target =
    let dx = wrap (target.x -ℤ exit.x) in
    let dy = wrap (target.y -ℤ exit.y) in
    if eq_ℤ dx (pos 0) && eq_ℤ dy (pos 0)
    then none
    else if leb_ℤ (abs_i32 dy) (abs_i32 dx)
    then some (if ltb_ℤ (pos 0) dx then right else left)
    else some (if ltb_ℤ (pos 0) dy then down else up)

-- The rectangle lies on the ray from `exit`: it spans the exit point and begins beyond it.
unfoldable pub on_ray : Rect → Point → Direction → Bool
on_ray b exit right = leb_ℤ b.y exit.y && ltb_ℤ exit.y (max_y b) && ltb_ℤ exit.x b.x
on_ray b exit left = leb_ℤ b.y exit.y && ltb_ℤ exit.y (max_y b) && leb_ℤ (max_x b) exit.x
on_ray b exit down = leb_ℤ b.x exit.x && ltb_ℤ exit.x (max_x b) && ltb_ℤ exit.y b.y
on_ray b exit up = leb_ℤ b.x exit.x && ltb_ℤ exit.x (max_x b) && leb_ℤ (max_y b) exit.y

-- The gap between the exit point and the near edge.
unfoldable pub gap : Rect → Point → Direction → ℤ
gap b exit right = wrap (b.x -ℤ exit.x)
gap b exit left = wrap (exit.x -ℤ max_x b)
gap b exit down = wrap (b.y -ℤ exit.y)
gap b exit up = wrap (exit.y -ℤ max_y b)

abbrev candidate_at : ℕ → Option Rect → Point → Direction → Option Candidate
candidate_at id none exit direction = none
candidate_at id (some b) exit direction =
    if on_ray b exit direction
    then some (record { machine = id; bounds = b; distance = gap b exit direction })
    else none

-- What the filters make of one machine.
unfoldable pub candidate : ℕ → Point → Direction → MachineRecord → Option Candidate
candidate current exit direction m =
    if m.id == current then none else candidate_at m.id (bounds m) exit direction

abbrev pub keep : Option Candidate → List Candidate → List Candidate
keep none rest = rest
keep (some c) rest = c ∷ rest

unfoldable pub collect : ℕ → Point → Direction → List MachineRecord → List Candidate
collect current exit direction [] = []
collect current exit direction (m ∷ ms) =
    keep (candidate current exit direction m) (collect current exit direction ms)

-- The sort key `(distance, machine)`: the order `<=` of pairs.
unfoldable pub key_le : Candidate → Candidate → Bool
key_le a b = ltb_ℤ a.distance b.distance || (leb_ℤ a.distance b.distance && leb a.machine b.machine)

unfoldable pub insert_by_key : Candidate → List Candidate → List Candidate
insert_by_key c [] = c ∷ []
insert_by_key c (e ∷ rest) =
    let later = insert_by_key c rest in if key_le c e then c ∷ e ∷ rest else e ∷ later

unfoldable pub sort_by_key : List Candidate → List Candidate
sort_by_key [] = []
sort_by_key (c ∷ rest) = insert_by_key c (sort_by_key rest)

unfoldable pub candidates_along : WorkspaceDoc → ℕ → Point → Direction → List Candidate
candidates_along doc current exit direction =
    sort_by_key (collect current exit direction (machines_present doc))

-- Just inside the near edge, at the same place along the other axis.
unfoldable pub entry_point : Rect → Point → Direction → Point
entry_point b exit direction = clamp b (
    if is_horizontal direction
    then record { x = elim direction [ right ↦ b.x | _ ↦ saturate (max_x b -ℤ pos 1) ]; y = exit.y }
    else record { x = exit.x; y = elim direction [ down ↦ b.y | _ ↦ saturate (max_y b -ℤ pos 1) ] })

unfoldable pub find_online : (ℕ → Bool) → List Candidate → Option Candidate
find_online online [] = none
find_online online (c ∷ rest) =
    let later = find_online online rest in if online c.machine then some c else later

-- The nearest machine, unless it is offline.
abbrev first_online : (ℕ → Bool) → List Candidate → Option Candidate
first_online online [] = none
first_online online (c ∷ rest) = if not (online c.machine) then none else some c

unfoldable pub choose : OfflineEdgeBehavior → (ℕ → Bool) → List Candidate → Option Candidate
unfolding find_online
choose block online found = first_online online found
choose skip_over online found = find_online online found

abbrev hand_over : Option Candidate → Point → Direction → Resolution
hand_over none exit direction = stay exit
hand_over (some c) exit direction = move c.machine (entry_point c.bounds exit direction)

-- Out of the rectangle: the ray from the exit point.
unfoldable pub leave : WorkspaceDoc → (ℕ → Bool) → ℕ → Point → Option Direction → Resolution
leave doc online current exit none = stay exit
leave doc online current exit (some direction) =
    hand_over
      (choose doc.settings.value.offline_edge online (candidates_along doc current exit direction))
      exit direction

unfoldable pub route : WorkspaceDoc → (ℕ → Bool) → ℕ → Point → Option Rect → Resolution
unfolding leave
route doc online current target none = stay target
route doc online current target (some b) =
    if contains b target
    then stay target
    else let exit = clamp b target in leave doc online current exit (direction_of exit target)

abbrev pub bounds_of_machine : Option MachineRecord → Option Rect
bounds_of_machine none = none
bounds_of_machine (some m) = bounds m

unfoldable pub resolve_cursor : WorkspaceDoc → (ℕ → Bool) → ℕ → Point → Resolution
unfolding route
resolve_cursor doc online current target =
    route doc online current target (bounds_of_machine (machine doc current))

-- `min` of an iterator, one step.
abbrev pub least : ℕ → Option ℕ → ℕ
least id none = id
least id (some other) = min id other

-- The least id of the machines that are online.
unfoldable pub least_online : (ℕ → Bool) → List MachineRecord → Option ℕ
least_online online [] = none
least_online online (m ∷ ms) =
    let rest = least_online online ms in if online m.id then some (least m.id rest) else rest

abbrev pub present : Option MachineRecord → Bool
present none = false
present (some m) = true

unfoldable pub fallback_owner : WorkspaceDoc → (ℕ → Bool) → ℕ → Option ℕ
unfolding least_online
fallback_owner doc online preferred =
    if online preferred && present (machine doc preferred)
    then some preferred
    else least_online online (machines_present doc)
