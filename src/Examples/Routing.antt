-- ===== src/Examples/Routing.antt =====
-- The cursor between the two machines.
use inputshare.Layout.Span.{IsNear, IsSpan}
use inputshare.Base.{
  Each, wrap, saturate, ◌+ℤ◌, max_ℤ, min_ℤ, ℕ, pos, ◌-ℤ◌, abs_ℤ, Bool, ◌==◌, ◌≡◌, ◌≢◌, refl, true,
  some, arith,
}
use inputshare.BTreeMap.{get, insert, values}
use inputshare.Geometry.{
  Point, Rect, Inside, max_x, max_y, clamp, contains, union, translate, hi_x, hi_y, clamp_ℤ, extent,
}
use inputshare.Geometry.Clamp.{IsNonempty}
use inputshare.Model.{MachineRecord, bounds, rect, bounds_from}
use inputshare.Model.Edits.{create, upsert_machine}
use inputshare.Model.Query.{machine, machines_present, present_records}
use inputshare.Layout.{
  is_horizontal, route, leave, choose, find_online, collect, sort_by_key, insert_by_key, gap,
  on_ray, entry_point, least_online, stay, move, resolve_cursor, fallback_owner, direction_of,
  candidate, bounds_of_machine, candidates_along, key_le,
}
use inputshare.Layout.Safety.{move_safe}
use inputshare.Examples.{desk, laptop, paired, paired-IsValid}

abbrev desk_rect : Rect
desk_rect = record { x = pos 0; y = pos 0; width = 100; height = 80 }

abbrev laptop_rect : Rect
laptop_rect = record { x = pos 100; y = pos 0; width = 100; height = 80 }

abbrev pub beyond : Point
beyond = record { x = pos 103; y = pos 40 }

abbrev pub entry : Point
entry = record { x = pos 100; y = pos 40 }

abbrev pub all_online : ℕ → Bool
all_online id = true

abbrev pub desk_only : ℕ → Bool
desk_only id = id == 1

desk_rect-IsNonempty : IsNonempty desk_rect
unfolding max_x max_y extent clamp hi_x hi_y clamp_ℤ contains union translate wrap saturate ◌+ℤ◌
    ◌-ℤ◌ abs_ℤ max_ℤ min_ℤ
desk_rect-IsNonempty = record {
  x_in = ground arith;
  y_in = ground arith;
  wide = ground arith;
  high = ground arith;
}

crosses : resolve_cursor paired all_online 1 beyond ≡ move 2 entry
unfolding resolve_cursor route leave choose find_online candidates_along collect sort_by_key
    insert_by_key key_le candidate gap on_ray direction_of entry_point create upsert_machine insert
    get machine machines_present present_records values bounds bounds_from rect is_horizontal max_x
    max_y extent clamp hi_x hi_y clamp_ℤ contains union translate wrap saturate ◌+ℤ◌ ◌-ℤ◌ abs_ℤ
    max_ℤ min_ℤ
crosses = refl

move_safe_example :
    (all_online 2 ≡ true)
    × (laptop.id ≢ desk.id)
    × (r : MachineRecord) × (b : Rect) × (machine paired 2 ≡ some r)
    × (bounds r ≡ some b)
    × (IsNonempty b → Inside b entry)
    × (Each (IsNear r.position) r.displays → IsSpan r.position r.displays b × IsNonempty b)
move_safe_example = move_safe paired all_online 1 beyond 2 entry paired-IsValid crosses

stops : resolve_cursor paired desk_only 1 beyond ≡ stay (record { x = pos 99; y = pos 40 })
unfolding resolve_cursor route leave choose find_online candidates_along collect sort_by_key
    insert_by_key key_le candidate gap on_ray direction_of entry_point create upsert_machine insert
    get machine machines_present present_records values bounds bounds_from rect is_horizontal max_x
    max_y extent clamp hi_x hi_y clamp_ℤ contains union translate wrap saturate ◌+ℤ◌ ◌-ℤ◌ abs_ℤ
    max_ℤ min_ℤ
stops = refl

desk_bounds : bounds_of_machine (machine paired 1) ≡ some desk_rect
unfolding resolve_cursor route leave choose find_online candidates_along collect sort_by_key
    insert_by_key key_le candidate gap on_ray direction_of entry_point create upsert_machine insert
    get machine machines_present present_records values bounds bounds_from rect is_horizontal max_x
    max_y extent clamp hi_x hi_y clamp_ℤ contains union translate wrap saturate ◌+ℤ◌ ◌-ℤ◌ abs_ℤ
    max_ℤ min_ℤ
desk_bounds = refl

-- The desk prefers itself, and the laptop is alone online.
fallback_found : fallback_owner paired (λ id. id == 2) 1 ≡ some 2
unfolding fallback_owner least_online create upsert_machine insert get machine machines_present
    present_records values
fallback_found = refl
