-- ===== src/Examples/Handoff.antt =====
-- The router of the desk.
use inputshare.Base.{
  wrap, saturate, ◌+ℤ◌, max_ℤ, min_ℤ, pos, ◌-ℤ◌, abs_ℤ, ◌≡◌, refl, true, none, some, [], ◌∷◌, ◌++◌,
}
use inputshare.BTreeMap.{get, insert, values}
use inputshare.Geometry.{
  max_x, max_y, clamp, contains, union, translate, hi_x, hi_y, clamp_ℤ, extent,
}
use inputshare.Model.{bounds, rect, bounds_from}
use inputshare.Model.Edits.{create, upsert_machine}
use inputshare.Model.Query.{machine, machines_present, present_records}
use inputshare.Layout.{
  is_horizontal, route, leave, choose, find_online, collect, sort_by_key, insert_by_key, gap,
  on_ray, entry_point, resolve_cursor, direction_of, candidate, candidates_along, key_le,
}
use inputshare.Sharing.{
  pointer_now, resync, mouse_move, cursor_enter, local, World, Router, handle, send_input,
  announce_cursor_owner, sub_i32,
}
use inputshare.Sharing.Loop.{heartbeat, local_event, start, run}
use inputshare.Sharing.Ownership.{Sound, sharing-Sound}
use inputshare.Sharing.Crossing.{crossing}
use inputshare.Examples.{laptop, paired, paired-IsValid}
use inputshare.Examples.Routing.{entry, beyond, all_online, desk_only}

abbrev world : World
world = record { doc = some paired; online = all_online; pointer = none }

abbrev cut_off : World
cut_off = record { doc = some paired; online = desk_only; pointer = none }

-- The desk at the start, and once the pointer has gone to the laptop.
abbrev owning : Router
owning = start world 1

abbrev away : Router
away = record {
  me = 1;
  owner = 2;
  cursor = beyond;
  pending = [];
  suppressing = true;
  noted = some 2;
  effects = [];
}

sharing-Sound_example : Sound (
    run
      ((world, local_event (some (mouse_move (pos 103) (pos 40)))) ∷ (cut_off, heartbeat) ∷ [])
      owning)
sharing-Sound_example =
    sharing-Sound world 1
      ((world, local_event (some (mouse_move (pos 103) (pos 40)))) ∷ (cut_off, heartbeat) ∷ [])
      (paired-IsValid, (paired-IsValid, tt))

crossing_example :
    (let s = handle world (mouse_move (pos 103) (pos 40)) local owning in
      (s.owner ≡ 2)
      × (s.suppressing ≡ true)
      × (s.pending ≡ [])
      × (s.effects
          ≡ (owning.effects
              ++ send_input 2
                  (cursor_enter (sub_i32 (pos 100) (pos 100)) (sub_i32 (pos 40) (pos 0)) ∷ [])
                ∷ [])
            ++ announce_cursor_owner 2 ∷ []))
unfolding start pointer_now resync resolve_cursor route leave choose find_online candidates_along
    collect sort_by_key insert_by_key key_le candidate gap on_ray direction_of entry_point create
    upsert_machine insert get machine machines_present present_records values bounds bounds_from
    rect is_horizontal max_x max_y extent clamp hi_x hi_y clamp_ℤ contains union translate wrap
    saturate ◌+ℤ◌ ◌-ℤ◌ abs_ℤ max_ℤ min_ℤ
crossing_example =
    crossing world paired (pos 103) (pos 40) local owning 2 entry laptop
      (record { asked = refl; published = refl; idle = λ h. refl }) paired-IsValid refl refl refl
      refl
