-- ===== src/Input/Mac/Modifiers.antt =====
-- The two keys of one modifier.
use inputshare.Base.{◌∙◌}
use inputshare.Base.{ap}
use inputshare.Base.{true}
use inputshare.Base.{ℕ, pos, Bool, false, some, List, [], ◌∷◌, ◌++◌, ◌≡◌, arith}
use inputshare.Sharing.{InputEvent, key}
use inputshare.Input.Capture.{injected_marker}
use inputshare.Input.Keys.{to_pc}
use inputshare.Input.Mac.{
  Mac, CgEvent, flags_changed, eq_ℤ, as_u16, emit, suppressing_now, set_suppression, detach_pointer,
}
use inputshare.Input.Mac.Inject.{modifier}
use inputshare.Input.Mac.Tap.{tap_callback}

-- The tap is told that a key of a modifier went down or up; the flag is on while any is held.
pub record IsChange (e : CgEvent) (bit : ℕ) (held : Bool) : Type 0 where
  pub kind : e.kind ≡ flags_changed
  pub bit_of : modifier (as_u16 e.keycode) ≡ some bit
  pub flag : e.flags bit ≡ held
  pub foreign : eq_ℤ e.user_data (pos injected_marker) ≡ false

unfoldable pub tapped : ℕ → List CgEvent → Mac → Mac
tapped now [] s = s
tapped now (e ∷ es) s = tapped now es (tap_callback now e s).1

change_sent :
    (now : ℕ) (e : CgEvent) (bit vk scan : ℕ) (extended held : Bool) (events : List InputEvent)
    (s : Mac)
    → IsChange e bit held
    → to_pc (as_u16 e.keycode) ≡ some (scan, vk, extended)
    → s.sink ≡ some events
    → (tap_callback now e s).1.sink ≡ some (events ++ key vk scan held extended ∷ [])
unfolding tap_callback emit suppressing_now set_suppression detach_pointer
change_sent now e bit vk scan extended held events s c known sink = ground arith

-- The left and the right key of one modifier go down and come up again, in the order left, right, left,
-- right, and the tap sees nothing else. It reports the left key as pressed a second time when it comes
-- up, since the flag is still on; no release of it is ever reported.
pub release_lost :
    (now bit : ℕ) (l1 r1 l2 r2 : CgEvent) (vk scan vk' scan' : ℕ) (extended extended' : Bool)
    (events : List InputEvent) (s : Mac)
    → IsChange l1 bit true
    → IsChange r1 bit true
    → IsChange l2 bit true
    → IsChange r2 bit false
    → l2.keycode ≡ l1.keycode
    → r2.keycode ≡ r1.keycode
    → to_pc (as_u16 l1.keycode) ≡ some (scan, vk, extended)
    → to_pc (as_u16 r1.keycode) ≡ some (scan', vk', extended')
    → s.sink ≡ some events
    → (tapped now (l1 ∷ r1 ∷ l2 ∷ r2 ∷ []) s).sink
      ≡ some (
          (((events ++ key vk scan true extended ∷ []) ++ key vk' scan' true extended' ∷ [])
            ++ key vk scan true extended ∷ [])
          ++ key vk' scan' false extended' ∷ [])
unfolding tapped
release_lost now bit l1 r1 l2 r2 vk scan vk' scan' extended extended' events s a b c d same same'
      left right sink =
    let s1 = (tap_callback now l1 s).1 in
    let s2 = (tap_callback now r1 s1).1 in
    let s3 = (tap_callback now l2 s2).1 in
    change_sent now r2 bit vk' scan' extended' false _ s3 d
      (ap (λ k. to_pc (as_u16 k)) same' ∙ right)
      (change_sent now l2 bit vk scan extended true _ s2 c (ap (λ k. to_pc (as_u16 k)) same ∙ left)
        (change_sent now r1 bit vk' scan' extended' true _ s1 b right
          (change_sent now l1 bit vk scan extended true events s a left sink)))
