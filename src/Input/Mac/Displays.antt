-- ===== src/Input/Mac/Displays.antt =====
-- crates/is-input/src/platform/macos.rs: the displays of a Mac. What CoreGraphics says is an argument, and so are
-- the arithmetic of floating-point numbers and the text of a number.
use Prim.Native.String.{String}
use mathlib.Core.List.{Permᴰ}
use mathlib.Core.Option.{some-injective}
use inputshare.Base.{
  ℕ, ℤ, Bool, List, [], ◌∷◌, ◌==◌, if◌then◌else◌, map, some, ◌≡◌, refl, sym, ap, ◌∙◌,
}
use inputshare.Model.{DisplayInfo}
use inputshare.Input.Screens.{sort_by_id, insert_by_id}
use inputshare.Input.Screens.Order.{settled, IsNamed, settled_anyhow}

-- What the code does with floating-point numbers: `round() as i32`, `round().max(0.0) as u32`, `> 0.0`, and a
-- number of pixels over a width as the bits of an `f32`.
pub record Floats (F : Type 0) : Type 0 where
  pub round_i32 : F → ℤ
  pub round_u32 : F → ℕ
  pub is_positive : F → Bool
  pub ratio_bits : ℕ → F → ℕ

-- `CGDisplayBounds` and `CGDisplayPixelsWide`.
pub record CgDisplay (F : Type 0) : Type 0 where
  pub origin_x : F
  pub origin_y : F
  pub width : F
  pub height : F
  pub pixels_wide : ℕ

pub data Displays : Type 0 where
  ok : List DisplayInfo → Displays
  failed_with : ℕ → Displays

-- 1.0, as the bits of an `f32`.
abbrev one_bits : ℕ
one_bits = 1065353216

-- The texts `display-{id}` and `Display {id}`.
pub record Names : Type 0 where
  pub id_of : ℕ → String
  pub name_of : ℕ → String

module _ {F : Type 0} (floats : Floats F) (names : Names) (main : ℕ)
    (display : ℕ → CgDisplay F) where
  abbrev pub display_info : ℕ → DisplayInfo
  display_info id =
      let d = display id in
      record {
        id = names.id_of id;
        name = (if id == main then "Main display" else names.name_of id);
        x = floats.round_i32 d.origin_x;
        y = floats.round_i32 d.origin_y;
        width = floats.round_u32 d.width;
        height = floats.round_u32 d.height;
        scale_bits =
            (if floats.is_positive d.width
              then floats.ratio_bits d.pixels_wide d.width
              else one_bits);
        primary = id == main;
      }

  -- The status of the list of active displays, and the list, which the system keeps to 32.
  unfoldable pub enumerate_displays : ℕ → List ℕ → Displays
  unfolding sort_by_id
  enumerate_displays status ids =
      if status == 0 then ok (sort_by_id (map display_info ids)) else failed_with status

  sort-settled :
      (ids : List ℕ)
      → sort_by_id (map display_info ids) ≡ settled (λ id. some (display_info id)) ids
  unfolding sort_by_id
  sort-settled [] = refl
  sort-settled (id ∷ ids) = ap (insert_by_id (display_info id)) (sort-settled ids)

  info-IsNamed :
      ((m n : ℕ) → names.id_of m ≡ names.id_of n → m ≡ n) → IsNamed (λ id. some (display_info id))
  info-IsNamed apart m n d e f g same =
      let first = some-injective (display_info m) d f in
      let second = some-injective (display_info n) e g in
      let ids : names.id_of m ≡ names.id_of n =
        ap (λ (x : DisplayInfo). x.id) first ∙ same ∙ sym (ap (λ (x : DisplayInfo). x.id) second) in
      sym first ∙ ap display_info (apart m n ids) ∙ second

  -- Where displays with different numbers have different ids, the order in which the system lists them makes
  -- no difference to what is reported.
  pub enumerated_anyhow :
      (status : ℕ) {ids others : List ℕ}
      → ((m n : ℕ) → names.id_of m ≡ names.id_of n → m ≡ n)
      → Permᴰ ids others
      → enumerate_displays status ids ≡ enumerate_displays status others
  unfolding enumerate_displays
  enumerated_anyhow status {ids} {others} apart p =
      let sorted =
        sort-settled ids
        ∙ settled_anyhow (λ id. some (display_info id)) (info-IsNamed apart) p
        ∙ sym (sort-settled others) in
      ap (λ l. if status == 0 then ok l else failed_with status) sorted
