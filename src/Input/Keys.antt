-- ===== src/Input/Keys.antt =====
-- crates/is-input/src/platform/mac_keys.rs: the key codes of a Mac and the scan codes of a PC.
pub mod RoundTrip
use inputshare.Base.{
  ℕ, Bool, true, false, not, ◌&&◌, Option, none, some, List, [], ◌∷◌, ◌==◌, if◌then◌else◌,
}

-- The key code of a Mac, the scan code and the virtual key of a PC, and the flag of the doubled keys.
pub record Key : Type 0 where
  pub mac : ℕ
  pub scan : ℕ
  pub vk : ℕ
  pub extended : Bool

abbrev row : ℕ → ℕ → ℕ → Bool → Key
row mac scan vk extended = record { mac = mac; scan = scan; vk = vk; extended = extended }

abbrev pub keys : List Key
keys =
    row 0 30 65 false
    ∷ row 11 48 66 false
    ∷ row 8 46 67 false
    ∷ row 2 32 68 false
    ∷ row 14 18 69 false
    ∷ row 3 33 70 false
    ∷ row 5 34 71 false
    ∷ row 4 35 72 false
    ∷ row 34 23 73 false
    ∷ row 38 36 74 false
    ∷ row 40 37 75 false
    ∷ row 37 38 76 false
    ∷ row 46 50 77 false
    ∷ row 45 49 78 false
    ∷ row 31 24 79 false
    ∷ row 35 25 80 false
    ∷ row 12 16 81 false
    ∷ row 15 19 82 false
    ∷ row 1 31 83 false
    ∷ row 17 20 84 false
    ∷ row 32 22 85 false
    ∷ row 9 47 86 false
    ∷ row 13 17 87 false
    ∷ row 7 45 88 false
    ∷ row 16 21 89 false
    ∷ row 6 44 90 false
    ∷ row 29 11 48 false
    ∷ row 18 2 49 false
    ∷ row 19 3 50 false
    ∷ row 20 4 51 false
    ∷ row 21 5 52 false
    ∷ row 23 6 53 false
    ∷ row 22 7 54 false
    ∷ row 26 8 55 false
    ∷ row 28 9 56 false
    ∷ row 25 10 57 false
    ∷ row 27 12 189 false
    ∷ row 24 13 187 false
    ∷ row 33 26 219 false
    ∷ row 30 27 221 false
    ∷ row 41 39 186 false
    ∷ row 39 40 222 false
    ∷ row 50 41 192 false
    ∷ row 42 43 220 false
    ∷ row 43 51 188 false
    ∷ row 47 52 190 false
    ∷ row 44 53 191 false
    ∷ row 36 28 13 false
    ∷ row 48 15 9 false
    ∷ row 49 57 32 false
    ∷ row 51 14 8 false
    ∷ row 53 1 27 false
    ∷ row 114 82 45 true
    ∷ row 115 71 36 true
    ∷ row 116 73 33 true
    ∷ row 117 83 46 true
    ∷ row 119 79 35 true
    ∷ row 121 81 34 true
    ∷ row 123 75 37 true
    ∷ row 124 77 39 true
    ∷ row 125 80 40 true
    ∷ row 126 72 38 true
    ∷ row 56 42 160 false
    ∷ row 60 54 161 false
    ∷ row 59 29 162 false
    ∷ row 62 29 163 true
    ∷ row 58 56 164 false
    ∷ row 61 56 165 true
    ∷ row 55 91 91 true
    ∷ row 54 92 92 true
    ∷ row 57 58 20 false
    ∷ row 122 59 112 false
    ∷ row 120 60 113 false
    ∷ row 99 61 114 false
    ∷ row 118 62 115 false
    ∷ row 96 63 116 false
    ∷ row 97 64 117 false
    ∷ row 98 65 118 false
    ∷ row 100 66 119 false
    ∷ row 101 67 120 false
    ∷ row 109 68 121 false
    ∷ row 103 87 122 false
    ∷ row 111 88 123 false
    ∷ row 82 82 96 false
    ∷ row 83 79 97 false
    ∷ row 84 80 98 false
    ∷ row 85 81 99 false
    ∷ row 86 75 100 false
    ∷ row 87 76 101 false
    ∷ row 88 77 102 false
    ∷ row 89 71 103 false
    ∷ row 91 72 104 false
    ∷ row 92 73 105 false
    ∷ row 65 83 110 false
    ∷ row 67 55 106 false
    ∷ row 69 78 107 false
    ∷ row 78 74 109 false
    ∷ row 75 53 111 true
    ∷ row 76 28 13 true
    ∷ row 71 69 144 false
    ∷ []

unfoldable pub find : (Key → Bool) → List Key → Option Key
find p [] = none
find p (k ∷ ks) = let later = find p ks in if p k then some k else later

abbrev pub same_flag : Bool → Bool → Bool
same_flag true b = b
same_flag false b = not b

abbrev pub wire : Option Key → Option (ℕ × ℕ × Bool)
wire none = none
wire (some k) = some (k.scan, k.vk, k.extended)

abbrev pub mac_of : Option Key → Option ℕ
mac_of none = none
mac_of (some k) = some k.mac

unfoldable pub to_pc : ℕ → Option (ℕ × ℕ × Bool)
unfolding find
to_pc mac_code = wire (find (λ k. k.mac == mac_code) keys)

abbrev or_else : Option ℕ → Option ℕ → Option ℕ
or_else none other = other
or_else (some mac) other = some mac

abbrev by_scan : ℕ → Bool → Option ℕ
by_scan scan extended =
    if scan == 0
    then none
    else mac_of (find (λ k. k.scan == scan && same_flag k.extended extended) keys)

abbrev by_vk : ℕ → Option ℕ
by_vk vk = mac_of (find (λ k. not (vk == 0) && k.vk == vk) keys)

-- By the scan code and the flag, and else by the virtual key; zero stands for none.
unfoldable pub from_pc : ℕ → ℕ → Bool → Option ℕ
unfolding find
from_pc scan vk extended = or_else (by_scan scan extended) (by_vk vk)
