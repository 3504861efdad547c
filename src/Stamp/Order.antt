-- ===== src/Stamp/Order.antt =====
-- The order of stamps: total up to the key, so that a merge has one answer.
use inputshare.Base.{◌≤◌, ◌<◌, true, false, ◌≡◌, if◌then◌else◌, arith}
use inputshare.Stamp.{Stamp, key, newer, not_older}

pub newer_irrefl : (a : Stamp) → newer a a ≡ false
unfolding newer
newer_irrefl a = ground arith

pub newer_asymm : (a b : Stamp) → newer a b ≡ true → newer b a ≡ false
unfolding newer
newer_asymm a b h = ground arith

pub newer_trans : (a b c : Stamp) → newer a b ≡ true → newer b c ≡ true → newer a c ≡ true
unfolding newer
newer_trans a b c h k = ground arith

-- What is not newer is passed on along a newer stamp.
pub newer_mono : (a b c : Stamp) → newer b a ≡ false → newer b c ≡ true → newer a c ≡ true
unfolding newer
newer_mono a b c h k = ground arith

pub key_of_not_newer : (a b : Stamp) → newer a b ≡ false → newer b a ≡ false → key a ≡ key b
unfolding newer
key_of_not_newer a b h k = ground arith

pub not_older-eq : (a b : Stamp) → not_older a b ≡ (if newer b a then false else true)
unfolding newer not_older
not_older-eq a b = ground arith

pub newer_of_lamport : (a b : Stamp) → b.lamport < a.lamport → newer a b ≡ true
unfolding newer
newer_of_lamport a b h = ground arith

pub lamport_of_newer : (a b : Stamp) → newer a b ≡ true → b.lamport ≤ a.lamport
unfolding newer
lamport_of_newer a b h = ground arith
