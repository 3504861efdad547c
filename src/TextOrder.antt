-- ===== src/TextOrder.antt =====
-- The order of text, character by character, and the order of numbers under it.
use Prim.Native.Nat.compare as compare_ℕ
use Prim.Native.String.compare
use Prim.Native.Nat.{Ordering, compare as compare_ℕ}
use Prim.Native.String.{String, compare, then}
use Prim.Native.Char.{code}
use inputshare.Base.{ℕ, zero, suc, ◌≡◌, refl, ap, sym}
use mathlib.Core.Path.{subst}

-- Whether three answers can be those of three things compared in a circle.
abbrev pub Fits : Ordering → Ordering → Ordering → Type 0
Fits Ordering.eq o r = r ≡ o
Fits Ordering.lt Ordering.gt r = Unit
Fits Ordering.lt Ordering.lt r = r ≡ Ordering.lt
Fits Ordering.lt Ordering.eq r = r ≡ Ordering.lt
Fits Ordering.gt Ordering.lt r = Unit
Fits Ordering.gt Ordering.gt r = r ≡ Ordering.gt
Fits Ordering.gt Ordering.eq r = r ≡ Ordering.gt

abbrev pub flip : Ordering → Ordering
flip Ordering.lt = Ordering.gt
flip Ordering.eq = Ordering.eq
flip Ordering.gt = Ordering.lt

Fits-lt : (o : Ordering) → Fits o Ordering.lt Ordering.lt
Fits-lt Ordering.lt = refl
Fits-lt Ordering.eq = refl
Fits-lt Ordering.gt = tt

Fits-gt : (o : Ordering) → Fits o Ordering.gt Ordering.gt
Fits-gt Ordering.lt = tt
Fits-gt Ordering.eq = refl
Fits-gt Ordering.gt = refl

lt-Fits : (o : Ordering) → Fits Ordering.lt o Ordering.lt
lt-Fits Ordering.lt = refl
lt-Fits Ordering.eq = refl
lt-Fits Ordering.gt = tt

gt-Fits : (o : Ordering) → Fits Ordering.gt o Ordering.gt
gt-Fits Ordering.lt = tt
gt-Fits Ordering.eq = refl
gt-Fits Ordering.gt = refl

-- The heads decide, or else the rests.
then-Fits :
    (a b c a' b' c' : Ordering)
    → Fits a b c
    → Fits a' b' c'
    → Fits (then a a') (then b b') (then c c')
then-Fits Ordering.eq Ordering.eq c a' b' c' h k = subst (λ o. Fits a' b' (then o c')) (sym h) k
then-Fits Ordering.eq Ordering.lt c a' b' c' h k =
    subst (λ o. Fits a' Ordering.lt (then o c')) (sym h) (Fits-lt a')
then-Fits Ordering.eq Ordering.gt c a' b' c' h k =
    subst (λ o. Fits a' Ordering.gt (then o c')) (sym h) (Fits-gt a')
then-Fits Ordering.lt Ordering.eq c a' b' c' h k =
    subst (λ o. Fits Ordering.lt b' (then o c')) (sym h) (lt-Fits b')
then-Fits Ordering.gt Ordering.eq c a' b' c' h k =
    subst (λ o. Fits Ordering.gt b' (then o c')) (sym h) (gt-Fits b')
then-Fits Ordering.lt Ordering.lt c a' b' c' h k = ap (λ o. then o c') h
then-Fits Ordering.gt Ordering.gt c a' b' c' h k = ap (λ o. then o c') h
then-Fits Ordering.lt Ordering.gt c a' b' c' h k = tt
then-Fits Ordering.gt Ordering.lt c a' b' c' h k = tt

numbers-Fits : (m n k : ℕ) → Fits (compare_ℕ m n) (compare_ℕ n k) (compare_ℕ m k)
numbers-Fits zero zero k = refl
numbers-Fits zero (suc n) zero = rw (compare_ℕ.zero-suc n, compare_ℕ.suc-zero n) tt
numbers-Fits zero (suc n) (suc k) =
    rw (compare_ℕ.zero-suc n, compare_ℕ.zero-suc k) (lt-Fits (compare_ℕ (suc n) (suc k)))
numbers-Fits (suc m) zero zero = rw (compare_ℕ.suc-zero m) refl
numbers-Fits (suc m) zero (suc k) = rw (compare_ℕ.suc-zero m, compare_ℕ.zero-suc k) tt
numbers-Fits (suc m) (suc n) zero =
    rw (compare_ℕ.suc-zero m, compare_ℕ.suc-zero n) (Fits-gt (compare_ℕ (suc m) (suc n)))
numbers-Fits (suc m) (suc n) (suc k) =
    rw (compare_ℕ.suc-suc m n, compare_ℕ.suc-suc n k, compare_ℕ.suc-suc m k) (numbers-Fits m n k)

numbers-flip : (m n : ℕ) → compare_ℕ n m ≡ flip (compare_ℕ m n)
numbers-flip zero zero = rw compare_ℕ.zero-zero refl
numbers-flip zero (suc n) = rw (compare_ℕ.zero-suc n, compare_ℕ.suc-zero n) refl
numbers-flip (suc m) zero = rw (compare_ℕ.suc-zero m, compare_ℕ.zero-suc m) refl
numbers-flip (suc m) (suc n) = rw (compare_ℕ.suc-suc m n, compare_ℕ.suc-suc n m) (numbers-flip m n)

then-flip : (a b : Ordering) → flip (then a b) ≡ then (flip a) (flip b)
then-flip Ordering.lt b = refl
then-flip Ordering.eq b = refl
then-flip Ordering.gt b = refl

pub compare-Fits : (s t u : String) → Fits (compare s t) (compare t u) (compare s u)
compare-Fits String.[] String.[] u = refl
compare-Fits String.[] (String.◌∷◌ d t) String.[] =
    rw (compare.nil-cons d t, compare.cons-nil d t) tt
compare-Fits String.[] (String.◌∷◌ d t) (String.◌∷◌ e u) =
    rw (compare.nil-cons d t, compare.nil-cons e u)
      (lt-Fits (compare (String.◌∷◌ d t) (String.◌∷◌ e u)))
compare-Fits (String.◌∷◌ c s) String.[] String.[] = rw (compare.cons-nil c s) refl
compare-Fits (String.◌∷◌ c s) String.[] (String.◌∷◌ e u) =
    rw (compare.cons-nil c s, compare.nil-cons e u) tt
compare-Fits (String.◌∷◌ c s) (String.◌∷◌ d t) String.[] =
    rw (compare.cons-nil c s, compare.cons-nil d t)
      (Fits-gt (compare (String.◌∷◌ c s) (String.◌∷◌ d t)))
compare-Fits (String.◌∷◌ c s) (String.◌∷◌ d t) (String.◌∷◌ e u) =
    rw (compare.cons-cons c d s t, compare.cons-cons d e t u, compare.cons-cons c e s u)
      (then-Fits (compare_ℕ (code c) (code d)) (compare_ℕ (code d) (code e))
        (compare_ℕ (code c) (code e)) (compare s t) (compare t u) (compare s u)
        (numbers-Fits (code c) (code d) (code e)) (compare-Fits s t u))

pub compare-flip : (s t : String) → compare t s ≡ flip (compare s t)
compare-flip String.[] String.[] = rw compare.nil-nil refl
compare-flip String.[] (String.◌∷◌ d t) = rw (compare.nil-cons d t, compare.cons-nil d t) refl
compare-flip (String.◌∷◌ c s) String.[] = rw (compare.nil-cons c s, compare.cons-nil c s) refl
compare-flip (String.◌∷◌ c s) (String.◌∷◌ d t) =
    rw
      (
        compare.cons-cons c d s t,
        compare.cons-cons d c t s,
        numbers-flip (code c) (code d),
        compare-flip s t,
      )
      (sym (then-flip (compare_ℕ (code c) (code d)) (compare s t)))
