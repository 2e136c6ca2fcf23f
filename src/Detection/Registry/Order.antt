-- ===== src/Detection/Registry/Order.antt =====
-- The order of names by which the registry sorts, on `str` as on its code points.
use Prim.Native.Nat.{Ordering, lt, eq, gt, compare as compare_number}
use Prim.Native.Nat.compare as compare_number
use Prim.Native.Char.{code}
use Prim.Native.String.{compare, then}
use Prim.Native.String.compare as compare
use soc_analyst.Prelude.{ℕ, zero, suc, ◌≡◌, refl, sym, ap, ap₂, ◌∙◌, String, true, false, arith}
use soc_analyst.Detection.Registry.{name_le}

abbrev flip : Ordering → Ordering
flip lt = gt
flip eq = eq
flip gt = lt

compare_number-flip : (m n : ℕ) → compare_number n m ≡ flip (compare_number m n)
compare_number-flip zero zero = refl
compare_number-flip zero (suc n) =
    compare_number.suc-zero n ∙ ap flip (sym (compare_number.zero-suc n))
compare_number-flip (suc m) zero =
    compare_number.zero-suc m ∙ ap flip (sym (compare_number.suc-zero m))
compare_number-flip (suc m) (suc n) =
    compare_number.suc-suc n m
    ∙ compare_number-flip m n
    ∙ ap flip (sym (compare_number.suc-suc m n))

then-flip : (o p : Ordering) → then (flip o) (flip p) ≡ flip (then o p)
then-flip lt p = refl
then-flip eq p = refl
then-flip gt p = refl

compare-flip : (s t : String) → compare t s ≡ flip (compare s t)
compare-flip String.[] String.[] = refl
compare-flip String.[] (String.◌∷◌ d t) =
    compare.cons-nil d t ∙ ap flip (sym (compare.nil-cons d t))
compare-flip (String.◌∷◌ c s) String.[] =
    compare.nil-cons c s ∙ ap flip (sym (compare.cons-nil c s))
compare-flip (String.◌∷◌ c s) (String.◌∷◌ d t) =
    compare.cons-cons d c t s
    ∙ ap₂ then (compare_number-flip (code c) (code d)) (compare-flip s t)
    ∙ then-flip (compare_number (code c) (code d)) (compare s t)
    ∙ ap flip (sym (compare.cons-cons c d s t))

-- what two comparisons in a row allow of the third
abbrev Follows : Ordering → Ordering → Ordering → Type 0
Follows eq p r = r ≡ p
Follows lt eq r = r ≡ lt
Follows lt lt r = r ≡ lt
Follows lt gt r = Unit
Follows gt eq r = r ≡ gt
Follows gt gt r = r ≡ gt
Follows gt lt r = Unit

below : (o : Ordering) → Follows lt o lt
below lt = refl
below eq = refl
below gt = tt

above : (o : Ordering) → Follows o gt gt
above lt = tt
above eq = refl
above gt = refl

compare_number-Follows :
    (l m n : ℕ) → Follows (compare_number l m) (compare_number m n) (compare_number l n)
compare_number-Follows zero zero n = refl
compare_number-Follows zero (suc m) zero =
    rw (compare_number.zero-suc m, compare_number.suc-zero m) tt
compare_number-Follows zero (suc m) (suc n) =
    rw (compare_number.zero-suc m, compare_number.zero-suc n, compare_number.suc-suc m n)
      (below (compare_number m n))
compare_number-Follows (suc l) zero zero = rw (compare_number.suc-zero l) refl
compare_number-Follows (suc l) zero (suc n) =
    rw (compare_number.suc-zero l, compare_number.zero-suc n) tt
compare_number-Follows (suc l) (suc m) zero =
    rw (compare_number.suc-zero l, compare_number.suc-zero m, compare_number.suc-suc l m)
      (above (compare_number l m))
compare_number-Follows (suc l) (suc m) (suc n) =
    rw (compare_number.suc-suc l m, compare_number.suc-suc m n, compare_number.suc-suc l n)
      (compare_number-Follows l m n)

then-Follows :
    (o p r o' p' r' : Ordering)
    → Follows o p r
    → Follows o' p' r'
    → Follows (then o o') (then p p') (then r r')
then-Follows eq p r o' p' r' h k = rw h (tails p o' p' r' k)
  where
    tails : (p o' p' r' : Ordering) → Follows o' p' r' → Follows o' (then p p') (then p r')
    tails eq o' p' r' k = k
    tails lt eq p' r' k = refl
    tails lt lt p' r' k = refl
    tails lt gt p' r' k = tt
    tails gt eq p' r' k = refl
    tails gt gt p' r' k = refl
    tails gt lt p' r' k = tt
then-Follows lt eq r o' p' r' h k = rw h (below p')
then-Follows lt lt r o' p' r' h k = rw h refl
then-Follows lt gt r o' p' r' h k = tt
then-Follows gt eq r o' p' r' h k = rw h (top p')
  where
    top : (o : Ordering) → Follows gt o gt
    top lt = tt
    top eq = refl
    top gt = refl
then-Follows gt gt r o' p' r' h k = rw h refl
then-Follows gt lt r o' p' r' h k = tt

compare-Follows : (s t u : String) → Follows (compare s t) (compare t u) (compare s u)
compare-Follows String.[] String.[] u = refl
compare-Follows String.[] (String.◌∷◌ d t) String.[] =
    rw (compare.nil-cons d t, compare.cons-nil d t) tt
compare-Follows String.[] (String.◌∷◌ d t) (String.◌∷◌ e u) =
    rw (compare.nil-cons d t, compare.nil-cons e u) (below _)
compare-Follows (String.◌∷◌ c s) String.[] String.[] = rw (compare.cons-nil c s) refl
compare-Follows (String.◌∷◌ c s) String.[] (String.◌∷◌ e u) =
    rw (compare.cons-nil c s, compare.nil-cons e u) tt
compare-Follows (String.◌∷◌ c s) (String.◌∷◌ d t) String.[] =
    rw (compare.cons-nil c s, compare.cons-nil d t) (above _)
compare-Follows (String.◌∷◌ c s) (String.◌∷◌ d t) (String.◌∷◌ e u) =
    rw (compare.cons-cons c d s t, compare.cons-cons d e t u, compare.cons-cons c e s u)
      (then-Follows (compare_number (code c) (code d)) (compare_number (code d) (code e))
        (compare_number (code c) (code e)) (compare s t) (compare t u) (compare s u)
        (compare_number-Follows (code c) (code d) (code e)) (compare-Follows s t u))

pub name_le_total : (a b : String) → name_le a b ≡ false → name_le b a ≡ true
unfolding name_le
name_le_total a b h = ground (arith, compare-flip a b)

within :
    (o p r : Ordering)
    → Follows o p r
    → (elim o [ lt ↦ true | eq ↦ true | gt ↦ false ]) ≡ true
    → (elim p [ lt ↦ true | eq ↦ true | gt ↦ false ]) ≡ true
    → (elim r [ lt ↦ true | eq ↦ true | gt ↦ false ]) ≡ true
within o p r f h k = ground (arith, f)

pub name_le_trans : (a b c : String) → name_le a b ≡ true → name_le b c ≡ true → name_le a c ≡ true
unfolding name_le
name_le_trans a b c h k =
    within (compare a b) (compare b c) (compare a c) (compare-Follows a b c) h k
