-- ===== src/Prelude/Ids.antt =====
-- Lists of identifiers (UUIDs are numbers here, since the program only compares them).
use Prim.Native.Nat.{ℕ, ◌+◌}
use mathlib.Core.Path.{◌≡◌, refl, ap}
use mathlib.Core.Bool.{Bool, true, false, not, ◌||◌}
use mathlib.Core.List.{List, [], ◌∷◌}
use native.Mathlib.Omega.{arith}
use package.soc_analyst.Prelude.Tests.{◌==◌, if◌then◌else◌, ==_iff}
use package.soc_analyst.Prelude.Lists.{length, keep, All}

-- `x in xs`
abbrev pub elem : ℕ → List ℕ → Bool
elem x [] = false
elem x (y ∷ ys) = x == y || elem x ys

-- `list(dict.fromkeys(xs))`: the distinct ids, each at its first place.
abbrev pub unique : List ℕ → List ℕ
unique [] = []
unique (x ∷ xs) = x ∷ keep (λ y. not (y == x)) (unique xs)

-- No id stands twice.
abbrev pub Distinct : List ℕ → Type 0
Distinct [] = Unit
Distinct (x ∷ xs) = (elem x xs ≡ false) × Distinct xs

pub elem-keep :
    (p : ℕ → Bool) (x : ℕ) (xs : List ℕ) → elem x (keep p xs) ≡ (if p x then elem x xs else false)
elem-keep p x [] = ground arith
elem-keep p x (y ∷ ys) = ground (arith, elem-keep p x ys, ==_iff x y)

pub keep-Distinct : (p : ℕ → Bool) (xs : List ℕ) → Distinct xs → Distinct (keep p xs)
keep-Distinct p [] h = tt
keep-Distinct p (x ∷ xs) h = ground (arith, keep-Distinct p xs h.1, elem-keep p x xs)

pub unique-Distinct : (xs : List ℕ) → Distinct (unique xs)
unique-Distinct [] = tt
unique-Distinct (x ∷ xs) = (
  ground (arith, elem-keep (λ y. not (y == x)) x (unique xs)),
  keep-Distinct (λ y. not (y == x)) (unique xs) (unique-Distinct xs),
)

pub elem-unique : (x : ℕ) (xs : List ℕ) → elem x (unique xs) ≡ elem x xs
elem-unique x [] = refl
elem-unique x (y ∷ ys) =
    ground (arith, elem-keep (λ z. not (z == y)) x (unique ys), elem-unique x ys)

-- A list with one more id keeps one more of `xs`, if `xs` holds that id.
keep-cons :
    (r : ℕ) (l xs : List ℕ)
    → elem r l ≡ false
    → Distinct xs
    → length (keep (λ u. elem u (r ∷ l)) xs)
      ≡ length (keep (λ u. elem u l) xs) + (if elem r xs then 1 else 0)
keep-cons r l [] h d = omega arith
keep-cons r l (x ∷ xs) h d = ground (arith, keep-cons r l xs h d.1, ==_iff x r)

keep-empty : (xs : List ℕ) → length (keep (λ u. elem u []) xs) ≡ 0
keep-empty [] = refl
keep-empty (x ∷ xs) = keep-empty xs

-- Counting what two lists share gives the same number from either side.
pub length-keep_swap :
    (l xs : List ℕ)
    → Distinct l
    → Distinct xs
    → length (keep (λ u. elem u xs) l) ≡ length (keep (λ u. elem u l) xs)
length-keep_swap [] xs dl dx = omega (arith, keep-empty xs)
length-keep_swap (r ∷ l) xs dl dx =
    ground (arith, length-keep_swap l xs dl.1 dx, keep-cons r l xs dl.0 dx)

-- What passes a test and what fails it make up the list.
pub length-keep_partition :
    (p : ℕ → Bool) (xs : List ℕ)
    → length (keep p xs) + length (keep (λ x. not (p x)) xs) ≡ length xs
length-keep_partition p [] = omega arith
length-keep_partition p (x ∷ xs) = ground (arith, length-keep_partition p xs)

elem_weaken :
    (y : ℕ) (ys xs : List ℕ) → All (λ x. elem x ys ≡ true) xs → All (λ x. elem x (y ∷ ys) ≡ true) xs
elem_weaken y ys [] h = tt
elem_weaken y ys (x ∷ xs) h = (ground arith, elem_weaken y ys xs h.1)

pub elem_self : (xs : List ℕ) → All (λ x. elem x xs ≡ true) xs
elem_self [] = tt
elem_self (x ∷ xs) = (ground arith, elem_weaken x xs xs (elem_self xs))

pub keep_congr : (p q : ℕ → Bool) (xs : List ℕ) → All (λ x. p x ≡ q x) xs → keep p xs ≡ keep q xs
keep_congr p q [] h = refl
keep_congr p q (x ∷ xs) h =
    rw h.0 (ap (λ rest. if q x then x ∷ rest else rest) (keep_congr p q xs h.1))
