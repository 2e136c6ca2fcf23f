-- ===== src/Prelude/Sorting.antt =====
-- `list.sort(key=..., reverse=True)` and `sorted`: a stable insertion sort, by a Boolean test that
-- says when a new element may stand in front of one already placed.
use mathlib.Core.List.{List, [], ◌∷◌, Perm, Memᴰ}
use mathlib.Core.List.Memᴰ.{head, tail, cast}
use mathlib.Core.List.Perm
use mathlib.Core.Path.{◌≡◌, refl}
use mathlib.Core.Logic.{inl, inr}
use mathlib.Core.Bool.{Bool, true, false}
use package.soc_analyst.Prelude.Lists.{All}
use package.soc_analyst.Prelude.Tests.{Bool-cases, if◌then◌else◌}

module _ {ℓ} {A : Type ℓ} (before : A → A → Bool) where
  pub insert_by : A → List A → List A
  insert_by x [] = x ∷ []
  insert_by x (y ∷ ys) = if before x y then x ∷ y ∷ ys else y ∷ insert_by x ys

  unfoldable pub sort_by : List A → List A
  unfolding insert_by
  sort_by [] = []
  sort_by (x ∷ xs) = insert_by x (sort_by xs)

  -- Each element may stand before every later one.
  abbrev pub IsSortedBy : List A → Type ℓ
  IsSortedBy [] = Unit
  IsSortedBy (x ∷ xs) = All (λ y. before x y ≡ true) xs × IsSortedBy xs

module _ {ℓ} {A : Type ℓ} (before : A → A → Bool) where
  pub insert_by-perm : (x : A) (ys : List A) → Perm (insert_by before x ys) (x ∷ ys)
  unfolding insert_by
  insert_by-perm x [] = Perm.refl (x ∷ [])
  insert_by-perm x (y ∷ ys) = elim (Bool-cases (before x y)) [
    | inl e ↦ rw e (Perm.refl (x ∷ y ∷ ys))
    | inr e ↦ rw e (Perm.trans (Perm.cons y (insert_by-perm x ys)) (Perm.swap x y ys))
  ]

  -- Sorting neither loses nor invents an element.
  pub sort_by-perm : (xs : List A) → Perm (sort_by before xs) xs
  unfolding sort_by
  sort_by-perm [] = Perm.refl []
  sort_by-perm (x ∷ xs) =
      Perm.trans (insert_by-perm x (sort_by before xs)) (Perm.cons x (sort_by-perm xs))

  Memᴰ-insert_by_self : (x : A) (ys : List A) → Memᴰ x (insert_by before x ys)
  unfolding insert_by
  Memᴰ-insert_by_self x [] = head refl
  Memᴰ-insert_by_self x (y ∷ ys) = elim (Bool-cases (before x y)) [
    | inl e ↦ rw e (head refl)
    | inr e ↦ rw e (tail (Memᴰ-insert_by_self x ys))
  ]

  Memᴰ-insert_by : (z x : A) (ys : List A) → Memᴰ z ys → Memᴰ z (insert_by before x ys)
  unfolding insert_by
  Memᴰ-insert_by z x [] h = tail h
  Memᴰ-insert_by z x (y ∷ ys) h = elim (Bool-cases (before x y)) [
    | inl e ↦ rw e (tail h)
    | inr e ↦ rw e (pass (Memᴰ-insert_by z x ys) h)
  ]
    where
      pass :
          (Memᴰ z ys → Memᴰ z (insert_by before x ys))
          → Memᴰ z (y ∷ ys)
          → Memᴰ z (y ∷ insert_by before x ys)
      pass f (head k) = head k
      pass f (tail k) = tail (f k)

  -- Sorting loses no element.
  pub Memᴰ-sort_by : (z : A) (xs : List A) → Memᴰ z xs → Memᴰ z (sort_by before xs)
  unfolding sort_by
  Memᴰ-sort_by z [] h = h
  Memᴰ-sort_by z (x ∷ xs) (head e) = cast e (Memᴰ-insert_by_self x (sort_by before xs))
  Memᴰ-sort_by z (x ∷ xs) (tail k) = Memᴰ-insert_by z x (sort_by before xs) (Memᴰ-sort_by z xs k)

  module _ {κ} (P : A → Type κ) where
    All-insert_by : (x : A) (ys : List A) → P x → All P ys → All P (insert_by before x ys)
    unfolding insert_by
    All-insert_by x [] p h = (p, tt)
    All-insert_by x (y ∷ ys) p h = elim (Bool-cases (before x y)) [
      | inl e ↦ rw e (p, h)
      | inr e ↦ rw e (h.0, All-insert_by x ys p h.1)
    ]

    pub All-sort_by : (xs : List A) → All P xs → All P (sort_by before xs)
    unfolding sort_by
    All-sort_by [] h = tt
    All-sort_by (x ∷ xs) h = All-insert_by x (sort_by before xs) h.0 (All-sort_by xs h.1)

module _ {ℓ} {A : Type ℓ} (before : A → A → Bool)
    (total : (x y : A) → before x y ≡ false → before y x ≡ true)
    (transitive : (x y z : A) → before x y ≡ true → before y z ≡ true → before x z ≡ true) where
  All-weaken :
      (x y : A) (ys : List A)
      → before x y ≡ true
      → All (λ z. before y z ≡ true) ys
      → All (λ z. before x z ≡ true) ys
  All-weaken x y [] p h = tt
  All-weaken x y (z ∷ zs) p h = (transitive x y z p h.0, All-weaken x y zs p h.1)

  insert_by-IsSortedBy :
      (x : A) (ys : List A) → IsSortedBy before ys → IsSortedBy before (insert_by before x ys)
  unfolding insert_by
  insert_by-IsSortedBy x [] h = (tt, tt)
  insert_by-IsSortedBy x (y ∷ ys) h = elim (Bool-cases (before x y)) [
    | inl e ↦ rw e ((e, All-weaken x y ys e h.0), h)
    | inr e ↦ rw e (
      All-insert_by before (λ z. before y z ≡ true) x ys (total x y e) h.0,
      insert_by-IsSortedBy x ys h.1,
    )
  ]

  -- The result is in order when the test is total and transitive.
  pub sort_by-IsSortedBy : (xs : List A) → IsSortedBy before (sort_by before xs)
  unfolding sort_by
  sort_by-IsSortedBy [] = tt
  sort_by-IsSortedBy (x ∷ xs) = insert_by-IsSortedBy x (sort_by before xs) (sort_by-IsSortedBy xs)
