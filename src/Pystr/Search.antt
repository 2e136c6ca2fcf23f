-- ===== src/Pystr/Search.antt =====
-- `in`, `str.startswith` and `str.replace` on lists of code points, and texts that only add code
-- points foreign to a pattern.
use soc_analyst.Prelude.{
  ℕ, zero, suc, ◌≡◌, refl, Bool, true, false, ◌&&◌, ◌||◌, [], ◌∷◌, ◌++◌, arith, ◌==◌, if◌then◌else◌,
  length, drop, All, Bool-cases, inl, inr,
}
use soc_analyst.Pystr.{Pystr}

-- `text.startswith(old)`
unfoldable pub starts_with : Pystr → Pystr → Bool
starts_with [] text = true
starts_with (p ∷ ps) [] = false
starts_with (p ∷ ps) (c ∷ cs) = p == c && starts_with ps cs

-- `old in text`
unfoldable pub contains : Pystr → Pystr → Bool
unfolding starts_with
contains old [] = starts_with old []
contains old (c ∷ cs) = starts_with old (c ∷ cs) || contains old cs

-- `text.replace(old, new)` for an `old` that is not empty. `skip` counts the code points of a match
-- that are still to be passed over.
unfoldable pub replace_from : Pystr → Pystr → ℕ → Pystr → Pystr
unfolding starts_with
replace_from old new skip [] = []
replace_from old new (suc skip) (c ∷ cs) = replace_from old new skip cs
replace_from old new zero (c ∷ cs) =
    let after = replace_from old new (length (drop 1 old)) cs in
    let next = replace_from old new 0 cs in
    if starts_with old (c ∷ cs) then new ++ after else c ∷ next

unfoldable pub replace : Pystr → Pystr → Pystr → Pystr
unfolding replace_from
replace old new text = replace_from old new 0 text

-- `out` is `inp` with code points that fail the test `plain` put in, or put in the place of others.
pub data Woven (plain : ℕ → Bool) : Pystr → Pystr → Type 0 where
  nil : Woven plain [] []
  same : {out inp : Pystr} (c : ℕ) → Woven plain out inp → Woven plain (c ∷ out) (c ∷ inp)
  insert :
      {out inp : Pystr} (c : ℕ) → plain c ≡ false → Woven plain out inp → Woven plain (c ∷ out) inp
  swap :
      {out inp : Pystr} (c d : ℕ)
      → plain c ≡ false
      → Woven plain out inp
      → Woven plain (c ∷ out) (d ∷ inp)

pub Woven-refl : {plain : ℕ → Bool} (text : Pystr) → Woven plain text text
Woven-refl [] = nil
Woven-refl (c ∷ cs) = same c (Woven-refl cs)

pub Woven-append :
    {plain : ℕ → Bool} {out inp : Pystr} (text : Pystr)
    → Woven plain out inp
    → Woven plain (text ++ out) (text ++ inp)
Woven-append [] w = w
Woven-append (c ∷ cs) w = same c (Woven-append cs w)

module _ (plain : ℕ → Bool) where
  pub differs : (p c : ℕ) → plain p ≡ true → plain c ≡ false → (p == c) ≡ false
  differs p c h k = elim (Bool-cases (p == c)) [ inl e ↦ absurd (ground arith) | inr e ↦ e ]

  pub starts_with-Woven :
      {out inp : Pystr} (p : Pystr)
      → All (λ c. plain c ≡ true) p
      → Woven plain out inp
      → starts_with p out ≡ true
      → starts_with p inp ≡ true
  unfolding starts_with
  starts_with-Woven [] h w s = ground arith
  starts_with-Woven (q ∷ p) h nil s = s
  starts_with-Woven (q ∷ p) h (same c w) s = ground (arith, starts_with-Woven p h.1 w)
  starts_with-Woven (q ∷ p) h (insert c f w) s = absurd (ground (arith, differs q c h.0 f))
  starts_with-Woven (q ∷ p) h (swap c d f w) s = absurd (ground (arith, differs q c h.0 f))

  -- A pattern of plain code points occurs only where it occurred before.
  pub contains-Woven :
      {out inp : Pystr} (q : ℕ) (p : Pystr)
      → All (λ c. plain c ≡ true) (q ∷ p)
      → Woven plain out inp
      → contains (q ∷ p) inp ≡ false
      → contains (q ∷ p) out ≡ false
  unfolding contains starts_with
  contains-Woven q p h nil s = s
  contains-Woven q p h (same c w) s =
      ground (arith, contains-Woven q p h w, starts_with-Woven p h.1 w)
  contains-Woven q p h (insert c f w) s = ground (arith, contains-Woven q p h w, differs q c h.0 f)
  contains-Woven q p h (swap c d f w) s = ground (arith, contains-Woven q p h w, differs q c h.0 f)

  pub starts_with-apart :
      (p xs ys : Pystr) (s : ℕ)
      → All (λ c. plain c ≡ true) p
      → plain s ≡ false
      → starts_with p (xs ++ s ∷ ys) ≡ starts_with p xs
  unfolding starts_with
  starts_with-apart [] xs ys s h f = refl
  starts_with-apart (q ∷ p) [] ys s h f = ground (arith, differs q s h.0 f)
  starts_with-apart (q ∷ p) (x ∷ xs) ys s h f = ground (arith, starts_with-apart p xs ys s h.1 f)

  -- Nothing occurs across a code point that the pattern has not.
  pub contains-apart :
      (q : ℕ) (p xs ys : Pystr) (s : ℕ)
      → All (λ c. plain c ≡ true) (q ∷ p)
      → plain s ≡ false
      → contains (q ∷ p) xs ≡ false
      → contains (q ∷ p) ys ≡ false
      → contains (q ∷ p) (xs ++ s ∷ ys) ≡ false
  unfolding contains starts_with
  contains-apart q p [] ys s h f e k = ground (arith, differs q s h.0 f)
  contains-apart q p (x ∷ xs) ys s h f e k =
      ground (arith, contains-apart q p xs ys s h f, starts_with-apart p xs ys s h.1 f)

  pub contains-foreign :
      (q : ℕ) (p ys : Pystr) (s : ℕ)
      → All (λ c. plain c ≡ true) (q ∷ p)
      → plain s ≡ false
      → contains (q ∷ p) ys ≡ false
      → contains (q ∷ p) (s ∷ ys) ≡ false
  unfolding contains starts_with
  contains-foreign q p ys s h f k = ground (arith, differs q s h.0 f)
