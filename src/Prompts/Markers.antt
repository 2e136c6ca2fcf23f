-- ===== src/Prompts/Markers.antt =====
-- What `neutralise` leaves of the markers.
use soc_analyst.Prelude.{
  ℕ, zero, suc, ◌≡◌, refl, sym, subst, Bool, true, false, ◌&&◌, ◌||◌, Option, [], ◌∷◌, ◌++◌, arith,
  ◌==◌, leb, length, drop, All, Bool-cases, inl, inr, or_default,
}
use soc_analyst.Pystr.{Pystr}
use soc_analyst.Pystr.Search.{
  starts_with, contains, replace_from, replace, Woven, nil, same, insert, swap, Woven-refl,
  starts_with-Woven, contains-Woven,
}
use soc_analyst.Prompts.{
  fence, fence_end, opening, closing, zero_width, broken, break_marker, break_markers, truncated,
  neutralise,
}

-- the code points of the two fences: angle brackets, the underscore and capital letters
unfoldable pub in_fence : ℕ → Bool
in_fence c = c == 60 || c == 62 || c == 95 || (leb 65 c && leb c 90)

split-starts_with :
    (old text : Pystr) → starts_with old text ≡ true → text ≡ old ++ drop (length old) text
unfolding starts_with
split-starts_with [] text h = refl
split-starts_with (p ∷ ps) [] h = absurd (ground arith)
split-starts_with (p ∷ ps) (c ∷ cs) h = ground (arith, split-starts_with ps cs)

Woven-join :
    {plain : ℕ → Bool} {a b c d : Pystr}
    → Woven plain a b
    → Woven plain c d
    → Woven plain (a ++ c) (b ++ d)
Woven-join nil w = w
Woven-join (same c v) w = same c (Woven-join v w)
Woven-join (insert c f v) w = insert c f (Woven-join v w)
Woven-join (swap c d f v) w = swap c d f (Woven-join v w)

module _ {plain : ℕ → Bool} (p : ℕ) (ps new : Pystr) (v : Woven plain new (p ∷ ps)) where
  Woven-replace_from :
      (skip : ℕ) (text : Pystr) → Woven plain (replace_from (p ∷ ps) new skip text) (drop skip text)
  unfolding replace_from
  Woven-replace_from zero [] = nil
  Woven-replace_from (suc skip) [] = nil
  Woven-replace_from (suc skip) (c ∷ cs) = Woven-replace_from skip cs
  Woven-replace_from zero (c ∷ cs) = elim (Bool-cases (starts_with (p ∷ ps) (c ∷ cs))) [
    | inl e ↦ rw e (
        subst (λ inp. Woven plain (new ++ replace_from (p ∷ ps) new (length ps) cs) inp)
          (sym (split-starts_with (p ∷ ps) (c ∷ cs) e))
          (Woven-join v (Woven-replace_from (length ps) cs)))
    | inr e ↦ rw e (same c (Woven-replace_from 0 cs))
  ]

-- The text before the first `skip` code points is passed over, and the rest is woven.
Woven-break_marker :
    {plain : ℕ → Bool} (p : ℕ) (ps text : Pystr)
    → Woven plain (broken (p ∷ ps)) (p ∷ ps)
    → Woven plain (break_marker (p ∷ ps) text) text
unfolding break_marker replace
Woven-break_marker p ps text v = Woven-replace_from p ps (broken (p ∷ ps)) v 0 text

lacks-prepend :
    (m : ℕ) (ms xs cs : Pystr)
    → All (λ c. (m == c) ≡ false) xs
    → contains (m ∷ ms) cs ≡ false
    → contains (m ∷ ms) (xs ++ cs) ≡ false
unfolding contains starts_with
lacks-prepend m ms [] cs h k = k
lacks-prepend m ms (x ∷ xs) cs h k = ground (arith, lacks-prepend m ms xs cs h.1 k)

contains-nil : (m : ℕ) (ms : Pystr) → contains (m ∷ ms) [] ≡ false
unfolding contains starts_with
contains-nil m ms = refl

-- Code points that do not begin a pattern do not make it occur.
module _ (plain : ℕ → Bool) (a b : ℕ) (t : Pystr)
    (is_plain : All (λ c. plain c ≡ true) (a ∷ a ∷ a ∷ b ∷ t)) (foreign : plain zero_width ≡ false)
    (apart : All (λ c. (a == c) ≡ false) (b ∷ t)) where
  marker_differs : (a == zero_width) ≡ false
  marker_differs = elim (Bool-cases (a == zero_width)) [
    | inl e ↦ absurd (ground (arith, is_plain.0, foreign))
    | inr e ↦ e
  ]

  lacks-broken :
      (rest : Pystr)
      → contains (a ∷ a ∷ a ∷ b ∷ t) rest ≡ false
      → contains (a ∷ a ∷ a ∷ b ∷ t) (broken (a ∷ a ∷ a ∷ b ∷ t) ++ rest) ≡ false
  unfolding contains starts_with
  lacks-broken rest k =
      ground (arith, marker_differs, apart.0, lacks-prepend a (a ∷ a ∷ b ∷ t) (b ∷ t) rest apart k)

  Woven-broken : Woven plain (broken (a ∷ a ∷ a ∷ b ∷ t)) (a ∷ a ∷ a ∷ b ∷ t)
  Woven-broken = same a (same a (insert zero_width foreign (Woven-refl (a ∷ b ∷ t))))

  lacks-kept :
      (c : ℕ) (out cs : Pystr)
      → Woven plain out cs
      → starts_with (a ∷ a ∷ a ∷ b ∷ t) (c ∷ cs) ≡ false
      → contains (a ∷ a ∷ a ∷ b ∷ t) out ≡ false
      → contains (a ∷ a ∷ a ∷ b ∷ t) (c ∷ out) ≡ false
  unfolding contains
  lacks-kept c out cs w h k = elim (Bool-cases (starts_with (a ∷ a ∷ a ∷ b ∷ t) (c ∷ out))) [
    | inl e ↦
        absurd (ground (arith, starts_with-Woven plain (a ∷ a ∷ a ∷ b ∷ t) is_plain (same c w) e))
    | inr e ↦ rw e k
  ]

  lacks-replace_from :
      (skip : ℕ) (text : Pystr)
      → contains
          (a ∷ a ∷ a ∷ b ∷ t)
          (replace_from (a ∷ a ∷ a ∷ b ∷ t) (broken (a ∷ a ∷ a ∷ b ∷ t)) skip text)
        ≡ false
  unfolding replace_from
  lacks-replace_from zero [] = contains-nil a (a ∷ a ∷ b ∷ t)
  lacks-replace_from (suc skip) [] = contains-nil a (a ∷ a ∷ b ∷ t)
  lacks-replace_from (suc skip) (c ∷ cs) = lacks-replace_from skip cs
  lacks-replace_from zero (c ∷ cs) = elim (Bool-cases (starts_with (a ∷ a ∷ a ∷ b ∷ t) (c ∷ cs))) [
    | inl e ↦ rw e (lacks-broken _ (lacks-replace_from (suc (suc (suc (length t)))) cs))
    | inr e ↦ rw e (
        lacks-kept c _ cs (Woven-replace_from a (a ∷ a ∷ b ∷ t) _ Woven-broken 0 cs) e
          (lacks-replace_from 0 cs))
  ]

pub in_fence-fence : All (λ c. in_fence c ≡ true) fence
unfolding in_fence
in_fence-fence = ground arith

pub in_fence-fence_end : All (λ c. in_fence c ≡ true) fence_end
unfolding in_fence
in_fence-fence_end = ground arith

zero_width-foreign : in_fence zero_width ≡ false
unfolding in_fence
zero_width-foreign = refl

fence-broken : (text : Pystr) → contains fence (break_marker fence text) ≡ false
unfolding break_marker replace
fence-broken text =
    lacks-replace_from in_fence 60 85 (drop 4 fence) in_fence-fence zero_width-foreign
      (ground arith) 0 text

fence_end-broken : (text : Pystr) → contains fence_end (break_marker fence_end text) ≡ false
unfolding break_marker replace
fence_end-broken text =
    lacks-replace_from in_fence 60 69 (drop 4 fence_end) in_fence-fence_end zero_width-foreign
      (ground arith) 0 text

-- A round puts only code points into the text that no fence has.
Woven-round : (p q : ℕ) (r text : Pystr) → Woven in_fence (break_marker (p ∷ q ∷ r) text) text
Woven-round p q r text =
    Woven-break_marker p (q ∷ r) text
      (same p (same q (insert zero_width zero_width-foreign (Woven-refl r))))

lacks-round :
    (m : ℕ) (ms : Pystr) (p q : ℕ) (r text : Pystr)
    → All (λ c. in_fence c ≡ true) (m ∷ ms)
    → contains (m ∷ ms) text ≡ false
    → contains (m ∷ ms) (break_marker (p ∷ q ∷ r) text) ≡ false
lacks-round m ms p q r text h k = contains-Woven in_fence m ms h (Woven-round p q r text) k

-- Whatever the untrusted text is, and whatever the limit, the neutralised text contains neither the
-- opening nor the closing fence.
pub neutralise-unfenced :
    (field_limit : ℕ) (text : Pystr) (limit : Option ℕ)
    → (contains fence (neutralise field_limit text limit) ≡ false)
      × (contains fence_end (neutralise field_limit text limit) ≡ false)
unfolding neutralise break_markers
neutralise-unfenced field_limit text limit =
    let cut = truncated (or_default limit field_limit) text in
    let once = break_marker fence cut in
    let twice = break_marker fence_end once in
    let thrice = break_marker opening twice in
    (
      lacks-round 60 _ 62 62 (drop 2 closing) thrice in_fence-fence (
          lacks-round 60 _ 60 60 (drop 2 opening) twice in_fence-fence
            (lacks-round 60 _ 60 60 (drop 2 fence_end) once in_fence-fence (fence-broken cut))),
      lacks-round 60 _ 62 62 (drop 2 closing) thrice in_fence-fence_end (
          lacks-round 60 _ 60 60 (drop 2 opening) twice in_fence-fence_end (fence_end-broken once)),
    )
