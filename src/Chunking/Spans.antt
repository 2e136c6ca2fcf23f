-- ===== src/Chunking/Spans.antt =====
-- Where the loop of `chunk_text` cuts: the bounds of each cut, and the spans that it goes through.
use mathlib.Core.Option
use mathlib.Core.List.{append-nil}
use soc_analyst.Prelude.{
  ℕ, zero, suc, ◌+◌, ◌-◌, ◌*◌, ◌/◌, ◌≤◌, ◌<◌, min, max, ◌≡◌, refl, ap, sym, true, ◌&&◌, Option,
  none, some, List, [], ◌∷◌, ◌++◌, arith, leb, ltb, if◌then◌else◌, length, drop, any, length-take,
  Bool-cases, inl, inr,
}
use soc_analyst.Pystr.{Pystr}
use soc_analyst.Chunking.{
  Chunk, last_whitespace, last_sentence, last_newline_of_run, last_paragraph, slice, nicest,
  boundary, end_of, chunk_of, piece_of, loop,
}

-- a match ends inside the window, behind its first character
abbrev InWindow : Pystr → Option ℕ → Type 0
InWindow w none = Unit
InWindow w (some e) = (0 < e) × (e ≤ length w)

last_whitespace-InWindow : (w : Pystr) → InWindow w (last_whitespace w)
unfolding last_whitespace
last_whitespace-InWindow [] = tt
last_whitespace-InWindow (c ∷ cs) = ground (arith, last_whitespace-InWindow cs)

last_sentence-InWindow : (w : Pystr) → InWindow w (last_sentence w)
unfolding last_sentence
last_sentence-InWindow [] = tt
last_sentence-InWindow (c ∷ []) = tt
last_sentence-InWindow (c ∷ d ∷ cs) = ground (arith, last_sentence-InWindow (d ∷ cs))

last_newline_of_run-InWindow : (w : Pystr) → InWindow w (last_newline_of_run w)
unfolding last_newline_of_run
last_newline_of_run-InWindow [] = tt
last_newline_of_run-InWindow (c ∷ cs) = ground (arith, last_newline_of_run-InWindow cs)

last_paragraph-InWindow : (w : Pystr) → InWindow w (last_paragraph w)
unfolding last_paragraph
last_paragraph-InWindow [] = tt
last_paragraph-InWindow (c ∷ cs) =
    ground (arith, last_paragraph-InWindow cs, last_newline_of_run-InWindow cs)

nicest_bounds :
    (start window_start hard_end : ℕ) (w : Pystr)
    → start < window_start
    → window_start ≤ hard_end
    → window_start + length w ≤ hard_end
    → (start < nicest window_start hard_end w) × (nicest window_start hard_end w ≤ hard_end)
unfolding nicest
nicest_bounds start window_start hard_end w h k l =
    ground (arith, last_paragraph-InWindow w, last_sentence-InWindow w, last_whitespace-InWindow w)

length-slice : (start end : ℕ) (text : Pystr) → length (slice start end text) ≤ end - start
length-slice start end text = omega (arith, length-take (end - start) (drop start text))

boundary_bounds :
    (text : Pystr) (start hard_end : ℕ)
    → start < hard_end
    → (start < boundary text start hard_end) × (boundary text start hard_end ≤ hard_end)
unfolding boundary
boundary_bounds text start hard_end h =
    let window_start : ℕ = max (start + (hard_end - start) * 65 / 100) (start + 1) in
    nicest_bounds start window_start hard_end (slice window_start hard_end text) (omega arith)
      (omega arith) (omega (arith, length-slice window_start hard_end text))

-- A chunk ends behind its beginning, within its size and within the text.
pub end_of_bounds :
    (size : ℕ) (text : Pystr) (cursor : ℕ)
    → 0 < size
    → cursor < length text
    → (cursor < end_of size text cursor)
      × (end_of size text cursor ≤ cursor + size)
      × (end_of size text cursor ≤ length text)
unfolding end_of
end_of_bounds size text cursor h k =
    ground (arith, boundary_bounds text cursor (min (cursor + size) (length text)))

-- The spans that the loop cuts.
pub spans : ℕ → ℕ → ℕ → Pystr → ℕ → List (ℕ × ℕ)
spans zero size lap text cursor = []
spans (suc fuel) size lap text cursor =
    let end = end_of size text cursor in
    let rest = spans fuel size lap text (max (end - lap) (cursor + 1)) in
    if leb (length text) end then (cursor, end) ∷ [] else (cursor, end) ∷ rest

-- The chunks of some spans, numbered from `count`.
abbrev pub render : Pystr → ℕ → List (ℕ × ℕ) → List Chunk
render text count [] = []
render text count ((s, e) ∷ rest) =
    let new = chunk_of count (piece_of text s e) in new ++ render text (count + length new) rest

pub loop-render :
    (fuel size lap : ℕ) (text : Pystr) (cursor count : ℕ)
    → 0 < size
    → cursor < length text
    → length text < fuel + cursor
    → loop fuel size lap text cursor count
      ≡ some (render text count (spans fuel size lap text cursor))
unfolding loop spans
loop-render zero size lap text cursor count s h k = absurd (omega arith)
loop-render (suc fuel) size lap text cursor count s h k =
    let end : ℕ = end_of size text cursor in
    let new : List Chunk = chunk_of count (piece_of text cursor end) in
    let inside : ltb cursor (length text) ≡ true = ground arith in
    elim (Bool-cases (leb (length text) end)) [
      | inl last ↦ rw (inside, last) (ap some (sym (append-nil new)))
      | inr more ↦
          rw (inside, more)
            (ap (Option.map (λ later. new ++ later)) (
              loop-render fuel size lap text (max (end - lap) (cursor + 1)) (count + length new) s
                (ground (arith, end_of_bounds size text cursor s h)) (omega arith)))
    ]

-- What the spans from a cursor on are: they begin there, each is within the size, each next one
-- begins at the overlap behind the end before it, but always further on, and the last ends the text.
abbrev pub Tiles : ℕ → ℕ → ℕ → ℕ → List (ℕ × ℕ) → Type 0
Tiles size lap n cursor [] = ⊥
Tiles size lap n cursor ((s, e) ∷ []) = (s ≡ cursor) × (s < e) × (e ≤ s + size) × (e ≡ n)
Tiles size lap n cursor ((s, e) ∷ t ∷ rest) =
    (s ≡ cursor)
    × (s < e)
    × (e ≤ s + size)
    × (e < n)
    × Tiles size lap n (max (e - lap) (s + 1)) (t ∷ rest)

pub spans-Tiles :
    (fuel size lap : ℕ) (text : Pystr) (cursor : ℕ)
    → 0 < size
    → cursor < length text
    → length text < fuel + cursor
    → Tiles size lap (length text) cursor (spans fuel size lap text cursor)
unfolding spans
spans-Tiles zero size lap text cursor s h k = absurd (omega arith)
spans-Tiles (suc fuel) size lap text cursor s h k =
    let end : ℕ = end_of size text cursor in
    let b = end_of_bounds size text cursor s h in
    elim (Bool-cases (leb (length text) end)) [
      | inl last ↦ rw (last, Tiles) (refl, b.0, b.1, ground (arith, b))
      | inr more ↦ rw (more) (
          extend cursor end (spans fuel size lap text (max (end - lap) (cursor + 1))) b.0 b.1
            (ground (arith, b))
            (spans-Tiles fuel size lap text (max (end - lap) (cursor + 1)) s (ground (arith, b))
              (omega arith)))
    ]
  where
    extend :
        (c e : ℕ) (rest : List (ℕ × ℕ))
        → c < e
        → e ≤ c + size
        → e < length text
        → Tiles size lap (length text) (max (e - lap) (c + 1)) rest
        → Tiles size lap (length text) c ((c, e) ∷ rest)
    extend c e [] p q r t = absurd t
    extend c e (u ∷ us) p q r t = (refl, p, q, r, t)

-- Every position from the cursor on lies in one of the spans.
pub Tiles-covers :
    (size lap n cursor p : ℕ) (sp : List (ℕ × ℕ))
    → Tiles size lap n cursor sp
    → cursor ≤ p
    → p < n
    → any (λ s. leb s.0 p && ltb p s.1) sp ≡ true
Tiles-covers size lap n cursor p [] t h k = absurd t
Tiles-covers size lap n cursor p (s ∷ []) t h k = ground arith
Tiles-covers size lap n cursor p (s ∷ u ∷ rest) t h k = elim (Bool-cases (ltb p s.1)) [
  | inl here ↦ ground arith
  | inr later ↦
      rw (Tiles-covers size lap n (max (s.1 - lap) (s.0 + 1)) p (u ∷ rest) t.4 (ground arith) k)
        (ground arith)
]
