-- ===== src/Chunking/Cover.antt =====
-- What `chunk_text` promises: it ends, its chunks cover the document, and none exceeds the size.
use mathlib.Core.List.{append-nil}
use soc_analyst.Prelude.{
  map, ℕ, suc, ◌+◌, ◌-◌, max, drop, ◌==◌, ◌∙◌, Bool-cases, inl, inr, ◌⊎◌, leb→le, ◌≤◌, ◌<◌, ◌≡◌,
  refl, ap, true, false, ◌&&◌, some, List, [], ◌∷◌, ◌++◌, arith, leb, ltb, length, any, All,
  All-append, ok, length-take,
}
use soc_analyst.Pystr.{
  Pystr, length-strip, IsVisible, strip-IsVisible, replace_crlf, replace_cr, split_lines,
  join_lines, rstrip,
}
use soc_analyst.Chunking.{
  Chunk, normalise, loop, chunk_of, piece_of, slice, chunk_cleaned, chunk_text,
}
use soc_analyst.Chunking.Spans.{spans, render, loop-render, Tiles, spans-Tiles, Tiles-covers}

chunk_text-cleaned :
    (size lap : ℕ) (text : Pystr)
    → lap < size
    → chunk_text size lap text ≡ ok (chunk_cleaned size lap (normalise text))
unfolding chunk_text
chunk_text-cleaned size lap text h =
    let size_pos : (size == 0) ≡ false = ground arith in
    let lap_small : leb size lap ≡ false = ground arith in rw (size_pos, lap_small) refl

chunk_cleaned-loop :
    (size lap : ℕ) (t : Pystr)
    → size < length t
    → chunk_cleaned size lap t ≡ loop (suc (length t)) size lap t 0 0
unfolding chunk_cleaned
chunk_cleaned-loop size lap [] k = absurd (omega arith)
chunk_cleaned-loop size lap (c ∷ t) k =
    let long : leb (length (c ∷ t)) size ≡ false = ground arith in rw long refl

chunk_cleaned-short :
    (size lap : ℕ) (t : Pystr) → length t ≤ size → chunk_cleaned size lap t ≡ some (chunk_of 0 t)
unfolding chunk_cleaned chunk_of
chunk_cleaned-short size lap [] k = refl
chunk_cleaned-short size lap (c ∷ t) k =
    let short : leb (length (c ∷ t)) size ≡ true = ground arith in rw short refl

chunk_cleaned-spans :
    (size lap : ℕ) (t : Pystr)
    → 0 < size
    → size < length t
    → chunk_cleaned size lap t ≡ some (render t 0 (spans (suc (length t)) size lap t 0))
chunk_cleaned-spans size lap t s k =
    chunk_cleaned-loop size lap t k
    ∙ loop-render (suc (length t)) size lap t 0 0 s (omega arith) (omega arith)

-- A document longer than a chunk is cut along spans that tile it: each begins where the overlap
-- behind the one before puts it and always further on, none is longer than the size, and the last
-- ends the document. The result is the spans' stripped contents, numbered, with the blank ones
-- left out; so the loop ends by itself; and every position of the document lies in one of the spans.
pub chunk_text_covers :
    (size lap : ℕ) (text : Pystr)
    → lap < size
    → size < length (normalise text)
    → (sp : List (ℕ × ℕ)) × (chunk_text size lap text ≡ ok (some (render (normalise text) 0 sp)))
      × Tiles size lap (length (normalise text)) 0 sp
      × ((p : ℕ) → p < length (normalise text) → any (λ s. leb s.0 p && ltb p s.1) sp ≡ true)
chunk_text_covers size lap text h k =
    let t : Pystr = normalise text in
    let fuel : ℕ = suc (length t) in
    let tiled : Tiles size lap (length t) 0 (spans fuel size lap t 0) =
      spans-Tiles fuel size lap t 0 (omega arith) (omega arith) (omega arith) in
    (
      spans fuel size lap t 0,
      chunk_text-cleaned size lap text h ∙ ap ok (chunk_cleaned-spans size lap t (omega arith) k),
      tiled,
      λ p q. Tiles-covers size lap (length t) 0 p (spans fuel size lap t 0) tiled (omega arith) q,
    )

-- indices count up from a number
abbrev pub Numbered : ℕ → List Chunk → Type 0
Numbered count [] = Unit
Numbered count (c ∷ cs) = (c.index ≡ count) × Numbered (count + 1) cs

chunk_of_bounds :
    (count size : ℕ) (piece : Pystr)
    → (piece ≡ []) ⊎ IsVisible piece
    → length piece ≤ size
    → All (λ c. IsVisible c.content × (length c.content ≤ size)) (chunk_of count piece)
unfolding chunk_of
chunk_of_bounds count size [] v h = tt
chunk_of_bounds count size (c ∷ piece) (inl e) h = absurd (cc)
chunk_of_bounds count size (c ∷ piece) (inr v) h = ((v, h), tt)

piece_of-IsVisible :
    (text : Pystr) (s e : ℕ) → (piece_of text s e ≡ []) ⊎ IsVisible (piece_of text s e)
unfolding piece_of
piece_of-IsVisible text s e = strip-IsVisible (slice s e text)

normalise-IsVisible : (text : Pystr) → (normalise text ≡ []) ⊎ IsVisible (normalise text)
unfolding normalise
normalise-IsVisible text =
    let (line, lines) = split_lines (replace_cr (replace_crlf text)) in
    strip-IsVisible (join_lines (rstrip line) (map rstrip lines))

Numbered-chunk_of :
    (count : ℕ) (piece : Pystr) (later : List Chunk)
    → Numbered (count + length (chunk_of count piece)) later
    → Numbered count (chunk_of count piece ++ later)
unfolding chunk_of
Numbered-chunk_of count [] later h = let e : count + 0 ≡ count = omega arith in rw e at h
Numbered-chunk_of count (c ∷ piece) later h = (refl, h)

Numbered-render :
    (text : Pystr) (count : ℕ) (sp : List (ℕ × ℕ)) → Numbered count (render text count sp)
Numbered-render text count [] = tt
Numbered-render text count (s ∷ sp) =
    Numbered-chunk_of count (piece_of text s.0 s.1) _
      (Numbered-render text (count + length (chunk_of count (piece_of text s.0 s.1))) sp)

length-piece_of : (text : Pystr) (s e : ℕ) → length (piece_of text s e) ≤ e - s
unfolding piece_of
length-piece_of text s e =
    omega (arith, length-strip (slice s e text), length-take (e - s) (drop s text))

render_bounds :
    (size lap n cursor count : ℕ) (text : Pystr) (sp : List (ℕ × ℕ))
    → Tiles size lap n cursor sp
    → All (λ c. IsVisible c.content × (length c.content ≤ size)) (render text count sp)
render_bounds size lap n cursor count text [] t = absurd t
render_bounds size lap n cursor count text ((s, e) ∷ []) t =
    All-append _ (chunk_of count (piece_of text s e)) []
      (chunk_of_bounds count size (piece_of text s e) (piece_of-IsVisible text s e)
        (omega (arith, length-piece_of text s e, t.2)))
      tt
render_bounds size lap n cursor count text ((s, e) ∷ u ∷ rest) t =
    All-append _ (chunk_of count (piece_of text s e)) _
      (chunk_of_bounds count size (piece_of text s e) (piece_of-IsVisible text s e)
        (omega (arith, length-piece_of text s e, t.2)))
      (render_bounds size lap n (max (e - lap) (s + 1)) _ text (u ∷ rest) t.4)

-- Whatever the document, with an overlap smaller than the size the call returns chunks; each holds a
-- character that is not white space and is no longer than the size; and they are numbered from 0.
pub chunk_text_bounds :
    (size lap : ℕ) (text : Pystr)
    → lap < size
    → (chunks : List Chunk) × (chunk_text size lap text ≡ ok (some chunks))
      × All (λ c. IsVisible c.content × (length c.content ≤ size)) chunks
      × Numbered 0 chunks
chunk_text_bounds size lap text h = elim (Bool-cases (leb (length (normalise text)) size)) [
  | inl short ↦ (
    chunk_of 0 (normalise text),
    chunk_text-cleaned size lap text h
        ∙ ap ok (chunk_cleaned-short size lap (normalise text) (leb→le _ _ short)),
    chunk_of_bounds 0 size (normalise text) (normalise-IsVisible text) (leb→le _ _ short),
    rw append-nil at (Numbered-chunk_of 0 (normalise text) [] tt),
  )
  | inr long ↦
      let t : Pystr = normalise text in
      let k : size < length t = ground arith in
      let sp : List (ℕ × ℕ) = spans (suc (length t)) size lap t 0 in
      (
        render t 0 sp,
        chunk_text-cleaned size lap text h ∙ ap ok (chunk_cleaned-spans size lap t (omega arith) k),
        render_bounds size lap (length t) 0 0 t sp
            (spans-Tiles (suc (length t)) size lap t 0 (omega arith) (omega arith) (omega arith)),
        Numbered-render t 0 sp,
      )
]
