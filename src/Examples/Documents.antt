-- ===== src/Examples/Documents.antt =====
-- A text of seven characters, in chunks of four that share one.
use soc_analyst.Pystr.{IsVisible}
use soc_analyst.Prelude.{
  ℕ, ◌≡◌, ◌≤◌, ◌<◌, ◌&&◌, true, some, List, [], ◌∷◌, arith, leb, ltb, length, any, All, ok,
}
use soc_analyst.Pystr.{
  Pystr, is_empty, is_space, rstrip, lstrip, strip, replace_crlf, replace_cr, split_lines,
  join_lines,
}
use soc_analyst.Chunking.{Chunk, chunk_text, normalise}
use soc_analyst.Chunking.Spans.{render, Tiles}
use soc_analyst.Chunking.Cover.{Numbered, chunk_text_covers, chunk_text_bounds}
use soc_analyst.Chunking.Newlines.{NoReturns, to_crlf, normalise-to_crlf}

-- "one two"
abbrev text : Pystr
text = 111 ∷ 110 ∷ 101 ∷ 32 ∷ 116 ∷ 119 ∷ 111 ∷ []

text_long : 4 < length (normalise text)
unfolding normalise rstrip lstrip strip replace_crlf replace_cr split_lines join_lines is_space
    is_empty
text_long = omega arith

chunk_text_covers_example :
    (sp : List (ℕ × ℕ)) × (chunk_text 4 1 text ≡ ok (some (render (normalise text) 0 sp)))
    × Tiles 4 1 (length (normalise text)) 0 sp
    × ((p : ℕ) → p < length (normalise text) → any (λ s. leb s.0 p && ltb p s.1) sp ≡ true)
chunk_text_covers_example = chunk_text_covers 4 1 text (omega arith) text_long

chunk_text_bounds_example :
    (chunks : List Chunk) × (chunk_text 4 1 text ≡ ok (some chunks))
    × All (λ c. IsVisible c.content × (length c.content ≤ 4)) chunks
    × Numbered 0 chunks
chunk_text_bounds_example = chunk_text_bounds 4 1 text (omega arith)

-- "a" and "b" on two lines
abbrev two_lines : Pystr
two_lines = 97 ∷ 10 ∷ 98 ∷ []

two_lines-NoReturns : NoReturns two_lines
two_lines-NoReturns = ground arith

normalise-to_crlf_example : normalise (to_crlf two_lines) ≡ normalise two_lines
normalise-to_crlf_example = normalise-to_crlf two_lines two_lines-NoReturns
