-- ===== src/Chunking.antt =====
-- backend/app/services/rag/chunking.py: splitting a document into overlapping passages.
-- A document is the list of its code points. `_LOOKBACK_FRACTION` leaves 65 hundredths of the way
-- to the hard limit. The loop runs on fuel, and one round more than the text is long is enough.
pub mod Spans
pub mod Cover
pub mod Newlines
use soc_analyst.Prelude.{
  ℕ, zero, suc, ◌+◌, ◌-◌, ◌*◌, ◌/◌, min, max, ◌≡◌, refl, Bool, true, false, ◌&&◌, ◌||◌, Option,
  none, some, List, [], ◌∷◌, ◌++◌, map, arith, leb, ltb, ◌==◌, if◌then◌else◌, length, take, drop,
  Outcome, ok, raised, or_default,
}
use mathlib.Core.Option
use soc_analyst.Pystr.{
  Pystr, is_space, is_empty, rstrip, strip, replace_crlf, replace_cr, split_lines, join_lines,
}

pub record Chunk : Type 0 where
  pub index : ℕ
  pub content : Pystr

unfoldable pub normalise : Pystr → Pystr
unfolding replace_crlf replace_cr split_lines join_lines rstrip strip
normalise text =
    let (line, lines) = split_lines (replace_cr (replace_crlf text)) in
    strip (join_lines (rstrip line) (map rstrip lines))

-- The end of the last match of each pattern in a window, found by `finditer`.

-- `\s`
pub last_whitespace : Pystr → Option ℕ
unfolding is_space
last_whitespace [] = none
last_whitespace (c ∷ cs) = elim (last_whitespace cs) [
  | some e ↦ some (suc e)
  | none ↦ if is_space c then some 1 else none
]

-- `(?<=[.!?])\s`: white space behind a stop, both in the window
pub last_sentence : Pystr → Option ℕ
unfolding is_space
last_sentence [] = none
last_sentence (c ∷ []) = none
last_sentence (c ∷ d ∷ cs) = elim (last_sentence (d ∷ cs)) [
  | some e ↦ some (suc e)
  | none ↦ if (c == 46 || c == 33 || c == 63) && is_space d then some 2 else none
]

-- in a run of white space, the end of its last line feed
pub last_newline_of_run : Pystr → Option ℕ
unfolding is_space
last_newline_of_run [] = none
last_newline_of_run (c ∷ cs) =
    let later = last_newline_of_run cs in
    if is_space c
    then elim later [ some e ↦ some (suc e) | none ↦ if c == 10 then some 1 else none ]
    else none

-- `\n\s*\n`: the last line feed of a run that has two. A run with a line feed behind its first
-- gives one match, which ends with the last of them; a later run's match comes later.
pub last_paragraph : Pystr → Option ℕ
unfolding last_newline_of_run
last_paragraph [] = none
last_paragraph (c ∷ cs) = elim (last_paragraph cs) [
  | some e ↦ some (suc e)
  | none ↦ if c == 10 then Option.map suc (last_newline_of_run cs) else none
]

abbrev slice : ℕ → ℕ → Pystr → Pystr
slice start end text = take (end - start) (drop start text)

-- the first pattern that matches in the window decides, and else the hard end
pub nicest : ℕ → ℕ → Pystr → ℕ
unfolding last_paragraph last_sentence last_whitespace
nicest window_start hard_end window = elim (last_paragraph window) [
  | some e ↦ window_start + e
  | none ↦ elim (last_sentence window) [
    | some e ↦ window_start + e
    | none ↦ elim (last_whitespace window) [ some e ↦ window_start + e | none ↦ hard_end ]
  ]
]

pub boundary : Pystr → ℕ → ℕ → ℕ
unfolding nicest
boundary text start hard_end =
    let window_start = max (start + (hard_end - start) * 65 / 100) (start + 1) in
    nicest window_start hard_end (slice window_start hard_end text)

-- the end of the chunk that begins at `cursor`
pub end_of : ℕ → Pystr → ℕ → ℕ
unfolding boundary
end_of size text cursor =
    let hard_end = min (cursor + size) (length text) in
    if hard_end == length text then hard_end else boundary text cursor hard_end

-- `if piece: chunks.append(...)`
pub chunk_of : ℕ → Pystr → List Chunk
chunk_of index [] = []
chunk_of index (c ∷ piece) = (record { index = index; content = c ∷ piece }) ∷ []

-- `text[cursor:end].strip()`
pub piece_of : Pystr → ℕ → ℕ → Pystr
unfolding strip
piece_of text cursor end = strip (slice cursor end text)

-- the loop, with the number of chunks so far; `none` means that the fuel ran out
pub loop : ℕ → ℕ → ℕ → Pystr → ℕ → ℕ → Option (List Chunk)
unfolding end_of chunk_of piece_of
loop zero size lap text cursor count = none
loop (suc fuel) size lap text cursor count =
    let end = end_of size text cursor in
    let new = chunk_of count (piece_of text cursor end) in
    let rest = loop fuel size lap text (max (end - lap) (cursor + 1)) (count + length new) in
    if ltb cursor (length text)
    then (if leb (length text) end then some new else Option.map (λ later. new ++ later) rest)
    else some []

pub data ValueError : Type 0 where
  chunk_size_not_positive overlap_not_smaller : ValueError

-- what follows the checks and the normalisation
pub chunk_cleaned : ℕ → ℕ → Pystr → Option (List Chunk)
chunk_cleaned size lap cleaned =
    if is_empty cleaned
    then some []
    else if leb (length cleaned) size
    then some ((record { index = 0; content = cleaned }) ∷ [])
    else loop (suc (length cleaned)) size lap cleaned 0 0

-- `size` and `lap` are what the arguments or the settings give. A negative overlap cannot be
-- written here, so the test that refuses one has no counterpart.
pub chunk_text : ℕ → ℕ → Pystr → Outcome ValueError (Option (List Chunk))
chunk_text size lap text =
    if size == 0
    then raised chunk_size_not_positive
    else if leb size lap
    then raised overlap_not_smaller
    else ok (chunk_cleaned size lap (normalise text))
