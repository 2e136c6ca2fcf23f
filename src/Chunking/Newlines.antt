-- ===== src/Chunking/Newlines.antt =====
-- The line endings of an upload do not matter to `normalise`.
use soc_analyst.Prelude.{
  ℕ, ◌≡◌, ◌≢◌, refl, ap, ◌∙◌, sym, false, [], ◌∷◌, map, arith, ◌==◌, if◌then◌else◌, All, Bool-cases,
  inl, inr,
}
use soc_analyst.Pystr.{Pystr, replace_crlf, split_lines, replace_cr, join_lines, rstrip, strip}
use soc_analyst.Chunking.{normalise}

-- the text as an editor with CRLF line endings saves it
pub to_crlf : Pystr → Pystr
to_crlf [] = []
to_crlf (c ∷ cs) = let rest = to_crlf cs in if c == 10 then 13 ∷ 10 ∷ rest else c ∷ rest

abbrev pub NoReturns : Pystr → Type 0
NoReturns = All (λ c. c ≢ 13)

replace_crlf-cons :
    (c : ℕ) (cs : Pystr) → (c == 13) ≡ false → replace_crlf (c ∷ cs) ≡ c ∷ replace_crlf cs
unfolding replace_crlf
replace_crlf-cons c [] h = refl
replace_crlf-cons c (d ∷ cs) h = rw h refl

replace_crlf-pair : (cs : Pystr) → replace_crlf (13 ∷ 10 ∷ cs) ≡ 10 ∷ replace_crlf cs
unfolding replace_crlf
replace_crlf-pair cs = refl

replace_crlf-NoReturns : (t : Pystr) → NoReturns t → replace_crlf t ≡ t
replace_crlf-NoReturns [] h = unfold replace_crlf in refl
replace_crlf-NoReturns (c ∷ t) h =
    replace_crlf-cons c t (ground arith) ∙ ap (λ l. c ∷ l) (replace_crlf-NoReturns t h.1)

replace_crlf-to_crlf : (t : Pystr) → NoReturns t → replace_crlf (to_crlf t) ≡ t
unfolding to_crlf
replace_crlf-to_crlf [] h = unfold replace_crlf in refl
replace_crlf-to_crlf (c ∷ t) h = elim (Bool-cases (c == 10)) [
  | inl e ↦ rw e (
      replace_crlf-pair (to_crlf t)
      ∙ ap (λ l. 10 ∷ l) (replace_crlf-to_crlf t h.1)
      ∙ ap (λ n. n ∷ t) (ground arith))
  | inr e ↦ rw e (
      replace_crlf-cons c (to_crlf t) (ground arith) ∙ ap (λ l. c ∷ l) (replace_crlf-to_crlf t h.1))
]

-- A text without carriage returns and the same text with CRLF line endings normalise alike, so
-- that they are cut into the same chunks.
pub normalise-to_crlf : (t : Pystr) → NoReturns t → normalise (to_crlf t) ≡ normalise t
unfolding normalise
normalise-to_crlf t h = ap lines (replace_crlf-to_crlf t h ∙ sym (replace_crlf-NoReturns t h))
  where
    lines : Pystr → Pystr
    lines s = strip (
        join_lines (rstrip (split_lines (replace_cr s)).0)
          (map rstrip (split_lines (replace_cr s)).1))
