-- ===== src/Prompts.antt =====
-- backend/app/services/ai/prompts.py: neutralising untrusted text, and the prompt of a case as the
-- code points that are sent. `field_limit` is `settings.AI_MAX_FIELD_CHARS`.
pub mod Markers
pub mod Json
pub mod Dumps
pub mod Case
pub mod Calm
pub mod Fences
use soc_analyst.Prelude.{
  ℕ, zero, suc, ◌+◌, ◌-◌, ◌/◌, ◌%◌, Option, some, none, Bool, List, [], ◌∷◌, ◌++◌, length, take,
  drop, ltb, if◌then◌else◌, or_default,
}
use soc_analyst.Pystr.{Pystr, codes}
use soc_analyst.Pystr.Search.{replace}

abbrev pub fence : Pystr
fence = codes "<<<UNTRUSTED_DATA>>>"

abbrev pub fence_end : Pystr
fence_end = codes "<<<END_UNTRUSTED_DATA>>>"

abbrev pub opening : Pystr
opening = codes "<<<"

abbrev pub closing : Pystr
closing = codes ">>>"

-- the code point U+200B, ZERO WIDTH SPACE
abbrev pub zero_width : ℕ
zero_width = 8203

-- `marker[:2] + "\u200b" + marker[2:]`
abbrev pub broken : Pystr → Pystr
broken marker = take 2 marker ++ zero_width ∷ drop 2 marker

-- one round of the loop over the markers
unfoldable pub break_marker : Pystr → Pystr → Pystr
unfolding replace
break_marker marker text = replace marker (broken marker) text

digits_before : ℕ → ℕ → Pystr → Pystr
digits_before zero n later = later
digits_before (suc fuel) n later =
    let more = digits_before fuel (n / 10) ((48 + n % 10) ∷ later) in
    if ltb n 10 then (48 + n) ∷ later else more

-- `str(n)`
unfoldable pub decimal : ℕ → Pystr
unfolding digits_before
decimal n = digits_before (suc n) n []

unfoldable pub truncated : ℕ → Pystr → Pystr
unfolding decimal
truncated limit text =
    if ltb limit (length text)
    then take limit text
      ++ (codes "... [truncated, " ++ (decimal (length text - limit) ++ codes " more characters]"))
    else text

unfoldable pub break_markers : Pystr → Pystr
unfolding break_marker
break_markers text =
    break_marker closing (break_marker opening (break_marker fence_end (break_marker fence text)))

module _ (field_limit : ℕ) where
  unfoldable pub neutralise : Pystr → Option ℕ → Pystr
  unfolding truncated break_markers
  neutralise text limit = break_markers (truncated (or_default limit field_limit) text)
