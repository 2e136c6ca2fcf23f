-- ===== src/Ingestion/Normalizer/Parsing.antt =====
-- The parsers of single values. What they call of the standard library, and the Unicode tables
-- that `str` reads, are the fields of `Library`; `T` is a point in time and `F` a float.
use soc_analyst.Prelude.{
  ℕ, String, Bool, any, ◌&&◌, Option, none, some, List, [], ◌∷◌, take, leb, if◌then◌else◌,
}
use soc_analyst.Enums.{Severity, info, low, medium, high, critical}
use soc_analyst.Pystr.{Pystr, codes, strip, is_empty, same_text}
use soc_analyst.Pystr.Search.{replace}
use soc_analyst.Ingestion.Normalizer.Values.{
  Integer, pos, negsuc, Value, null, boolean, integer, real, text, is_null, is_boolean,
}

pub record Library (F T : Type 0) : Type 0 where
  pub lower : Pystr → Pystr
  -- `str(value)`
  pub str : Value → Pystr
  -- `repr(value)`
  pub repr : Value → Pystr
  -- `text.isdigit()`, of a text that is not empty
  pub is_digits : Pystr → Bool
  -- `re.fullmatch(r"-?\d+(\.\d+)?", text)`
  pub is_numeral : Pystr → Bool
  -- `int(text)`
  pub to_int : Pystr → Option Integer
  -- `float(text)`, and `float(value)`, which raises where the integer is too large
  pub to_float : Pystr → F
  pub float_of : Integer → Option F
  -- `abs(number) >= 10**11`, `number / 1000.0`
  pub is_milliseconds : F → Bool
  pub thousandth : F → F
  -- `datetime.fromtimestamp(number, tz=UTC)`
  pub fromtimestamp : F → Option T
  -- `datetime.fromisoformat` and `datetime.strptime`, a time without a zone read as UTC
  pub fromisoformat : Pystr → Option T
  pub strptime : Pystr → Pystr → Option T
  -- `str(ipaddress.ip_address(text))`
  pub ip_address : Pystr → Option Pystr
  -- `json.loads(text)`
  pub loads : Pystr → Option Value
  pub isoformat : T → Pystr
  pub sha256 : Pystr → Pystr

-- the exceptions that leave `normalize`: of `float` for an integer that is too large, of `int` for a
-- text of digits that it does not read, as a superscript is, and of `encode` for a lone surrogate
pub data Crash : Type 0 where
  overflow bad_digits lone_surrogate : Crash

-- a text that UTF-8 cannot encode
unfoldable pub has_surrogate : Pystr → Bool
has_surrogate t = any (λ c. leb 55296 c && leb c 57343) t

abbrev pub timestamp_formats : List String
timestamp_formats =
    "%Y-%m-%d %H:%M:%S" ∷ "%Y-%m-%d %H:%M:%S.%f" ∷ "%Y/%m/%d %H:%M:%S" ∷ "%d/%b/%Y:%H:%M:%S %z"
    ∷ "%d/%m/%Y %H:%M:%S" ∷ "%m/%d/%Y %H:%M:%S" ∷ "%m/%d/%Y %I:%M:%S %p" ∷ "%b %d %Y %H:%M:%S"
    ∷ "%a, %d %b %Y %H:%M:%S %z" ∷ []

-- `SEVERITY_WORDS`
abbrev pub severity_words : List (String × Severity)
severity_words =
    ("emerg", critical)
    ∷ ("emergency", critical)
    ∷ ("alert", critical)
    ∷ ("crit", critical)
    ∷ ("critical", critical)
    ∷ ("fatal", critical)
    ∷ ("severe", critical)
    ∷ ("err", high)
    ∷ ("error", high)
    ∷ ("high", high)
    ∷ ("warn", medium)
    ∷ ("warning", medium)
    ∷ ("medium", medium)
    ∷ ("notice", low)
    ∷ ("low", low)
    ∷ ("info", info)
    ∷ ("information", info)
    ∷ ("informational", info)
    ∷ ("debug", info)
    ∷ ("trace", info)
    ∷ ("none", info)
    ∷ []

unfoldable pub word_severity : List (String × Severity) → Pystr → Option Severity
word_severity [] t = none
word_severity ((word, severity) ∷ words) t =
    let later = word_severity words t in if same_text t (codes word) then some severity else later

-- `SEVERITY_NUMBERS.get(n)`
unfoldable pub number_severity : Integer → Option Severity
number_severity (negsuc n) = none
number_severity (pos n) =
    if leb n 2
    then some critical
    else if leb n 3
    then some high
    else if leb n 4
    then some medium
    else if leb n 5
    then some low
    else if leb n 7
    then some info
    else none

-- a port of an integer that `int` read
unfoldable pub port_of : Option Integer → Option ℕ
port_of none = none
port_of (some (negsuc n)) = none
port_of (some (pos n)) = if leb n 65535 then some n else none

module _ {F T : Type 0} (lib : Library F T) where
  -- `_from_epoch`
  unfoldable pub from_epoch : F → Option T
  from_epoch number =
      lib.fromtimestamp (if lib.is_milliseconds number then lib.thousandth number else number)

  -- the loop over the formats
  unfoldable pub first_format : List String → Pystr → Option T
  first_format [] t = none
  first_format (f ∷ fs) t =
      let later = first_format fs t in
      elim (lib.strptime t (codes f)) [ none ↦ later | some time ↦ some time ]

  unfoldable pub iso_or_format : Pystr → Option T
  unfolding first_format
  iso_or_format t = elim (lib.fromisoformat (replace (codes "Z") (codes "+00:00") t)) [
    | none ↦ first_format timestamp_formats t
    | some time ↦ some time
  ]

  -- what `parse_timestamp` makes of a stripped text
  unfoldable pub text_timestamp : Pystr → Option T
  unfolding from_epoch iso_or_format
  text_timestamp t =
      if is_empty t
      then none
      else if lib.is_numeral t
      then from_epoch (lib.to_float t)
      else iso_or_format t

  -- Where `timestamp_crash` says that the code raises, the result is not used. A missing field is
  -- `None`. No value of a record is a `datetime`.
  unfoldable pub parse_timestamp : Option Value → Option T
  unfolding from_epoch text_timestamp
  parse_timestamp (some (integer n)) = elim (lib.float_of n) [ none ↦ none | some x ↦ from_epoch x ]
  parse_timestamp (some (real t)) = from_epoch (lib.to_float t)
  parse_timestamp (some (text t)) = text_timestamp (strip t)
  parse_timestamp (some v) = none
  parse_timestamp none = none

  unfoldable pub parse_ip : Option Value → Option Pystr
  parse_ip (some (text t)) = if is_empty (strip t) then none else lib.ip_address (strip t)
  parse_ip (some v) = none
  parse_ip none = none

  -- `value if isinstance(value, str) else str(value)`
  unfoldable pub text_of : Value → Pystr
  text_of (text t) = t
  text_of v = lib.str v

  -- A missing port is `None`, whose text is read like another.
  unfoldable pub parse_port : Option Value → Option ℕ
  unfolding port_of text_of
  parse_port none = port_of (lib.to_int (strip (text_of null)))
  parse_port (some v) = if is_boolean v then none else port_of (lib.to_int (strip (text_of v)))

  -- what `parse_severity` makes of a text in lower case, if it does not raise
  unfoldable pub text_severity : Pystr → Option Severity
  unfolding word_severity number_severity
  text_severity t =
      if is_empty t
      then none
      else if lib.is_digits t
      then elim (lib.to_int t) [ none ↦ none | some n ↦ number_severity n ]
      else word_severity severity_words t

  unfoldable pub parse_severity : Option Value → Option Severity
  unfolding text_severity number_severity text_of
  parse_severity none = none
  parse_severity (some null) = none
  parse_severity (some (boolean b)) = none
  parse_severity (some (integer n)) = number_severity n
  parse_severity (some v) = text_severity (lib.lower (strip (text_of v)))

  unfoldable pub timestamp_crash : Option Value → Option Crash
  timestamp_crash (some (integer n)) = elim (lib.float_of n) [
    | none ↦ some overflow
    | some x ↦ none
  ]
  timestamp_crash (some v) = none
  timestamp_crash none = none

  unfoldable pub digits_crash : Pystr → Option Crash
  digits_crash t =
      if is_empty t
      then none
      else if lib.is_digits t
      then elim (lib.to_int t) [ none ↦ some bad_digits | some n ↦ none ]
      else none

  unfoldable pub severity_crash : Option Value → Option Crash
  unfolding text_of digits_crash
  severity_crash none = none
  severity_crash (some null) = none
  severity_crash (some (boolean b)) = none
  severity_crash (some (integer n)) = none
  severity_crash (some v) = digits_crash (lib.lower (strip (text_of v)))

  unfoldable pub trimmed : ℕ → Pystr → Option Pystr
  trimmed limit t = if is_empty t then none else some (take limit t)

  -- `_clean_text`
  unfoldable pub clean_text : Option Value → ℕ → Option Pystr
  unfolding text_of trimmed
  clean_text none limit = none
  clean_text (some v) limit = if is_null v then none else trimmed limit (strip (text_of v))
