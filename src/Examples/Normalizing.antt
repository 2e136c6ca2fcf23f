-- ===== src/Examples/Normalizing.antt =====
-- A record with two spellings of one column and a field that no column has.
use soc_analyst.Prelude.{ok, ℕ, ◌≡◌, refl, none, some, [], ◌∷◌, false}
use soc_analyst.Pystr.{codes, strip, is_space, same_text, lstrip, rstrip}
use soc_analyst.Ingestion.Normalizer.Values.{pos, integer, text, get, set, set_default}
use soc_analyst.Ingestion.Normalizer.Parsing.{
  Library, parse_ip, clean_text, has_surrogate, timestamp_crash, severity_crash, parse_timestamp,
  from_epoch,
}
use soc_analyst.Ingestion.Normalizer.Keys.{
  underscored, trim_end, trim_start, canonical_key, named, lookup_in, lookup, is_metadata,
  is_key_char,
}
use soc_analyst.Ingestion.Normalizer.{
  Raw, Columns, scan, absorb, place, nothing_read, columns_of, identity, encoded, finish_record,
  normalize,
}
use soc_analyst.Ingestion.Normalizer.Bounds.{RowOrError, normalize-RowOrError}
use soc_analyst.Ingestion.Normalizer.Rows.{FromFields, normalize-FromFields}

abbrev plain_library : Library ℕ ℕ
plain_library = record {
  lower = λ s. s;
  str = λ v. codes "value";
  repr = λ v. codes "value";
  is_digits = λ t. false;
  is_numeral = λ t. false;
  to_int = λ t. some (pos 22);
  to_float = λ t. 0;
  float_of = λ n. some 7;
  is_milliseconds = λ n. false;
  thousandth = λ n. n;
  fromtimestamp = λ n. some n;
  fromisoformat = λ t. none;
  strptime = λ t f. none;
  ip_address = λ t. some t;
  loads = λ t. none;
  isoformat = λ n. codes "1970";
  sha256 = λ t. t;
}

abbrev event : Raw
event = record {
  line = 3;
  fields =
      record { key = codes "ts"; value = integer (pos 7) }
      ∷ record { key = codes "src ip"; value = text (codes "10.0.0.1") }
      ∷ record { key = codes "source"; value = text (codes "sensor") }
      ∷ record { key = codes "session"; value = text (codes "a1") }
      ∷ [];
  raw = codes "line three";
}

normalize-RowOrError_example : RowOrError plain_library event (normalize plain_library event)
normalize-RowOrError_example = normalize-RowOrError plain_library event

abbrev event_row : Columns ℕ
event_row = columns_of plain_library event (scan plain_library event.fields nothing_read) 7

event-row : normalize plain_library event ≡ ok (some event_row, none)
unfolding parse_ip clean_text normalize finish_record encoded identity has_surrogate columns_of
    timestamp_crash severity_crash parse_timestamp from_epoch scan absorb place get set underscored
    trim_end trim_start canonical_key strip is_space same_text named lookup_in lookup is_metadata
    is_key_char set_default lstrip rstrip
event-row = refl

normalize-FromFields_example : FromFields plain_library event event_row
normalize-FromFields_example = normalize-FromFields plain_library event event_row event-row
