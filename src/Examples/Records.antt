-- ===== src/Examples/Records.antt =====
-- A document that wraps two records, one of which is not an object.
use soc_analyst.Prelude.{
  ◌≡◌, refl, false, none, some, String, List, [], ◌∷◌, Outcome, ok, map, length,
}
use soc_analyst.Pystr.{Pystr, is_empty, strip, lstrip, rstrip, is_space}
use soc_analyst.Ingestion.Types.{RawRecord, Item}
use soc_analyst.Ingestion.Parsers.{
  View, json_list, json_object, json_other, unwrap, first_list, lookup, parse_json,
}
use soc_analyst.Ingestion.Parsers.Records.{line_of, fields_of, parse_json_records}

data Document : Type 0 where
  whole logs entry five : Document

abbrev view : Document → View Document
view whole = json_object (("logs", logs) ∷ [])
view logs = json_list (entry ∷ five ∷ [])
view entry = json_object []
view five = json_other "int"

abbrev records : List Document
records = entry ∷ five ∷ []

abbrev render : List (String × Document) → String
render fields = "{}"

abbrev loads : Pystr → Outcome Pystr Document
loads text = ok whole

-- "{"
abbrev text : Pystr
text = 123 ∷ []

text_full : is_empty (strip text) ≡ false
unfolding strip lstrip rstrip is_space
text_full = refl

two_records : unwrap view whole ≡ ok records
unfolding unwrap first_list lookup
two_records = refl

-- the second record is not an object
parse_two :
    (items : List (Item (RawRecord Document))) × (parse_json view render loads text ≡ ok items)
    × (map line_of items ≡ 1 ∷ 2 ∷ [])
    × (map fields_of items ≡ some [] ∷ none ∷ [])
    × (length items ≡ 2)
parse_two = parse_json_records view render loads text whole records text_full refl two_records
