-- ===== src/Ingestion/Parsers/Records.antt =====
-- What becomes of each record of a JSON document.
use soc_analyst.Prelude.{
  ℕ, suc, ◌+◌, ◌≡◌, refl, ap, ap₂, false, Option, none, some, List, [], ◌∷◌, map, String, Outcome,
  ok, length, arith,
}
use soc_analyst.Pystr.{Pystr, is_empty, strip}
use soc_analyst.Ingestion.Types.{RawRecord, Item, readable, unreadable}
use soc_analyst.Ingestion.Parsers.{
  View, json_list, json_object, json_other, unwrap, item_of, items_from, parse_json,
}

-- the line of an item, and the fields of a readable one
abbrev pub line_of : {J : Type 0} → Item (RawRecord J) → ℕ
line_of (readable r) = r.line
line_of (unreadable e) = e.line

abbrev pub fields_of : {J : Type 0} → Item (RawRecord J) → Option (List (String × J))
fields_of (readable r) = some r.fields
fields_of (unreadable e) = none

abbrev pub object_fields : {J : Type 0} → View J → Option (List (String × J))
object_fields (json_object fields) = some fields
object_fields (json_list _) = none
object_fields (json_other _) = none

abbrev pub counting_from : {A : Type 0} → ℕ → List A → List ℕ
counting_from n [] = []
counting_from n (x ∷ xs) = n ∷ counting_from (n + 1) xs

module _ {J : Type 0} (view : J → View J) (render : List (String × J) → String) where
  item_of_lem :
      (line : ℕ) (item : J)
      → (line_of (item_of view render line item) ≡ line)
        × (fields_of (item_of view render line item) ≡ object_fields (view item))
  unfolding item_of
  item_of_lem line item = ground arith

  items_from_lem :
      (n : ℕ) (records : List J)
      → (map line_of (items_from view render n records) ≡ counting_from n records)
        × (map fields_of (items_from view render n records)
            ≡ map (λ j. object_fields (view j)) records)
        × (length (items_from view render n records) ≡ length records)
  unfolding items_from
  items_from_lem n [] = (refl, refl, refl)
  items_from_lem n (j ∷ records) =
      let i = item_of_lem n j in
      let ih = items_from_lem (n + 1) records in (ap₂ ◌∷◌ i.0 ih.0, ap₂ ◌∷◌ i.1 ih.1, ap suc ih.2)

  module _ (loads : Pystr → Outcome Pystr J) where
    -- A JSON document in which records are found yields one item for each of them, numbered from 1 in
    -- order; an item is readable, with the record's fields, exactly where the record is an object.
    pub parse_json_records :
        (text : Pystr) (document : J) (records : List J)
        → is_empty (strip text) ≡ false
        → loads text ≡ ok document
        → unwrap view document ≡ ok records
        → (items : List (Item (RawRecord J))) × (parse_json view render loads text ≡ ok items)
          × (map line_of items ≡ counting_from 1 records)
          × (map fields_of items ≡ map (λ j. object_fields (view j)) records)
          × (length items ≡ length records)
    unfolding parse_json
    parse_json_records text document records full l u =
        let (lines, fields, count) = items_from_lem 1 records in
        (items_from view render 1 records, rw (full, l) (rw u refl), lines, fields, count)
