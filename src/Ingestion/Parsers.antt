-- ===== src/Ingestion/Parsers.antt =====
-- backend/app/services/ingestion/parsers.py: the records of a JSON document. `json.loads` and `json.dumps` are not part of this code: a document is a value of `J`, which
-- `view` shows as a list, an object or a value of another named type. `V` is a field's value.
pub mod Records
use Prim.Native.String.{◌++◌}
use soc_analyst.Prelude.{
  ℕ, suc, ◌+◌, Bool, true, false, Option, none, some, List, [], ◌∷◌, map, String, str_eq, Outcome,
  ok, raised, if◌then◌else◌,
}
use soc_analyst.Pystr.{Pystr, is_empty, strip, codes}
use soc_analyst.Ingestion.Types.{RawRecord, RowError, Item, readable, unreadable}

pub data View (J : Type 0) : Type 0 where
  json_list : List J → View J
  json_object : List (String × J) → View J
  json_other : String → View J

abbrev pub envelope_keys : List String
envelope_keys = "events" ∷ "logs" ∷ "records" ∷ "entries" ∷ "data" ∷ "results" ∷ []

-- `document.get(key)`
unfoldable pub lookup {ℓ} : {A : Type ℓ} → String → List (String × A) → Option A
lookup key [] = none
lookup key ((k, v) ∷ fields) = let rest = lookup key fields in if str_eq k key then some v else rest

module _ {J : Type 0} (view : J → View J) where
  -- the loop over the keys: the first that holds a list
  unfoldable pub first_list : List String → List (String × J) → Option (List J)
  first_list [] fields = none
  first_list (key ∷ keys) fields =
      let rest = first_list keys fields in
      elim (lookup key fields) [
        | none ↦ rest
        | some j ↦ elim (view j) [
          | json_list xs ↦ some xs
          | json_object _ ↦ rest
          | json_other _ ↦ rest
        ]
      ]

  abbrev list_or : Option (List J) → J → List J
  list_or none document = document ∷ []
  list_or (some xs) document = xs

  -- `_unwrap`
  unfoldable pub unwrap : J → Outcome Pystr (List J)
  unfolding first_list
  unwrap document = elim (view document) [
    | json_list xs ↦ ok xs
    | json_object fields ↦ ok (list_or (first_list envelope_keys fields) document)
    | json_other type_name ↦ raised (codes ("expected a JSON array or object, found " ++ type_name))
  ]

  module _ (render : List (String × J) → String) where
    unfoldable pub item_of : ℕ → J → Item (RawRecord J)
    item_of line item = elim (view item) [
      | json_object fields ↦ readable (record { line = line; fields = fields; raw = render fields })
      | json_list _ ↦
          unreadable
            (record { line = line; reason = "expected a JSON object, found list"; field = none })
      | json_other type_name ↦ unreadable (record {
        line = line;
        reason = "expected a JSON object, found " ++ type_name;
        field = none;
      })
    ]

    -- `enumerate(records, start=1)`
    unfoldable pub items_from : ℕ → List J → List (Item (RawRecord J))
    unfolding item_of
    items_from line [] = []
    items_from line (item ∷ records) = item_of line item ∷ items_from (line + 1) records

    abbrev pub items_of : Outcome Pystr (List J) → Outcome Pystr (List (Item (RawRecord J)))
    items_of (raised detail) = raised detail
    items_of (ok records) = ok (items_from 1 records)

    module _ (loads : Pystr → Outcome Pystr J) where
      -- `_parse_json`
      unfoldable pub parse_json : Pystr → Outcome Pystr (List (Item (RawRecord J)))
      unfolding unwrap items_from
      parse_json text =
          let document = loads text in
          if is_empty (strip text)
          then raised (codes "file is empty")
          else elim document [ raised detail ↦ raised detail | ok j ↦ items_of (unwrap j) ]
