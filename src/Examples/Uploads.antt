-- ===== src/Examples/Uploads.antt =====
-- An upload of three rows, one of which cannot be read, into batches of two.
use soc_analyst.Prelude.{
  ℕ, Option, none, some, List, [], ◌∷◌, Outcome, ok, raised, if◌then◌else◌, ltb, ◌==◌,
}
use soc_analyst.Enums.{LogSourceStatus}
use soc_analyst.Ingestion.Types.{RowError, Item, readable, unreadable}
use soc_analyst.Ingestion.Pipeline.{Settings, Tables}

abbrev settings : Settings
settings = record { max_reported_errors = 1; batch_size = 2 }

abbrev bad_row : RowError
bad_row = record { line = 2; reason = "too short"; field = none }

abbrev items : List (Item ℕ)
items = readable 5 ∷ unreadable bad_row ∷ readable 6 ∷ []

-- a payload of 0 is not text, and one of 1 has no records
abbrev decode : ℕ → Outcome (List ℕ) ℕ
decode n = if ltb 0 n then ok n else raised (110 ∷ [])

abbrev parse : ℕ → Outcome (List ℕ) (List (Item ℕ))
parse n = if ltb 1 n then ok items else raised (101 ∷ [])

-- a record of 9 makes it raise
abbrev normalize : ℕ → Outcome ℕ (Option ℕ × Option RowError)
normalize n = if n == 9 then raised n else ok (some n, none)

abbrev tables : Tables ℕ
tables = record {
  source = record {
    id = 3;
    events_ingested = 10;
    last_ingested_at = none;
    status = LogSourceStatus.pending;
    last_error = none;
  };
  entries = [];
}

abbrev numbers : List ℕ
numbers = 5 ∷ 6 ∷ 7 ∷ []
