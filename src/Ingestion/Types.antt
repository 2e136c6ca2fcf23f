-- ===== src/Ingestion/Types.antt =====
-- backend/app/services/ingestion/types.py: the values that the stages hand on.
use soc_analyst.Prelude.{ℕ, Option, List, String}

-- `V` is the type of the values in a record
pub record RawRecord (V : Type 0) : Type 0 where
  pub line : ℕ
  pub fields : List (String × V)
  pub raw : String

pub record RowError : Type 0 where
  pub line : ℕ
  pub reason : String
  pub field : Option String

pub record IngestionOutcome : Type 0 where
  pub total : ℕ
  pub accepted : ℕ
  pub rejected : ℕ
  pub errors : List RowError

-- what a parser yields for a row: a record it could read, or why it could not
pub data Item (R : Type 0) : Type 0 where
  readable : R → Item R
  unreadable : RowError → Item R
