-- ===== src/Ingestion/Pipeline.antt =====
-- backend/app/services/ingestion/pipeline.py: one upload through parse, normalise and insert.
-- Decoding, parsing and normalising are the arguments `decode`, `parse` and `normalize`, as the
-- code calls them; `R` is a record as it was read and `W` the columns of a row. The tables are the
-- log source that the upload is for, the log entries and the job record.
pub mod Accounting
pub mod Batches
pub mod Uploads
use soc_analyst.Prelude.{
  ℕ, zero, suc, ◌+◌, String, ◌==◌, Bool, Option, none, some, List, [], ◌∷◌, ◌++◌, map, ltb,
  if◌then◌else◌, Outcome, ok, raised, length, take, drop,
}
use soc_analyst.Enums.{IngestionStatus, LogSourceStatus}
use soc_analyst.Ingestion.Types.{RowError, IngestionOutcome, Item, readable, unreadable}

-- `INGEST_MAX_REPORTED_ERRORS`, `INGEST_BATCH_SIZE`
pub record Settings : Type 0 where
  pub max_reported_errors : ℕ
  pub batch_size : ℕ

pub record LogSource : Type 0 where
  pub id : ℕ
  pub events_ingested : ℕ
  pub last_ingested_at : Option ℕ
  pub status : LogSourceStatus
  pub last_error : Option (List ℕ)

pub record LogEntry (W : Type 0) : Type 0 where
  pub log_source_id : ℕ
  pub columns : W

pub record IngestionJob : Type 0 where
  pub log_source_id : ℕ
  pub status : IngestionStatus
  pub total_records : ℕ
  pub accepted_records : ℕ
  pub rejected_records : ℕ
  pub errors : List RowError
  pub error_detail : Option (List ℕ)
  pub started_at : ℕ
  pub finished_at : Option ℕ

pub record Tables (W : Type 0) : Type 0 where
  pub source : LogSource
  pub entries : List (LogEntry W)

abbrev pub empty_outcome : IngestionOutcome
empty_outcome = record { total = 0; accepted = 0; rejected = 0; errors = [] }

-- `_report`: keep a bounded sample
pub report : Settings → IngestionOutcome → RowError → IngestionOutcome
report s o e =
    if ltb (length o.errors) s.max_reported_errors
    then record o { errors = o.errors ++ e ∷ [] }
    else o

module _ {R : Type 0} where
  -- the loop of `_collect`, over the items that the parser yields
  pub collect : Settings → List (Item R) → IngestionOutcome → List R × IngestionOutcome
  unfolding report
  collect s [] o = ([], o)
  collect s (unreadable e ∷ items) o =
      collect s items (report s (record o { total = o.total + 1; rejected = o.rejected + 1 }) e)
  collect s (readable r ∷ items) o =
      let (records, o') = collect s items (record o { total = o.total + 1 }) in (r ∷ records, o')

-- what the loop of `_normalize` does with an error that may be missing
pub report_if : Settings → IngestionOutcome → Option RowError → IngestionOutcome
unfolding report
report_if s o none = o
report_if s o (some e) = report s o e

-- The normaliser may raise, which nothing here catches.
module _ {E R W : Type 0} (normalize : R → Outcome E (Option W × Option RowError)) where
  -- `rows.append(values)` in front of what the rest of the loop gives
  pub keep_row : W → Outcome E (List W × IngestionOutcome) → Outcome E (List W × IngestionOutcome)
  keep_row w (raised e) = raised e
  keep_row w (ok (rows, o)) = ok (w ∷ rows, o)

  pub normalize_all : Settings → List R → IngestionOutcome → Outcome E (List W × IngestionOutcome)
  unfolding report_if keep_row
  normalize_all s [] o = ok ([], o)
  normalize_all s (r ∷ records) o = elim (normalize r) [
    | raised e ↦ raised e
    | ok (none, error) ↦
        normalize_all s records (report_if s (record o { rejected = o.rejected + 1 }) error)
    | ok (some w, error) ↦ keep_row w (normalize_all s records o)
  ]

-- `_batches`: the slices `rows[start : start + size]`, on fuel
pub batches {ℓ} : {A : Type ℓ} → ℕ → ℕ → List A → List (List A)
batches zero size rows = []
batches (suc fuel) size [] = []
batches (suc fuel) size (x ∷ rows) = take size (x ∷ rows) ∷ batches fuel size (drop size (x ∷ rows))

module _ {W : Type 0} where
  -- one `INSERT` for each batch
  pub insert_batches : ℕ → List (List W) → List (LogEntry W) → List (LogEntry W)
  insert_batches source_id [] table = table
  insert_batches source_id (b ∷ bs) table =
      insert_batches source_id bs
        (table ++ map (λ w. record { log_source_id = source_id; columns = w }) b)

  pub insert_rows : Settings → ℕ → List W → List (LogEntry W) → List (LogEntry W)
  unfolding batches insert_batches
  insert_rows s source_id rows table =
      insert_batches source_id (batches (length rows) s.batch_size rows) table

-- `_finish`
pub finish : ℕ → IngestionJob → IngestionOutcome → IngestionJob
finish now job o = record job {
  total_records = o.total;
  accepted_records = o.accepted;
  rejected_records = o.rejected;
  errors = o.errors;
  finished_at = some now;
  status =
      if o.accepted == 0
      then IngestionStatus.failed
      else if o.rejected == 0
      then IngestionStatus.completed
      else IngestionStatus.partial;
}

-- `_update_source`
pub update_source : ℕ → LogSource → IngestionOutcome → LogSource
update_source now source o = if o.accepted == 0 then source else record source {
  events_ingested = source.events_ingested + o.accepted;
  last_ingested_at = some now;
  status = LogSourceStatus.active;
  last_error = none;
}

-- `_mark_source_error`
pub mark_source_error : LogSource → List ℕ → LogSource
mark_source_error source detail = record source {
  status = LogSourceStatus.error;
  last_error = some (take 1000 detail);
}

abbrev pub start_job : ℕ → LogSource → IngestionJob
start_job now source = record {
  log_source_id = source.id;
  status = IngestionStatus.running;
  total_records = 0;
  accepted_records = 0;
  rejected_records = 0;
  errors = [];
  error_detail = none;
  started_at = now;
  finished_at = none;
}

module _ {P T E R W : Type 0} (decode : P → Outcome (List ℕ) T)
    (parse : T → Outcome (List ℕ) (List (Item R)))
    (normalize : R → Outcome E (Option W × Option RowError)) where
  -- the file cannot be read: `except UnreadableFileError`
  pub reject_file : ℕ → List ℕ → Tables W → IngestionJob × Tables W
  unfolding mark_source_error
  reject_file now detail t = (
    record (start_job now t.source) {
      status = IngestionStatus.failed;
      error_detail = some detail;
      finished_at = some now;
    },
    record t { source = mark_source_error t.source detail },
  )

  -- the job and the tables, once the rows are there
  pub store : Settings → ℕ → List W → IngestionOutcome → Tables W → IngestionJob × Tables W
  unfolding finish update_source insert_rows
  store s now rows normalized t =
      let o = record normalized { accepted = length rows } in
      (
        finish now (start_job now t.source) o,
        record {
          source = update_source now t.source o;
          entries = insert_rows s t.source.id rows t.entries;
        },
      )

  pub accept_items : Settings → ℕ → List (Item R) → Tables W → Outcome E (IngestionJob × Tables W)
  unfolding store collect normalize_all
  accept_items s now items t =
      let (records, collected) = collect s items empty_outcome in
      elim (normalize_all normalize s records collected) [
        | raised e ↦ raised e
        | ok (rows, normalized) ↦ ok (store s now rows normalized t)
      ]

  -- An exception of the normaliser leaves the function, and its caller does not commit.
  pub ingest_upload : Settings → ℕ → P → Tables W → Outcome E (IngestionJob × Tables W)
  unfolding reject_file accept_items
  ingest_upload s now payload t = elim (decode payload) [
    | raised detail ↦ ok (reject_file now detail t)
    | ok text ↦ elim (parse text) [
      | raised detail ↦ ok (reject_file now detail t)
      | ok items ↦ accept_items s now items t
    ]
  ]
