-- ===== src/Ingestion/Pipeline/Uploads.antt =====
-- What an upload leaves behind: the job record, the rows and the source's counters.
use soc_analyst.Prelude.{
  ℕ, ◌+◌, ◌<◌, ◌≡◌, ◌↔◌, ◌⊎◌, Option, some, List, ◌++◌, Outcome, ok, raised, length, take, ◌==◌,
  if◌then◌else◌, is_some, true, none,
}
use soc_analyst.Enums.{IngestionStatus}
use soc_analyst.Ingestion.Types.{RowError, Item}
use soc_analyst.Ingestion.Pipeline.{Settings, IngestionJob, Tables}
use soc_analyst.Ingestion.Pipeline.Accounting.{
  records_of, unreadable_of, first_crash, rows_of, errors_of,
}
use soc_analyst.Ingestion.Pipeline.Batches.{entries_for}

-- the status that counts stand for
abbrev pub status_of : ℕ → ℕ → IngestionStatus
status_of accepted rejected =
    if accepted == 0
    then IngestionStatus.failed
    else if rejected == 0
    then IngestionStatus.completed
    else IngestionStatus.partial

-- A job's counts add up, and its status says whether nothing, a part or all of it was accepted.
pub record IsAccounted (job : IngestionJob) : Type 0 where
  pub counted : job.total_records ≡ job.accepted_records + job.rejected_records
  pub failed_iff : (job.status ≡ IngestionStatus.failed) ↔ (job.accepted_records ≡ 0)
  pub completed_iff :
      (job.status ≡ IngestionStatus.completed)
      ↔ ((0 < job.accepted_records) × (job.rejected_records ≡ 0))
  pub partial_iff :
      (job.status ≡ IngestionStatus.partial)
      ↔ ((0 < job.accepted_records) × (0 < job.rejected_records))
  pub finished : is_some job.finished_at ≡ true

module _ {P T E R W : Type 0} (decode : P → Outcome (List ℕ) T)
    (parse : T → Outcome (List ℕ) (List (Item R)))
    (normalize : R → Outcome E (Option W × Option RowError)) where
  -- what a readable file leaves behind
  pub record Ingested (s : Settings) (now : ℕ) (items : List (Item R)) (t : Tables W)
      (job : IngestionJob) (t' : Tables W) : Type 0 where
    pub accounted : IsAccounted job
    pub total : job.total_records ≡ length items
    pub accepted : job.accepted_records ≡ length (rows_of normalize (records_of items))
    pub reported :
        job.errors
        ≡ take s.max_reported_errors (unreadable_of items ++ errors_of normalize (records_of items))
    pub stored :
        t'.entries ≡ t.entries ++ entries_for t.source.id (rows_of normalize (records_of items))
    pub counter : t'.source.events_ingested ≡ t.source.events_ingested + job.accepted_records
    pub same_source : t'.source.id ≡ t.source.id

  -- the exception of the first record that raises one, or an upload that is accounted for
  abbrev pub CrashesOrIngests :
      Settings → ℕ → List (Item R) → Tables W → Outcome E (IngestionJob × Tables W) → Type 0
  CrashesOrIngests s now items t out =
      ((e : E) × (first_crash normalize (records_of items) ≡ some e) × (out ≡ raised e))
      ⊎ ((job : IngestionJob) × (t' : Tables W) × (first_crash normalize (records_of items) ≡ none)
          × (out ≡ ok (job, t'))
          × Ingested s now items t job t')
