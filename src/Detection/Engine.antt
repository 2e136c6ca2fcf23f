-- ===== src/Detection/Engine.antt =====
-- backend/app/services/detection/engine.py: a run of the detectors over a window, and the storing of
-- its findings. The anomaly table is the list of its rows, `now` the clock; a log entry is read
-- through its columns.
pub mod Persistence
pub mod Analysis
use soc_analyst.Prelude.{
  ℕ, ◌+◌, ◌-◌, ◌*◌, ◌==◌, leb, ltb, Bool, true, false, not, ◌&&◌, Option, none, some, or_default,
  List, [], ◌∷◌, ◌++◌, map, String, str_eq, keep, any, elem, length, take, Outcome, ok, raised,
  if◌then◌else◌,
}
use soc_analyst.Prelude.Sorting.{sort_by}
use soc_analyst.Enums.{AnomalyStatus}
use soc_analyst.Detection.Types.{
  DetectionContext, Finding, Anomaly, Detector, fingerprint, severity_for,
}
use soc_analyst.Detection.Registry.{ResolveError, resolve}

-- the columns of a log entry that the query reads
pub record Columns (L : Type 0) : Type 0 where
  pub event_timestamp : L → ℕ
  pub log_source_id : L → Option ℕ

-- `DETECTION_WINDOW_HOURS`, in the clock's unit, and `DETECTION_MAX_ENTRIES`
pub record DetectionSettings : Type 0 where
  pub window : ℕ
  pub max_entries : ℕ

pub record AnalysisResult (D : Type 0) : Type 0 where
  pub window_start : ℕ
  pub window_end : ℕ
  pub entries_analysed : ℕ
  pub detectors_run : List String
  pub findings : List (Finding D)
  pub anomalies : List (Anomaly D)
  pub duplicates_skipped : ℕ
  pub truncated : Bool

pub data AnalyzeError : Type 0 where
  window_reversed : AnalyzeError
  unknown_detectors : ResolveError → AnalyzeError

abbrev pub is_source : Option ℕ → Option ℕ → Bool
is_source none id = true
is_source (some i) none = false
is_source (some i) (some j) = j == i

-- `limit or settings.DETECTION_MAX_ENTRIES`
unfoldable pub cap_of : DetectionSettings → Option ℕ → ℕ
cap_of s none = s.max_entries
cap_of s (some n) = if n == 0 then s.max_entries else n

module _ {L : Type 0} (columns : Columns L) where
  -- the query of `load_entries`
  unfoldable pub load_entries : DetectionSettings → ℕ → ℕ → Option ℕ → Option ℕ → List L → List L
  unfolding cap_of
  load_entries s window_start window_end log_source_id limit table = take (cap_of s limit) (
      sort_by (λ a b. leb (columns.event_timestamp a) (columns.event_timestamp b))
        (keep
          (λ e.
            leb window_start (columns.event_timestamp e)
            && leb (columns.event_timestamp e) window_end
            && is_source log_source_id (columns.log_source_id e))
          table))

module _ {D : Type 0} where
  -- worst first, and in the order found where the scores are equal
  unfoldable pub worst_first : List (Finding D) → List (Finding D)
  worst_first = sort_by (λ f g. leb g.score f.score)

  -- whether a row with the fingerprint is stored
  abbrev pub holds : List (Anomaly D) → String → Bool
  holds table print = any (λ a. str_eq a.fingerprint print) table

  -- `ON CONFLICT DO NOTHING` on the fingerprint, row by row: the table, and how many were inserted
  unfoldable pub insert_missing : List (Anomaly D) → List (Anomaly D) → List (Anomaly D) × ℕ
  insert_missing table [] = (table, 0)
  insert_missing table (r ∷ rows) =
      let skipped = insert_missing table rows in
      let added = insert_missing (table ++ r ∷ []) rows in
      if holds table r.fingerprint then skipped else (added.0, added.1 + 1)

  -- `fingerprint IN (...)`, sorted by score
  unfoldable pub stored_for : List (Anomaly D) → List (Anomaly D) → List (Anomaly D)
  stored_for table rows =
      sort_by (λ a b. leb b.score a.score)
        (keep (λ a. any (λ r. str_eq r.fingerprint a.fingerprint) rows) table)

module _ {D : Type 0} (sha256 : String → String) (str_uuid : ℕ → String) where
  unfoldable pub row_of : ℕ → Option ℕ → Finding D → Anomaly D
  unfolding severity_for
  row_of now log_source_id f = record {
    fingerprint = fingerprint sha256 str_uuid f log_source_id;
    log_entry_id = f.log_entry_id;
    log_source_id = log_source_id;
    title = take 255 f.title;
    description = f.reason;
    anomaly_type = f.anomaly_type;
    severity = severity_for f.score;
    status = AnomalyStatus.new;
    score = f.score;
    confidence = f.confidence;
    detector = f.detector;
    detector_version = f.detector_version;
    detected_at = now;
    background = f.background;
  }

  -- the anomalies, the number of duplicates and the table
  unfoldable pub persist_findings :
      ℕ → Option ℕ → List (Finding D) → List (Anomaly D) → (List (Anomaly D) × ℕ) × List (Anomaly D)
  unfolding insert_missing stored_for
  persist_findings now log_source_id findings table =
      let rows = map (row_of now log_source_id) findings in
      let (table', inserted) = insert_missing table rows in
      ((stored_for table' rows, length rows - inserted), table')

module _ {L D : Type 0} where
  -- the loop over the detectors
  unfoldable pub detect_all : DetectionContext L → List (Detector L D) → List (Finding D)
  detect_all context [] = []
  detect_all context (d ∷ detectors) = d.detect context ++ detect_all context detectors

-- `if persist and findings`
abbrev pub is_worth : {D : Type 0} → Bool → List (Finding D) → Bool
is_worth persist [] = false
is_worth persist (f ∷ findings) = persist

module _ {D : Type 0} (sha256 : String → String) (str_uuid : ℕ → String) where
  unfoldable pub conclude :
      ℕ
      → Option ℕ
      → Bool
      → AnalysisResult D
      → List (Anomaly D)
      → AnalysisResult D × List (Anomaly D)
  conclude now log_source_id persist result table =
      let ((anomalies, duplicates), table') =
        persist_findings sha256 str_uuid now log_source_id result.findings table in
      if is_worth persist result.findings
      then (record result { anomalies = anomalies; duplicates_skipped = duplicates }, table')
      else (result, table)

module _ {L D : Type 0} (columns : Columns L) where
  -- what a run finds, before anything is stored
  unfoldable pub examine :
      DetectionSettings
      → (window_start window_end : ℕ) (log_source_id limit : Option ℕ) → List (Detector L D)
      → List L
      → AnalysisResult D
  unfolding detect_all worst_first load_entries
  examine s window_start window_end log_source_id limit detectors log =
      let cap = cap_of s limit in
      let entries = load_entries columns s window_start window_end log_source_id (some cap) log in
      record {
        window_start = window_start;
        window_end = window_end;
        entries_analysed = length entries;
        detectors_run = map (λ d. d.name) detectors;
        findings = worst_first (
            detect_all
              (record {
                entries = entries;
                window_start = window_start;
                window_end = window_end;
                log_source_id = log_source_id;
              })
              detectors);
        anomalies = [];
        duplicates_skipped = 0;
        truncated = leb cap (length entries);
      }

module _ {L D : Type 0} (columns : Columns L) (sha256 : String → String)
    (str_uuid : ℕ → String) where
  -- `analyze`, once the window is known; the last two arguments are the log and the anomalies
  unfoldable pub analyze_window :
      DetectionSettings
      → List (Detector L D)
      → (now window_start window_end : ℕ) (log_source_id : Option ℕ) → Option (List String)
      → Bool
      → Option ℕ
      → List L
      → List (Anomaly D)
      → Outcome AnalyzeError (AnalysisResult D × List (Anomaly D))
  unfolding examine conclude
  analyze_window s registry now window_start window_end log_source_id names persist limit log
        table =
      if ltb window_end window_start
      then raised window_reversed
      else elim (resolve registry names) [
        | raised e ↦ raised (unknown_detectors e)
        | ok detectors ↦ ok (
            conclude sha256 str_uuid now log_source_id persist
              (examine columns s window_start window_end log_source_id limit detectors log) table)
      ]

  unfoldable pub analyze :
      DetectionSettings
      → List (Detector L D)
      → ℕ
      → (window_start window_end log_source_id : Option ℕ) → Option (List String)
      → Bool
      → Option ℕ
      → List L
      → List (Anomaly D)
      → Outcome AnalyzeError (AnalysisResult D × List (Anomaly D))
  unfolding analyze_window
  analyze s registry now window_start window_end log_source_id names persist limit log table =
      let last = or_default window_end now in
      analyze_window s registry now (or_default window_start (last - s.window)) last log_source_id
        names persist limit log table
