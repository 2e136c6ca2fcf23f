-- ===== src/Detection/Engine/Analysis.antt =====
-- What a run reports: everything the detectors found, the worst first, and how the table changes.
use mathlib.Core.List.{Perm}
use soc_analyst.Prelude.{
  ℕ, ◌≤◌, ◌≡◌, ◌↔◌, Bool, true, Option, some, List, String, leb, if◌then◌else◌,
}
use soc_analyst.Prelude.Sorting.{IsSortedBy}
use soc_analyst.Detection.Types.{Finding, Anomaly, Detector}
use soc_analyst.Detection.Engine.{
  Columns, DetectionSettings, AnalysisResult, cap_of, load_entries, persist_findings, detect_all,
}

module _ {D : Type 0} where
  abbrev pub worse : Finding D → Finding D → Bool
  worse f g = leb g.score f.score

module _ {L : Type 0} (columns : Columns L) where
  -- the findings of the detectors in the entries of a window, in the order found
  abbrev pub found_in :
      {D : Type 0}
      → DetectionSettings
      → ℕ
      → ℕ
      → Option ℕ
      → Option ℕ
      → List (Detector L D)
      → List L
      → List (Finding D)
  found_in s window_start window_end log_source_id limit ds log =
      detect_all
        (record {
          entries =
              load_entries columns s window_start window_end log_source_id (some (cap_of s limit))
                log;
          window_start = window_start;
          window_end = window_end;
          log_source_id = log_source_id;
        })
        ds

module _ {L D : Type 0} (columns : Columns L) (sha256 : String → String)
    (str_uuid : ℕ → String) where
  -- what a run over a window of entries reports, and the tables behind it
  pub record Reports (s : DetectionSettings) (now window_start window_end : ℕ)
      (log_source_id limit : Option ℕ) (ds : List (Detector L D)) (log : List L)
      (table : List (Anomaly D)) (persist : Bool) (result : AnalysisResult D)
      (table' : List (Anomaly D)) : Type 0 where
    pub sorted : IsSortedBy worse result.findings
    pub complete : Perm result.findings (
        detect_all
          (record {
            entries =
                load_entries columns s window_start window_end log_source_id
                  (some (cap_of s limit))
                  log;
            window_start = window_start;
            window_end = window_end;
            log_source_id = log_source_id;
          })
          ds)
    pub stored : table' ≡ (
        if persist
        then (persist_findings sha256 str_uuid now log_source_id result.findings table).1
        else table)
    pub bounded : result.entries_analysed ≤ cap_of s limit
    pub truncated_iff : (result.truncated ≡ true) ↔ (result.entries_analysed ≡ cap_of s limit)
