-- ===== src/Examples/Findings.antt =====
-- Two detectors over a log of numbers, each of which is its own time.
use mathlib.Core.List.{Memᴰ}
use soc_analyst.Prelude.Sorting.{IsSortedBy}
use soc_analyst.Detection.Registry.{name_le}
use mathlib.Core.List.{Perm}
use soc_analyst.Prelude.{
  ℕ, ◌-◌, ◌≤◌, ◌≡◌, ◌≢◌, refl, true, not, none, some, String, List, [], ◌∷◌, ◌++◌, ok, raised, All,
  keep, length,
}
use soc_analyst.Enums.{Severity, AnomalyType}
use soc_analyst.Detection.Types.{Finding, Anomaly, Detector, fingerprint}
use soc_analyst.Detection.Registry.{key_error, is_known, resolve}
use soc_analyst.Detection.Registry.Resolution.{Resolves, resolve_known, resolve_unknown}
use soc_analyst.Detection.Engine.{Columns, DetectionSettings, holds, persist_findings, row_of}
use soc_analyst.Detection.Engine.Persistence.{
  DistinctPrints, persist_findings_lem, persist_findings_again,
}
use soc_analyst.Assessment.{rank, Reading, Assessment, build_assessment, IncidentAnalysis}
use soc_analyst.Assessment.Severities.{Graded, build_assessment_highest}

abbrev finding : String → ℕ → Finding ℕ
finding entity score = record {
  detector = "burst";
  detector_version = "1.0";
  anomaly_type = AnomalyType.threshold;
  title = [];
  reason = [];
  score = score;
  confidence = some 5000;
  log_entry_id = none;
  entity = entity;
  window_key = "w";
  background = 0;
}

abbrev burst : Detector ℕ ℕ
burst = record {
  name = "burst";
  version = "1.0";
  detect = λ c. finding "a" 4000 ∷ finding "b" 9000 ∷ [];
}

abbrev quiet : Detector ℕ ℕ
quiet = record { name = "quiet"; version = "1.0"; detect = λ c. [] }

abbrev registry : List (Detector ℕ ℕ)
registry = quiet ∷ burst ∷ []

burst_known : All (λ n. is_known registry n ≡ true) ("burst" ∷ "quiet" ∷ [])
unfolding is_known
burst_known = (refl, (refl, tt))

resolve_known_example :
    (ds : List (Detector ℕ ℕ)) × (resolve registry (some ("burst" ∷ "quiet" ∷ [])) ≡ ok ds)
    × Resolves registry ("burst" ∷ "quiet" ∷ []) ds
resolve_known_example = resolve_known registry ("burst" ∷ "quiet" ∷ []) burst_known

brust_unknown : keep (λ n. not (is_known registry n)) ("brust" ∷ []) ≢ []
unfolding is_known
brust_unknown = λ e. cc

resolve_unknown_example :
    (unknown : List String) × (resolve registry (some ("brust" ∷ [])) ≡ raised (key_error unknown))
    × Perm unknown (keep (λ n. not (is_known registry n)) ("brust" ∷ []))
    × IsSortedBy name_le unknown
resolve_unknown_example = resolve_unknown registry ("brust" ∷ []) brust_unknown

abbrev digest : String → String
digest s = s

abbrev str_uuid : ℕ → String
str_uuid n = "source"

abbrev found : List (Finding ℕ)
found = finding "b" 9000 ∷ finding "a" 4000 ∷ []

persist_findings_lem_example :
    let ((anomalies, duplicates), table') = persist_findings digest str_uuid 9 none found [] in
    (added : List (Anomaly ℕ)) × (table' ≡ [] ++ added)
    × (duplicates ≡ length found - length added)
    × DistinctPrints table'
    × All (λ f. holds table' (fingerprint digest str_uuid f none) ≡ true) found
persist_findings_lem_example = persist_findings_lem digest str_uuid 9 none found [] tt

persist_findings_again_example :
    let (first, table') = persist_findings digest str_uuid 9 none found [] in
    let ((anomalies, duplicates), table'') =
      persist_findings digest str_uuid 12 none found table' in
    (table'' ≡ table') × (duplicates ≡ length found)
persist_findings_again_example = persist_findings_again digest str_uuid 9 12 none found []

abbrev columns : Columns ℕ
columns = record { event_timestamp = λ n. n; log_source_id = λ n. none }

abbrev settings : DetectionSettings
settings = record { window = 24; max_entries = 2 }

abbrev reading : Reading ℕ ℕ
reading = record { corroborating_signals = λ n. []; metric = λ n key. none }

abbrev anomalies : List (Anomaly ℕ)
anomalies = row_of digest str_uuid 9 none (finding "b" 9000) ∷ []

rows-Graded : All Graded (
    row_of digest str_uuid 9 none (finding "a" 4000)
    ∷ row_of digest str_uuid 9 none (finding "b" 9000)
    ∷ [])
unfolding row_of
rows-Graded = (refl, (refl, tt))

build_assessment_highest_example :
    (x : Assessment ℕ) × (build_assessment reading
        (row_of digest str_uuid 9 none (finding "a" 4000) ∷ anomalies)
      ≡ some x)
    × ((t : Anomaly ℕ) × Memᴰ t (row_of digest str_uuid 9 none (finding "a" 4000) ∷ anomalies)
        × (x.severity ≡ t.severity)
        × (x.score ≡ t.score))
    × All
        (λ b. (b.score ≤ x.score) × (rank b.severity ≤ rank x.severity))
        (row_of digest str_uuid 9 none (finding "a" 4000) ∷ anomalies)
build_assessment_highest_example =
    build_assessment_highest reading (row_of digest str_uuid 9 none (finding "a" 4000)) anomalies
      rows-Graded

-- a model that plays down a critical assessment
abbrev calm : IncidentAnalysis ℕ
calm = record {
  severity = Severity.medium;
  severity_override_reason = none;
  confidence = 3000;
  rest = 0;
}

abbrev assessed : Assessment ℕ
assessed = record {
  severity = Severity.critical;
  score = 9000;
  confidence = 5000;
  anomaly_count = 2;
  corroborating_signals = [];
  metrics = [];
}
