-- ===== src/Detection/Types.antt =====
-- backend/app/services/detection/types.py, and the rows of backend/app/models/anomaly.py. Scores and
-- confidences are in ten-thousandths, to which the code rounds a score. `L` is a log entry and `D`
-- the data behind a finding: its evidence, features and techniques.
use Prim.Native.String.{◌++◌}
use soc_analyst.Prelude.{ℕ, String, Option, none, some, List, leb, if◌then◌else◌}
use soc_analyst.Enums.{Severity, low, medium, high, critical, AnomalyType, AnomalyStatus}
use soc_analyst.Pystr.{Pystr}

unfoldable pub severity_for : ℕ → Severity
severity_for score =
    if leb 8500 score
    then critical
    else if leb 7000 score
    then high
    else if leb 5000 score
    then medium
    else low

pub record DetectionContext (L : Type 0) : Type 0 where
  pub entries : List L
  pub window_start : ℕ
  pub window_end : ℕ
  pub log_source_id : Option ℕ

pub record Finding (D : Type 0) : Type 0 where
  pub detector : String
  pub detector_version : String
  pub anomaly_type : AnomalyType
  pub title : Pystr
  pub reason : Pystr
  pub score : ℕ
  pub confidence : Option ℕ
  pub log_entry_id : Option ℕ
  pub entity : String
  pub window_key : String
  pub background : D

-- the columns that a run writes
pub record Anomaly (D : Type 0) : Type 0 where
  pub fingerprint : String
  pub log_entry_id : Option ℕ
  pub log_source_id : Option ℕ
  pub title : Pystr
  pub description : Pystr
  pub anomaly_type : AnomalyType
  pub severity : Severity
  pub status : AnomalyStatus
  pub score : ℕ
  pub confidence : Option ℕ
  pub detector : String
  pub detector_version : String
  pub detected_at : ℕ
  pub background : D

-- `str(log_source_id or "")`
source_text : (ℕ → String) → Option ℕ → String
source_text str_uuid none = ""
source_text str_uuid (some i) = str_uuid i

module _ (sha256 : String → String) (str_uuid : ℕ → String) where
  pub fingerprint : {D : Type 0} → Finding D → Option ℕ → String
  unfolding source_text
  fingerprint f log_source_id = sha256 (
      f.detector
      ++ ("|"
          ++ (source_text str_uuid log_source_id ++ ("|" ++ (f.entity ++ ("|" ++ f.window_key))))))

-- the protocol `Detector`
pub record Detector (L D : Type 0) : Type 0 where
  pub name : String
  pub version : String
  pub detect : DetectionContext L → List (Finding D)
