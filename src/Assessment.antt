-- ===== src/Assessment.antt =====
-- backend/app/services/ai/analyzer.py: what the detectors concluded about an incident, and how it
-- binds the severity that a model answers. The data behind an anomaly are read through `Reading`.
-- Confidences are in ten-thousandths, of which the code only takes the larger.
pub mod Severities
use soc_analyst.Prelude.{
  ℕ, ◌==◌, max, leb, ltb, Bool, true, false, ◌||◌, Option, none, some, List, [], ◌∷◌, ◌++◌, String,
  str_eq, any, length, if◌then◌else◌,
}
use soc_analyst.Prelude.Sorting.{sort_by}
use soc_analyst.Enums.{Severity, info, low, medium, high, critical}
use soc_analyst.Detection.Types.{Anomaly}
use soc_analyst.Detection.Registry.{name_le}

-- `_SEVERITY_RANK`
unfoldable pub rank : Severity → ℕ
rank info = 0
rank low = 1
rank medium = 2
rank high = 3
rank critical = 4

-- an anomaly's `corroborating_signals`, and a metric that is there and not null
pub record Reading (D V : Type 0) : Type 0 where
  pub corroborating_signals : D → List String
  pub metric : D → String → Option V

pub record Assessment (V : Type 0) : Type 0 where
  pub severity : Severity
  pub score : ℕ
  pub confidence : ℕ
  pub anomaly_count : ℕ
  pub corroborating_signals : List String
  pub metrics : List (String × V)

abbrev metric_keys : List String
metric_keys =
    "failed_attempts" ∷ "attempts_per_minute" ∷ "invalid_user_attempts" ∷ "service_penalties"
    ∷ "successful_after_failures" ∷ "distinct_accounts" ∷ []

module _ {D : Type 0} where
  -- `max(anomalies, key=score)`: the first of the highest
  unfoldable pub top_of : Anomaly D → List (Anomaly D) → Anomaly D
  top_of best [] = best
  top_of best (a ∷ anomalies) =
      let replaced = top_of a anomalies in
      let kept = top_of best anomalies in if ltb best.score a.score then replaced else kept

  -- `max(confidences) if confidences else 0.0`
  unfoldable pub confidence_of : List (Anomaly D) → ℕ
  confidence_of [] = 0
  confidence_of (a ∷ anomalies) =
      let rest = confidence_of anomalies in elim a.confidence [ none ↦ rest | some c ↦ max c rest ]

-- `corroborating.add(name)`
add_name : String → List String → List String
add_name name names = if any (λ n. str_eq n name) names then names else name ∷ names

add_names : List String → List String → List String
unfolding add_name
add_names [] names = names
add_names (n ∷ ns) names = add_names ns (add_name n names)

module _ {D V : Type 0} (reading : Reading D V) where
  pub signals_of : List (Anomaly D) → List String → List String
  unfolding add_names
  signals_of [] names = names
  signals_of (a ∷ anomalies) names =
      signals_of anomalies (add_names (reading.corroborating_signals a.background) names)

  pub metrics_of : D → List String → List (String × V)
  metrics_of background [] = []
  metrics_of background (key ∷ keys) =
      let rest = metrics_of background keys in
      elim (reading.metric background key) [ none ↦ rest | some v ↦ (key, v) ∷ rest ]

  -- `none` is the empty dict
  unfoldable pub build_assessment : List (Anomaly D) → Option (Assessment V)
  unfolding signals_of metrics_of confidence_of
  build_assessment [] = none
  build_assessment (a ∷ anomalies) =
      let top = top_of a anomalies in
      some (record {
        severity = top.severity;
        score = top.score;
        confidence = confidence_of (a ∷ anomalies);
        anomaly_count = length (a ∷ anomalies);
        corroborating_signals = sort_by name_le (signals_of (a ∷ anomalies) []);
        metrics = metrics_of top.background metric_keys;
      })

-- the fields of the model's answer that are read here, and the `rest`
pub record IncidentAnalysis (R : Type 0) : Type 0 where
  pub severity : Severity
  pub severity_override_reason : Option String
  pub confidence : ℕ
  pub rest : R

-- the note that is stored with the report
pub data SeverityNote : Type 0 where
  unadjusted : SeverityNote
  severity_downgrade_accepted : Severity → Severity → String → SeverityNote
  severity_adjusted : Severity → Severity → SeverityNote

-- `severity_override_reason`, where it is truthy
abbrev pub argument_of : Option String → Option String
argument_of none = none
argument_of (some reason) = if str_eq reason "" then none else some reason

module _ {R : Type 0} where
  -- a severity below the computed one stands only if it was argued for
  unfoldable pub hold :
      Severity → ℕ → IncidentAnalysis R → Option String → IncidentAnalysis R × SeverityNote
  hold floor detector_confidence analysis (some reason) =
      (analysis, severity_downgrade_accepted floor analysis.severity reason)
  hold floor detector_confidence analysis none = (
    record analysis { severity = floor; confidence = max analysis.confidence detector_confidence },
    severity_adjusted analysis.severity floor,
  )

  -- the Boolean is `AI_ENFORCE_DETERMINISTIC_SEVERITY`
  unfoldable pub reconcile_severity :
      {V : Type 0}
      → Bool
      → IncidentAnalysis R
      → Option (Assessment V)
      → IncidentAnalysis R × SeverityNote
  unfolding hold
  reconcile_severity enforce analysis none = (analysis, unadjusted)
  reconcile_severity enforce analysis (some a) =
      let held =
        hold a.severity a.confidence analysis (argument_of analysis.severity_override_reason) in
      if enforce
      then (if leb (rank a.severity) (rank analysis.severity) then (analysis, unadjusted) else held)
      else (analysis, unadjusted)
