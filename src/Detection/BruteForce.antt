-- ===== src/Detection/BruteForce.antt =====
-- backend/app/services/detection/detectors/brute_force.py. `Texts` is what the detector calls to
-- write its findings; the settings are the detector's fields.
pub mod Targets
pub mod Spraying
pub mod Reports
pub mod Counts
use Prim.Native.String.{◌++◌ as joined}
use soc_analyst.Prelude.{
  ℕ, suc, ◌-◌, ◌≡◌, ◌↔◌, String, Bool, true, false, not, ◌&&◌, Option, none, some, List, [], ◌∷◌,
  ◌++◌, map, any, keep, length, max, take, ltb, leb, ◌==◌, arith, str_eq, eq_iff, elem, is_some,
  if◌then◌else◌,
}
use soc_analyst.Prelude.Sorting.{sort_by}
use soc_analyst.Enums.{AnomalyType}
use soc_analyst.Pystr.{Pystr, codes, is_empty, concat}
use soc_analyst.Prompts.{decimal}
use soc_analyst.Detection.Types.{DetectionContext, Finding}
use soc_analyst.Detection.Grouping.{Group, KeyEquality, group_by}
use soc_analyst.Detection.Floats.{Floats, scale_score}
use soc_analyst.Detection.Signals.{
  LogEntry, is_auth_event, is_failure, is_failed_auth, is_invalid_user, has_auth_penalty, source_of,
  account_of, or_none, sample_ids, earliest, latest, prefix,
}

pub record BruteForceDetector (F : Type 0) : Type 0 where
  pub attempt_threshold : ℕ
  pub attempt_saturation : ℕ
  pub machine_rate_per_minute : F
  pub rate_weight : F
  pub invalid_user_weight : F
  pub penalty_weight : F
  pub success_weight : F
  pub spray_account_threshold : ℕ
  pub spray_account_saturation : ℕ
  pub success_bonus : F

-- `(source, account)`
pub record Target : Type 0 where
  pub source : String
  pub account : String

abbrev pub same_target : Target → Target → Bool
same_target a b = str_eq a.source b.source && str_eq a.account b.account

pub same_target_iff : (a b : Target) → (same_target a b ≡ true) ↔ (a ≡ b)
same_target_iff a b = ground (arith, eq_iff a.source b.source, eq_iff a.account b.account)

instance abbrev pub target_equality : KeyEquality Target
target_equality = record { same = same_target; same_iff = same_target_iff }

instance abbrev pub text_equality : KeyEquality String
text_equality = record { same = str_eq; same_iff = eq_iff }

abbrev pub target_of : LogEntry → Target
target_of e = record { source = source_of e; account = account_of e }

-- `evidence` and `features` of the two kinds of finding
pub record Attempts (F : Type 0) : Type 0 where
  pub target : Target
  pub failed_attempts : ℕ
  pub threshold : ℕ
  pub attempts_per_minute : F
  pub machine_rate_threshold : F
  pub invalid_user_attempts : ℕ
  pub service_penalties : ℕ
  pub successful_after_failures : ℕ
  pub corroborating_signals : List String
  pub first_seen : String
  pub last_seen : String
  pub sample_log_entry_ids : List ℕ
  pub base_score : F
  pub rate_factor : F
  pub invalid_user_ratio : F
  pub evidence_boost : F

pub record Spray : Type 0 where
  pub source : String
  pub distinct_accounts : ℕ
  pub accounts : List String
  pub failed_attempts : ℕ
  pub successful_attempts : ℕ
  pub threshold : ℕ
  pub first_seen : String
  pub last_seen : String
  pub sample_log_entry_ids : List ℕ

pub data Background (F : Type 0) : Type 0 where
  attempts : Attempts F → Background F
  spray : Spray → Background F

-- `str.lower`, `repr` of a text, `isoformat` of a timestamp and the order of texts
pub record Texts : Type 0 where
  pub lower : String → String
  pub repr : String → Pystr
  pub isoformat : ℕ → String
  pub text_le : String → String → Bool

-- `group[-1].id`
unfoldable pub last_id : List LogEntry → Option ℕ
last_id [] = none
last_id (e ∷ []) = some e.id
last_id (e ∷ f ∷ fs) = last_id (f ∷ fs)

-- the names whose flag is set
abbrev pub named_if : Bool → String → List String → List String
named_if true name names = name ∷ names
named_if false name names = names
