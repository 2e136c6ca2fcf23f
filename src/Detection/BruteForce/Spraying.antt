-- ===== src/Detection/BruteForce/Spraying.antt =====
-- Password spraying: one source against many accounts, and `detect`.
use Prim.Native.String.{◌++◌ as joined}
use soc_analyst.Prelude.{
  ℕ, String, Bool, false, not, ◌&&◌, Option, none, some, List, [], ◌∷◌, ◌++◌, any, keep, length,
  take, ltb, ◌==◌, str_eq, if◌then◌else◌,
}
use soc_analyst.Prelude.Sorting.{sort_by}
use soc_analyst.Enums.{AnomalyType}
use soc_analyst.Pystr.{Pystr, codes, is_empty, concat}
use soc_analyst.Prompts.{decimal}
use soc_analyst.Detection.Types.{DetectionContext, Finding}
use soc_analyst.Detection.Grouping.{Group, group_by}
use soc_analyst.Detection.Floats.{Floats, scale_score}
use soc_analyst.Detection.Signals.{
  LogEntry, is_auth_event, is_failure, is_failed_auth, source_of, account_of, or_none, sample_ids,
  earliest, latest, prefix,
}
use soc_analyst.Detection.BruteForce.Targets.{per_account}
use soc_analyst.Detection.BruteForce.{
  BruteForceDetector, target_equality, text_equality, Spray, Background, spray, Texts, last_id,
}

-- the distinct accounts of a group
unfoldable pub distinct_accounts : List LogEntry → List String
distinct_accounts [] = []
distinct_accounts (e ∷ es) =
    let rest = distinct_accounts es in
    if any (λ a. str_eq a (account_of e)) rest then rest else account_of e ∷ rest

-- `(entry.source_ip or entry.host) == source`
abbrev pub is_named : String → Option String → Option String → Bool
is_named source (some ip) host = str_eq ip source
is_named source none (some h) = str_eq h source
is_named source none none = false

module _ {F : Type 0} (f : Floats F) (texts : Texts) (d : BruteForceDetector F) where
  -- the source got in somewhere in the window
  unfoldable pub succeeded_anywhere : String → List LogEntry → List LogEntry
  unfolding or_none is_auth_event is_failure
  succeeded_anywhere source entries =
      keep
        (λ e.
          is_named source (or_none e.source_ip) e.host
          && is_auth_event texts.lower e
          && not (is_failure texts.lower e))
        entries

  unfoldable pub spray_of : List LogEntry → Group String LogEntry → Spray
  unfolding distinct_accounts succeeded_anywhere sample_ids
  spray_of entries g = record {
    source = g.key;
    distinct_accounts = length (distinct_accounts g.members);
    accounts = take 20 (sort_by texts.text_le (distinct_accounts g.members));
    failed_attempts = length g.members;
    successful_attempts = length (succeeded_anywhere g.key entries);
    threshold = d.spray_account_threshold;
    first_seen = texts.isoformat (earliest g.members);
    last_seen = texts.isoformat (latest g.members);
    sample_log_entry_ids = sample_ids g.members 10;
  }

  unfoldable pub spray_score : Spray → F
  spray_score s =
      let score =
        scale_score f (f.of_nat s.distinct_accounts) (f.of_nat d.spray_account_threshold)
          (f.of_nat d.spray_account_saturation) in
      if s.successful_attempts == 0
      then score
      else f.minimum (f.hundredths 100) (f.plus score d.success_bonus)

  unfoldable pub spray_reason : Spray → Pystr
  spray_reason s = concat (
      codes s.source
      ∷ codes " failed authentication against "
      ∷ decimal s.distinct_accounts
      ∷ codes " distinct accounts ("
      ∷ decimal s.failed_attempts
      ∷ codes " attempts) between "
      ∷ codes s.first_seen
      ∷ codes " and "
      ∷ codes s.last_seen
      ∷ codes ". Spreading few attempts across many accounts evades per-account lockout."
      ∷ (if s.successful_attempts == 0
          then []
          else concat (
              codes " "
              ∷ decimal s.successful_attempts
              ∷ codes " authentication(s) from this source succeeded in the same window."
              ∷ []))
      ∷ [])

  unfoldable pub spray_finding : Spray → Option ℕ → Finding (Background F)
  unfolding spray_score spray_reason prefix
  spray_finding s entry = record {
    detector = "rule.brute_force";
    detector_version = "2.0";
    anomaly_type = AnomalyType.behavioral;
    title = codes "Password spraying from " ++ codes s.source;
    reason = spray_reason s;
    score = f.ten_thousandths (spray_score s);
    confidence = some (f.ten_thousandths (f.hundredths 80));
    log_entry_id = entry;
    entity = joined "spray|" s.source;
    window_key = prefix 13 s.first_seen;
    background = spray s;
  }

  unfoldable pub report_sources :
      List LogEntry → List (Group String LogEntry) → List (Finding (Background F))
  unfolding spray_of spray_finding last_id
  report_sources entries [] = []
  report_sources entries (g ∷ gs) =
      let rest = report_sources entries gs in
      if ltb (length (distinct_accounts g.members)) d.spray_account_threshold
      then rest
      else spray_finding (spray_of entries g) (last_id g.members) ∷ rest

  unfoldable pub spraying : List LogEntry → List LogEntry → List (Finding (Background F))
  unfolding group_by report_sources
  spraying failures entries = report_sources entries (group_by source_of failures)

  unfoldable pub detect : DetectionContext LogEntry → List (Finding (Background F))
  unfolding is_failed_auth per_account spraying
  detect context =
      let failures = keep (is_failed_auth texts.lower) context.entries in
      if is_empty failures
      then []
      else per_account f texts d failures context.entries ++ spraying failures context.entries
