-- ===== src/Detection/BruteForce/Targets.antt =====
-- Brute force: repeated failures of one source against one account.
use Prim.Native.String.{◌++◌ as joined}
use soc_analyst.Prelude.{
  ℕ, ◌-◌, String, Bool, not, ◌&&◌, Option, some, List, [], ◌∷◌, ◌++◌, keep, length, max, ltb, leb,
  ◌==◌, str_eq, if◌then◌else◌,
}
use soc_analyst.Enums.{AnomalyType}
use soc_analyst.Pystr.{Pystr, codes, concat}
use soc_analyst.Prompts.{decimal}
use soc_analyst.Detection.Types.{Finding}
use soc_analyst.Detection.Grouping.{Group, group_by}
use soc_analyst.Detection.Floats.{Floats, scale_score}
use soc_analyst.Detection.Signals.{
  LogEntry, is_auth_event, is_failure, is_invalid_user, has_auth_penalty, source_of, sample_ids,
  earliest, latest, prefix,
}
use soc_analyst.Detection.BruteForce.{
  BruteForceDetector, Target, target_equality, text_equality, target_of, Attempts, Background,
  attempts, Texts, last_id, named_if,
}

module _ {F : Type 0} (f : Floats F) (texts : Texts) (d : BruteForceDetector F) where
  -- `_attempt_rate`
  unfoldable pub attempt_rate : List LogEntry → F
  unfolding earliest latest
  attempt_rate group =
      f.over (f.times (f.of_nat (length group)) (f.hundredths 6000))
        (f.maximum (f.seconds_between (earliest group) (latest group)) (f.hundredths 100))

  -- `succeeded`: the source got in, after it began to fail
  unfoldable pub succeeded_after : String → ℕ → List LogEntry → List LogEntry
  unfolding source_of is_auth_event is_failure
  succeeded_after source first_failure entries =
      keep
        (λ e.
          str_eq (source_of e) source
          && is_auth_event texts.lower e
          && not (is_failure texts.lower e)
          && leb first_failure e.event_timestamp)
        entries

  abbrev pub flag : Bool → F
  flag b = if b then f.hundredths 100 else f.hundredths 0

  unfoldable pub boost_of : F → F → ℕ → ℕ → F
  boost_of rate_factor invalid_ratio penalties successes = f.minimum (f.hundredths 100) (
      f.plus
        (f.plus
          (f.plus (f.times d.rate_weight rate_factor) (f.times d.invalid_user_weight invalid_ratio))
          (f.times d.penalty_weight (flag (not (penalties == 0)))))
        (f.times d.success_weight (flag (not (successes == 0)))))

  unfoldable pub count_ratio : ℕ → F
  count_ratio count = f.minimum (f.hundredths 100) (
      f.over (f.of_nat (count - d.attempt_threshold))
        (f.of_nat (max (d.attempt_saturation - d.attempt_threshold) 1)))

  -- `min(1.0, base + (1.0 - base) * boost)` to four decimals
  unfoldable pub raised_score : F → F → F
  raised_score base boost =
      f.round_to 4 (
        f.minimum (f.hundredths 100)
          (f.plus base (f.times (f.minus (f.hundredths 100) base) boost)))

  unfoldable pub confidence_of : ℕ → ℕ → F
  unfolding count_ratio
  confidence_of count signals = f.round_to 4 (
      f.minimum (f.hundredths 99) (
        f.plus (f.plus (f.hundredths 60) (f.times (f.hundredths 20) (count_ratio count)))
          (f.times (f.hundredths 8) (f.of_nat signals))))

  unfoldable pub attempts_reason : Attempts F → Pystr
  attempts_reason a = concat (
      decimal a.failed_attempts
      ∷ codes " failed authentication attempts against account "
      ∷ texts.repr a.target.account
      ∷ codes " from "
      ∷ codes a.target.source
      ∷ codes " between "
      ∷ codes a.first_seen
      ∷ codes " and "
      ∷ codes a.last_seen
      ∷ codes ", exceeding the threshold of "
      ∷ decimal a.threshold
      ∷ codes "."
      ∷ [])

  -- the sentences that the corroborating signals add
  unfoldable pub added_reasons : Attempts F → Pystr
  added_reasons a = concat (
      (if f.at_least a.rate_factor (f.hundredths 100)
        then concat (
            codes " Sustained "
            ∷ f.fixed 1 a.attempts_per_minute
            ∷ codes " attempts/minute, at or above the "
            ∷ f.fixed 0 a.machine_rate_threshold
            ∷ codes "/minute expected of an automated tool rather than a person."
            ∷ [])
        else [])
      ∷ (if a.invalid_user_attempts == 0
          then []
          else concat (
              codes " "
              ∷ decimal a.invalid_user_attempts
              ∷ codes
                  " of the attempts targeted an account the system does not recognise, which credential error does not explain."
              ∷ []))
      ∷ (if a.service_penalties == 0
          then []
          else concat (
              codes " The service reported throttling or penalising this client "
              ∷ decimal a.service_penalties
              ∷ codes " time(s)."
              ∷ []))
      ∷ (if a.successful_after_failures == 0
          then []
          else concat (
              codes " "
              ∷ decimal a.successful_after_failures
              ∷ codes
                  " authentication(s) from this source SUCCEEDED after the failures began; treat the credential as compromised."
              ∷ []))
      ∷ [])

  -- what the detector measures of a group
  unfoldable pub measure : List LogEntry → Group Target LogEntry → Attempts F
  unfolding attempt_rate succeeded_after boost_of is_invalid_user has_auth_penalty sample_ids
  measure entries g =
      let group = g.members in
      let count = length group in
      let rate = attempt_rate group in
      let rate_factor = f.minimum (f.hundredths 100) (f.over rate d.machine_rate_per_minute) in
      let invalid_hits = length (keep (is_invalid_user texts.lower) group) in
      let invalid_ratio = f.over (f.of_nat invalid_hits) (f.of_nat count) in
      let penalty_hits = length (keep (has_auth_penalty texts.lower) group) in
      let successes = length (succeeded_after g.key.source (earliest group) entries) in
      record {
        target = g.key;
        failed_attempts = count;
        threshold = d.attempt_threshold;
        attempts_per_minute = rate;
        machine_rate_threshold = d.machine_rate_per_minute;
        invalid_user_attempts = invalid_hits;
        service_penalties = penalty_hits;
        successful_after_failures = successes;
        corroborating_signals =
            named_if (f.at_least rate_factor (f.hundredths 100)) "machine_speed" (
              named_if (not (invalid_hits == 0)) "invalid_user" (
                named_if (not (penalty_hits == 0)) "service_penalty"
                  (named_if (not (successes == 0)) "succeeded_after_failures" [])));
        first_seen = texts.isoformat (earliest group);
        last_seen = texts.isoformat (latest group);
        sample_log_entry_ids = sample_ids group 10;
        base_score =
            scale_score f (f.of_nat count) (f.of_nat d.attempt_threshold)
              (f.of_nat d.attempt_saturation);
        rate_factor = rate_factor;
        invalid_user_ratio = invalid_ratio;
        evidence_boost = boost_of rate_factor invalid_ratio penalty_hits successes;
      }

  unfoldable pub attempts_finding : Attempts F → Option ℕ → Finding (Background F)
  unfolding raised_score confidence_of attempts_reason added_reasons prefix
  attempts_finding a entry = record {
    detector = "rule.brute_force";
    detector_version = "2.0";
    anomaly_type = AnomalyType.threshold;
    title =
        codes "Repeated failed logins for "
        ++ (texts.repr a.target.account ++ (codes " from " ++ codes a.target.source));
    reason = attempts_reason a ++ added_reasons a;
    score = f.ten_thousandths (raised_score a.base_score a.evidence_boost);
    confidence =
        some (f.ten_thousandths (confidence_of a.failed_attempts (length a.corroborating_signals)));
    log_entry_id = entry;
    entity = joined a.target.source (joined "|" a.target.account);
    window_key = prefix 13 a.first_seen;
    background = attempts a;
  }

  -- the loop over the groups
  unfoldable pub report_targets :
      List LogEntry → List (Group Target LogEntry) → List (Finding (Background F))
  unfolding measure attempts_finding last_id
  report_targets entries [] = []
  report_targets entries (g ∷ gs) =
      let rest = report_targets entries gs in
      if ltb (length g.members) d.attempt_threshold
      then rest
      else attempts_finding (measure entries g) (last_id g.members) ∷ rest

  unfoldable pub per_account : List LogEntry → List LogEntry → List (Finding (Background F))
  unfolding group_by report_targets
  per_account failures entries = report_targets entries (group_by target_of failures)
