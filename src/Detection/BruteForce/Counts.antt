-- ===== src/Detection/BruteForce/Counts.antt =====
-- The counts that a finding gives are those of the log.
use soc_analyst.Prelude.{
  ◌≤◌, ◌≡◌, ap, ◌∙◌, String, List, [], ◌∷◌, keep, length, ltb, arith, All, All-append, All-mono,
  Bool-cases, inl, inr,
}
use soc_analyst.Pystr.{is_empty}
use soc_analyst.Detection.Types.{DetectionContext}
use soc_analyst.Detection.Grouping.{
  Group, group_by, members_of-group_by, UniqueKeys-group_by, members_of_key,
}
use soc_analyst.Detection.Floats.{Floats}
use soc_analyst.Detection.Signals.{LogEntry, source_of, is_failed_auth}
use soc_analyst.Detection.BruteForce.{
  BruteForceDetector, Target, target_equality, text_equality, target_of, Background, attempts,
  spray, Texts,
}
use soc_analyst.Detection.BruteForce.Targets.{
  measure, attempts_finding, report_targets, per_account,
}
use soc_analyst.Detection.BruteForce.Spraying.{
  distinct_accounts, spray_of, spray_finding, report_sources, spraying, detect,
}
use soc_analyst.Detection.BruteForce.Reports.{failures_of, failures_from}

module _ {F : Type 0} (f : Floats F) (texts : Texts) (d : BruteForceDetector F) where
  -- The number of failures of its target, or of its source, and not below the threshold.
  abbrev pub CountsFailures : List LogEntry → Background F → Type 0
  CountsFailures failures (attempts a) =
      (a.failed_attempts ≡ length (failures_of a.target failures))
      × (d.attempt_threshold ≤ a.failed_attempts)
  CountsFailures failures (spray s) =
      (s.failed_attempts ≡ length (failures_from s.source failures))
      × (s.distinct_accounts ≡ length (distinct_accounts (failures_from s.source failures)))
      × (d.spray_account_threshold ≤ s.distinct_accounts)

  counts-report_targets :
      (failures entries : List LogEntry) (gs : List (Group Target LogEntry))
      → All (λ g. g.members ≡ failures_of g.key failures) gs
      → All (λ x. CountsFailures failures x.background) (report_targets f texts d entries gs)
  unfolding report_targets attempts_finding measure
  counts-report_targets failures entries [] h = tt
  counts-report_targets failures entries (g ∷ gs) h =
      elim (Bool-cases (ltb (length g.members) d.attempt_threshold)) [
        | inl e ↦ rw e (counts-report_targets failures entries gs h.1)
        | inr e ↦
            rw e (
              (ap (λ l. length l) h.0, ground arith),
              counts-report_targets failures entries gs h.1,
            )
      ]

  counts-report_sources :
      (failures entries : List LogEntry) (gs : List (Group String LogEntry))
      → All (λ g. g.members ≡ failures_from g.key failures) gs
      → All (λ x. CountsFailures failures x.background) (report_sources f texts d entries gs)
  unfolding report_sources spray_finding spray_of
  counts-report_sources failures entries [] h = tt
  counts-report_sources failures entries (g ∷ gs) h =
      elim (Bool-cases (ltb (length (distinct_accounts g.members)) d.spray_account_threshold)) [
        | inl e ↦ rw e (counts-report_sources failures entries gs h.1)
        | inr e ↦ rw e (
          (ap (λ l. length l) h.0, ap (λ l. length (distinct_accounts l)) h.0, ground arith),
          counts-report_sources failures entries gs h.1,
        )
      ]

  -- Every finding gives the exact number of failed authentications of its account and source in the
  -- window, or for spraying of its source and of the distinct accounts, and that number is not below
  -- the threshold.
  pub detect-CountsFailures :
      (context : DetectionContext LogEntry)
      → All
          (λ x. CountsFailures (keep (is_failed_auth texts.lower) context.entries) x.background)
          (detect f texts d context)
  unfolding detect per_account spraying
  detect-CountsFailures context =
      let failures = keep (is_failed_auth texts.lower) context.entries in
      let targets = group_by target_of failures in
      let sources = group_by source_of failures in
      elim (Bool-cases (is_empty failures)) [
        | inl e ↦ rw e tt
        | inr e ↦ rw e (
            All-append (λ x. CountsFailures failures x.background)
              (report_targets f texts d context.entries targets)
              (report_sources f texts d context.entries sources)
              (counts-report_targets failures context.entries targets (
                All-mono (λ g h. h ∙ members_of-group_by target_of g.key failures) targets
                  (members_of_key targets (UniqueKeys-group_by target_of failures))))
              (counts-report_sources failures context.entries sources (
                All-mono (λ g h. h ∙ members_of-group_by source_of g.key failures) sources
                  (members_of_key sources (UniqueKeys-group_by source_of failures)))))
      ]
