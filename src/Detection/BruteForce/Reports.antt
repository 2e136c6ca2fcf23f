-- ===== src/Detection/BruteForce/Reports.antt =====
-- Which targets and which sources the detector reports, and with what counts.
use soc_analyst.Prelude.{
  ◌<◌, ◌≡◌, refl, ap, ◌∙◌, String, Bool, true, false, ◌&&◌, ◌||◌, List, [], ◌∷◌, ◌++◌, any, keep,
  length, ltb, leb, arith, str_eq, eq_iff, subst, Bool-cases, inl, inr,
}
use soc_analyst.Pystr.{is_empty}
use soc_analyst.Detection.Types.{Finding, DetectionContext}
use soc_analyst.Detection.Grouping.{
  Group, group_by, members_of-group_by, UniqueKeys-group_by, any-UniqueKeys,
}
use soc_analyst.Detection.Floats.{Floats}
use soc_analyst.Detection.Signals.{LogEntry, source_of, account_of, is_failed_auth}
use soc_analyst.Detection.BruteForce.{
  BruteForceDetector, Target, same_target, target_equality, text_equality, target_of, Background,
  attempts, spray, Texts,
}
use soc_analyst.Detection.BruteForce.Targets.{
  measure, attempts_finding, report_targets, per_account,
}
use soc_analyst.Detection.BruteForce.Spraying.{
  distinct_accounts, spray_of, spray_finding, report_sources, spraying, detect,
}

-- the failures of one source against one account, and of one source
abbrev pub failures_of : Target → List LogEntry → List LogEntry
failures_of target failures = keep (λ e. same_target target (target_of e)) failures

abbrev pub failures_from : String → List LogEntry → List LogEntry
failures_from source failures = keep (λ e. str_eq source (source_of e)) failures

module _ {F : Type 0} where
  -- a finding that says that the target was attacked
  abbrev pub is_about : Target → Background F → Bool
  is_about target (attempts a) = same_target target a.target
  is_about target (spray s) = false

  abbrev pub is_spray_of : String → Background F → Bool
  is_spray_of source (attempts a) = false
  is_spray_of source (spray s) = str_eq source s.source

-- no name twice
abbrev pub IsDistinct : List String → Type 0
IsDistinct [] = Unit
IsDistinct (n ∷ ns) = (any (λ m. str_eq m n) ns ≡ false) × IsDistinct ns

-- The names are the accounts of some entries, each of them once.
pub record Enumerates (names : List String) (entries : List LogEntry) : Type 0 where
  pub distinct : IsDistinct names
  pub listed :
      (a : String) → any (λ n. str_eq n a) names ≡ any (λ e. str_eq (account_of e) a) entries

distinct_accounts-listed :
    (entries : List LogEntry) (a : String)
    → any (λ n. str_eq n a) (distinct_accounts entries) ≡ any (λ e. str_eq (account_of e) a) entries
unfolding distinct_accounts
distinct_accounts-listed [] a = refl
distinct_accounts-listed (e ∷ es) a =
    elim (Bool-cases (any (λ n. str_eq n (account_of e)) (distinct_accounts es))) [
      | inr fresh ↦
          rw fresh (ap (λ b. str_eq (account_of e) a || b) (distinct_accounts-listed es a))
      | inl seen ↦ elim (Bool-cases (str_eq (account_of e) a)) [
        | inl same ↦ rw seen (
            ground (
              arith,
              same,
              subst (λ n. any (λ m. str_eq m n) (distinct_accounts es) ≡ true)
                  ((eq_iff (account_of e) a).0 same) seen,
            ))
        | inr other ↦ rw seen (ground (arith, other, distinct_accounts-listed es a))
      ]
    ]

distinct_accounts-IsDistinct : (entries : List LogEntry) → IsDistinct (distinct_accounts entries)
unfolding distinct_accounts
distinct_accounts-IsDistinct [] = tt
distinct_accounts-IsDistinct (e ∷ es) =
    elim (Bool-cases (any (λ n. str_eq n (account_of e)) (distinct_accounts es))) [
      | inl seen ↦ rw seen (distinct_accounts-IsDistinct es)
      | inr fresh ↦ rw fresh (fresh, distinct_accounts-IsDistinct es)
    ]

distinct_accounts-Enumerates :
    (entries : List LogEntry) → Enumerates (distinct_accounts entries) entries
distinct_accounts-Enumerates entries = record {
  distinct = distinct_accounts-IsDistinct entries;
  listed = distinct_accounts-listed entries;
}

pub empty_of : (es : List LogEntry) → is_empty es ≡ true → es ≡ []
empty_of [] h = refl
empty_of (e ∷ es) h = absurd (ground arith)

module _ {F : Type 0} (f : Floats F) (texts : Texts) (d : BruteForceDetector F) where
  any-report_targets :
      (target : Target) (entries : List LogEntry) (gs : List (Group Target LogEntry))
      → any (λ x. is_about target x.background) (report_targets f texts d entries gs)
        ≡ any (λ g. same_target target g.key && leb d.attempt_threshold (length g.members)) gs
  unfolding report_targets attempts_finding measure
  any-report_targets target entries [] = refl
  any-report_targets target entries (g ∷ gs) =
      elim (Bool-cases (ltb (length g.members) d.attempt_threshold)) [
        | inl e ↦ rw e (ground (arith, any-report_targets target entries gs))
        | inr e ↦ rw e (ground (arith, any-report_targets target entries gs))
      ]

  -- A target is reported exactly if its failures reach the threshold.
  per_account-reports :
      (target : Target) (failures entries : List LogEntry)
      → 0 < d.attempt_threshold
      → any (λ x. is_about target x.background) (per_account f texts d failures entries)
        ≡ leb d.attempt_threshold (length (failures_of target failures))
  unfolding per_account
  per_account-reports target failures entries h =
      any-report_targets target entries (group_by target_of failures)
      ∙ (any-UniqueKeys target (λ l. leb d.attempt_threshold (length l))
            (group_by target_of failures) (ground arith) (UniqueKeys-group_by target_of failures)
          ∙ ap (λ l. leb d.attempt_threshold (length l))
              (members_of-group_by target_of target failures))

  no_spray-report_targets :
      (source : String) (entries : List LogEntry) (gs : List (Group Target LogEntry))
      → any (λ x. is_spray_of source x.background) (report_targets f texts d entries gs) ≡ false
  unfolding report_targets attempts_finding
  no_spray-report_targets source entries [] = refl
  no_spray-report_targets source entries (g ∷ gs) =
      elim (Bool-cases (ltb (length g.members) d.attempt_threshold)) [
        | inl e ↦ rw e (no_spray-report_targets source entries gs)
        | inr e ↦ rw e (no_spray-report_targets source entries gs)
      ]

  no_target-report_sources :
      (target : Target) (entries : List LogEntry) (gs : List (Group String LogEntry))
      → any (λ x. is_about target x.background) (report_sources f texts d entries gs) ≡ false
  unfolding report_sources spray_finding
  no_target-report_sources target entries [] = refl
  no_target-report_sources target entries (g ∷ gs) =
      elim (Bool-cases (ltb (length (distinct_accounts g.members)) d.spray_account_threshold)) [
        | inl e ↦ rw e (no_target-report_sources target entries gs)
        | inr e ↦ rw e (no_target-report_sources target entries gs)
      ]

  any-report_sources :
      (source : String) (entries : List LogEntry) (gs : List (Group String LogEntry))
      → any (λ x. is_spray_of source x.background) (report_sources f texts d entries gs)
        ≡ any
            (λ g.
              str_eq source g.key
              && leb d.spray_account_threshold (length (distinct_accounts g.members)))
            gs
  unfolding report_sources spray_finding spray_of
  any-report_sources source entries [] = refl
  any-report_sources source entries (g ∷ gs) =
      elim (Bool-cases (ltb (length (distinct_accounts g.members)) d.spray_account_threshold)) [
        | inl e ↦ rw e (ground (arith, any-report_sources source entries gs))
        | inr e ↦ rw e (ground (arith, any-report_sources source entries gs))
      ]

  spraying-reports :
      (source : String) (failures entries : List LogEntry)
      → 0 < d.spray_account_threshold
      → any (λ x. is_spray_of source x.background) (spraying f texts d failures entries)
        ≡ leb d.spray_account_threshold (length (distinct_accounts (failures_from source failures)))
  unfolding spraying distinct_accounts
  spraying-reports source failures entries h =
      any-report_sources source entries (group_by source_of failures)
      ∙ (any-UniqueKeys source (λ l. leb d.spray_account_threshold (length (distinct_accounts l)))
            (group_by source_of failures) (ground arith) (UniqueKeys-group_by source_of failures)
          ∙ ap (λ l. leb d.spray_account_threshold (length (distinct_accounts l)))
              (members_of-group_by source_of source failures))

  any_append :
      (p : Finding (Background F) → Bool) (xs ys : List (Finding (Background F)))
      → any p (xs ++ ys) ≡ any p xs || any p ys
  any_append p [] ys = refl
  any_append p (x ∷ xs) ys = ground (arith, any_append p xs ys)

  -- An account is reported as attacked from a source exactly if the window holds at least the
  -- threshold of failed authentications of that source against that account, when the threshold is
  -- not zero.
  pub detect-reports_target :
      (target : Target) (context : DetectionContext LogEntry)
      → 0 < d.attempt_threshold
      → any (λ x. is_about target x.background) (detect f texts d context)
        ≡ leb d.attempt_threshold
            (length (failures_of target (keep (is_failed_auth texts.lower) context.entries)))
  unfolding detect spraying
  detect-reports_target target context h =
      let failures = keep (is_failed_auth texts.lower) context.entries in
      elim (Bool-cases (is_empty failures)) [
        | inl e ↦ rw e (rw (empty_of failures e) (ground arith))
        | inr e ↦ rw e (
            ground (
              arith,
              any_append (λ x. is_about target x.background)
                  (per_account f texts d failures context.entries)
                  (spraying f texts d failures context.entries),
              per_account-reports target failures context.entries h,
              no_target-report_sources target context.entries (group_by source_of failures),
            ))
      ]

  detect-distinct_accounts :
      (source : String) (context : DetectionContext LogEntry)
      → 0 < d.spray_account_threshold
      → any (λ x. is_spray_of source x.background) (detect f texts d context)
        ≡ leb d.spray_account_threshold (
            length (
              distinct_accounts
                (failures_from source (keep (is_failed_auth texts.lower) context.entries))))
  unfolding detect per_account distinct_accounts
  detect-distinct_accounts source context h =
      let failures = keep (is_failed_auth texts.lower) context.entries in
      elim (Bool-cases (is_empty failures)) [
        | inl e ↦ rw e (rw (empty_of failures e) (ground arith))
        | inr e ↦ rw e (
            ground (
              arith,
              any_append (λ x. is_spray_of source x.background)
                  (per_account f texts d failures context.entries)
                  (spraying f texts d failures context.entries),
              spraying-reports source failures context.entries h,
              no_spray-report_targets source context.entries (group_by target_of failures),
            ))
      ]

  -- A source is reported for spraying exactly if the accounts of its failed authentications in the
  -- window, each of them counted once, are at least as many as the threshold, when the threshold is
  -- not zero.
  pub detect-reports_spray :
      (source : String) (context : DetectionContext LogEntry)
      → 0 < d.spray_account_threshold
      → (names : List String) × Enumerates names
          (failures_from source (keep (is_failed_auth texts.lower) context.entries))
        × (any (λ x. is_spray_of source x.background) (detect f texts d context)
            ≡ leb d.spray_account_threshold (length names))
  detect-reports_spray source context h =
      let failures = failures_from source (keep (is_failed_auth texts.lower) context.entries) in
      (
        distinct_accounts failures,
        distinct_accounts-Enumerates failures,
        detect-distinct_accounts source context h,
      )
