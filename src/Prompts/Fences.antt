-- ===== src/Prompts/Fences.antt =====
-- How often a fence stands in the prompt.
use soc_analyst.Prelude.{
  ℕ, ◌+◌, ◌≡◌, refl, Option, none, some, true, false, List, [], ◌∷◌, ◌++◌, drop, arith, any, All,
  ◌==◌, if◌then◌else◌,
}
use soc_analyst.Pystr.{Pystr, codes}
use soc_analyst.Pystr.Search.{contains, starts_with, starts_with-apart, differs}
use soc_analyst.Prompts.{fence, fence_end, decimal}
use soc_analyst.Prompts.Json.{Json, list, Items, no_items, item, dump}
use soc_analyst.Prompts.Dumps.{Quiet, QuietItems, dump-unfenced}
use soc_analyst.Prompts.Calm.{
  Calm, Calm-append, Calm-after, Calm-of, Calm-decimal, CalmOption, Calm-render_assessment,
}
use soc_analyst.Prompts.Case.{
  join, block, count_items, item_section, CaseData, Assessment, render_assessment, no_anomalies,
  no_logs, no_guidance, opening_line, request, assessment_section, anomaly_section, log_section,
  attachment_section, knowledge_section, greeting, task, sections, render_case,
}
use soc_analyst.Prompts.Markers.{in_fence, in_fence-fence, in_fence-fence_end}

-- the number of places at which a pattern occurs
unfoldable pub count : Pystr → Pystr → ℕ
count p [] = 0
count p (c ∷ cs) = (if starts_with p (c ∷ cs) then 1 else 0) + count p cs

pub count_lacks : (q : ℕ) (p s : Pystr) → contains (q ∷ p) s ≡ false → count (q ∷ p) s ≡ 0
unfolding count contains
count_lacks q p [] h = refl
count_lacks q p (c ∷ cs) h = ground (arith, count_lacks q p cs)

pub count-Calm : (p s : Pystr) → Calm s → count (60 ∷ p) s ≡ 0
unfolding count starts_with
count-Calm p [] h = refl
count-Calm p (c ∷ cs) h = ground (arith, count-Calm p cs h.1)

-- What stands on either side of a code point that the pattern has not is counted apart.
count_apart :
    (q : ℕ) (p xs ys : Pystr) (s : ℕ)
    → All (λ c. in_fence c ≡ true) (q ∷ p)
    → in_fence s ≡ false
    → count (q ∷ p) (xs ++ s ∷ ys) ≡ count (q ∷ p) xs + count (q ∷ p) ys
unfolding count starts_with
count_apart q p [] ys s h f = ground (arith, differs in_fence q s h.0 f)
count_apart q p (x ∷ xs) ys s h f =
    ground (arith, count_apart q p xs ys s h f, starts_with-apart in_fence p xs ys s h.1 f)

count_front :
    (q : ℕ) (p ys : Pystr) (s : ℕ)
    → All (λ c. in_fence c ≡ true) (q ∷ p)
    → in_fence s ≡ false
    → count (q ∷ p) (s ∷ ys) ≡ count (q ∷ p) ys
unfolding count
count_front q p ys s h f = omega (arith, count_apart q p [] ys s h f)

-- A block has its two fences and what stands in its body.
count-block :
    (q : ℕ) (p label body : Pystr)
    → All (λ c. in_fence c ≡ true) (q ∷ p)
    → count (q ∷ p) label ≡ 0
    → count (q ∷ p) body ≡ 0
    → count (q ∷ p) (block label body) ≡ count (q ∷ p) fence + count (q ∷ p) fence_end
unfolding block in_fence
count-block q p label body h k l = omega (
  arith,
  count_apart q p fence (label ++ (10 ∷ (body ++ (10 ∷ fence_end)))) 32 h refl,
  count_apart q p label (body ++ (10 ∷ fence_end)) 10 h refl,
  count_apart q p body fence_end 10 h refl,
  k,
  l,
)

unfoldable pub total : Pystr → List Pystr → ℕ
total p [] = 0
total p (t ∷ ts) = count p t + total p ts

pub total_append : (p : Pystr) (ts us : List Pystr) → total p (ts ++ us) ≡ total p ts + total p us
unfolding total
total_append p [] us = omega arith
total_append p (t ∷ ts) us = omega (arith, total_append p ts us)

pub count-join :
    (q : ℕ) (p : Pystr) (ts : List Pystr)
    → All (λ c. in_fence c ≡ true) (q ∷ p)
    → count (q ∷ p) (join (10 ∷ 10 ∷ []) ts) ≡ total (q ∷ p) ts
unfolding join total count in_fence
count-join q p [] h = refl
count-join q p (t ∷ []) h = omega arith
count-join q p (t ∷ u ∷ us) h = omega (
  arith,
  count_apart q p t (10 ∷ join (10 ∷ 10 ∷ []) (u ∷ us)) 10 h refl,
  count_front q p (join (10 ∷ 10 ∷ []) (u ∷ us)) 10 h refl,
  count-join q p (u ∷ us) h,
)

-- 1 if there are items
abbrev pub some_items : Items → ℕ
some_items no_items = 0
some_items (item v rest) = 1

-- What `neutralise` does not pass over holds no fence: the keys, the values that are not strings
-- and the texts of the assessment.
pub record IsQuiet {F : Type 0} (zero_point : F) (fixed : ℕ → F → Pystr) (c : CaseData F)
    : Type 0 where
  pub incident : Quiet fence c.incident × Quiet fence_end c.incident
  pub anomalies : QuietItems fence c.anomalies × QuietItems fence_end c.anomalies
  pub log_evidence : QuietItems fence c.log_evidence × QuietItems fence_end c.log_evidence
  pub knowledge : QuietItems fence c.knowledge × QuietItems fence_end c.knowledge
  pub attachments : QuietItems fence c.attachments × QuietItems fence_end c.attachments
  pub assessment : CalmOption zero_point fixed c.assessment

-- the incident and each list of data that is not empty
abbrev pub blocks : {F : Type 0} → CaseData F → ℕ
blocks c =
    1
    + (some_items c.anomalies
        + (some_items c.log_evidence + (some_items c.attachments + some_items c.knowledge)))

-- For either fence.
module _ (p : Pystr) (plain : All (λ c. in_fence c ≡ true) (60 ∷ p))
    (once : count (60 ∷ p) fence + count (60 ∷ p) fence_end ≡ 1) (field_limit : ℕ)
    (dumped : (v : Json)
      → Quiet fence v
      → Quiet fence_end v
      → contains (60 ∷ p) (dump field_limit v) ≡ false) where
  one_block :
      (label : Pystr) (v : Json)
      → Calm label
      → Quiet fence v
      → Quiet fence_end v
      → count (60 ∷ p) (block label (dump field_limit v)) ≡ 1
  one_block label v h k l = omega (
    arith,
    once,
    count-block 60 p label (dump field_limit v) plain (count-Calm p label h)
        (count_lacks 60 p _ (dumped v k l)),
  )

  total-Calm : (ts : List Pystr) → All (λ t. Calm t) ts → total (60 ∷ p) ts ≡ 0
  unfolding total
  total-Calm [] h = refl
  total-Calm (t ∷ ts) h = omega (arith, count-Calm p t h.0, total-Calm ts h.1)

  one_section :
      (title unit : Pystr) (items : Items) (otherwise : List Pystr)
      → any (λ c. 60 == c) title ≡ false
      → any (λ c. 60 == c) unit ≡ false
      → All (λ t. Calm t) otherwise
      → QuietItems fence items
      → QuietItems fence_end items
      → total (60 ∷ p) (item_section field_limit title unit items otherwise) ≡ some_items items
  unfolding item_section total
  one_section title unit no_items otherwise h k o l m = total-Calm otherwise o
  one_section title unit (item v rest) otherwise h k o l m = omega (
    arith,
    one_block (title ++ (codes " (" ++ (decimal (count_items (item v rest)) ++ unit)))
        (list (item v rest))
        (Calm-append title _ (Calm-of title h)
          (Calm-after (codes " (") _ refl (Calm-append _ unit (Calm-decimal _) (Calm-of unit k))))
        l m,
  )

  one_each :
      (anomalies logs files guidance : Items)
      → QuietItems fence anomalies × QuietItems fence_end anomalies
      → QuietItems fence logs × QuietItems fence_end logs
      → QuietItems fence files × QuietItems fence_end files
      → QuietItems fence guidance × QuietItems fence_end guidance
      → (total (60 ∷ p) (anomaly_section field_limit anomalies) ≡ some_items anomalies)
        × (total (60 ∷ p) (log_section field_limit logs) ≡ some_items logs)
        × (total (60 ∷ p) (attachment_section field_limit files) ≡ some_items files)
        × (total (60 ∷ p) (knowledge_section field_limit guidance) ≡ some_items guidance)
  one_each anomalies logs files guidance a l f k = (
    one_section (codes "DETECTED ANOMALIES") (codes ")") anomalies (no_anomalies ∷ []) refl refl
        (Calm-of no_anomalies refl, tt) a.0 a.1,
    one_section (codes "LOG EVIDENCE") (codes " entries)") logs (no_logs ∷ []) refl refl
        (Calm-of no_logs refl, tt) l.0 l.1,
    one_section (codes "ANALYST ATTACHMENTS") (codes ")") files [] refl refl tt f.0 f.1,
    one_section (codes "KNOWLEDGE BASE EXCERPTS") (codes ")") guidance (no_guidance ∷ []) refl refl
        (Calm-of no_guidance refl, tt) k.0 k.1,
  )

  module _ {F : Type 0} (zero_point : F) (fixed : ℕ → F → Pystr) where
    no_assessment :
        (a : Option (Assessment F))
        → CalmOption zero_point fixed a
        → total (60 ∷ p) (assessment_section zero_point fixed a) ≡ 0
    unfolding assessment_section total
    no_assessment none h = refl
    no_assessment (some a) h = omega (
      arith,
      count-Calm p (render_assessment zero_point fixed a)
          (Calm-render_assessment zero_point fixed a h),
      count-Calm p [] tt,
    )

    case_blocks :
        (c : CaseData F)
        → IsQuiet zero_point fixed c
        → count (60 ∷ p) (render_case zero_point fixed field_limit c) ≡ blocks c
    unfolding render_case sections total
    case_blocks c h =
        let anomalies = anomaly_section field_limit c.anomalies in
        let logs = log_section field_limit c.log_evidence in
        let files = attachment_section field_limit c.attachments in
        let guidance = knowledge_section field_limit c.knowledge in
        let each =
          one_each c.anomalies c.log_evidence c.attachments c.knowledge h.anomalies h.log_evidence
            h.attachments h.knowledge in
        omega (
          arith,
          count-join 60 p (sections zero_point fixed field_limit c) plain,
          total_append (60 ∷ p) greeting (
              assessment_section zero_point fixed c.assessment
              ++ (block (codes "INCIDENT METADATA") (dump field_limit c.incident)
                  ∷ (anomalies ++ (logs ++ (files ++ (guidance ++ task)))))),
          total-Calm greeting (Calm-of opening_line refl, (tt, tt)),
          total_append (60 ∷ p) (assessment_section zero_point fixed c.assessment) (
              block (codes "INCIDENT METADATA") (dump field_limit c.incident)
              ∷ (anomalies ++ (logs ++ (files ++ (guidance ++ task))))),
          no_assessment c.assessment h.assessment,
          one_block (codes "INCIDENT METADATA") c.incident
              (Calm-of (codes "INCIDENT METADATA") refl) h.incident.0 h.incident.1,
          total_append (60 ∷ p) anomalies (logs ++ (files ++ (guidance ++ task))),
          total_append (60 ∷ p) logs (files ++ (guidance ++ task)),
          total_append (60 ∷ p) files (guidance ++ task),
          total_append (60 ∷ p) guidance task,
          each.0,
          each.1,
          each.2,
          each.3,
          total-Calm task (tt, (Calm-of request refl, tt)),
        )

-- If the keys and the values that are not strings hold neither fence, and the assessment's texts no
-- "<", then each fence stands in the user message exactly once for each block of it, whatever the
-- string values of the incident, the anomalies, the log entries, the attachments and the excerpts
-- are: no such string closes its block early or opens another.
pub render_case-fences :
    {F : Type 0} (zero_point : F) (fixed : ℕ → F → Pystr) (field_limit : ℕ) (c : CaseData F)
    → IsQuiet zero_point fixed c
    → (count fence (render_case zero_point fixed field_limit c) ≡ blocks c)
      × (count fence_end (render_case zero_point fixed field_limit c) ≡ blocks c)
unfolding count starts_with
render_case-fences zero_point fixed field_limit c h = (
  case_blocks (drop 1 fence) in_fence-fence refl field_limit
      (λ v k l. (dump-unfenced field_limit v k l).0) zero_point fixed c h,
  case_blocks (drop 1 fence_end) in_fence-fence_end refl field_limit
      (λ v k l. (dump-unfenced field_limit v k l).1) zero_point fixed c h,
)
