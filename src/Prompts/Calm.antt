-- ===== src/Prompts/Calm.antt =====
-- Texts with no opening angle bracket, which the platform's own assessment consists of.
use soc_analyst.Prelude.{
  ℕ, zero, suc, ◌+◌, ◌/◌, ◌%◌, ◌<◌, ◌≡◌, refl, Option, none, some, false, List, [], ◌∷◌, ◌++◌, map,
  arith, any, All, All-append, ltb, ltb→lt, ◌==◌, Bool-cases, inl, inr, or_default,
}
use soc_analyst.Prelude.Sorting.{sort_by, All-sort_by}
use soc_analyst.Pystr.{Pystr, codes}
use soc_analyst.Prompts.{decimal, digits_before}
use soc_analyst.Prompts.Case.{
  join, Assessment, render_assessment, text_le, signal_lines, Metric, metric_le, metric_line,
  closing_line, figures,
}

-- no opening angle bracket
abbrev pub Calm : Pystr → Type 0
Calm = All (λ c. (60 == c) ≡ false)

pub Calm-of : (s : Pystr) → any (λ c. 60 == c) s ≡ false → Calm s
Calm-of [] h = tt
Calm-of (c ∷ cs) h = (ground arith, Calm-of cs (ground arith))

pub Calm-append : (s t : Pystr) → Calm s → Calm t → Calm (s ++ t)
Calm-append = All-append (λ c. (60 == c) ≡ false)

pub Calm-after : (s t : Pystr) → any (λ c. 60 == c) s ≡ false → Calm t → Calm (s ++ t)
Calm-after s t h k = Calm-append s t (Calm-of s h) k

digit_differs : (d : ℕ) → d < 10 → (60 == 48 + d) ≡ false
digit_differs d h = ground arith

Calm-digits_before : (fuel n : ℕ) (later : Pystr) → Calm later → Calm (digits_before fuel n later)
unfolding digits_before
Calm-digits_before zero n later h = h
Calm-digits_before (suc fuel) n later h = elim (Bool-cases (ltb n 10)) [
  | inl e ↦ rw e (digit_differs n (ltb→lt n 10 e), h)
  | inr e ↦ rw e (
      Calm-digits_before fuel (n / 10) ((48 + n % 10) ∷ later)
        (digit_differs (n % 10) (omega arith), h))
]

pub Calm-decimal : (n : ℕ) → Calm (decimal n)
unfolding decimal
Calm-decimal n = Calm-digits_before (suc n) n [] tt

Calm-join : (sep : Pystr) (ts : List Pystr) → Calm sep → All Calm ts → Calm (join sep ts)
unfolding join
Calm-join sep [] k h = tt
Calm-join sep (t ∷ []) k h = h.0
Calm-join sep (t ∷ u ∷ us) k h =
    Calm-append t _ h.0 (Calm-append sep _ k (Calm-join sep (u ∷ us) k h.1))

All-Calm :
    (ts us : List Pystr)
    → All (λ t. Calm t) ts
    → All (λ t. Calm t) us
    → All (λ t. Calm t) (ts ++ us)
All-Calm = All-append (λ t. Calm t)

Calm-signal_lines : (ss : List Pystr) → All Calm ss → All Calm (signal_lines ss)
unfolding signal_lines
Calm-signal_lines [] h = tt
Calm-signal_lines (s ∷ ss) h = (
  Calm-after (codes "  corroborating_signals: ") _ refl (
      Calm-join (codes ", ") _ (Calm-of (codes ", ") refl)
        (All-sort_by text_le (λ t. Calm t) (s ∷ ss) h)),
  tt,
)

abbrev pub CalmMetric : Metric → Type 0
CalmMetric m = Calm m.key × Calm m.value

Calm-metric_lines : (ms : List Metric) → All CalmMetric ms → All Calm (map metric_line ms)
Calm-metric_lines [] h = tt
Calm-metric_lines (m ∷ ms) h = (
  Calm-after (codes "  ") _ refl
      (Calm-append m.key _ h.0.0 (Calm-after (codes ": ") m.value refl h.0.1)),
  Calm-metric_lines ms h.1,
)

-- The texts of the platform's own assessment, which is not fenced, have no opening angle bracket.
module _ {F : Type 0} (zero_point : F) (fixed : ℕ → F → Pystr) where
  abbrev pub CalmAssessment : Assessment F → Type 0
  CalmAssessment a =
      Calm (or_default a.severity (codes "unknown"))
      × Calm (fixed 3 (or_default a.score zero_point))
      × Calm (fixed 2 (or_default a.confidence zero_point))
      × All (λ t. Calm t) a.corroborating_signals
      × All CalmMetric a.metrics

  abbrev pub CalmOption : Option (Assessment F) → Type 0
  CalmOption none = Unit
  CalmOption (some a) = CalmAssessment a

  Calm-figures :
      (a : Assessment F) → CalmAssessment a → All (λ t. Calm t) (figures zero_point fixed a)
  Calm-figures a h = (
    Calm-of (codes "PLATFORM ASSESSMENT (computed by this platform, not from the logs):") refl,
    (
      Calm-after (codes "  computed_severity: ") _ refl h.0,
      (
        Calm-after (codes "  computed_score: ") _ refl h.1,
        (
          Calm-after (codes "  detector_confidence: ") _ refl h.2,
          (
            Calm-after (codes "  anomalies_linked: ") _ refl
                (Calm-decimal (or_default a.anomaly_count 0)),
            tt,
          ),
        ),
      ),
    ),
  )

  pub Calm-render_assessment :
      (a : Assessment F) → CalmAssessment a → Calm (render_assessment zero_point fixed a)
  unfolding render_assessment
  Calm-render_assessment a h =
      let metrics = map metric_line (sort_by metric_le a.metrics) in
      let signals = signal_lines a.corroborating_signals in
      Calm-join (10 ∷ [])
        (figures zero_point fixed a ++ (signals ++ (metrics ++ closing_line ∷ [])))
        (Calm-of (10 ∷ []) refl)
        (All-Calm (figures zero_point fixed a) _ (Calm-figures a h) (
          All-Calm signals _ (Calm-signal_lines a.corroborating_signals h.3) (
            All-Calm metrics (closing_line ∷ [])
              (Calm-metric_lines _ (All-sort_by metric_le (λ m. CalmMetric m) a.metrics h.4))
              (Calm-of closing_line refl, tt))))
