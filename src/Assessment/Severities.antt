-- ===== src/Assessment/Severities.antt =====
-- That the computed severity is the highest, and how far a model can move it.
use soc_analyst.Prelude.{
  subst, ℕ, ◌≤◌, ◌≡◌, ◌≢◌, ◌↔◌, ◌⊎◌, refl, ap, sym, true, false, some, List, [], ◌∷◌, String, arith,
  All, ltb, Bool-cases, inl, inr,
}
use mathlib.Core.List.{Memᴰ}
use mathlib.Core.List.Memᴰ.{head, tail, cast}
use soc_analyst.Detection.Types.{Anomaly, severity_for}
use soc_analyst.Assessment.{
  rank, Reading, Assessment, top_of, build_assessment, IncidentAnalysis, SeverityNote,
  severity_downgrade_accepted, severity_adjusted, argument_of,
}

module _ {D : Type 0} where
  -- as the engine stores it
  abbrev pub Graded : Anomaly D → Type 0
  Graded a = a.severity ≡ severity_for a.score

  top_of-higher :
      (best a : Anomaly D) (as_ : List (Anomaly D))
      → ltb best.score a.score ≡ true
      → top_of best (a ∷ as_) ≡ top_of a as_
  unfolding top_of
  top_of-higher best a as_ e = rw e refl

  top_of-lower :
      (best a : Anomaly D) (as_ : List (Anomaly D))
      → ltb best.score a.score ≡ false
      → top_of best (a ∷ as_) ≡ top_of best as_
  unfolding top_of
  top_of-lower best a as_ e = rw e refl

  -- no anomaly's score is above the top's, and the top is as graded as they are
  abbrev IsTop : Anomaly D → List (Anomaly D) → Anomaly D → Type 0
  IsTop best as_ t = Graded t × (best.score ≤ t.score) × All (λ a. a.score ≤ t.score) as_

  top_of-IsTop :
      (best : Anomaly D) (as_ : List (Anomaly D))
      → Graded best
      → All Graded as_
      → IsTop best as_ (top_of best as_)
  top_of-IsTop best [] g h = unfold top_of in (g, omega arith, tt)
  top_of-IsTop best (a ∷ as_) g h = elim (Bool-cases (ltb best.score a.score)) [
    | inl e ↦
        let (gt, le, all) = top_of-IsTop a as_ h.0 h.1 in
        subst (IsTop best (a ∷ as_)) (sym (top_of-higher best a as_ e))
          (gt, ground (arith, le, e), (le, all))
    | inr e ↦
        let (gt, le, all) = top_of-IsTop best as_ g h.1 in
        subst (IsTop best (a ∷ as_)) (sym (top_of-lower best a as_ e))
          (gt, le, (ground (arith, le, e), all))
  ]

  -- the top is one of the anomalies
  top_of-Mem : (best : Anomaly D) (as_ : List (Anomaly D)) → Memᴰ (top_of best as_) (best ∷ as_)
  top_of-Mem best [] = unfold top_of in head refl
  top_of-Mem best (a ∷ as_) = elim (Bool-cases (ltb best.score a.score)) [
    | inl e ↦ cast (top_of-higher best a as_ e) (tail (top_of-Mem a as_))
    | inr e ↦ cast (top_of-lower best a as_ e) (skip (top_of-Mem best as_))
  ]
    where
      skip : {t : Anomaly D} → Memᴰ t (best ∷ as_) → Memᴰ t (best ∷ a ∷ as_)
      skip (head e) = head e
      skip (tail m) = tail (tail m)

rank-severity_for : (m n : ℕ) → m ≤ n → rank (severity_for m) ≤ rank (severity_for n)
unfolding rank severity_for
rank-severity_for m n h = ground (arith, h)

module _ {D V : Type 0} (reading : Reading D V) where
  -- For anomalies that are graded by their scores, as the engine stores them, the assessment takes
  -- its severity and its score from one of the anomalies, and no anomaly's severity or score is
  -- higher: one critical detection makes the incident critical, and nothing else does.
  pub build_assessment_highest :
      (a : Anomaly D) (as_ : List (Anomaly D))
      → All Graded (a ∷ as_)
      → (x : Assessment V) × (build_assessment reading (a ∷ as_) ≡ some x)
        × ((t : Anomaly D) × Memᴰ t (a ∷ as_) × (x.severity ≡ t.severity) × (x.score ≡ t.score))
        × All (λ b. (b.score ≤ x.score) × (rank b.severity ≤ rank x.severity)) (a ∷ as_)
  unfolding build_assessment
  build_assessment_highest a as_ h =
      let (gt, le, all) = top_of-IsTop a as_ h.0 h.1 in
      (
        _,
        refl,
        (top_of a as_, top_of-Mem a as_, refl, refl),
        ranked (a ∷ as_) (top_of a as_) h gt (le, all),
      )
    where
      ranked :
          (bs : List (Anomaly D)) (t : Anomaly D)
          → All Graded bs
          → Graded t
          → All (λ b. b.score ≤ t.score) bs
          → All (λ b. (b.score ≤ t.score) × (rank b.severity ≤ rank t.severity)) bs
      ranked [] t h g k = tt
      ranked (b ∷ bs) t h g k = (
        (k.0, omega (arith, ap rank h.0, ap rank g, rank-severity_for b.score t.score k.0)),
        ranked bs t h.1 g k.1,
      )

module _ {R V : Type 0} where
  -- What reconciling an answer with an assessment gives.
  pub record Reconciled (analysis : IncidentAnalysis R) (a : Assessment V)
      (out : IncidentAnalysis R × SeverityNote) : Type 0 where
    pub raised_only : rank analysis.severity ≤ rank out.0.severity
    pub confident : analysis.confidence ≤ out.0.confidence
    pub untouched : out.0.rest ≡ analysis.rest
    pub enforced :
        (rank a.severity ≤ rank out.0.severity)
        ⊎ ((reason : String) × (argument_of analysis.severity_override_reason ≡ some reason)
            × (out ≡ (analysis, severity_downgrade_accepted a.severity analysis.severity reason)))
    pub noted :
        (out.1 ≡ severity_adjusted analysis.severity a.severity)
        ↔ (out.0.severity ≢ analysis.severity)
