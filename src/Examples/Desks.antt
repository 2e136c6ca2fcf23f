-- ===== src/Examples/Desks.antt =====
-- An incident that is opened, resolved, taken back, edited and linked.
use soc_analyst.Prelude.{ℕ, ltb, ◌==◌, ◌≡◌, refl, Bool, none, some, List, [], ◌∷◌, arith}
use soc_analyst.Enums.{open_, investigating, resolved}
use soc_analyst.Incidents.{
  Field, title, severity, Incident, Desk, Trail, apply_status, update, same_field, link_anomalies,
}
use soc_analyst.Incidents.Timeline.{IsTimely, Reached, opened, moved_at, timeline_holds}
use soc_analyst.Incidents.Updates.{DistinctFields, UpdatesOrRaises, update_effect}
use soc_analyst.Incidents.Evidence.{unknown_ids, link_outcome, link_anomalies_lem}

abbrev incident : Incident ℕ
incident = record {
  id = 4;
  number = 1;
  created_by_id = 7;
  status = open_;
  acknowledged_at = none;
  resolved_at = none;
  fields = λ f. 0;
}

abbrev closed : Incident ℕ
closed = apply_status 5 (apply_status 3 incident investigating) resolved

closed_at_5 : Reached incident 5 closed
closed_at_5 = moved_at 5 resolved (omega arith) (moved_at 3 investigating (omega arith) (opened 1))

timeline_holds_example : IsTimely 5 closed
timeline_holds_example = timeline_holds incident closed refl refl refl closed_at_5

abbrev trail : Trail ℕ
trail = record { audit = []; notes = [] }

abbrev edits : List (Field × ℕ)
edits = (title, 0) ∷ (severity, 3) ∷ []

abbrev same_number : ℕ → ℕ → Bool
same_number m n = m == n

edits-DistinctFields : DistinctFields edits
unfolding same_field
edits-DistinctFields = ((refl, tt), (tt, tt))

-- the table refuses numbers from 100 on
abbrev accepted : Field → ℕ → Bool
accepted f v = ltb v 100

update_effect_example :
    UpdatesOrRaises same_number accepted 7 edits
      (some resolved)
      incident
      trail
      (update same_number accepted 9 7 edits (some resolved) incident trail)
update_effect_example =
    update_effect same_number accepted 9 7 edits (some resolved) incident trail edits-DistinctFields

abbrev desk : Desk ℕ
desk = record {
  incidents = incident ∷ [];
  anomalies =
      (record { id = 1; incident_id = none }) ∷ (record { id = 2; incident_id = some 3 }) ∷ [];
  trail = trail;
}

link_anomalies_lem_example :
    link_anomalies incident (2 ∷ 9 ∷ 2 ∷ []) desk
    ≡ link_outcome incident (2 ∷ 9 ∷ 2 ∷ []) desk (unknown_ids desk.anomalies (2 ∷ 9 ∷ 2 ∷ []))
link_anomalies_lem_example = link_anomalies_lem incident (2 ∷ 9 ∷ 2 ∷ []) desk (refl, (refl, tt))
