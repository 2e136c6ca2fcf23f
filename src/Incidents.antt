-- ===== src/Incidents.antt =====
-- backend/app/services/incidents.py: opening, updating and linking incidents.
-- The values of the editable columns are a parameter `V` with its `==`. The tables that a request
-- touches are lists, and a function returns them changed. `now` is the clock's reading. The rendered
-- descriptions of audit entries are left out; what they are rendered from is kept.
mod Data
unfoldable pub use Data.*
pub mod Timeline
pub mod Updates
pub mod Evidence
use soc_analyst.Prelude.{
  ℕ, ◌≡◌, Bool, true, false, not, ◌&&◌, Option, none, some, List, [], ◌∷◌, ◌++◌, map, String, ◌==◌,
  if◌then◌else◌, Outcome, ok, raised, length, keep, elem, unique, or_default,
}
use soc_analyst.Enums.{IncidentStatus, open_, investigating, resolved, same_status, AuditAction}

-- `if incident.acknowledged_at is None: incident.acknowledged_at = now`
acknowledge : ℕ → Option ℕ → Option ℕ
acknowledge now none = some now
acknowledge now (some t) = some t

-- the query for distinct ids, and the comparison of the two counts
pub resolve_unique : List Anomaly → List ℕ → Outcome (List ℕ) (List Anomaly)
resolve_unique table ids =
    let found = keep (λ a. elem a.id ids) table in
    if length found == length ids
    then ok found
    else raised (keep (λ id. not (elem id (map (λ a. a.id) found))) ids)

pub resolve_anomalies : List Anomaly → List ℕ → Outcome (List ℕ) (List Anomaly)
unfolding resolve_unique
resolve_anomalies table [] = ok []
resolve_anomalies table (x ∷ xs) = resolve_unique table (unique (x ∷ xs))

-- `for anomaly in found: anomaly.incident_id = incident_id`; the found objects are rows of the table
pub attach : ℕ → List Anomaly → List Anomaly → List Anomaly
attach incident_id found table =
    map
      (λ a.
        if elem a.id (map (λ b. b.id) found)
        then record a { incident_id = some incident_id }
        else a)
      table

-- `anomaly.incident_id != incident.id`, negated
abbrev attached_to : ℕ → Option ℕ → Bool
attached_to incident_id none = false
attached_to incident_id (some i) = i == incident_id

pub detach : ℕ → List Anomaly → List Anomaly
detach anomaly_id = map (λ a. if a.id == anomaly_id then record a { incident_id = none } else a)

module _ {V : Type 0} where
  unfoldable pub stamp : ℕ → Incident V → IncidentStatus → Incident V
  unfolding acknowledge
  stamp now i investigating = record i { acknowledged_at = acknowledge now i.acknowledged_at }
  stamp now i resolved = record i {
    acknowledged_at = acknowledge now i.acknowledged_at;
    resolved_at = some now;
  }
  stamp now i open_ = record i { resolved_at = none }

  unfoldable pub apply_status : ℕ → Incident V → IncidentStatus → Incident V
  unfolding stamp
  apply_status now incident new_status =
      if same_status incident.status new_status
      then incident
      else stamp now (record incident { status = new_status }) new_status

  -- `setattr(incident, field, value)`
  pub set_field : Incident V → Field → V → Incident V
  set_field i f v = record i { fields = λ g. if same_field f g then v else i.fields g }

  -- the rest of the function, once the ids are resolved or have raised
  pub link_found :
      Incident V
      → Desk V
      → Outcome (List ℕ) (List Anomaly)
      → Outcome (List ℕ) (List Anomaly × Desk V)
  unfolding attach
  link_found incident desk (raised missing) = raised missing
  link_found incident desk (ok found) =
      ok (found, record desk { anomalies = attach incident.id found desk.anomalies })

  pub link_anomalies : Incident V → List ℕ → Desk V → Outcome (List ℕ) (List Anomaly × Desk V)
  unfolding resolve_anomalies link_found
  link_anomalies incident ids desk = link_found incident desk (resolve_anomalies desk.anomalies ids)

  -- False, and no change, when the anomaly is not attached here.
  pub unlink_anomaly : Incident V → Anomaly → Desk V → Bool × Desk V
  unlink_anomaly incident anomaly desk =
      if attached_to incident.id anomaly.incident_id
      then (true, record desk { anomalies = detach anomaly.id desk.anomalies })
      else (false, desk)

  pub add_note : Incident V → String → ℕ → ℕ → Trail V → Trail V
  add_note incident body actor_id new_note_id trail = record trail {
    notes =
        trail.notes
        ++ (record {
          incident_id = incident.id;
          author_id = actor_id;
          body = written body;
          is_system = false;
        })
          ∷ [];
    audit =
        trail.audit
        ++ (record {
          action = AuditAction.update;
          actor_id = actor_id;
          resource_id = incident.id;
          detail = note_id new_note_id;
        })
          ∷ [];
  }

  -- `values` are the columns of the payload; `id` and `number` are what the database assigns
  pub create :
      (id number actor_id : ℕ) (values : Field → V) (anomaly_ids : Option (List ℕ))
      → Desk V
      → Outcome (List ℕ) (Incident V × Desk V)
  unfolding resolve_anomalies attach
  create id number actor_id values anomaly_ids desk =
      elim (resolve_anomalies desk.anomalies (or_default anomaly_ids [])) [
        | raised missing ↦ raised missing
        | ok evidence ↦
            let incident : Incident V = record {
              id = id;
              number = number;
              created_by_id = actor_id;
              status = open_;
              acknowledged_at = none;
              resolved_at = none;
              fields = values;
            } in
            ok (
              incident,
              record {
                incidents = desk.incidents ++ incident ∷ [];
                anomalies = attach id evidence desk.anomalies;
                trail = record desk.trail {
                  audit =
                      desk.trail.audit
                      ++ (record {
                        action = AuditAction.create;
                        actor_id = actor_id;
                        resource_id = id;
                        detail = linked (length evidence);
                      })
                        ∷ [];
                };
              },
            )
      ]

  -- the status change that is due, if one is asked for and differs
  pub status_change_of :
      Incident V → Option IncidentStatus → Option (IncidentStatus × IncidentStatus)
  status_change_of i none = none
  status_change_of i (some s) = if same_status i.status s then none else some (i.status, s)

  pub audit_edits : ℕ → Incident V → List (Change V) → Trail V → Trail V
  audit_edits actor_id i [] trail = trail
  audit_edits actor_id i (c ∷ cs) trail = record trail {
    audit =
        trail.audit
        ++ (record {
          action = AuditAction.update;
          actor_id = actor_id;
          resource_id = i.id;
          detail = changes_of (c ∷ cs);
        })
          ∷ [];
  }

  pub audit_status : ℕ → Incident V → IncidentStatus → IncidentStatus → Trail V → Trail V
  audit_status actor_id i before after trail = record {
    audit =
        trail.audit
        ++ (record {
          action = AuditAction.status_change;
          actor_id = actor_id;
          resource_id = i.id;
          detail = changes_of (moved before after ∷ []);
        })
          ∷ [];
    notes =
        trail.notes
        ++ (record {
          incident_id = i.id;
          author_id = actor_id;
          body = status_changed before after;
          is_system = true;
        })
          ∷ [];
  }

  -- what follows the loop, once the edits are audited
  pub move_status :
      (now actor_id : ℕ) (new_status : Option IncidentStatus) (incident : Incident V)
      (changes : List (Change V)) (trail : Trail V)
      → Incident V × List (Change V) × Trail V
  unfolding apply_status status_change_of audit_status
  move_status now actor_id new_status incident changes trail =
      elim (status_change_of incident new_status) [
        | none ↦ (incident, changes, trail)
        | some (before, after) ↦ (
          apply_status now incident after,
          changes ++ moved before after ∷ [],
          audit_status actor_id incident before after trail,
        )
      ]

pub data IntegrityError : Type 0 where
  integrity_error : IntegrityError

-- The columns of an update, whose values are compared by Python's `==`.
module _ {V : Type 0} (same_value : V → V → Bool) where
  -- the loop over `updates.items()`: the incident and the changes, in order
  pub apply_fields : Incident V → List (Field × V) → Incident V × List (Change V)
  unfolding set_field
  apply_fields i [] = (i, [])
  apply_fields i ((f, v) ∷ rest) =
      let changed = apply_fields (set_field i f v) rest in
      let unchanged = apply_fields i rest in
      if same_value (i.fields f) v
      then unchanged
      else (changed.0, edited f (i.fields f) v ∷ changed.1)

  -- `updates` without its `status`, and that status, if it is there and not null
  unfoldable pub edit_and_move :
      (now actor_id : ℕ) (updates : List (Field × V)) (new_status : Option IncidentStatus)
      → Incident V
      → Trail V
      → Incident V × List (Change V) × Trail V
  unfolding apply_fields audit_edits move_status
  edit_and_move now actor_id updates new_status incident trail =
      let (edited_incident, changes) = apply_fields incident updates in
      move_status now actor_id new_status edited_incident changes
        (audit_edits actor_id edited_incident changes trail)

  -- `accepts` says what the table's constraints accept in a column, as `NOT NULL` refuses null
  module _ (accepts : Field → V → Bool) where
    abbrev pub fits : List (Change V) → Bool
    fits [] = true
    fits (edited f before after ∷ changes) = accepts f after && fits changes
    fits (moved before after ∷ changes) = fits changes

    -- `session.flush()` raises on a value that the table refuses, before anything is audited
    pub update :
        (now actor_id : ℕ) (updates : List (Field × V)) (new_status : Option IncidentStatus)
        → Incident V
        → Trail V
        → Outcome IntegrityError (Incident V × List (Change V) × Trail V)
    unfolding edit_and_move apply_fields
    update now actor_id updates new_status incident trail =
        if fits (apply_fields incident updates).1
        then ok (edit_and_move now actor_id updates new_status incident trail)
        else raised integrity_error
