-- ===== src/Incidents/Data.antt =====
-- The rows of backend/app/services/incidents.py: incidents, their audit entries and notes, and the
-- anomalies linked to them.
use soc_analyst.Prelude.{
  ℕ, zero, suc, Bool, true, Option, List, String, ◌==◌, ==_iff, ==_comm, ◌≡◌, refl, sym, ap, ◌∙◌,
}
use soc_analyst.Enums.{IncidentStatus, AuditAction}

-- the columns that `IncidentUpdate` may set, but for `status`
pub data Field : Type 0 where
  title summary description severity priority attack_type assigned_to_id sla_due_at : Field
  tags affected_assets indicators mitre_techniques context : Field

abbrev code_of : Field → ℕ
code_of title = 0
code_of summary = 1
code_of description = 2
code_of severity = 3
code_of priority = 4
code_of attack_type = 5
code_of assigned_to_id = 6
code_of sla_due_at = 7
code_of tags = 8
code_of affected_assets = 9
code_of indicators = 10
code_of mitre_techniques = 11
code_of context = 12

unfoldable pub same_field : Field → Field → Bool
same_field f g = code_of f == code_of g

-- the column of a code, which shows that no two columns share one
abbrev column : ℕ → Field
column zero = title
column (suc zero) = summary
column (suc (suc zero)) = description
column (suc (suc (suc zero))) = severity
column (suc (suc (suc (suc zero)))) = priority
column (suc (suc (suc (suc (suc zero))))) = attack_type
column (suc (suc (suc (suc (suc (suc zero)))))) = assigned_to_id
column (suc (suc (suc (suc (suc (suc (suc zero))))))) = sla_due_at
column (suc (suc (suc (suc (suc (suc (suc (suc zero)))))))) = tags
column (suc (suc (suc (suc (suc (suc (suc (suc (suc zero))))))))) = affected_assets
column (suc (suc (suc (suc (suc (suc (suc (suc (suc (suc zero)))))))))) = indicators
column (suc (suc (suc (suc (suc (suc (suc (suc (suc (suc (suc zero))))))))))) = mitre_techniques
column _ = context

column-code_of : (f : Field) → column (code_of f) ≡ f
column-code_of title = refl
column-code_of _ = refl

pub same_field→eq : (f g : Field) → same_field f g ≡ true → f ≡ g
unfolding same_field
same_field→eq f g h =
    sym (column-code_of f) ∙ ap column ((==_iff (code_of f) (code_of g)).0 h) ∙ column-code_of g

pub same_field_comm : (f g : Field) → same_field f g ≡ same_field g f
unfolding same_field
same_field_comm f g = ==_comm (code_of f) (code_of g)

pub same_field_self : (f : Field) → same_field f f ≡ true
unfolding same_field
same_field_self f = (==_iff (code_of f) (code_of f)).1 refl

pub record Incident (V : Type 0) : Type 0 where
  pub id : ℕ
  pub number : ℕ
  pub created_by_id : ℕ
  pub status : IncidentStatus
  pub acknowledged_at : Option ℕ
  pub resolved_at : Option ℕ
  pub fields : Field → V

-- `FieldChange`: one for an edited column, one for the status
pub data Change (V : Type 0) : Type 0 where
  edited : Field → V → V → Change V
  moved : IncidentStatus → IncidentStatus → Change V

-- what an audit entry's `changes` and `context` are made of
pub data Context (V : Type 0) : Type 0 where
  nothing : Context V
  linked : ℕ → Context V
  changes_of : List (Change V) → Context V
  note_id : ℕ → Context V

pub record AuditEntry (V : Type 0) : Type 0 where
  pub action : AuditAction
  pub actor_id : ℕ
  pub resource_id : ℕ
  pub detail : Context V

pub data NoteBody : Type 0 where
  written : String → NoteBody
  status_changed : IncidentStatus → IncidentStatus → NoteBody

pub record Note : Type 0 where
  pub incident_id : ℕ
  pub author_id : ℕ
  pub body : NoteBody
  pub is_system : Bool

-- the rows that an update adds
pub record Trail (V : Type 0) : Type 0 where
  pub audit : List (AuditEntry V)
  pub notes : List Note

pub record Anomaly : Type 0 where
  pub id : ℕ
  pub incident_id : Option ℕ

pub record Desk (V : Type 0) : Type 0 where
  pub incidents : List (Incident V)
  pub anomalies : List Anomaly
  pub trail : Trail V
