-- ===== src/Enums.antt =====
-- The enumerations of backend/app/models/enums.py that the modelled code branches on. A member is
-- a constructor; the string that PostgreSQL stores for it is not modelled.
use soc_analyst.Prelude.{Bool, true, false, ◌≡◌, ◌↔◌, arith}

pub data UserRole : Type 0 where
  admin analyst viewer : UserRole

pub data Severity : Type 0 where
  info low medium high critical : Severity

pub data AnomalyType : Type 0 where
  statistical behavioral signature correlation threshold machine_learning : AnomalyType

pub data AnomalyStatus : Type 0 where
  new triaged investigating confirmed false_positive dismissed : AnomalyStatus

pub data IncidentStatus : Type 0 where
  open_ investigating resolved : IncidentStatus

pub data IngestionFormat : Type 0 where
  csv json ndjson : IngestionFormat

pub data IngestionStatus : Type 0 where
  pending running completed partial failed : IngestionStatus

pub data LogSourceStatus : Type 0 where
  pending active paused error disabled : LogSourceStatus

pub data DocumentType : Type 0 where
  playbook runbook policy threat_intel advisory compliance postmortem other : DocumentType

pub data AuditAction : Type 0 where
  create read update delete login logout login_failed export assign status_change : AuditAction

-- `a == b` on members
abbrev pub same_role : UserRole → UserRole → Bool
same_role admin admin = true
same_role analyst analyst = true
same_role viewer viewer = true
same_role _ _ = false

abbrev pub same_status : IncidentStatus → IncidentStatus → Bool
same_status IncidentStatus.open_ IncidentStatus.open_ = true
same_status IncidentStatus.investigating IncidentStatus.investigating = true
same_status IncidentStatus.resolved IncidentStatus.resolved = true
same_status _ _ = false

pub same_role_iff : (a b : UserRole) → (same_role a b ≡ true) ↔ (a ≡ b)
same_role_iff a b = ground arith

pub same_status_iff : (a b : IncidentStatus) → (same_status a b ≡ true) ↔ (a ≡ b)
same_status_iff a b = ground arith
