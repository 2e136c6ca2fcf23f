-- ===== src/Attachments/Endpoints.antt =====
-- The attachment endpoints of backend/app/api/v1/endpoints/incidents.py. The body of a request is the
-- list of what the reads return; the incidents are the list of their ids.
use soc_analyst.Prelude.{
  ℕ, ◌+◌, String, Bool, not, Option, List, [], ◌∷◌, ◌++◌, keep, elem, length, ltb, ◌==◌,
  if◌then◌else◌, Outcome, ok, raised,
}
use soc_analyst.Enums.{AuditAction}
use soc_analyst.Access.Http.{HttpError}
use soc_analyst.Pystr.{Pystr, is_empty}
use soc_analyst.Attachments.{ExtractedText, extract}
use soc_analyst.Attachments.Filenames.{sanitise_filename}

pub record Attachment : Type 0 where
  pub id : ℕ
  pub incident_id : ℕ
  pub uploaded_by_id : ℕ
  pub filename : Pystr
  pub content_type : String
  pub size_bytes : ℕ
  pub content : Pystr
  pub truncated : Bool

-- the entry of `audit.record`
pub record Entry : Type 0 where
  pub action : AuditAction
  pub actor_id : ℕ
  pub resource_id : ℕ

pub record Files : Type 0 where
  pub incidents : List ℕ
  pub attachments : List Attachment
  pub audit_log : List Entry

-- the loop of `_read_attachment_within_limit`
unfoldable pub read_chunks : ℕ → ℕ → List (List ℕ) → Outcome HttpError (List ℕ)
read_chunks limit total [] = ok []
read_chunks limit total (c ∷ cs) =
    let rest = read_chunks limit (total + length c) cs in
    if is_empty c
    then ok []
    else if ltb limit (total + length c)
    then raised (record { status = 413; detail = "Attachment exceeds the limit" })
    else elim rest [ raised e ↦ raised e | ok bytes ↦ ok (c ++ bytes) ]

unfoldable pub read_attachment : ℕ → List (List ℕ) → Outcome HttpError (List ℕ)
unfolding read_chunks
read_attachment limit chunks = elim (read_chunks limit 0 chunks) [
  | raised e ↦ raised e
  | ok bytes ↦
      if is_empty bytes
      then raised (record { status = 400; detail = "The file is empty" })
      else ok bytes
]

-- the row and the audit entry of `add_attachment`
unfoldable pub store_attachment : ℕ → ℕ → ℕ → Pystr → List ℕ → ExtractedText → Files → Files
store_attachment fresh incident actor filename payload extracted t = record t {
  attachments =
      t.attachments
      ++ record {
        id = fresh;
        incident_id = incident;
        uploaded_by_id = actor;
        filename = filename;
        content_type = extracted.content_type;
        size_bytes = length payload;
        content = extracted.content;
        truncated = extracted.truncated;
      }
        ∷ [];
  audit_log =
      t.audit_log
      ++ record { action = AuditAction.create; actor_id = actor; resource_id = fresh } ∷ [];
}

-- `session.get(IncidentAttachment, id)`, refused unless it is of the incident
unfoldable pub find_attachment : ℕ → ℕ → List Attachment → Outcome HttpError Attachment
find_attachment incident id [] = raised (record { status = 404; detail = "Attachment not found" })
find_attachment incident id (a ∷ rest) =
    let later = find_attachment incident id rest in
    if a.id == id
    then if a.incident_id == incident
      then ok a
      else raised (record { status = 404; detail = "Attachment not found" })
    else later

unfoldable pub get_attachment : ℕ → ℕ → Files → Outcome HttpError Attachment
unfolding find_attachment
get_attachment incident id t = find_attachment incident id t.attachments

unfoldable pub delete_attachment : ℕ → ℕ → ℕ → Files → Files × Outcome HttpError (Unit {0})
unfolding find_attachment
delete_attachment actor incident id t = elim (find_attachment incident id t.attachments) [
  | raised e ↦ (t, raised e)
  | ok a ↦ (
    record t {
      attachments = keep (λ b. not (b.id == id)) t.attachments;
      audit_log =
          t.audit_log
          ++ record { action = AuditAction.delete; actor_id = actor; resource_id = a.id } ∷ [];
    },
    ok tt,
  )
]

module _ (decode : List ℕ → Outcome ℕ Pystr) (max_text_chars max_bytes : ℕ) (lower : Pystr → Pystr)
    (printable : ℕ → Bool) where
  unfoldable pub add_attachment :
      ℕ → ℕ → ℕ → Option Pystr → List (List ℕ) → Files → Files × Outcome HttpError ℕ
  unfolding read_attachment store_attachment extract sanitise_filename
  add_attachment fresh incident actor name chunks t =
      let filename = sanitise_filename printable name in
      if not (elem incident t.incidents)
      then (t, raised (record { status = 404; detail = "Incident not found" }))
      else elim (read_attachment max_bytes chunks) [
        | raised e ↦ (t, raised e)
        | ok payload ↦ elim (extract decode max_text_chars lower payload filename) [
          | raised e ↦ (t, raised (record { status = 415; detail = "Unsupported" }))
          | ok extracted ↦
              (store_attachment fresh incident actor filename payload extracted t, ok fresh)
        ]
      ]
