-- ===== src/Examples/Uploading.antt =====
-- An incident with one attachment, and an upload of three bytes.
use soc_analyst.Prelude.{ℕ, ◌≡◌, refl, true, false, some, List, [], ◌∷◌, Bool, Outcome, ok, raised}
use soc_analyst.Pystr.{Pystr, codes}
use soc_analyst.Attachments.Endpoints.{
  Attachment, Files, get_attachment, delete_attachment, add_attachment,
}
use soc_analyst.Attachments.Ownership.{
  StoresOrKeeps, add_attachment-StoresOrKeeps, not_found, foreign_attachment_refused,
}

abbrev notes_file : Attachment
notes_file = record {
  id = 4;
  incident_id = 1;
  uploaded_by_id = 7;
  filename = codes "notes.txt";
  content_type = "text/plain";
  size_bytes = 3;
  content = codes "abc";
  truncated = false;
}

abbrev cabinet : Files
cabinet = record { incidents = 1 ∷ 2 ∷ []; attachments = notes_file ∷ []; audit_log = [] }

abbrev as_text : List ℕ → Outcome ℕ Pystr
as_text bytes = ok bytes

abbrev unchanged : Pystr → Pystr
unchanged t = t

abbrev any_character : ℕ → Bool
any_character c = true

abbrev three_bytes : List (List ℕ)
three_bytes = (97 ∷ 98 ∷ []) ∷ (99 ∷ []) ∷ []

add_attachment-StoresOrKeeps_example :
    StoresOrKeeps as_text 2 10 unchanged any_character 5 1 7 cabinet (
      add_attachment as_text 2 10 unchanged any_character 5 1 7
        (some (codes "..\\a.log"))
        three_bytes
        cabinet)
add_attachment-StoresOrKeeps_example =
    add_attachment-StoresOrKeeps as_text 2 10 unchanged any_character 5 1 7
      (some (codes "..\\a.log")) three_bytes cabinet
      (refl, (refl, (refl, (refl, (refl, (refl, tt))))))

foreign_attachment_refused_example :
    (get_attachment 2 4 cabinet ≡ raised not_found)
    × (delete_attachment 7 2 4 cabinet ≡ (cabinet, raised not_found))
foreign_attachment_refused_example = foreign_attachment_refused 7 2 4 cabinet notes_file refl refl
