-- ===== src/Attachments/Ownership.antt =====
-- What the attachment endpoints store, and to which incident an attachment belongs.
use soc_analyst.Prelude.{
  ℕ, ◌+◌, ◌≤◌, ◌≡◌, refl, subst, ◌⊎◌, inl, inr, Bool, true, false, Option, none, some, List, [],
  ◌∷◌, elem, length, length-append, ltb, arith, All, ◌==◌, if◌then◌else◌, Outcome, ok, raised,
  Outcome-cases, Bool-cases,
}
use soc_analyst.Access.Http.{HttpError}
use soc_analyst.Pystr.{Pystr, codes, is_empty}
use soc_analyst.Attachments.{ExtractedText, extract}
use soc_analyst.Attachments.Filenames.{IsSafe, sanitise_filename, sanitise_filename-IsSafe}
use soc_analyst.Attachments.Extraction.{IsText, Extracts, extract-Extracts}
use soc_analyst.Attachments.Endpoints.{
  Attachment, Files, read_chunks, read_attachment, store_attachment, find_attachment,
  get_attachment, delete_attachment, add_attachment,
}

read_chunks_bounded :
    (limit total : ℕ) (chunks : List (List ℕ)) (bytes : List ℕ)
    → total ≤ limit
    → read_chunks limit total chunks ≡ ok bytes
    → total + length bytes ≤ limit
unfolding read_chunks
read_chunks_bounded limit total [] bytes l h = ground arith
read_chunks_bounded limit total (c ∷ cs) bytes l h = elim (Bool-cases (is_empty c)) [
  | inl e ↦ ground (arith, rw (e, read_chunks) at h)
  | inr e ↦ elim (Bool-cases (ltb limit (total + length c))) [
    | inl o ↦ absurd (ground (arith, rw (e, o, read_chunks) at h))
    | inr o ↦ elim (Outcome-cases (read_chunks limit (total + length c) cs)) [
      | inl (x, q) ↦ absurd (ground (arith, rw (e, o, q, read_chunks) at h))
      | inr (more, q) ↦ ground (
        arith,
        rw (e, o, q, read_chunks) at h,
        length-append c more,
        read_chunks_bounded limit (total + length c) cs more (ground arith) q,
      )
    ]
  ]
]

nonempty : (bytes : List ℕ) → is_empty bytes ≡ false → 1 ≤ length bytes
nonempty [] h = absurd (ground arith)
nonempty (b ∷ bs) h = omega arith

read_attachment_bounded :
    (limit : ℕ) (chunks : List (List ℕ)) (bytes : List ℕ)
    → read_attachment limit chunks ≡ ok bytes
    → (1 ≤ length bytes) × (length bytes ≤ limit)
unfolding read_attachment
read_attachment_bounded limit chunks bytes h = elim (Outcome-cases (read_chunks limit 0 chunks)) [
  | inl (x, q) ↦ absurd (ground (arith, rw (q, read_attachment) at h))
  | inr (more, q) ↦ elim (Bool-cases (is_empty more)) [
    | inl e ↦ absurd (ground (arith, rw (q, e, read_attachment) at h))
    | inr e ↦ ground (
      arith,
      rw (q, e, read_attachment) at h,
      nonempty more e,
      read_chunks_bounded limit 0 chunks more (omega arith) q,
    )
  ]
]

module _ (decode : List ℕ → Outcome ℕ Pystr) (max_text_chars max_bytes : ℕ) (lower : Pystr → Pystr)
    (printable : ℕ → Bool) where
  -- a new attachment of the incident, within the limits, and its audit entry
  pub record Stores (fresh incident actor : ℕ) (before after : Files) : Type 0 where
    pub payload : List ℕ
    pub filename : Pystr
    pub extracted : ExtractedText
    pub stored : after ≡ store_attachment fresh incident actor filename payload extracted before
    pub known : elem incident before.incidents ≡ true
    pub size : (1 ≤ length payload) × (length payload ≤ max_bytes)
    pub safe : IsSafe printable filename
    pub text : IsText lower decode max_text_chars payload filename extracted

  -- an error and the tables as they were, or one attachment more
  abbrev pub StoresOrKeeps : ℕ → ℕ → ℕ → Files → Files × Outcome HttpError ℕ → Type 0
  StoresOrKeeps fresh incident actor before out =
      ((e : HttpError) × (out ≡ (before, raised e)))
      ⊎ ((after : Files) × (out ≡ (after, ok fresh)) × Stores fresh incident actor before after)

  -- Adding an attachment either raises and changes nothing, or stores exactly one attachment with
  -- its audit entry: of an incident that exists, under a safe name, from 1 to the permitted number
  -- of bytes, with the decoded text of a permitted kind of file cut at the limit. The letters of the
  -- default name are assumed to be printable.
  pub add_attachment-StoresOrKeeps :
      (fresh incident actor : ℕ) (name : Option Pystr) (chunks : List (List ℕ)) (before : Files)
      → All (λ c. printable c ≡ true) (codes "upload")
      → StoresOrKeeps fresh incident actor before (
          add_attachment decode max_text_chars max_bytes lower printable fresh incident actor name
            chunks before)
  unfolding add_attachment
  add_attachment-StoresOrKeeps fresh incident actor name chunks before h =
      let filename = sanitise_filename printable name in
      elim (Bool-cases (elem incident before.incidents)) [
        | inr e ↦ rw (e, add_attachment) (inl (_, refl))
        | inl e ↦ elim (Outcome-cases (read_attachment max_bytes chunks)) [
          | inl (x, r) ↦ rw (e, r, add_attachment) (inl (_, refl))
          | inr (payload, r) ↦
              elim (Outcome-cases (extract decode max_text_chars lower payload filename)) [
                | inl (x, q) ↦ rw (e, r, q, add_attachment) (inl (_, refl))
                | inr (extracted, q) ↦
                    rw (e, r, q, add_attachment)
                      (inr (
                        store_attachment fresh incident actor filename payload extracted before,
                        refl,
                        record {
                          payload = payload;
                          filename = filename;
                          extracted = extracted;
                          stored = refl;
                          known = e;
                          size = read_attachment_bounded max_bytes chunks payload r;
                          safe = sanitise_filename-IsSafe printable name h;
                          text =
                              subst (Extracts decode max_text_chars lower payload filename) q
                                (extract-Extracts decode max_text_chars lower payload filename);
                        },
                      ))
              ]
        ]
      ]

-- the attachment that has the id
abbrev pub first_with : ℕ → List Attachment → Option Attachment
first_with id [] = none
first_with id (a ∷ rest) = let later = first_with id rest in if a.id == id then some a else later

abbrev pub not_found : HttpError
not_found = record { status = 404; detail = "Attachment not found" }

find_attachment_foreign :
    (incident id : ℕ) (rows : List Attachment) (a : Attachment)
    → first_with id rows ≡ some a
    → (a.incident_id == incident) ≡ false
    → find_attachment incident id rows ≡ raised not_found
unfolding find_attachment
find_attachment_foreign incident id [] a h k = refl
find_attachment_foreign incident id (b ∷ rest) a h k =
    ground (arith, find_attachment_foreign incident id rest a)

-- An attachment of another incident is neither read nor removed through an incident: both requests
-- answer 404, and the removal changes nothing.
pub foreign_attachment_refused :
    (actor incident id : ℕ) (t : Files) (a : Attachment)
    → first_with id t.attachments ≡ some a
    → (a.incident_id == incident) ≡ false
    → (get_attachment incident id t ≡ raised not_found)
      × (delete_attachment actor incident id t ≡ (t, raised not_found))
unfolding get_attachment delete_attachment
foreign_attachment_refused actor incident id t a h k =
    let e = find_attachment_foreign incident id t.attachments a h k in
    (e, rw (e, delete_attachment) refl)
