-- ===== src/Attachments.antt =====
-- backend/app/services/attachments.py: the text of an upload. Bytes are numbers; `lower` is
-- `str.lower`, and `decode` is UTF-8 decoding, which raises at a byte.
pub mod Filenames
pub mod Extraction
pub mod Endpoints
pub mod Ownership
use soc_analyst.Prelude.{
  ℕ, String, Bool, true, false, ◌&&◌, ◌||◌, Option, none, some, is_some, List, [], ◌∷◌, any, take,
  length, ltb, ◌==◌, if◌then◌else◌, Outcome, ok, raised,
}
use soc_analyst.Pystr.{Pystr, codes, strip, is_empty, replace_crlf, same_text}

abbrev pub allowed_extensions : List (String × String)
allowed_extensions =
    (".txt", "text/plain")
    ∷ (".log", "text/plain")
    ∷ (".md", "text/markdown")
    ∷ (".csv", "text/csv")
    ∷ (".tsv", "text/tab-separated-values")
    ∷ (".json", "application/json")
    ∷ (".jsonl", "application/x-ndjson")
    ∷ (".ndjson", "application/x-ndjson")
    ∷ (".yaml", "application/yaml")
    ∷ (".yml", "application/yaml")
    ∷ (".xml", "application/xml")
    ∷ (".conf", "text/plain")
    ∷ (".ini", "text/plain")
    ∷ []

-- the reasons for which an upload is refused
pub data AttachmentError : Type 0 where
  unsupported : Pystr → AttachmentError
  empty_file binary no_text : AttachmentError
  not_utf8 : ℕ → AttachmentError

pub record ExtractedText : Type 0 where
  pub content : Pystr
  pub truncated : Bool
  pub content_type : String

-- what follows the last full stop
unfoldable pub last_suffix : Pystr → Option Pystr
last_suffix [] = none
last_suffix (c ∷ cs) = elim (last_suffix cs) [
  | some suffix ↦ some suffix
  | none ↦ if c == 46 then some cs else none
]

-- `ALLOWED_EXTENSIONS[extension]`
unfoldable pub type_of : List (String × String) → Pystr → Option String
type_of [] extension = none
type_of ((name, label) ∷ rest) extension =
    let later = type_of rest extension in
    if same_text extension (codes name) then some label else later

module _ (lower : Pystr → Pystr) where
  unfoldable pub extension_of : Pystr → Pystr
  unfolding last_suffix
  extension_of filename = elim (last_suffix filename) [
    | none ↦ []
    | some suffix ↦ if is_empty suffix then [] else 46 ∷ lower suffix
  ]

  unfoldable pub is_supported : Pystr → Bool
  unfolding extension_of type_of
  is_supported filename = is_some (type_of allowed_extensions (extension_of filename))

-- what `extract` makes of a stripped text
unfoldable pub bounded : ℕ → String → Pystr → Outcome AttachmentError ExtractedText
bounded limit label t =
    if is_empty t
    then raised no_text
    else ok
        (record { content = take limit t; truncated = ltb limit (length t); content_type = label })

module _ (decode : List ℕ → Outcome ℕ Pystr) (max_text_chars : ℕ) where
  unfoldable pub extract_text : String → List ℕ → Outcome AttachmentError ExtractedText
  unfolding bounded
  extract_text label payload =
      if is_empty payload
      then raised empty_file
      else if any (λ b. b == 0) (take 8192 payload)
      then raised binary
      else elim (decode payload) [
        | raised start ↦ raised (not_utf8 start)
        | ok t ↦ bounded max_text_chars label (strip (replace_crlf t))
      ]

  unfoldable pub extract : (Pystr → Pystr) → List ℕ → Pystr → Outcome AttachmentError ExtractedText
  unfolding extension_of type_of extract_text
  extract lower payload filename = elim (type_of allowed_extensions (extension_of lower filename)) [
    | none ↦ raised (unsupported (extension_of lower filename))
    | some label ↦ extract_text label payload
  ]
