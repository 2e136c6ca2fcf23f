-- ===== src/Attachments/Extraction.antt =====
-- What `extract` returns.
use soc_analyst.Prelude.{
  ℕ, String, ◌≤◌, ◌≡◌, refl, inl, inr, false, some, List, arith, any, take, length, ltb,
  length-take, ◌==◌, Outcome, ok, raised, Outcome-cases, Option-cases, Bool-cases,
}
use soc_analyst.Pystr.{Pystr, strip, is_empty, replace_crlf}
use soc_analyst.Attachments.{
  allowed_extensions, AttachmentError, ExtractedText, type_of, extension_of, bounded, extract_text,
  extract,
}

-- The text of a file of an allowed extension, with no zero byte at its front: the decoded bytes with
-- plain line ends and no space around, cut at the limit.
pub record IsText (lower : Pystr → Pystr) (decode : List ℕ → Outcome ℕ Pystr) (limit : ℕ)
    (payload : List ℕ) (filename : Pystr) (e : ExtractedText) : Type 0 where
  pub allowed : type_of allowed_extensions (extension_of lower filename) ≡ some e.content_type
  pub no_zero : any (λ b. b == 0) (take 8192 payload) ≡ false
  pub text : Pystr
  pub decoded : decode payload ≡ ok text
  pub content : e.content ≡ take limit (strip (replace_crlf text))
  pub short : length e.content ≤ limit
  pub truncated : e.truncated ≡ ltb limit (length (strip (replace_crlf text)))

module _ (decode : List ℕ → Outcome ℕ Pystr) (limit : ℕ) (lower : Pystr → Pystr) (payload : List ℕ)
    (filename : Pystr) where
  abbrev pub Extracts : Outcome AttachmentError ExtractedText → Type 0
  Extracts (raised e) = Unit
  Extracts (ok e) = IsText lower decode limit payload filename e

  bounded-Extracts :
      (label : String) (text : Pystr)
      → type_of allowed_extensions (extension_of lower filename) ≡ some label
      → any (λ b. b == 0) (take 8192 payload) ≡ false
      → decode payload ≡ ok text
      → Extracts (bounded limit label (strip (replace_crlf text)))
  unfolding bounded
  bounded-Extracts label text a z d = elim (Bool-cases (is_empty (strip (replace_crlf text)))) [
    | inl e ↦ rw e tt
    | inr e ↦ rw e (record {
      allowed = a;
      no_zero = z;
      text = text;
      decoded = d;
      content = refl;
      short = omega (arith, length-take limit (strip (replace_crlf text)));
      truncated = refl;
    })
  ]

  extract_text-Extracts :
      (label : String)
      → type_of allowed_extensions (extension_of lower filename) ≡ some label
      → Extracts (extract_text decode limit label payload)
  unfolding extract_text
  extract_text-Extracts label a = elim (Bool-cases (is_empty payload)) [
    | inl e ↦ rw e tt
    | inr e ↦ elim (Bool-cases (any (λ b. b == 0) (take 8192 payload))) [
      | inl z ↦ rw (e, z) tt
      | inr z ↦ elim (Outcome-cases (decode payload)) [
        | inl (start, d) ↦ rw (e, z, d) tt
        | inr (text, d) ↦ rw (e, z, d) (bounded-Extracts label text a z d)
      ]
    ]
  ]

  pub extract-Extracts : Extracts (extract decode limit lower payload filename)
  unfolding extract
  extract-Extracts =
      elim (Option-cases (type_of allowed_extensions (extension_of lower filename))) [
        | inl a ↦ rw (a, extract) tt
        | inr (label, a) ↦ rw (a, extract) (extract_text-Extracts label a)
      ]
