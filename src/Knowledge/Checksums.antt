-- ===== src/Knowledge/Checksums.antt =====
-- No content is stored twice.
use soc_analyst.Prelude.{
  ℕ, ◌<◌, ◌≡◌, ◌≢◌, refl, sym, ap, ◌∙◌, All, inl, inr, ◌==◌, not, String, Bool, false, none, some,
  List, [], ◌∷◌, ◌++◌, keep, arith, eq_iff, Outcome, Outcome-cases, Option-cases, Bool-cases,
}
use mathlib.Core.Bool.{false≢true}
use soc_analyst.Enums.{AuditAction}
use soc_analyst.Pystr.{Pystr, is_empty}
use soc_analyst.Chunking.{normalise}
use soc_analyst.Knowledge.{
  EmbeddingProvider, IsFaithful, SecurityDocument, Corpus, IndexError, IndexResult, RagSettings,
  checksum, has_checksum, find_checksum, create_document,
}
use soc_analyst.Knowledge.Indexing.{IndexesOrKeeps, index_document-IndexesOrKeeps}
use soc_analyst.Knowledge.Endpoints.{
  Holdings, load, conclude, post_document, reindex_document, delete_document,
}

-- no later document has an earlier one's content, up to what `normalise` leaves out
abbrev pub IsNew : Pystr → List SecurityDocument → Type 0
IsNew content ds = All (λ d. normalise content ≢ normalise d.content) ds

module _ (sha256 : Pystr → String) where
  -- Each document carries the checksum of its content, and no two have the same content.
  abbrev pub IsCatalogue : List SecurityDocument → Type 0
  IsCatalogue [] = Unit
  IsCatalogue (d ∷ ds) =
      (d.checksum ≡ some (checksum sha256 d.content)) × IsNew d.content ds × IsCatalogue ds

  -- a document with the same content would have been found
  unlike :
      (content : Pystr) (d : SecurityDocument)
      → d.checksum ≡ some (checksum sha256 d.content)
      → has_checksum (checksum sha256 content) d ≡ false
      → normalise d.content ≢ normalise content
  unfolding checksum
  unlike content d e h same = false≢true (
      sym h
      ∙ rw e
          ((eq_iff (sha256 (normalise d.content)) (sha256 (normalise content))).1 (ap sha256 same)))

  IsNew-append :
      (content : Pystr) (ds : List SecurityDocument) (d : SecurityDocument)
      → IsNew content ds
      → normalise content ≢ normalise d.content
      → IsNew content (ds ++ d ∷ [])
  IsNew-append content [] d h n = (n, tt)
  IsNew-append content (x ∷ ds) d h n = (h.0, IsNew-append content ds d h.1 n)

  IsCatalogue-append :
      (ds : List SecurityDocument) (d : SecurityDocument)
      → d.checksum ≡ some (checksum sha256 d.content)
      → find_checksum (checksum sha256 d.content) ds ≡ none
      → IsCatalogue ds
      → IsCatalogue (ds ++ d ∷ [])
  unfolding find_checksum
  IsCatalogue-append [] d e n h = (e, tt, tt)
  IsCatalogue-append (x ∷ ds) d e n h =
      let absent : has_checksum (checksum sha256 d.content) x ≡ false = ground arith in
      (
        h.0,
        IsNew-append x.content ds d h.1 (unlike d.content x h.0 absent),
        IsCatalogue-append ds d e (ground (arith, absent)) h.2,
      )

  IsNew-keep :
      (p : SecurityDocument → Bool) (content : Pystr) (ds : List SecurityDocument)
      → IsNew content ds
      → IsNew content (keep p ds)
  IsNew-keep p content [] h = tt
  IsNew-keep p content (d ∷ ds) h = elim (Bool-cases (p d)) [
    | inl e ↦ rw e (h.0, IsNew-keep p content ds h.1)
    | inr e ↦ rw e (IsNew-keep p content ds h.1)
  ]

  IsCatalogue-keep :
      (p : SecurityDocument → Bool) (ds : List SecurityDocument)
      → IsCatalogue ds
      → IsCatalogue (keep p ds)
  IsCatalogue-keep p [] h = tt
  IsCatalogue-keep p (d ∷ ds) h = elim (Bool-cases (p d)) [
    | inl e ↦ rw e (h.0, IsNew-keep p d.content ds h.1, IsCatalogue-keep p ds h.2)
    | inr e ↦ rw e (IsCatalogue-keep p ds h.2)
  ]

module _ {V : Type 0} (provider : EmbeddingProvider V) (faithful : IsFaithful provider)
    (s : RagSettings) (overlap : s.chunk_overlap < s.chunk_size) (batch : 0 < s.batch_size)
    (sha256 : Pystr → String) where
  -- What the session has when a request ends without an error is what is stored.
  conclude-IsCatalogue :
      (action : AuditAction) (actor : ℕ) (before : Holdings V) (document : SecurityDocument)
      (session : Corpus V) (out : Corpus V × Outcome IndexError IndexResult)
      → IndexesOrKeeps provider s document session out
      → IsCatalogue sha256 before.corpus.documents
      → IsCatalogue sha256 session.documents
      → IsCatalogue sha256 (conclude provider s action actor before out).0.corpus.documents
  unfolding conclude
  conclude-IsCatalogue action actor before document session out (inl (e, q)) u v = rw q u
  conclude-IsCatalogue action actor before document session out (inr (inl q)) u v = rw q u
  conclude-IsCatalogue action actor before document session out (inr (inr (after, result, q, r, i)))
        u v =
      rw (q, i.documents) v

  post-IsCatalogue :
      (now actor : ℕ) (draft : SecurityDocument) (before : Holdings V)
      → IsCatalogue sha256 before.corpus.documents
      → IsCatalogue sha256
          (post_document provider s sha256 now actor draft before).0.corpus.documents
  unfolding post_document create_document conclude
  post-IsCatalogue now actor draft before u =
      let digest = checksum sha256 draft.content in
      let document = record draft { checksum = some digest } in
      elim (Bool-cases (is_empty (normalise draft.content))) [
        | inl e ↦ rw e u
        | inr e ↦ elim (Option-cases (find_checksum digest before.corpus.documents)) [
          | inr (id, q) ↦ rw (e, q) u
          | inl q ↦
              rw (e, q)
                (conclude-IsCatalogue AuditAction.create actor before document _ _
                  (index_document-IndexesOrKeeps provider faithful s now document _ overlap batch) u
                  (IsCatalogue-append sha256 before.corpus.documents document refl q u))
        ]
      ]

  reindex-IsCatalogue :
      (now actor id : ℕ) (before : Holdings V)
      → IsCatalogue sha256 before.corpus.documents
      → IsCatalogue sha256 (reindex_document provider s now actor id before).0.corpus.documents
  unfolding reindex_document
  reindex-IsCatalogue now actor id before u =
      elim (Outcome-cases (load id before.corpus.documents)) [
        | inl (e, q) ↦ rw (q, reindex_document) u
        | inr (d, q) ↦
            rw (q, reindex_document)
              (conclude-IsCatalogue AuditAction.update actor before d before.corpus _
                (index_document-IndexesOrKeeps provider faithful s now d before.corpus overlap
                  batch)
                u u)
      ]

  delete-IsCatalogue :
      (actor id : ℕ) (before : Holdings V)
      → IsCatalogue sha256 before.corpus.documents
      → IsCatalogue sha256 (delete_document provider s actor id before).0.corpus.documents
  unfolding delete_document
  delete-IsCatalogue actor id before u = elim (Outcome-cases (load id before.corpus.documents)) [
    | inl (e, q) ↦ rw (q, delete_document) u
    | inr (d, q) ↦
        rw (q, delete_document)
          (IsCatalogue-keep sha256 (λ x. not (x.id == id)) before.corpus.documents u)
  ]

  -- Whatever request changes the corpus, if each document carried the checksum of its content and no
  -- two had the same content, up to line ends and white space, then so it is afterwards. The overlap
  -- is smaller than the chunk size, batches are not empty, and the provider returns one vector for
  -- each text.
  pub requests_keep_unique :
      (now actor id : ℕ) (draft : SecurityDocument) (before : Holdings V)
      → IsCatalogue sha256 before.corpus.documents
      → IsCatalogue sha256
          (post_document provider s sha256 now actor draft before).0.corpus.documents
        × IsCatalogue sha256 (reindex_document provider s now actor id before).0.corpus.documents
        × IsCatalogue sha256 (delete_document provider s actor id before).0.corpus.documents
  requests_keep_unique now actor id draft before u = (
    post-IsCatalogue now actor draft before u,
    reindex-IsCatalogue now actor id before u,
    delete-IsCatalogue actor id before u,
  )
