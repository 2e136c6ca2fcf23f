-- ===== src/Knowledge/Endpoints.antt =====
-- backend/app/api/v1/endpoints/knowledge.py: the requests that change the corpus. A request that
-- raises ends its session without a commit, so that the tables are those before it.
use soc_analyst.Prelude.{
  ℕ, ◌==◌, not, String, List, [], ◌∷◌, ◌++◌, keep, if◌then◌else◌, Outcome, ok, raised,
}
use soc_analyst.Enums.{AuditAction}
use soc_analyst.Access.Http.{HttpError}
use soc_analyst.Pystr.{Pystr}
use soc_analyst.Knowledge.{
  EmbeddingError, unavailable, misconfigured, EmbeddingProvider, SecurityDocument, Corpus,
  IndexError, empty_document, duplicate_document, embedding_failed, bad_settings, uneven, endless,
  IndexResult, RagSettings, create_document, index_document, without_chunks,
}

-- the entry of `audit.record`
pub record Entry : Type 0 where
  pub action : AuditAction
  pub actor_id : ℕ
  pub resource_id : ℕ

pub record Holdings (V : Type 0) : Type 0 where
  pub corpus : Corpus V
  pub audit_log : List Entry

-- `_embedding_failure`; the details leave out what the provider said and the id
unfoldable pub embedding_failure : EmbeddingError → HttpError
embedding_failure (misconfigured why) = record {
  status = 500;
  detail = "Embedding provider is misconfigured";
}
embedding_failure (unavailable why) = record {
  status = 503;
  detail = "Embedding provider is unavailable";
}

-- the exceptions that the endpoints catch, and 500 for the others
unfoldable pub index_failure : IndexError → HttpError
unfolding embedding_failure
index_failure (empty_document why) = record { status = 422; detail = why }
index_failure (duplicate_document id) = record {
  status = 409;
  detail = "A document with identical content already exists";
}
index_failure (embedding_failed e) = embedding_failure e
index_failure (bad_settings e) = record { status = 500; detail = "Internal Server Error" }
index_failure uneven = record { status = 500; detail = "Internal Server Error" }
index_failure endless = record { status = 500; detail = "Internal Server Error" }

-- `_load`
unfoldable pub load : ℕ → List SecurityDocument → Outcome HttpError SecurityDocument
load id [] = raised (record { status = 404; detail = "Document not found" })
load id (d ∷ ds) = let rest = load id ds in if d.id == id then ok d else rest

module _ {V : Type 0} (provider : EmbeddingProvider V) (s : RagSettings) where
  -- the audit entry and the commit, or the tables before the request
  unfoldable pub conclude :
      AuditAction
      → ℕ
      → Holdings V
      → Corpus V × Outcome IndexError IndexResult
      → Holdings V × Outcome HttpError IndexResult
  unfolding index_failure
  conclude action actor before (corpus, raised e) = (before, raised (index_failure e))
  conclude action actor before (corpus, ok result) = (
    record {
      corpus = corpus;
      audit_log =
          before.audit_log
          ++ record { action = action; actor_id = actor; resource_id = result.document.id } ∷ [];
    },
    ok result,
  )

  unfoldable pub post_document :
      (Pystr → String)
      → ℕ
      → ℕ
      → SecurityDocument
      → Holdings V
      → Holdings V × Outcome HttpError IndexResult
  unfolding create_document conclude
  post_document sha256 now actor draft before =
      conclude AuditAction.create actor before
        (create_document provider s sha256 now draft before.corpus)

  unfoldable pub reindex_document :
      ℕ → ℕ → ℕ → Holdings V → Holdings V × Outcome HttpError IndexResult
  unfolding load index_document conclude
  reindex_document now actor id before = elim (load id before.corpus.documents) [
    | raised e ↦ (before, raised e)
    | ok document ↦
        conclude AuditAction.update actor before
          (index_document provider s now document before.corpus)
  ]

  -- The deletion cascades to the chunks.
  unfoldable pub delete_document : ℕ → ℕ → Holdings V → Holdings V × Outcome HttpError (Unit {0})
  unfolding load without_chunks
  delete_document actor id before = elim (load id before.corpus.documents) [
    | raised e ↦ (before, raised e)
    | ok document ↦ (
      record {
        corpus = record (without_chunks provider id before.corpus) {
          documents = keep (λ d. not (d.id == id)) before.corpus.documents;
        };
        audit_log =
            before.audit_log
            ++ record { action = AuditAction.delete; actor_id = actor; resource_id = document.id }
              ∷ [];
      },
      ok tt,
    )
  ]
