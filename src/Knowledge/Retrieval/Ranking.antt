-- ===== src/Knowledge/Retrieval/Ranking.antt =====
-- What a search returns.
use mathlib.Core.List.{Memᴰ}
use soc_analyst.Prelude.{
  ℕ, ◌≡◌, ◌⊎◌, Bool, true, false, some, List, [], map, keep, take, any, All, or_default, str_eq,
  Outcome, ok, raised,
}
use soc_analyst.Prelude.Sorting.{IsSortedBy}
use soc_analyst.Enums.{DocumentType}
use soc_analyst.Pystr.{strip, is_empty}
use soc_analyst.Knowledge.{
  EmbeddingProvider, EmbeddingError, SecurityDocument, DocumentChunk, Corpus,
}
use soc_analyst.Knowledge.Retrieval.{
  Distances, RetrievedChunk, Row, Query, document_of, joined, eligible, nearer, passage,
}

module _ {V F : Type 0} (m : Distances V F) (provider : EmbeddingProvider V)
    (same_type : DocumentType → DocumentType → Bool) (default_top_k : ℕ)
    (default_min_similarity : F) where
  -- a passage of the corpus, with its document and its distance from the query
  pub record FromCorpus (query : V) (documents : List SecurityDocument)
      (chunks : List (DocumentChunk V)) (r : Row V F) : Type 0 where
    pub stored : Memᴰ r.chunk chunks
    pub vector : V
    pub embedded : r.chunk.embedding ≡ some vector
    pub owner : document_of r.chunk.document_id documents ≡ some r.document
    pub measured : r.distance ≡ m.cosine_distance vector query

  -- what a passage must be, whatever its distance
  pub record Allowed (q : Query F) (r : Row V F) : Type 0 where
    pub active : r.document.is_active ≡ true
    pub same_space : r.chunk.embedding_model ≡ some provider.model
    pub typed :
        (q.document_types ≡ [])
        ⊎ (any (λ t. same_type r.document.document_type t) q.document_types ≡ true)
    pub tagged : All (λ t. any (λ u. str_eq u t) r.document.tags ≡ true) q.tags

  -- The hits are those of the nearest allowed passages of the corpus that are similar enough: the
  -- candidates are all the allowed ones and no others, nearest first.
  pub record Ranked (q : Query F) (query : V) (corpus : Corpus V) (hits : List (RetrievedChunk F))
      : Type 0 where
    pub candidates : List (Row V F)
    pub permitted :
        All (λ r. FromCorpus query corpus.documents corpus.chunks r × Allowed q r) candidates
    pub complete :
        (r : Row V F)
        → FromCorpus query corpus.documents corpus.chunks r
        → Allowed q r
        → Memᴰ r candidates
    pub nearest_first : IsSortedBy (nearer m) candidates
    pub passages :
        hits
        ≡ map (passage m) (
            keep
              (λ r.
                m.le (or_default q.min_similarity default_min_similarity) (m.similarity r.distance))
              (take (or_default q.top_k default_top_k) candidates))

  -- nothing for a blank query, the provider's error, or the ranked hits
  abbrev pub RanksOrRaises :
      Query F → Corpus V → Outcome EmbeddingError (List (RetrievedChunk F)) → Type 0
  RanksOrRaises q corpus out =
      ((is_empty (strip q.text) ≡ true) × (out ≡ ok []))
      ⊎ (((e : EmbeddingError) × (out ≡ raised e) × (provider.embed_query q.text ≡ raised e))
          ⊎ ((query : V) × (hits : List (RetrievedChunk F)) × (out ≡ ok hits)
              × (is_empty (strip q.text) ≡ false)
              × (provider.embed_query q.text ≡ ok query)
              × Ranked q query corpus hits))

  is_eligible : Query F → Row V F → Bool
  is_eligible = eligible m provider same_type default_top_k default_min_similarity

  join : V → List SecurityDocument → List (DocumentChunk V) → List (Row V F)
  join = joined m provider same_type default_top_k default_min_similarity
