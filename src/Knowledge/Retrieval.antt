-- ===== src/Knowledge/Retrieval.antt =====
-- backend/app/services/rag/retrieval.py: the passages for a query. pgvector's cosine distance and
-- the order of floats are an interface; the test of a document's type is an argument.
pub mod Ranking
use soc_analyst.Prelude.{
  ℕ, ◌≡◌, ◌==◌, String, Bool, true, false, ◌&&◌, Option, none, some, List, [], ◌∷◌, map, keep, any,
  take, str_eq, or_default, if◌then◌else◌, Outcome, ok, raised,
}
use soc_analyst.Prelude.Sorting.{sort_by}
use soc_analyst.Enums.{DocumentType}
use soc_analyst.Pystr.{Pystr, strip, is_empty}
use soc_analyst.Knowledge.{
  EmbeddingProvider, EmbeddingError, SecurityDocument, DocumentChunk, Corpus,
}

pub record Distances (V F : Type 0) : Type 0 where
  pub cosine_distance : V → V → F
  -- `1 - distance`, `round(x, 6)`, `x <= y`
  pub similarity : F → F
  pub rounded : F → F
  pub le : F → F → Bool

-- Away from NaN the order of floats is total and transitive.
pub record IsOrdered {V F : Type 0} (m : Distances V F) : Type 0 where
  pub total : (x y : F) → m.le x y ≡ false → m.le y x ≡ true
  pub transitive : (x y z : F) → m.le x y ≡ true → m.le y z ≡ true → m.le x z ≡ true

pub record RetrievedChunk (F : Type 0) : Type 0 where
  pub document_id : ℕ
  pub document_title : String
  pub document_type : DocumentType
  pub chunk_index : ℕ
  pub content : Pystr
  pub similarity : F
  pub source_url : Option String
  pub tags : List String

-- a row of the join, with its distance from the query
pub record Row (V F : Type 0) : Type 0 where
  pub chunk : DocumentChunk V
  pub document : SecurityDocument
  pub distance : F

-- the arguments of `search`
pub record Query (F : Type 0) : Type 0 where
  pub text : Pystr
  pub top_k : Option ℕ
  pub min_similarity : Option F
  pub document_types : List DocumentType
  pub tags : List String

-- the document that a chunk belongs to
unfoldable pub document_of : ℕ → List SecurityDocument → Option SecurityDocument
document_of id [] = none
document_of id (d ∷ ds) = let rest = document_of id ds in if d.id == id then some d else rest

-- `SecurityDocument.tags.contains(tags)`
unfoldable pub has_tags : List String → List String → Bool
has_tags tags [] = true
has_tags tags (t ∷ ts) = any (λ u. str_eq u t) tags && has_tags tags ts

module _ {V F : Type 0} (m : Distances V F) where
  abbrev pub nearer : Row V F → Row V F → Bool
  nearer a b = m.le a.distance b.distance

  abbrev pub passage : Row V F → RetrievedChunk F
  passage r = record {
    document_id = r.chunk.document_id;
    document_title = r.document.title;
    document_type = r.document.document_type;
    chunk_index = r.chunk.chunk_index;
    content = r.chunk.content;
    similarity = m.rounded (m.similarity r.distance);
    source_url = r.document.source_url;
    tags = r.document.tags;
  }

module _ {V F : Type 0} (m : Distances V F) (provider : EmbeddingProvider V)
    (same_type : DocumentType → DocumentType → Bool) (default_top_k : ℕ)
    (default_min_similarity : F) where
  -- `.join(SecurityDocument, ...)` of the chunks that have an embedding
  unfoldable pub joined : V → List SecurityDocument → List (DocumentChunk V) → List (Row V F)
  unfolding document_of
  joined query documents [] = []
  joined query documents (c ∷ cs) =
      let rest = joined query documents cs in
      elim c.embedding [
        | none ↦ rest
        | some v ↦ elim (document_of c.document_id documents) [
          | none ↦ rest
          | some d ↦ record { chunk = c; document = d; distance = m.cosine_distance v query } ∷ rest
        ]
      ]

  abbrev pub same_model : Option String → Bool
  same_model none = false
  same_model (some model) = str_eq model provider.model

  -- the conditions of the statement
  unfoldable pub eligible : Query F → Row V F → Bool
  unfolding has_tags
  eligible q r =
      r.document.is_active
      && same_model r.chunk.embedding_model
      && (if is_empty q.document_types
          then true
          else any (λ t. same_type r.document.document_type t) q.document_types)
      && has_tags r.document.tags q.tags

  -- the rows that the statement returns
  unfoldable pub selected : Query F → V → Corpus V → List (Row V F)
  unfolding joined eligible
  selected q query corpus =
      take (or_default q.top_k default_top_k)
        (sort_by (nearer m) (keep (eligible q) (joined query corpus.documents corpus.chunks)))

  -- `float(row.similarity) >= floor`
  unfoldable pub similar_enough : Query F → Row V F → Bool
  similar_enough q r =
      m.le (or_default q.min_similarity default_min_similarity) (m.similarity r.distance)

  unfoldable pub search : Query F → Corpus V → Outcome EmbeddingError (List (RetrievedChunk F))
  unfolding selected similar_enough
  search q corpus = if is_empty (strip q.text) then ok [] else elim (provider.embed_query q.text) [
    | raised e ↦ raised e
    | ok query ↦ ok (map (passage m) (keep (similar_enough q) (selected q query corpus)))
  ]
