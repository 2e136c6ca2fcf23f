-- ===== src/Knowledge.antt =====
-- backend/app/services/rag/ingestion.py: a document into embedded chunks. `V` is the type of vectors.
-- The keys that the database makes for chunks are left out. What a function returns with its outcome
-- are the tables as the session sees them.
pub mod Endpoints
pub mod Retrieval
pub mod Indexing
pub mod Checksums
use soc_analyst.Prelude.{
  ℕ, zero, suc, ◌+◌, ◌==◌, not, ◌≡◌, String, Bool, true, false, Option, none, some, List, [], ◌∷◌,
  ◌++◌, map, keep, any, length, str_eq, if◌then◌else◌, Outcome, ok, raised, is_some,
}
use soc_analyst.Pystr.{Pystr, is_empty}
use soc_analyst.Chunking.{Chunk, ValueError, chunk_text, normalise}
use soc_analyst.Ingestion.Pipeline.{batches}
use soc_analyst.Enums.{DocumentType}

-- the provider is not there, or cannot run as configured
pub data EmbeddingError : Type 0 where
  unavailable misconfigured : String → EmbeddingError

pub record EmbeddingProvider (V : Type 0) : Type 0 where
  pub name : String
  pub model : String
  pub embed : List Pystr → Outcome EmbeddingError (List V)
  pub embed_query : Pystr → Outcome EmbeddingError V

-- a provider returns one vector for each text
abbrev pub IsFaithful : {V : Type 0} → EmbeddingProvider V → Type 0
IsFaithful {V} p =
    (texts : List Pystr) (vectors : List V)
    → p.embed texts ≡ ok vectors
    → length vectors ≡ length texts

pub record SecurityDocument : Type 0 where
  pub id : ℕ
  pub title : String
  pub document_type : DocumentType
  pub content : Pystr
  pub source_url : Option String
  pub tags : List String
  pub is_active : Bool
  pub checksum : Option String
  pub uploaded_by_id : Option ℕ

pub record DocumentChunk (V : Type 0) : Type 0 where
  pub document_id : ℕ
  pub chunk_index : ℕ
  pub content : Pystr
  pub char_count : ℕ
  pub embedding : Option V
  pub embedding_model : Option String
  pub embedded_at : Option ℕ
  pub provider : String

pub record Corpus (V : Type 0) : Type 0 where
  pub documents : List SecurityDocument
  pub chunks : List (DocumentChunk V)

-- `uneven` is the error of `zip(..., strict=True)`, `endless` a loop of `chunk_text` that needs more
-- rounds than it has.
pub data IndexError : Type 0 where
  empty_document : String → IndexError
  duplicate_document : ℕ → IndexError
  embedding_failed : EmbeddingError → IndexError
  bad_settings : ValueError → IndexError
  uneven endless : IndexError

pub record IndexResult : Type 0 where
  pub document : SecurityDocument
  pub chunks_created : ℕ
  pub embedded : ℕ
  pub provider : String
  pub model : String

-- `RAG_CHUNK_SIZE`, `RAG_CHUNK_OVERLAP`, `EMBEDDING_BATCH_SIZE`
pub record RagSettings : Type 0 where
  pub chunk_size : ℕ
  pub chunk_overlap : ℕ
  pub batch_size : ℕ

-- `checksum`, of the normalised content
unfoldable pub checksum : (Pystr → String) → Pystr → String
checksum sha256 content = sha256 (normalise content)

abbrev pub has_checksum : String → SecurityDocument → Bool
has_checksum digest d = elim d.checksum [ none ↦ false | some c ↦ str_eq c digest ]

-- the id of the document that has the checksum
unfoldable pub find_checksum : String → List SecurityDocument → Option ℕ
find_checksum digest [] = none
find_checksum digest (d ∷ ds) =
    let rest = find_checksum digest ds in if has_checksum digest d then some d.id else rest

module _ {V : Type 0} (provider : EmbeddingProvider V) where
  -- the loop of `_embed_all` over the batches
  unfoldable pub embed_batches : List (List Pystr) → Outcome EmbeddingError (List V)
  embed_batches [] = ok []
  embed_batches (b ∷ bs) =
      let rest = embed_batches bs in
      elim (provider.embed b) [
        | raised e ↦ raised e
        | ok vectors ↦ elim rest [ raised e ↦ raised e | ok more ↦ ok (vectors ++ more) ]
      ]

  unfoldable pub embed_all : ℕ → List Pystr → Outcome EmbeddingError (List V)
  unfolding embed_batches
  embed_all size texts = embed_batches (batches (length texts) size texts)

  unfoldable pub row_for : ℕ → ℕ → Chunk → V → DocumentChunk V
  row_for now document_id chunk vector = record {
    document_id = document_id;
    chunk_index = chunk.index;
    content = chunk.content;
    char_count = length chunk.content;
    embedding = some vector;
    embedding_model = some provider.model;
    embedded_at = some now;
    provider = provider.name;
  }

  -- the loop that adds the rows; `none` where the lists are not of one length
  unfoldable pub rows_for : ℕ → ℕ → List Chunk → List V → Option (List (DocumentChunk V))
  unfolding row_for
  rows_for now id [] [] = some []
  rows_for now id [] (v ∷ vs) = none
  rows_for now id (c ∷ cs) [] = none
  rows_for now id (c ∷ cs) (v ∷ vs) =
      let rest = rows_for now id cs vs in
      elim rest [ none ↦ none | some rows ↦ some (row_for now id c v ∷ rows) ]

  -- `delete(DocumentChunk).where(document_id == document.id)`
  unfoldable pub without_chunks : ℕ → Corpus V → Corpus V
  without_chunks id corpus = record corpus {
    chunks = keep (λ c. not (c.document_id == id)) corpus.chunks;
  }

  -- the session with the new rows in the place of the document's chunks
  unfoldable pub stored : ℕ → List (DocumentChunk V) → Corpus V → Corpus V
  unfolding without_chunks
  stored id rows corpus = record corpus { chunks = (without_chunks id corpus).chunks ++ rows }

  abbrev pub result_for : SecurityDocument → List Chunk → List V → IndexResult
  result_for document chunks vectors = record {
    document = document;
    chunks_created = length chunks;
    embedded = length vectors;
    provider = provider.name;
    model = provider.model;
  }

  -- the writes of `index_document`, after the text is embedded
  unfoldable pub replace_chunks :
      ℕ
      → SecurityDocument
      → List Chunk
      → List V
      → Corpus V
      → Corpus V × Outcome IndexError IndexResult
  unfolding rows_for without_chunks stored
  replace_chunks now document chunks vectors corpus =
      elim (rows_for now document.id chunks vectors) [
        | none ↦ (without_chunks document.id corpus, raised uneven)
        | some rows ↦ (stored document.id rows corpus, ok (result_for document chunks vectors))
      ]

  -- `index_document` from the chunks on
  unfoldable pub index_chunks :
      RagSettings
      → ℕ
      → SecurityDocument
      → List Chunk
      → Corpus V
      → Corpus V × Outcome IndexError IndexResult
  unfolding embed_all replace_chunks
  index_chunks s now document chunks corpus =
      if is_empty chunks
      then (corpus, raised (empty_document "document has no indexable content"))
      else elim (embed_all s.batch_size (map (λ c. c.content) chunks)) [
        | raised e ↦ (corpus, raised (embedding_failed e))
        | ok vectors ↦ replace_chunks now document chunks vectors corpus
      ]

  unfoldable pub index_document :
      RagSettings → ℕ → SecurityDocument → Corpus V → Corpus V × Outcome IndexError IndexResult
  unfolding index_chunks
  index_document s now document corpus =
      elim (chunk_text s.chunk_size s.chunk_overlap document.content) [
        | raised e ↦ (corpus, raised (bad_settings e))
        | ok none ↦ (corpus, raised endless)
        | ok (some chunks) ↦ index_chunks s now document chunks corpus
      ]

  -- `create_document`; `draft` has the values of the request and the id that the flush gives it
  unfoldable pub create_document :
      RagSettings
      → (Pystr → String)
      → ℕ
      → SecurityDocument
      → Corpus V
      → Corpus V × Outcome IndexError IndexResult
  unfolding checksum find_checksum index_document
  create_document s sha256 now draft corpus =
      let document = record draft { checksum = some (checksum sha256 draft.content) } in
      let added = record corpus { documents = corpus.documents ++ document ∷ [] } in
      if is_empty (normalise draft.content)
      then (corpus, raised (empty_document "document content is empty"))
      else elim (find_checksum (checksum sha256 draft.content) corpus.documents) [
        | some id ↦ (corpus, raised (duplicate_document id))
        | none ↦ index_document s now document added
      ]
