-- ===== src/Knowledge/Indexing.antt =====
-- What indexing does to the corpus.
use mathlib.Core.List.{append-nil}
use soc_analyst.Prelude.{
  ℕ, suc, ◌<◌, ◌≡◌, refl, sym, ap, ap₂, subst, ◌∙◌, ◌⊎◌, inl, inr, ◌==◌, not, Bool, true, some,
  is_some, List, [], ◌∷◌, ◌++◌, map, keep, length, length-append, arith, All, Outcome, ok, raised,
  Outcome-cases, Bool-cases,
}
use soc_analyst.Pystr.{Pystr, is_empty}
use soc_analyst.Chunking.{Chunk, chunk_text}
use soc_analyst.Chunking.Cover.{chunk_text_bounds}
use soc_analyst.Ingestion.Pipeline.{batches}
use soc_analyst.Ingestion.Pipeline.Batches.{concat, batches_lem}
use soc_analyst.Knowledge.{
  EmbeddingError, EmbeddingProvider, IsFaithful, SecurityDocument, DocumentChunk, Corpus,
  IndexError, empty_document, embedding_failed, IndexResult, RagSettings, embed_batches, embed_all,
  row_for, rows_for, without_chunks, stored, result_for, replace_chunks, index_chunks,
  index_document,
}

pub length-map : {A B : Type 0} (f : A → B) (xs : List A) → length (map f xs) ≡ length xs
length-map f [] = refl
length-map f (x ∷ xs) = ap (λ n. suc n) (length-map f xs)

module _ {V : Type 0} where
  keep-append :
      (p : DocumentChunk V → Bool) (xs ys : List (DocumentChunk V))
      → keep p (xs ++ ys) ≡ keep p xs ++ keep p ys
  keep-append p [] ys = refl
  keep-append p (x ∷ xs) ys = ground (arith, keep-append p xs ys)

  keep_twice :
      (p : DocumentChunk V → Bool) (xs : List (DocumentChunk V)) → keep p (keep p xs) ≡ keep p xs
  keep_twice p [] = refl
  keep_twice p (x ∷ xs) = ground (arith, keep_twice p xs)

  keep_other :
      (p : DocumentChunk V → Bool) (xs : List (DocumentChunk V))
      → keep p (keep (λ x. not (p x)) xs) ≡ []
  keep_other p [] = refl
  keep_other p (x ∷ xs) = ground (arith, keep_other p xs)

  keep_every :
      (p : DocumentChunk V → Bool) (xs : List (DocumentChunk V))
      → All (λ x. p x ≡ true) xs
      → keep p xs ≡ xs
  keep_every p [] h = refl
  keep_every p (x ∷ xs) h = ground (arith, keep_every p xs h.1)

  keep_no :
      (p : DocumentChunk V → Bool) (xs : List (DocumentChunk V))
      → All (λ x. p x ≡ true) xs
      → keep (λ x. not (p x)) xs ≡ []
  keep_no p [] h = refl
  keep_no p (x ∷ xs) h = ground (arith, keep_no p xs h.1)

module _ {V : Type 0} (provider : EmbeddingProvider V) (faithful : IsFaithful provider) where
  length-embed_batches :
      (bs : List (List Pystr)) (vectors : List V)
      → embed_batches provider bs ≡ ok vectors
      → length vectors ≡ length (concat bs)
  unfolding embed_batches
  length-embed_batches [] vectors h = ground arith
  length-embed_batches (b ∷ bs) vectors h = elim (Outcome-cases (provider.embed b)) [
    | inl (e, q) ↦ absurd (ground (arith, rw (q, embed_batches) at h))
    | inr (xs, q) ↦ elim (Outcome-cases (embed_batches provider bs)) [
      | inl (e, r) ↦ absurd (ground (arith, rw (q, r, embed_batches) at h))
      | inr (ys, r) ↦ ground (
        arith,
        rw (q, r, embed_batches) at h,
        length-append xs ys,
        length-append b (concat bs),
        faithful b xs q,
        length-embed_batches bs ys r,
      )
    ]
  ]

  pub length-embed_all :
      (size : ℕ) (texts : List Pystr) (vectors : List V)
      → 0 < size
      → embed_all provider size texts ≡ ok vectors
      → length vectors ≡ length texts
  unfolding embed_all
  length-embed_all size texts vectors p h =
      length-embed_batches (batches (length texts) size texts) vectors h
      ∙ ap (λ l. length l) (batches_lem (length texts) size texts p (omega arith)).0

module _ {V : Type 0} (provider : EmbeddingProvider V) where
  -- the rows of the chunks, in order, each embedded with the provider's model
  pub record AreRows (id : ℕ) (chunks : List Chunk) (rows : List (DocumentChunk V)) : Type 0 where
    pub contents : map (λ r. r.content) rows ≡ map (λ c. c.content) chunks
    pub indexes : map (λ r. r.chunk_index) rows ≡ map (λ c. c.index) chunks
    pub owned : All (λ r. (r.document_id == id) ≡ true) rows
    pub models : All (λ r. r.embedding_model ≡ some provider.model) rows
    pub embedded : All (λ r. is_some r.embedding ≡ true) rows

  rows_for-AreRows :
      (now id : ℕ) (chunks : List Chunk) (vectors : List V)
      → length vectors ≡ length chunks
      → (rows : List (DocumentChunk V)) × (rows_for provider now id chunks vectors ≡ some rows)
        × AreRows id chunks rows
  unfolding rows_for row_for
  rows_for-AreRows now id [] [] h =
      ([], refl, record { contents = refl; indexes = refl; owned = tt; models = tt; embedded = tt })
  rows_for-AreRows now id [] (v ∷ vs) h = absurd (omega arith)
  rows_for-AreRows now id (c ∷ cs) [] h = absurd (omega arith)
  rows_for-AreRows now id (c ∷ cs) (v ∷ vs) h =
      let (rows, e, are) = rows_for-AreRows now id cs vs (omega arith) in
      (
        row_for provider now id c v ∷ rows,
        rw e refl,
        record {
          contents = ap (λ l. c.content ∷ l) are.contents;
          indexes = ap (λ l. c.index ∷ l) are.indexes;
          owned = (ground arith, are.owned);
          models = (refl, are.models);
          embedded = (refl, are.embedded);
        },
      )

  -- The chunks of the document are the rows of its text, and those of the others are as before.
  pub record IsIndexed (s : RagSettings) (document : SecurityDocument) (before after : Corpus V)
      : Type 0 where
    pub chunks : List Chunk
    pub chunked : chunk_text s.chunk_size s.chunk_overlap document.content ≡ ok (some chunks)
    pub own : AreRows document.id chunks (keep (λ c. c.document_id == document.id) after.chunks)
    pub others :
        keep (λ c. not (c.document_id == document.id)) after.chunks
        ≡ keep (λ c. not (c.document_id == document.id)) before.chunks
    pub documents : after.documents ≡ before.documents

  stored-IsIndexed :
      (s : RagSettings) (document : SecurityDocument) (chunks : List Chunk)
      (rows : List (DocumentChunk V)) (before : Corpus V)
      → chunk_text s.chunk_size s.chunk_overlap document.content ≡ ok (some chunks)
      → AreRows document.id chunks rows
      → IsIndexed s document before (stored provider document.id rows before)
  unfolding stored without_chunks
  stored-IsIndexed s document chunks rows before e are = record {
    chunks = chunks;
    chunked = e;
    own =
        subst (AreRows document.id chunks)
          (sym (
            keep-append (λ c. c.document_id == document.id)
              (keep (λ c. not (c.document_id == document.id)) before.chunks) rows
            ∙ ap₂ ◌++◌ (keep_other (λ c. c.document_id == document.id) before.chunks)
                (keep_every (λ c. c.document_id == document.id) rows are.owned)))
          are;
    others =
        keep-append (λ c. not (c.document_id == document.id))
          (keep (λ c. not (c.document_id == document.id)) before.chunks) rows
        ∙ (ap₂ ◌++◌ (keep_twice (λ c. not (c.document_id == document.id)) before.chunks)
              (keep_no (λ c. c.document_id == document.id) rows are.owned)
            ∙ append-nil (keep (λ c. not (c.document_id == document.id)) before.chunks));
    documents = refl;
  }

  -- nothing written and an error, or the corpus with the document indexed
  abbrev pub IndexesOrKeeps :
      RagSettings → SecurityDocument → Corpus V → Corpus V × Outcome IndexError IndexResult → Type 0
  IndexesOrKeeps s document before out =
      ((e : EmbeddingError) × (out ≡ (before, raised (embedding_failed e))))
      ⊎ ((out ≡ (before, raised (empty_document "document has no indexable content")))
          ⊎ ((after : Corpus V) × (result : IndexResult) × (out ≡ (after, ok result))
              × (result.document ≡ document)
              × IsIndexed s document before after))

  module _ (faithful : IsFaithful provider) where
    replace_chunks-IsIndexed :
        (s : RagSettings) (now : ℕ) (document : SecurityDocument) (chunks : List Chunk)
        (vectors : List V) (before : Corpus V)
        → chunk_text s.chunk_size s.chunk_overlap document.content ≡ ok (some chunks)
        → length vectors ≡ length chunks
        → IndexesOrKeeps s document before
            (replace_chunks provider now document chunks vectors before)
    unfolding replace_chunks
    replace_chunks-IsIndexed s now document chunks vectors before e h =
        let (rows, r, are) = rows_for-AreRows now document.id chunks vectors h in
        inr (
          inr (
            stored provider document.id rows before,
            result_for provider document chunks vectors,
            rw (r, replace_chunks) refl,
            refl,
            stored-IsIndexed s document chunks rows before e are,
          ))

    index_chunks-IndexesOrKeeps :
        (s : RagSettings) (now : ℕ) (document : SecurityDocument) (chunks : List Chunk)
        (before : Corpus V)
        → 0 < s.batch_size
        → chunk_text s.chunk_size s.chunk_overlap document.content ≡ ok (some chunks)
        → IndexesOrKeeps s document before (index_chunks provider s now document chunks before)
    unfolding index_chunks
    index_chunks-IndexesOrKeeps s now document chunks before b e =
        elim (Bool-cases (is_empty chunks)) [
          | inl n ↦ rw n (inr (inl refl))
          | inr n ↦
              elim (Outcome-cases (embed_all provider s.batch_size (map (λ c. c.content) chunks))) [
                | inl (x, q) ↦ rw (n, q) (inl (x, refl))
                | inr (vs, q) ↦
                    rw (n, q)
                      (replace_chunks-IsIndexed s now document chunks vs before e (
                        length-embed_all provider faithful s.batch_size _ vs b q
                        ∙ length-map (λ c. c.content) chunks))
              ]
        ]

    -- Indexing a document either raises, because the provider failed or the text is empty, and then
    -- the corpus is as it was, or it leaves exactly the rows of the new chunks as the document's
    -- chunks, in order and embedded with the provider's model, and the chunks of every other document
    -- as they were. The overlap is smaller than the chunk size, batches are not empty, and the
    -- provider returns one vector for each text.
    pub index_document-IndexesOrKeeps :
        (s : RagSettings) (now : ℕ) (document : SecurityDocument) (before : Corpus V)
        → s.chunk_overlap < s.chunk_size
        → 0 < s.batch_size
        → IndexesOrKeeps s document before (index_document provider s now document before)
    unfolding index_document
    index_document-IndexesOrKeeps s now document before l b =
        let (chunks, e, bounded, numbered) =
          chunk_text_bounds s.chunk_size s.chunk_overlap document.content l in
        rw (e, index_document) (index_chunks-IndexesOrKeeps s now document chunks before b e)
