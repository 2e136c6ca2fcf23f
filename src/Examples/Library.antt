-- ===== src/Examples/Library.antt =====
-- A knowledge base of one document, with a provider whose vectors are the lengths of texts.
use soc_analyst.Prelude.{
  ℕ, ◌+◌, ◌-◌, ◌≡◌, refl, arith, true, none, some, String, [], ◌∷◌, map, length, leb, ok, ◌==◌,
  if◌then◌else◌,
}
use soc_analyst.Enums.{playbook}
use soc_analyst.Pystr.{
  Pystr, codes, replace_crlf, replace_cr, split_lines, join_lines, strip, rstrip, lstrip, is_space,
}
use soc_analyst.Chunking.{normalise}
use soc_analyst.Knowledge.{
  EmbeddingProvider, IsFaithful, SecurityDocument, Corpus, RagSettings, index_document, checksum,
}
use soc_analyst.Knowledge.Indexing.{IndexesOrKeeps, length-map, index_document-IndexesOrKeeps}
use soc_analyst.Knowledge.Endpoints.{Holdings, post_document, reindex_document, delete_document}
use soc_analyst.Knowledge.Checksums.{IsCatalogue, requests_keep_unique}
use soc_analyst.Knowledge.Retrieval.{Distances, Query}

abbrev counting : EmbeddingProvider ℕ
counting = record {
  name = "counting";
  model = "length";
  embed = λ texts. ok (map (λ t. length t) texts);
  embed_query = λ t. ok (length t);
}

counting-IsFaithful : IsFaithful counting
counting-IsFaithful texts vectors h = ground (arith, length-map (λ (t : Pystr). length t) texts)

abbrev guide : SecurityDocument
guide = record {
  id = 1;
  title = "guide";
  document_type = playbook;
  content = codes "block it";
  source_url = none;
  tags = "ssh" ∷ [];
  is_active = true;
  checksum = some "a";
  uploaded_by_id = none;
}

abbrev small : RagSettings
small = record { chunk_size = 20; chunk_overlap = 2; batch_size = 8 }

abbrev shelf : Corpus ℕ
shelf = record {
  documents = guide ∷ [];
  chunks =
      record {
        document_id = 1;
        chunk_index = 0;
        content = codes "block it";
        char_count = 8;
        embedding = some 8;
        embedding_model = some "length";
        embedded_at = some 4;
        provider = "counting";
      }
      ∷ [];
}

index_document-IndexesOrKeeps_example :
    IndexesOrKeeps counting small guide shelf (index_document counting small 5 guide shelf)
index_document-IndexesOrKeeps_example =
    index_document-IndexesOrKeeps counting counting-IsFaithful small 5 guide shelf (omega arith)
      (omega arith)

abbrev holdings : Holdings ℕ
holdings = record { corpus = shelf; audit_log = [] }

-- a digest that tells the two contents apart
abbrev digest : Pystr → String
digest t = if length t == 8 then "a" else "b"

abbrev draft : SecurityDocument
draft = record guide { id = 2; content = codes "rotate keys" }

guide_summed : guide.checksum ≡ some (checksum digest guide.content)
unfolding checksum normalise replace_crlf replace_cr split_lines join_lines strip rstrip lstrip
    is_space
guide_summed = refl

requests_keep_unique_example :
    IsCatalogue digest (post_document counting small digest 5 7 draft holdings).0.corpus.documents
    × IsCatalogue digest (reindex_document counting small 5 7 1 holdings).0.corpus.documents
    × IsCatalogue digest (delete_document counting small 7 1 holdings).0.corpus.documents
requests_keep_unique_example =
    requests_keep_unique counting counting-IsFaithful small (omega arith) (omega arith) digest 5 7 1
      draft holdings (guide_summed, tt, tt)

abbrev apart : Distances ℕ ℕ
apart = record {
  cosine_distance = λ x y. (x - y) + (y - x);
  similarity = λ d. 100 - d;
  rounded = λ x. x;
  le = λ x y. leb x y;
}

abbrev question : Query ℕ
question = record {
  text = codes "block";
  top_k = some 1;
  min_similarity = none;
  document_types = [];
  tags = "ssh" ∷ [];
}
