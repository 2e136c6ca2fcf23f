-- ===== src/Ingestion/Pipeline/Batches.antt =====
-- The batches of rows that the pipeline inserts, and the table after them.
use mathlib.Core.List.{append-nil, append_assoc, map-append}
use soc_analyst.Prelude.{
  ℕ, zero, suc, ◌≤◌, ◌<◌, ◌≡◌, refl, ap, sym, ◌∙◌, List, [], ◌∷◌, ◌++◌, map, arith, length, take,
  drop, All, length-take, length-drop, take-append-drop,
}
use soc_analyst.Ingestion.Pipeline.{Settings, LogEntry, batches, insert_batches, insert_rows}

module _ {ℓ} {A : Type ℓ} where
  abbrev pub concat : List (List A) → List A
  concat [] = []
  concat (xs ∷ xss) = xs ++ concat xss

  -- The batches are the rows, in order, and none is longer than the size.
  pub batches_lem :
      (fuel size : ℕ) (rows : List A)
      → 0 < size
      → length rows ≤ fuel
      → (concat (batches fuel size rows) ≡ rows)
        × All (λ b. (0 < length b) × (length b ≤ size)) (batches fuel size rows)
  unfolding batches
  batches_lem zero size [] p h = (refl, tt)
  batches_lem zero size (x ∷ rows) p h = absurd (omega arith)
  batches_lem (suc fuel) size [] p h = (refl, tt)
  batches_lem (suc fuel) size (x ∷ rows) p h =
      let ih =
        batches_lem fuel size (drop size (x ∷ rows)) p
          (omega (arith, length-drop size (x ∷ rows))) in
      (
        ap (λ l. take size (x ∷ rows) ++ l) ih.0 ∙ take-append-drop size (x ∷ rows),
        (
          (omega (arith, length-take size (x ∷ rows)), omega (arith, length-take size (x ∷ rows))),
          ih.1,
        ),
      )

module _ {W : Type 0} where
  abbrev pub entries_for : ℕ → List W → List (LogEntry W)
  entries_for source_id = map (λ w. record { log_source_id = source_id; columns = w })

  insert_batches_lem :
      (source_id : ℕ) (bs : List (List W)) (table : List (LogEntry W))
      → insert_batches source_id bs table ≡ table ++ entries_for source_id (concat bs)
  unfolding insert_batches
  insert_batches_lem source_id [] table = sym (append-nil table)
  insert_batches_lem source_id (b ∷ bs) table =
      insert_batches_lem source_id bs (table ++ entries_for source_id b)
      ∙ append_assoc table (entries_for source_id b) (entries_for source_id (concat bs))
      ∙ ap (λ l. table ++ l) (sym (map-append _ b (concat bs)))

  -- However the rows are cut into batches, the table grows by the rows in order, each for the source.
  pub insert_rows_lem :
      (s : Settings) (source_id : ℕ) (rows : List W) (table : List (LogEntry W))
      → 0 < s.batch_size
      → insert_rows s source_id rows table ≡ table ++ entries_for source_id rows
  unfolding insert_rows
  insert_rows_lem s source_id rows table p =
      insert_batches_lem source_id (batches (length rows) s.batch_size rows) table
      ∙ ap (λ l. table ++ entries_for source_id l)
          (batches_lem (length rows) s.batch_size rows p (omega arith)).0
