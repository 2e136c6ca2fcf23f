-- ===== src/Detection/Engine/Persistence.antt =====
-- What storing findings does to the anomaly table.
use mathlib.Core.List.{append-nil, append_assoc}
use soc_analyst.Prelude.{
  ℕ, suc, ◌-◌, ◌≡◌, refl, ap, ap₂, sym, subst, ◌∙◌, true, false, ◌||◌, Option, List, [], ◌∷◌, ◌++◌,
  map, String, eq_iff, length, arith, All, Bool-cases, inl, inr, if◌then◌else◌,
}
use soc_analyst.Detection.Types.{Finding, Anomaly, fingerprint}
use soc_analyst.Detection.Engine.{holds, insert_missing, row_of, persist_findings}

module _ {D : Type 0} where
  holds-append :
      (table rows : List (Anomaly D)) (print : String)
      → holds (table ++ rows) print ≡ (holds table print || holds rows print)
  holds-append [] rows print = refl
  holds-append (a ∷ table) rows print = ground (arith, holds-append table rows print)

  -- the rows that are appended: those whose fingerprint neither the table nor an earlier one has
  abbrev pub fresh : List (Anomaly D) → List (Anomaly D) → List (Anomaly D)
  fresh table [] = []
  fresh table (r ∷ rows) =
      let skipped = fresh table rows in
      let added = fresh (table ++ r ∷ []) rows in
      if holds table r.fingerprint then skipped else r ∷ added

  pub insert_missing-fresh :
      (table rows : List (Anomaly D))
      → ((insert_missing table rows).0 ≡ table ++ fresh table rows)
        × ((insert_missing table rows).1 ≡ length (fresh table rows))
  unfolding insert_missing
  insert_missing-fresh table [] = (sym (append-nil table), refl)
  insert_missing-fresh table (r ∷ rows) = elim (Bool-cases (holds table r.fingerprint)) [
    | inl e ↦ rw e (insert_missing-fresh table rows)
    | inr e ↦
        let ih = insert_missing-fresh (table ++ r ∷ []) rows in
        rw e
          (ih.0 ∙ append_assoc table (r ∷ []) (fresh (table ++ r ∷ []) rows), omega (arith, ih.1))
  ]

  -- No two rows share a fingerprint.
  abbrev pub DistinctPrints : List (Anomaly D) → Type 0
  DistinctPrints [] = Unit
  DistinctPrints (a ∷ table) = (holds table a.fingerprint ≡ false) × DistinctPrints table

  DistinctPrints-snoc :
      (table : List (Anomaly D)) (r : Anomaly D)
      → DistinctPrints table
      → holds table r.fingerprint ≡ false
      → DistinctPrints (table ++ r ∷ [])
  DistinctPrints-snoc [] r d h = (refl, tt)
  DistinctPrints-snoc (a ∷ table) r d h = (
    ground (
      arith,
      holds-append table (r ∷ []) a.fingerprint,
      d.0,
      h,
      eq_iff r.fingerprint a.fingerprint,
      eq_iff a.fingerprint r.fingerprint,
    ),
    DistinctPrints-snoc table r d.1 (ground (arith, h)),
  )

  insert_missing-DistinctPrints :
      (table rows : List (Anomaly D))
      → DistinctPrints table
      → DistinctPrints (insert_missing table rows).0
  unfolding insert_missing
  insert_missing-DistinctPrints table [] d = d
  insert_missing-DistinctPrints table (r ∷ rows) d = elim (Bool-cases (holds table r.fingerprint)) [
    | inl e ↦ rw e (insert_missing-DistinctPrints table rows d)
    | inr e ↦
        rw e
          (insert_missing-DistinctPrints (table ++ r ∷ []) rows (DistinctPrints-snoc table r d e))
  ]

  insert_missing-keeps :
      (table rows : List (Anomaly D)) (print : String)
      → holds table print ≡ true
      → holds (insert_missing table rows).0 print ≡ true
  insert_missing-keeps table rows print h =
      ap (λ t. holds t print) (insert_missing-fresh table rows).0
      ∙ holds-append table (fresh table rows) print
      ∙ ground (arith, h)

  insert_missing-known :
      (table rows : List (Anomaly D)) (r : Anomaly D)
      → holds table r.fingerprint ≡ true
      → insert_missing table (r ∷ rows) ≡ insert_missing table rows
  unfolding insert_missing
  insert_missing-known table rows r e = rw e refl

  insert_missing-new :
      (table rows : List (Anomaly D)) (r : Anomaly D)
      → holds table r.fingerprint ≡ false
      → (insert_missing table (r ∷ rows)).0 ≡ (insert_missing (table ++ r ∷ []) rows).0
  unfolding insert_missing
  insert_missing-new table rows r e = rw e refl

  snoc-holds :
      (table : List (Anomaly D)) (r : Anomaly D) → holds (table ++ r ∷ []) r.fingerprint ≡ true
  snoc-holds table r =
      holds-append table (r ∷ []) r.fingerprint ∙ ground (arith, eq_iff r.fingerprint r.fingerprint)

  AllHold : List (Anomaly D) → List (Anomaly D) → Type 0
  AllHold rows table = All (λ r. holds table r.fingerprint ≡ true) rows

  insert_missing-AllHold :
      (table rows : List (Anomaly D)) → AllHold rows (insert_missing table rows).0
  unfolding AllHold
  insert_missing-AllHold table [] = tt
  insert_missing-AllHold table (r ∷ rows) = elim (Bool-cases (holds table r.fingerprint)) [
    | inl e ↦
        subst (AllHold (r ∷ rows)) (sym (ap (λ o. o.0) (insert_missing-known table rows r e)))
          (insert_missing-keeps table rows r.fingerprint e, insert_missing-AllHold table rows)
    | inr e ↦ subst (AllHold (r ∷ rows)) (sym (insert_missing-new table rows r e)) (
      insert_missing-keeps (table ++ r ∷ []) rows r.fingerprint (snoc-holds table r),
      insert_missing-AllHold (table ++ r ∷ []) rows,
    )
  ]

  insert_missing-again :
      (table rows : List (Anomaly D)) → AllHold rows table → insert_missing table rows ≡ (table, 0)
  unfolding AllHold
  insert_missing-again table [] h = unfold insert_missing in refl
  insert_missing-again table (r ∷ rows) h =
      insert_missing-known table rows r h.0 ∙ insert_missing-again table rows h.1

  All-map_row :
      {A : Type 0} (f : A → Anomaly D) (P : Anomaly D → Type 0) (xs : List A)
      → All P (map f xs)
      → All (λ x. P (f x)) xs
  All-map_row f P [] h = tt
  All-map_row f P (x ∷ xs) h = (h.0, All-map_row f P xs h.1)

  length-map_row : {A : Type 0} (f : A → Anomaly D) (xs : List A) → length (map f xs) ≡ length xs
  length-map_row f [] = refl
  length-map_row f (x ∷ xs) = ap suc (length-map_row f xs)

module _ {D : Type 0} (sha256 : String → String) (str_uuid : ℕ → String) where
  -- Storing findings only appends: the stored rows stay as they are, in front; no two rows come to
  -- share a fingerprint; every finding's fingerprint is stored afterwards; and the duplicates counted
  -- are the findings for which no row was added.
  pub persist_findings_lem :
      (now : ℕ) (log_source_id : Option ℕ) (findings : List (Finding D)) (table : List (Anomaly D))
      → DistinctPrints table
      → let ((anomalies, duplicates), table') =
          persist_findings sha256 str_uuid now log_source_id findings table in
        (added : List (Anomaly D)) × (table' ≡ table ++ added)
        × (duplicates ≡ length findings - length added)
        × DistinctPrints table'
        × All (λ f. holds table' (fingerprint sha256 str_uuid f log_source_id) ≡ true) findings
  unfolding persist_findings row_of
  persist_findings_lem now log_source_id findings table d =
      let rows = map (row_of sha256 str_uuid now log_source_id) findings in
      let i = insert_missing-fresh table rows in
      (
        fresh table rows,
        i.0,
        ap₂ ◌-◌ (length-map_row (row_of sha256 str_uuid now log_source_id) findings) i.1,
        insert_missing-DistinctPrints table rows d,
        All-map_row (row_of sha256 str_uuid now log_source_id)
            (λ r. holds (insert_missing table rows).0 r.fingerprint ≡ true) findings
            (unfold AllHold in insert_missing-AllHold table rows),
      )

  relabel :
      (now later : ℕ) (log_source_id : Option ℕ) (fs : List (Finding D)) (t : List (Anomaly D))
      → AllHold (map (row_of sha256 str_uuid now log_source_id) fs) t
      → AllHold (map (row_of sha256 str_uuid later log_source_id) fs) t
  unfolding AllHold row_of
  relabel now later log_source_id [] t h = tt
  relabel now later log_source_id (f ∷ fs) t h = (h.0, relabel now later log_source_id fs t h.1)

  -- Storing the same findings again, at any later time, changes nothing and counts each of them as a
  -- duplicate.
  pub persist_findings_again :
      (now later : ℕ) (log_source_id : Option ℕ) (findings : List (Finding D))
      (table : List (Anomaly D))
      → let (first, table') = persist_findings sha256 str_uuid now log_source_id findings table in
        let ((anomalies, duplicates), table'') =
          persist_findings sha256 str_uuid later log_source_id findings table' in
        (table'' ≡ table') × (duplicates ≡ length findings)
  unfolding persist_findings
  persist_findings_again now later log_source_id findings table =
      let rows = map (row_of sha256 str_uuid now log_source_id) findings in
      let rows' = map (row_of sha256 str_uuid later log_source_id) findings in
      let again = insert_missing-again (insert_missing table rows).0 rows' (
        relabel now later log_source_id findings (insert_missing table rows).0
          (insert_missing-AllHold table rows)) in
      (
        ap (λ o. o.0) again,
        omega (
          arith,
          ap (λ o. o.1) again,
          length-map_row (row_of sha256 str_uuid later log_source_id) findings,
        ),
      )
