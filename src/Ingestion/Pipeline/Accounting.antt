-- ===== src/Ingestion/Pipeline/Accounting.antt =====
-- What the loops of the pipeline keep, count and report, against plain descriptions of each.
use mathlib.Core.List.{append-nil, append_assoc}
use soc_analyst.Prelude.{
  ℕ, zero, suc, ◌+◌, ◌≡◌, refl, ap, ◌∙◌, Option, none, some, List, [], ◌∷◌, ◌++◌, arith, ltb,
  if◌then◌else◌, length, take, Outcome, ok, raised, Outcome-cases, Bool-cases, true, false, inl,
  inr,
}
use soc_analyst.Ingestion.Types.{RowError, IngestionOutcome, Item, readable, unreadable}
use soc_analyst.Ingestion.Pipeline.{Settings, report, collect, report_if, keep_row, normalize_all}

module _ {R : Type 0} where
  abbrev pub records_of : List (Item R) → List R
  records_of [] = []
  records_of (readable r ∷ items) = r ∷ records_of items
  records_of (unreadable e ∷ items) = records_of items

  abbrev pub unreadable_of : List (Item R) → List RowError
  unreadable_of [] = []
  unreadable_of (readable r ∷ items) = unreadable_of items
  unreadable_of (unreadable e ∷ items) = e ∷ unreadable_of items

  pub length-items :
      (items : List (Item R))
      → length items ≡ length (records_of items) + length (unreadable_of items)
  length-items [] = omega arith
  length-items (readable r ∷ items) = omega (arith, length-items items)
  length-items (unreadable e ∷ items) = omega (arith, length-items items)

abbrev listed : Option RowError → List RowError → List RowError
listed none rest = rest
listed (some e) rest = e ∷ rest

-- Over the records of a readable file, of which the first that the normaliser raises on ends the run.
module _ {E R W : Type 0} (normalize : R → Outcome E (Option W × Option RowError)) where
  -- the exception of the first record that raises one
  abbrev pub first_crash : List R → Option E
  first_crash [] = none
  first_crash (r ∷ records) =
      let rest = first_crash records in elim (normalize r) [ raised e ↦ some e | ok v ↦ rest ]

  abbrev pub rows_of : List R → List W
  rows_of [] = []
  rows_of (r ∷ records) =
      let rest = rows_of records in
      elim (normalize r) [ raised e ↦ rest | ok (none, e) ↦ rest | ok (some w, e) ↦ w ∷ rest ]

  -- the records that could not be mapped
  abbrev pub unmapped_of : List R → List R
  unmapped_of [] = []
  unmapped_of (r ∷ records) =
      let rest = unmapped_of records in
      elim (normalize r) [ raised e ↦ rest | ok (none, e) ↦ r ∷ rest | ok (some w, e) ↦ rest ]

  -- the errors of the records that could not be mapped, where there is one
  abbrev pub errors_of : List R → List RowError
  errors_of [] = []
  errors_of (r ∷ records) =
      let rest = errors_of records in
      elim (normalize r) [ raised e ↦ rest | ok (none, e) ↦ listed e rest | ok (some w, e) ↦ rest ]

  -- Where none raises, each record gives a row or could not be mapped.
  pub length-records :
      (records : List R)
      → first_crash records ≡ none
      → length records ≡ length (rows_of records) + length (unmapped_of records)
  length-records [] h = omega arith
  length-records (r ∷ records) h = elim (Outcome-cases (normalize r)) [
    | inl (e, q) ↦ absurd (cc (rw (q, first_crash) at h))
    | inr ((none, e), q) ↦
        rw (q, rows_of, unmapped_of)
          (omega (arith, length-records records (rw (q, first_crash) at h)))
    | inr ((some w, e), q) ↦
        rw (q, rows_of, unmapped_of)
          (omega (arith, length-records records (rw (q, first_crash) at h)))
  ]

module _ {ℓ} {A : Type ℓ} where
  -- a bounded list takes one more element while it has room
  take-snoc :
      (m : ℕ) (es : List A) (e : A)
      → (if ltb (length (take m es)) m then take m es ++ e ∷ [] else take m es)
        ≡ take m (es ++ e ∷ [])
  take-snoc zero es e = refl
  take-snoc (suc m) [] e = ground (arith, take_zero m)
    where
      take_zero : (n : ℕ) → take {A = A} n [] ≡ []
      take_zero zero = refl
      take_zero (suc n) = refl
  take-snoc (suc m) (x ∷ es) e = elim (Bool-cases (ltb (length (take m es)) m)) [
    | inl room ↦
        let room' : ltb (suc (length (take m es))) (suc m) ≡ true = ground arith in
        rw room' (ap (λ l. x ∷ l) (rw room at (take-snoc m es e)))
    | inr full ↦
        let full' : ltb (suc (length (take m es))) (suc m) ≡ false = ground arith in
        rw full' (ap (λ l. x ∷ l) (rw full at (take-snoc m es e)))
  ]

module _ (s : Settings) where
  -- reporting keeps the counts, and the first errors up to the bound
  report_lem :
      (o : IngestionOutcome) (es : List RowError) (e : RowError)
      → o.errors ≡ take s.max_reported_errors es
      → ((report s o e).errors ≡ take s.max_reported_errors (es ++ e ∷ []))
        × ((report s o e).total ≡ o.total)
        × ((report s o e).rejected ≡ o.rejected)
  unfolding report
  report_lem o es e h = (kept, ground arith, ground arith)
    where
      snoc :
          (if ltb (length o.errors) s.max_reported_errors then o.errors ++ e ∷ [] else o.errors)
          ≡ take s.max_reported_errors (es ++ e ∷ [])
      snoc = rw h (take-snoc s.max_reported_errors es e)

      kept : (report s o e).errors ≡ take s.max_reported_errors (es ++ e ∷ [])
      kept = ground (arith, snoc)

  module _ {R : Type 0} where
    -- the loop of `_collect` splits the items, counts them all, and reports the unreadable ones
    pub collect_lem :
        (items : List (Item R)) (o : IngestionOutcome) (es : List RowError)
        → o.errors ≡ take s.max_reported_errors es
        → ((collect s items o).0 ≡ records_of items)
          × ((collect s items o).1.total ≡ o.total + length items)
          × ((collect s items o).1.rejected ≡ o.rejected + length (unreadable_of items))
          × ((collect s items o).1.errors ≡ take s.max_reported_errors (es ++ unreadable_of items))
    unfolding collect
    collect_lem [] o es h = (refl, omega arith, omega arith, rw append-nil h)
    collect_lem (readable r ∷ items) o es h =
        let ih = collect_lem items (record o { total = o.total + 1 }) es h in
        (ap (λ l. r ∷ l) ih.0, omega (arith, ih), omega (arith, ih), ih.3)
    collect_lem (unreadable e ∷ items) o es h =
        let o' : IngestionOutcome = record o { total = o.total + 1; rejected = o.rejected + 1 } in
        let k = report_lem o' es e h in
        let ih = collect_lem items (report s o' e) (es ++ e ∷ []) k.0 in
        (ih.0, omega (arith, ih, k), omega (arith, ih, k), rw append_assoc at ih.3)

  report_if_lem :
      (o : IngestionOutcome) (es : List RowError) (e : Option RowError)
      → o.errors ≡ take s.max_reported_errors es
      → ((report_if s o e).errors ≡ take s.max_reported_errors (es ++ listed e []))
        × ((report_if s o e).total ≡ o.total)
        × ((report_if s o e).rejected ≡ o.rejected)
  unfolding report_if
  report_if_lem o es none h = (rw append-nil h, refl, refl)
  report_if_lem o es (some e) h = report_lem o es e h

  listed-append : (e : Option RowError) (l : List RowError) → listed e [] ++ l ≡ listed e l
  listed-append none l = refl
  listed-append (some e) l = refl

  module _ {E R W : Type 0} (normalize : R → Outcome E (Option W × Option RowError)) where
    -- the rows and the counts that the loop of `_normalize` gives
    pub record Normalized (records : List R) (o : IngestionOutcome) (es : List RowError)
        (rows : List W) (o' : IngestionOutcome) : Type 0 where
      pub rows_lem : rows ≡ rows_of normalize records
      pub total_lem : o'.total ≡ o.total
      pub rejected_lem : o'.rejected ≡ o.rejected + length (unmapped_of normalize records)
      pub errors_lem : o'.errors ≡ take s.max_reported_errors (es ++ errors_of normalize records)

    -- The loop raises the first exception.
    pub normalize_all-crash :
        (records : List R) (o : IngestionOutcome) (e : E)
        → first_crash normalize records ≡ some e
        → normalize_all normalize s records o ≡ raised e
    unfolding normalize_all keep_row
    normalize_all-crash [] o e h = absurd (cc)
    normalize_all-crash (r ∷ records) o e h = elim (Outcome-cases (normalize r)) [
      | inl (x, q) ↦ rw (q, normalize_all) (ground (arith, rw (q, first_crash) at h))
      | inr ((none, x), q) ↦
          rw (q, normalize_all) (normalize_all-crash records _ e (rw (q, first_crash) at h))
      | inr ((some w, x), q) ↦
          rw (q, normalize_all)
            (rw (normalize_all-crash records o e (rw (q, first_crash) at h), keep_row) refl)
    ]

    -- Otherwise it keeps the mapped rows in order, and counts and reports the others.
    pub normalize_all_lem :
        (records : List R) (o : IngestionOutcome) (es : List RowError)
        → first_crash normalize records ≡ none
        → o.errors ≡ take s.max_reported_errors es
        → (rows : List W) × (o' : IngestionOutcome) × (normalize_all normalize s records o
            ≡ ok (rows, o'))
          × Normalized records o es rows o'
    unfolding normalize_all keep_row
    normalize_all_lem [] o es c h = (
      [],
      o,
      refl,
      record {
        rows_lem = refl;
        total_lem = refl;
        rejected_lem = omega arith;
        errors_lem = rw append-nil h;
      },
    )
    normalize_all_lem (r ∷ records) o es c h = elim (Outcome-cases (normalize r)) [
      | inl (x, q) ↦ absurd (cc (rw (q, first_crash) at c))
      | inr ((some w, x), q) ↦
          let (rows, o', e, n) = normalize_all_lem records o es (rw (q, first_crash) at c) h in
          (
            w ∷ rows,
            o',
            rw (q, normalize_all) (rw (e, keep_row) refl),
            record {
              rows_lem = rw (q, rows_of) (ap (λ l. w ∷ l) n.rows_lem);
              total_lem = n.total_lem;
              rejected_lem = rw (q, unmapped_of) n.rejected_lem;
              errors_lem = rw (q, errors_of) n.errors_lem;
            },
          )
      | inr ((none, x), q) ↦
          let before : IngestionOutcome = record o { rejected = o.rejected + 1 } in
          let k = report_if_lem before es x h in
          let (rows, o', e, n) =
            normalize_all_lem records (report_if s before x) (es ++ listed x [])
              (rw (q, first_crash) at c) k.0 in
          (
            rows,
            o',
            rw (q, normalize_all) e,
            record {
              rows_lem = rw (q, rows_of) n.rows_lem;
              total_lem = n.total_lem ∙ k.1;
              rejected_lem = rw (q, unmapped_of) (omega (arith, n.rejected_lem, k));
              errors_lem =
                  rw (q, errors_of)
                    (n.errors_lem
                      ∙ ap (take s.max_reported_errors) (
                          append_assoc es (listed x []) (errors_of normalize records)
                          ∙ ap (λ l. es ++ l) (listed-append x (errors_of normalize records))));
            },
          )
    ]
