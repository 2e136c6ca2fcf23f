-- ===== src/Incidents/Evidence.antt =====
-- Linking anomalies to an incident: all of them or none.
use soc_analyst.Prelude.{
  ℕ, suc, ◌+◌, All-mono, All-map, map_congr, ◌==◌, ◌≡◌, refl, ap, ◌∙◌, sym, Bool, true, false, not,
  some, List, [], ◌∷◌, map, arith, Bool-cases, inl, inr, ==_iff, if◌then◌else◌, Outcome, ok, raised,
  length, keep, elem, unique, Distinct, elem-keep, elem-unique, unique-Distinct, length-keep_swap,
  length-keep_partition, elem_self, keep_congr,
}
use soc_analyst.Incidents.{
  Incident, Anomaly, Desk, resolve_unique, resolve_anomalies, attach, link_found, link_anomalies,
}

abbrev pub ids_of : List Anomaly → List ℕ
ids_of = map (λ a. a.id)

-- the requested ids that no row has, each once, in the order requested
abbrev pub unknown_ids : List Anomaly → List ℕ → List ℕ
unknown_ids table ids = keep (λ id. not (elem id (ids_of table))) (unique ids)

-- the table after linking: the requested rows belong to the incident, the others are as they were
abbrev pub relinked : ℕ → List ℕ → List Anomaly → List Anomaly
relinked incident_id ids =
    map (λ a. if elem a.id ids then record a { incident_id = some incident_id } else a)

ids_of-keep :
    (ids : List ℕ) (table : List Anomaly)
    → ids_of (keep (λ a. elem a.id ids) table) ≡ keep (λ id. elem id ids) (ids_of table)
ids_of-keep ids [] = refl
ids_of-keep ids (a ∷ table) = ground (arith, ids_of-keep ids table)

length-ids_of : (xs : List Anomaly) → length (ids_of xs) ≡ length xs
length-ids_of [] = refl
length-ids_of (x ∷ xs) = ap suc (length-ids_of xs)

-- how many rows are found, and how many of the ids are not
found_count :
    (ids : List ℕ) (table : List Anomaly)
    → Distinct ids
    → Distinct (ids_of table)
    → length (keep (λ a. elem a.id ids) table)
        + length (keep (λ id. not (elem id (ids_of table))) ids)
      ≡ length ids
found_count ids table di dt = omega (
  arith,
  length-ids_of (keep (λ a. elem a.id ids) table),
  ap length (ids_of-keep ids table),
  length-keep_swap (ids_of table) ids dt di,
  length-keep_partition (λ id. elem id (ids_of table)) ids,
)

module _ (ids : List ℕ) (table : List Anomaly) where
  abbrev found_rows : List Anomaly
  found_rows = keep (λ a. elem a.id ids) table

  elem-found :
      (x : ℕ) → elem x (ids_of found_rows) ≡ (if elem x ids then elem x (ids_of table) else false)
  elem-found x =
      ap (elem x) (ids_of-keep ids table) ∙ elem-keep (λ id. elem id ids) x (ids_of table)

  missing_lem :
      keep (λ id. not (elem id (ids_of found_rows))) ids
      ≡ keep (λ id. not (elem id (ids_of table))) ids
  missing_lem = keep_congr _ _ ids (
      All-mono
        (λ x h. ap not (elem-found x ∙ ap (λ b. if b then elem x (ids_of table) else false) h)) ids
        (elem_self ids))

  attach-found :
      (incident_id : ℕ) → attach incident_id found_rows table ≡ relinked incident_id ids table
  unfolding attach
  attach-found incident_id = map_congr _ _ table (
      All-mono (λ a h. ap (mark a) (elem-found a.id ∙ known a h)) table
        (All-map (λ id. elem id (ids_of table) ≡ true) (λ a. a.id) table
          (elem_self (ids_of table))))
    where
      mark : Anomaly → Bool → Anomaly
      mark a b = if b then record a { incident_id = some incident_id } else a

      known :
          (a : Anomaly)
          → elem a.id (ids_of table) ≡ true
          → (if elem a.id ids then elem a.id (ids_of table) else false) ≡ elem a.id ids
      known a h = rw h (ground arith)

-- what resolving ids means: the rows, or the ids that have none
abbrev pub resolution : List Anomaly → List ℕ → List ℕ → Outcome (List ℕ) (List Anomaly)
resolution table ids [] = ok (keep (λ a. elem a.id ids) table)
resolution table ids (u ∷ us) = raised (u ∷ us)

keep_none : (table : List Anomaly) → keep (λ a. elem a.id []) table ≡ []
keep_none [] = refl
keep_none (a ∷ table) = keep_none table

resolve_unique-resolution :
    (table : List Anomaly) (ids : List ℕ)
    → Distinct ids
    → Distinct (ids_of table)
    → resolve_unique table ids
      ≡ resolution table ids (keep (λ id. not (elem id (ids_of table))) ids)
unfolding resolve_unique
resolve_unique-resolution table ids di dt = by_unknown _ refl
  where
    by_unknown :
        (unknown : List ℕ)
        → keep (λ id. not (elem id (ids_of table))) ids ≡ unknown
        → resolve_unique table ids ≡ resolution table ids unknown
    by_unknown [] e =
        rw
          ((==_iff (length (found_rows ids table)) (length ids)).1
            (omega (arith, found_count ids table di dt, ap length e)))
          refl
    by_unknown (u ∷ us) e = elim (Bool-cases (length (found_rows ids table) == length ids)) [
      | inl same ↦
          absurd (omega (arith, found_count ids table di dt, ap length e, (==_iff _ _).0 same))
      | inr differ ↦ rw differ (ap raised (missing_lem ids table ∙ e))
    ]

resolve_anomalies-resolution :
    (table : List Anomaly) (ids : List ℕ)
    → Distinct (ids_of table)
    → resolve_anomalies table ids ≡ resolution table (unique ids) (unknown_ids table ids)
unfolding resolve_anomalies
resolve_anomalies-resolution table [] d = ap ok (sym (keep_none table))
resolve_anomalies-resolution table (x ∷ xs) d =
    resolve_unique-resolution table (unique (x ∷ xs)) (unique-Distinct (x ∷ xs)) d

relinked-unique :
    (incident_id : ℕ) (ids : List ℕ) (table : List Anomaly)
    → relinked incident_id (unique ids) table ≡ relinked incident_id ids table
relinked-unique incident_id ids [] = refl
relinked-unique incident_id ids (a ∷ table) = rw (elem-unique a.id ids) (
    ap (λ l. (if elem a.id ids then record a { incident_id = some incident_id } else a) ∷ l)
      (relinked-unique incident_id ids table))

module _ {V : Type 0} where
  -- what linking means, by the ids that no row has
  abbrev pub link_outcome :
      Incident V → List ℕ → Desk V → List ℕ → Outcome (List ℕ) (List Anomaly × Desk V)
  link_outcome incident ids desk [] = ok (
    keep (λ a. elem a.id (unique ids)) desk.anomalies,
    record desk { anomalies = relinked incident.id ids desk.anomalies },
  )
  link_outcome incident ids desk (u ∷ us) = raised (u ∷ us)

  link_found-resolution :
      (incident : Incident V) (ids : List ℕ) (desk : Desk V) (unknown : List ℕ)
      → link_found incident desk (resolution desk.anomalies (unique ids) unknown)
        ≡ link_outcome incident ids desk unknown
  unfolding link_found
  link_found-resolution incident ids desk [] =
      ap
        (λ t. ok (keep (λ a. elem a.id (unique ids)) desk.anomalies, record desk { anomalies = t }))
        (attach-found (unique ids) desk.anomalies incident.id
          ∙ relinked-unique incident.id ids desk.anomalies)
  link_found-resolution incident ids desk (u ∷ us) = refl

  -- In a table whose ids are distinct, linking a list of ids either finds a row for each, and then
  -- exactly the requested rows belong to the incident and every other row and table is as it was;
  -- or it raises with exactly the ids that have no row, each once and in the order requested.
  pub link_anomalies_lem :
      (incident : Incident V) (ids : List ℕ) (desk : Desk V)
      → Distinct (ids_of desk.anomalies)
      → link_anomalies incident ids desk
        ≡ link_outcome incident ids desk (unknown_ids desk.anomalies ids)
  unfolding link_anomalies
  link_anomalies_lem incident ids desk d =
      ap (link_found incident desk) (resolve_anomalies-resolution desk.anomalies ids d)
      ∙ link_found-resolution incident ids desk (unknown_ids desk.anomalies ids)
