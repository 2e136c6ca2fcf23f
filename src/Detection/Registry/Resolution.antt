-- ===== src/Detection/Registry/Resolution.antt =====
-- Which detectors a run gets.
use mathlib.Core.List.{Perm}
use soc_analyst.Prelude.{
  true, not, none, some, List, [], ◌∷◌, map, String, str_eq, keep, ◌≡◌, ◌≢◌, refl, ap, ap₂, ◌∙◌,
  eq_iff, ok, raised, All, arith, Bool-cases, inl, inr,
}
use soc_analyst.Prelude.Sorting.{sort_by, IsSortedBy, sort_by-IsSortedBy, sort_by-perm, All-sort_by}
use soc_analyst.Detection.Types.{Detector}
use soc_analyst.Detection.Registry.Order.{name_le_total, name_le_trans}
use soc_analyst.Detection.Registry.{
  name_le, key_error, get, available, chosen, is_known, choose, resolve,
}

module _ {L D : Type 0} where
  abbrev pub names_of : List (Detector L D) → List String
  names_of = map (λ d. d.name)

  get_known :
      (registry : List (Detector L D)) (name : String)
      → is_known registry name ≡ true
      → (d : Detector L D) × (get name registry ≡ some d) × (str_eq d.name name ≡ true)
  unfolding is_known get
  get_known [] name h = cc
  get_known (d ∷ registry) name h = elim (Bool-cases (str_eq d.name name)) [
    | inl e ↦ (d, rw e refl, e)
    | inr e ↦ let (f, g, k) = get_known registry name (rw e at h) in (f, rw e g, k)
  ]

  -- Each of a list of names has a detector, in the same order, which is the one registered under it.
  pub record Resolves (registry : List (Detector L D)) (names : List String)
      (ds : List (Detector L D)) : Type 0 where
    pub in_order : names_of ds ≡ names
    pub registered : All (λ d. get d.name registry ≡ some d) ds

  chosen-Resolves :
      (registry : List (Detector L D)) (names : List String)
      → All (λ n. is_known registry n ≡ true) names
      → Resolves registry names (chosen registry names)
  unfolding chosen
  chosen-Resolves registry [] h = record { in_order = refl; registered = tt }
  chosen-Resolves registry (n ∷ names) h =
      let (d, g, e) = get_known registry n h.0 in
      let ih = chosen-Resolves registry names h.1 in
      let same : d.name ≡ n = (eq_iff d.name n).0 e in
      rw (g, chosen)
        (record {
          in_order = ap₂ ◌∷◌ same ih.in_order;
          registered = (ap (λ k. get k registry) same ∙ g, ih.registered);
        })

  none_unknown :
      (registry : List (Detector L D)) (names : List String)
      → All (λ n. is_known registry n ≡ true) names
      → keep (λ n. not (is_known registry n)) names ≡ []
  none_unknown registry [] h = refl
  none_unknown registry (n ∷ names) h = rw (h.0) (none_unknown registry names h.1)

  -- Where every name asked for is registered, the run gets a detector for each, in the order asked
  -- and as often as asked, and each is the one registered under that name.
  pub resolve_known :
      (registry : List (Detector L D)) (names : List String)
      → All (λ n. is_known registry n ≡ true) names
      → (ds : List (Detector L D)) × (resolve registry (some names) ≡ ok ds)
        × Resolves registry names ds
  unfolding resolve
  resolve_known registry names h = (
    chosen registry names,
    ap (choose registry names) (none_unknown registry names h) ∙ (unfold choose in refl),
    chosen-Resolves registry names h,
  )

  -- Where some name is not registered, the call raises with exactly the unknown names, as often as
  -- asked, in ascending order.
  pub resolve_unknown :
      (registry : List (Detector L D)) (names : List String)
      → keep (λ n. not (is_known registry n)) names ≢ []
      → (unknown : List String) × (resolve registry (some names) ≡ raised (key_error unknown))
        × Perm unknown (keep (λ n. not (is_known registry n)) names)
        × IsSortedBy name_le unknown
  unfolding resolve
  resolve_unknown registry names h = by_unknown _ h
    where
      by_unknown :
          (missing : List String)
          → missing ≢ []
          → (unknown : List String) × (choose registry names missing ≡ raised (key_error unknown))
            × Perm unknown missing
            × IsSortedBy name_le unknown
      by_unknown [] h = absurd (h refl)
      by_unknown (u ∷ us) h = (
        sort_by name_le (u ∷ us),
        unfold choose in refl,
        sort_by-perm name_le (u ∷ us),
        sort_by-IsSortedBy name_le name_le_total name_le_trans (u ∷ us),
      )

  known_more :
      (d : Detector L D) (registry : List (Detector L D)) (names : List String)
      → All (λ n. is_known registry n ≡ true) names
      → All (λ n. is_known (d ∷ registry) n ≡ true) names
  unfolding is_known
  known_more d registry [] h = tt
  known_more d registry (n ∷ names) h = (ground (arith, h.0), known_more d registry names h.1)

  known_self :
      (registry : List (Detector L D)) → All (λ n. is_known registry n ≡ true) (names_of registry)
  known_self [] = tt
  known_self (d ∷ registry) = (
    unfold is_known in ground (arith, eq_iff d.name d.name),
    known_more d registry (names_of registry) (known_self registry),
  )

  -- Without names, the run gets the detector registered under each name of the registry, no name
  -- left out and none added, sorted by name.
  pub resolve_all :
      (registry : List (Detector L D))
      → (ds : List (Detector L D)) × (resolve registry none ≡ ok ds)
        × Resolves registry (sort_by name_le (names_of registry)) ds
        × Perm (names_of ds) (names_of registry)
  unfolding resolve available
  resolve_all registry =
      let known =
        All-sort_by name_le (λ n. is_known registry n ≡ true) (names_of registry)
          (known_self registry) in
      let all = chosen-Resolves registry (sort_by name_le (names_of registry)) known in
      (
        chosen registry (available registry),
        refl,
        all,
        rw (all.in_order) (sort_by-perm name_le (names_of registry)),
      )
