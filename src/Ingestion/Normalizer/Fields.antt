-- ===== src/Ingestion/Normalizer/Fields.antt =====
-- Where the fields of a record go: the first that names a column fills it, and the others stay
-- among the attributes.
use soc_analyst.Prelude.{
  ◌≡◌, refl, sym, ap, ◌∙◌, ◌⊎◌, inl, inr, true, Option, none, some, List, [], ◌∷◌, arith, All,
  is_some, if◌then◌else◌, Bool-cases, Option-cases,
}
use soc_analyst.Pystr.{Pystr, is_empty, same_text, same_text_sound, same_text_refl}
use soc_analyst.Ingestion.Normalizer.Values.{
  Value, Dict, get, get-set, is_some-get-set_default, is_some-get-set_default_self,
  is_some-get-update,
}
use soc_analyst.Ingestion.Normalizer.Keys.{lookup, is_metadata, canonical_key}
use soc_analyst.Ingestion.Normalizer.Parsing.{Library}
use soc_analyst.Ingestion.Normalizer.{FieldValue, Scan, as_attributes, place, absorb, scan}

-- `a if a is not None else b`
abbrev pub or_else : Option Value → Option Value → Option Value
or_else none b = b
or_else (some a) b = some a

-- the column that a canonical name stands for
unfoldable pub column_of : Pystr → Option Pystr
column_of canonical =
    if is_empty canonical then none else if is_metadata canonical then none else lookup canonical

-- the value, if its column is the target
unfoldable pub candidate : Pystr → Value → Option Pystr → Option Value
candidate target value none = none
candidate target value (some column) = if same_text column target then some value else none

or_else-none : (a : Option Value) → or_else a none ≡ a
or_else-none none = refl
or_else-none (some a) = refl

or_else_assoc : (a b c : Option Value) → or_else (or_else a b) c ≡ or_else a (or_else b c)
or_else_assoc none b c = refl
or_else_assoc (some a) b c = refl

get-place :
    (target canonical : Pystr) (value : Value) (column : Option Pystr) (s : Scan)
    → get target (place canonical value column s).mapped
      ≡ or_else (get target s.mapped) (candidate target value column)
unfolding place candidate
get-place target canonical value none s = sym (or_else-none (get target s.mapped))
get-place target canonical value (some column) s =
    ground (arith, same_text_sound column target, get-set target column value s.mapped)

place-somewhere :
    (canonical : Pystr) (value : Value) (column : Option Pystr) (s : Scan)
    → (is_some (get canonical (place canonical value column s).attributes) ≡ true)
      ⊎ ((t : Pystr) × (column ≡ some t)
          × (get t (place canonical value column s).mapped ≡ some value))
unfolding place
place-somewhere canonical value none s =
    inl (is_some-get-set_default_self canonical value s.attributes)
place-somewhere canonical value (some t) s = elim (Option-cases (get t s.mapped)) [
  | inl e ↦ rw e (inr (t, refl, get-set t t value s.mapped ∙ rw (same_text_refl t) refl))
  | inr (v, e) ↦ rw e (inl (is_some-get-set_default_self canonical value s.attributes))
]

module _ {F T : Type 0} (lib : Library F T) where
  get-absorb :
      (target canonical : Pystr) (value : Value) (s : Scan)
      → get target (absorb lib canonical value s).mapped
        ≡ or_else (get target s.mapped) (candidate target value (column_of canonical))
  unfolding absorb column_of candidate
  get-absorb target canonical value s = ground (
    arith,
    get-place target canonical value (lookup canonical) s,
    or_else-none (get target s.mapped),
  )

  -- the value of the first field whose name stands for the column
  pub first_value : Pystr → List FieldValue → Option Value
  first_value target [] = none
  first_value target (f ∷ fs) =
      or_else (candidate target f.value (column_of (canonical_key lib.lower f.key)))
        (first_value target fs)

  pub get-scan :
      (target : Pystr) (fs : List FieldValue) (s : Scan)
      → get target (scan lib fs s).mapped ≡ or_else (get target s.mapped) (first_value target fs)
  unfolding scan first_value
  get-scan target [] s = sym (or_else-none (get target s.mapped))
  get-scan target (f ∷ fs) s =
      let canonical = canonical_key lib.lower f.key in
      get-scan target fs (absorb lib canonical f.value s)
      ∙ (ap (λ o. or_else o (first_value target fs)) (get-absorb target canonical f.value s)
          ∙ or_else_assoc (get target s.mapped) _ (first_value target fs))

  -- An attribute that is there stays.
  attribute-absorb :
      (k canonical : Pystr) (value : Value) (s : Scan)
      → is_some (get k s.attributes) ≡ true
      → is_some (get k (absorb lib canonical value s).attributes) ≡ true
  unfolding absorb place
  attribute-absorb k canonical value s h = elim (Option-cases (lookup canonical)) [
    | inl e ↦ rw e (
        ground (
          arith,
          is_some-get-set_default k canonical value s.attributes h,
          is_some-get-update k s.attributes (as_attributes lib canonical value) h,
        ))
    | inr (t, e) ↦ rw e (
        ground (
          arith,
          is_some-get-set_default k canonical value s.attributes h,
          is_some-get-update k s.attributes (as_attributes lib canonical value) h,
        ))
  ]

  attribute-scan :
      (k : Pystr) (fs : List FieldValue) (s : Scan)
      → is_some (get k s.attributes) ≡ true
      → is_some (get k (scan lib fs s).attributes) ≡ true
  unfolding scan
  attribute-scan k [] s h = h
  attribute-scan k (f ∷ fs) s h =
      attribute-scan k fs _ (attribute-absorb k (canonical_key lib.lower f.key) f.value s h)

  -- A field fills its column, or stands among the attributes, unless its name has no letter or
  -- digit or is one of the names of metadata.
  abbrev pub Placed : FieldValue → Dict → Dict → Type 0
  Placed f attributes mapped =
      (is_empty (canonical_key lib.lower f.key) ≡ true)
      ⊎ ((is_metadata (canonical_key lib.lower f.key) ≡ true)
          ⊎ ((is_some (get (canonical_key lib.lower f.key) attributes) ≡ true)
              ⊎ ((t : Pystr) × (lookup (canonical_key lib.lower f.key) ≡ some t)
                  × (get t mapped ≡ some f.value))))

  absorb-Placed :
      (f : FieldValue) (s : Scan)
      → Placed f
          (absorb lib (canonical_key lib.lower f.key) f.value s).attributes
          (absorb lib (canonical_key lib.lower f.key) f.value s).mapped
  unfolding absorb
  absorb-Placed f s = elim (Bool-cases (is_empty (canonical_key lib.lower f.key))) [
    | inl e ↦ inl e
    | inr e ↦ elim (Bool-cases (is_metadata (canonical_key lib.lower f.key))) [
      | inl m ↦ inr (inl m)
      | inr m ↦
          rw (e, m)
            (inr (inr (place-somewhere (canonical_key lib.lower f.key) f.value (lookup _) s)))
    ]
  ]

  Placed-scan :
      (f : FieldValue) (fs : List FieldValue) (s : Scan)
      → Placed f s.attributes s.mapped
      → Placed f (scan lib fs s).attributes (scan lib fs s).mapped
  Placed-scan f fs s (inl e) = inl e
  Placed-scan f fs s (inr (inl e)) = inr (inl e)
  Placed-scan f fs s (inr (inr (inl e))) = inr (inr (inl (attribute-scan _ fs s e)))
  Placed-scan f fs s (inr (inr (inr (t, e, h)))) =
      inr (inr (inr (t, e, get-scan t fs s ∙ ap (λ o. or_else o (first_value t fs)) h)))

  pub scan-Placed :
      (fs : List FieldValue) (s : Scan)
      → All (λ f. Placed f (scan lib fs s).attributes (scan lib fs s).mapped) fs
  unfolding scan
  scan-Placed [] s = tt
  scan-Placed (f ∷ fs) s = (Placed-scan f fs _ (absorb-Placed f s), scan-Placed fs _)
