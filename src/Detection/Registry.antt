-- ===== src/Detection/Registry.antt =====
-- backend/app/services/detection/registry.py: the detectors by name. The dict is the list of its
-- values in the order of insertion; each is stored under its own name.
pub mod Resolution
pub mod Order
use Prim.Native.String.{compare}
use Prim.Native.Nat.{Ordering, lt, eq, gt}
use soc_analyst.Prelude.{
  Bool, true, false, not, Option, none, some, List, [], ◌∷◌, ◌++◌, map, String, str_eq, keep,
  Outcome, ok, raised, if◌then◌else◌, any,
}
use soc_analyst.Prelude.Sorting.{sort_by}
use soc_analyst.Detection.Types.{Detector}

-- `a <= b` on `str`
unfoldable pub name_le : String → String → Bool
name_le a b = elim (compare a b) [ lt ↦ true | eq ↦ true | gt ↦ false ]

pub data ResolveError : Type 0 where
  key_error : List String → ResolveError

module _ {L D : Type 0} where
  -- `_registry[detector.name] = detector`
  unfoldable pub register : Detector L D → List (Detector L D) → List (Detector L D)
  register detector [] = detector ∷ []
  register detector (d ∷ registry) =
      let rest = register detector registry in
      if str_eq d.name detector.name then detector ∷ registry else d ∷ rest

  -- `_registry.pop(name, None)`
  unfoldable pub unregister : String → List (Detector L D) → List (Detector L D)
  unregister name registry = keep (λ d. not (str_eq d.name name)) registry

  unfoldable pub get : String → List (Detector L D) → Option (Detector L D)
  get name [] = none
  get name (d ∷ registry) =
      let rest = get name registry in if str_eq d.name name then some d else rest

  unfoldable pub available : List (Detector L D) → List String
  available registry = sort_by name_le (map (λ d. d.name) registry)

  -- `_registry[name] for name in names`, in which a missing name is skipped: `resolve` looks up only
  -- names that are there
  unfoldable pub chosen : List (Detector L D) → List String → List (Detector L D)
  chosen registry [] = []
  chosen registry (name ∷ names) =
      let rest = chosen registry names in
      elim (get name registry) [ none ↦ rest | some d ↦ d ∷ rest ]

  unfoldable pub is_known : List (Detector L D) → String → Bool
  is_known registry name = any (λ d. str_eq d.name name) registry

  -- the rest of `resolve`, once the unknown names are known
  unfoldable pub choose :
      List (Detector L D) → List String → List String → Outcome ResolveError (List (Detector L D))
  choose registry names [] = ok (chosen registry names)
  choose registry names (u ∷ us) = raised (key_error (sort_by name_le (u ∷ us)))

  unfoldable pub resolve :
      List (Detector L D) → Option (List String) → Outcome ResolveError (List (Detector L D))
  unfolding choose
  resolve registry none = ok (chosen registry (available registry))
  resolve registry (some names) =
      choose registry names (keep (λ name. not (is_known registry name)) names)
