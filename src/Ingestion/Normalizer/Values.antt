-- ===== src/Ingestion/Normalizer/Values.antt =====
-- The values of a raw record, and a Python `dict` of them with its keys in order of insertion. A
-- `real` and an `array` are the texts that they were read from.
use soc_analyst.Prelude.{
  ℕ, ◌≡◌, refl, Bool, true, false, Option, none, some, arith, is_some, Bool-cases, inl, inr,
  if◌then◌else◌,
}
use soc_analyst.Pystr.{
  Pystr, is_empty, same_text, same_text_refl, same_text_sound, same_text_shared,
}

-- `negsuc n` is -(n + 1)
pub data Integer : Type 0 where
  pos : ℕ → Integer
  negsuc : ℕ → Integer

mutual
  pub data Value : Type 0 where
    null : Value
    boolean : Bool → Value
    integer : Integer → Value
    real : Pystr → Value
    text : Pystr → Value
    array : Pystr → Value
    dictionary : Dict → Value

  pub data Dict : Type 0 where
    empty : Dict
    entry : Pystr → Value → Dict → Dict

-- `d.get(key)`
unfoldable pub get : Pystr → Dict → Option Value
get key empty = none
get key (entry k v rest) = let later = get key rest in if same_text k key then some v else later

-- `d[key] = value`
unfoldable pub set : Pystr → Value → Dict → Dict
set key value empty = entry key value empty
set key value (entry k v rest) =
    let later = set key value rest in
    if same_text k key then entry k value rest else entry k v later

-- `d.setdefault(key, value)`
unfoldable pub set_default : Pystr → Value → Dict → Dict
unfolding get set
set_default key value d = if is_some (get key d) then d else set key value d

-- `d.update(other)`
unfoldable pub update : Dict → Dict → Dict
unfolding set
update d empty = d
update d (entry k v rest) = update (set k v d) rest

-- A key that was set has the value, and no other key changes.
pub get-set :
    (k key : Pystr) (value : Value) (d : Dict)
    → get k (set key value d) ≡ (if same_text key k then some value else get k d)
unfolding get set
get-set k key value empty = refl
get-set k key value (entry j v rest) = elim (Bool-cases (same_text j key)) [
  | inl e ↦ rw (same_text_sound j key e, same_text_refl key) (ground arith)
  | inr e ↦ rw (e, get-set k key value rest) (ground (arith, same_text_shared j key k))
]

pub is_some-get-set_default :
    (k key : Pystr) (value : Value) (d : Dict)
    → is_some (get k d) ≡ true
    → is_some (get k (set_default key value d)) ≡ true
unfolding set_default
is_some-get-set_default k key value d h = ground (arith, get-set k key value d)

pub is_some-get-set_default_self :
    (key : Pystr) (value : Value) (d : Dict) → is_some (get key (set_default key value d)) ≡ true
unfolding set_default
is_some-get-set_default_self key value d =
    ground (arith, get-set key key value d, same_text_refl key)

pub is_some-get-update :
    (k : Pystr) (d other : Dict)
    → is_some (get k d) ≡ true
    → is_some (get k (update d other)) ≡ true
unfolding update
is_some-get-update k d empty h = h
is_some-get-update k d (entry key v rest) h =
    is_some-get-update k (set key v d) rest (ground (arith, get-set k key v d))

abbrev pub is_null : Value → Bool
is_null null = true
is_null _ = false

-- `value in (None, "")`
abbrev pub is_blank : Value → Bool
is_blank null = true
is_blank (text t) = is_empty t
is_blank _ = false

abbrev pub is_boolean : Value → Bool
is_boolean (boolean b) = true
is_boolean _ = false
