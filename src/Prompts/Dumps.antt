-- ===== src/Prompts/Dumps.antt =====
-- The text of a dumped value holds no fence.
use soc_analyst.Prelude.{
  ℕ, zero, suc, ◌/◌, ◌≡◌, refl, Bool, true, false, none, [], ◌∷◌, ◌++◌, arith, All, if◌then◌else◌,
}
use soc_analyst.Pystr.{Pystr}
use soc_analyst.Pystr.Search.{
  contains, starts_with, Woven, nil, same, insert, swap, contains-Woven, contains-apart,
  contains-foreign,
}
use soc_analyst.Prompts.{neutralise, fence, fence_end}
use soc_analyst.Prompts.Json.{
  Json, text, scalar, opaque, list, object, Items, no_items, item, Fields, no_fields, field, clean,
  hex_digit, hex_escape, surrogates, escape, escape_all, quoted, spaces, new_line, dumps,
  dump_items, dump_fields, dump, clean_items, clean_fields,
}
use soc_analyst.Prompts.Markers.{in_fence, in_fence-fence, in_fence-fence_end, neutralise-unfenced}

hex_digit-foreign : (n : ℕ) → in_fence (hex_digit n) ≡ false
unfolding in_fence hex_digit
hex_digit-foreign n = ground arith

insert_hex :
    (n : ℕ) {out inp : Pystr} → Woven in_fence out inp → Woven in_fence (hex_digit n ∷ out) inp
insert_hex n w = insert (hex_digit n) (hex_digit-foreign n) w

insert_digits :
    (n : ℕ) {out inp : Pystr}
    → Woven in_fence out inp
    → Woven in_fence
        (117 ∷ hex_digit (n / 4096) ∷ hex_digit (n / 256) ∷ hex_digit (n / 16) ∷ hex_digit n ∷ out)
        inp
unfolding in_fence
insert_digits n w = insert 117 refl (insert_hex _ (insert_hex _ (insert_hex _ (insert_hex _ w))))

insert_escape :
    (n : ℕ) {out inp : Pystr} → Woven in_fence out inp → Woven in_fence (hex_escape n out) inp
unfolding hex_escape in_fence
insert_escape n w = insert 92 refl (insert_digits n w)

swap_escape :
    (n c : ℕ) {out inp : Pystr}
    → Woven in_fence out inp
    → Woven in_fence (hex_escape n out) (c ∷ inp)
unfolding hex_escape in_fence
swap_escape n c w = swap 92 c refl (insert_digits n w)

swap_short :
    (d c : ℕ) {out inp : Pystr}
    → in_fence d ≡ false
    → Woven in_fence out inp
    → Woven in_fence (92 ∷ d ∷ out) (c ∷ inp)
unfolding in_fence
swap_short d c f w = swap 92 c refl (insert d f w)

either_way :
    (b : Bool) {x y inp : Pystr}
    → Woven in_fence x inp
    → Woven in_fence y inp
    → Woven in_fence (if b then x else y) inp
either_way true v w = v
either_way false v w = w

Woven-escape :
    (c : ℕ) {out inp : Pystr} → Woven in_fence out inp → Woven in_fence (escape c out) (c ∷ inp)
unfolding escape in_fence surrogates
Woven-escape c w = either_way _ (swap_short 34 c refl w) (
    either_way _ (swap_short 92 c refl w) (
      either_way _ (swap_short 110 c refl w) (
        either_way _ (swap_short 114 c refl w) (
          either_way _ (swap_short 116 c refl w) (
            either_way _ (swap_short 102 c refl w) (
              either_way _ (swap_short 98 c refl w) (
                either_way _ (same c w)
                  (either_way _ (swap_escape c c w) (swap_escape _ c (insert_escape _ w))))))))))

Woven-escape_all : (s : Pystr) → Woven in_fence (escape_all s) s
unfolding escape_all
Woven-escape_all [] = nil
Woven-escape_all (c ∷ cs) = Woven-escape c (Woven-escape_all cs)

-- A text is `quiet` for a pattern when the pattern does not occur in it. The texts that `_clean`
-- does not neutralise have to be: the keys, and the values that are not strings.
abbrev mutual
  pub Quiet : Pystr → Json → Type 0
  Quiet p (text s) = Unit
  Quiet p (scalar s) = contains p s ≡ false
  Quiet p (opaque s) = contains p s ≡ false
  Quiet p (list items) = QuietItems p items
  Quiet p (object fields) = QuietFields p fields

  pub QuietItems : Pystr → Items → Type 0
  QuietItems p no_items = Unit
  QuietItems p (item v rest) = Quiet p v × QuietItems p rest

  pub QuietFields : Pystr → Fields → Type 0
  QuietFields p no_fields = Unit
  QuietFields p (field k v rest) = (contains p k ≡ false) × Quiet p v × QuietFields p rest

-- For a pattern of the fences' code points that `neutralise` removes.
module _ (q : ℕ) (p : Pystr) (plain : All (λ c. in_fence c ≡ true) (q ∷ p)) (field_limit : ℕ)
    (removed : (s : Pystr) → contains (q ∷ p) (neutralise field_limit s none) ≡ false) where
  Lacks : Pystr → Type 0
  Lacks s = contains (q ∷ p) s ≡ false

  front : (s : ℕ) (ys : Pystr) → in_fence s ≡ false → Lacks ys → Lacks (s ∷ ys)
  unfolding Lacks
  front s ys f k = contains-foreign in_fence q p ys s plain f k

  between :
      (s : ℕ) (xs ys : Pystr) → in_fence s ≡ false → Lacks xs → Lacks ys → Lacks (xs ++ s ∷ ys)
  unfolding Lacks
  between s xs ys f h k = contains-apart in_fence q p xs ys s plain f h k

  nothing : Lacks []
  unfolding Lacks contains starts_with
  nothing = refl

  Lacks-spaces : (n : ℕ) (ys : Pystr) → Lacks ys → Lacks (spaces n ys)
  unfolding spaces in_fence
  Lacks-spaces zero ys k = k
  Lacks-spaces (suc n) ys k = front 32 _ refl (front 32 _ refl (Lacks-spaces n ys k))

  Lacks-new_line : (n : ℕ) (ys : Pystr) → Lacks ys → Lacks (new_line n ys)
  unfolding in_fence
  Lacks-new_line n ys k = front 10 _ refl (Lacks-spaces n ys k)

  Lacks-quoted : (s : Pystr) → Lacks s → Lacks (quoted s)
  unfolding quoted Lacks in_fence
  Lacks-quoted s k = front 34 _ refl (
      between 34 (escape_all s) [] refl (contains-Woven in_fence q p plain (Woven-escape_all s) k)
        nothing)

  mutual
    unfolding dumps clean Lacks in_fence

    Lacks-dumps :
        (depth : ℕ) (v : Json) → Quiet (q ∷ p) v → Lacks (dumps depth (clean field_limit v))
    Lacks-dumps depth (text s) h = Lacks-quoted (neutralise field_limit s none) (removed s)
    Lacks-dumps depth (scalar s) h = h
    Lacks-dumps depth (opaque s) h = Lacks-quoted s h
    Lacks-dumps depth (list no_items) h = front 91 _ refl (front 93 _ refl nothing)
    Lacks-dumps depth (list (item v rest)) h = front 91 _ refl (
        Lacks-new_line (suc depth) _
          (before_items depth rest _ (Lacks-dumps (suc depth) v h.0) h.1))
    Lacks-dumps depth (object no_fields) h = front 123 _ refl (front 125 _ refl nothing)
    Lacks-dumps depth (object (field k v rest)) h = front 123 _ refl (
        Lacks-new_line (suc depth) _ (
          between 58 (quoted k) _ refl (Lacks-quoted k h.0)
            (front 32 _ refl (before_fields depth rest _ (Lacks-dumps (suc depth) v h.1) h.2))))

    before_items :
        (depth : ℕ) (items : Items) (xs : Pystr)
        → Lacks xs
        → QuietItems (q ∷ p) items
        → Lacks (xs ++ dump_items depth (clean_items field_limit items))
    before_items depth no_items xs k h =
        between 10 xs _ refl k (Lacks-spaces depth _ (front 93 _ refl nothing))
    before_items depth (item v rest) xs k h = between 44 xs _ refl k (
        Lacks-new_line (suc depth) _
          (before_items depth rest _ (Lacks-dumps (suc depth) v h.0) h.1))

    before_fields :
        (depth : ℕ) (fields : Fields) (xs : Pystr)
        → Lacks xs
        → QuietFields (q ∷ p) fields
        → Lacks (xs ++ dump_fields depth (clean_fields field_limit fields))
    before_fields depth no_fields xs k h =
        between 10 xs _ refl k (Lacks-spaces depth _ (front 125 _ refl nothing))
    before_fields depth (field key v rest) xs k h = between 44 xs _ refl k (
        Lacks-new_line (suc depth) _ (
          between 58 (quoted key) _ refl (Lacks-quoted key h.0)
            (front 32 _ refl (before_fields depth rest _ (Lacks-dumps (suc depth) v h.1) h.2))))

-- Dumping a value for the prompt puts neither fence into the text, if no key of the value and no
-- value that is not a string has one: the strings may hold anything.
pub dump-unfenced :
    (field_limit : ℕ) (v : Json)
    → Quiet fence v
    → Quiet fence_end v
    → (contains fence (dump field_limit v) ≡ false)
      × (contains fence_end (dump field_limit v) ≡ false)
unfolding dump Lacks
dump-unfenced field_limit v h k = (
  Lacks-dumps _ _ in_fence-fence field_limit (λ s. (neutralise-unfenced field_limit s none).0) 0 v
      h,
  Lacks-dumps _ _ in_fence-fence_end field_limit (λ s. (neutralise-unfenced field_limit s none).1) 0
      v k,
)
