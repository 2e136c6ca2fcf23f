-- ===== src/Pystr.antt =====
-- Python's `str` as the list of its code points, with the methods that the modelled code calls.
pub mod Search
use Prim.Native.Char.{code}
use soc_analyst.Prelude.{
  ℕ, String, Bool, true, false, ◌&&◌, ◌||◌, List, [], ◌∷◌, ◌++◌, map, arith, leb, ◌==◌,
  if◌then◌else◌, length, ◌≤◌, ◌≡◌, refl, any, not, Bool-cases, ◌⊎◌, inl, inr,
}

abbrev pub Pystr : Type 0
Pystr = List ℕ

-- the code points of a literal
abbrev pub codes : String → Pystr
codes String.[] = []
codes (String.◌∷◌ c s) = code c ∷ codes s

-- `c.isspace()`, which is also what `\s` matches
unfoldable pub is_space : ℕ → Bool
is_space c =
    (leb 9 c && leb c 13)
    || (leb 28 c && leb c 32)
    || c == 133
    || c == 160
    || c == 5760
    || (leb 8192 c && leb c 8202)
    || c == 8232
    || c == 8233
    || c == 8239
    || c == 8287
    || c == 12288

abbrev pub is_empty {ℓ} : {A : Type ℓ} → List A → Bool
is_empty [] = true
is_empty (x ∷ xs) = false

unfoldable pub rstrip : Pystr → Pystr
rstrip [] = []
rstrip (c ∷ cs) = let rest = rstrip cs in if is_space c && is_empty rest then [] else c ∷ rest

unfoldable pub lstrip : Pystr → Pystr
lstrip [] = []
lstrip (c ∷ cs) = let rest = lstrip cs in if is_space c then rest else c ∷ cs

unfoldable pub strip : Pystr → Pystr
unfolding rstrip lstrip is_space
strip s = lstrip (rstrip s)

pub length-rstrip : (s : Pystr) → length (rstrip s) ≤ length s
unfolding rstrip
length-rstrip [] = omega arith
length-rstrip (c ∷ cs) = ground (arith, length-rstrip cs)

pub length-lstrip : (s : Pystr) → length (lstrip s) ≤ length s
unfolding lstrip
length-lstrip [] = omega arith
length-lstrip (c ∷ cs) = ground (arith, length-lstrip cs)

pub length-strip : (s : Pystr) → length (strip s) ≤ length s
unfolding strip
length-strip s = omega (arith, length-lstrip (rstrip s), length-rstrip s)

-- some character is not white space
abbrev pub IsVisible : Pystr → Type 0
IsVisible s = any (λ c. not (is_space c)) s ≡ true

pub lstrip-IsVisible : (s : Pystr) → (lstrip s ≡ []) ⊎ IsVisible (lstrip s)
unfolding lstrip
lstrip-IsVisible [] = inl refl
lstrip-IsVisible (c ∷ cs) = elim (Bool-cases (is_space c)) [
  | inl e ↦ rw e (lstrip-IsVisible cs)
  | inr e ↦ rw e (inr (rw e refl))
]

-- What `strip` leaves is empty or holds a character that is not white space.
pub strip-IsVisible : (s : Pystr) → (strip s ≡ []) ⊎ IsVisible (strip s)
unfolding strip
strip-IsVisible s = lstrip-IsVisible (rstrip s)

-- `s.replace("\r\n", "\n")`
unfoldable pub replace_crlf : Pystr → Pystr
replace_crlf [] = []
replace_crlf (c ∷ []) = c ∷ []
replace_crlf (c ∷ d ∷ rest) =
    let joined = replace_crlf rest in
    let apart = replace_crlf (d ∷ rest) in if c == 13 && d == 10 then 10 ∷ joined else c ∷ apart

-- `s.replace("\r", "\n")`
unfoldable pub replace_cr : Pystr → Pystr
replace_cr = map (λ c. if c == 13 then 10 else c)

-- `s.split("\n")`: the first line and the others
unfoldable pub split_lines : Pystr → Pystr × List Pystr
split_lines [] = ([], [])
split_lines (c ∷ cs) =
    let (line, lines) = split_lines cs in if c == 10 then ([], line ∷ lines) else (c ∷ line, lines)

-- `"\n".join(lines)`
unfoldable pub join_lines : Pystr → List Pystr → Pystr
join_lines line [] = line
join_lines line (l ∷ ls) = line ++ 10 ∷ join_lines l ls

-- `s == t`
unfoldable pub same_text : Pystr → Pystr → Bool
same_text [] [] = true
same_text [] (d ∷ ds) = false
same_text (c ∷ cs) [] = false
same_text (c ∷ cs) (d ∷ ds) = c == d && same_text cs ds

pub same_text_sound : (s t : Pystr) → same_text s t ≡ true → s ≡ t
unfolding same_text
same_text_sound [] [] h = refl
same_text_sound [] (d ∷ ds) h = absurd (ground arith)
same_text_sound (c ∷ cs) [] h = absurd (ground arith)
same_text_sound (c ∷ cs) (d ∷ ds) h = ground (arith, same_text_sound cs ds)

pub same_text_refl : (s : Pystr) → same_text s s ≡ true
unfolding same_text
same_text_refl [] = refl
same_text_refl (c ∷ cs) = ground (arith, same_text_refl cs)

pub same_text_shared :
    (s t u : Pystr) → same_text s u ≡ true → same_text t u ≡ true → same_text s t ≡ true
same_text_shared s t u h k = rw (same_text_sound s u h, same_text_sound t u k) (same_text_refl u)

-- an f-string of its parts
abbrev pub concat : List Pystr → Pystr
concat [] = []
concat (t ∷ ts) = t ++ concat ts
