-- ===== src/Attachments/Filenames.antt =====
-- sanitise_filename of backend/app/api/v1/endpoints/log_sources.py. `printable` is
-- `str.isprintable` of one character.
use soc_analyst.Prelude.{
  ℕ, zero, suc, ◌≤◌, ◌≡◌, Bool, true, false, not, ◌&&◌, ◌||◌, Option, none, some, [], ◌∷◌, map,
  keep, any, take, length, length-take, arith, All, ◌==◌, if◌then◌else◌, Bool-cases, inl, inr,
}
use soc_analyst.Pystr.{Pystr, codes, is_empty}

-- `name.replace("\\", "/")`
unfoldable pub forward : Pystr → Pystr
forward = map (λ c. if c == 92 then 47 else c)

-- `name.split("/")[-1]`
unfoldable pub last_part : Pystr → Pystr
last_part [] = []
last_part (c ∷ cs) = let rest = last_part cs in if any (λ d. d == 47) (c ∷ cs) then rest else c ∷ cs

-- `'<>:"|?*'`
abbrev pub forbidden : Pystr
forbidden = codes "<>:\"|?*"

-- `.strip(" .")`
abbrev pub is_padding : ℕ → Bool
is_padding c = c == 32 || c == 46

unfoldable pub trim_right : Pystr → Pystr
trim_right [] = []
trim_right (c ∷ cs) =
    let rest = trim_right cs in if is_padding c && is_empty rest then [] else c ∷ rest

unfoldable pub trim_left : Pystr → Pystr
trim_left [] = []
trim_left (c ∷ cs) = let rest = trim_left cs in if is_padding c then rest else c ∷ cs

-- `text or "upload"`
unfoldable pub or_upload : Pystr → Pystr
or_upload [] = codes "upload"
or_upload (c ∷ cs) = c ∷ cs

module _ (printable : ℕ → Bool) where
  unfoldable pub is_kept : ℕ → Bool
  is_kept c = printable c && not (any (λ d. d == c) forbidden)

  unfoldable pub sanitise_filename : Option Pystr → Pystr
  unfolding forward last_part is_kept trim_right trim_left or_upload
  sanitise_filename none = codes "upload"
  sanitise_filename (some raw) =
      if is_empty raw
      then codes "upload"
      else or_upload (take 255 (trim_left (trim_right (keep is_kept (last_part (forward raw))))))

-- a character that is kept and is no separator
abbrev pub is_safe : (ℕ → Bool) → ℕ → Bool
is_safe printable c = is_kept printable c && not (c == 47 || c == 92)

-- a name of 1 to 255 such characters
abbrev pub IsSafe : (ℕ → Bool) → Pystr → Type 0
IsSafe printable t = (1 ≤ length t) × (length t ≤ 255) × All (λ c. is_safe printable c ≡ true) t

All-trim_right : (P : ℕ → Type 0) (s : Pystr) → All P s → All P (trim_right s)
unfolding trim_right
All-trim_right P [] h = tt
All-trim_right P (c ∷ cs) h = elim (Bool-cases (is_padding c && is_empty (trim_right cs))) [
  | inl e ↦ rw e tt
  | inr e ↦ rw e (h.0, All-trim_right P cs h.1)
]

All-trim_left : (P : ℕ → Type 0) (s : Pystr) → All P s → All P (trim_left s)
unfolding trim_left
All-trim_left P [] h = tt
All-trim_left P (c ∷ cs) h = elim (Bool-cases (is_padding c)) [
  | inl e ↦ rw e (All-trim_left P cs h.1)
  | inr e ↦ rw e h
]

All-take : (P : ℕ → Type 0) (n : ℕ) (s : Pystr) → All P s → All P (take n s)
All-take P zero s h = tt
All-take P (suc n) [] h = tt
All-take P (suc n) (c ∷ cs) h = (h.0, All-take P n cs h.1)

no_backslash : (s : Pystr) → All (λ c. (c == 92) ≡ false) (forward s)
unfolding forward
no_backslash [] = tt
no_backslash (c ∷ cs) = (ground arith, no_backslash cs)

no_slash : (s : Pystr) → any (λ d. d == 47) s ≡ false → All (λ c. (c == 47) ≡ false) s
no_slash [] h = tt
no_slash (c ∷ cs) h = (ground arith, no_slash cs (ground arith))

last_part-separators :
    (s : Pystr)
    → All (λ c. (c == 92) ≡ false) s
    → All (λ c. (c == 47 || c == 92) ≡ false) (last_part s)
unfolding last_part
last_part-separators [] h = tt
last_part-separators (c ∷ cs) h = elim (Bool-cases (any (λ d. d == 47) (c ∷ cs))) [
  | inl e ↦ rw e (last_part-separators cs h.1)
  | inr e ↦ rw e (both (c ∷ cs) (no_slash (c ∷ cs) e) h)
]
  where
    both :
        (s : Pystr)
        → All (λ c. (c == 47) ≡ false) s
        → All (λ c. (c == 92) ≡ false) s
        → All (λ c. (c == 47 || c == 92) ≡ false) s
    both [] h k = tt
    both (c ∷ cs) h k = (ground arith, both cs h.1 k.1)

module _ (printable : ℕ → Bool) where
  All-kept :
      (s : Pystr)
      → All (λ c. (c == 47 || c == 92) ≡ false) s
      → All (λ c. is_safe printable c ≡ true) (keep (is_kept printable) s)
  All-kept [] h = tt
  All-kept (c ∷ cs) h = elim (Bool-cases (is_kept printable c)) [
    | inl e ↦ rw e ((ground arith), All-kept cs h.1)
    | inr e ↦ rw e (All-kept cs h.1)
  ]

  upload-IsSafe : All (λ c. printable c ≡ true) (codes "upload") → IsSafe printable (codes "upload")
  unfolding is_kept
  upload-IsSafe h = (omega arith, omega arith, ground arith)

  or_upload-IsSafe :
      (t : Pystr)
      → All (λ c. printable c ≡ true) (codes "upload")
      → length t ≤ 255
      → All (λ c. is_safe printable c ≡ true) t
      → IsSafe printable (or_upload t)
  unfolding or_upload
  or_upload-IsSafe [] h l k = upload-IsSafe h
  or_upload-IsSafe (c ∷ cs) h l k = (omega arith, l, k)

  -- Whatever name a client sends, the stored name has 1 to 255 characters, all of them printable,
  -- none of them a slash, a backslash or one of the forbidden characters. The letters of the default
  -- name are assumed to be printable.
  pub sanitise_filename-IsSafe :
      (raw : Option Pystr)
      → All (λ c. printable c ≡ true) (codes "upload")
      → IsSafe printable (sanitise_filename printable raw)
  unfolding sanitise_filename
  sanitise_filename-IsSafe none h = upload-IsSafe h
  sanitise_filename-IsSafe (some raw) h = elim (Bool-cases (is_empty raw)) [
    | inl e ↦ rw e (upload-IsSafe h)
    | inr e ↦
        let name = last_part (forward raw) in
        let trimmed = trim_left (trim_right (keep (is_kept printable) name)) in
        rw e (
          or_upload-IsSafe (take 255 trimmed) h (omega (arith, length-take 255 trimmed)) (
            All-take _ 255 trimmed (
              All-trim_left _ (trim_right (keep (is_kept printable) name)) (
                All-trim_right (λ c. is_safe printable c ≡ true) (keep (is_kept printable) name)
                  (All-kept name (last_part-separators (forward raw) (no_backslash raw)))))))
  ]
