-- ===== src/Examples.antt =====
-- The theorems applied at concrete inputs. What stands outside the code is instantiated here: a Redis
-- server in memory, a hasher that keeps the password, readers of tokens and ids.
mod Sessions
mod Accounts
mod Limits
mod Desks
mod Uploads
mod Documents
mod Roles
mod Findings
mod Records
mod Prompting
mod Normalizing
mod Attacks
mod Library
mod Uploading
use soc_analyst.Prelude.{
  ℕ, ◌+◌, ◌*◌, ◌≤◌, ◌<◌, ◌≡◌, ◌≢◌, refl, ap, sym, ◌∙◌, Bool, true, false, Option, none, some,
  String, List, [], ◌∷◌, ltb, ◌==◌, if◌then◌else◌, str_eq, eq_iff, arith, Bool-cases, inl, inr,
}
use soc_analyst.Redis.{Redis}
use soc_analyst.Enums.{UserRole, admin, analyst, viewer}
use soc_analyst.Access.Users.{User}
use soc_analyst.Access.Accounts.{Hasher}

-- the numbers of a server, and until when each key that was set with a TTL is held
pub record Memory : Type 0 where
  pub counters : String → ℕ
  pub held : String → ℕ

abbrev pub blank : Memory
blank = record { counters = λ k. 0; held = λ k. 0 }

abbrev count_one : String → Memory → Memory
count_one k s = record s { counters = λ j. if str_eq j k then s.counters j + 1 else s.counters j }

abbrev hold : String → ℕ → Memory → Memory
hold k until s = record s { held = λ j. if str_eq j k then until else s.held j }

pub count_one-same : (k : String) (s : Memory) → (count_one k s).counters k ≡ s.counters k + 1
count_one-same k s = rw ((eq_iff k k).1 refl) refl

pub count_one-other :
    (k j : String) (s : Memory) → j ≢ k → (count_one k s).counters j ≡ s.counters j
count_one-other k j s h = elim (Bool-cases (str_eq j k)) [
  | inl e ↦ absurd (h ((eq_iff j k).0 e))
  | inr e ↦ rw e refl
]

pub hold-same : (k : String) (until : ℕ) (s : Memory) → (hold k until s).held k ≡ until
hold-same k until s = rw ((eq_iff k k).1 refl) refl

abbrev number : Option (ℕ × Option ℕ × Memory) → ℕ
number none = 0
number (some (n, t, s)) = n

abbrev later : Option (ℕ × Option ℕ × Memory) → Memory
later none = blank
later (some (n, t, s)) = s

abbrev pub left : Option Memory → Memory
left none = blank
left (some s) = s

abbrev answer : Option Bool → Bool
answer none = true
answer (some b) = b

abbrev pub memory : Redis
memory = record {
  Server = Memory;
  incr_ttl =
      λ k s. some (s.counters k + 1, if s.counters k == 0 then none else some 60, count_one k s);
  expire = λ k w s. some s;
  delete = λ k s. some (record s { counters = λ j. if str_eq j k then 0 else s.counters j });
  set_ex = λ now k ttl s. some (hold k (now + ttl * 1000000) s);
  exists = λ now k s. some (ltb now (s.held k));
  counter = λ k s. s.counters k;
  Held = λ k until s. until ≤ s.held k;
  incr_adds = λ k s n t s' e.
      (sym (ap number e), ap (λ o. (later o).counters k) (sym e) ∙ count_one-same k s);
  incr_others =
      λ k j s n t s' e h. ap (λ o. (later o).counters j) (sym e) ∙ count_one-other k j s h;
  set_holds = λ now k ttl s s' e.
      let held : s'.held k ≡ now + ttl * 1000000 =
        ap (λ o. (left o).held k) (sym e) ∙ hold-same k (now + ttl * 1000000) s in
      omega (arith, held);
  exists_held = λ now until k s b e held early.
      let seen : ltb now (s.held k) ≡ b = ap answer e in ground (arith, seen, held, early);
}

abbrev pub hasher : Hasher
hasher = record {
  hash = λ salt password. password;
  verify = λ password hashed. str_eq password hashed;
  needs_rehash = λ hashed. false;
  hash_verifies = λ salt password. (eq_iff password password).1 refl;
}

abbrev pub lower : String → String
lower s = s

abbrev pub ada : User
ada = record {
  id = 7;
  email = "ada@example.org";
  username = "ada";
  full_name = none;
  hashed_password = "lovelace";
  role = analyst;
  is_active = true;
  last_login_at = none;
}
