-- ===== src/Detection/Signals.antt =====
-- backend/app/services/detection/signals.py: what a log entry says of an attempt. `lower` is
-- `str.lower`; a timestamp is a number of microseconds, and an address its text.
use soc_analyst.Prelude.{
  ℕ, zero, suc, String, Bool, true, false, not, ◌&&◌, Option, none, some, List, [], ◌∷◌, ◌++◌, map,
  any, take, min, max, str_eq, or_default, if◌then◌else◌,
}
use soc_analyst.Pystr.{Pystr, codes}
use soc_analyst.Pystr.Search.{contains}

-- the columns of a log entry that a detector reads
pub record LogEntry : Type 0 where
  pub id : ℕ
  pub event_timestamp : ℕ
  pub category : Option String
  pub event_type : Option String
  pub action : Option String
  pub outcome : Option String
  pub message : String
  pub host : Option String
  pub username : Option String
  pub source_ip : Option String

abbrev pub auth_markers : List String
auth_markers = "auth" ∷ "login" ∷ "logon" ∷ "signin" ∷ "sign_in" ∷ "credential" ∷ "password" ∷ []

abbrev pub failure_markers : List String
failure_markers =
    "fail" ∷ "denied" ∷ "deny" ∷ "reject" ∷ "invalid" ∷ "unauthorized" ∷ "unauthorised" ∷ "locked"
    ∷ "lockout" ∷ "error" ∷ "blocked" ∷ "block" ∷ "refused" ∷ []

abbrev pub success_markers : List String
success_markers = "success" ∷ "succeeded" ∷ "allow" ∷ "accept" ∷ "granted" ∷ "ok" ∷ "pass" ∷ []

abbrev pub block_markers : List String
block_markers =
    "deny" ∷ "denied" ∷ "block" ∷ "blocked" ∷ "drop" ∷ "dropped" ∷ "reject" ∷ "refused" ∷ []

abbrev pub invalid_user_markers : List String
invalid_user_markers =
    "invalid user" ∷ "invalid_user" ∷ "unknown user" ∷ "unknown_user" ∷ "no such user"
    ∷ "nonexistent user" ∷ "user unknown" ∷ "illegal user"
    ∷ "authentication failure for illegal user" ∷ "user does not exist" ∷ []

abbrev pub penalty_markers : List String
penalty_markers =
    "penalty" ∷ "throttl" ∷ "tarpit" ∷ "rate limit" ∷ "rate-limit"
    ∷ "too many authentication failures" ∷ "maximum authentication attempts"
    ∷ "max authentication attempts" ∷ []

-- `text or None`
unfoldable pub or_none : Option String → Option String
or_none none = none
or_none (some s) = if str_eq s "" then none else some s

-- the texts that are there and not empty
unfoldable pub present : List (Option String) → List String
unfolding or_none
present [] = []
present (t ∷ ts) = let rest = present ts in elim (or_none t) [ none ↦ rest | some s ↦ s ∷ rest ]

-- `" ".join(texts)`
unfoldable pub spaced : List Pystr → Pystr
spaced [] = []
spaced (t ∷ []) = t
spaced (t ∷ u ∷ us) = t ++ (32 ∷ spaced (u ∷ us))

module _ (lower : String → String) where
  -- `_haystack`
  unfoldable pub haystack : LogEntry → Bool → Pystr
  unfolding present spaced
  haystack e include_message =
      let fields = e.event_type ∷ e.action ∷ e.outcome ∷ e.category ∷ [] in
      spaced (
        map (λ t. codes (lower t))
          (present (if include_message then fields ++ some e.message ∷ [] else fields)))

  -- `_contains`
  unfoldable pub contains_any : Pystr → List String → Bool
  contains_any text markers = any (λ m. contains (codes m) text) markers

  unfoldable pub is_auth_event : LogEntry → Bool
  unfolding haystack contains_any
  is_auth_event e = contains_any (haystack e false) auth_markers

  -- an outcome that is there and says success
  unfoldable pub says_success : Option String → Bool
  unfolding contains_any or_none
  says_success outcome = elim (or_none outcome) [
    | none ↦ false
    | some o ↦ contains_any (codes (lower o)) success_markers
  ]

  unfoldable pub is_failure : LogEntry → Bool
  unfolding says_success haystack contains_any
  is_failure e =
      if says_success e.outcome then false else contains_any (haystack e false) failure_markers

  unfoldable pub is_failed_auth : LogEntry → Bool
  unfolding is_auth_event is_failure
  is_failed_auth e = is_auth_event e && is_failure e

  unfoldable pub is_blocked : LogEntry → Bool
  unfolding haystack contains_any
  is_blocked e = contains_any (haystack e false) block_markers

  unfoldable pub is_invalid_user : LogEntry → Bool
  unfolding haystack contains_any
  is_invalid_user e = contains_any (haystack e true) invalid_user_markers

  unfoldable pub has_auth_penalty : LogEntry → Bool
  unfolding haystack contains_any is_auth_event is_failure
  has_auth_penalty e =
      if not (is_auth_event e) && not (is_failure e)
      then false
      else contains_any (haystack e true) penalty_markers

unfoldable pub actor : LogEntry → Option String
unfolding or_none
actor e = or_none e.username

-- `entry.source_ip or entry.host or "unknown"`
unfoldable pub source_of : LogEntry → String
unfolding or_none
source_of e = or_default (or_none e.source_ip) (or_default (or_none e.host) "unknown")

-- `signals.actor(entry) or "unknown"`
unfoldable pub account_of : LogEntry → String
unfolding actor
account_of e = or_default (actor e) "unknown"

unfoldable pub sample_ids : List LogEntry → ℕ → List ℕ
sample_ids entries limit = map (λ e. e.id) (take limit entries)

-- the first and the last timestamp of a group, which has an entry
unfoldable pub earliest : List LogEntry → ℕ
earliest [] = 0
earliest (e ∷ []) = e.event_timestamp
earliest (e ∷ f ∷ fs) = min e.event_timestamp (earliest (f ∷ fs))

unfoldable pub latest : List LogEntry → ℕ
latest [] = 0
latest (e ∷ []) = e.event_timestamp
latest (e ∷ f ∷ fs) = max e.event_timestamp (latest (f ∷ fs))

-- `text[:n]`
unfoldable pub prefix : ℕ → String → String
prefix zero s = ""
prefix (suc n) String.[] = ""
prefix (suc n) (String.◌∷◌ c s) = String.◌∷◌ c (prefix n s)
