-- ===== src/Examples/Limits.antt =====
-- Four requests against a limit of two.
use soc_analyst.Prelude.{min, ◌-◌, ◌≡◌, ap, sym, none, [], ◌∷◌}
use soc_analyst.Redis.{Redis}
use soc_analyst.RateLimit.Quota.{IsReliable, admitted, requests, quota_exact}
use soc_analyst.Examples.{memory, blank, left}

pub memory-IsReliable : IsReliable memory
memory-IsReliable = record {
  incr_answers = λ k s. λ e. cc;
  expire_answers = λ k w s. λ e. cc;
  expire_counter = λ k j w s s' e. ap (λ o. (left o).counters j) (sym e);
}

quota_exact_example :
    admitted memory 2 60 "a" ("a" ∷ "b" ∷ "a" ∷ "a" ∷ []) blank
    ≡ min (requests memory "a" ("a" ∷ "b" ∷ "a" ∷ "a" ∷ [])) (2 - 0)
quota_exact_example =
    quota_exact memory 2 60 "a" ("a" ∷ "b" ∷ "a" ∷ "a" ∷ []) blank memory-IsReliable

-- a server that is down
abbrev silent : Redis
silent = record memory {
  incr_ttl = λ k s. none;
  incr_adds = λ k s n t s' e. cc;
  incr_others = λ k j s n t s' e h. cc;
}
