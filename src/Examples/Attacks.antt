-- ===== src/Examples/Attacks.antt =====
-- A window with three failed logins of one account from one address.
use soc_analyst.Prelude.{
  String, List, ℕ, ◌+◌, ◌-◌, ◌*◌, ◌/◌, ◌≡◌, arith, true, none, some, [], ◌∷◌, min, max, leb, any,
  keep, length, All,
}
use soc_analyst.Pystr.{codes}
use soc_analyst.Detection.Types.{DetectionContext}
use soc_analyst.Detection.Floats.{Floats}
use soc_analyst.Detection.Signals.{LogEntry, is_failed_auth}
use soc_analyst.Detection.BruteForce.{BruteForceDetector, Target, Texts}
use soc_analyst.Detection.BruteForce.Spraying.{detect}
use soc_analyst.Detection.BruteForce.Reports.{
  Enumerates, is_about, is_spray_of, failures_of, failures_from, detect-reports_target,
  detect-reports_spray,
}
use soc_analyst.Detection.BruteForce.Counts.{CountsFailures, detect-CountsFailures}

-- hundredths, rounded down
abbrev cents : Floats ℕ
cents = record {
  of_nat = λ n. 100 * n;
  hundredths = λ n. n;
  plus = λ x y. x + y;
  minus = λ x y. x - y;
  times = λ x y. x * y / 100;
  over = λ x y. x * 100 / y;
  minimum = λ x y. min x y;
  maximum = λ x y. max x y;
  at_least = λ x y. leb y x;
  round_to = λ k x. x;
  ten_thousandths = λ x. 100 * x;
  seconds_between = λ s e. (e - s) / 10000;
  fixed = λ k x. codes "1.0";
}

abbrev plain_texts : Texts
plain_texts = record {
  lower = λ s. s;
  repr = λ s. codes s;
  isoformat = λ t. "1970-01-01T00:00:00";
  text_le = λ s t. true;
}

abbrev strict : BruteForceDetector ℕ
strict = record {
  attempt_threshold = 3;
  attempt_saturation = 10;
  machine_rate_per_minute = 1000;
  rate_weight = 50;
  invalid_user_weight = 40;
  penalty_weight = 30;
  success_weight = 60;
  spray_account_threshold = 2;
  spray_account_saturation = 20;
  success_bonus = 5;
}

abbrev failed_login : ℕ → LogEntry
failed_login n = record {
  id = n;
  event_timestamp = n;
  category = none;
  event_type = some "login";
  action = none;
  outcome = some "failed";
  message = "";
  host = none;
  username = some "ada";
  source_ip = some "10.0.0.1";
}

abbrev window : DetectionContext LogEntry
window = record {
  entries = failed_login 1 ∷ failed_login 2 ∷ failed_login 3 ∷ [];
  window_start = 0;
  window_end = 9;
  log_source_id = none;
}

abbrev ada_from : Target
ada_from = record { source = "10.0.0.1"; account = "ada" }

detect-reports_target_example :
    any (λ x. is_about ada_from x.background) (detect cents plain_texts strict window)
    ≡ leb 3 (length (failures_of ada_from (keep (is_failed_auth (λ s. s)) window.entries)))
detect-reports_target_example =
    detect-reports_target cents plain_texts strict ada_from window (omega arith)

detect-reports_spray_example :
    (names : List String) × Enumerates names
      (failures_from "10.0.0.1" (keep (is_failed_auth (λ s. s)) window.entries))
    × (any (λ x. is_spray_of "10.0.0.1" x.background) (detect cents plain_texts strict window)
        ≡ leb 2 (length names))
detect-reports_spray_example =
    detect-reports_spray cents plain_texts strict "10.0.0.1" window (omega arith)

detect-CountsFailures_example :
    All
      (λ x.
        CountsFailures cents plain_texts strict
          (keep (is_failed_auth (λ s. s)) window.entries)
          x.background)
      (detect cents plain_texts strict window)
detect-CountsFailures_example = detect-CountsFailures cents plain_texts strict window
