-- ===== src/Detection/Floats.antt =====
-- The float arithmetic of the detectors as an interface, and
-- `scale_score` of backend/app/services/detection/types.py.
use soc_analyst.Prelude.{ℕ, Bool, if◌then◌else◌}
use soc_analyst.Pystr.{Pystr}

pub record Floats (F : Type 0) : Type 0 where
  -- `float(n)`, and the literal of `n` hundredths
  pub of_nat : ℕ → F
  pub hundredths : ℕ → F
  pub plus : F → F → F
  pub minus : F → F → F
  pub times : F → F → F
  pub over : F → F → F
  -- `min(x, y)`, `max(x, y)`, `x >= y`, `x <= y`
  pub minimum : F → F → F
  pub maximum : F → F → F
  pub at_least : F → F → Bool
  -- `round(x, k)`
  pub round_to : ℕ → F → F
  -- a float with four decimals in ten-thousandths
  pub ten_thousandths : F → ℕ
  -- `(end - start).total_seconds()` of two timestamps in microseconds
  pub seconds_between : ℕ → ℕ → F
  -- `f"{x:.kf}"`
  pub fixed : ℕ → F → Pystr

module _ {F : Type 0} (f : Floats F) where
  -- `BASE_SCORE = 0.40`
  unfoldable pub scale_score : F → F → F → F
  scale_score observed threshold saturation =
      if f.at_least threshold saturation
      then f.hundredths 100
      else let ratio = f.over (f.minus observed threshold) (f.minus saturation threshold) in
        let clamped = f.minimum (f.maximum ratio (f.hundredths 0)) (f.hundredths 100) in
        f.round_to 4 (
          f.plus (f.hundredths 40) (f.times (f.minus (f.hundredths 100) (f.hundredths 40)) clamped))
