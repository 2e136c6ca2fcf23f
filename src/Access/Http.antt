-- ===== src/Access/Http.antt =====
-- `HTTPException`: the status and the detail that a refused request is answered with.
use soc_analyst.Prelude.{ℕ, String}

pub record HttpError : Type 0 where
  pub status : ℕ
  pub detail : String
