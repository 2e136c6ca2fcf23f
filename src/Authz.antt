-- ===== src/Authz.antt =====
-- backend/app/core/authz.py: the ranking of roles.
pub mod Hierarchy
use soc_analyst.Prelude.{ℕ, Bool, leb}
use soc_analyst.Enums.{UserRole, admin, analyst, viewer}

-- `_RANK` and `rank`
unfoldable pub rank : UserRole → ℕ
rank viewer = 0
rank analyst = 10
rank admin = 20

unfoldable pub has_at_least : UserRole → UserRole → Bool
unfolding rank
has_at_least role minimum = leb (rank minimum) (rank role)

unfoldable pub can_read_security_data : UserRole → Bool
unfolding has_at_least
can_read_security_data role = has_at_least role viewer

unfoldable pub can_write_security_data : UserRole → Bool
unfolding has_at_least
can_write_security_data role = has_at_least role analyst

unfoldable pub can_manage_users : UserRole → Bool
unfolding has_at_least
can_manage_users role = has_at_least role admin
