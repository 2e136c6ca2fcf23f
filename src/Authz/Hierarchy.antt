-- ===== src/Authz/Hierarchy.antt =====
-- What the ranking of backend/app/core/authz.py lets each role do.
use soc_analyst.Prelude.{◌≡◌, true, ◌↔◌, ◌⊎◌, arith}
use soc_analyst.Enums.{UserRole, admin, analyst}
use soc_analyst.Authz.{can_read_security_data, can_write_security_data, can_manage_users}

-- Whoever may manage users may write, and whoever may write may read; and each tier is a
-- proper step: every role reads, exactly the analyst and the admin write, exactly the admin manages.
pub tiers_nest :
    (role : UserRole)
    → (can_read_security_data role ≡ true)
      × ((can_write_security_data role ≡ true) ↔ ((role ≡ analyst) ⊎ (role ≡ admin)))
      × ((can_manage_users role ≡ true) ↔ (role ≡ admin))
unfolding can_read_security_data can_write_security_data can_manage_users
tiers_nest admin = ground arith
tiers_nest _ = ground arith
