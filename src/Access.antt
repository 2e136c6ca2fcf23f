-- ===== src/Access.antt =====
-- Who is calling, and may they: tokens, their revocation, accounts and the administration of them.
pub mod Http
pub mod Users
pub mod Denylist
pub mod Session
pub mod Accounts
pub mod Login
pub mod Administration
