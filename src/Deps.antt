-- ===== src/Deps.antt =====
-- app/deps.py: who calls (a JWT, the monitor key or an API key), with which role, and on which
-- organization.
pub mod CurrentUser
pub mod OrgContext
pub mod MonitorKey
