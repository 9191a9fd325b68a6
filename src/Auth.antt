-- ===== src/Auth.antt =====
-- app/routers/auth.py: login, registration, token rotation, password reset, MFA, the management of
-- users and API keys, and what a boot repairs. Each handler is an action of a session, given the
-- libraries, the settings, the time of the request and the random values that it draws.
pub mod Base
pub mod Login
pub mod Refresh
pub mod Register
pub mod Reset
pub mod Mfa
pub mod Users
pub mod ApiKeys
pub mod Bootstrap
