-- ===== src/Auth/Mfa.antt =====
-- app/routers/auth.py: mfa_enroll, mfa_enroll_confirm and mfa_disable. The routes ask for the admin
-- role (Deps).
pub mod Bypass
use secure_api.Prelude.{
  ℕ, String, Text, Bool, true, false, not, ◌&&◌, Option, none, some, List, [], ◌∷◌, str_eq,
}
use secure_api.Models.{User, Db, Target, user_target}
use secure_api.Session.{
  Error, http, M, Request, pure, raise, modify, commit, require, log_audit_event, ◌>>=◌, ◌>>◌,
}
use secure_api.Security.{Crypto, verify_totp}
use secure_api.Auth.Base.{update_user_row}

-- a secret of None or "" is no secret
abbrev has_secret : Option String → Bool
has_secret none = false
has_secret (some s) = not (str_eq s "")

abbrev proves : Crypto → ℕ → Option String → String → Bool
proves c now none code = false
proves c now (some secret) code = verify_totp c now secret code

-- `secret` is what generate_totp_secret drew; the result is the secret of the response
unfoldable pub mfa_enroll : (secret : String) → User → M String
mfa_enroll secret current_user = do
  modify (
      update_user_row current_user.id
        (λ u. record u { mfa_secret = some secret; mfa_enabled = false }))
  commit
  pure secret

module _ (c : Crypto) (now : ℕ) (request : Request) where
  unfoldable pub mfa_enroll_confirm : User → String → M Bool
  mfa_enroll_confirm current_user code = do
    require (has_secret current_user.mfa_secret && proves c now current_user.mfa_secret code)
        (http 400 "Invalid MFA code")
    modify (update_user_row current_user.id (λ u. record u { mfa_enabled = true }))
    commit
    log_audit_event now request "mfa_enabled" current_user.username
        (some (user_target current_user.id)) true []
    pure true

  unfoldable pub mfa_disable : User → String → M Bool
  mfa_disable current_user code = do
    require
        (current_user.mfa_enabled
          && has_secret current_user.mfa_secret
          && proves c now current_user.mfa_secret code)
        (http 400 "Invalid MFA code")
    modify
        (update_user_row current_user.id (λ u. record u { mfa_enabled = false; mfa_secret = none }))
    commit
    log_audit_event now request "mfa_disabled" current_user.username
        (some (user_target current_user.id)) true []
    pure false
