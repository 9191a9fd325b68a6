-- ===== src/Auth/Login.antt =====
-- app/routers/auth.py, login and _lockout_seconds.
pub mod Lockout
pub mod Repeated
use secure_api.Prelude.{
  ℕ, zero, ◌+◌, ◌-◌, ◌*◌, ◌^◌, min, String, Text, Bool, true, false, ◌&&◌, Option, none, some, List,
  [], ◌∷◌, ltb, leb, str_eq, if◌then◌else◌,
}
use secure_api.Models.{User, Db, Target, named, Detail, text, number}
use secure_api.Session.{
  Error, http, Result, M, Request, pure, raise, gets, lift, modify, commit, log_audit_event,
  one_or_none, ◌>>=◌, ◌>>◌,
}
use secure_api.Session.Query.{select}
use secure_api.Security.{
  Crypto, Settings, seconds, is_platform_admin, verify_password, verify_totp, hash_token,
  create_access_token, create_refresh_token,
}
use secure_api.Auth.Base.{AuthOut, build_auth_out, active_named, update_user_row, add_refresh_token}

-- app/schemas.py, LoginIn
pub record LoginIn : Type 0 where
  pub username : String
  pub password : Text
  pub mfa_code : Option String

-- what the credentials are worth: `detail` goes to the caller, `reason` to the audit log
pub data Verdict : Type 0 where
  accepted : Verdict
  rejected : (detail : String) → (reason : Option String) → Verdict

-- min(base * 2 ** over, max)
unfoldable pub lockout_seconds : Settings → ℕ → ℕ
lockout_seconds cfg failed_count =
    let over = failed_count - cfg.login_lockout_threshold in
    min (cfg.login_lockout_base_seconds * 2 ^ over) cfg.login_lockout_max_seconds

abbrev pub or_empty : Option String → String
or_empty none = ""
or_empty (some s) = s

abbrev reason_details : Option String → List (String × Detail)
reason_details none = []
reason_details (some reason) = ("reason", text reason) ∷ []

abbrev pub is_locked : ℕ → Option ℕ → Bool
is_locked now none = false
is_locked now (some until) = ltb now until

abbrev pub count_failure : ℕ → Option ℕ → User → User
count_failure failed until u = record u { failed_login_count = failed; locked_until = until }

abbrev pub clear_failures : User → User
clear_failures u = record u { failed_login_count = 0; locked_until = none }

module _ (c : Crypto) (now : ℕ) where
  -- a code of None or "" is no code
  unfoldable pub check_mfa : User → Option String → Verdict
  check_mfa user mfa_code =
      if str_eq (or_empty mfa_code) ""
      then rejected "MFA code required" (some "mfa_code_required")
      else if verify_totp c now (or_empty user.mfa_secret) (or_empty mfa_code)
      then accepted
      else rejected "Invalid MFA code" (some "mfa_code_invalid")

  unfoldable pub check_credentials : User → LoginIn → Verdict
  check_credentials user body =
      if verify_password c body.password user.password_hash
      then (if is_platform_admin user.role && user.mfa_enabled
          then check_mfa user body.mfa_code
          else accepted)
      else rejected "Invalid credentials" none

module _ (c : Crypto) (cfg : Settings) (now : ℕ) where
  module _ (request : Request) where
    audit_attempt : String → Bool → List (String × Detail) → M (Unit {0})
    audit_attempt actor =
        log_audit_event now request "login_attempt" actor (some (named "auth/login"))

    -- the failure of a known user is counted, and locks the account at the threshold
    record_failure : User → M (Unit {0})
    record_failure user =
        let failed = user.failed_login_count + 1 in
        if leb cfg.login_lockout_threshold failed
        then (do
          let locked_for = lockout_seconds cfg failed
          modify (update_user_row user.id (count_failure failed (some (now + seconds locked_for))))
          commit
          log_audit_event now request "account_locked" user.username (some (named "auth/login"))
              false
              (("failed_login_count", number failed)
                ∷ ("locked_for_seconds", number locked_for)
                ∷ []))
        else (do modify (update_user_row user.id (count_failure failed user.locked_until)); commit)

    -- the two tokens are issued and the digest of the second is stored
    grant : String → User → M AuthOut
    grant nonce user = do
      let access = create_access_token c cfg now user.username
      let refresh = create_refresh_token c cfg now user.username nonce
      modify (update_user_row user.id clear_failures)
      modify (add_refresh_token now user.id (hash_token c refresh.0) refresh.1)
      commit
      audit_attempt user.username true []
      pure (build_auth_out now user access refresh.0)

    conclude : LoginIn → String → User → Verdict → M AuthOut
    conclude body nonce user accepted = grant nonce user
    conclude body nonce user (rejected detail reason) = do
      record_failure user
      audit_attempt body.username false (reason_details reason)
      raise (http 401 detail)

    -- the comparison with the dummy hash is for its time only
    attempt : LoginIn → String → Option User → M AuthOut
    attempt body nonce none = do
      audit_attempt body.username false []
      raise (http 401 "Invalid credentials")
    attempt body nonce (some user) =
        if is_locked now user.locked_until
        then (do
          audit_attempt body.username false (("reason", text "account_locked") ∷ [])
          raise (http 423 "Account temporarily locked due to repeated failed logins"))
        else conclude body nonce user (check_credentials c now user body)

    unfoldable pub login : LoginIn → String → M AuthOut
    unfolding attempt conclude grant record_failure audit_attempt
    login body nonce = do
      matching ← gets (λ db. select (active_named body.username) db.users)
      user ← lift (one_or_none matching)
      attempt body nonce user
