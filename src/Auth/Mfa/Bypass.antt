-- ===== src/Auth/Mfa/Bypass.antt =====
-- When a second factor is asked for, and how an enrollment takes it away.
use secure_api.Prelude.{ℕ, ◌≡◌, ◌≢◌, refl, String, true, false, some, [], ◌∷◌, arith, eq_iff}
use secure_api.Models.{User, Db}
use secure_api.Session.{Request, run, ok}
use secure_api.Session.Query.{select}
use secure_api.Security.{
  Crypto, Settings, is_platform_admin, verify_password, verify_totp, create_access_token,
  create_refresh_token,
}
use secure_api.Auth.Base.{AuthOut, active_named, select-update_user_row, build_auth_out}
use secure_api.Auth.Login.{
  LoginIn, is_locked, accepted, check_credentials, check_mfa, or_empty, login,
}
use secure_api.Auth.Login.Lockout.{login_sound, login_accepted}
use secure_api.Auth.Mfa.{mfa_enroll}

mfa_checked :
    (c : Crypto) (now : ℕ) (u : User) (body : LoginIn)
    → is_platform_admin u.role ≡ true
    → u.mfa_enabled ≡ true
    → check_credentials c now u body ≡ accepted
    → (verify_password c body.password u.password_hash ≡ true)
      × (or_empty body.mfa_code ≢ "")
      × (verify_totp c now (or_empty u.mfa_secret) (or_empty body.mfa_code) ≡ true)
unfolding check_credentials check_mfa
mfa_checked c now u body admin enabled passed = ground (arith, eq_iff (or_empty body.mfa_code) "")

module _ (c : Crypto) (cfg : Settings) (now : ℕ) (request : Request) (body : LoginIn)
    (nonce : String) where
  -- A login that returns tokens to a platform admin with MFA was given, besides the right password,
  -- a code that the user's secret verifies.
  pub mfa_enforced :
      (db : Db) (u : User) (out : AuthOut)
      → select (active_named body.username) db.users ≡ u ∷ []
      → is_platform_admin u.role ≡ true
      → u.mfa_enabled ≡ true
      → (run (login c cfg now request body nonce) db).response ≡ ok out
      → (verify_password c body.password u.password_hash ≡ true)
        × (or_empty body.mfa_code ≢ "")
        × (verify_totp c now (or_empty u.mfa_secret) (or_empty body.mfa_code) ≡ true)
  mfa_enforced db u out found admin enabled h =
      let (user, same, _, passed, _) = login_sound c cfg now request body nonce db out h in
      let one_user : user ≡ u = ground (arith, found, same) in
      mfa_checked c now u body admin enabled (rw one_user at passed)

  -- A session of a platform admin with MFA is enough to take the second factor away: after one call
  -- of the enrollment route, which asks for no code, the password alone logs in.
  pub mfa_enroll-bypass :
      (db : Db) (u : User) (secret : String)
      → select (active_named body.username) db.users ≡ u ∷ []
      → u.mfa_enabled ≡ true
      → is_locked now u.locked_until ≡ false
      → verify_password c body.password u.password_hash ≡ true
      → let db' = (run (mfa_enroll secret u) db).db in
        let enrolled : User = record u { mfa_secret = some secret; mfa_enabled = false } in
        (run (login c cfg now request body nonce) db').response
        ≡ ok (
            build_auth_out now enrolled
              (create_access_token c cfg now u.username)
              (create_refresh_token c cfg now u.username nonce).0)
  unfolding mfa_enroll check_credentials
  mfa_enroll-bypass db u secret found enabled unlocked right =
      let enrolled : User = record u { mfa_secret = some secret; mfa_enabled = false } in
      (login_accepted c cfg now request body nonce (run (mfa_enroll secret u) db).db enrolled
        (select-update_user_row body.username u
          (λ x. record x { mfa_secret = some secret; mfa_enabled = false }) db found (λ x. refl))
        unlocked (ground arith)).0
