-- ===== src/Auth/Login/Repeated.antt =====
-- Consecutive failed logins to one account.
use secure_api.Prelude.{
  ℕ, ◌+◌, ◌-◌, ◌<◌, ◌≡◌, refl, ap, ◌∙◌, subst, min, String, false, none, List, [], ◌∷◌, leb, length,
  All, arith,
}
use secure_api.Models.{User, Db}
use secure_api.Session.{http, err, Request, run}
use secure_api.Session.Query.{select}
use secure_api.Security.{Crypto, Settings, seconds, verify_password}
use secure_api.Auth.Base.{active_named}
use secure_api.Auth.Login.{LoginIn, is_locked, check_credentials, login, lockout_seconds}
use secure_api.Auth.Login.Lockout.{after_failure, login_locked, login_rejected}

pub record Attempt : Type 0 where
  pub now : ℕ
  pub request : Request
  pub body : LoginIn
  pub nonce : String

module _ (c : Crypto) (cfg : Settings) where
  pub try_login : Attempt → Db → Db
  try_login a db = (run (login c cfg a.now a.request a.body a.nonce) db).db

  pub try_logins : List Attempt → Db → Db
  try_logins [] db = db
  try_logins (a ∷ more) db = try_logins more (try_login a db)

-- an attempt on the account with a password that bcrypt does not accept
pub record IsWrong (c : Crypto) (name hash : String) (a : Attempt) : Type 0 where
  pub same_account : a.body.username ≡ name
  pub mismatch : verify_password c a.body.password hash ≡ false

-- the first lockout has the base length
lockout_seconds-threshold :
    (cfg : Settings) (n : ℕ)
    → n ≡ cfg.login_lockout_threshold
    → lockout_seconds cfg n ≡ min cfg.login_lockout_base_seconds cfg.login_lockout_max_seconds
unfolding lockout_seconds
lockout_seconds-threshold cfg n e =
    let none_over : n - cfg.login_lockout_threshold ≡ 0 = omega arith in rw none_over (omega arith)

module _ (c : Crypto) (cfg : Settings) (name : String) where
  try_login_wrong :
      (a : Attempt) (u : User) (db : Db)
      → select (active_named name) db.users ≡ u ∷ []
      → is_locked a.now u.locked_until ≡ false
      → IsWrong c name u.password_hash a
      → select (active_named name) (try_login c cfg a db).users ≡ after_failure cfg a.now u ∷ []
  unfolding try_login check_credentials
  try_login_wrong a u db found unlocked wrong =
      let same = wrong.same_account in
      subst
        (λ n. select (active_named n) (try_login c cfg a db).users ≡ after_failure cfg a.now u ∷ [])
        same
        (login_rejected c cfg a.now a.request a.body a.nonce db u (rw same found) unlocked
          "Invalid credentials" none (rw wrong.mismatch)).1

  abbrev with_failures : User → ℕ → List User
  with_failures u n = record u { failed_login_count = n; locked_until = none } ∷ []

  try_logins_wrong :
      (more : List Attempt) (u : User) (db : Db)
      → select (active_named name) db.users ≡ with_failures u u.failed_login_count
      → u.failed_login_count + length more < cfg.login_lockout_threshold
      → All (IsWrong c name u.password_hash) more
      → select (active_named name) (try_logins c cfg more db).users
        ≡ with_failures u (u.failed_login_count + length more)
  unfolding try_logins
  try_logins_wrong [] u db found few wrong = rw found (ap (with_failures u) (omega arith))
  try_logins_wrong (a ∷ more) u db found few (w, ws) =
      let unlocked : User = record u { locked_until = none } in
      let counted : User = record unlocked { failed_login_count = u.failed_login_count + 1 } in
      let next = try_login_wrong a unlocked db found refl w in
      let small : leb cfg.login_lockout_threshold (u.failed_login_count + 1) ≡ false =
        ground arith in
      try_logins_wrong more counted (try_login c cfg a db) (rw small at next) (omega arith) ws
      ∙ ap (with_failures u) (omega arith)

  -- After as many wrong passwords in a row as the threshold says, on an account with no failure
  -- before, every login to the account is refused with a 423 until the lockout has passed, the right
  -- password included, and it issues no token.
  pub lockout_after_threshold :
      (u : User) (db : Db) (more : List Attempt) (last later : Attempt)
      → select (active_named name) db.users ≡ with_failures u 0
      → length more + 1 ≡ cfg.login_lockout_threshold
      → All (IsWrong c name u.password_hash) more
      → IsWrong c name u.password_hash last
      → later.body.username ≡ name
      → later.now
        < last.now + seconds (min cfg.login_lockout_base_seconds cfg.login_lockout_max_seconds)
      → let db' = try_login c cfg last (try_logins c cfg more db) in
        let outcome = run (login c cfg later.now later.request later.body later.nonce) db' in
        (outcome.response
          ≡ err (http 423 "Account temporarily locked due to repeated failed logins"))
        × (outcome.db.refresh_tokens ≡ db'.refresh_tokens)
  lockout_after_threshold u db more last later found enough wrongs wrong same early =
      let fresh : User = record u { failed_login_count = 0; locked_until = none } in
      let counted = try_logins_wrong more fresh db found (omega arith) wrongs in
      let locked =
        try_login_wrong last (record fresh { failed_login_count = 0 + length more })
          (try_logins c cfg more db) counted refl wrong in
      let failed : ℕ = 0 + length more + 1 in
      let first_lockout = lockout_seconds-threshold cfg failed (omega arith) in
      let refused =
        login_locked c cfg later.now later.request later.body later.nonce _
          (after_failure cfg last.now (record fresh { failed_login_count = 0 + length more }))
          (last.now + seconds (lockout_seconds cfg failed)) (rw same locked) (ground arith)
          (rw first_lockout early) in
      (refused.0, refused.2)
