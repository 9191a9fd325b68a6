-- ===== src/Auth/Login/Lockout.antt =====
-- What a login attempt does on each branch: locked accounts, failures that count, and the tokens
-- of a success.
use secure_api.Prelude.{
  ℕ, ◌+◌, ◌<◌, ◌≡◌, refl, inl, inr, String, false, Option, some, List, [], ◌∷◌, leb, if◌then◌else◌,
  arith,
}
use secure_api.Models.{User, Db}
use secure_api.Session.{http, ok, err, Request, run, one_or_none-cases}
use secure_api.Session.Query.{select}
use secure_api.Security.{
  Crypto, Settings, seconds, hash_token, create_access_token, create_refresh_token,
}
use secure_api.Auth.Base.{
  AuthOut, active_named, build_user_out, build_auth_out, add_refresh_token, select-update_user_row,
}
use secure_api.Auth.Login.{
  LoginIn, accepted, rejected, lockout_seconds, check_credentials, login, is_locked, clear_failures,
  count_failure,
}

-- the row of a user after one more failure
abbrev pub after_failure : Settings → ℕ → User → User
after_failure cfg now u = record u {
  failed_login_count = u.failed_login_count + 1;
  locked_until =
      if leb cfg.login_lockout_threshold (u.failed_login_count + 1)
      then some (now + seconds (lockout_seconds cfg (u.failed_login_count + 1)))
      else u.locked_until;
}

module _ (c : Crypto) (cfg : Settings) (now : ℕ) (request : Request) (body : LoginIn)
    (nonce : String) (db : Db) where
  abbrev pub matching : List User
  matching = select (active_named body.username) db.users

  -- While the account's lockout lasts, a login is refused with a 423 whatever the password is: no
  -- user row changes, so the attempt does not count, and no refresh token is issued.
  pub login_locked :
      (u : User) (until : ℕ)
      → matching ≡ u ∷ []
      → u.locked_until ≡ some until
      → now < until
      → ((run (login c cfg now request body nonce) db).response
          ≡ err (http 423 "Account temporarily locked due to repeated failed logins"))
        × ((run (login c cfg now request body nonce) db).db.users ≡ db.users)
        × ((run (login c cfg now request body nonce) db).db.refresh_tokens ≡ db.refresh_tokens)
  unfolding login
  login_locked u until found locked early = ground arith

  -- A login that returns tokens found exactly one active user of that name, who was not locked out
  -- and whose credentials were accepted, and it returns that user.
  pub login_sound :
      (out : AuthOut)
      → (run (login c cfg now request body nonce) db).response ≡ ok out
      → (u : User) × (matching ≡ u ∷ [])
        × (is_locked now u.locked_until ≡ false)
        × (check_credentials c now u body ≡ accepted)
        × (out.user ≡ build_user_out u)
  unfolding login
  login_sound out h = elim (one_or_none-cases matching) [
    | inl nobody ↦ absurd (ground arith)
    | inr (inl (u, found)) ↦ (u, found, ground arith, ground arith, ground arith)
    | inr (inr many) ↦ absurd (ground arith)
  ]

  module _ (u : User) (found : matching ≡ u ∷ [])
      (unlocked : is_locked now u.locked_until ≡ false) where
    -- Where the credentials of the one active, unlocked user are rejected, the answer is a 401, the
    -- failure counts on the user's row (and locks the account from the threshold on), and no
    -- refresh token is issued.
    pub login_rejected :
        (detail : String) (reason : Option String)
        → check_credentials c now u body ≡ rejected detail reason
        → ((run (login c cfg now request body nonce) db).response ≡ err (http 401 detail))
          × (select
                (active_named body.username)
                (run (login c cfg now request body nonce) db).db.users
              ≡ after_failure cfg now u ∷ [])
          × ((run (login c cfg now request body nonce) db).db.refresh_tokens ≡ db.refresh_tokens)
    unfolding login
    login_rejected detail reason wrong =
        let counted = λ (until : Option ℕ).
          select-update_user_row body.username u (count_failure (u.failed_login_count + 1) until) db
            found (λ x. refl) in
        (
          ground arith,
          ground (
            arith,
            counted u.locked_until,
            counted (some (now + seconds (lockout_seconds cfg (u.failed_login_count + 1)))),
          ),
          ground arith,
        )

    -- Where they are accepted, the answer has an access token and a refresh token of that user, the
    -- failures and the lockout are cleared, and the new refresh token's digest is stored.
    pub login_accepted :
        check_credentials c now u body ≡ accepted
        → let refresh = create_refresh_token c cfg now u.username nonce in
          ((run (login c cfg now request body nonce) db).response
            ≡ ok (build_auth_out now u (create_access_token c cfg now u.username) refresh.0))
          × (select
                (active_named body.username)
                (run (login c cfg now request body nonce) db).db.users
              ≡ clear_failures u ∷ [])
          × ((run (login c cfg now request body nonce) db).db.refresh_tokens
              ≡ (add_refresh_token now u.id (hash_token c refresh.0) refresh.1 db).refresh_tokens)
    unfolding login
    login_accepted right = (
      ground arith,
      ground (arith, select-update_user_row body.username u clear_failures db found (λ x. refl)),
      ground arith,
    )
