-- ===== src/Auth/Reset.antt =====
-- app/routers/auth.py: request_password_reset, confirm_password_reset and change_password. What is
-- handed to the mail server or written to the process log is part of the outcome (`Delivery`).
pub mod Effects
use secure_api.Prelude.{
  ℕ, zero, ◌+◌, ◌==◌, String, Text, Bool, true, false, not, ◌&&◌, Option, none, some, List, [], ◌∷◌,
  ltb, str_eq, opt_eq, if◌then◌else◌,
}
use secure_api.Models.{User, PasswordResetToken, Db, Target, user_target}
use secure_api.Session.{
  Error, http, M, Request, pure, raise, gets, lift, modify, commit, require, log_audit_event,
  one_or_none, ◌>>=◌, ◌>>◌,
}
use secure_api.Session.Query.{select, insert_row, update_rows}
use secure_api.Security.{Crypto, Settings, minutes, hash_token, verify_password}
use secure_api.Security.Passwords.{validate_password_strength}
use secure_api.Auth.Base.{has_id, update_user_row}
use secure_api.Auth.Refresh.{revoke_refresh_tokens}
use secure_api.Auth.Register.{or_weak}

-- where a raw reset token goes
pub data Delivery : Type 0 where
  nothing : Delivery
  mailed : (to : String) → (token : Text) → Delivery
  discarded : Delivery
  logged : (token : Text) → Delivery

abbrev pub invalid_reset_token : Error
invalid_reset_token = http 400 "Invalid or expired reset token"

abbrev pub is_open : String → PasswordResetToken → Bool
is_open token_hash row = str_eq row.token token_hash && not row.used

abbrev pub is_open_of : ℕ → PasswordResetToken → Bool
is_open_of user_id row = row.user_id == user_id && not row.used

abbrev pub use_up : PasswordResetToken → PasswordResetToken
use_up row = record row { used = true }

abbrev pub update_reset_tokens : (PasswordResetToken → Bool) → Db → Db
update_reset_tokens p db = record db { reset_tokens = update_rows p use_up db.reset_tokens }

-- mailer.is_configured() and user.email; otherwise the environment decides
abbrev deliver : (configured production : Bool) → Option String → Text → Delivery
deliver true production (some to) token =
    if str_eq to "" then (if production then discarded else logged token) else mailed to token
deliver true production none token = if production then discarded else logged token
deliver false production email token = if production then discarded else logged token

abbrev or_invalid_row : Option PasswordResetToken → M PasswordResetToken
or_invalid_row none = raise invalid_reset_token
or_invalid_row (some row) = pure row

abbrev or_invalid_user : Option User → M User
or_invalid_user none = raise invalid_reset_token
or_invalid_user (some user) = pure user

-- the assignments to the user of a confirmed reset
abbrev pub with_new_password : String → User → User
with_new_password hash u = record u {
  password_hash = hash;
  failed_login_count = 0;
  locked_until = none;
}

module _ (c : Crypto) (cfg : Settings) (now : ℕ) (request : Request) where
  issue : (configured production : Bool) → Text → Option User → M Delivery
  issue configured production raw_token none = pure nothing
  issue configured production raw_token (some user) = do
    let expires = now + minutes cfg.password_reset_token_expire_minutes
    modify (λ db. record db {
      reset_tokens =
          insert_row
            (λ id. record {
              id = id;
              user_id = user.id;
              token = hash_token c raw_token;
              expires_at = expires;
              used = false;
              created_at = now;
            })
            db.reset_tokens;
    })
    commit
    log_audit_event now request "password_reset_requested" user.username
        (some (user_target user.id)) true []
    pure (deliver configured production user.email raw_token)

  -- the response is the same for every address; the result here is the delivery
  unfoldable pub request_password_reset :
      (configured production : Bool) → String → Text → M Delivery
  unfolding issue
  request_password_reset configured production email raw_token = do
    users ← gets (λ db. select (λ u. opt_eq u.email (some email) && u.is_active) db.users)
    user ← lift (one_or_none users)
    issue configured production raw_token user

  unfoldable pub confirm_password_reset :
      (token new_password : Text) → (salt : String) → M (Unit {0})
  confirm_password_reset token new_password salt = do
    rows ← gets (λ db. select (is_open (hash_token c token)) db.reset_tokens)
    found ← lift (one_or_none rows)
    row ← or_invalid_row found
    require (ltb now row.expires_at) invalid_reset_token
    users ← gets (λ db. select (λ u. has_id row.user_id u && u.is_active) db.users)
    owner ← lift (one_or_none users)
    user ← or_invalid_user owner
    or_weak (validate_password_strength c new_password)
    modify (update_user_row user.id (with_new_password (c.hashpw salt new_password)))
    modify (update_reset_tokens (λ r. r.id == row.id))
    modify (update_reset_tokens (is_open_of user.id))
    modify (revoke_refresh_tokens user.id)
    commit
    log_audit_event now request "password_reset_completed" user.username
        (some (user_target user.id)) true []
    pure tt

  unfoldable pub change_password :
      User → (current_password new_password : Text) → (salt : String) → M (Unit {0})
  change_password current_user current_password new_password salt = do
    require (verify_password c current_password current_user.password_hash)
        (http 400 "Current password is incorrect")
    or_weak (validate_password_strength c new_password)
    modify (
        update_user_row current_user.id
          (λ u. record u { password_hash = c.hashpw salt new_password }))
    commit
    log_audit_event now request "password_changed" current_user.username
        (some (user_target current_user.id)) true []
    pure tt
