-- ===== src/Auth/Register.antt =====
-- app/routers/auth.py: register.
use secure_api.Prelude.{
  ℕ, String, Text, Bool, true, false, Option, none, some, [], str_eq, opt_eq, is_some, not,
}
use secure_api.Models.{User, named}
use secure_api.Session.{
  http, M, Request, pure, raise, gets, lift, modify, commit, require, log_audit_event, one_or_none,
  ◌>>=◌, ◌>>◌,
}
use secure_api.Session.Query.{select, insert_row}
use secure_api.Security.{Crypto, Settings, hash_token, create_access_token, create_refresh_token}
use secure_api.Security.Passwords.{validate_password_strength}
use secure_api.Auth.Base.{AuthOut, build_auth_out, add_refresh_token}

-- app/schemas.py, RegisterIn
pub record RegisterIn : Type 0 where
  pub username : String
  pub email : String
  pub password : Text

-- a PasswordValidationError is a 422 with its message
abbrev pub or_weak : Option String → M (Unit {0})
or_weak none = pure tt
or_weak (some message) = raise (http 422 message)

-- the two uniqueness checks, which see inactive accounts too
abbrev pub require_unused : String → String → M (Unit {0})
require_unused username email = do
  names ← gets (λ db. select (λ u. str_eq u.username username) db.users)
  taken ← lift (one_or_none names)
  require (not (is_some taken)) (http 409 "Username already taken")
  emails ← gets (λ db. select (λ u. opt_eq u.email (some email)) db.users)
  registered ← lift (one_or_none emails)
  require (not (is_some registered)) (http 409 "Email already registered")

-- User(…): what is not given has its column default
abbrev pub new_user : ℕ → String → Option String → String → String → Bool → ℕ → User
new_user now username email password_hash role is_active id = record {
  id = id;
  username = username;
  email = email;
  password_hash = password_hash;
  role = role;
  is_active = is_active;
  created_at = now;
  failed_login_count = 0;
  locked_until = none;
  mfa_secret = none;
  mfa_enabled = false;
}

-- db.add and db.flush: the row, with the key that it was given
abbrev pub add_user : (ℕ → User) → M User
add_user make = do
  id ← gets (λ db. db.users.next_id)
  modify (λ db. record db { users = insert_row make db.users })
  pure (make id)

module _ (c : Crypto) (cfg : Settings) (now : ℕ) (request : Request) where
  unfoldable pub register : RegisterIn → (salt nonce : String) → M AuthOut
  register body salt nonce = do
    or_weak (validate_password_strength c body.password)
    require_unused body.username body.email
    user ←
        add_user
          (new_user now body.username (some body.email) (c.hashpw salt body.password) "viewer" true)
    let access = create_access_token c cfg now user.username
    let refresh = create_refresh_token c cfg now user.username nonce
    modify (add_refresh_token now user.id (hash_token c refresh.0) refresh.1)
    commit
    log_audit_event now request "user_registered" user.username (some (named "auth/register")) true
        []
    pure (build_auth_out now user access refresh.0)
