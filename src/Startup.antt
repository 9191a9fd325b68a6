-- ===== src/Startup.antt =====
-- app/config.py: the checks that may stop the program at its start, and the origins that a browser
-- may call from. The environment, which pydantic reads, is a record of what it gave; `app_env` is the value that its
-- validator leaves, in lower case and without white space.
pub mod Origins
pub mod Secrets
use secure_api.Prelude.{
  ℕ, ◌≤◌, ◌<◌, ◌≡◌, ◌↔◌, ◌⊎◌, refl, sym, ◌∙◌, subst, Bool, true, false, not, ◌&&◌, ◌||◌, Option,
  none, some, String, List, [], ◌∷◌, ◌++◌, map, arith, length, ltb, any, keep, Text, teq, teq→eq,
  teq_refl, codes, strip, starts_with, if◌then◌else◌, Bool-cases, inl, inr,
}
use secure_api.Pathutil.{split_on, is_nonempty}
use secure_api.Security.Passwords.{missing, error_message}

-- the fields of Settings that this file tests; the flag tells that DATABASE_URL was set
pub record StartSettings : Type 0 where
  pub app_env : Text
  pub database_url_set : Bool
  pub database_url : Text
  pub monitor_api_key : Text
  pub secret_key : Text
  pub admin_username : Text
  pub admin_password : Text
  pub cors_origins : Text

-- what the environment, .env or a secrets provider gave for these fields
pub record Environment : Type 0 where
  pub app_env : Option Text
  pub database_url : Option Text
  pub monitor_api_key : Option Text
  pub secret_key : Option Text
  pub admin_username : Option Text
  pub admin_password : Option Text
  pub cors_origins : Option Text

-- what the default factories draw: token_urlsafe(32), token_hex(32) and token_urlsafe(24)
pub record Drawn : Type 0 where
  pub monitor_api_key : Text
  pub secret_key : Text
  pub admin_password : Text

abbrev pub or_default : Option Text → Text → Text
or_default none default = default
or_default (some value) default = value

abbrev pub is_given : Option Text → Bool
is_given none = false
is_given (some value) = true

-- Settings(): a field that nothing gives has its default
abbrev pub settings_of : Environment → Drawn → StartSettings
settings_of env drawn = record {
  app_env = or_default env.app_env (codes "development");
  database_url_set = is_given env.database_url;
  database_url = or_default env.database_url (codes "sqlite:///./apimonitor.db");
  monitor_api_key = or_default env.monitor_api_key drawn.monitor_api_key;
  secret_key = or_default env.secret_key drawn.secret_key;
  admin_username = or_default env.admin_username (codes "admin");
  admin_password = or_default env.admin_password drawn.admin_password;
  cors_origins = or_default env.cors_origins [];
}

abbrev pub is_production : StartSettings → Bool
is_production s = teq s.app_env (codes "production")

-- the elements in their order, each at its first place, unless it is among those seen
unfoldable pub unseen : List Text → List Text → List Text
unseen seen [] = []
unseen seen (o ∷ os) =
    let again = any (teq o) seen in
    let rest = unseen (if again then seen else o ∷ seen) os in if again then rest else o ∷ rest

abbrev pub default_origins : List Text
default_origins =
    codes "http://127.0.0.1:5173"
    ∷ codes "http://localhost:5173"
    ∷ codes "http://127.0.0.1:8000"
    ∷ codes "http://localhost:8000"
    ∷ []

-- the origins that the setting names
unfoldable pub extra_origins : StartSettings → List Text
extra_origins s = keep is_nonempty (map strip (split_on b',' s.cors_origins))

unfoldable pub get_cors_origins : StartSettings → List Text
get_cors_origins s =
    if is_production s
    then unseen [] (extra_origins s)
    else unseen [] (default_origins ++ extra_origins s)

-- what may be trusted: in production only what is configured
abbrev pub trusted_origins : StartSettings → List Text
trusted_origins s = if is_production s then extra_origins s else default_origins ++ extra_origins s

abbrev pub placeholder : Text
placeholder = codes "change-me"

-- the first test that fails, of two
abbrev pub either_missing : Bool → String → Bool → String → List String
either_missing false first passed second = first ∷ []
either_missing true first passed second = missing passed second

unfoldable pub production_errors : StartSettings → List String
production_errors s =
    missing (s.database_url_set && is_nonempty (strip s.database_url)) "DATABASE_URL is not set"
    ++ missing (is_nonempty s.monitor_api_key) "MONITOR_API_KEY is not set"
    ++ either_missing (is_nonempty s.secret_key && not (ltb (length s.secret_key) 32))
        "SECRET_KEY must be at least 32 characters" (not (starts_with placeholder s.secret_key))
        "SECRET_KEY must not use a placeholder value"
    ++ missing (is_nonempty s.admin_username) "ADMIN_USERNAME is not set"
    ++ either_missing (is_nonempty s.admin_password) "ADMIN_PASSWORD is not set"
        (not (starts_with placeholder s.admin_password))
        "ADMIN_PASSWORD must not use a placeholder value"

-- `some` is what the RuntimeError lists
unfoldable pub validate_security_settings : StartSettings → Option String
validate_security_settings s = if is_production s then error_message (production_errors s) else none
