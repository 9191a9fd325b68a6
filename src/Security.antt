-- ===== src/Security.antt =====
-- app/security.py: roles, the password policy, and what the program asks of bcrypt, SHA-256, PyJWT
-- and pyotp. The libraries are the record `Crypto`, which every user of them takes as a parameter.
pub mod Passwords
use secure_api.Prelude.{
  ℕ, ◌+◌, ◌*◌, ◌≡◌, String, Text, codes, Bool, true, false, ◌||◌, Option, none, some, List, [], ◌∷◌,
  ◌++◌, leb, ltb, take, length, str_eq, if◌then◌else◌,
}

-- app/security.py, Role
pub data Role : Type 0 where
  super_admin admin editor viewer : Role

unfoldable pub role_value : Role → String
role_value super_admin = "super_admin"
role_value admin = "admin"
role_value editor = "editor"
role_value viewer = "viewer"

-- Role(value), `none` for a ValueError
unfoldable pub parse_role : String → Option Role
parse_role value =
    if str_eq value "super_admin"
    then some super_admin
    else if str_eq value "admin"
    then some admin
    else if str_eq value "editor"
    then some editor
    else if str_eq value "viewer"
    then some viewer
    else none

unfoldable pub level : Role → ℕ
level viewer = 0
level editor = 1
level admin = 2
level super_admin = 3

-- Role.__lt__
unfoldable pub role_lt : Role → Role → Bool
unfolding level
role_lt a b = ltb (level a) (level b)

unfoldable pub is_platform_admin : String → Bool
is_platform_admin role = str_eq role "admin" || str_eq role "super_admin"

unfoldable pub is_super_admin : String → Bool
is_super_admin role = str_eq role "super_admin"

-- app/security.py, OrgRole
pub data OrgRole : Type 0 where
  owner editor viewer : OrgRole

unfoldable pub parse_org_role : String → Option OrgRole
parse_org_role value =
    if str_eq value "owner"
    then some OrgRole.owner
    else if str_eq value "editor"
    then some OrgRole.editor
    else if str_eq value "viewer"
    then some OrgRole.viewer
    else none

unfoldable pub org_role_value : OrgRole → String
org_role_value OrgRole.owner = "owner"
org_role_value OrgRole.editor = "editor"
org_role_value OrgRole.viewer = "viewer"

unfoldable pub org_level : OrgRole → ℕ
org_level OrgRole.viewer = 0
org_level OrgRole.editor = 1
org_level OrgRole.owner = 2

-- OrgRole.__lt__
unfoldable pub org_role_lt : OrgRole → OrgRole → Bool
unfolding org_level
org_role_lt a b = ltb (org_level a) (org_level b)

-- the claims of a JWT that the program writes or reads
pub record Claims : Type 0 where
  pub sub : String
  pub kind : String
  pub exp : ℕ
  pub org : Option ℕ
  pub jti : String

-- What the program calls and does not implement. `none` is an exception.
pub record Crypto : Type 0 where
  pub checkpw : Text → String → Option Bool
  pub hashpw : String → Text → String
  pub sha256 : Text → String
  pub jwt_encode : Claims → Text
  pub jwt_decode : ℕ → Text → Option Claims
  pub totp : ℕ → String → String → Option Bool
  pub is_decimal : ℕ → Bool

-- app/config.py, the settings that the modelled code reads
pub record Settings : Type 0 where
  pub monitor_api_key : Text
  pub access_token_expire_minutes : ℕ
  pub refresh_token_expire_days : ℕ
  pub admin_username : String
  pub admin_password : Text
  pub login_lockout_threshold : ℕ
  pub login_lockout_base_seconds : ℕ
  pub login_lockout_max_seconds : ℕ
  pub password_reset_token_expire_minutes : ℕ
  pub allow_query_auth : Bool

-- timedelta(seconds=n), in microseconds
abbrev pub seconds : ℕ → ℕ
seconds n = n * 1000000

abbrev pub minutes : ℕ → ℕ
minutes n = seconds (n * 60)

abbrev pub hours : ℕ → ℕ
hours n = seconds (n * 3600)

abbrev pub days : ℕ → ℕ
days n = seconds (n * 86400)

abbrev pub or_false : Option Bool → Bool
or_false none = false
or_false (some b) = b

module _ (c : Crypto) where
  -- an exception of bcrypt is a mismatch
  unfoldable pub verify_password : Text → String → Bool
  verify_password plain hashed = or_false (c.checkpw plain hashed)

  unfoldable pub hash_token : Text → String
  hash_token token = c.sha256 token

  unfoldable pub verify_totp : ℕ → String → String → Bool
  verify_totp now secret code = or_false (c.totp now secret code)

abbrev pub api_key_prefix : Text
api_key_prefix = codes "amk_"

unfoldable pub generate_api_key : Text → Text
generate_api_key random = api_key_prefix ++ random

unfoldable pub api_key_display_prefix : Text → Text
api_key_display_prefix raw_key = take (length api_key_prefix + 8) raw_key

abbrev pub stream_ticket_ttl_seconds : ℕ
stream_ticket_ttl_seconds = 60

module _ (c : Crypto) (cfg : Settings) (now : ℕ) (subject : String) where
  unfoldable pub create_access_token : Text × ℕ
  create_access_token =
      let expires = now + minutes cfg.access_token_expire_minutes in
      (
        c.jwt_encode
            (record { sub = subject; kind = "access"; exp = expires; org = none; jti = "" }),
        expires,
      )

  -- `nonce` is what secrets.token_hex returned
  unfoldable pub create_refresh_token : String → Text × ℕ
  create_refresh_token nonce =
      let expires = now + days cfg.refresh_token_expire_days in
      (
        c.jwt_encode
            (record { sub = subject; kind = "refresh"; exp = expires; org = none; jti = nonce }),
        expires,
      )

  unfoldable pub create_stream_ticket : ℕ → Text × ℕ
  create_stream_ticket org_id =
      let expires = now + seconds stream_ticket_ttl_seconds in
      (
        c.jwt_encode
            (record { sub = subject; kind = "stream"; exp = expires; org = some org_id; jti = "" }),
        stream_ticket_ttl_seconds,
      )
