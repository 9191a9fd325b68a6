-- ===== src/Deps/CurrentUser.antt =====
-- app/deps.py: get_current_user, _try_jwt, _try_api_key, _get_system_admin and require_role.
pub mod Soundness
use Prim.Native.String
use secure_api.Prelude.{
  ℕ, zero, suc, ◌==◌, String, Text, codes, teq, Bool, true, false, not, ◌&&◌, ◌||◌, Option, none,
  some, List, [], ◌∷◌, str_eq, if◌then◌else◌, starts_with, strip, drop,
}
use secure_api.Models.{User, ApiKey, Db}
use secure_api.Session.{
  Error, http, Result, ok, err, M, pure, raise, gets, lift, modify, commit, one_or_none, ◌>>=◌,
  ◌>>◌,
}
use secure_api.Session.Query.{select, update_rows}
use secure_api.Security.{
  Crypto, Settings, Claims, Role, parse_role, role_lt, role_value, api_key_prefix, hash_token,
}
use secure_api.Auth.Base.{active_named}

-- a resolved caller: the `User`, and the organization of an API key (`_api_key_org_id`)
pub record Caller : Type 0 where
  pub user : User
  pub api_key_org_id : Option ℕ

abbrev pub person : User → Caller
person u = record { user = u; api_key_org_id = none }

abbrev pub bearer : Text
bearer = codes "Bearer "

-- header_value.removeprefix("Bearer ").strip(), if it has the prefix
unfoldable pub bearer_token : Text → Text
bearer_token value = if starts_with bearer value then strip (drop 7 value) else value

abbrev pub named_access : Option Claims → Option String
named_access none = none
named_access (some payload) =
    if str_eq payload.kind "access" && not (str_eq payload.sub "") then some payload.sub else none

-- every exception on the way, that of `one_or_none` included, is None
abbrev or_none : Result (Option User) → Option User
or_none (ok found) = found
or_none (err e) = none

abbrev lookup_named : Option String → Db → Option User
lookup_named none db = none
lookup_named (some username) db = or_none (one_or_none (select (active_named username) db.users))

abbrev is_live_key : String → ApiKey → Bool
is_live_key key_hash k = str_eq k.key_hash key_hash && not k.revoked

-- the transient user of a key, which no row stands for
abbrev pub key_user : ApiKey → Caller
key_user row = record {
  user = record {
    id = 0;
    username = String.◌++◌ "apikey:" row.name;
    email = none;
    password_hash = "";
    role = row.role;
    is_active = true;
    created_at = row.created_at;
    failed_login_count = 0;
    locked_until = none;
    mfa_secret = none;
    mfa_enabled = false;
  };
  api_key_org_id = some row.org_id;
}

module _ (c : Crypto) (cfg : Settings) (now : ℕ) where
  try_jwt : Text → M (Option Caller)
  try_jwt header_value =
      gets (λ db.
        caller (lookup_named (named_access (c.jwt_decode now (bearer_token header_value))) db))
    where
      caller : Option User → Option Caller
      caller none = none
      caller (some u) = some (person u)

  use_key : Option ApiKey → M (Option Caller)
  use_key none = pure none
  use_key (some row) = do
    modify (λ db. record db {
      api_keys =
          update_rows (λ k. k.id == row.id) (λ k. record k { last_used_at = some now }) db.api_keys;
    })
    commit
    pure (some (key_user row))

  try_api_key : Text → M (Option Caller)
  try_api_key raw_key =
      if starts_with api_key_prefix raw_key
      then (do
        rows ← gets (λ db. select (is_live_key (hash_token c raw_key)) db.api_keys)
        row ← lift (one_or_none rows)
        use_key row)
      else pure none

  system_admin : Option User → M Caller
  system_admin none = raise (http 500 "System admin user not found")
  system_admin (some u) = pure (person u)

  get_system_admin : M Caller
  get_system_admin = do
    rows ← gets (λ db. select (active_named cfg.admin_username) db.users)
    user ← lift (one_or_none rows)
    system_admin user

  unauthorized : M Caller
  unauthorized = raise (http 401 "Invalid authentication credentials")

  -- the next way, unless this one found a caller
  or_else : Option Caller → M Caller → M Caller
  or_else (some caller) rest = pure caller
  or_else none rest = rest

  try_bearer : Text → M Caller
  try_bearer auth =
      if starts_with bearer auth
      then (do found ← try_jwt auth; or_else found unauthorized)
      else unauthorized

  -- ?auth=, if the settings allow it; None and "" are no parameter
  by_query : Option Text → M Caller
  by_query none = unauthorized
  by_query (some auth) =
      if not (teq auth []) && cfg.allow_query_auth
      then (if teq auth cfg.monitor_api_key
          then get_system_admin
          else (do found ← try_api_key auth; or_else found (try_bearer auth)))
      else unauthorized

  by_key : Option Text → Option Text → M Caller
  by_key none auth = by_query auth
  by_key (some key) auth =
      if teq key []
      then by_query auth
      else if teq key cfg.monitor_api_key
      then get_system_admin
      else (do found ← try_api_key key; or_else found (by_query auth))

  by_header : Option Text → M (Option Caller)
  by_header none = pure none
  by_header (some value) = if teq value [] then pure none else try_jwt value

  unfoldable pub get_current_user : (authorization x_monitor_key auth : Option Text) → M Caller
  unfolding by_header by_key by_query try_bearer or_else unauthorized get_system_admin system_admin
      try_api_key use_key try_jwt
  get_current_user authorization x_monitor_key auth = do
    found ← by_header authorization
    or_else found (by_key x_monitor_key auth)

-- the dependency that require_role makes
unfoldable pub require_role : Role → Caller → M Caller
require_role min_role caller = go (parse_role caller.user.role)
  where
    go : Option Role → M Caller
    go none = raise (http 403 (String.◌++◌ "Unknown role '" (String.◌++◌ caller.user.role "'")))
    go (some user_role) =
        if role_lt user_role min_role
        then raise (
            http 403
              (String.◌++◌ "Requires '" (String.◌++◌ (role_value min_role) "' role or higher")))
        else pure caller
