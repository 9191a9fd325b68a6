-- ===== src/Scenarios.antt =====
-- A small database, and stand-ins for the libraries, on which the theorems are applied.
pub mod Accounts
pub mod Sessions
pub mod Organizations
pub mod Routing
pub mod Discovery
pub mod Traffic
pub mod Queue
pub mod Versions
pub mod Inventory
pub mod Connected
pub mod Started
use secure_api.Prelude.{
  ℕ, ◌*◌, String, Text, codes, teq, Bool, true, false, ◌&&◌, Option, none, some, List, [], ◌∷◌,
  ◌++◌, leb, str_eq, if◌then◌else◌,
}
use secure_api.Models.{
  User, RefreshToken, ApiKey, PasswordResetToken, Organization, OrgMembership, Db,
}
use secure_api.Session.{Request, Result, ok, err}
use secure_api.Security.{Crypto, Settings, Claims}
use secure_api.Auth.Base.{AuthOut, UserOut}

abbrev claims : String → String → String → Claims
claims sub kind jti = record { sub = sub; kind = kind; exp = 900000000000; org = none; jti = jti }

abbrev digest : Text → String
digest token =
    if teq token (codes "refresh1")
    then "d1"
    else if teq token (codes "refresh2")
    then "d2"
    else if teq token (codes "reset")
    then "dr"
    else if teq token (codes "amk_key")
    then "dk"
    else "d0"

abbrev decode : ℕ → Text → Option Claims
decode now token =
    if teq token (codes "refresh1")
    then some (claims "alice" "refresh" "1")
    else if teq token (codes "refresh2")
    then some (claims "alice" "refresh" "2")
    else if teq token (codes "access")
    then some (claims "alice" "access" "")
    else none

abbrev pub crypto : Crypto
crypto = record {
  checkpw = λ password hash. some (teq password (codes hash));
  hashpw = λ salt password. "new";
  sha256 = digest;
  jwt_encode = λ c. codes c.kind ++ codes c.jti;
  jwt_decode = decode;
  totp = λ now secret code. some (str_eq secret code);
  is_decimal = λ ch. leb b'0' ch && leb ch b'9';
}

abbrev pub settings : Settings
settings = record {
  monitor_api_key = codes "monitor";
  access_token_expire_minutes = 30;
  refresh_token_expire_days = 7;
  admin_username = "root";
  admin_password = codes "root";
  login_lockout_threshold = 2;
  login_lockout_base_seconds = 30;
  login_lockout_max_seconds = 900;
  password_reset_token_expire_minutes = 30;
  allow_query_auth = false;
}

abbrev pub request : Request
request = record { ip = some "10.0.0.1"; user_agent = none }

abbrev pub user : ℕ → String → String → String → User
user id username hash role = record {
  id = id;
  username = username;
  email = none;
  password_hash = hash;
  role = role;
  is_active = true;
  created_at = 0;
  failed_login_count = 0;
  locked_until = none;
  mfa_secret = none;
  mfa_enabled = false;
}

abbrev pub alice : User
alice = user 1 "alice" "pw" "viewer"

abbrev pub root : User
root = user 2 "root" "root" "super_admin"

abbrev pub carol : User
carol = record (user 3 "carol" "pw3" "admin") { mfa_secret = some "123456"; mfa_enabled = true }

-- locked out until 100
abbrev pub dave : User
dave = record (user 4 "dave" "pw4" "viewer") { locked_until = some 100; failed_login_count = 2 }

abbrev pub token1 : RefreshToken
token1 = record {
  id = 1;
  user_id = 1;
  token = "d1";
  expires_at = 1000;
  revoked = false;
  created_at = 0;
}

-- a token that served already
abbrev pub token2 : RefreshToken
token2 = record token1 { id = 2; token = "d2"; revoked = true }

abbrev pub reset : PasswordResetToken
reset = record {
  id = 1;
  user_id = 1;
  token = "dr";
  expires_at = 1000;
  used = false;
  created_at = 0;
}

abbrev pub org1 : Organization
org1 = record { id = 1; name = "First"; slug = codes "first"; owner_user_id = 1; created_at = 0 }

abbrev pub member : ℕ → ℕ → ℕ → String → String → OrgMembership
member id user_id org_id role status = record {
  id = id;
  user_id = user_id;
  org_id = org_id;
  role = role;
  status = status;
  created_at = 0;
  decided_at = none;
}

-- alice owns the first organization, of which dave is an editor, and carol asks to join
abbrev pub db : Db
db = record {
  users = record { rows = alice ∷ root ∷ carol ∷ dave ∷ []; next_id = 5 };
  refresh_tokens = record { rows = token1 ∷ token2 ∷ []; next_id = 3 };
  reset_tokens = record { rows = reset ∷ []; next_id = 2 };
  api_keys = record { rows = []; next_id = 1 };
  organizations = record { rows = org1 ∷ []; next_id = 2 };
  memberships = record {
    rows =
        member 1 1 1 "owner" "active"
        ∷ member 2 4 1 "editor" "active"
        ∷ member 3 3 1 "viewer" "pending"
        ∷ [];
    next_id = 4;
  };
  known_endpoints = record { rows = []; next_id = 1 };
  discovered_endpoints = record { rows = []; next_id = 1 };
  shadow_endpoints = record { rows = []; next_id = 1 };
  zombie_states = record { rows = []; next_id = 1 };
  alerts = record { rows = []; next_id = 1 };
  ml_models = record { rows = []; next_id = 1 };
  monitored_apis = record { rows = []; next_id = 1 };
  audit_log = [];
}

-- the tokens of an answer
abbrev pub tokens_of : Result AuthOut → AuthOut
tokens_of (ok out) = out
tokens_of (err e) = record {
  access_token = [];
  refresh_token = [];
  expires_in = 0;
  user = record {
    id = 0;
    username = "";
    email = none;
    role = "";
    is_active = false;
    created_at = 0;
  };
}
