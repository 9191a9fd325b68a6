-- ===== src/Deps/MonitorKey.antt =====
-- app/deps.py: verify_monitor_key, which lets a request through without resolving its caller.
use secure_api.Prelude.{
  ℕ, Text, teq, Bool, true, false, not, ◌&&◌, ◌||◌, ◌≡◌, Option, none, some, [], starts_with,
  str_eq, if◌then◌else◌,
}
use secure_api.Session.{http, Result, ok, err}
use secure_api.Security.{Crypto, Settings, Claims}
use secure_api.Deps.CurrentUser.{bearer, bearer_token, named_access}

-- the value is given, not empty, and passes the test
abbrev presents : (Text → Bool) → Option Text → Bool
presents test none = false
presents test (some value) = not (teq value []) && test value

abbrev is_some : {A : Type 0} → Option A → Bool
is_some none = false
is_some (some a) = true

abbrev unauthorized : Result (Unit {0})
unauthorized = err (http 401 "Invalid authentication credentials")

-- a value that is not empty
pub record Given (given : Option Text) (P : Text → Type 0) : Type 0 where
  pub value : Text
  pub given-eq : given ≡ some value
  pub filled : teq value [] ≡ false
  pub evidence : P value

module _ (c : Crypto) (cfg : Settings) (now : ℕ) where
  abbrev is_monitor_key : Text → Bool
  is_monitor_key value = teq value cfg.monitor_api_key

  -- "Bearer " and an access token with a subject; a token that does not decode is no exception
  abbrev is_bearer_token : Text → Bool
  is_bearer_token value =
      starts_with bearer value && is_some (named_access (c.jwt_decode now (bearer_token value)))

  unfoldable pub verify_monitor_key :
      (x_monitor_key authorization auth : Option Text) → Result (Unit {0})
  verify_monitor_key x_monitor_key authorization auth =
      if presents is_monitor_key x_monitor_key
      then ok tt
      else if presents is_bearer_token authorization
      then ok tt
      else if presents
          (λ value. cfg.allow_query_auth && (is_monitor_key value || is_bearer_token value)) auth
      then ok tt
      else unauthorized

  -- an access token that names somebody, who need not be an active user
  pub record IsAccessToken (value : Text) : Type 0 where
    pub payload : Claims
    pub prefixed : starts_with bearer value ≡ true
    pub decoded : c.jwt_decode now (bearer_token value) ≡ some payload
    pub access : str_eq payload.kind "access" && not (str_eq payload.sub "") ≡ true
