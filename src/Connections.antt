-- ===== src/Connections.antt =====
-- app/routers/connections.py with app/services/provider_catalog.py, app/services/provider_probe.py
-- and mask_secret of app/services/crypto.py: an API that is monitored through its key. The handlers
-- act in the organization of the route's context. The catalog is looked up by a function; Fernet,
-- the policy on targets and HTTP are parameters.
pub mod Routes
pub mod Deletion
use secure_api.Prelude.{
  ℕ, ◌+◌, ◌-◌, ◌==◌, String, Text, codes, teq, Bool, true, false, not, ◌&&◌, ◌||◌, Option, none,
  some, List, [], ◌∷◌, ◌++◌, leb, ltb, length, any, all, take, take_last, drop, keep, str_eq, strip,
  strip_left, is_space, starts_with, if◌then◌else◌, numbered, reverse,
}
use secure_api.Models.{User, Db, Table, KnownEndpoint, MonitoredApi, named, text, number}
use secure_api.Session.{
  Error, Result, ok, err, http, M, Request, pure, raise, gets, lift, modify, commit, require,
  log_audit_event, ◌>>=◌, ◌>>◌,
}
use secure_api.Session.Query.{first, select, insert_row, update_rows}
use secure_api.Pathutil.{Unicode, rstrip_slash}
use secure_api.Registry.{known_in, register_paths, recompute_discovered_documented_flags}

-- `key_pattern` is none for the custom provider
pub record Provider : Type 0 where
  pub id : String
  pub base_url : Text
  pub key_pattern : Option (Text → Bool)
  pub verify_path : Text
  pub endpoints : List (Text × Text)

-- `encrypt` and `decrypt` are Fernet under the server's key, `refused` is assert_safe_target's reason,
-- and `get_status` the status of the authenticated GET, or nothing where httpx raises
pub record Upstream : Type 0 where
  pub get_provider : String → Option Provider
  pub encrypt : Text → Text
  pub decrypt : Text → Option Text
  pub refused : Text → Option String
  pub get_status : Provider → Text → Text → Option ℕ

-- the body's `endpoints` stand in lines
pub record ConnectedApiCreate : Type 0 where
  pub provider : String
  pub name : Text
  pub api_key : Text
  pub base_url : Text
  pub verify_path : Text
  pub endpoints : List Text
  pub verify : Bool

-- lstrip("/")
unfoldable pub lstrip_slash : Text → Text
lstrip_slash [] = []
lstrip_slash (ch ∷ rest) =
    let stripped = lstrip_slash rest in if ch == b'/' then stripped else ch ∷ rest

unfoldable pub validate_key_format : Provider → Text → Option String
validate_key_format provider api_key =
    let key = strip api_key in
    if teq key []
    then some "API key is required."
    else if any is_space key
    then some "API key must not contain spaces or line breaks."
    else elim provider.key_pattern [
      | none ↦ if leb 8 (length key) then none else some "API key looks too short."
      | some pattern' ↦
          if pattern' key then none else some "That does not look like a key of the provider"
    ]

unfoldable pub mask_secret : Text → Text × Text
mask_secret plaintext =
    let key = strip plaintext in
    (take 8 key, if ltb (8 + 4) (length key) then take_last 4 key else [])

-- STATUS_ACTIVE, STATUS_INVALID, STATUS_ERROR
unfoldable pub classify_status : ℕ → String
classify_status code =
    if leb 200 code && ltb code 300
    then "active"
    else if code == 401 || code == 403
    then "invalid"
    else if code == 429
    then "active"
    else "error"

module _ (p : Upstream) where
  -- the status, without the text
  unfoldable pub probe : Provider → Text → Text → Text → String
  unfolding rstrip_slash lstrip_slash classify_status
  probe provider api_key base_url verify_path =
      let url = rstrip_slash base_url ++ b'/' ∷ lstrip_slash verify_path in
      elim (p.refused url) [
        | some reason ↦ "error"
        | none ↦ elim (p.get_status provider api_key url) [
          | none ↦ "error"
          | some code ↦ classify_status code
        ]
      ]

-- what stands before the first white space, and after it
unfoldable pub first_word : Text → Text
first_word [] = []
first_word (ch ∷ line) = let rest = first_word line in if is_space ch then [] else ch ∷ rest

unfoldable pub after_word : Text → Text
after_word [] = []
after_word (ch ∷ line) = let rest = after_word line in if is_space ch then ch ∷ line else rest

module _ (u : Unicode) where
  abbrev is_method : Text → Bool
  is_method m = any (teq m) (
      codes "GET"
      ∷ codes "POST"
      ∷ codes "PUT"
      ∷ codes "PATCH"
      ∷ codes "DELETE"
      ∷ codes "HEAD"
      ∷ codes "OPTIONS"
      ∷ [])

  -- _ENDPOINT_LINE_RE on a stripped line
  unfoldable pub match_line : Text → Option (Text × Text)
  unfolding first_word after_word
  match_line line =
      let method = u.upper (first_word line) in
      let path = strip_left (after_word line) in
      if is_method method && starts_with (codes "/") path && not (any is_space path)
      then some (method, path)
      else none

  abbrev pub seen : Text × Text → List (Text × Text) → Bool
  seen pair out = any (λ other. teq other.0 pair.0 && teq other.1 pair.1) out

  unfoldable pub parse_lines : List Text → List (Text × Text) → Result (List (Text × Text))
  unfolding match_line
  parse_lines [] out = ok out
  parse_lines (raw ∷ lines) out =
      let line = strip raw in
      if teq line [] || starts_with (codes "#") line
      then parse_lines lines out
      else elim (match_line line) [
        | none ↦ err (http 400 "Cannot parse endpoint line")
        | some pair ↦ parse_lines lines (if seen pair out then out else out ++ pair ∷ [])
      ]

  abbrev bounded : List (Text × Text) → Result (List (Text × Text))
  bounded out =
      if ltb 200 (length out) then err (http 400 "Too many endpoints (max 200).") else ok out

  unfoldable pub parse_endpoint_lines : List Text → Result (List (Text × Text))
  unfolding parse_lines
  parse_endpoint_lines lines = elim (parse_lines lines []) [ err e ↦ err e | ok out ↦ bounded out ]
