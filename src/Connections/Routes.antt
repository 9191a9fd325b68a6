-- ===== src/Connections/Routes.antt =====
-- app/routers/connections.py: the handlers that change a connection.
use secure_api.Prelude.{
  ℕ, ◌==◌, String, Text, teq, Bool, true, not, ◌&&◌, Option, none, some, List, [], ◌∷◌, keep,
  length, str_eq, strip, is_some, if◌then◌else◌, numbered,
}
use secure_api.Models.{User, Db, KnownEndpoint, MonitoredApi, titled, text, number}
use secure_api.Session.{
  Result, ok, err, http, M, Request, pure, raise, gets, lift, modify, commit, require,
  log_audit_event, ◌>>=◌, ◌>>◌,
}
use secure_api.Session.Query.{first, select, insert_row, update_rows}
use secure_api.Pathutil.{Unicode, rstrip_slash, or_root}
use secure_api.Registry.{register_paths, recompute_discovered_documented_flags}
use secure_api.Connections.{
  Provider, Upstream, ConnectedApiCreate, validate_key_format, mask_secret, probe,
  parse_endpoint_lines,
}

-- connection:<id>
abbrev pub source_of : ℕ → String
source_of id = numbered "connection:" id

abbrev found_or : {A : Type 0} → String → ℕ → Option A → M A
found_or detail code none = raise (http code detail)
found_or detail code (some a) = pure a

module _ (u : Unicode) (p : Upstream) (now : ℕ) (request : Request) (current_user : User)
    (org_id : ℕ) where
  -- (base_url, verify_path, endpoints)
  unfoldable pub resolve_target :
      ConnectedApiCreate → Provider → Result (Text × Text × List (Text × Text))
  unfolding rstrip_slash or_root parse_endpoint_lines
  resolve_target body provider =
      let base_url = rstrip_slash (strip body.base_url) in
      if not (str_eq provider.id "custom")
      then ok (provider.base_url, provider.verify_path, provider.endpoints)
      else if teq base_url []
      then err (http 400 "Base URL is required for a custom API.")
      else elim (p.refused base_url) [
        | some reason ↦ err (http 400 reason)
        | none ↦ elim (parse_endpoint_lines u body.endpoints) [
          | err e ↦ err e
          | ok [] ↦ err (http 400 "List at least one endpoint to monitor, e.g. 'GET /v1/health'.")
          | ok (endpoint ∷ endpoints) ↦
              ok (base_url, or_root (strip (or_root body.verify_path)), endpoint ∷ endpoints)
        ]
      ]

  -- a name that is taken between the test and the flush is left out, with other requests
  abbrev pub name_taken : Text → Db → Bool
  name_taken name db =
      is_some (first (select (λ c. c.org_id == org_id && teq c.name name) db.monitored_apis))

  abbrev or_reason : Option String → M (Unit {0})
  or_reason none = pure tt
  or_reason (some reason) = raise (http 400 reason)

  -- the status, and when it was found
  abbrev first_check : ConnectedApiCreate → Provider → Text → Text → Text → String × Option ℕ
  first_check body provider api_key base_url verify_path =
      if body.verify
      then (probe p provider api_key base_url verify_path, some now)
      else ("unverified", none)

  unfoldable pub create_connection : ConnectedApiCreate → M ℕ
  unfolding validate_key_format mask_secret probe resolve_target register_paths
  create_connection body = do
    provider ← found_or "Unknown provider." 400 (p.get_provider body.provider)
    let api_key = strip body.api_key
    or_reason (validate_key_format provider api_key)
    let name = strip body.name
    (base_url, verify_path, endpoints) ← lift (resolve_target body provider)
    taken ← gets (name_taken name)
    require (not taken) (http 409 "A connection of that name already exists.")
    let (status, checked_at) = first_check body provider api_key base_url verify_path
    let (key_prefix, key_last4) = mask_secret api_key
    id ← gets (λ db. db.monitored_apis.next_id)
    modify (λ db. record db {
      monitored_apis =
          insert_row
            (λ id. record {
              id = id;
              org_id = org_id;
              name = name;
              provider = provider.id;
              base_url = base_url;
              verify_path = verify_path;
              credential_ciphertext = p.encrypt api_key;
              key_prefix = key_prefix;
              key_last4 = key_last4;
              endpoints_registered = 0;
              status = status;
              last_checked_at = checked_at;
              created_by = current_user.id;
              created_at = now;
            })
            db.monitored_apis;
    })
    (registered, found) ←
        register_paths u now org_id request current_user name endpoints (source_of id)
          "api_connection_created"
    modify (λ db. record db {
      monitored_apis =
          update_rows (λ c. c.id == id) (λ c. record c { endpoints_registered = found })
            db.monitored_apis;
    })
    commit
    pure id

  abbrev pub asked_connection : ℕ → MonitoredApi → Bool
  asked_connection connection_id c = c.id == connection_id && c.org_id == org_id

  abbrev find_connection : ℕ → M MonitoredApi
  find_connection connection_id = do
    rows ← gets (λ db. select (asked_connection connection_id) db.monitored_apis)
    found_or "Connection not found." 404 (first rows)

  unfoldable pub verify_connection : ℕ → M String
  unfolding probe
  verify_connection connection_id = do
    row ← find_connection connection_id
    provider ← found_or "Unknown provider." 400 (p.get_provider row.provider)
    api_key ←
        found_or "The stored key cannot be decrypted." 409 (p.decrypt row.credential_ciphertext)
    let status = probe p provider api_key row.base_url row.verify_path
    modify (λ db. record db {
      monitored_apis =
          update_rows (λ c. c.id == row.id)
            (λ c. record c { status = status; last_checked_at = some now }) db.monitored_apis;
    })
    commit
    log_audit_event now request "api_connection_verified" current_user.username
        (some (titled row.name)) (not (str_eq status "error"))
        (("provider", text row.provider) ∷ ("status", text status) ∷ [])
    pure status

  abbrev pub seeded_by : MonitoredApi → KnownEndpoint → Bool
  seeded_by row e = e.org_id == org_id && str_eq e.source (source_of row.id)

  abbrev pub drop_connection : MonitoredApi → Db → Db
  drop_connection row db = record db {
    known_endpoints = record db.known_endpoints {
      rows = keep (λ e. not (seeded_by row e)) db.known_endpoints.rows;
    };
    monitored_apis = record db.monitored_apis {
      rows = keep (λ c. not (c.id == row.id)) db.monitored_apis.rows;
    };
  }

  -- it gives the number of the endpoints that go
  unfoldable pub delete_connection : ℕ → M ℕ
  delete_connection connection_id = do
    row ← find_connection connection_id
    removed ← gets (λ db. length (select (seeded_by row) db.known_endpoints))
    modify (drop_connection row)
    commit
    recompute_discovered_documented_flags u now org_id
    log_audit_event now request "api_connection_deleted" current_user.username
        (some (titled row.name)) true
        (("provider", text row.provider) ∷ ("endpoints_removed", number removed) ∷ [])
    pure removed
