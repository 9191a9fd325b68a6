-- ===== src/Scenarios/Inventory.antt =====
-- The theorems on registered endpoints and on captured requests, applied.
use secure_api.Prelude.{
  ℕ, ◌+◌, ◌≤◌, ◌==◌, ◌≡◌, ◌⊎◌, refl, Text, codes, teq, true, false, not, none, some, List, [], ◌∷◌,
  map, take, length, keep, All, if◌then◌else◌,
}
use secure_api.Models.{Db, ShadowEndpoint, ZombieEndpointState}
use secure_api.Session.{Session, Error, run, err, ok, crash}
use secure_api.Session.Query.{select}
use secure_api.Security.{days}
use secure_api.Pathutil.{Unicode, with_slash, is_documented, normalize_path_for_discovery}
use secure_api.Pathutil.Redaction.{
  QueryCodec, is_sensitive, after_query, redact_sensitive_query_params, IsSafe,
  redact_sensitive_query_params-IsSafe,
}
use secure_api.Discovery.{new_shadow}
use secure_api.Traffic.{TrafficEvent}
use secure_api.Registry.{
  known_in, is_known, get_known_templates, unknown, distinct, recompute_flags, register_paths,
  add_shadow_to_registry,
}
use secure_api.Registry.Promotion.{add_shadow_to_registry_lem}
use secure_api.Registry.Registration.{register_paths_lem}
use secure_api.Alerts.{recent_duplicate}
use secure_api.Processing.{CapturedRequest, process_single_event}
use secure_api.Processing.Documented.{process_single_event-undocumented}
use secure_api.Zombies.{hits, group_paths, matching_ts_of, recomputed, new_state}
use secure_api.Zombies.Grouping.{recomputed-group_paths}
use secure_api.Scenarios.{db, request, alice}
use secure_api.Scenarios.Discovery.{ascii, zombie_settings}
use secure_api.Scenarios.Routing.{parts, parts-IsSegment}
use secure_api.Scenarios.Traffic.{traffic}

abbrev shadow : ShadowEndpoint
shadow = new_shadow ascii 50 1 (codes "GET") (with_slash parts) none true 200 1

abbrev observed : Db
observed = record db { shadow_endpoints = record { rows = shadow ∷ []; next_id = 2 } }

add_shadow_to_registry_lem_example :
    let out = run (add_shadow_to_registry ascii 60 1 request alice 1) observed in
    ((2
        ≤ length
            (select (is_known 1 shadow.method shadow.path_normalized) observed.known_endpoints))
      × (out.response ≡ err crash)
      × (out.db ≡ observed))
    ⊎ ((out.response ≡ ok tt)
        × (is_documented ascii (codes "GET") (with_slash parts) (get_known_templates 1 out.db)
            ≡ true)
        × (keep (λ e. not (known_in 1 e)) out.db.known_endpoints.rows
            ≡ keep (λ e. not (known_in 1 e)) observed.known_endpoints.rows))
add_shadow_to_registry_lem_example =
    add_shadow_to_registry_lem ascii 60 1 request alice 1 observed shadow (codes "GET") parts refl
      parts-IsSegment refl refl

abbrev found_paths : List (Text × Text)
found_paths = (codes "GET", codes "/users") ∷ (codes "POST", codes "/users") ∷ []

register_paths_lem_example :
    let out =
      run
        (register_paths ascii 60 1 request alice
          (codes "API")
          found_paths
          "openapi"
          "spec_uploaded")
        db in
    let rows = db.known_endpoints.rows in
    let added = unknown ascii 60 1 found_paths rows in
    ((distinct ascii 60 1 added ≡ false) × (out.response ≡ err crash) × (out.db ≡ db))
    ⊎ ((out.response ≡ ok (length added, length found_paths))
        × (length out.db.known_endpoints.rows ≡ length rows + length added)
        × (unknown ascii 60 1 found_paths out.db.known_endpoints.rows ≡ [])
        × ((recompute_flags ascii 60 1 out.db).discovered_endpoints ≡ out.db.discovered_endpoints)
        × (keep (λ e. not (known_in 1 e)) out.db.known_endpoints.rows
            ≡ keep (λ e. not (known_in 1 e)) rows)
        × (keep (λ d. not (d.org_id == 1)) out.db.discovered_endpoints.rows
            ≡ keep (λ d. not (d.org_id == 1)) db.discovered_endpoints.rows))
register_paths_lem_example =
    register_paths_lem ascii 60 1 request alice (codes "API") "openapi" "spec_uploaded" found_paths
      db

abbrev rows : List (TrafficEvent ℕ)
rows = traffic.events.rows

abbrev fresh_state : ZombieEndpointState
fresh_state = new_state ascii zombie_settings (days 40) 1 (codes "GET") (codes "/users/{id}") 1

recomputed-group_paths_example :
    recomputed ascii zombie_settings
      (days 40)
      (codes "GET")
      none
      (matching_ts_of ascii zombie_settings
        (days 40)
        (codes "GET")
        (codes "/users/{id}")
        (group_paths ascii zombie_settings (days 40) rows []))
      fresh_state
    ≡ recomputed ascii zombie_settings
        (days 40)
        (codes "GET")
        none
        (map
          (λ e. e.ts)
          (keep
            (λ e.
              hits ascii zombie_settings
                (days 40)
                (codes "GET")
                (codes "/users/{id}")
                (ascii.upper e.method)
                e.path)
            rows))
        fresh_state
recomputed-group_paths_example =
    recomputed-group_paths ℕ ascii zombie_settings (days 40) (codes "GET") (codes "/users/{id}")
      rows none fresh_state

-- one parameter, plain and redacted
abbrev codec : QueryCodec
codec = record {
  parse_qsl = λ query.
      if teq query (codes "Token=abc")
      then (codes "Token", codes "abc") ∷ []
      else if teq query (codes "Token=REDACTED")
      then (codes "Token", codes "REDACTED") ∷ []
      else [];
  urlencode = λ pairs. codes "Token=REDACTED";
}

abbrev lowering : Unicode
lowering = record ascii { lower = λ text. if teq text (codes "Token") then codes "token" else text }

abbrev secret_path : Text
secret_path = codes "/login?Token=abc"

redact_sensitive_query_params-IsSafe_example :
    All
      (IsSafe lowering codec)
      (codec.parse_qsl (after_query (redact_sensitive_query_params lowering codec secret_path)))
unfolding teq after_query is_sensitive
redact_sensitive_query_params-IsSafe_example =
    redact_sensitive_query_params-IsSafe lowering codec secret_path refl refl

abbrev hit : CapturedRequest ℕ
hit = record {
  method = codes "GET";
  path = secret_path;
  status_code = 200;
  latency_ms = 5;
  client_ip = none;
  user_agent = none;
  auth_present = false;
  body_bytes = 0;
  request_size_bytes = 0;
  response_size_bytes = 0;
  content_type = none;
  x_forwarded_for = none;
  referer = none;
  monitor_key = none;
  session_id = none;
  gateway = none;
  raw_ref = none;
}

abbrev session : Session
session = record { committed = db; working = db; stdout = [] }

process_single_event-undocumented_example :
    let out = process_single_event lowering codec 60 1 (λ e. false) none true hit traffic session in
    ((e : Error) × (out.0 ≡ err e))
    ⊎ (recent_duplicate 60 1 "undocumented_api"
          (some (codes "GET"))
          (some (take 1024 (normalize_path_for_discovery lowering secret_path)))
          6
          out.1.working.alerts
        ≡ true)
unfolding is_documented
process_single_event-undocumented_example =
    process_single_event-undocumented lowering codec 60 1 (λ e. false) none true hit traffic session
      refl
