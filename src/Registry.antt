-- ===== src/Registry.antt =====
-- app/services/registry_service.py and the parts of app/services/discovery_service.py that keep
-- the registered and the discovered endpoints, with app/routers/shadow.py, app/routers/zombie.py
-- and app/routers/alerts.py, whose handlers act in the organization of the route's context.
pub mod Registration
pub mod Promotion
use secure_api.Prelude.{
  ℕ, ◌+◌, ◌-◌, ◌==◌, max, String, Text, codes, teq, Bool, true, false, not, ◌&&◌, ◌||◌, Option,
  none, some, List, [], ◌∷◌, ◌++◌, map, leb, ltb, length, any, keep, str_eq, is_in, take,
  if◌then◌else◌,
}
use secure_api.Models.{
  User, Db, Detail, KnownEndpoint, DiscoveredEndpoint, ShadowEndpoint, ZombieEndpointState, Alert,
  Table, Target, endpoint_target, alert_target, titled, text, number,
}
use secure_api.Session.{
  Result, err, ok, crash, http, M, Request, pure, raise, gets, lift, modify, commit, require,
  log_audit_event, one_or_none, ◌>>=◌, ◌>>◌,
}
use secure_api.Session.Query.{first, select, insert_row, update_rows}
use secure_api.Security.{hours}
use secure_api.Pathutil.{Unicode, is_documented}

abbrev pub known_in : ℕ → KnownEndpoint → Bool
known_in org_id e = e.org_id == org_id

abbrev pub get_known_templates : ℕ → Db → List (Text × Text)
get_known_templates org_id db =
    map (λ e. (e.method, e.path_template)) (select (known_in org_id) db.known_endpoints)

abbrev pub is_known : ℕ → Text → Text → KnownEndpoint → Bool
is_known org_id method path_template e =
    e.org_id == org_id && teq e.method method && teq e.path_template path_template

abbrev pub new_endpoint : (now org_id : ℕ) → Text → Text → String → ℕ → KnownEndpoint
new_endpoint now org_id method path_template source id = record {
  id = id;
  org_id = org_id;
  method = method;
  path_template = path_template;
  source = source;
  created_at = now;
  last_traffic_at = none;
}

module _ (u : Unicode) (now org_id : ℕ) where
  unfoldable pub touch_known_endpoint_usage : Text → Text → Db → Db
  unfolding is_documented
  touch_known_endpoint_usage method path db =
      let m = u.upper method in
      record db {
        known_endpoints =
            update_rows
              (λ e.
                known_in org_id e
                && teq e.method m
                && is_documented u method path ((e.method, e.path_template) ∷ []))
              (λ e. record e { last_traffic_at = some now }) db.known_endpoints;
      }

  abbrev pub is_discovered : Text → Text → DiscoveredEndpoint → Bool
  is_discovered method path_normalized d =
      d.org_id == org_id && teq d.method method && teq d.path_normalized path_normalized

  abbrev pub upsert_discovered_found :
      Text
      → Text
      → Bool
      → Option DiscoveredEndpoint
      → Table DiscoveredEndpoint
      → Table DiscoveredEndpoint
  upsert_discovered_found method path_normalized documented none t =
      insert_row
        (λ id. record {
          id = id;
          org_id = org_id;
          method = method;
          path_normalized = path_normalized;
          first_seen = now;
          last_seen = now;
          hit_count = 1;
          documented = documented;
        })
        t
  upsert_discovered_found method path_normalized documented (some row) t =
      update_rows (λ d. d.id == row.id)
        (λ d. record d { last_seen = now; hit_count = d.hit_count + 1; documented = documented }) t

  unfoldable pub upsert_discovered : Text → Text → Bool → M (Unit {0})
  upsert_discovered method path_normalized documented = do
    rows ← gets (λ db. select (is_discovered method path_normalized) db.discovered_endpoints)
    row ← lift (one_or_none rows)
    modify (λ db. record db {
      discovered_endpoints =
          upsert_discovered_found method path_normalized documented row db.discovered_endpoints;
    })

  abbrev pub recompute_flags : Db → Db
  recompute_flags db =
      let templates = get_known_templates org_id db in
      record db {
        discovered_endpoints =
            update_rows (λ d. d.org_id == org_id)
              (λ d. record d { documented = is_documented u d.method d.path_normalized templates })
              db.discovered_endpoints;
      }

  abbrev pub recompute_discovered_documented_flags : M (Unit {0})
  recompute_discovered_documented_flags = do modify recompute_flags; commit

  -- The query does not see the rows that are only added (autoflush=False).
  abbrev pub unknown : List (Text × Text) → List KnownEndpoint → List (Text × Text)
  unknown paths rows = keep (λ path. not (any (is_known org_id (u.upper path.0) path.1) rows)) paths

  -- uq_known_method_path among the rows that are added
  unfoldable pub distinct : List (Text × Text) → Bool
  distinct [] = true
  distinct ((method, path_template) ∷ paths) =
      not (any (λ path. teq (u.upper path.0) (u.upper method) && teq path.1 path_template) paths)
      && distinct paths

  unfoldable pub add_endpoints :
      String → List (Text × Text) → Table KnownEndpoint → Table KnownEndpoint
  add_endpoints source [] t = t
  add_endpoints source ((method, path_template) ∷ paths) t =
      add_endpoints source paths
        (insert_row (new_endpoint now org_id (u.upper method) path_template source) t)

  -- without the details that some callers add
  unfoldable pub register_paths :
      Request
      → User
      → (title : Text) → List (Text × Text)
      → (source event_type : String) → M (ℕ × ℕ)
  unfolding distinct add_endpoints is_documented
  register_paths request current_user title paths source event_type = do
    rows ← gets (λ db. db.known_endpoints.rows)
    let added = unknown paths rows
    require (distinct added) crash
    modify (λ db. record db { known_endpoints = add_endpoints source added db.known_endpoints })
    commit
    recompute_discovered_documented_flags
    log_audit_event now request event_type current_user.username (some (titled title)) true
        (("paths_registered", number (length added)) ∷ ("paths_found", number (length paths)) ∷ [])
    pure (length added, length paths)

  abbrev or_no_shadow : Option ShadowEndpoint → M ShadowEndpoint
  or_no_shadow none = raise (http 404 "Shadow endpoint not found")
  or_no_shadow (some row) = pure row

  abbrev pub asked_shadow : ℕ → ShadowEndpoint → Bool
  asked_shadow shadow_id s = s.id == shadow_id && s.org_id == org_id

  abbrev find_shadow : ℕ → M ShadowEndpoint
  find_shadow shadow_id = do
    rows ← gets (λ db. select (asked_shadow shadow_id) db.shadow_endpoints)
    found ← lift (one_or_none rows)
    or_no_shadow found

  abbrev pub acknowledge : ShadowEndpoint → String → Db → Db
  acknowledge row reason db = record db {
    shadow_endpoints =
        update_rows (λ s. s.id == row.id)
          (λ s. record s {
            acknowledged = true;
            acknowledged_reason = some reason;
            acknowledged_at = some now;
          })
          db.shadow_endpoints;
  }

  unfoldable pub acknowledge_shadow :
      Request → User → (shadow_id : ℕ) → (reason : String) → M (Unit {0})
  acknowledge_shadow request current_user shadow_id reason = do
    row ← find_shadow shadow_id
    modify (acknowledge row reason)
    commit
    log_audit_event now request "shadow_acknowledged" current_user.username
        (some (endpoint_target row.method row.path_normalized)) true (("reason", text reason) ∷ [])

  abbrev pub register_once : ShadowEndpoint → Option KnownEndpoint → Db → Db
  register_once row none db = record db {
    known_endpoints =
        insert_row (new_endpoint now org_id row.method row.path_normalized "shadow_promotion")
          db.known_endpoints;
  }
  register_once row (some exists) db = db

  unfoldable pub add_shadow_to_registry : Request → User → (shadow_id : ℕ) → M (Unit {0})
  add_shadow_to_registry request current_user shadow_id = do
    row ← find_shadow shadow_id
    known ← gets (λ db. select (is_known org_id row.method row.path_normalized) db.known_endpoints)
    exists ← lift (one_or_none known)
    modify (register_once row exists)
    modify (acknowledge row "Promoted to registry")
    commit
    log_audit_event now request "shadow_promoted" current_user.username
        (some (endpoint_target row.method row.path_normalized)) true []
