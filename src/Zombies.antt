-- ===== src/Zombies.antt =====
-- recompute_zombie_states and recompute_single_zombie_state of app/services/discovery_service.py,
-- and the handlers of app/routers/zombie.py that change a state. The captured requests are read
-- only, and the handlers act in the organization of the route's context.
pub mod Grouping
pub mod Routes
use secure_api.Prelude.{
  ℕ, ◌+◌, ◌-◌, ◌==◌, max, String, Text, teq, Bool, true, false, not, ◌&&◌, Option, none, some, List,
  [], ◌∷◌, ◌++◌, map, leb, length, keep, if◌then◌else◌,
}
use secure_api.Models.{
  User, Db, Table, KnownEndpoint, ZombieEndpointState, ZombieStatus, active, retired_status, text,
  endpoint_target,
}
use secure_api.Session.{
  http, M, Request, Result, ok, err, pure, raise, gets, lift, modify, commit, log_audit_event,
  one_or_none, ◌>>=◌, ◌>>◌,
}
use secure_api.Session.Query.{select, insert_row, update_rows}
use secure_api.Security.{days}
use secure_api.Pathutil.{Unicode, is_documented}
use secure_api.Discovery.{ZombieSettings, classify_zombie_status, zombie_risk}
use secure_api.Traffic.{TrafficEvent}

-- max(xs, default=…)
abbrev pub latest : List ℕ → ℕ
latest [] = 0
latest (ts ∷ more) = max ts (latest more)

abbrev pub max_or : Option ℕ → List ℕ → Option ℕ
max_or default [] = default
max_or default (ts ∷ more) = some (latest (ts ∷ more))

abbrev pub since : ℕ → List ℕ → ℕ
since start matching_ts = length (keep (leb start) matching_ts)

abbrev pub Paths : Type 0
Paths = List ((Text × Text) × List ℕ)

-- path_ts[key].append(ts), in a dict that keeps the order of insertion
unfoldable pub add_ts : Text → Text → ℕ → Paths → Paths
add_ts method path ts [] = ((method, path), ts ∷ []) ∷ []
add_ts method path ts (((m, p), ts_list) ∷ path_ts) =
    let rest = add_ts method path ts path_ts in
    if teq m method && teq p path
    then ((m, p), ts_list ++ ts ∷ []) ∷ path_ts
    else ((m, p), ts_list) ∷ rest

module _ (u : Unicode) (cfg : ZombieSettings) (now : ℕ) where
  abbrev pub window_start : ℕ
  window_start = now - days (max 30 cfg.window_days)

  -- what both functions write, but for a retired endpoint's status
  abbrev pub figures : Option ℕ → List ℕ → ZombieEndpointState → ZombieEndpointState
  figures default matching_ts state = record state {
    last_request_at = max_or default matching_ts;
    requests_7d = since (now - days 7) matching_ts;
    requests_14d = since (now - days 14) matching_ts;
    requests_30d = length matching_ts;
  }

  abbrev pub classified : Option ℕ → List ℕ → ZombieStatus
  classified default matching_ts =
      classify_zombie_status cfg now (max_or default matching_ts)
        (since (now - days 14) matching_ts) (length matching_ts)

  abbrev pub with_risk : Text → ZombieEndpointState → ZombieEndpointState
  with_risk method state = record state { risk_level = zombie_risk u state.status method }

  unfoldable pub group_paths : {F : Type 0} → List (TrafficEvent F) → Paths → Paths
  unfolding add_ts
  group_paths [] path_ts = path_ts
  group_paths (row ∷ rows) path_ts =
      group_paths rows (add_ts (u.upper row.method) row.path row.ts path_ts)

  abbrev pub hits : Text → Text → Text → Text → Bool
  hits method tmpl m p = teq m method && is_documented u method p ((method, tmpl) ∷ [])

  unfoldable pub matching_ts_of : Text → Text → Paths → List ℕ
  unfolding is_documented
  matching_ts_of method tmpl [] = []
  matching_ts_of method tmpl (((m, p), ts_list) ∷ path_ts) =
      let rest = matching_ts_of method tmpl path_ts in
      if hits method tmpl m p then ts_list ++ rest else rest

  abbrev pub is_state_of : ℕ → Text → Text → ZombieEndpointState → Bool
  is_state_of org_id method tmpl s =
      s.org_id == org_id && teq s.method method && teq s.path_template tmpl

  abbrev pub new_state : ℕ → Text → Text → ℕ → ZombieEndpointState
  new_state org_id method tmpl id = record {
    id = id;
    org_id = org_id;
    method = method;
    path_template = tmpl;
    last_request_at = none;
    requests_7d = 0;
    requests_14d = 0;
    requests_30d = 0;
    status = active;
    risk_level = "LOW";
    retired = false;
    retire_reason = none;
    retired_at = none;
  }

  abbrev pub recomputed : Text → Option ℕ → List ℕ → ZombieEndpointState → ZombieEndpointState
  recomputed method default matching_ts state =
      let state' =
        if state.retired then state else record state { status = classified default matching_ts } in
      with_risk method (figures default matching_ts state')

  abbrev pub upsert_state :
      ℕ
      → Text
      → Text
      → Option ℕ
      → List ℕ
      → Table ZombieEndpointState
      → Result (Option ZombieEndpointState)
      → Result (Table ZombieEndpointState)
  upsert_state org_id method tmpl default matching_ts t (err e) = err e
  upsert_state org_id method tmpl default matching_ts t (ok none) =
      ok (
        insert_row (λ id. recomputed method default matching_ts (new_state org_id method tmpl id))
          t)
  upsert_state org_id method tmpl default matching_ts t (ok (some state)) =
      ok (update_rows (λ s. s.id == state.id) (recomputed method default matching_ts) t)

  -- one endpoint after the other; each has a method and template of its own, so that no query
  -- looks for a row that is only added
  unfoldable pub recompute_endpoints :
      ℕ
      → Paths
      → List KnownEndpoint
      → Table ZombieEndpointState
      → Result (Table ZombieEndpointState)
  unfolding matching_ts_of classify_zombie_status zombie_risk
  recompute_endpoints org_id path_ts [] t = ok t
  recompute_endpoints org_id path_ts (endpoint ∷ endpoints) t =
      let method = u.upper endpoint.method in
      let tmpl = endpoint.path_template in
      elim (upsert_state org_id method tmpl endpoint.last_traffic_at
        (matching_ts_of method tmpl path_ts) t
        (one_or_none (select (is_state_of org_id method tmpl) t))) [
          | err e ↦ err e
          | ok t' ↦ recompute_endpoints org_id path_ts endpoints t'
        ]

  module _ {F : Type 0} (events : List (TrafficEvent F)) where
    abbrev pub recent : ℕ → List (TrafficEvent F)
    recent org_id =
        keep (λ e. e.org_id == org_id && e.is_documented && leb window_start e.ts) events

    unfoldable pub recompute_zombie_states : ℕ → M ℕ
    unfolding group_paths recompute_endpoints
    recompute_zombie_states org_id = do
      endpoints ← gets (λ db. select (λ e. e.org_id == org_id) db.known_endpoints)
      states ← gets (λ db. db.zombie_states)
      t ← lift (recompute_endpoints org_id (group_paths (recent org_id) []) endpoints states)
      modify (λ db. record db { zombie_states = t })
      commit
      pure (length endpoints)

    -- the scan of one endpoint, without groups
    abbrev pub scanned_ts : ℕ → Text → Text → List ℕ
    scanned_ts org_id method tmpl =
        map (λ e. e.ts)
          (keep (λ e. teq e.method method && is_documented u method e.path ((method, tmpl) ∷ []))
            (recent org_id))

    unfoldable pub recompute_single_zombie_state : ZombieEndpointState → M (Unit {0})
    unfolding is_documented classify_zombie_status zombie_risk
    recompute_single_zombie_state state = do
      let method = u.upper state.method
      let matching_ts = scanned_ts state.org_id method state.path_template
      modify (λ db. record db {
        zombie_states =
            update_rows (λ s. s.id == state.id)
              (λ s.
                with_risk method
                  (record (figures none matching_ts s) { status = classified none matching_ts }))
              db.zombie_states;
      })
      commit
