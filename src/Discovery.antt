-- ===== src/Discovery.antt =====
-- app/services/discovery_service.py: the record of undocumented endpoints, and how long a
-- registered endpoint has been without traffic.
pub mod Shadow
pub mod Zombie
use secure_api.Prelude.{
  ℕ, ◌+◌, ◌*◌, max, ◌==◌, String, Text, codes, teq, Bool, true, false, not, ◌&&◌, ◌||◌, Option,
  none, some, List, [], ◌∷◌, ◌++◌, leb, ltb, take_last, str_eq, is_in, if◌then◌else◌,
}
use secure_api.Models.{
  ShadowEndpoint, Table, ZombieStatus, active, declining, idle, zombie, dead, retired_status,
}
use secure_api.Session.{Result, ok, err, one_or_none}
use secure_api.Session.Query.{select, insert_row, update_rows}
use secure_api.Security.{days}
use secure_api.Pathutil.{Unicode, normalize_path_for_discovery}

-- in {"POST", "PUT", "PATCH", "DELETE"}
abbrev is_write : Text → Bool
is_write m =
    teq m (codes "POST") || teq m (codes "PUT") || teq m (codes "PATCH") || teq m (codes "DELETE")

unfoldable pub shadow_risk : Unicode → Text → ℕ → Bool → ℕ × String
shadow_risk u method hit_count auth_present =
    let m = u.upper method in
    if is_write m && leb 10 hit_count
    then (95, "CRITICAL")
    else if auth_present
    then (78, "HIGH")
    else if teq m (codes "GET") && leb hit_count 1
    then (20, "LOW")
    else if teq m (codes "GET")
    then (55, "MEDIUM")
    else (70, "HIGH")

-- None and "" are no address
abbrev pub first_ip : Option String → List String
first_ip none = []
first_ip (some ip) = if str_eq ip "" then [] else ip ∷ []

abbrev pub with_ip : Option String → List String → List String
with_ip none ips = ips
with_ip (some ip) ips = if not (str_eq ip "") && not (is_in ip ips) then ips ++ ip ∷ [] else ips

module _ (u : Unicode) (now org_id : ℕ) (method path : Text) (client_ip : Option String)
    (auth_present : Bool) (status_code : ℕ) where
  abbrev pub is_shadow : ShadowEndpoint → Bool
  is_shadow s =
      s.org_id == org_id
      && teq s.method method
      && teq s.path_normalized (normalize_path_for_discovery u path)

  abbrev pub new_shadow : ℕ → ShadowEndpoint
  new_shadow id =
      let risk = shadow_risk u method 1 auth_present in
      record {
        id = id;
        org_id = org_id;
        method = method;
        path_normalized = normalize_path_for_discovery u path;
        first_seen = now;
        last_seen = now;
        hit_count = 1;
        risk_score = risk.0;
        risk_level = risk.1;
        sample_ips = first_ip client_ip;
        recent_events = (now, status_code) ∷ [];
        acknowledged = false;
        acknowledged_reason = none;
        acknowledged_at = none;
      }

  abbrev pub seen_again : ShadowEndpoint → ShadowEndpoint
  seen_again s =
      let risk = shadow_risk u method (s.hit_count + 1) auth_present in
      record s {
        last_seen = now;
        hit_count = s.hit_count + 1;
        risk_score = risk.0;
        risk_level = risk.1;
        sample_ips = take_last 10 (with_ip client_ip s.sample_ips);
        recent_events = take_last 25 (s.recent_events ++ (now, status_code) ∷ []);
      }

  abbrev upsert_found :
      Table ShadowEndpoint → Result (Option ShadowEndpoint) → Result (Table ShadowEndpoint)
  upsert_found t (err e) = err e
  upsert_found t (ok none) = ok (insert_row new_shadow t)
  upsert_found t (ok (some row)) = ok (update_rows (λ s. s.id == row.id) seen_again t)

  unfoldable pub upsert_shadow_endpoint : Table ShadowEndpoint → Result (Table ShadowEndpoint)
  upsert_shadow_endpoint t = upsert_found t (one_or_none (select is_shadow t))

-- zombie_low_traffic_rpd is the fraction `low_requests` / `low_days`
pub record ZombieSettings : Type 0 where
  pub dead_threshold_days : ℕ
  pub idle_threshold_days : ℕ
  pub window_days : ℕ
  pub low_requests : ℕ
  pub low_days : ℕ

-- age_days >= n, where an endpoint without requests is 10,000 days old
abbrev pub older : ℕ → Option ℕ → ℕ → Bool
older now none n = leb n 10000
older now (some last_request_at) n = leb (last_request_at + days n) now

-- `avg_rpd` is r30 / max(1, window)
unfoldable pub classify_zombie_status :
    ZombieSettings → (now : ℕ) → Option ℕ → (r14 r30 : ℕ) → ZombieStatus
classify_zombie_status cfg now last_request_at r14 r30 =
    if older now last_request_at cfg.dead_threshold_days
    then dead
    else if older now last_request_at cfg.idle_threshold_days
    then zombie
    else if older now last_request_at 7
    then idle
    else if ltb r14 1 || ltb (r14 * 2) r30
    then declining
    else if leb (r30 * cfg.low_days) (cfg.low_requests * max 1 cfg.window_days)
        && older now last_request_at 1
    then declining
    else active

unfoldable pub zombie_risk : Unicode → ZombieStatus → Text → String
zombie_risk u dead method = if is_write (u.upper method) then "CRITICAL" else "HIGH"
zombie_risk u zombie method = "HIGH"
zombie_risk u idle method = "MEDIUM"
zombie_risk u declining method = "LOW"
zombie_risk u active method = "LOW"
zombie_risk u retired_status method = "LOW"
