-- ===== src/Alerts.antt =====
-- app/services/alerts_util.py, the handlers of app/routers/alerts.py that change an alert (in the
-- organization of the route's context), and scan_idle_documented_endpoints of
-- app/services/discovery_service.py.
use secure_api.Prelude.{
  ℕ, ◌-◌, ◌==◌, String, Text, teq, Bool, true, false, not, ◌&&◌, Option, none, some, List, [], ◌∷◌,
  leb, ltb, length, any, keep, take, str_eq,
}
use secure_api.Models.{User, Alert, KnownEndpoint, Table, text, alert_target}
use secure_api.Session.{
  http, M, Request, pure, raise, gets, lift, modify, commit, log_audit_event, one_or_none, ◌>>=◌,
  ◌>>◌,
}
use secure_api.Session.Query.{select, insert_row, update_rows}
use secure_api.Security.{hours}

-- None and "" are no filter
abbrev pub filter_by : Option Text → Option Text → Bool
filter_by none column = true
filter_by (some []) column = true
filter_by (some (ch ∷ chars)) none = false
filter_by (some (ch ∷ chars)) (some value) = teq value (ch ∷ chars)

module _ (now org_id : ℕ) where
  abbrev pub duplicates : String → Option Text → Option Text → ℕ → Alert → Bool
  duplicates alert_type method path within_hours a =
      a.org_id == org_id
      && str_eq a.alert_type alert_type
      && leb (now - hours within_hours) a.created_at
      && not a.acknowledged
      && filter_by method a.method
      && filter_by path a.path

  abbrev pub recent_duplicate :
      String → Option Text → Option Text → (within_hours : ℕ) → Table Alert → Bool
  recent_duplicate alert_type method path within_hours alerts =
      any (duplicates alert_type method path within_hours) alerts.rows

  -- without an event and an explanation
  abbrev pub new_alert : String → String → Text → Text → Option ℕ → ℕ → Alert
  new_alert alert_type severity method path event_id id = record {
    id = id;
    org_id = org_id;
    created_at = now;
    alert_type = alert_type;
    severity = severity;
    method = some method;
    path = some path;
    acknowledged = false;
    event_id = event_id;
    feedback = none;
    feedback_at = none;
  }

  abbrev or_no_alert : Option Alert → M Alert
  or_no_alert none = raise (http 404 "Alert not found")
  or_no_alert (some row) = pure row

  abbrev find_alert : ℕ → M Alert
  find_alert alert_id = do
    rows ← gets (λ db. select (λ a. a.id == alert_id && a.org_id == org_id) db.alerts)
    found ← lift (one_or_none rows)
    or_no_alert found

  abbrev change_alert : Alert → (Alert → Alert) → M (Unit {0})
  change_alert row f =
      modify (λ db. record db { alerts = update_rows (λ a. a.id == row.id) f db.alerts })

  -- the gauges of Prometheus are left out
  unfoldable pub ack_alert : Request → User → (alert_id : ℕ) → M (Unit {0})
  ack_alert request current_user alert_id = do
    row ← find_alert alert_id
    change_alert row (λ a. record a { acknowledged = true })
    commit
    log_audit_event now request "alert_acknowledged" current_user.username
        (some (alert_target row.alert_type row.id)) true []

  unfoldable pub submit_alert_feedback :
      Request → User → (alert_id : ℕ) → (label : String) → M (Unit {0})
  submit_alert_feedback request current_user alert_id label = do
    row ← find_alert alert_id
    change_alert row (λ a. record a { feedback = some label; feedback_at = some now })
    commit
    log_audit_event now request "alert_feedback" current_user.username
        (some (alert_target row.alert_type row.id)) true (("label", text label) ∷ [])

  -- last_traffic_at is None or < cutoff
  abbrev pub is_idle : ℕ → KnownEndpoint → Bool
  is_idle idle_threshold_hours e = elim e.last_traffic_at [
    | none ↦ true
    | some last ↦ ltb last (now - hours idle_threshold_hours)
  ]

  abbrev pub idle_path : KnownEndpoint → Text
  idle_path e = take 1024 e.path_template

  -- the queries do not see the alerts that are only added (autoflush=False)
  abbrev pub is_unreported : ℕ → Table Alert → KnownEndpoint → Bool
  is_unreported idle_threshold_hours alerts e = not (
      recent_duplicate "idle_documented_endpoint" (some e.method) (some (idle_path e))
        idle_threshold_hours alerts)

  unfoldable pub add_idle_alerts : List KnownEndpoint → Table Alert → Table Alert
  add_idle_alerts [] t = t
  add_idle_alerts (e ∷ endpoints) t =
      add_idle_alerts endpoints
        (insert_row (new_alert "idle_documented_endpoint" "low" e.method (idle_path e) none) t)

  unfoldable pub scan_idle_documented_endpoints : (idle_threshold_hours : ℕ) → M ℕ
  unfolding add_idle_alerts
  scan_idle_documented_endpoints idle_threshold_hours = do
    endpoints ← gets (λ db. select (λ e. e.org_id == org_id) db.known_endpoints)
    alerts ← gets (λ db. db.alerts)
    let idle = keep (is_idle idle_threshold_hours) endpoints
    modify (λ db. record db {
      alerts = add_idle_alerts (keep (is_unreported idle_threshold_hours alerts) idle) db.alerts;
    })
    commit
    pure (length idle)
