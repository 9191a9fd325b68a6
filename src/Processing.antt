-- ===== src/Processing.antt =====
-- process_single_event of app/services/traffic_processor.py: one captured request is stored,
-- matched against the registered endpoints, counted, and reported. The table of requests is passed
-- along. Scoring by the model is a parameter, and the metrics are left out.
pub mod Documented
use secure_api.Prelude.{
  ℕ, ◌+◌, String, Text, codes, Bool, true, false, not, ◌&&◌, Option, none, some, List, [], ◌∷◌,
  ◌++◌, take, take_chars, str_eq, if◌then◌else◌,
}
use secure_api.Models.{Db, Table}
use secure_api.Session.{M, Result, pure, gets, lift, modify, commit, ◌>>=◌, ◌>>◌}
use secure_api.Session.Query.{insert_row}
use secure_api.Pathutil.{Unicode, is_documented, normalize_path_for_discovery}
use secure_api.Pathutil.Redaction.{QueryCodec, redact_sensitive_query_params}
use secure_api.Discovery.{upsert_shadow_endpoint}
use secure_api.Traffic.{TrafficEvent, TrafficStore}
use secure_api.Registry.{get_known_templates, upsert_discovered, touch_known_endpoint_usage}
use secure_api.Alerts.{recent_duplicate, new_alert}

-- the keyword arguments
pub record CapturedRequest (F : Type 0) : Type 0 where
  pub method : Text
  pub path : Text
  pub status_code : ℕ
  pub latency_ms : F
  pub client_ip : Option String
  pub user_agent : Option String
  pub auth_present : Bool
  pub body_bytes : ℕ
  pub request_size_bytes : ℕ
  pub response_size_bytes : ℕ
  pub content_type : Option String
  pub x_forwarded_for : Option String
  pub referer : Option String
  pub monitor_key : Option String
  pub session_id : Option String
  pub gateway : Option String
  pub raw_ref : Option String

-- (text or "")[:n] or None
abbrev pub clip : ℕ → Option String → Option String
clip n none = none
clip n (some s) = let clipped = take_chars n s in if str_eq clipped "" then none else some clipped

abbrev pub when : Bool → M (Unit {0}) → M (Unit {0})
when true m = m
when false m = pure tt

abbrev pub templates_or : List (Text × Text) → Option (List (Text × Text)) → List (Text × Text)
templates_or known none = known
templates_or known (some templates) = templates

module _ (now org_id : ℕ) where
  -- an alert, unless an open one of the last hours says the same
  abbrev pub alert_once :
      String → String → Text → Text → (within_hours : ℕ) → Option ℕ → M (Unit {0})
  alert_once alert_type severity method path within_hours event_id = modify (λ db. record db {
    alerts =
        if recent_duplicate now org_id alert_type (some method) (some path) within_hours db.alerts
        then db.alerts
        else insert_row (new_alert now org_id alert_type severity method path event_id) db.alerts;
  })

module _ {F : Type 0} (u : Unicode) (q : QueryCodec) (now org_id : ℕ) where
  abbrev pub stored_path : CapturedRequest F → Text
  stored_path r = take 1024 (redact_sensitive_query_params u q r.path)

  abbrev pub event_of : CapturedRequest F → Bool → ℕ → TrafficEvent F
  event_of r doc id = record {
    id = id;
    org_id = org_id;
    ts = now;
    method = u.upper r.method;
    path = stored_path r;
    status_code = r.status_code;
    latency_ms = r.latency_ms;
    response_time_ms = r.latency_ms;
    client_ip = r.client_ip;
    source_ip = r.client_ip;
    user_agent = clip 512 r.user_agent;
    content_type = clip 128 r.content_type;
    x_forwarded_for = clip 256 r.x_forwarded_for;
    referer = clip 512 r.referer;
    auth_present = r.auth_present;
    body_bytes = r.body_bytes;
    request_size_bytes = r.request_size_bytes;
    response_size_bytes = r.response_size_bytes;
    gateway = r.gateway;
    monitor_key = clip 128 r.monitor_key;
    session_id = clip 256 r.session_id;
    raw_ref = r.raw_ref;
    is_documented = doc;
  }

  abbrev pub upsert_shadow : CapturedRequest F → M (Unit {0})
  upsert_shadow r = do
    t ← gets (λ db. db.shadow_endpoints)
    t' ← lift (
        upsert_shadow_endpoint u now org_id (u.upper r.method)
          (redact_sensitive_query_params u q r.path) r.client_ip r.auth_present r.status_code t)
    modify (λ db. record db { shadow_endpoints = t' })

  -- `scored` is is_anomaly of the event's score, and false where scoring raises
  unfoldable pub process_single_event :
      (scored : TrafficEvent F → Bool)
      → Option (List (Text × Text))
      → (commits : Bool) → CapturedRequest F
      → TrafficStore F
      → M (TrafficStore F)
  unfolding is_documented normalize_path_for_discovery redact_sensitive_query_params
      upsert_discovered touch_known_endpoint_usage upsert_shadow_endpoint
  process_single_event scored given commits r store = do
    known ← gets (get_known_templates org_id)
    let templates = templates_or known given
    let doc = is_documented u r.method r.path templates
    let norm = normalize_path_for_discovery u r.path
    let m = u.upper r.method
    let event = event_of r doc store.events.next_id
    when (scored event)
        (alert_once now org_id "traffic_anomaly" "medium" m (stored_path r) 1 (some event.id))
    upsert_discovered u now org_id m norm doc
    when doc (modify (touch_known_endpoint_usage u now org_id m r.path))
    when (not doc) (upsert_shadow r)
    when (not doc) (alert_once now org_id "undocumented_api" "high" m (take 1024 norm) 6 none)
    when commits commit
    pure (record store { events = insert_row (event_of r doc) store.events })
