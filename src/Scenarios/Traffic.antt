-- ===== src/Scenarios/Traffic.antt =====
-- The theorems on rolling up and on deleting captured requests, applied.
use secure_api.Prelude.{
  ℕ, ◌+◌, ◌-◌, ◌/◌, ◌≡◌, Text, codes, true, not, none, some, [], ◌∷◌, arith, length, keep,
}
use secure_api.Session.{ok}
use secure_api.Session.Keys.{Ascending}
use secure_api.Security.{days}
use secure_api.Traffic.{
  Floats, TrafficEvent, TrafficStore, SummaryKey, is_expired, aggregate_and_prune_old_traffic,
  prune_stale_traffic,
}
use secure_api.Traffic.Pruning.{event_id, with_events, prune_stale_traffic_effect}
use secure_api.Traffic.Rollup.Unique.{IsUnique}
use secure_api.Traffic.Rollup.Conservation.{requests, errors, aggregate_and_prune_old_traffic_lem}
use secure_api.Scenarios.Discovery.{ascii}

abbrev whole : Floats ℕ
whole = record { zero_float = 0; add = λ a b. a + b; div_nat = λ a n. a / n }

abbrev pub captured : ℕ → ℕ → Text → ℕ → TrafficEvent ℕ
captured id ts path status_code = record {
  id = id;
  org_id = 1;
  ts = ts;
  method = codes "GET";
  path = path;
  status_code = status_code;
  latency_ms = 5;
  response_time_ms = 5;
  client_ip = none;
  source_ip = none;
  user_agent = none;
  content_type = none;
  x_forwarded_for = none;
  referer = none;
  auth_present = true;
  body_bytes = 0;
  request_size_bytes = 0;
  response_size_bytes = 0;
  gateway = none;
  monitor_key = none;
  session_id = none;
  raw_ref = none;
  is_documented = true;
}

-- three old requests, two of them to one normalised path, and a young one
abbrev pub traffic : TrafficStore ℕ
traffic = record {
  events = record {
    rows =
        captured 1 (days 3) (codes "/users/1") 200
        ∷ captured 2 (days 3) (codes "/users/2") 500
        ∷ captured 3 (days 39) (codes "/users/3") 200
        ∷ captured 4 (days 4) (codes "/health") 200
        ∷ [];
    next_id = 5;
  };
  summaries = record { rows = []; next_id = 1 };
}

in_order : Ascending (event_id {F = ℕ}) traffic.events.rows
in_order = (
  (ground arith, (ground arith, (ground arith, tt))),
  ((ground arith, (ground arith, tt)), ((ground arith, tt), (tt, tt))),
)

aggregate_and_prune_old_traffic_lem_example :
    (store' : TrafficStore ℕ) × (aggregate_and_prune_old_traffic whole ascii
        (days 40)
        30
        2
        9
        traffic
      ≡ some
          (ok (length (keep (is_expired {F = ℕ} (days 40 - days 30)) traffic.events.rows)), store'))
    × (store'.events.rows
        ≡ keep (λ e. not (is_expired {F = ℕ} (days 40 - days 30) e)) traffic.events.rows)
    × IsUnique store'.summaries
    × ((k : SummaryKey)
        → (requests ascii k store' ≡ requests ascii k traffic)
          × (errors ascii k store' ≡ errors ascii k traffic))
aggregate_and_prune_old_traffic_lem_example =
    aggregate_and_prune_old_traffic_lem whole ascii (days 40) 30 2 9 traffic (ground arith) in_order
      (λ k. ground arith) (ground arith)

prune_stale_traffic_effect_example :
    prune_stale_traffic (days 40) 30 2 9 traffic
    ≡ some (
      ok (length (keep (is_expired {F = ℕ} (days 40 - days 30)) traffic.events.rows)),
      with_events
          (keep (λ e. not (is_expired {F = ℕ} (days 40 - days 30) e)) traffic.events.rows)
          traffic,
    )
prune_stale_traffic_effect_example =
    prune_stale_traffic_effect (days 40) 30 2 9 traffic (ground arith) in_order (ground arith)
