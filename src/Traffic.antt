-- ===== src/Traffic.antt =====
-- app/services/traffic_processor.py and app/jobs/scheduler.py: how captured requests are rolled up
-- into daily summaries and deleted. Floating-point numbers are a parameter (`Floats`).
pub mod Rollup
pub mod Pruning
use secure_api.Prelude.{
  ℕ, ◌+◌, ◌-◌, ◌*◌, ◌/◌, max, ◌==◌, String, Text, teq, Bool, true, false, not, ◌&&◌, ◌||◌, Option,
  none, some, List, [], ◌∷◌, ◌++◌, map, leb, ltb, length, any, keep, str_eq, opt_eq, if◌then◌else◌,
}
use secure_api.Models.{Table, RefreshToken}
use secure_api.Session.{Result, ok, err, one_or_none}
use secure_api.Session.Query.{select, insert_row, update_rows}
use secure_api.Session.Deletion.{order_by, delete_in}
use secure_api.Session.Chunks.{chunk_loop}
use secure_api.Security.{days}
use secure_api.Pathutil.{Unicode, normalize_path_for_discovery}

-- not None and not ""
abbrev given : Option String → Bool
given none = false
given (some text) = not (str_eq text "")

pub record Floats (F : Type 0) : Type 0 where
  pub zero_float : F
  pub add : F → F → F
  pub div_nat : F → ℕ → F

-- app/models.py
pub record TrafficEvent (F : Type 0) : Type 0 where
  pub id : ℕ
  pub org_id : ℕ
  pub ts : ℕ
  pub method : Text
  pub path : Text
  pub status_code : ℕ
  pub latency_ms : F
  pub response_time_ms : F
  pub client_ip : Option String
  pub source_ip : Option String
  pub user_agent : Option String
  pub content_type : Option String
  pub x_forwarded_for : Option String
  pub referer : Option String
  pub auth_present : Bool
  pub body_bytes : ℕ
  pub request_size_bytes : ℕ
  pub response_size_bytes : ℕ
  pub gateway : Option String
  pub monitor_key : Option String
  pub session_id : Option String
  pub raw_ref : Option String
  pub is_documented : Bool

pub record TrafficDailySummary (F : Type 0) : Type 0 where
  pub id : ℕ
  pub org_id : ℕ
  pub day : ℕ
  pub method : Text
  pub path_normalized : Text
  pub request_count : ℕ
  pub avg_response_time_ms : F
  pub error_count : ℕ

pub record TrafficStore (F : Type 0) : Type 0 where
  pub events : Table (TrafficEvent F)
  pub summaries : Table (TrafficDailySummary F)

-- the key of the dict `grouped`, and of the unique index of the summaries
pub record SummaryKey : Type 0 where
  pub org_id : ℕ
  pub method : Text
  pub path : Text
  pub day : ℕ

abbrev pub same_key : SummaryKey → SummaryKey → Bool
same_key a b = a.org_id == b.org_id && a.day == b.day && teq a.method b.method && teq a.path b.path

-- row.ts.replace(hour=0, minute=0, second=0, microsecond=0)
abbrev pub midnight : ℕ → ℕ
midnight ts = ts / days 1 * days 1

pub record Group (F : Type 0) : Type 0 where
  pub count : ℕ
  pub rt_sum : F
  pub errors : ℕ

module _ {F : Type 0} where
  abbrev pub key_of_row : Unicode → TrafficEvent F → SummaryKey
  key_of_row u row = record {
    org_id = row.org_id;
    method = row.method;
    path = normalize_path_for_discovery u row.path;
    day = midnight row.ts;
  }

  abbrev pub key_of_summary : TrafficDailySummary F → SummaryKey
  key_of_summary s = record {
    org_id = s.org_id;
    method = s.method;
    path = s.path_normalized;
    day = s.day;
  }

  -- the filter of the query for `existing`
  abbrev pub has_key : SummaryKey → TrafficDailySummary F → Bool
  has_key key s = same_key (key_of_summary s) key

  abbrev pub is_error : TrafficEvent F → Bool
  is_error row = leb 400 row.status_code

  abbrev pub delete_events : List ℕ → TrafficStore F → TrafficStore F
  delete_events ids store = record store {
    events = record store.events { rows = delete_in (λ e. e.id) ids store.events.rows };
  }

module _ {F : Type 0} (fl : Floats F) (u : Unicode) where
  abbrev pub add_row : TrafficEvent F → Group F → Group F
  add_row row g = record {
    count = g.count + 1;
    rt_sum = fl.add g.rt_sum row.response_time_ms;
    errors = g.errors + (if is_error row then 1 else 0);
  }

  abbrev pub empty_group : Group F
  empty_group = record { count = 0; rt_sum = fl.zero_float; errors = 0 }

  -- the dict keeps the order of insertion
  unfoldable pub group_row :
      TrafficEvent F → List (SummaryKey × Group F) → List (SummaryKey × Group F)
  group_row row [] = (key_of_row u row, add_row row empty_group) ∷ []
  group_row row ((key, g) ∷ grouped) =
      let rest = group_row row grouped in
      if same_key key (key_of_row u row) then (key, add_row row g) ∷ grouped else (key, g) ∷ rest

  unfoldable pub group_rows :
      List (TrafficEvent F) → List (SummaryKey × Group F) → List (SummaryKey × Group F)
  unfolding group_row
  group_rows [] grouped = grouped
  group_rows (row ∷ rows) grouped = group_rows rows (group_row row grouped)

  abbrev pub average : Group F → F
  average g = fl.div_nat g.rt_sum (max 1 g.count)

  abbrev pub new_summary : SummaryKey → Group F → ℕ → TrafficDailySummary F
  new_summary key g id = record {
    id = id;
    org_id = key.org_id;
    day = key.day;
    method = key.method;
    path_normalized = key.path;
    request_count = g.count;
    avg_response_time_ms = average g;
    error_count = g.errors;
  }

  abbrev pub add_group : Group F → TrafficDailySummary F → TrafficDailySummary F
  add_group g s = record s {
    request_count = s.request_count + g.count;
    error_count = s.error_count + g.errors;
    avg_response_time_ms = average g;
  }

  -- `existing` is the only row with the key
  abbrev pub upsert_found :
      SummaryKey
      → Group F
      → Table (TrafficDailySummary F)
      → Result (Option (TrafficDailySummary F))
      → Result (Table (TrafficDailySummary F))
  upsert_found key g t (err e) = err e
  upsert_found key g t (ok none) = ok (insert_row (new_summary key g) t)
  upsert_found key g t (ok (some existing)) = ok (update_rows (has_key key) (add_group g) t)

  unfoldable pub upsert_summaries :
      List (SummaryKey × Group F)
      → Table (TrafficDailySummary F)
      → Result (Table (TrafficDailySummary F))
  upsert_summaries [] t = ok t
  upsert_summaries ((key, g) ∷ grouped) t =
      elim (upsert_found key g t (one_or_none (select (has_key key) t))) [
        | err e ↦ err e
        | ok t' ↦ upsert_summaries grouped t'
      ]

  -- one round of the loop: the summaries are updated, the rows deleted, and both committed
  unfoldable pub roll_up_chunk :
      List (TrafficEvent F) → TrafficStore F → Result (ℕ × TrafficStore F)
  unfolding group_rows upsert_summaries delete_in
  roll_up_chunk rows store = elim (upsert_summaries (group_rows rows []) store.summaries) [
    | err e ↦ err e
    | ok t ↦ ok (length rows, delete_events (map (λ r. r.id) rows) (record store { summaries = t }))
  ]

module _ {F : Type 0} where
  abbrev pub is_expired : ℕ → TrafficEvent F → Bool
  is_expired cutoff row = ltb row.ts cutoff

  -- the rows in the order of their keys that a filter selects
  unfoldable pub ordered : (TrafficEvent F → Bool) → TrafficStore F → List (TrafficEvent F)
  unfolding order_by
  ordered p store = order_by (λ e. e.id) (keep p store.events.rows)

  -- the rows as the table holds them
  abbrev pub unordered : (TrafficEvent F → Bool) → TrafficStore F → List (TrafficEvent F)
  unordered p store = keep p store.events.rows

module _ {F : Type 0} (fl : Floats F) (u : Unicode) (now : ℕ) where
  -- `cutoff` is utc_now() - timedelta(days=keep_days), read once
  unfoldable pub aggregate_and_prune_old_traffic :
      (keep_days chunk_size fuel : ℕ) → TrafficStore F → Option (Result ℕ × TrafficStore F)
  unfolding chunk_loop roll_up_chunk ordered
  aggregate_and_prune_old_traffic keep_days chunk_size fuel store =
      chunk_loop (ordered (is_expired (now - days keep_days))) (roll_up_chunk fl u) chunk_size fuel
        0 store

module _ {F : Type 0} where
  -- DELETE's count is of the rows that go
  unfoldable pub delete_chunk : List (TrafficEvent F) → TrafficStore F → Result (ℕ × TrafficStore F)
  unfolding delete_in
  delete_chunk rows store =
      let store' = delete_events (map (λ r. r.id) rows) store in
      ok (length store.events.rows - length store'.events.rows, store')

  unfoldable pub prune_stale_traffic :
      (now zombie_window_days chunk_size fuel : ℕ)
      → TrafficStore F
      → Option (Result ℕ × TrafficStore F)
  unfolding chunk_loop delete_chunk
  prune_stale_traffic now zombie_window_days chunk_size fuel store =
      chunk_loop (unordered (is_expired (now - days zombie_window_days))) delete_chunk chunk_size
        fuel 0 store

  -- here the identifiers are counted
  unfoldable pub erase_chunk : List (TrafficEvent F) → TrafficStore F → Result (ℕ × TrafficStore F)
  unfolding delete_in
  erase_chunk rows store =
      let ids = map (λ r. r.id) rows in ok (length ids, delete_events ids store)

  abbrev pub belongs_to : Option String → Option String → TrafficEvent F → Bool
  belongs_to client_ip session_id row =
      if given client_ip && given session_id
      then opt_eq row.client_ip client_ip || opt_eq row.session_id session_id
      else if given client_ip
      then opt_eq row.client_ip client_ip
      else opt_eq row.session_id session_id

  unfoldable pub delete_traffic_for_client :
      Option String
      → Option String
      → (chunk_size fuel : ℕ) → TrafficStore F
      → Option (Result ℕ × TrafficStore F)
  unfolding chunk_loop erase_chunk
  delete_traffic_for_client client_ip session_id chunk_size fuel store =
      if not (given client_ip) && not (given session_id)
      then some (ok 0, store)
      else chunk_loop (unordered (belongs_to client_ip session_id)) erase_chunk chunk_size fuel 0
          store

-- _prune_expired_refresh_tokens
abbrev pub is_prunable : ℕ → RefreshToken → Bool
is_prunable now t = ltb t.expires_at now || t.revoked && ltb t.created_at (now - days 30)

unfoldable pub prune_expired_refresh_tokens : ℕ → Table RefreshToken → Table RefreshToken
prune_expired_refresh_tokens now t = record t { rows = keep (λ r. not (is_prunable now r)) t.rows }
