-- ===== src/Traffic/Rollup/Conservation.antt =====
-- What `aggregate_and_prune_old_traffic` promises: a store stands for the number of requests and of
-- errors under each key, in the summaries and in the rows together.
use secure_api.Prelude.{
  ℕ, ◌+◌, ◌-◌, ◌<◌, ◌≡◌, refl, sym, ◌∙◌, ap, Bool, true, not, some, List, [], map, arith, length,
  take, drop, keep,
}
use secure_api.Models.{Table}
use secure_api.Session.{ok}
use secure_api.Session.Keys.{Ascending}
use secure_api.Session.Deletion.{
  order_by-Ascending, Ascending-keep, keep-delete_in, keep-not-delete_in, length-keep-delete_in,
  Ascending-delete_in,
}
use secure_api.Session.Chunks.{chunk_loop_lem}
use secure_api.Security.{days}
use secure_api.Pathutil.{Unicode}
use secure_api.Traffic.{
  Floats, TrafficEvent, TrafficDailySummary, TrafficStore, SummaryKey, Group, add_row, empty_group,
  new_summary, add_group, is_error, delete_events, is_expired, ordered, group_rows,
  upsert_summaries, roll_up_chunk, aggregate_and_prune_old_traffic,
}
use secure_api.Traffic.Pruning.{event_id, keep-not-of_nil}
use secure_api.Traffic.Rollup.Groups.{
  bit, counted, of_key, in_groups-group_rows, counted-upsert_summaries,
}
use secure_api.Traffic.Rollup.Unique.{IsUnique, upsert_summaries-IsUnique}

module _ {F : Type 0} (u : Unicode) where
  -- a column summed under a key, with the rows that it has yet to count
  abbrev tally :
      (TrafficDailySummary F → ℕ) → (TrafficEvent F → Bool) → SummaryKey → TrafficStore F → ℕ
  tally col q k store =
      counted col k store.summaries.rows + length (keep (of_key u q k) store.events.rows)

  abbrev pub requests : SummaryKey → TrafficStore F → ℕ
  requests = tally (λ s. s.request_count) (λ row. true)

  abbrev pub errors : SummaryKey → TrafficStore F → ℕ
  errors = tally (λ s. s.error_count) is_error

module _ {F : Type 0} (fl : Floats F) (u : Unicode) (p : TrafficEvent F → Bool)
    (chunk_size : ℕ) where
  abbrev chunk : TrafficStore F → List (TrafficEvent F)
  chunk s = take chunk_size (keep p s.events.rows)

  abbrev rolled : Table (TrafficDailySummary F) → TrafficStore F → TrafficStore F
  rolled t s = delete_events (map event_id (chunk s)) (record s { summaries = t })

  -- a chunk moves its rows from the events to the summaries
  module _ (col : TrafficDailySummary F → ℕ) (gain : Group F → ℕ) (q : TrafficEvent F → Bool)
      (start : gain (empty_group fl u) ≡ 0)
      (row_law : (row : TrafficEvent F) (g : Group F)
        → gain (add_row fl u row g) ≡ gain g + bit (q row))
      (new_law : (key : SummaryKey) (g : Group F) (id : ℕ)
        → col (new_summary fl u key g id) ≡ gain g)
      (sum_law : (g : Group F) (s : TrafficDailySummary F)
        → col (add_group fl u g s) ≡ col s + gain g) where
    tally-rolled :
        (k : SummaryKey) (s : TrafficStore F) (t : Table (TrafficDailySummary F))
        → Ascending event_id s.events.rows
        → upsert_summaries fl u (group_rows fl u (chunk s) []) s.summaries ≡ ok t
        → tally u col q k (rolled t s) ≡ tally u col q k s
    tally-rolled k s t ascending done = omega (
      arith,
      counted-upsert_summaries fl u col gain q start row_law new_law sum_law k
          (group_rows fl u (chunk s) []) s.summaries t done,
      in_groups-group_rows fl u col gain q start row_law k (chunk s) [],
      length-keep-delete_in event_id p chunk_size s.events.rows ascending (of_key u q k),
    )

  abbrev Rolling : TrafficStore F → TrafficStore F → Type 0
  Rolling store s =
      Ascending event_id s.events.rows
      × (keep (λ e. not (p e)) s.events.rows ≡ keep (λ e. not (p e)) store.events.rows)
      × IsUnique s.summaries
      × ((k : SummaryKey)
          → (requests u k s ≡ requests u k store) × (errors u k s ≡ errors u k store))

  roll_up_chunk_ok :
      (rows : List (TrafficEvent F)) (s : TrafficStore F) (t : Table (TrafficDailySummary F))
      → upsert_summaries fl u (group_rows fl u rows []) s.summaries ≡ ok t
      → roll_up_chunk fl u rows s
        ≡ ok (length rows, delete_events (map event_id rows) (record s { summaries = t }))
  unfolding roll_up_chunk
  roll_up_chunk_ok rows s t done = rw (roll_up_chunk, done) refl

  Rolling-step :
      (store s : TrafficStore F)
      → Rolling store s
      → (s' : TrafficStore F) × (roll_up_chunk fl u (chunk s) s ≡ ok (length (chunk s), s'))
        × Rolling store s'
        × (keep p s'.events.rows ≡ drop chunk_size (keep p s.events.rows))
  Rolling-step store s (ascending, kept, unique, same) =
      let (t, done, unique') =
        upsert_summaries-IsUnique fl u (group_rows fl u (chunk s) []) s.summaries unique in
      (
        rolled t s,
        roll_up_chunk_ok (chunk s) s t done,
        (
          Ascending-delete_in event_id p chunk_size s.events.rows ascending,
          keep-not-delete_in event_id p chunk_size s.events.rows ascending ∙ kept,
          unique',
          λ k. (
            tally-rolled (λ x. x.request_count) (λ g. g.count) (λ row. true) refl (λ row g. refl)
                  (λ key g id. refl) (λ g x. refl) k s t ascending done
                ∙ (same k).0,
            tally-rolled (λ x. x.error_count) (λ g. g.errors) is_error refl (λ row g. refl)
                  (λ key g id. refl) (λ g x. refl) k s t ascending done
                ∙ (same k).1,
          ),
        ),
        keep-delete_in event_id p chunk_size s.events.rows ascending,
      )

  ordered-keep :
      (s : TrafficStore F) → Ascending event_id s.events.rows → ordered p s ≡ keep p s.events.rows
  unfolding ordered
  ordered-keep s ascending =
      order_by-Ascending event_id (keep p s.events.rows)
        (Ascending-keep event_id p s.events.rows ascending)

  -- the step, for the query that orders its rows
  ordered_step :
      (store s : TrafficStore F)
      → Rolling store s
      → (s' : TrafficStore F) × (roll_up_chunk fl u (take chunk_size (ordered p s)) s
          ≡ ok (length (take chunk_size (ordered p s)), s'))
        × Rolling store s'
        × (ordered p s' ≡ drop chunk_size (ordered p s))
  ordered_step store s inv =
      let (s', done, inv', left) = Rolling-step store s inv in
      let e = ordered-keep s inv.0 in
      (
        s',
        ap (λ rows. roll_up_chunk fl u (take chunk_size rows) s) e
            ∙ done
            ∙ ap (λ rows. ok (length (take chunk_size rows), s')) (sym e),
        inv',
        ordered-keep s' inv'.0 ∙ left ∙ ap (drop chunk_size) (sym e),
      )

-- With rows in the order of their keys, one summary for each key, chunks of one row or more and
-- more fuel than there are expired rows, the roll-up ends without an error and gives the number of
-- the expired rows; exactly those are gone, there is still one summary for each key, and under every
-- key of organization, method, normalised path and day the requests and the errors, summed over
-- summaries and rows, are what they were.
pub aggregate_and_prune_old_traffic_lem :
    {F : Type 0} (fl : Floats F) (u : Unicode) (now keep_days chunk_size fuel : ℕ)
    (store : TrafficStore F)
    → 0 < chunk_size
    → Ascending event_id store.events.rows
    → IsUnique store.summaries
    → let expired = is_expired {F = F} (now - days keep_days) in
      length (keep expired store.events.rows) < fuel
      → (store' : TrafficStore F) × (aggregate_and_prune_old_traffic fl u now keep_days chunk_size
            fuel store
          ≡ some (ok (length (keep expired store.events.rows)), store'))
        × (store'.events.rows ≡ keep (λ e. not (expired e)) store.events.rows)
        × IsUnique store'.summaries
        × ((k : SummaryKey)
            → (requests u k store' ≡ requests u k store) × (errors u k store' ≡ errors u k store))
unfolding aggregate_and_prune_old_traffic
aggregate_and_prune_old_traffic_lem {F} fl u now keep_days chunk_size fuel store positive ascending
      unique enough =
    let expired = is_expired {F = F} (now - days keep_days) in
    let e = ap length (ordered-keep fl u expired chunk_size store ascending) in
    let (s', result, (ascending', kept, unique', same), empty) =
      chunk_loop_lem (ordered expired) (roll_up_chunk fl u) chunk_size
        (Rolling fl u expired chunk_size store) positive
        (ordered_step fl u expired chunk_size store) fuel 0 store
        (ascending, refl, unique, λ k. (refl, refl)) (omega (arith, e, enough)) in
    (
      s',
      result ∙ ap (λ n. some (ok n, s')) (omega (arith, e)),
      sym (
            keep-not-of_nil expired s'.events.rows
              (sym (ordered-keep fl u expired chunk_size s' ascending') ∙ empty))
          ∙ kept,
      unique',
      same,
    )
