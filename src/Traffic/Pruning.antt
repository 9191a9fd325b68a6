-- ===== src/Traffic/Pruning.antt =====
-- What the loops that only delete leave: as if one statement had deleted all the rows at once.
use secure_api.Prelude.{
  ℕ, ◌+◌, ◌-◌, ◌<◌, ◌≡◌, refl, sym, ◌∙◌, ap, String, Bool, true, false, not, ◌&&◌, ◌||◌, ltb, leb,
  Option, some, List, [], ◌∷◌, map, arith, length, length-map, take, drop, keep, keep-keep_within,
  keep-keep_none, Bool-cases, inl, inr,
}
use secure_api.Models.{Table, RefreshToken}
use secure_api.Session.{Result, ok}
use secure_api.Session.Keys.{Ascending}
use secure_api.Session.Deletion.{
  keep-delete_in, keep-not-delete_in, length-delete_in, Ascending-delete_in,
}
use secure_api.Session.Chunks.{chunk_loop, chunk_loop_lem}
use secure_api.Security.{days}
use secure_api.Traffic.{
  TrafficEvent, TrafficStore, delete_events, unordered, is_expired, belongs_to, given, delete_chunk,
  erase_chunk, prune_stale_traffic, delete_traffic_for_client, is_prunable,
  prune_expired_refresh_tokens,
}

module _ {ℓ} {A : Type ℓ} where
  pub keep-not-of_nil :
      (p : A → Bool) (xs : List A) → keep p xs ≡ [] → keep (λ x. not (p x)) xs ≡ xs
  keep-not-of_nil p [] h = refl
  keep-not-of_nil p (x ∷ xs) h = elim (Bool-cases (p x)) [
    | inl hit ↦ absurd (ground (arith, rw hit at h))
    | inr miss ↦ rw miss (ap (λ t. x ∷ t) (keep-not-of_nil p xs (rw miss at h)))
  ]

module _ {F : Type 0} where
  -- the store with other events in place of its own
  abbrev pub with_events : List (TrafficEvent F) → TrafficStore F → TrafficStore F
  with_events rows store = record store { events = record store.events { rows = rows } }

  abbrev pub event_id : TrafficEvent F → ℕ
  event_id e = e.id

  module _ (p : TrafficEvent F → Bool) (chunk_size : ℕ)
      (body : List (TrafficEvent F) → TrafficStore F → Result (ℕ × TrafficStore F)) where
    abbrev chunk : TrafficStore F → List (TrafficEvent F)
    chunk s = take chunk_size (keep p s.events.rows)

    abbrev Deleting : TrafficStore F → TrafficStore F → Type 0
    Deleting store s =
        Ascending event_id s.events.rows
        × (keep (λ e. not (p e)) s.events.rows ≡ keep (λ e. not (p e)) store.events.rows)
        × (s ≡ with_events s.events.rows store)

    Deleting-step :
        (store : TrafficStore F)
        → ((s : TrafficStore F)
            → Ascending event_id s.events.rows
            → body (chunk s) s ≡ ok (length (chunk s), delete_events (map event_id (chunk s)) s))
        → (s : TrafficStore F) → Deleting store s
        → (s' : TrafficStore F) × (body (chunk s) s ≡ ok (length (chunk s), s'))
          × Deleting store s'
          × (keep p s'.events.rows ≡ drop chunk_size (keep p s.events.rows))
    Deleting-step store done s (ascending, kept, same) = (
      delete_events (map event_id (chunk s)) s,
      done s ascending,
      (
        Ascending-delete_in event_id p chunk_size s.events.rows ascending,
        keep-not-delete_in event_id p chunk_size s.events.rows ascending ∙ kept,
        ap (delete_events (map event_id (chunk s))) same,
      ),
      keep-delete_in event_id p chunk_size s.events.rows ascending,
    )

    -- a loop whose body deletes its chunk is one deletion
    deleting_loop :
        (store : TrafficStore F)
        → ((s : TrafficStore F)
            → Ascending event_id s.events.rows
            → body (chunk s) s ≡ ok (length (chunk s), delete_events (map event_id (chunk s)) s))
        → 0 < chunk_size
        → (fuel : ℕ) → Ascending event_id store.events.rows
        → length (keep p store.events.rows) < fuel
        → chunk_loop (unordered p) body chunk_size fuel 0 store
          ≡ some (
            ok (length (keep p store.events.rows)),
            with_events (keep (λ e. not (p e)) store.events.rows) store,
          )
    deleting_loop store done positive fuel ascending enough =
        let (s', result, (_, kept, same), empty) =
          chunk_loop_lem (unordered p) body chunk_size (Deleting store) positive
            (Deleting-step store done) fuel 0 store (ascending, refl, refl) enough in
        let rows : s'.events.rows ≡ keep (λ e. not (p e)) store.events.rows =
          sym (keep-not-of_nil p s'.events.rows empty) ∙ kept in
        let total : 0 + length (keep p store.events.rows) ≡ length (keep p store.events.rows) =
          omega arith in
        result
        ∙ ap (λ n. some (ok n, s')) total
        ∙ ap (λ s. some (ok (length (keep p store.events.rows)), s))
            (same ∙ ap (λ r. with_events r store) rows)

  -- With rows in the order of their keys, chunks of one row or more and more fuel than there are
  -- expired rows, pruning ends; it deletes all expired rows and no other, and gives their number.
  pub prune_stale_traffic_effect :
      (now zombie_window_days chunk_size fuel : ℕ) (store : TrafficStore F)
      → 0 < chunk_size
      → Ascending event_id store.events.rows
      → let expired = is_expired {F = F} (now - days zombie_window_days) in
        length (keep expired store.events.rows) < fuel
        → prune_stale_traffic now zombie_window_days chunk_size fuel store
          ≡ some (
            ok (length (keep expired store.events.rows)),
            with_events (keep (λ e. not (expired e)) store.events.rows) store,
          )
  unfolding prune_stale_traffic
  prune_stale_traffic_effect now window chunk_size fuel store positive ascending enough =
      let expired = is_expired (now - days window) in
      deleting_loop expired chunk_size delete_chunk store
        (λ s h.
          ap (λ n. ok (n, delete_events (map event_id (chunk expired chunk_size delete_chunk s)) s))
            (omega (arith, length-delete_in event_id expired chunk_size s.events.rows h)))
        positive fuel ascending enough

  -- With an address or a session, rows in the order of their keys, chunks of one row or more and
  -- more fuel than there are rows that match, the deletion ends; it deletes all rows that match and
  -- no other, and gives their number.
  pub delete_traffic_for_client_effect :
      (client_ip session_id : Option String) (chunk_size fuel : ℕ) (store : TrafficStore F)
      → (given client_ip || given session_id) ≡ true
      → 0 < chunk_size
      → Ascending event_id store.events.rows
      → let p = belongs_to {F = F} client_ip session_id in
        length (keep p store.events.rows) < fuel
        → delete_traffic_for_client client_ip session_id chunk_size fuel store
          ≡ some (
            ok (length (keep p store.events.rows)),
            with_events (keep (λ e. not (p e)) store.events.rows) store,
          )
  unfolding delete_traffic_for_client
  delete_traffic_for_client_effect client_ip session_id chunk_size fuel store either positive
        ascending enough =
      let p = belongs_to {F = F} client_ip session_id in
      let asked : (not (given client_ip) && not (given session_id)) ≡ false = ground arith in
      rw asked (
        deleting_loop p chunk_size erase_chunk store
          (λ s h.
            ap (λ n. ok (n, delete_events (map event_id (chunk p chunk_size erase_chunk s)) s))
              (length-map event_id (chunk p chunk_size erase_chunk s)))
          positive fuel ascending enough)

-- Pruning keeps every refresh token that is neither expired nor revoked, and every unexpired one
-- made within thirty days, revoked or not; and it leaves no expired one.
pub prune_expired_refresh_tokens_effect :
    (now : ℕ) (t : Table RefreshToken)
    → let fresh : RefreshToken → Bool =
        λ r. leb now r.expires_at && (not r.revoked || leb (now - days 30) r.created_at) in
      let rest = prune_expired_refresh_tokens now t in
      (keep fresh rest.rows ≡ keep fresh t.rows) × (keep (λ r. ltb r.expires_at now) rest.rows ≡ [])
unfolding prune_expired_refresh_tokens
prune_expired_refresh_tokens_effect now t = (
  keep-keep_within (is_prunable now) _ t.rows (λ r h. ground arith),
  keep-keep_none (is_prunable now) _ t.rows (λ r h. ground arith),
)
