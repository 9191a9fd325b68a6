-- ===== src/Connections/Deletion.antt =====
-- Deleting a connection takes the endpoints that it brought along.
use secure_api.Prelude.{
  ℕ, ◌==◌, ◌&&◌, Bool, str_eq, ◌≡◌, refl, sym, ◌∙◌, ap, not, some, [], length, keep,
  keep-keep_within, keep-keep_none, arith,
}
use secure_api.Models.{User, Db, KnownEndpoint, MonitoredApi}
use secure_api.Session.{ok, Request, run}
use secure_api.Session.Query.{first, select}
use secure_api.Pathutil.{Unicode}
use secure_api.Registry.{recompute_flags}
use secure_api.Registry.Registration.{reflagged, reflagged_idem}
use secure_api.Connections.{Upstream}
use secure_api.Connections.Routes.{
  asked_connection, source_of, seeded_by, drop_connection, delete_connection,
}

module _ (u : Unicode) (p : Upstream) (now : ℕ) (request : Request) (current_user : User)
    (org_id : ℕ) (connection_id : ℕ) (db : Db) where
  -- Deleting a connection of the organization gives the number of the endpoints that carry its
  -- source there; afterwards there are none of them and no row of the connection, all other
  -- endpoints are as they were, and the flags of the discovered endpoints are what recomputing gives.
  pub delete_connection_lem :
      (row : MonitoredApi)
      → first (
          select
            (asked_connection u p now request current_user org_id connection_id)
            db.monitored_apis)
        ≡ some row
      → let out = run (delete_connection u p now request current_user org_id connection_id) db in
        let seeded : KnownEndpoint → Bool =
          λ e. e.org_id == org_id && str_eq e.source (source_of row.id) in
        (out.response ≡ ok (length (select seeded db.known_endpoints)))
        × (select seeded out.db.known_endpoints ≡ [])
        × (keep (λ e. not (seeded e)) out.db.known_endpoints.rows
            ≡ keep (λ e. not (seeded e)) db.known_endpoints.rows)
        × (select (λ c. c.id == row.id) out.db.monitored_apis ≡ [])
        × ((recompute_flags u now org_id out.db).discovered_endpoints ≡ out.db.discovered_endpoints)
  unfolding delete_connection
  delete_connection_lem row found =
      let out = run (delete_connection u p now request current_user org_id connection_id) db in
      let seeded = seeded_by u p now request current_user org_id row in
      let dropped = drop_connection u p now request current_user org_id row db in
      let known : out.db.known_endpoints ≡ dropped.known_endpoints = rw (run, found) refl in
      let apis : out.db.monitored_apis ≡ dropped.monitored_apis = rw (run, found) refl in
      let discovered : out.db.discovered_endpoints
          ≡ reflagged u now org_id dropped.known_endpoints db.discovered_endpoints =
        rw (run, found) refl in
      (
        rw found refl,
        ap (select seeded) known ∙ keep-keep_none seeded seeded db.known_endpoints.rows (λ e h. h),
        ap (λ t. keep (λ e. not (seeded e)) t.rows) known
            ∙ keep-keep_within seeded (λ e. not (seeded e)) db.known_endpoints.rows
                (λ e h. ground (arith, h)),
        ap (select (λ c. c.id == row.id)) apis
            ∙ keep-keep_none (λ c. c.id == row.id) (λ c. c.id == row.id) db.monitored_apis.rows
                (λ c h. h),
        ap (λ k. reflagged u now org_id k out.db.discovered_endpoints) known
            ∙ ap (reflagged u now org_id dropped.known_endpoints) discovered
            ∙ reflagged_idem u now org_id dropped.known_endpoints db.discovered_endpoints
            ∙ sym discovered,
      )
