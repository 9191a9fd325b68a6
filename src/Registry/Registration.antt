-- ===== src/Registry/Registration.antt =====
-- Registering the endpoints of an imported description.
use secure_api.Prelude.{
  ℕ, ◌+◌, ◌==◌, map, ◌≡◌, ==_refl, refl, sym, ◌∙◌, ap, ◌⊎◌, inl, inr, String, Text, teq, teq_refl,
  Bool, true, false, not, ◌&&◌, ◌||◌, List, [], ◌∷◌, arith, length, length-append, keep,
  keep-append, append_nil, any, any-append, Bool-cases,
}
use secure_api.Models.{User, Db, Table, KnownEndpoint, DiscoveredEndpoint}
use secure_api.Session.{err, ok, crash, Request, run}
use secure_api.Session.Query.{
  insert_row, select, update_rows, update_where-update_where, keep-update_where_others,
}
use secure_api.Pathutil.{Unicode, is_documented}
use secure_api.Registry.{
  known_in, is_known, new_endpoint, unknown, distinct, add_endpoints, recompute_flags,
  register_paths,
}

module _ (u : Unicode) (now org_id : ℕ) where
  -- the same pair to the unique index
  abbrev same_path : Text → Text → Text × Text → Bool
  same_path method path_template path = teq (u.upper path.0) method && teq path.1 path_template

  any-add_endpoints :
      (source : String) (method path_template : Text) (paths : List (Text × Text))
      (t : Table KnownEndpoint)
      → any (is_known org_id method path_template) (add_endpoints u now org_id source paths t).rows
        ≡ (any (is_known org_id method path_template) t.rows
            || any (same_path method path_template) paths)
  unfolding add_endpoints
  any-add_endpoints source method path_template [] t = ground arith
  any-add_endpoints source method path_template (path ∷ paths) t =
      let t' = insert_row (new_endpoint now org_id (u.upper path.0) path.1 source) t in
      any-add_endpoints source method path_template paths t'
      ∙ (rw
          (
            any-append (is_known org_id method path_template) t.rows
                (new_endpoint now org_id (u.upper path.0) path.1 source t.next_id ∷ []),
            ==_refl org_id,
          )
          (ground arith))

  length-add_endpoints :
      (source : String) (paths : List (Text × Text)) (t : Table KnownEndpoint)
      → length (add_endpoints u now org_id source paths t).rows ≡ length t.rows + length paths
  unfolding add_endpoints
  length-add_endpoints source [] t = omega arith
  length-add_endpoints source (path ∷ paths) t =
      let added = new_endpoint now org_id (u.upper path.0) path.1 source in
      omega (
        arith,
        length-add_endpoints source paths (insert_row added t),
        length-append t.rows (added t.next_id ∷ []),
      )

  others-add_endpoints :
      (source : String) (paths : List (Text × Text)) (t : Table KnownEndpoint)
      → keep (λ e. not (known_in org_id e)) (add_endpoints u now org_id source paths t).rows
        ≡ keep (λ e. not (known_in org_id e)) t.rows
  unfolding add_endpoints
  others-add_endpoints source [] t = refl
  others-add_endpoints source (path ∷ paths) t =
      let added = new_endpoint now org_id (u.upper path.0) path.1 source in
      others-add_endpoints source paths (insert_row added t)
      ∙ keep-append (λ e. not (known_in org_id e)) t.rows (added t.next_id ∷ [])
      ∙ rw (==_refl org_id) (append_nil (keep (λ e. not (known_in org_id e)) t.rows))

  -- rows that know what the table knew, and what was added, leave nothing unknown
  unknown_nil :
      (old rows : List KnownEndpoint) (paths : List (Text × Text))
      → ((method path_template : Text)
          → any (is_known org_id method path_template) old ≡ true
          → any (is_known org_id method path_template) rows ≡ true)
      → ((method path_template : Text)
          → any (same_path method path_template) (unknown u now org_id paths old) ≡ true
          → any (is_known org_id method path_template) rows ≡ true)
      → unknown u now org_id paths rows ≡ []
  unknown_nil old rows [] more added = refl
  unknown_nil old rows (path ∷ paths) more added =
      elim (Bool-cases (any (is_known org_id (u.upper path.0) path.1) old)) [
        | inl known ↦
            let here = more (u.upper path.0) path.1 known in
            rw here (unknown_nil old rows paths more (λ m t h. added m t (rw known h)))
        | inr new ↦
            let first : any (same_path (u.upper path.0) path.1)
                  (unknown u now org_id (path ∷ paths) old)
                ≡ true =
              rw (new, teq_refl (u.upper path.0), teq_refl path.1) refl in
            let here = added (u.upper path.0) path.1 first in
            rw here
              (unknown_nil old rows paths more (λ m t h. added m t (rw new (ground (arith, h)))))
      ]

  abbrev pub reflagged : Table KnownEndpoint → Table DiscoveredEndpoint → Table DiscoveredEndpoint
  reflagged known t =
      let templates = map (λ e. (e.method, e.path_template)) (select (known_in org_id) known) in
      update_rows (λ d. d.org_id == org_id)
        (λ d. record d { documented = is_documented u d.method d.path_normalized templates }) t

  others-reflagged :
      (known : Table KnownEndpoint) (t : Table DiscoveredEndpoint)
      → keep (λ d. not (d.org_id == org_id)) (reflagged known t).rows
        ≡ keep (λ d. not (d.org_id == org_id)) t.rows
  others-reflagged known t =
      let templates = map (λ e. (e.method, e.path_template)) (select (known_in org_id) known) in
      let flag : DiscoveredEndpoint → DiscoveredEndpoint =
        λ d. record d { documented = is_documented u d.method d.path_normalized templates } in
      keep-update_where_others (λ d. d.org_id == org_id) flag t.rows (λ d. refl)

  pub reflagged_idem :
      (known : Table KnownEndpoint) (t : Table DiscoveredEndpoint)
      → reflagged known (reflagged known t) ≡ reflagged known t
  reflagged_idem known t =
      let templates = map (λ e. (e.method, e.path_template)) (select (known_in org_id) known) in
      let flag : DiscoveredEndpoint → DiscoveredEndpoint =
        λ d. record d { documented = is_documented u d.method d.path_normalized templates } in
      ap (λ rows. record t { rows = rows })
        (update_where-update_where (λ d. d.org_id == org_id) flag flag t.rows (λ d. refl))

  -- Registering endpoints either fails, because two of the new ones are the same in upper case, and
  -- leaves the database as it was; or it adds as many rows as it reports, registering the
  -- same list again would add none, the flags of the discovered endpoints are what recomputing them
  -- gives, and the registered and the discovered endpoints of the other organizations are as they
  -- were.
  pub register_paths_lem :
      (request : Request) (current_user : User) (title : Text) (source event_type : String)
      (paths : List (Text × Text)) (db : Db)
      → let out =
          run (register_paths u now org_id request current_user title paths source event_type) db in
        let rows = db.known_endpoints.rows in
        let added = unknown u now org_id paths rows in
        ((distinct u now org_id added ≡ false) × (out.response ≡ err crash) × (out.db ≡ db))
        ⊎ ((out.response ≡ ok (length added, length paths))
            × (length out.db.known_endpoints.rows ≡ length rows + length added)
            × (unknown u now org_id paths out.db.known_endpoints.rows ≡ [])
            × ((recompute_flags u now org_id out.db).discovered_endpoints
                ≡ out.db.discovered_endpoints)
            × (keep (λ e. not (known_in org_id e)) out.db.known_endpoints.rows
                ≡ keep (λ e. not (known_in org_id e)) rows)
            × (keep (λ d. not (d.org_id == org_id)) out.db.discovered_endpoints.rows
                ≡ keep (λ d. not (d.org_id == org_id)) db.discovered_endpoints.rows))
  unfolding register_paths
  register_paths_lem request current_user title source event_type paths db =
      let rows = db.known_endpoints.rows in
      let added = unknown u now org_id paths rows in
      let t = add_endpoints u now org_id source added db.known_endpoints in
      let out =
        run (register_paths u now org_id request current_user title paths source event_type) db in
      elim (Bool-cases (distinct u now org_id added)) [
        | inr clash ↦ inl (clash, rw clash refl, rw (run, clash) refl)
        | inl fine ↦
            let known : out.db.known_endpoints ≡ t = rw (run, fine) refl in
            let discovered : out.db.discovered_endpoints ≡ reflagged t db.discovered_endpoints =
              rw (run, fine) refl in
            inr (
              rw fine refl,
              ap (λ x. length x.rows) known ∙ length-add_endpoints source added db.known_endpoints,
              ap (λ x. unknown u now org_id paths x.rows) known
                  ∙ unknown_nil rows t.rows paths
                      (λ m p h. any-add_endpoints source m p added db.known_endpoints ∙ rw h refl)
                      (λ m p h.
                        any-add_endpoints source m p added db.known_endpoints ∙ ground (arith, h)),
              ap (λ k. reflagged k out.db.discovered_endpoints) known
                  ∙ ap (reflagged t) discovered
                  ∙ reflagged_idem t db.discovered_endpoints
                  ∙ sym discovered,
              ap (λ x. keep (λ e. not (known_in org_id e)) x.rows) known
                  ∙ others-add_endpoints source added db.known_endpoints,
              ap (λ x. keep (λ d. not (d.org_id == org_id)) x.rows) discovered
                  ∙ others-reflagged t db.discovered_endpoints,
            )
      ]
