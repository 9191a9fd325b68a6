-- ===== src/Registry/Promotion.antt =====
-- Promoting a shadow endpoint: the traffic that raised it is documented from then on.
use secure_api.Prelude.{
  ℕ, ◌≤◌, length, ◌≡◌, ==_refl, refl, sym, ◌∙◌, ap, subst, ◌⊎◌, inl, inr, Text, teq→eq, Bool, true,
  not, List, [], ◌∷◌, ◌++◌, map, map-append, arith, append_nil, keep, keep-append, All, Some,
  Bool-cases,
}
use secure_api.Models.{User, Db, Table, KnownEndpoint, ShadowEndpoint}
use secure_api.Session.{err, ok, Request, run, crash, one_or_none-cases, one_or_none-many}
use secure_api.Session.Query.{select, insert_row, keep-one}
use secure_api.Pathutil.{
  Unicode, with_slash, normalize_path_for_discovery, is_documented, path_matches_template,
}
use secure_api.Pathutil.Markers.{IsSegment}
use secure_api.Pathutil.Matching.{
  Documents, is_documented_iff, normalize_path_for_discovery-matches,
}
use secure_api.Registry.{
  known_in, is_known, new_endpoint, get_known_templates, asked_shadow, add_shadow_to_registry,
}

module _ {A B : Type 0} (f : A → B) (P : B → Type 0) where
  Some-append : (xs ys : List B) → Some P ys → Some P (xs ++ ys)
  Some-append [] ys h = h
  Some-append (x ∷ xs) ys h = inr (Some-append xs ys h)

  -- what a narrower filter finds is among what the wider one does
  Some-map-keep :
      (p q : A → Bool) (xs : List A) {x : A} {rest : List A}
      → ((y : A) → q y ≡ true → p y ≡ true)
      → keep q xs ≡ x ∷ rest
      → P (f x)
      → Some P (map f (keep p xs))
  Some-map-keep p q [] wider found h = cc
  Some-map-keep p q (y ∷ ys) {x} wider found h = elim (Bool-cases (q y)) [
    | inl hit ↦
        let same : y ≡ x = ground (arith, rw hit at found) in
        rw (wider y hit) (inl (subst (λ w. P (f w)) (sym same) h))
    | inr miss ↦
        let more = Some-map-keep p q ys wider (rw miss at found) h in
        elim (Bool-cases (p y)) [ inl known ↦ rw known (inr more) | inr unknown ↦ rw unknown more ]
  ]

module _ (u : Unicode) (now org_id : ℕ) (request : Request) (current_user : User) (shadow_id : ℕ)
    (db : Db) where
  abbrev templates : Table KnownEndpoint → List (Text × Text)
  templates t = map (λ e. (e.method, e.path_template)) (select (known_in org_id) t)

  row-Documents :
      (row : ShadowEndpoint) (method : Text) (parts : List Text)
      → All IsSegment parts
      → u.upper row.method ≡ u.upper method
      → row.path_normalized ≡ normalize_path_for_discovery u (with_slash parts)
      → Documents u method (with_slash parts) (row.method, row.path_normalized)
  row-Documents row method parts segments same normal = (
    same,
    ap (path_matches_template (with_slash parts)) normal
        ∙ normalize_path_for_discovery-matches u parts segments,
  )

  abbrev promoted : ShadowEndpoint → Table KnownEndpoint
  promoted row =
      insert_row (new_endpoint now org_id row.method row.path_normalized "shadow_promotion")
        db.known_endpoints

  is_documented-promoted :
      (row : ShadowEndpoint) (method : Text) (parts : List Text)
      → All IsSegment parts
      → u.upper row.method ≡ u.upper method
      → row.path_normalized ≡ normalize_path_for_discovery u (with_slash parts)
      → is_documented u method (with_slash parts) (templates (promoted row)) ≡ true
  is_documented-promoted row method parts segments same normal =
      let f : KnownEndpoint → Text × Text = λ e. (e.method, e.path_template) in
      let added =
        new_endpoint now org_id row.method row.path_normalized "shadow_promotion"
          db.known_endpoints.next_id in
      let split : templates (promoted row) ≡ templates db.known_endpoints ++ f added ∷ [] =
        ap (map f) (keep-append (known_in org_id) db.known_endpoints.rows (added ∷ []))
        ∙ rw (==_refl org_id)
            (map-append f (select (known_in org_id) db.known_endpoints) (added ∷ [])) in
      (is_documented_iff u method (with_slash parts) (templates (promoted row))).1 (
        rw split (
          Some-append f (Documents u method (with_slash parts)) (templates db.known_endpoints)
            (f added ∷ []) (inl (row-Documents row method parts segments same normal))))

  is_documented-known :
      (row : ShadowEndpoint) (e : KnownEndpoint)
      → select (is_known org_id row.method row.path_normalized) db.known_endpoints ≡ e ∷ []
      → (method : Text) (parts : List Text) → All IsSegment parts
      → u.upper row.method ≡ u.upper method
      → row.path_normalized ≡ normalize_path_for_discovery u (with_slash parts)
      → is_documented u method (with_slash parts) (templates db.known_endpoints) ≡ true
  is_documented-known row e known method parts segments same normal =
      let hit =
        keep-one (is_known org_id row.method row.path_normalized) db.known_endpoints.rows known in
      let method' : e.method ≡ row.method = teq→eq e.method row.method (ground arith) in
      let path' : e.path_template ≡ row.path_normalized =
        teq→eq e.path_template row.path_normalized (ground arith) in
      (is_documented_iff u method (with_slash parts) (templates db.known_endpoints)).1 (
        Some-map-keep (λ x. (x.method, x.path_template)) (Documents u method (with_slash parts))
          (known_in org_id) (is_known org_id row.method row.path_normalized) db.known_endpoints.rows
          (λ y h. ground arith) known
          (rw (method', path') (row-Documents row method parts segments same normal)))

  others-promoted :
      (row : ShadowEndpoint)
      → keep (λ e. not (known_in org_id e)) (promoted row).rows
        ≡ keep (λ e. not (known_in org_id e)) db.known_endpoints.rows
  others-promoted row =
      keep-append (λ e. not (known_in org_id e)) db.known_endpoints.rows
        (new_endpoint now org_id row.method row.path_normalized "shadow_promotion"
            db.known_endpoints.next_id
          ∷ [])
      ∙ rw (==_refl org_id)
          (append_nil (keep (λ e. not (known_in org_id e)) db.known_endpoints.rows))

  -- Promoting a shadow endpoint of the organization either is an exception and leaves the database
  -- as it was, and then two rows are registered with its method and path; or every path of nonempty
  -- segments
  -- that is normalised to the endpoint's path is documented there afterwards, for every method that
  -- is the same in upper case, and what the other organizations have registered is as it was.
  pub add_shadow_to_registry_lem :
      (row : ShadowEndpoint) (method : Text) (parts : List Text)
      → select (asked_shadow u now org_id shadow_id) db.shadow_endpoints ≡ row ∷ []
      → All IsSegment parts
      → u.upper row.method ≡ u.upper method
      → row.path_normalized ≡ normalize_path_for_discovery u (with_slash parts)
      → let out = run (add_shadow_to_registry u now org_id request current_user shadow_id) db in
        ((2 ≤ length (select (is_known org_id row.method row.path_normalized) db.known_endpoints))
          × (out.response ≡ err crash)
          × (out.db ≡ db))
        ⊎ ((out.response ≡ ok tt)
            × (is_documented u method (with_slash parts) (get_known_templates org_id out.db) ≡ true)
            × (keep (λ e. not (known_in org_id e)) out.db.known_endpoints.rows
                ≡ keep (λ e. not (known_in org_id e)) db.known_endpoints.rows))
  unfolding add_shadow_to_registry
  add_shadow_to_registry_lem row method parts found segments same_method normal =
      let out = run (add_shadow_to_registry u now org_id request current_user shadow_id) db in
      elim (one_or_none-cases
        (select (is_known org_id row.method row.path_normalized) db.known_endpoints)) [
          | inr (inr many) ↦ inl (
            one_or_none-many
                (select (is_known org_id row.method row.path_normalized) db.known_endpoints) many,
            rw (found, many) refl,
            rw (run, found, many) refl,
          )
          | inl new ↦
              let same : out.db.known_endpoints ≡ promoted row = rw (run, found, new) refl in
              inr (
                rw (found, new) refl,
                ap (λ t. is_documented u method (with_slash parts) (templates t)) same
                    ∙ is_documented-promoted row method parts segments same_method normal,
                ap (λ t. keep (λ e. not (known_in org_id e)) t.rows) same ∙ others-promoted row,
              )
          | inr (inl (e, known)) ↦
              let same : out.db.known_endpoints ≡ db.known_endpoints =
                rw (run, found, known) refl in
              inr (
                rw (found, known) refl,
                ap (λ t. is_documented u method (with_slash parts) (templates t)) same
                    ∙ is_documented-known row e known method parts segments same_method normal,
                ap (λ t. keep (λ e. not (known_in org_id e)) t.rows) same,
              )
        ]
