-- ===== src/MlModels/Versions.antt =====
-- What saving a model leaves of the versions, and loading what was saved.
use secure_api.Prelude.{
  ℕ, zero, suc, ◌-◌, ◌<◌, ◌≤◌, ◌≡◌, ==_refl, refl, sym, ◌∙◌, ap, Text, teq, teq_refl, Bool, false,
  not, ◌&&◌, none, some, List, [], ◌∷◌, ◌++◌, map, reverse, arith, length, length-append,
  append_nil, length-drop, take, drop, keep, keep-append, All, Bool-cases, inl, inr, if◌then◌else◌,
  subst,
}
use secure_api.Models.{Db, MlModelState, Table}
use secure_api.Session.{run}
use secure_api.Session.Query.{first, select, insert_row, update_where, keep-update_where}
use secure_api.Session.Keys.{Ascending, Keyed, update_rows-Keyed, insert_row-Keyed}
use secure_api.Session.Deletion.{
  order_by, delete_in, order_by-Ascending, Ascending-keep, keep-delete_in, keep-not-delete_in,
  Ascending-delete_in, All-delete_in,
}
use secure_api.Session.Newest.{delete_in-newest}
use secure_api.MlModels.{
  Serializer, of_org, deactivate_all, new_version, prune_old_versions, save_model, load_model,
  major, max_model_versions, sign_blob, verify_blob, decode_model_row, wrong_version,
}
use secure_api.MlModels.Blobs.{verify_blob-sign_blob}

module _ {ℓ} {A : Type ℓ} where
  drop-append_le : (n : ℕ) (xs ys : List A) → n ≤ length xs → drop n (xs ++ ys) ≡ drop n xs ++ ys
  drop-append_le zero xs ys le = refl
  drop-append_le (suc n) [] ys le = absurd (omega arith)
  drop-append_le (suc n) (x ∷ xs) ys le = drop-append_le n xs ys (omega arith)

  keep-drop_nil : (p : A → Bool) (n : ℕ) (xs : List A) → keep p xs ≡ [] → keep p (drop n xs) ≡ []
  keep-drop_nil p zero xs h = h
  keep-drop_nil p (suc n) [] h = refl
  keep-drop_nil p (suc n) (x ∷ xs) h = elim (Bool-cases (p x)) [
    | inl hit ↦ absurd (ground (arith, rw hit at h))
    | inr miss ↦ keep-drop_nil p n xs (rw miss at h)
  ]

  pub keep_and : (p q : A → Bool) (xs : List A) → keep (λ x. p x && q x) xs ≡ keep q (keep p xs)
  keep_and p q [] = refl
  keep_and p q (x ∷ xs) = ground (arith, keep_and p q xs)

  -- rows outside a filter, which an update of the rows inside leaves outside
  pub keep-not-update_where :
      (p : A → Bool) (f : A → A) (xs : List A)
      → ((x : A) → p (f x) ≡ p x)
      → keep (λ x. not (p x)) (update_where p f xs) ≡ keep (λ x. not (p x)) xs
  unfolding update_where
  keep-not-update_where p f [] same = refl
  keep-not-update_where p f (x ∷ xs) same =
      ground (arith, same x, keep-not-update_where p f xs same)

abbrev pub version_id : MlModelState → ℕ
version_id r = r.id

abbrev pub inactive : MlModelState → MlModelState
inactive r = record r { is_active = false }

pub keep-inactive :
    (p : MlModelState → Bool) (xs : List MlModelState)
    → keep (λ r. r.is_active) (update_where p inactive (keep p xs)) ≡ []
unfolding update_where
keep-inactive p [] = refl
keep-inactive p (x ∷ xs) = ground (arith, keep-inactive p xs)

module _ {A : Type 0} (z : Serializer A) where
  pub load_model_found :
      (org_id : ℕ) (db : Db) (row : MlModelState)
      → first (
          reverse (order_by version_id (select (λ r. of_org org_id r && r.is_active) db.ml_models)))
        ≡ some row
      → load_model z org_id db ≡ (if teq row.blob [] then none else decode_model_row z row)
  unfolding load_model
  load_model_found org_id db row found = rw (load_model, found) refl

  decode_model_row_verified :
      (row : MlModelState) (payload : Text)
      → verify_blob z row.blob ≡ some payload
      → wrong_version z row ≡ false
      → decode_model_row z row ≡ z.loads payload
  unfolding decode_model_row
  decode_model_row_verified row payload verified right = rw (decode_model_row, verified, right) refl

  module _ (now org_id : ℕ) (model : A) (id : ℕ) where
    right_version : wrong_version z (new_version z now org_id model id) ≡ false
    unfolding wrong_version
    right_version = ground (arith, teq_refl (major z.skl_version))

    has_blob : teq (sign_blob z (z.dump model)) [] ≡ false
    unfolding sign_blob teq
    has_blob = refl

    -- what was saved can be loaded
    decode-new_version :
        ((payload : Text) → length (z.digest payload) ≡ 32)
        → 0 < length (z.dump model)
        → z.loads (z.dump model) ≡ some model
        → let row = new_version z now org_id model id in
          (if teq row.blob [] then none else decode_model_row z row) ≡ some model
    decode-new_version sizes some' loads = rw has_blob (
        decode_model_row_verified (new_version z now org_id model id) (z.dump model)
          (verify_blob-sign_blob z sizes (z.dump model) some') right_version
        ∙ loads)

module _ {A : Type 0} (z : Serializer A) (now org_id : ℕ) (model : A) (db : Db)
    (keyed : Keyed version_id db.ml_models) where
  abbrev new_row : MlModelState
  new_row = new_version z now org_id model db.ml_models.next_id

  abbrev old : List MlModelState
  old = update_where (of_org org_id) inactive (select (of_org org_id) db.ml_models)

  abbrev grown : Db
  grown =
      let db' = deactivate_all z org_id db in
      record db' { ml_models = insert_row (new_version z now org_id model) db'.ml_models }

  abbrev saved : Table MlModelState
  saved = (prune_old_versions z org_id max_model_versions grown).ml_models

  grown-Keyed : Keyed version_id grown.ml_models
  grown-Keyed =
      insert_row-Keyed version_id (new_version z now org_id model)
        (deactivate_all z org_id db).ml_models (λ n. refl)
        (update_rows-Keyed version_id (of_org org_id) inactive db.ml_models (λ r. refl) keyed)

  keep-grown : keep (of_org org_id) grown.ml_models.rows ≡ old ++ new_row ∷ []
  keep-grown =
      keep-append (of_org org_id) (update_where (of_org org_id) inactive db.ml_models.rows)
        (new_row ∷ [])
      ∙ (rw (==_refl org_id) (
          ap (λ t. t ++ new_row ∷ [])
            (keep-update_where (of_org org_id) (of_org org_id) inactive db.ml_models.rows
              (λ r. refl))))

  abbrev dropped : ℕ
  dropped = length (keep (of_org org_id) grown.ml_models.rows) - max_model_versions

  saved-rows :
      saved.rows
      ≡ delete_in version_id
          (map version_id (take dropped (keep (of_org org_id) grown.ml_models.rows)))
          grown.ml_models.rows
  unfolding prune_old_versions
  saved-rows =
      delete_in-newest version_id (of_org org_id) max_model_versions grown.ml_models.rows
        (grown-Keyed.1)

  -- all but the last four old versions go
  keep-saved : keep (of_org org_id) saved.rows ≡ drop (length old - 4) old ++ new_row ∷ []
  keep-saved =
      ap (keep (of_org org_id)) saved-rows
      ∙ keep-delete_in version_id (of_org org_id) dropped grown.ml_models.rows grown-Keyed.1
      ∙ ap (λ t. drop (length t - max_model_versions) t) keep-grown
      ∙ ap (λ n. drop n (old ++ new_row ∷ [])) (omega (arith, length-append old (new_row ∷ [])))
      ∙ drop-append_le (length old - 4) old (new_row ∷ []) (omega arith)

  active-saved : select (λ r. of_org org_id r && r.is_active) saved ≡ new_row ∷ []
  active-saved =
      let active : MlModelState → Bool = λ r. r.is_active in
      keep_and (of_org org_id) active saved.rows
      ∙ ap (keep active) keep-saved
      ∙ keep-append active (drop (length old - 4) old) (new_row ∷ [])
      ∙ ap (λ t. t ++ new_row ∷ [])
          (keep-drop_nil active (length old - 4) old
            (keep-inactive (of_org org_id) db.ml_models.rows))

  few-saved : length (select (of_org org_id) saved) ≤ 5
  few-saved = omega (
    arith,
    ap length keep-saved,
    length-append (drop (length old - 4) old) (new_row ∷ []),
    length-drop (length old - 4) old,
  )

  others-saved :
      keep (λ r. not (of_org org_id r)) saved.rows
      ≡ keep (λ r. not (of_org org_id r)) db.ml_models.rows
  others-saved =
      ap (keep (λ r. not (of_org org_id r))) saved-rows
      ∙ keep-not-delete_in version_id (of_org org_id) dropped grown.ml_models.rows grown-Keyed.1
      ∙ keep-append (λ r. not (of_org org_id r))
          (update_where (of_org org_id) inactive db.ml_models.rows) (new_row ∷ [])
      ∙ rw (==_refl org_id) (
          append_nil (
            keep (λ r. not (of_org org_id r))
              (update_where (of_org org_id) inactive db.ml_models.rows))
          ∙ keep-not-update_where (of_org org_id) inactive db.ml_models.rows (λ r. refl))

  saved-Keyed : Keyed version_id saved
  unfolding prune_old_versions
  saved-Keyed =
      let ids = map version_id (take dropped (keep (of_org org_id) grown.ml_models.rows)) in
      subst (λ rows. All (λ r. r.id < grown.ml_models.next_id) rows × Ascending version_id rows)
        (sym saved-rows)
        (
          All-delete_in version_id (λ r. r.id < grown.ml_models.next_id) ids grown.ml_models.rows
              grown-Keyed.0,
          Ascending-delete_in version_id (of_org org_id) dropped grown.ml_models.rows grown-Keyed.1,
        )

  -- Saving a model, in a table whose rows stand in the order of their keys, leaves the new version
  -- as the only active one of its organization, at most five versions of that organization, the
  -- versions of all others as they were, and the rows in the order of their keys.
  pub save_model_lem :
      let t = (run (save_model z now org_id model) db).db.ml_models in
      (select (λ r. of_org org_id r && r.is_active) t
        ≡ new_version z now org_id model db.ml_models.next_id ∷ [])
      × (length (select (of_org org_id) t) ≤ 5)
      × (keep (λ r. not (of_org org_id r)) t.rows
          ≡ keep (λ r. not (of_org org_id r)) db.ml_models.rows)
      × Keyed version_id t
  unfolding save_model
  save_model_lem = (active-saved, few-saved, others-saved, saved-Keyed)

  -- Where a digest has 32 bytes, the pickle of the model is not empty and unpickling it gives the
  -- model, what loading gives after saving a model is that model.
  pub load_model-save_model :
      ((payload : Text) → length (z.digest payload) ≡ 32)
      → 0 < length (z.dump model)
      → z.loads (z.dump model) ≡ some model
      → load_model z org_id (run (save_model z now org_id model) db).db ≡ some model
  unfolding save_model load_model decode_model_row
  load_model-save_model sizes some' loads =
      let ordered = order_by-Ascending version_id _ (
        Ascending-keep version_id (λ r. of_org org_id r && r.is_active) saved.rows saved-Keyed.1) in
      let newest : first
            (reverse (order_by version_id (select (λ r. of_org org_id r && r.is_active) saved)))
          ≡ some new_row =
        ap (λ t. first (reverse t)) (ordered ∙ active-saved) in
      load_model_found z org_id (run (save_model z now org_id model) db).db
        (new_version z now org_id model db.ml_models.next_id) newest
      ∙ decode-new_version z now org_id model db.ml_models.next_id sizes some' loads
