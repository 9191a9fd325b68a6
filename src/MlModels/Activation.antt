-- ===== src/MlModels/Activation.antt =====
-- Rolling back to an earlier version of the model, and scoring with it.
use secure_api.Prelude.{
  ℕ, ◌≡◌, ◌==◌, ==→eq, refl, ◌∙◌, ap, ◌⊎◌, inl, inr, teq, Bool, true, false, not, ◌&&◌, some, List,
  [], ◌∷◌, map, reverse, arith, keep, Bool-cases, Option-cases, List-cases,
}
use secure_api.Models.{Db, User, MlModelState, Table}
use secure_api.Session.{err, ok, http, crash, Request, run, one_or_none-cases}
use secure_api.Session.Query.{
  first, select, update_rows, update_where, keep-update_where, keep-update_where-All, keep-one,
}
use secure_api.Session.Keys.{Keyed, keep-key, update_rows-Keyed}
use secure_api.Session.Deletion.{order_by, order_by-Ascending, Ascending-keep}
use secure_api.MlModels.{
  Serializer, of_org, deactivate_all, activate_model_version, load_model, verify_blob,
  decode_model_row,
}
use secure_api.MlModels.Versions.{version_id, inactive, keep-not-update_where, load_model_found}

abbrev pub activated : MlModelState → MlModelState
activated r = record r { is_active = true }

-- of an organization's versions, only those that the update selects are active afterwards
keep-activated :
    (org_id k : ℕ) (xs : List MlModelState)
    → keep
        (λ r. of_org org_id r && r.is_active)
        (update_where (λ r. r.id == k) activated (update_where (of_org org_id) inactive xs))
      ≡ map activated (keep (λ r. r.id == k && of_org org_id r) xs)
unfolding update_where
keep-activated org_id k [] = refl
keep-activated org_id k (x ∷ xs) = elim (Bool-cases (x.id == k)) [
  | inl hit ↦ elim (Bool-cases (of_org org_id x)) [
    | inl own ↦ rw (own, hit, own) (ap (λ t. activated x ∷ t) (keep-activated org_id k xs))
    | inr other ↦ rw (other, hit, other) (keep-activated org_id k xs)
  ]
  | inr miss ↦ elim (Bool-cases (of_org org_id x)) [
    | inl own ↦ rw (own, miss, own) (keep-activated org_id k xs)
    | inr other ↦ rw (other, miss, other) (keep-activated org_id k xs)
  ]
]

module _ {A : Type 0} (z : Serializer A) (now : ℕ) (request : Request) (current_user : User)
    (org_id model_id : ℕ) (db : Db) (keyed : Keyed version_id db.ml_models) where
  abbrev pub asked : MlModelState → Bool
  asked r = r.id == model_id && of_org org_id r

  abbrev after : MlModelState → Table MlModelState
  after target =
      update_rows (λ r. r.id == target.id) activated (deactivate_all z org_id db).ml_models

  module _ (target : MlModelState) (found : select asked db.ml_models ≡ target ∷ []) where
    target-id : target.id ≡ model_id
    target-id =
        let hit = keep-one asked db.ml_models.rows found in ==→eq target.id model_id (ground arith)

    target-own : of_org org_id target ≡ true
    target-own = let hit = keep-one asked db.ml_models.rows found in ground arith

    active-after :
        select (λ r. of_org org_id r && r.is_active) (after target) ≡ activated target ∷ []
    active-after =
        keep-activated org_id target.id db.ml_models.rows
        ∙ ap (λ k. map activated (keep (λ r. r.id == k && of_org org_id r) db.ml_models.rows))
            target-id
        ∙ ap (map activated) found

    others-after :
        keep (λ r. not (of_org org_id r)) (after target).rows
        ≡ keep (λ r. not (of_org org_id r)) db.ml_models.rows
    unfolding update_where
    others-after =
        let own = target-own in
        let same : keep (λ r. r.id == target.id)
              (update_where (of_org org_id) inactive db.ml_models.rows)
            ≡ update_where (of_org org_id) inactive (target ∷ []) =
          keep-update_where (λ r. r.id == target.id) (of_org org_id) inactive db.ml_models.rows
            (λ r. refl)
          ∙ ap (update_where (of_org org_id) inactive)
              (keep-key version_id asked db.ml_models.rows keyed.1 found) in
        keep-update_where-All (λ r. not (of_org org_id r)) (λ r. r.id == target.id) activated
          (update_where (of_org org_id) inactive db.ml_models.rows) (rw same (ground (arith, own)))
        ∙ keep-not-update_where (of_org org_id) inactive db.ml_models.rows (λ r. refl)

    after-Keyed : Keyed version_id (after target)
    after-Keyed =
        update_rows-Keyed version_id (λ r. r.id == target.id) activated
          (deactivate_all z org_id db).ml_models (λ r. refl)
          (update_rows-Keyed version_id (of_org org_id) inactive db.ml_models (λ r. refl) keyed)

  -- a row that decodes has a blob
  blob_of_decoded :
      (row : MlModelState) (model : A)
      → decode_model_row z row ≡ some model
      → teq row.blob [] ≡ false
  unfolding decode_model_row verify_blob teq
  blob_of_decoded row model h = elim (List-cases row.blob) [
    | inl empty ↦ absurd (ground (arith, rw (decode_model_row, empty) at h))
    | inr (ch, rest, e) ↦ rw e refl
  ]

  load-after :
      (target : MlModelState) (model : A)
      → select asked db.ml_models ≡ target ∷ []
      → decode_model_row z target ≡ some model
      → (db' : Db) → db'.ml_models ≡ after target
      → load_model z org_id db' ≡ some model
  unfolding decode_model_row
  load-after target model found decoded db' same =
      let active : MlModelState → Bool = λ r. of_org org_id r && r.is_active in
      let ordered =
        order_by-Ascending version_id (select active (after target))
          (Ascending-keep version_id active (after target).rows (after-Keyed target found).1) in
      let blob = blob_of_decoded target model decoded in
      load_model_found z org_id db' (activated target) (
        ap (λ t. first (reverse (order_by version_id (select active t)))) same
        ∙ ap (λ t. first (reverse t)) (ordered ∙ active-after target found))
      ∙ rw blob decoded

  -- In a table whose rows stand in the order of their keys, activating a version either refuses
  -- and leaves the database as it was, or activates the version that was asked for, which is of the
  -- organization and passes verification: it is then the only active one there, loading gives the
  -- model it decodes to, and the versions of all other organizations are as they were.
  pub activate_model_version_lem :
      let out = run (activate_model_version z now request current_user org_id model_id) db in
      (((out.response ≡ err (http 404 "Model version not found"))
          ⊎ (out.response
              ≡ err (http 422 "This model version failed verification and cannot be activated"))
          ⊎ (out.response ≡ err crash))
        × (out.db ≡ db))
      ⊎ ((target : MlModelState) × (model : A) × (out.response ≡ ok tt)
          × (select asked db.ml_models ≡ target ∷ [])
          × (select (λ r. of_org org_id r && r.is_active) out.db.ml_models ≡ activated target ∷ [])
          × (decode_model_row z target ≡ some model)
          × (load_model z org_id out.db ≡ some model)
          × (keep (λ r. not (of_org org_id r)) out.db.ml_models.rows
              ≡ keep (λ r. not (of_org org_id r)) db.ml_models.rows))
  unfolding activate_model_version
  activate_model_version_lem = elim (one_or_none-cases (select asked db.ml_models)) [
    | inl nobody ↦ inl (inl (rw nobody refl), rw (run, nobody) refl)
    | inr (inr many) ↦ inl (inr (inr (rw many refl)), rw (run, many) refl)
    | inr (inl (target, found)) ↦ elim (Option-cases (decode_model_row z target)) [
      | inl broken ↦ inl (inr (inl (rw (found, broken) refl)), rw (run, found, broken) refl)
      | inr (model, decoded) ↦
          let same : (run (activate_model_version z now request current_user org_id model_id)
                db).db.ml_models
              ≡ after target =
            rw (run, found, decoded) refl in
          inr (
            target,
            model,
            rw (found, decoded) refl,
            found,
            ap (select (λ r. of_org org_id r && r.is_active)) same ∙ active-after target found,
            decoded,
            load-after target model found decoded
                (run (activate_model_version z now request current_user org_id model_id) db).db
                same,
            ap (λ t. keep (λ r. not (of_org org_id r)) t.rows) same ∙ others-after target found,
          )
    ]
  ]
