-- ===== src/MlModels.antt =====
-- app/services/ml_anomaly.py and app/routers/ml_models.py: the versions of an organization's
-- anomaly model. HMAC-SHA256 under SECRET_KEY, pickle and sklearn's version are parameters.
pub mod Blobs
pub mod Versions
pub mod Activation
use secure_api.Prelude.{
  ℕ, ◌+◌, ◌==◌, Text, codes, teq, Bool, true, false, not, ◌&&◌, ◌||◌, Option, none, some, List, [],
  ◌∷◌, ◌++◌, map, reverse, leb, length, take, drop, if◌then◌else◌,
}
use secure_api.Models.{User, Db, MlModelState, ml_model_target}
use secure_api.Session.{
  http, M, Request, pure, raise, gets, lift, modify, commit, log_audit_event, one_or_none, ◌>>=◌,
  ◌>>◌,
}
use secure_api.Session.Query.{first, select, insert_row, update_rows}
use secure_api.Session.Deletion.{order_by, delete_in}
use secure_api.Pathutil.{split_on}

-- Bytes are numbers. `dump` gives the sample count of the model besides its pickle; `loads` gives
-- nothing where unpickling raises.
pub record Serializer (A : Type 0) : Type 0 where
  pub digest : Text → Text
  pub dump : A → Text
  pub sample_count : A → ℕ
  pub loads : Text → Option A
  pub skl_version : Text

-- _BLOB_MAGIC, _HMAC_LEN
abbrev pub blob_magic : Text
blob_magic = codes "APMV1"

abbrev pub header_len : ℕ
header_len = length blob_magic + 32

-- MAX_MODEL_VERSIONS
abbrev pub max_model_versions : ℕ
max_model_versions = 5

-- version.split(".")[0]
abbrev first_part : List Text → Text
first_part [] = []
first_part (part ∷ parts) = part

unfoldable pub major : Text → Text
unfolding split_on
major version = first_part (split_on b'.' version)

abbrev pub or_missing : Option MlModelState → M MlModelState
or_missing none = raise (http 404 "Model version not found")
or_missing (some row) = pure row

abbrev pub of_org : ℕ → MlModelState → Bool
of_org org_id row = row.org_id == org_id

module _ {A : Type 0} (z : Serializer A) where
  unfoldable pub sign_blob : Text → Text
  sign_blob payload = blob_magic ++ z.digest payload ++ payload

  -- the early returns in their order; compare_digest is equality
  unfoldable pub verify_blob : Text → Option Text
  verify_blob blob =
      let expected = drop (length blob_magic) (take header_len blob) in
      let payload = drop header_len blob in
      if leb (length blob) header_len
      then none
      else if not (teq (take (length blob_magic) blob) blob_magic)
      then none
      else if not (teq expected (z.digest payload))
      then none
      else some payload

  -- if row.sklearn_version and another major version: refused
  unfoldable pub wrong_version : MlModelState → Bool
  unfolding major
  wrong_version row =
      not (teq row.sklearn_version [])
      && not (teq (major row.sklearn_version) (major z.skl_version))

  unfoldable pub decode_model_row : MlModelState → Option A
  unfolding verify_blob wrong_version
  decode_model_row row = elim (verify_blob row.blob) [
    | none ↦ none
    | some payload ↦ if wrong_version row then none else z.loads payload
  ]

  -- the newest first
  unfoldable pub load_model : ℕ → Db → Option A
  unfolding order_by decode_model_row
  load_model org_id db =
      elim (first (
        reverse
          (order_by (λ r. r.id) (select (λ r. of_org org_id r && r.is_active) db.ml_models)))) [
            | none ↦ none
            | some row ↦ if teq row.blob [] then none else decode_model_row row
          ]

  abbrev pub deactivate_all : ℕ → Db → Db
  deactivate_all org_id db = record db {
    ml_models = update_rows (of_org org_id) (λ r. record r { is_active = false }) db.ml_models;
  }

  abbrev pub new_version : ℕ → ℕ → A → ℕ → MlModelState
  new_version now org_id model id = record {
    id = id;
    org_id = org_id;
    updated_at = now;
    sklearn_version = z.skl_version;
    blob = sign_blob (z.dump model);
    is_active = true;
    sample_count = z.sample_count model;
  }

  -- ids[keep:] of the ids in descending order
  unfoldable pub prune_old_versions : ℕ → ℕ → Db → Db
  unfolding order_by delete_in
  prune_old_versions org_id kept db =
      let ids =
        map (λ r. r.id) (reverse (order_by (λ r. r.id) (select (of_org org_id) db.ml_models))) in
      record db {
        ml_models = record db.ml_models {
          rows = delete_in (λ r. r.id) (drop kept ids) db.ml_models.rows;
        };
      }

  unfoldable pub save_model : (now : ℕ) → (org_id : ℕ) → A → M (Unit {0})
  save_model now org_id model = do
    modify (deactivate_all org_id)
    modify (λ db. record db { ml_models = insert_row (new_version now org_id model) db.ml_models })
    modify (prune_old_versions org_id max_model_versions)
    commit

  abbrev check_decodes : Option A → M (Unit {0})
  check_decodes none =
      raise (http 422 "This model version failed verification and cannot be activated")
  check_decodes (some model) = pure tt

  -- in the organization of the route's context
  unfoldable pub activate_model_version :
      (now : ℕ) → Request → User → (org_id model_id : ℕ) → M (Unit {0})
  activate_model_version now request current_user org_id model_id = do
    rows ← gets (λ db. select (λ r. r.id == model_id && of_org org_id r) db.ml_models)
    found ← lift (one_or_none rows)
    target ← or_missing found
    check_decodes (decode_model_row target)
    modify (deactivate_all org_id)
    modify (λ db. record db {
      ml_models =
          update_rows (λ r. r.id == target.id) (λ r. record r { is_active = true }) db.ml_models;
    })
    commit
    log_audit_event now request "ml_model_activated" current_user.username
        (some (ml_model_target model_id)) true []
    pure tt
