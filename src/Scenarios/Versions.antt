-- ===== src/Scenarios/Versions.antt =====
-- The theorems on the versions of a model, applied: payloads are short, and a digest repeats a
-- number.
use secure_api.Prelude.{
  ℕ, zero, suc, ◌==◌, ◌<◌, ◌≤◌, ◌≡◌, ◌↔◌, ◌⊎◌, refl, Text, codes, not, ◌&&◌, Option, none, some, [],
  ◌∷◌, arith, length, keep,
}
use secure_api.Models.{Db, MlModelState}
use secure_api.Session.{run, err, ok, http, crash}
use secure_api.Session.Query.{select}
use secure_api.Session.Keys.{Keyed}
use secure_api.MlModels.{
  Serializer, sign_blob, verify_blob, new_version, save_model, load_model, activate_model_version,
  of_org, decode_model_row,
}
use secure_api.MlModels.Blobs.{verify_blob_iff}
use secure_api.MlModels.Versions.{version_id, save_model_lem, load_model-save_model}
use secure_api.MlModels.Activation.{activated, activate_model_version_lem}
use secure_api.Scenarios.{db, request, alice}

repeated : ℕ → ℕ → Text
repeated zero value = []
repeated (suc n) value = value ∷ repeated n value

repeated-length : (n value : ℕ) → length (repeated n value) ≡ n
unfolding repeated
repeated-length zero value = refl
repeated-length (suc n) value = omega (arith, repeated-length n value)

head_or : Text → Option ℕ
head_or [] = none
head_or (ch ∷ rest) = some ch

-- a model is a number
abbrev serializer : Serializer ℕ
serializer = record {
  digest = λ payload. repeated 32 (length payload);
  dump = λ model. model ∷ [];
  sample_count = λ model. 100;
  loads = head_or;
  skl_version = codes "1.5.0";
}

verify_blob_iff_example :
    (verify_blob serializer (sign_blob serializer (7 ∷ [])) ≡ some (7 ∷ [])) ↔ (
      (sign_blob serializer (7 ∷ []) ≡ sign_blob serializer (7 ∷ []))
      × (0 < length {A = ℕ} (7 ∷ [])))
verify_blob_iff_example =
    verify_blob_iff serializer (λ payload. repeated-length 32 (length payload))
      (sign_blob serializer (7 ∷ [])) (7 ∷ [])

-- the database with one version
abbrev trained : Db
trained = record db {
  ml_models = record { rows = new_version serializer 5 1 7 1 ∷ []; next_id = 2 };
}

trained-Keyed : Keyed version_id trained.ml_models
trained-Keyed = ((ground arith, tt), (tt, tt))

save_model_lem_example :
    let t = (run (save_model serializer 9 1 8) trained).db.ml_models in
    (select (λ r. of_org 1 r && r.is_active) t ≡ new_version serializer 9 1 8 2 ∷ [])
    × (length (select (of_org 1) t) ≤ 5)
    × (keep (λ r. not (of_org 1 r)) t.rows ≡ keep (λ r. not (of_org 1 r)) trained.ml_models.rows)
    × Keyed version_id t
save_model_lem_example = save_model_lem serializer 9 1 8 trained trained-Keyed

load_model-save_model_example :
    load_model serializer 1 (run (save_model serializer 9 1 8) trained).db ≡ some 8
unfolding head_or
load_model-save_model_example =
    load_model-save_model serializer 9 1 8 trained trained-Keyed
      (λ payload. repeated-length 32 (length payload)) (ground arith) refl

activate_model_version_lem_example :
    let out = run (activate_model_version serializer 9 request alice 1 1) trained in
    (((out.response ≡ err (http 404 "Model version not found"))
        ⊎ (out.response
            ≡ err (http 422 "This model version failed verification and cannot be activated"))
        ⊎ (out.response ≡ err crash))
      × (out.db ≡ trained))
    ⊎ ((target : MlModelState) × (model : ℕ) × (out.response ≡ ok tt)
        × (select (λ r. r.id == 1 && of_org 1 r) trained.ml_models ≡ target ∷ [])
        × (select (λ r. of_org 1 r && r.is_active) out.db.ml_models ≡ activated target ∷ [])
        × (decode_model_row serializer target ≡ some model)
        × (load_model serializer 1 out.db ≡ some model)
        × (keep (λ r. not (of_org 1 r)) out.db.ml_models.rows
            ≡ keep (λ r. not (of_org 1 r)) trained.ml_models.rows))
activate_model_version_lem_example =
    activate_model_version_lem serializer 9 request alice 1 1 trained trained-Keyed
