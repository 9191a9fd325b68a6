-- ===== src/Auth/ApiKeys.antt =====
-- app/routers/auth.py: per-integration API keys. The organization is that of the route's context.
use secure_api.Prelude.{ℕ, ◌==◌, String, Text, Bool, true, false, ◌&&◌, Option, none, some, [], ◌∷◌}
use secure_api.Models.{User, ApiKey, api_key_target, text}
use secure_api.Session.{
  http, M, Request, pure, raise, gets, lift, modify, commit, log_audit_event, one_or_none, ◌>>=◌,
  ◌>>◌,
}
use secure_api.Session.Query.{select, insert_row, update_rows}
use secure_api.Security.{Crypto, hash_token, generate_api_key, api_key_display_prefix}

-- app/schemas.py, ApiKeyCreateIn
pub record ApiKeyCreateIn : Type 0 where
  pub name : String
  pub role : String

-- app/schemas.py, ApiKeyCreatedOut
pub record ApiKeyCreatedOut : Type 0 where
  pub id : ℕ
  pub name : String
  pub role : String
  pub key_prefix : Text
  pub api_key : Text

abbrev pub in_org : ℕ → ℕ → ApiKey → Bool
in_org key_id org_id k = k.id == key_id && k.org_id == org_id

abbrev or_missing : Option ApiKey → M ApiKey
or_missing none = raise (http 404 "API key not found")
or_missing (some row) = pure row

module _ (now : ℕ) (request : Request) where
  unfoldable pub create_api_key :
      Crypto → (random : Text) → User → (org_id : ℕ) → ApiKeyCreateIn → M ApiKeyCreatedOut
  create_api_key c random admin org_id body = do
    let raw_key = generate_api_key random
    id ← gets (λ db. db.api_keys.next_id)
    modify (λ db. record db {
      api_keys =
          insert_row
            (λ key_id. record {
              id = key_id;
              org_id = org_id;
              name = body.name;
              key_hash = hash_token c raw_key;
              key_prefix = api_key_display_prefix raw_key;
              role = body.role;
              created_by = admin.id;
              created_at = now;
              last_used_at = none;
              revoked = false;
              revoked_at = none;
            })
            db.api_keys;
    })
    commit
    log_audit_event now request "api_key_created" admin.username (some (api_key_target id)) true
        (("name", text body.name) ∷ ("role", text body.role) ∷ [])
    pure (record {
      id = id;
      name = body.name;
      role = body.role;
      key_prefix = api_key_display_prefix raw_key;
      api_key = raw_key;
    })

  unfoldable pub revoke_api_key : User → (org_id : ℕ) → ℕ → M (Unit {0})
  revoke_api_key admin org_id key_id = do
    rows ← gets (λ db. select (in_org key_id org_id) db.api_keys)
    found ← lift (one_or_none rows)
    row ← or_missing found
    modify (λ db. record db {
      api_keys =
          update_rows (λ k. k.id == row.id)
            (λ k. record k { revoked = true; revoked_at = some now }) db.api_keys;
    })
    commit
    log_audit_event now request "api_key_revoked" admin.username (some (api_key_target row.id)) true
        (("name", text row.name) ∷ [])
    pure tt
