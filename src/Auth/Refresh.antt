-- ===== src/Auth/Refresh.antt =====
-- app/routers/auth.py: refresh, logout and issue_stream_ticket.
pub mod Rotation
use secure_api.Prelude.{
  ℕ, zero, suc, String, Text, Bool, true, false, not, ◌&&◌, Option, none, some, List, [], ◌∷◌, ltb,
  leb, length, ◌==◌, str_eq, decimal_string, if◌then◌else◌,
}
use secure_api.Models.{User, RefreshToken, Db, Target, named}
use secure_api.Session.{
  Error, http, M, Request, pure, raise, gets, lift, modify, commit, require, log_audit_event,
  one_or_none, one, ◌>>=◌, ◌>>◌,
}
use secure_api.Session.Query.{select, update_rows, update_where}
use secure_api.Security.{
  Crypto, Settings, Claims, hash_token, create_access_token, create_refresh_token,
  create_stream_ticket,
}
use secure_api.Auth.Base.{AuthOut, build_auth_out, active_named, add_refresh_token}

-- RefreshToken.token == token_hash
abbrev pub has_token : String → RefreshToken → Bool
has_token token_hash row = str_eq row.token token_hash

abbrev pub is_live : String → RefreshToken → Bool
is_live token_hash row = has_token token_hash row && not row.revoked

abbrev pub is_live_of : ℕ → RefreshToken → Bool
is_live_of user_id row = row.user_id == user_id && not row.revoked

abbrev pub revoke : RefreshToken → RefreshToken
revoke row = record row { revoked = true }

-- .update({"revoked": True}) on the rows of the filter
abbrev pub revoke_where : (RefreshToken → Bool) → Db → Db
revoke_where p db = record db { refresh_tokens = update_rows p revoke db.refresh_tokens }

-- app/routers/auth.py, _revoke_refresh_tokens
abbrev pub revoke_refresh_tokens : ℕ → Db → Db
revoke_refresh_tokens user_id = revoke_where (is_live_of user_id)

abbrev pub invalid_refresh_token : Error
invalid_refresh_token = http 401 "Invalid refresh token"

-- decode_token, with every exception answered by the 401
abbrev or_invalid : Option Claims → M Claims
or_invalid none = raise invalid_refresh_token
or_invalid (some payload) = pure payload

abbrev or_not_found : Option User → M User
or_not_found none = raise (http 401 "User not found")
or_not_found (some user) = pure user

module _ (c : Crypto) (cfg : Settings) (now : ℕ) (request : Request) where
  -- a rotated token came back: the owner's whole chain is revoked
  replay : Option RefreshToken → M AuthOut
  replay none = do commit; raise invalid_refresh_token
  replay (some replayed) = do
    modify (revoke_refresh_tokens replayed.user_id)
    commit
    log_audit_event now request "refresh_token_reuse" (decimal_string replayed.user_id)
        (some (named "auth/refresh")) false []
    raise invalid_refresh_token

  rotate : Text → String → M AuthOut
  rotate token nonce = do
    commit
    rows ← gets (λ db. select (has_token (hash_token c token)) db.refresh_tokens)
    row ← lift (one rows)
    require (ltb now row.expires_at) invalid_refresh_token
    payload ← or_invalid (c.jwt_decode now token)
    require (str_eq payload.kind "refresh") invalid_refresh_token
    users ← gets (λ db. select (active_named payload.sub) db.users)
    found ← lift (one_or_none users)
    user ← or_not_found found
    let access = create_access_token c cfg now user.username
    let new_refresh = create_refresh_token c cfg now user.username nonce
    modify (add_refresh_token now user.id (hash_token c new_refresh.0) new_refresh.1)
    commit
    log_audit_event now request "token_refresh" user.username (some (named "auth/refresh")) true []
    pure (build_auth_out now user access new_refresh.0)

  -- The update comes first and counts its rows: of two requests with one token, the second counts
  -- none.
  unfoldable pub refresh : Text → String → M AuthOut
  unfolding replay rotate
  refresh token nonce = do
    let token_hash = hash_token c token
    live ← gets (λ db. select (is_live token_hash) db.refresh_tokens)
    modify (revoke_where (is_live token_hash))
    if length live == 0
        then (do
          rows ← gets (λ db. select (has_token token_hash) db.refresh_tokens)
          replayed ← lift (one_or_none rows)
          replay replayed)
        else rotate token nonce

-- a token that is unknown is no error
abbrev revoke_found : Option RefreshToken → M (Unit {0})
revoke_found none = pure tt
revoke_found (some row) = do modify (revoke_where (λ r. r.id == row.id)); commit

unfoldable pub logout : Crypto → Text → M (Unit {0})
logout c token = do
  rows ← gets (λ db. select (has_token (hash_token c token)) db.refresh_tokens)
  row ← lift (one_or_none rows)
  revoke_found row

-- the caller and the organization come from the dependencies of the route
unfoldable pub issue_stream_ticket : Crypto → Settings → ℕ → User → ℕ → Text × ℕ
issue_stream_ticket c cfg now current_user org_id =
    create_stream_ticket c cfg now current_user.username org_id
