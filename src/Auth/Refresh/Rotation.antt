-- ===== src/Auth/Refresh/Rotation.antt =====
-- Rotation: a refresh token serves once, and its second use revokes the owner's sessions.
use secure_api.Prelude.{
  ℕ, ◌<◌, ◌≡◌, ◌≢◌, refl, ◌∙◌, inl, inr, String, Text, false, some, List, [], ◌∷◌, ◌++◌, arith,
  keep, keep-append, eq_iff, Option-cases, length, ◌==◌, str_eq, if◌then◌else◌,
}
use secure_api.Models.{User, RefreshToken, Db}
use secure_api.Session.{Request, run, ok, err, one_or_none-cases}
use secure_api.Session.Query.{select, update_where, keep-update_where, keep-update_where_nil}
use secure_api.Security.{Crypto, Settings, Claims, hash_token, create_refresh_token}
use secure_api.Auth.Base.{AuthOut, active_named}
use secure_api.Auth.Refresh.{has_token, is_live, is_live_of, revoke, invalid_refresh_token, refresh}

abbrev pub sessions_of : ℕ → Db → List RefreshToken
sessions_of user_id db = select (is_live_of user_id) db.refresh_tokens

module _ (c : Crypto) (cfg : Settings) (now : ℕ) (request : Request) (token : Text) (nonce : String)
    (db : Db) where
  abbrev pub live : List RefreshToken
  live = select (is_live (hash_token c token)) db.refresh_tokens

  abbrev pub stored : List RefreshToken
  stored = select (has_token (hash_token c token)) db.refresh_tokens

  abbrev pub stored_after : List RefreshToken
  stored_after =
      keep (has_token (hash_token c token))
        (update_where (is_live (hash_token c token)) revoke db.refresh_tokens.rows)

  -- A token that is stored and no longer live is refused with a 401, and every live session of the user that it
  -- was issued to is revoked.
  pub refresh-replay :
      (row : RefreshToken)
      → live ≡ []
      → stored ≡ row ∷ []
      → ((run (refresh c cfg now request token nonce) db).response ≡ err invalid_refresh_token)
        × (sessions_of row.user_id (run (refresh c cfg now request token nonce) db).db ≡ [])
  unfolding refresh
  refresh-replay row spent found =
      let h = hash_token c token in
      let updated = update_where (is_live h) revoke db.refresh_tokens.rows in
      let again : keep (has_token h) updated ≡ (if is_live h row then revoke row else row) ∷ [] =
        keep-update_where (has_token h) (is_live h) revoke db.refresh_tokens.rows (λ x. refl)
        ∙ (unfold update_where in rw found) in
      let emptied =
        keep-update_where_nil (is_live_of row.user_id) revoke updated (λ x. ground arith) in
      ground (arith, again, emptied)

  -- What a success of the second half has found on its way.
  pub record Rotated : Type 0 where
    pub row : RefreshToken
    pub user : User
    pub payload : Claims
    pub unique : stored_after ≡ row ∷ []
    pub was_live : live ≢ []
    pub fresh : now < row.expires_at
    pub decoded : c.jwt_decode now token ≡ some payload
    pub typed : payload.kind ≡ "refresh"
    pub active : select (active_named payload.sub) db.users ≡ user ∷ []

  module _ (out : AuthOut)
      (h : (run (refresh c cfg now request token nonce) db).response ≡ ok out) where
    refresh-ok_user :
        (row : RefreshToken) (payload : Claims)
        → length live == 0 ≡ false
        → stored_after ≡ row ∷ []
        → c.jwt_decode now token ≡ some payload
        → Rotated
    unfolding refresh
    refresh-ok_user row payload busy found decoded =
        elim (one_or_none-cases (select (active_named payload.sub) db.users)) [
          | inl nobody ↦ absurd (ground arith)
          | inr (inl (user, active)) ↦ record {
            row = row;
            user = user;
            payload = payload;
            unique = found;
            was_live = ground arith;
            fresh = ground arith;
            decoded = decoded;
            typed = ground (arith, eq_iff payload.kind "refresh");
            active = active;
          }
          | inr (inr many) ↦ absurd (ground arith)
        ]

    refresh-ok_row :
        (row : RefreshToken) → length live == 0 ≡ false → stored_after ≡ row ∷ [] → Rotated
    unfolding refresh
    refresh-ok_row row busy found = elim (Option-cases (c.jwt_decode now token)) [
      | inl refused ↦ absurd (ground arith)
      | inr (payload, decoded) ↦ refresh-ok_user row payload busy found decoded
    ]

    refresh-ok_live : length live == 0 ≡ false
    unfolding refresh
    refresh-ok_live = elim (one_or_none-cases stored_after) [
      | inl nobody ↦ ground arith
      | inr (inl (row, found)) ↦ ground arith
      | inr (inr many) ↦ ground arith
    ]

    -- Tokens come only for a refresh token that is stored once, was live, has not expired, decodes
    -- to claims of the type "refresh", and names one active user.
    pub refresh-ok : Rotated
    unfolding refresh
    refresh-ok = elim (one_or_none-cases stored_after) [
      | inl nobody ↦ let busy = refresh-ok_live in absurd (ground arith)
      | inr (inl (row, found)) ↦ refresh-ok_row row refresh-ok_live found
      | inr (inr many) ↦ let busy = refresh-ok_live in absurd (ground arith)
    ]

    -- the rows of a success: the old ones with the token revoked, and the new one
    rotated_rows :
        (new : RefreshToken) × ((run
            (refresh c cfg now request token nonce)
            db).db.refresh_tokens.rows
          ≡ update_where (is_live (hash_token c token)) revoke db.refresh_tokens.rows ++ new ∷ [])
        × (new.token ≡ hash_token c out.refresh_token)
    unfolding refresh
    rotated_rows =
        let r = refresh-ok in
        let typed = (eq_iff r.payload.kind "refresh").1 r.typed in
        let busy = refresh-ok_live in
        let issued = create_refresh_token c cfg now r.user.username nonce in
        (
          record {
            id = db.refresh_tokens.next_id;
            user_id = r.user.id;
            token = hash_token c issued.0;
            expires_at = issued.1;
            revoked = false;
            created_at = now;
          },
          ground (arith, busy, r.unique, r.fresh, r.decoded, typed, r.active),
          ground (arith, busy, r.unique, r.fresh, r.decoded, typed, r.active),
        )

module _ (c : Crypto) (cfg : Settings) (now later : ℕ) (request request' : Request) (token : Text)
    (nonce nonce' : String) (db : Db) where
  -- A refresh token serves once: after a success, unless the digest of the new token is that of the
  -- old one, the same token is refused at any later time, and the second use revokes every live
  -- session of the user that it was issued to.
  pub refresh_once :
      (out : AuthOut)
      → (run (refresh c cfg now request token nonce) db).response ≡ ok out
      → hash_token c out.refresh_token ≢ hash_token c token
      → let db' = (run (refresh c cfg now request token nonce) db).db in
        let second = run (refresh c cfg later request' token nonce') db' in
        (second.response ≡ err invalid_refresh_token)
        × ((row : RefreshToken) × (stored c cfg now request token nonce db' ≡ row ∷ [])
            × (sessions_of row.user_id second.db ≡ []))
  refresh_once out h other =
      let h' = hash_token c token in
      let r = refresh-ok c cfg now request token nonce db out h in
      let (new, rows, digest) = rotated_rows c cfg now request token nonce db out h in
      let old = update_where (is_live h') revoke db.refresh_tokens.rows in
      let not_new : str_eq new.token h' ≡ false = ground (arith, eq_iff new.token h') in
      let spent : keep (is_live h') (old ++ new ∷ []) ≡ [] =
        keep-append (is_live h') old (new ∷ [])
        ∙ (rw (
          keep-update_where_nil (is_live h') revoke db.refresh_tokens.rows (λ x. ground arith),
          not_new,
        )) in
      let found : keep (has_token h') (old ++ new ∷ []) ≡ r.row ∷ [] =
        keep-append (has_token h') old (new ∷ []) ∙ (rw (r.unique, not_new)) in
      let (refused, emptied) =
        refresh-replay c cfg later request' token nonce'
          (run (refresh c cfg now request token nonce) db).db r.row (rw rows spent)
          (rw rows found) in
      (refused, (r.row, rw rows found, emptied))
