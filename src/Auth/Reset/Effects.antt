-- ===== src/Auth/Reset/Effects.antt =====
-- What a confirmed reset changes, and that its token serves once.
use secure_api.Prelude.{
  ℕ, ◌<◌, ◌≡◌, ◌∙◌, refl, inl, inr, String, Text, ◌&&◌, none, List, [], ◌∷◌, arith, ◌==◌, ==_refl,
}
use secure_api.Models.{User, PasswordResetToken, Db}
use secure_api.Session.{Request, run, ok, err, one_or_none-cases}
use secure_api.Session.Query.{
  select, update_where, keep-update_where, keep-update_where_nil, keep-update_where_out,
}
use secure_api.Security.{Crypto, Settings, hash_token}
use secure_api.Security.Passwords.{validate_password_strength}
use secure_api.Auth.Base.{has_id}
use secure_api.Auth.Refresh.{is_live_of, revoke}
use secure_api.Auth.Reset.{
  invalid_reset_token, is_open, is_open_of, use_up, with_new_password, confirm_password_reset,
}

module _ (c : Crypto) (cfg : Settings) (now : ℕ) (request : Request) (token new_password : Text)
    (salt : String) (db : Db) where
  abbrev pub open_rows : List PasswordResetToken
  open_rows = select (is_open (hash_token c token)) db.reset_tokens

  abbrev pub owners : ℕ → List User
  owners user_id = select (λ u. has_id user_id u && u.is_active) db.users

  -- What a confirmation has found.
  pub record Confirmed : Type 0 where
    pub row : PasswordResetToken
    pub user : User
    pub found : open_rows ≡ row ∷ []
    pub fresh : now < row.expires_at
    pub active : owners row.user_id ≡ user ∷ []
    pub strong : validate_password_strength c new_password ≡ none

  module _
      (h : (run (confirm_password_reset c cfg now request token new_password salt) db).response
        ≡ ok tt) where
    confirm_ok_user : (row : PasswordResetToken) → open_rows ≡ row ∷ [] → Confirmed
    unfolding confirm_password_reset
    confirm_ok_user row found = elim (one_or_none-cases (owners row.user_id)) [
      | inl nobody ↦ absurd (ground arith)
      | inr (inl (user, active)) ↦ record {
        row = row;
        user = user;
        found = found;
        fresh = ground arith;
        active = active;
        strong = ground arith;
      }
      | inr (inr many) ↦ absurd (ground arith)
    ]

    -- A confirmation succeeds only with a stored, unused, unexpired token of an active user and a
    -- password that the policy accepts.
    pub confirm_password_reset-sound : Confirmed
    unfolding confirm_password_reset
    confirm_password_reset-sound = elim (one_or_none-cases open_rows) [
      | inl nobody ↦ absurd (ground arith)
      | inr (inl (row, found)) ↦ confirm_ok_user row found
      | inr (inr many) ↦ absurd (ground arith)
    ]

    tables_of_success :
        let r = confirm_password_reset-sound in
        let db' = (run (confirm_password_reset c cfg now request token new_password salt) db).db in
        (db'.users.rows
          ≡ update_where
              (has_id r.user.id)
              (with_new_password (c.hashpw salt new_password))
              db.users.rows)
        × (db'.reset_tokens.rows
            ≡ update_where
                (is_open_of r.user.id)
                use_up
                (update_where (λ t. t.id == r.row.id) use_up db.reset_tokens.rows))
        × (db'.refresh_tokens.rows
            ≡ update_where (is_live_of r.user.id) revoke db.refresh_tokens.rows)
    unfolding confirm_password_reset
    tables_of_success =
        let r = confirm_password_reset-sound in ground (arith, r.found, r.fresh, r.active, r.strong)

    -- The open tokens of the token's digest, after a success: none.
    spent_token :
        select
          (is_open (hash_token c token))
          (run
            (confirm_password_reset c cfg now request token new_password salt)
            db).db.reset_tokens
        ≡ []
    spent_token =
        let r = confirm_password_reset-sound in
        let h' = hash_token c token in
        let by_row = λ (t : PasswordResetToken). t.id == r.row.id in
        let once = update_where by_row use_up db.reset_tokens.rows in
        rw (tables_of_success.1) (
          keep-update_where_out (is_open h') (is_open_of r.user.id) use_up once (λ x. ground arith)
          ∙ (rw (
            keep-update_where_out (is_open h') by_row use_up db.reset_tokens.rows
                (λ x. ground arith),
            r.found,
            ==_refl,
          )))

    -- After a confirmed reset the user has the new password and no lockout, no live session and no
    -- open reset token, and a second confirmation with the same token is refused, at any time and
    -- with any password.
    pub confirm_password_reset-once :
        (later : ℕ) (request' : Request) (other_password : Text) (salt' : String)
        → let db' =
            (run (confirm_password_reset c cfg now request token new_password salt) db).db in
          (r : Confirmed) × (select (λ u. has_id r.row.user_id u && u.is_active) db'.users
            ≡ (record r.user {
              password_hash = c.hashpw salt new_password;
              failed_login_count = 0;
              locked_until = none;
            })
              ∷ [])
          × (select (is_live_of r.user.id) db'.refresh_tokens ≡ [])
          × (select (is_open_of r.user.id) db'.reset_tokens ≡ [])
          × ((run
                (confirm_password_reset c cfg later request' token other_password salt')
                db').response
              ≡ err invalid_reset_token)
    unfolding confirm_password_reset
    confirm_password_reset-once later request' other_password salt' =
        let r = confirm_password_reset-sound in
        let (users, resets, sessions) = tables_of_success in
        (
          r,
          rw users (
              keep-update_where _ (has_id r.user.id) _ db.users.rows (λ x. refl)
              ∙ (rw r.active (unfold update_where in rw ==_refl))),
          rw sessions (keep-update_where_nil (is_live_of r.user.id) revoke _ (λ x. ground arith)),
          rw resets (keep-update_where_nil (is_open_of r.user.id) use_up _ (λ x. ground arith)),
          ground (arith, spent_token),
        )
