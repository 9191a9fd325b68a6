-- ===== src/Auth/Users/Rows.antt =====
-- What a deactivation and a creation of a user do to the tables.
use secure_api.Prelude.{
  str_eq, ◌++◌, ℕ, ◌==◌, ◌≡◌, ◌⊎◌, inl, inr, String, false, none, some, [], ◌∷◌, arith, opt_eq,
  Bool-cases, Option-cases,
}
use secure_api.Models.{User, Db}
use secure_api.Session.{Error, http, crash, Request, run, err, one_or_none-cases}
use secure_api.Session.Query.{select, update_where}
use secure_api.Auth.Base.{has_id}
use secure_api.Auth.Refresh.{revoke_refresh_tokens}
use secure_api.Security.{Crypto}
use secure_api.Security.Passwords.{validate_password_strength}
use secure_api.Auth.Register.{new_user}
use secure_api.Auth.Users.{
  AdminCreateUserIn, admin_create_user, delete_user, cannot_administer, cannot_grant_role,
  set_active,
}

module _ (now : ℕ) (request : Request) (admin : User) (user_id : ℕ) (db : Db) where
  -- A deactivation is refused and changes nothing, or it turns one row off that is not the actor's
  -- and that the actor may administer, and revokes its live sessions.
  pub delete_user_effect :
      let outcome = run (delete_user now request admin user_id) db in
      ((e : Error) × (outcome.response ≡ err e) × (outcome.db ≡ db))
      ⊎ ((user : User) × (select (has_id user_id) db.users ≡ user ∷ [])
          × (cannot_administer admin user ≡ none)
          × (user.id == admin.id ≡ false)
          × (outcome.db.users.rows
              ≡ update_where (has_id user.id) (set_active (some false)) db.users.rows)
          × (outcome.db.refresh_tokens ≡ (revoke_refresh_tokens user_id db).refresh_tokens))
  unfolding delete_user
  delete_user_effect = elim (one_or_none-cases (select (has_id user_id) db.users)) [
    | inl nobody ↦ inl (http 404 "User not found", ground arith, ground arith)
    | inr (inl (user, found)) ↦ elim (Bool-cases (user.id == admin.id)) [
      | inl self ↦ inl (http 400 "Cannot deactivate your own account", ground arith, ground arith)
      | inr other ↦ elim (Option-cases (cannot_administer admin user)) [
        | inr (e, refused) ↦ inl (e, ground arith, ground arith)
        | inl allowed ↦ inr (user, found, allowed, other, ground arith, ground arith)
      ]
    ]
    | inr (inr many) ↦ inl (crash, ground arith, ground arith)
  ]

module _ (c : Crypto) (now : ℕ) (request : Request) (admin : User) (body : AdminCreateUserIn)
    (salt : String) (db : Db) where
  abbrev pub created_row : User
  created_row =
      new_user now body.username (some body.email) (c.hashpw salt body.password) body.role
        body.is_active db.users.next_id

  pub admin_create_user_effect :
      let outcome = run (admin_create_user c now request admin body salt) db in
      ((outcome.db.users.rows ≡ db.users.rows)
        ⊎ ((cannot_grant_role admin body.role ≡ none)
            × (outcome.db.users.rows ≡ db.users.rows ++ created_row ∷ [])))
  unfolding admin_create_user
  admin_create_user_effect = elim (Option-cases (cannot_grant_role admin body.role)) [
    | inr (e, refused) ↦ inl (ground arith)
    | inl granted ↦ elim (Option-cases (validate_password_strength c body.password)) [
      | inr (message, weak) ↦ inl (ground arith)
      | inl strong ↦
          elim (one_or_none-cases (select (λ u. str_eq u.username body.username) db.users)) [
            | inl unused ↦
                elim (one_or_none-cases (select (λ u. opt_eq u.email (some body.email)) db.users)) [
                  | inl free ↦ inr (granted, ground arith)
                  | inr (inl (other, taken)) ↦ inl (ground arith)
                  | inr (inr many) ↦ inl (ground arith)
                ]
            | inr (inl (other, taken)) ↦ inl (ground arith)
            | inr (inr many) ↦ inl (ground arith)
          ]
    ]
  ]
