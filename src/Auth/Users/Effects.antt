-- ===== src/Auth/Users/Effects.antt =====
-- What an update of a user does to the tables: all of it, or nothing.
use Prim.Native.String
use mathlib.Core.Bool.{and-false}
use secure_api.Prelude.{
  ℕ, ◌==◌, ◌≡◌, refl, ap, sym, ◌∙◌, ◌⊎◌, inl, inr, String, Bool, true, false, not, ◌&&◌, Option,
  none, some, [], ◌∷◌, arith, is_some, opt_eq, Bool-cases, Option-cases, if◌then◌else◌,
}
use secure_api.Models.{User, Db}
use secure_api.Session.{
  Error, http, crash, Request, Session, Outcome, run, ok, err, one_or_none-cases,
}
use secure_api.Session.Query.{select, update_where, update_where-id, update_where-update_where}
use secure_api.Security.{parse_role}
use secure_api.Auth.Base.{UserOut, build_user_out, has_id, update_user_row}
use secure_api.Auth.Refresh.{revoke_refresh_tokens}
use secure_api.Auth.Users.{
  UserUpdateIn, cannot_administer, cannot_grant_role, set_email, set_role, set_active, update_email,
  update_role, update_active, update_user, is_off,
}

-- an assignment to the row, and the session that holds it
abbrev pub with_user : ℕ → (User → User) → Session → Session
with_user id f s = record s { working = update_user_row id f s.working }

with_user-id : (id : ℕ) (s : Session) → with_user id (λ u. u) s ≡ s
with_user-id id s =
    ap
      (λ rows. record s {
        working = record s.working { users = record s.working.users { rows = rows } };
      })
      (update_where-id (has_id id) s.working.users.rows)

abbrev pub revoking : Bool → ℕ → Session → Session
revoking gone id s = record s {
  working = (if gone then revoke_refresh_tokens id else λ db. db) s.working;
}

-- the role of the body, if it has one, is one that the actor may grant
abbrev pub Granted : User → Option String → Type 0
Granted admin none = Unit
Granted admin (some role) = cannot_grant_role admin role ≡ none

module _ (now : ℕ) (request : Request) (admin user : User) where
  update_email-cases :
      (email : Option String) (s : Session)
      → ((e : Error) × (update_email now request user email s ≡ (err e, s)))
        ⊎ (update_email now request user email s ≡ (ok tt, with_user user.id (set_email email) s))
  unfolding update_email
  update_email-cases none s = inr (ap (λ t. (ok tt, t)) (sym (with_user-id user.id s)))
  update_email-cases (some email) s =
      elim (one_or_none-cases
        (select (λ u. opt_eq u.email (some email) && not (u.id == user.id)) s.working.users)) [
          | inl nobody ↦ inr (rw nobody)
          | inr (inl (other, found)) ↦ inl (http 409 "Email already registered", rw found)
          | inr (inr many) ↦ inl (crash, rw many)
        ]

  update_role-cases :
      (role : Option String) (s : Session)
      → ((e : Error) × (update_role now request admin user role s ≡ (err e, s)))
        ⊎ (Granted admin role
            × (update_role now request admin user role s
                ≡ (ok tt, with_user user.id (set_role role) s)))
  unfolding update_role
  update_role-cases none s = inr (tt, ap (λ t. (ok tt, t)) (sym (with_user-id user.id s)))
  update_role-cases (some role) s = elim (Bool-cases (is_some (parse_role role))) [
    | inl known ↦ elim (Option-cases (cannot_grant_role admin role)) [
      | inl granted ↦ inr (granted, rw (known, granted))
      | inr (e, refused) ↦ inl (e, rw (known, refused))
    ]
    | inr unknown ↦ inl (http 422 (String.◌++◌ "Invalid role: " role), rw unknown)
  ]

  update_active-eq :
      (active : Option Bool) (s : Session)
      → update_active now request user active s ≡ (
        ok tt,
        with_user user.id
            (set_active active)
            (revoking (user.is_active && is_off active) user.id s),
      )
  unfolding update_active
  update_active-eq none s = ap (λ t. (ok tt, t)) (rw and-false (sym (with_user-id user.id s)))
  update_active-eq (some true) s = rw and-false
  update_active-eq (some false) s = refl

module _ (now : ℕ) (request : Request) (admin : User) (user_id : ℕ) (body : UserUpdateIn)
    (db : Db) where
  -- The row of an update that was not refused.
  pub record Updated : Type 0 where
    pub user : User
    pub found : select (has_id user_id) db.users ≡ user ∷ []
    pub allowed : cannot_administer admin user ≡ none
    pub not_self : is_off body.is_active && user.id == admin.id ≡ false
    pub granted : Granted admin body.role

  abbrev pub updated_row : User → User
  updated_row u = set_active body.is_active (set_role body.role (set_email body.email u))

  abbrev pub Effect : Outcome UserOut → Type 0
  Effect outcome =
      ((e : Error) × (outcome.response ≡ err e) × (outcome.db ≡ db))
      ⊎ ((r : Updated) × (outcome.response ≡ ok (build_user_out (updated_row r.user)))
          × (outcome.db.users.rows ≡ update_where (has_id r.user.id) updated_row db.users.rows)
          × (outcome.db.refresh_tokens
              ≡ ((if r.user.is_active && is_off body.is_active
                    then revoke_refresh_tokens r.user.id
                    else λ db. db)
                  db).refresh_tokens))

  abbrev start : Session
  start = record { committed = db; working = db; stdout = [] }

  module _ (user : User) (found : select (has_id user_id) db.users ≡ user ∷ [])
      (allowed : cannot_administer admin user ≡ none)
      (not_self : is_off body.is_active && user.id == admin.id ≡ false) where
    abbrev mailed : Session
    mailed = with_user user.id (set_email body.email) start

    fused :
        update_where (has_id user.id) (set_active body.is_active) (
          update_where
            (has_id user.id)
            (set_role body.role)
            (update_where (has_id user.id) (set_email body.email) db.users.rows))
        ≡ update_where (has_id user.id) updated_row db.users.rows
    fused =
        let rows = db.users.rows in
        ap (update_where (has_id user.id) (set_active body.is_active)) (
          update_where-update_where (has_id user.id) (set_email body.email) (set_role body.role)
            rows (λ x. ground arith))
        ∙ update_where-update_where (has_id user.id)
            (λ u. set_role body.role (set_email body.email u)) (set_active body.is_active) rows
            (λ x. ground arith)

    Effect-of_roles :
        update_email now request user body.email start ≡ (ok tt, mailed)
        → Effect (run (update_user now request admin user_id body) db)
    unfolding update_user
    Effect-of_roles first = elim (update_role-cases now request admin user body.role mailed) [
      | inl (e, refused) ↦ inl (e, ground arith, ground arith)
      | inr (granted, second) ↦ inr (
        record {
          user = user;
          found = found;
          allowed = allowed;
          not_self = not_self;
          granted = granted;
        },
        ground (
          arith,
          update_active-eq now request admin user body.is_active
              (with_user user.id (set_role body.role) mailed),
        ),
        ground (
          arith,
          fused,
          update_active-eq now request admin user body.is_active
              (with_user user.id (set_role body.role) mailed),
        ),
        ground (
          arith,
          update_active-eq now request admin user body.is_active
              (with_user user.id (set_role body.role) mailed),
        ),
      )
    ]

  Effect-of_emails :
      (user : User)
      → select (has_id user_id) db.users ≡ user ∷ []
      → cannot_administer admin user ≡ none
      → is_off body.is_active && user.id == admin.id ≡ false
      → Effect (run (update_user now request admin user_id body) db)
  unfolding update_user
  Effect-of_emails user found allowed not_self =
      elim (update_email-cases now request admin user body.email start) [
        | inl (e, refused) ↦ inl (e, ground arith, ground arith)
        | inr first ↦ Effect-of_roles user found allowed not_self first
      ]

  Effect-of_guards :
      (user : User)
      → select (has_id user_id) db.users ≡ user ∷ []
      → Effect (run (update_user now request admin user_id body) db)
  unfolding update_user
  Effect-of_guards user found = elim (Option-cases (cannot_administer admin user)) [
    | inr (e, refused) ↦ inl (e, ground arith, ground arith)
    | inl allowed ↦ elim (Bool-cases (is_off body.is_active && user.id == admin.id)) [
      | inl self ↦ inl (http 400 "Cannot deactivate your own account", ground arith, ground arith)
      | inr not_self ↦ Effect-of_emails user found allowed not_self
    ]
  ]

  -- An update is all or nothing: either it answers with an error and the database is as before, or
  -- the actor may administer the one user with this id and grant the role, and exactly that row has
  -- the email, role and active flag of the body; the user's live sessions are revoked if it took an
  -- active account's flag, and otherwise stay.
  pub update_user-Effect : Effect (run (update_user now request admin user_id body) db)
  unfolding update_user
  update_user-Effect = elim (one_or_none-cases (select (has_id user_id) db.users)) [
    | inl nobody ↦ inl (http 404 "User not found", ground arith, ground arith)
    | inr (inl (user, found)) ↦ Effect-of_guards user found
    | inr (inr many) ↦ inl (crash, ground arith, ground arith)
  ]
