-- ===== src/Auth/Users.antt =====
-- app/routers/auth.py: the management of users by administrators.
pub mod Authority
pub mod Effects
pub mod Rows
use Prim.Native.String
use secure_api.Prelude.{
  ℕ, ◌==◌, String, Text, Bool, true, false, not, ◌&&◌, Option, none, some, List, [], ◌∷◌, ◌++◌, map,
  str_eq, opt_eq, is_some, if◌then◌else◌,
}
use secure_api.Models.{User, Db, Target, user_target, Detail, text, flag}
use secure_api.Session.{
  Error, http, Result, M, Request, pure, raise, gets, lift, modify, commit, require,
  log_audit_event, one_or_none, run, ◌>>=◌, ◌>>◌,
}
use secure_api.Session.Query.{select}
use secure_api.Security.{Crypto, parse_role, is_platform_admin, is_super_admin}
use secure_api.Security.Passwords.{validate_password_strength}
use secure_api.Auth.Base.{UserOut, build_user_out, has_id, update_user_row}
use secure_api.Auth.Refresh.{revoke_refresh_tokens}
use secure_api.Auth.Register.{or_weak, require_unused, new_user, add_user}

-- app/schemas.py, AdminCreateUserIn
pub record AdminCreateUserIn : Type 0 where
  pub username : String
  pub email : String
  pub password : Text
  pub role : String
  pub is_active : Bool

-- app/schemas.py, UserUpdateIn
pub record UserUpdateIn : Type 0 where
  pub email : Option String
  pub role : Option String
  pub is_active : Option Bool

-- `none` is no exception
unfoldable pub cannot_administer : User → User → Option Error
cannot_administer actor target =
    if is_super_admin target.role
    then some (http 403 "The super admin account cannot be modified")
    else if is_platform_admin target.role
        && not (target.id == actor.id)
        && not (is_super_admin actor.role)
    then some (http 403 "Only the super admin can modify another administrator")
    else none

unfoldable pub cannot_grant_role : User → String → Option Error
cannot_grant_role actor role =
    if is_super_admin role
    then some (http 403 "The super admin role cannot be assigned")
    else if str_eq role "admin" && not (is_super_admin actor.role)
    then some (http 403 "Only the super admin can grant the admin role")
    else none

abbrev pub unless_error : Option Error → M (Unit {0})
unless_error none = pure tt
unless_error (some e) = raise e

abbrev pub require_can_administer : User → User → M (Unit {0})
require_can_administer actor target = unless_error (cannot_administer actor target)

abbrev pub require_can_grant_role : User → String → M (Unit {0})
require_can_grant_role actor role = unless_error (cannot_grant_role actor role)

abbrev or_missing : Option User → M User
or_missing none = raise (http 404 "User not found")
or_missing (some user) = pure user

abbrev find_user : ℕ → M User
find_user user_id = do
  rows ← gets (λ db. select (has_id user_id) db.users)
  found ← lift (one_or_none rows)
  or_missing found

unfoldable pub get_user : ℕ → M UserOut
get_user user_id = do user ← find_user user_id; pure (build_user_out user)

-- each part of an update is an assignment to the row, if the body has it
abbrev pub set_email : Option String → User → User
set_email none u = u
set_email (some email) u = record u { email = some email }

abbrev pub set_role : Option String → User → User
set_role none u = u
set_role (some role) u = record u { role = role }

-- admin.role in the end: the session has one object for a row, so that an administrator who changes
-- their own row has the new role
abbrev role_after : User → User → Option String → String
role_after admin user role = (if user.id == admin.id then set_role role user else admin).role

abbrev pub set_active : Option Bool → User → User
set_active none u = u
set_active (some active) u = record u { is_active = active }

abbrev changes : UserUpdateIn → List (String × Detail)
changes body = email_change body.email ++ role_change body.role ++ active_change body.is_active
  where
    email_change : Option String → List (String × Detail)
    email_change none = []
    email_change (some e) = ("email", text e) ∷ []

    role_change : Option String → List (String × Detail)
    role_change none = []
    role_change (some r) = ("role", text r) ∷ []

    active_change : Option Bool → List (String × Detail)
    active_change none = []
    active_change (some a) = ("is_active", flag a) ∷ []

abbrev is_off : Option Bool → Bool
is_off (some false) = true
is_off _ = false

module _ (c : Crypto) (now : ℕ) (request : Request) where
  unfoldable pub admin_create_user : User → AdminCreateUserIn → (salt : String) → M UserOut
  admin_create_user current_user body salt = do
    require_can_grant_role current_user body.role
    or_weak (validate_password_strength c body.password)
    require_unused body.username body.email
    user ← add_user (
        new_user now body.username (some body.email) (c.hashpw salt body.password) body.role
          body.is_active)
    commit
    log_audit_event now request "user_created_by_admin" current_user.username
        (some (user_target user.id)) true
        (("new_username", text user.username) ∷ ("role", text user.role) ∷ [])
    pure (build_user_out user)

module _ (now : ℕ) (request : Request) where
  -- the address may belong to no other user
  unfoldable pub update_email : User → Option String → M (Unit {0})
  update_email user none = pure tt
  update_email user (some email) = do
    others ←
        gets (λ db. select (λ u. opt_eq u.email (some email) && not (u.id == user.id)) db.users)
    existing ← lift (one_or_none others)
    require (not (is_some existing)) (http 409 "Email already registered")
    modify (update_user_row user.id (set_email (some email)))

  unfoldable pub update_role : User → User → Option String → M (Unit {0})
  update_role admin user none = pure tt
  update_role admin user (some role) = do
    require (is_some (parse_role role)) (http 422 (String.◌++◌ "Invalid role: " role))
    require_can_grant_role admin role
    modify (update_user_row user.id (set_role (some role)))

  unfoldable pub update_active : User → Option Bool → M (Unit {0})
  update_active user none = pure tt
  update_active user (some active) = do
    modify (if user.is_active && not active then revoke_refresh_tokens user.id else λ db. db)
    modify (update_user_row user.id (set_active (some active)))

  unfoldable pub update_user : User → ℕ → UserUpdateIn → M UserOut
  update_user admin user_id body = do
    user ← find_user user_id
    require_can_administer admin user
    require (not (is_off body.is_active && user.id == admin.id))
        (http 400 "Cannot deactivate your own account")
    update_email user body.email
    update_role admin user body.role
    update_active user body.is_active
    commit
    log_audit_event now request "user_updated_by_admin" admin.username (some (user_target user.id))
        true (changes body ++ ("actor_role", text (role_after admin user body.role)) ∷ [])
    pure (
        build_user_out (set_active body.is_active (set_role body.role (set_email body.email user))))

  unfoldable pub delete_user : User → ℕ → M (Unit {0})
  delete_user admin user_id = do
    user ← find_user user_id
    require (not (user.id == admin.id)) (http 400 "Cannot deactivate your own account")
    require_can_administer admin user
    modify (update_user_row user.id (set_active (some false)))
    modify (revoke_refresh_tokens user_id)
    commit
    log_audit_event now request "user_deactivated_by_admin" admin.username
        (some (user_target user.id)) true (("actor_role", text admin.role) ∷ [])
    pure tt
