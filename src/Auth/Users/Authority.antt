-- ===== src/Auth/Users/Authority.antt =====
-- Who may change whom: the super admin is out of reach, and only the super admin makes or unmakes
-- administrators.
use mathlib.Core.List.{append-nil}
use secure_api.Prelude.{
  ℕ, ◌==◌, ◌≡◌, refl, ◌∙◌, inl, inr, String, Bool, false, not, ◌&&◌, Option, none, some, List, [],
  ◌∷◌, arith, keep, keep-append, ==→eq,
}
use secure_api.Models.{User, Db}
use secure_api.Session.{Request, run}
use secure_api.Session.Query.{select, update_where, keep-update_where-All, keep-one}
use secure_api.Security.{Crypto, is_platform_admin, is_super_admin}
use secure_api.Auth.Base.{has_id}
use secure_api.Auth.Users.Effects.{Granted, update_user-Effect}
use secure_api.Auth.Users.Rows.{delete_user_effect, admin_create_user_effect, created_row}
use secure_api.Auth.Users.{
  set_email, set_role, set_active, AdminCreateUserIn, UserUpdateIn, cannot_administer,
  cannot_grant_role, admin_create_user, update_user, delete_user,
}

-- a request to one of the routes that change accounts, with the time and the salt
pub data AdminAction : Type 0 where
  create : AdminCreateUserIn → (salt : String) → AdminAction
  update : (user_id : ℕ) → UserUpdateIn → AdminAction
  delete : (user_id : ℕ) → AdminAction

module _ (c : Crypto) (now : ℕ) (request : Request) (actor : User) where
  pub perform : AdminAction → Db → Db
  perform (create body salt) db = (run (admin_create_user c now request actor body salt) db).db
  perform (update user_id body) db = (run (update_user now request actor user_id body) db).db
  perform (delete user_id) db = (run (delete_user now request actor user_id) db).db

-- what no account can do to an administrator, as a filter of the rows that must stay
abbrev pub super_admins : Db → List User
super_admins db = select (λ u. is_super_admin u.role) db.users

abbrev pub other_admins : User → Db → List User
other_admins actor db = select (λ u. is_platform_admin u.role && not (u.id == actor.id)) db.users

-- A filter of rows that the guards keep the actor away from.
record Protects (actor : User) (p : User → Bool) : Type 0 where
  same : (x y : User) → x.id ≡ y.id → x.role ≡ y.role → p x ≡ p y
  guarded : (x : User) → cannot_administer actor x ≡ none → p x ≡ false
  ungranted : (x : User) → cannot_grant_role actor x.role ≡ none → p x ≡ false

module _ (actor : User) (p : User → Bool) (safe : Protects actor p) (user_id : ℕ) (user : User)
    (db : Db) where
  -- the one row of an id is outside the filter, before and after its update
  keep-protected :
      (f : User → User)
      → select (has_id user_id) db.users ≡ user ∷ []
      → p user ≡ false
      → p (f user) ≡ false
      → keep p (update_where (has_id user.id) f db.users.rows) ≡ select p db.users
  keep-protected f found out out' =
      let id-eq : user.id ≡ user_id = ==→eq _ _ (keep-one (has_id user_id) db.users.rows found) in
      keep-update_where-All p (has_id user.id) f db.users.rows
        (rw id-eq (rw found ((out, out'), tt)))

module _ (actor : User) (p : User → Bool) (safe : Protects actor p) where
  updated-protected :
      (email role : Option String) (active : Option Bool) (user : User)
      → cannot_administer actor user ≡ none
      → Granted actor role
      → p (set_active active (set_role role (set_email email user))) ≡ false
  updated-protected email none active user allowed granted =
      safe.same (set_active active (set_email email user)) user (ground arith) (ground arith)
      ∙ safe.guarded user allowed
  updated-protected email (some role) active user allowed granted =
      let row = set_active active (set_role (some role) (set_email email user)) in
      let role-eq : row.role ≡ role = ground arith in safe.ungranted row (rw role-eq granted)

  module _ (c : Crypto) (now : ℕ) (request : Request) (db : Db) where
    select-perform :
        (a : AdminAction) → select p (perform c now request actor a db).users ≡ select p db.users
    unfolding perform
    select-perform (create body salt) =
        elim (admin_create_user_effect c now request actor body salt db) [
          | inl kept ↦ rw kept
          | inr (granted, added) ↦
              let row = created_row c now request actor body salt db in
              rw added (
                keep-append p db.users.rows (row ∷ [])
                ∙ (rw (safe.ungranted row granted) (append-nil (keep p db.users.rows))))
        ]
    select-perform (update user_id body) =
        elim (update_user-Effect now request actor user_id body db) [
          | inl (e, refused, kept) ↦ rw kept
          | inr (r, answer, rows, sessions) ↦ rw rows (
              keep-protected actor p safe user_id r.user db _ r.found
                (safe.guarded r.user r.allowed)
                (updated-protected body.email body.role body.is_active r.user r.allowed r.granted))
        ]
    select-perform (delete user_id) = elim (delete_user_effect now request actor user_id db) [
      | inl (e, refused, kept) ↦ rw kept
      | inr (user, found, allowed, other, rows, sessions) ↦ rw rows (
          keep-protected actor p safe user_id user db _ found (safe.guarded user allowed)
            (safe.same _ user refl refl ∙ safe.guarded user allowed))
    ]

super_admins-Protects : (actor : User) → Protects actor (λ u. is_super_admin u.role)
unfolding cannot_administer cannot_grant_role
super_admins-Protects actor = record {
  same = λ x y id-eq role-eq. rw role-eq;
  guarded = λ x. λ h. ground arith;
  ungranted = λ x. λ h. ground arith;
}

other_admins-Protects :
    (actor : User)
    → is_super_admin actor.role ≡ false
    → Protects actor (λ u. is_platform_admin u.role && not (u.id == actor.id))
unfolding cannot_administer cannot_grant_role is_platform_admin is_super_admin
other_admins-Protects actor plain = record {
  same = λ x y id-eq role-eq. rw (id-eq, role-eq);
  guarded = λ x. λ h. ground arith;
  ungranted = λ x. λ h. ground arith;
}

module _ (c : Crypto) (now : ℕ) (request : Request) (actor : User) (db : Db) where
  -- No request to create, update or deactivate a user, whoever makes it and whether it succeeds or
  -- not, changes, adds or removes a row with the super admin role.
  pub super_admins-perform :
      (a : AdminAction) → super_admins (perform c now request actor a db) ≡ super_admins db
  super_admins-perform =
      select-perform actor (λ u. is_super_admin u.role) (super_admins-Protects actor) c now request
        db

  -- A request to create, update or deactivate a user, by anyone who is not the super admin, leaves
  -- the rows of all other administrators as they are, and adds none: it cannot demote, deactivate,
  -- edit or appoint one.
  pub other_admins-perform :
      (a : AdminAction)
      → is_super_admin actor.role ≡ false
      → other_admins actor (perform c now request actor a db) ≡ other_admins actor db
  other_admins-perform a plain =
      select-perform actor (λ u. is_platform_admin u.role && not (u.id == actor.id))
        (other_admins-Protects actor plain) c now request db a
