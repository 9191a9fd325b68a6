-- ===== src/Auth/Bootstrap.antt =====
-- app/routers/auth.py: ensure_default_admin and ensure_default_organization. What they log is left
-- out.
use secure_api.Prelude.{
  ℕ, ◌==◌, String, codes, teq, Bool, true, not, ◌||◌, Option, none, some, str_eq, is_some,
  if◌then◌else◌,
}
use secure_api.Models.{User}
use secure_api.Session.{M, pure, gets, lift, modify, commit, one_or_none, ◌>>=◌, ◌>>◌}
use secure_api.Session.Query.{select, insert_row}
use secure_api.Security.{Crypto, Settings, verify_password}
use secure_api.Auth.Base.{update_user_row}
use secure_api.Auth.Register.{new_user, add_user}

-- a role, an active flag or a lockout that somebody took from the account or left on it
abbrev needs_repair : User → Bool
needs_repair u =
    not (str_eq u.role "super_admin")
    || not u.is_active
    || is_some u.locked_until
    || not (u.failed_login_count == 0)

abbrev pub repaired : User → User
repaired u = record u {
  role = "super_admin";
  is_active = true;
  locked_until = none;
  failed_login_count = 0;
}

module _ (c : Crypto) (cfg : Settings) (now : ℕ) (salt : String) where
  first_boot : M (Unit {0})
  first_boot = do
    add_user
        (new_user now cfg.admin_username none (c.hashpw salt cfg.admin_password) "super_admin" true)
    commit

  -- the legacy password "admin" is replaced
  rotate_password : User → M (Unit {0})
  rotate_password user =
      if verify_password c (codes "admin") user.password_hash
      then (do
        modify (
            update_user_row user.id
              (λ u. record u { password_hash = c.hashpw salt cfg.admin_password }))
        commit)
      else pure tt

  repair : User → M (Unit {0})
  repair user = do
    if needs_repair user then (do modify (update_user_row user.id repaired); commit) else pure tt
    rotate_password user

  boot : Option User → M (Unit {0})
  boot none = first_boot
  boot (some user) = repair user

  unfoldable pub ensure_default_admin : M (Unit {0})
  unfolding boot first_boot repair rotate_password
  ensure_default_admin = do
    rows ← gets (λ db. select (λ u. str_eq u.username cfg.admin_username) db.users)
    user ← lift (one_or_none rows)
    boot user

module _ (cfg : Settings) (now : ℕ) where
  create_default : Option User → M (Unit {0})
  create_default none = pure tt
  create_default (some admin) = do
    org_id ← gets (λ db. db.organizations.next_id)
    modify (λ db. record db {
      organizations =
          insert_row
            (λ id. record {
              id = id;
              name = "Default Organization";
              slug = codes "default";
              owner_user_id = admin.id;
              created_at = now;
            })
            db.organizations;
      memberships =
          insert_row
            (λ id. record {
              id = id;
              user_id = admin.id;
              org_id = org_id;
              role = "owner";
              status = "active";
              created_at = now;
              decided_at = none;
            })
            db.memberships;
    })
    commit

  unfoldable pub ensure_default_organization : M (Unit {0})
  unfolding create_default
  ensure_default_organization = do
    rows ← gets (λ db. select (λ o. teq o.slug (codes "default")) db.organizations)
    existing ← lift (one_or_none rows)
    if is_some existing then pure tt else (do
      admins ← gets (λ db. select (λ u. str_eq u.username cfg.admin_username) db.users)
      admin ← lift (one_or_none admins)
      create_default admin)
