-- ===== src/Orgs.antt =====
-- app/routers/orgs.py: the handlers that change organizations and their memberships.
pub mod Guards
pub mod Members
pub mod Joining
pub mod Tenancy
pub mod Creation
use secure_api.Prelude.{
  ℕ, ◌==◌, String, Text, Bool, true, false, not, ◌&&◌, Option, none, some, List, [], ◌∷◌, str_eq,
  if◌then◌else◌,
}
use secure_api.Models.{
  User, Organization, OrgMembership, Db, Detail, text, number, org_target, org_user_target,
}
use secure_api.Session.{
  Error, http, crash, M, Request, pure, raise, gets, lift, modify, commit, require, log_audit_event,
  one_or_none, one, ◌>>=◌, ◌>>◌,
}
use secure_api.Session.Query.{select, insert_row, update_rows}
use secure_api.Security.{OrgRole, parse_org_role, org_role_lt, is_platform_admin}
use secure_api.Auth.Base.{has_id}

-- app/schemas.py, OrgMembershipOut
pub record OrgMembershipOut : Type 0 where
  pub id : ℕ
  pub user_id : ℕ
  pub username : String
  pub org_id : ℕ
  pub role : String
  pub status : String
  pub created_at : ℕ
  pub decided_at : Option ℕ

-- app/schemas.py, OrgOut, without the counts that only _list_all_orgs fills
pub record OrgOut : Type 0 where
  pub id : ℕ
  pub name : String
  pub slug : Text
  pub owner_user_id : ℕ
  pub created_at : ℕ
  pub my_role : Option String

abbrev membership_out : String → OrgMembership → OrgMembershipOut
membership_out username m = record {
  id = m.id;
  user_id = m.user_id;
  username = username;
  org_id = m.org_id;
  role = m.role;
  status = m.status;
  created_at = m.created_at;
  decided_at = m.decided_at;
}

abbrev pub org_out : Option String → Organization → OrgOut
org_out my_role org = record {
  id = org.id;
  name = org.name;
  slug = org.slug;
  owner_user_id = org.owner_user_id;
  created_at = org.created_at;
  my_role = my_role;
}

-- OrgMembership.user_id == user_id, OrgMembership.org_id == org_id
abbrev pub membership_of : ℕ → ℕ → OrgMembership → Bool
membership_of user_id org_id m = m.user_id == user_id && m.org_id == org_id

abbrev pub get_membership : ℕ → ℕ → M (Option OrgMembership)
get_membership user_id org_id = do
  rows ← gets (λ db. select (membership_of user_id org_id) db.memberships)
  lift (one_or_none rows)

abbrev pub not_owner : Error
not_owner = http 403 "Requires org owner role"

-- OrgRole(m.role) < OrgRole.OWNER, where an unknown role is an exception
abbrev owner_role : Option OrgRole → M (Unit {0})
owner_role none = raise crash
owner_role (some role) = require (not (org_role_lt role OrgRole.owner)) not_owner

abbrev owner_membership : Option OrgMembership → M (Unit {0})
owner_membership none = raise not_owner
owner_membership (some m) =
    if str_eq m.status "active" then owner_role (parse_org_role m.role) else raise not_owner

unfoldable pub require_owner : User → ℕ → M (Unit {0})
require_owner current_user org_id =
    if is_platform_admin current_user.role
    then pure tt
    else (do m ← get_membership current_user.id org_id; owner_membership m)

abbrev pub no_org : Error
no_org = http 404 "Organization not found"

abbrev or_no_org : Option Organization → M Organization
or_no_org none = raise no_org
or_no_org (some org) = pure org

unfoldable pub get_org_or_404 : ℕ → M Organization
get_org_or_404 org_id = do
  rows ← gets (λ db. select (λ o. o.id == org_id) db.organizations)
  org ← lift (one_or_none rows)
  or_no_org org

-- the membership of the user, if it is in this state
abbrev in_status : String → Error → Option OrgMembership → M OrgMembership
in_status status missing none = raise missing
in_status status missing (some m) = if str_eq m.status status then pure m else raise missing

unfoldable pub membership_in : String → Error → ℕ → ℕ → M OrgMembership
membership_in status missing user_id org_id = do
  found ← get_membership user_id org_id
  in_status status missing found

abbrev update_membership : ℕ → (OrgMembership → OrgMembership) → Db → Db
update_membership id f db = record db {
  memberships = update_rows (λ m. m.id == id) f db.memberships;
}

abbrev update_org : ℕ → (Organization → Organization) → Db → Db
update_org id f db = record db { organizations = update_rows (λ o. o.id == id) f db.organizations }

abbrev pub decide : ℕ → String → OrgMembership → OrgMembership
decide now status m = record m { status = status; decided_at = some now }

abbrev pub set_member_role : String → OrgMembership → OrgMembership
set_member_role role m = record m { role = role }

abbrev pub reopen : OrgMembership → OrgMembership
reopen m = record m { status = "pending"; role = "viewer"; decided_at = none }

abbrev pub new_membership : ℕ → ℕ → ℕ → ℕ → OrgMembership
new_membership now user_id org_id id = record {
  id = id;
  user_id = user_id;
  org_id = org_id;
  role = "viewer";
  status = "pending";
  created_at = now;
  decided_at = none;
}

abbrev pub no_request : Error
no_request = http 404 "No pending join request for this user"

abbrev pub no_target : Error
no_target = http 404 "Target user has no active membership in this organization"

abbrev pub not_member : Error
not_member = http 404 "No active membership for this user"

-- db.query(User).filter(User.id == user_id).one()
abbrev the_user : ℕ → M User
the_user user_id = do rows ← gets (λ db. select (has_id user_id) db.users); lift (one rows)

-- the role of the caller in the organization, "owner" for a platform admin who has none
abbrev role_or_owner : Option OrgMembership → Option String
role_or_owner none = some "owner"
role_or_owner (some m) = some m.role

abbrev pub demote_prior : Option OrgMembership → Db → Db
demote_prior none db = db
demote_prior (some m) db = update_membership m.id (set_member_role "editor") db

module _ (now : ℕ) (request : Request) (current_user : User) (org_id : ℕ) where
  -- a revoked membership can be asked for again; an active or a pending one cannot
  renew : Option OrgMembership → M OrgMembership
  renew (some existing) = do
    require (not (str_eq existing.status "active")) (http 409 "Already a member")
    require (not (str_eq existing.status "pending")) (http 409 "Join request already pending")
    modify (update_membership existing.id reopen)
    commit
    pure (reopen existing)
  renew none = do
    id ← gets (λ db. db.memberships.next_id)
    modify (λ db. record db {
      memberships = insert_row (new_membership now current_user.id org_id) db.memberships;
    })
    commit
    pure (new_membership now current_user.id org_id id)

  unfoldable pub request_to_join : M OrgMembershipOut
  unfolding renew
  request_to_join = do
    get_org_or_404 org_id
    existing ← get_membership current_user.id org_id
    row ← renew existing
    log_audit_event now request "org_join_requested" current_user.username
        (some (org_target org_id)) true []
    pure (membership_out current_user.username row)

  unfoldable pub approve_member : ℕ → M OrgMembershipOut
  approve_member user_id = do
    require_owner current_user org_id
    m ← membership_in "pending" no_request user_id org_id
    modify (update_membership m.id (decide now "active"))
    commit
    target_user ← the_user user_id
    log_audit_event now request "org_member_approved" current_user.username
        (some (org_user_target org_id user_id)) true []
    pure (membership_out target_user.username (decide now "active" m))

  unfoldable pub reject_member : ℕ → M (Unit {0})
  reject_member user_id = do
    require_owner current_user org_id
    m ← membership_in "pending" no_request user_id org_id
    modify (update_membership m.id (decide now "revoked"))
    commit
    log_audit_event now request "org_member_rejected" current_user.username
        (some (org_user_target org_id user_id)) true []

  unfoldable pub update_member : ℕ → String → M OrgMembershipOut
  update_member user_id role = do
    require_owner current_user org_id
    m ← membership_in "active" not_member user_id org_id
    modify (update_membership m.id (set_member_role role))
    commit
    target_user ← the_user user_id
    log_audit_event now request "org_member_role_changed" current_user.username
        (some (org_user_target org_id user_id)) true (("new_role", text role) ∷ [])
    pure (membership_out target_user.username (set_member_role role m))

  unfoldable pub remove_member : ℕ → M (Unit {0})
  remove_member user_id = do
    require_owner current_user org_id
    org ← get_org_or_404 org_id
    require (not (org.owner_user_id == user_id))
        (http 400 "Cannot remove the organization owner — transfer ownership first")
    m ← membership_in "active" not_member user_id org_id
    modify (update_membership m.id (decide now "revoked"))
    commit
    log_audit_event now request "org_member_removed" current_user.username
        (some (org_user_target org_id user_id)) true []

  unfoldable pub rename_org : String → M OrgOut
  rename_org name = do
    require_owner current_user org_id
    org ← get_org_or_404 org_id
    modify (update_org org.id (λ o. record o { name = name }))
    commit
    log_audit_event now request "org_renamed" current_user.username (some (org_target org_id)) true
        (("new_name", text name) ∷ [])
    m ← get_membership current_user.id org_id
    pure (org_out (role_or_owner m) (record org { name = name }))

  unfoldable pub transfer_ownership : ℕ → M OrgOut
  transfer_ownership new_owner_user_id = do
    require_owner current_user org_id
    org ← get_org_or_404 org_id
    new_owner_membership ← membership_in "active" no_target new_owner_user_id org_id
    prior_owner_membership ← get_membership org.owner_user_id org_id
    modify (demote_prior prior_owner_membership)
    modify (update_membership new_owner_membership.id (set_member_role "owner"))
    modify (update_org org.id (λ o. record o { owner_user_id = new_owner_user_id }))
    commit
    log_audit_event now request "org_ownership_transferred" current_user.username
        (some (org_target org_id)) true
        (("new_owner_user_id", number new_owner_user_id)
          ∷ ("prior_owner_user_id", number org.owner_user_id)
          ∷ [])
    pure (org_out (some "owner") (record org { owner_user_id = new_owner_user_id }))
