-- ===== src/Deps/OrgContext.antt =====
-- app/deps.py: which organization a request acts on, with which role: _resolve_org_context,
-- require_org_role, get_stream_org_context and require_stream_org_role.
pub mod Isolation
use Prim.Native.String
use secure_api.Prelude.{
  ℕ, ◌==◌, String, Text, teq, Bool, true, false, not, ◌&&◌, ◌||◌, Option, none, some, List, [], ◌∷◌,
  str_eq, if◌then◌else◌,
}
use secure_api.Models.{User, Organization, OrgMembership, Db, Target, org_target}
use secure_api.Session.{
  Error, http, crash, Result, ok, err, M, Request, pure, raise, gets, lift, log_audit_event,
  one_or_none, ◌>>=◌, ◌>>◌,
}
use secure_api.Session.Query.{select, first}
use secure_api.Security.{
  Crypto, Settings, Claims, OrgRole, parse_org_role, org_role_lt, org_role_value, is_platform_admin,
}
use secure_api.Auth.Base.{active_named}
use secure_api.Deps.CurrentUser.{Caller, get_current_user}

pub record OrgContext : Type 0 where
  pub org_id : ℕ
  pub role : OrgRole
  pub is_cross_org_admin : Bool

-- OrgMembership.user_id == user, OrgMembership.org_id == org, status == "active"
abbrev pub active_in : ℕ → ℕ → OrgMembership → Bool
active_in user_id org_id m = m.user_id == user_id && m.org_id == org_id && str_eq m.status "active"

abbrev pub active_of : ℕ → OrgMembership → Bool
active_of user_id m = m.user_id == user_id && str_eq m.status "active"

-- OrgRole(value): a ValueError is not caught
abbrev or_crash : Option OrgRole → M OrgRole
or_crash none = raise crash
or_crash (some role) = pure role

abbrev in_role : ℕ → String → M OrgContext
in_role org_id value = do
  role ← or_crash (parse_org_role value)
  pure (record { org_id = org_id; role = role; is_cross_org_admin = false })

abbrev pub no_membership : Error
no_membership = http 403 "No active membership in the requested organization"

abbrev pub cross_org : ℕ → OrgContext
cross_org org_id = record { org_id = org_id; role = OrgRole.owner; is_cross_org_admin = true }

module _ (now : ℕ) (request : Request) where
  -- a platform admin crosses over to an organization that exists, and it is logged
  cross_over : User → ℕ → Option Organization → M OrgContext
  cross_over user org_id none = raise no_membership
  cross_over user org_id (some org) = do
    log_audit_event now request "cross_org_access" user.username (some (org_target org_id)) true []
    pure (cross_org org_id)

  by_membership : User → ℕ → Option OrgMembership → M OrgContext
  by_membership user org_id (some m) = in_role org_id m.role
  by_membership user org_id none =
      if is_platform_admin user.role
      then (do
        rows ← gets (λ db. select (λ o. o.id == org_id) db.organizations)
        org ← lift (one_or_none rows)
        cross_over user org_id org)
      else raise no_membership

  explicit : User → ℕ → M OrgContext
  explicit user org_id = do
    rows ← gets (λ db. select (active_in user.id org_id) db.memberships)
    membership ← lift (one_or_none rows)
    by_membership user org_id membership

  -- the sole membership; none or several are no guess
  implicit : List OrgMembership → M OrgContext
  implicit [] =
      raise (http 400 "No organization membership — join an organization or pass X-Org-Id")
  implicit (m ∷ []) = in_role m.org_id m.role
  implicit (m ∷ n ∷ rest) =
      raise (http 400 "Caller belongs to multiple organizations — specify X-Org-Id")

  by_header : User → Option ℕ → M OrgContext
  by_header user (some org_id) = explicit user org_id
  by_header user none = do
    memberships ← gets (λ db. select (active_of user.id) db.memberships)
    implicit memberships

  -- a key never leaves its organization, whatever the header says
  by_caller : Option ℕ → User → Option ℕ → M OrgContext
  by_caller (some org_id) user x_org_id = in_role org_id user.role
  by_caller none user x_org_id = by_header user x_org_id

  unfoldable pub resolve_org_context : Option ℕ → Caller → M OrgContext
  unfolding by_caller by_header implicit explicit by_membership cross_over
  resolve_org_context x_org_id caller = by_caller caller.api_key_org_id caller.user x_org_id

-- the dependency that require_org_role and require_stream_org_role make
unfoldable pub require_org_role : OrgRole → OrgContext → M OrgContext
require_org_role min_role ctx =
    if org_role_lt ctx.role min_role
    then raise (
        http 403
          (String.◌++◌ "Requires org role '" (String.◌++◌ (org_role_value min_role) "' or higher")))
    else pure ctx

abbrev pub bad_ticket : Error
bad_ticket = http 401 "Invalid or expired stream ticket"

-- None and "" are no header
abbrev is_given : Option Text → Bool
is_given none = false
is_given (some value) = not (teq value [])

module _ (c : Crypto) (cfg : Settings) (now : ℕ) (request : Request) where
  stream_member : User → ℕ → Option OrgMembership → M OrgContext
  stream_member user org_id (some m) = in_role org_id m.role
  stream_member user org_id none =
      if is_platform_admin user.role then pure (cross_org org_id) else raise bad_ticket

  -- the membership is looked up again when the stream opens
  stream_user : Option User → Option ℕ → M OrgContext
  stream_user (some user) (some org_id) = do
    rows ← gets (λ db. select (active_in user.id org_id) db.memberships)
    membership ← lift (one_or_none rows)
    stream_member user org_id membership
  stream_user _ _ = raise bad_ticket

  stream_claims : Option Claims → M OrgContext
  stream_claims none = raise bad_ticket
  stream_claims (some payload) =
      if str_eq payload.kind "stream" && not (str_eq payload.sub "")
      then (do
        users ← gets (λ db. select (active_named payload.sub) db.users)
        stream_user (first users) payload.org)
      else raise bad_ticket

  by_ticket : Option Text → M OrgContext
  by_ticket none = raise bad_ticket
  by_ticket (some ticket) =
      if teq ticket [] then raise bad_ticket else stream_claims (c.jwt_decode now ticket)

  unfoldable pub get_stream_org_context :
      (ticket authorization x_monitor_key : Option Text) → Option ℕ → M OrgContext
  unfolding by_ticket stream_claims stream_user stream_member
  get_stream_org_context ticket authorization x_monitor_key x_org_id =
      if is_given authorization || is_given x_monitor_key
      then (do
        caller ← get_current_user c cfg now authorization x_monitor_key none
        resolve_org_context now request x_org_id caller)
      else by_ticket ticket
