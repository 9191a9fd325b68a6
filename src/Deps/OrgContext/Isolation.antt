-- ===== src/Deps/OrgContext/Isolation.antt =====
-- Tenant isolation: what stands behind every organization context.
use secure_api.Prelude.{
  ℕ, ◌==◌, ◌≡◌, refl, inl, inr, String, true, Option, none, some, List, [], ◌∷◌, ◌++◌, arith, Some,
  eq_iff, ==→eq, Option-cases,
}
use secure_api.Models.{Organization, OrgMembership, AuditLog, Db, Target, org_target}
use secure_api.Session.{Request, run, clip_agent, ok, one_or_none-cases}
use secure_api.Session.Query.{select, keep-one, Some-keep}
use secure_api.Security.{OrgRole, parse_org_role, is_platform_admin}
use secure_api.Deps.CurrentUser.{Caller}
use secure_api.Deps.OrgContext.{OrgContext, cross_org, active_in, active_of, resolve_org_context}

-- a membership row that gives the user this role in this organization
pub record Gives (user_id org_id : ℕ) (role : OrgRole) (m : OrgMembership) : Type 0 where
  pub of_user : m.user_id ≡ user_id
  pub of_org : m.org_id ≡ org_id
  pub active : m.status ≡ "active"
  pub with_role : parse_org_role m.role ≡ some role

-- the last audit record of `db'`, on top of those of `db`
pub record Logged (db db' : Db) (event actor : String) (target : Target) : Type 0 where
  pub row : AuditLog
  pub appended : db'.audit_log ≡ db.audit_log ++ row ∷ []
  pub event-eq : row.event_type ≡ event
  pub actor-eq : row.actor ≡ actor
  pub target-eq : row.target ≡ some target

-- the organization is the one that the header names; without a header it is that of the caller's
-- only active membership
pub data Asked (db : Db) (x_org_id : Option ℕ) (user_id org_id : ℕ) : Type 0 where
  header : x_org_id ≡ some org_id → Asked db x_org_id user_id org_id
  sole :
      x_org_id ≡ none
      → (m : OrgMembership) → select (active_of user_id) db.memberships ≡ m ∷ []
      → m.org_id ≡ org_id
      → Asked db x_org_id user_id org_id

-- Why a caller may act on an organization.
pub data Access (db db' : Db) (x_org_id : Option ℕ) (caller : Caller) (ctx : OrgContext)
    : Type 0 where
  key :
      caller.api_key_org_id ≡ some ctx.org_id
      → parse_org_role caller.user.role ≡ some ctx.role
      → Access db db' x_org_id caller ctx
  member :
      caller.api_key_org_id ≡ none
      → Asked db x_org_id caller.user.id ctx.org_id
      → Some (Gives caller.user.id ctx.org_id ctx.role) db.memberships.rows
      → Access db db' x_org_id caller ctx
  support :
      caller.api_key_org_id ≡ none
      → x_org_id ≡ some ctx.org_id
      → ctx ≡ cross_org ctx.org_id
      → is_platform_admin caller.user.role ≡ true
      → Some (λ o. o.id ≡ ctx.org_id) db.organizations.rows
      → Logged db db' "cross_org_access" caller.user.username (org_target ctx.org_id)
      → Access db db' x_org_id caller ctx

member-Gives :
    (user_id : ℕ) (m : OrgMembership) (role : OrgRole)
    → active_of user_id m ≡ true
    → parse_org_role m.role ≡ some role
    → Gives user_id m.org_id role m
member-Gives user_id m role matched parsed = record {
  of_user = ground arith;
  of_org = refl;
  active = ground (arith, eq_iff m.status "active");
  with_role = parsed;
}

module _ (now : ℕ) (request : Request) (x_org_id : Option ℕ) (caller : Caller) (db : Db)
    (ctx : OrgContext) where
  abbrev db' : Db
  db' = (run (resolve_org_context now request x_org_id caller) db).db

  abbrev rows : List OrgMembership
  rows = db.memberships.rows

  module _ (h : (run (resolve_org_context now request x_org_id caller) db).response ≡ ok ctx)
      (no_key : caller.api_key_org_id ≡ none) where
    support-Access :
        (org_id : ℕ) (org : Organization)
        → x_org_id ≡ some org_id
        → select (active_in caller.user.id org_id) db.memberships ≡ []
        → select (λ o. o.id == org_id) db.organizations ≡ org ∷ []
        → Access db db' x_org_id caller ctx
    unfolding resolve_org_context
    support-Access org_id org given nothing exists =
        let org-eq : org.id ≡ org_id =
          ==→eq _ _ (keep-one (λ o. o.id == org_id) db.organizations.rows exists) in
        let there : org.id ≡ ctx.org_id = ground arith in
        support no_key (ground arith) (ground arith) (ground arith)
          (Some-keep (λ o. o.id == org_id) (λ o. o.id ≡ ctx.org_id) db.organizations.rows exists
            there)
          (record {
            row = record {
              event_type = "cross_org_access";
              actor = caller.user.username;
              target = some (org_target org_id);
              ip = request.ip;
              user_agent = clip_agent request.user_agent;
              timestamp = now;
              details = [];
              success = true;
            };
            appended = ground arith;
            event-eq = refl;
            actor-eq = refl;
            target-eq = ground arith;
          })

    explicit-Access : (org_id : ℕ) → x_org_id ≡ some org_id → Access db db' x_org_id caller ctx
    unfolding resolve_org_context
    explicit-Access org_id given =
        elim (one_or_none-cases (select (active_in caller.user.id org_id) db.memberships)) [
          | inl nothing ↦ elim (one_or_none-cases (select (λ o. o.id == org_id) db.organizations)) [
            | inl nowhere ↦ absurd (ground arith)
            | inr (inl (org, exists)) ↦ support-Access org_id org given nothing exists
            | inr (inr many) ↦ absurd (ground arith)
          ]
          | inr (inl (m, found)) ↦
              let matched = keep-one (active_in caller.user.id org_id) rows found in
              let of_user : active_of caller.user.id m ≡ true = ground arith in
              let of_org : m.org_id ≡ ctx.org_id = ground arith in
              let parsed : parse_org_role m.role ≡ some ctx.role = ground arith in
              let asked : x_org_id ≡ some ctx.org_id = ground arith in
              member no_key (header asked) (
                Some-keep (active_in caller.user.id org_id)
                  (Gives caller.user.id ctx.org_id ctx.role) rows found
                  (rw (← of_org) (member-Gives caller.user.id m ctx.role of_user parsed)))
          | inr (inr many) ↦ absurd (ground arith)
        ]

    implicit-Access :
        (found : List OrgMembership)
        → x_org_id ≡ none
        → select (active_of caller.user.id) db.memberships ≡ found
        → Access db db' x_org_id caller ctx
    unfolding resolve_org_context
    implicit-Access [] absent found = absurd (ground arith)
    implicit-Access (m ∷ []) absent found =
        let of_org : m.org_id ≡ ctx.org_id = ground arith in
        let parsed : parse_org_role m.role ≡ some ctx.role = ground arith in
        let matched = keep-one (active_of caller.user.id) rows found in
        member no_key (sole absent m found of_org) (
          Some-keep (active_of caller.user.id) (Gives caller.user.id ctx.org_id ctx.role) rows found
            (rw (← of_org) (member-Gives caller.user.id m ctx.role matched parsed)))
    implicit-Access (m ∷ n ∷ more) absent found = absurd (ground arith)

  -- A context is never made up: it is the fixed organization of the caller's API key, with the
  -- key's role, whatever the header says; or that of an active membership of the caller, with the
  -- membership's role, which the X-Org-Id header names or which is the caller's only one where there
  -- is no header; or, with the rights of an owner, the existing organization that the header of a
  -- platform admin names, and then the access to that organization has been logged.
  pub resolve_org_context-sound :
      (run (resolve_org_context now request x_org_id caller) db).response ≡ ok ctx
      → Access db db' x_org_id caller ctx
  unfolding resolve_org_context
  resolve_org_context-sound h = elim (Option-cases caller.api_key_org_id) [
    | inr (org_id, bound) ↦ key (ground arith) (ground arith)
    | inl no_key ↦ elim (Option-cases x_org_id) [
      | inr (org_id, given) ↦ explicit-Access h no_key org_id given
      | inl absent ↦ implicit-Access h no_key _ absent refl
    ]
  ]
