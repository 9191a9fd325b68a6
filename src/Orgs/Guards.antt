-- ===== src/Orgs/Guards.antt =====
-- The guards of the organization handlers, and who gets past them.
use secure_api.Prelude.{
  ℕ, ◌==◌, ◌≡◌, refl, ap, ◌∙◌, some, str_eq, ◌⊎◌, inl, inr, true, false, [], ◌∷◌, arith, Some,
  eq_iff, String, Bool-cases, Option-cases,
}
use secure_api.Models.{User, Organization, OrgMembership, Db}
use secure_api.Session.{Error, crash, Session, ok, err, one_or_none-cases}
use secure_api.Session.Query.{select, keep-one, Some-keep}
use secure_api.Security.{OrgRole, parse_org_role, org_role_lt, is_platform_admin}
use secure_api.Deps.OrgContext.Isolation.{Gives}
use secure_api.Orgs.{membership_of, not_owner, require_owner, membership_in, get_org_or_404, no_org}

-- who may manage an organization: a platform admin, or an active owner of it
pub data Manages (db : Db) (actor : User) (org_id : ℕ) : Type 0 where
  platform : is_platform_admin actor.role ≡ true → Manages db actor org_id
  owner : Some (Gives actor.id org_id OrgRole.owner) db.memberships.rows → Manages db actor org_id

owner-highest : (role : OrgRole) → org_role_lt role OrgRole.owner ≡ false → role ≡ OrgRole.owner
unfolding org_role_lt
owner-highest OrgRole.viewer h = absurd (ground arith)
owner-highest OrgRole.editor h = absurd (ground arith)
owner-highest OrgRole.owner h = refl

owner-Gives :
    (user_id org_id : ℕ) (m : OrgMembership)
    → membership_of user_id org_id m ≡ true
    → str_eq m.status "active" ≡ true
    → parse_org_role m.role ≡ some OrgRole.owner
    → Gives user_id org_id OrgRole.owner m
owner-Gives user_id org_id m matched active parsed = record {
  of_user = ground arith;
  of_org = ground arith;
  active = ground (arith, eq_iff m.status "active");
  with_role = parsed;
}

-- The guard changes nothing, and lets nobody else through.
pub require_owner-cases :
    (actor : User) (org_id : ℕ) (s : Session)
    → ((e : Error) × (require_owner actor org_id s ≡ (err e, s)))
      ⊎ (Manages s.working actor org_id × (require_owner actor org_id s ≡ (ok tt, s)))
unfolding require_owner
require_owner-cases actor org_id s = elim (Bool-cases (is_platform_admin actor.role)) [
  | inl admin ↦ inr (platform admin, rw admin)
  | inr plain ↦
      elim (one_or_none-cases (select (membership_of actor.id org_id) s.working.memberships)) [
        | inl none' ↦ inl (not_owner, rw (plain, none'))
        | inr (inr many) ↦ inl (crash, rw (plain, many))
        | inr (inl (m, found)) ↦ elim (Bool-cases (str_eq m.status "active")) [
          | inr inactive ↦ inl (not_owner, rw (plain, found, inactive))
          | inl active ↦ elim (Option-cases (parse_org_role m.role)) [
            | inl unknown ↦ inl (crash, rw (plain, found, active, unknown))
            | inr (role, parsed) ↦ elim (Bool-cases (org_role_lt role OrgRole.owner)) [
              | inl lower ↦ inl (not_owner, rw (plain, found, active, parsed, lower))
              | inr highest ↦ inr (
                owner (
                    Some-keep (membership_of actor.id org_id) (Gives actor.id org_id OrgRole.owner)
                      s.working.memberships.rows found
                      (owner-Gives actor.id org_id m
                        (keep-one (membership_of actor.id org_id) _ found) active
                        (parsed ∙ ap some (owner-highest role highest)))),
                rw (plain, found, active, parsed, highest),
              )
            ]
          ]
        ]
      ]
]

-- A membership is found in the state that is asked for, or an error leaves.
pub membership_in-cases :
    (status : String) (missing : Error) (user_id org_id : ℕ) (s : Session)
    → ((e : Error) × (membership_in status missing user_id org_id s ≡ (err e, s)))
      ⊎ ((m : OrgMembership) × (select (membership_of user_id org_id) s.working.memberships
            ≡ m ∷ [])
          × (m.status ≡ status)
          × (membership_in status missing user_id org_id s ≡ (ok m, s)))
unfolding membership_in
membership_in-cases status missing user_id org_id s =
    elim (one_or_none-cases (select (membership_of user_id org_id) s.working.memberships)) [
      | inl nobody ↦ inl (missing, rw nobody)
      | inr (inr many) ↦ inl (crash, rw many)
      | inr (inl (m, found)) ↦ elim (Bool-cases (str_eq m.status status)) [
        | inr other ↦ inl (missing, rw (found, other))
        | inl same ↦ inr (m, found, ground (arith, eq_iff m.status status), rw (found, same))
      ]
    ]

pub get_org_or_404-cases :
    (org_id : ℕ) (s : Session)
    → ((e : Error) × (get_org_or_404 org_id s ≡ (err e, s)))
      ⊎ ((org : Organization) × (select (λ o. o.id == org_id) s.working.organizations ≡ org ∷ [])
          × (get_org_or_404 org_id s ≡ (ok org, s)))
unfolding get_org_or_404
get_org_or_404-cases org_id s =
    elim (one_or_none-cases (select (λ o. o.id == org_id) s.working.organizations)) [
      | inl nowhere ↦ inl (no_org, rw nowhere)
      | inr (inr many) ↦ inl (crash, rw many)
      | inr (inl (org, found)) ↦ inr (org, found, rw found)
    ]
