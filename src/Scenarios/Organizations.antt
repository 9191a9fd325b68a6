-- ===== src/Scenarios/Organizations.antt =====
-- The theorems on memberships, applied.
use secure_api.Prelude.{
  ℕ, some, refl, codes, teq, decimal, digits_from, ◌≡◌, ◌⊎◌, inl, inr, [], arith,
}
use secure_api.Models.{OrgMembership}
use secure_api.Session.{Session, Error, run, ok, err}
use secure_api.Session.Query.{insert_row}
use secure_api.Session.Keys.{Keyed}
use secure_api.Security.{OrgRole, is_platform_admin, parse_org_role}
use secure_api.Orgs.{transfer_ownership, org_out}
use secure_api.Orgs.Creation.{
  new_org, owner_row, create_org, slugify, next_slug, slug_base, hyphenate, strip_hyphens_left,
}
use secure_api.Orgs.Creation.Slugs.{candidate, FirstFree, UniqueSlugs}
use secure_api.Orgs.Creation.Effects.{create_org_lem}
use secure_api.Deps.OrgContext.Isolation.{Gives}
use secure_api.Orgs.Guards.{Manages, platform, owner}
use secure_api.Orgs.Joining.{Transferred, transfer_ownership_effect}
use secure_api.Orgs.Tenancy.{OrgAction, perform, active_members, active_members-perform}
use secure_api.Scenarios.Discovery.{ascii}
use secure_api.Scenarios.{request, alice, dave, db}

abbrev opened : Session
opened = record { committed = db; working = db; stdout = [] }

slugs-UniqueSlugs : UniqueSlugs db.organizations
unfolding teq
slugs-UniqueSlugs slug = ground arith

create_org_lem_example :
    let base = slug_base ascii (codes "-first-") in
    let (answer, after) = create_org ascii 50 request dave "-first-" opened in
    (m : ℕ) × FirstFree base 1 m db.organizations.rows
    × (answer ≡ ok (org_out (some "owner") (new_org 50 "-first-" dave.id (candidate base m) 2)))
    × (after.committed.organizations
        ≡ insert_row (new_org 50 "-first-" dave.id (candidate base m)) db.organizations)
    × (after.committed.memberships ≡ insert_row (owner_row 50 dave.id 2) db.memberships)
    × Gives dave.id 2 OrgRole.owner (owner_row 50 dave.id 2 db.memberships.next_id)
    × UniqueSlugs after.committed.organizations
create_org_lem_example = create_org_lem ascii 50 request dave "-first-" opened slugs-UniqueSlugs

taken_slug :
    (create_org ascii 50 request dave "-first-" opened).0
    ≡ ok (org_out (some "owner") (new_org 50 "-first-" dave.id (codes "first-2") 2))
unfolding create_org slugify next_slug slug_base decimal digits_from hyphenate strip_hyphens_left
    teq
taken_slug = refl

transfer_ownership_effect_example :
    let outcome = run (transfer_ownership 50 request alice 1 4) db in
    ((e : Error) × (outcome.response ≡ err e) × (outcome.db ≡ db))
    ⊎ (Manages db alice 1 × Transferred 50 request alice 1 4 db outcome.db)
transfer_ownership_effect_example = transfer_ownership_effect 50 request alice 1 4 db

memberships-Keyed : Keyed (λ (m : OrgMembership). m.id) db.memberships
memberships-Keyed = ground arith

dave_outsider : ¬ Manages db dave 1
unfolding is_platform_admin parse_org_role
dave_outsider (platform h) = ground arith
dave_outsider (owner (inl m)) = let e = m.of_user in ground arith
dave_outsider (owner (inr (inl m))) = let e = m.with_role in ground arith
dave_outsider (owner (inr (inr (inl m)))) = let e = m.of_user in ground arith
dave_outsider (owner (inr (inr (inr none')))) = none'

active_members-perform_example :
    active_members 1 (perform 50 request dave (OrgAction.approve 1 3) db) ≡ active_members 1 db
active_members-perform_example =
    active_members-perform 50 request dave 1 db memberships-Keyed dave_outsider
      (OrgAction.approve 1 3)
