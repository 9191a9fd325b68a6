-- ===== src/Orgs/Creation/Effects.antt =====
-- What creating an organization leaves in the database.
use secure_api.Prelude.{
  ℕ, ◌≤◌, ◌≡◌, refl, subst, some, String, [], ◌∷◌, ◌++◌, arith, length, keep, keep-append,
  length-append, Bool-cases, inl, inr, Text, teq, teq→eq, codes,
}
use secure_api.Models.{Table, User, Organization}
use secure_api.Session.{Session, Request, ok}
use secure_api.Session.Query.{insert_row}
use secure_api.Pathutil.{Unicode}
use secure_api.Security.{OrgRole, parse_org_role}
use secure_api.Deps.OrgContext.Isolation.{Gives}
use secure_api.Orgs.{org_out}
use secure_api.Orgs.Creation.{has_slug, slug_base, new_org, owner_row, create_org}
use secure_api.Orgs.Creation.Slugs.{candidate, FirstFree, UniqueSlugs, slugify_lem}

insert_row-UniqueSlugs :
    (now owner : ℕ) (name : String) (slug : Text) (t : Table Organization)
    → UniqueSlugs t
    → keep (has_slug slug) t.rows ≡ []
    → UniqueSlugs (insert_row (new_org now name owner slug) t)
insert_row-UniqueSlugs now owner name slug t unique free other =
    elim (Bool-cases (teq slug other)) [
      | inl hit ↦
          let empty : keep (has_slug other) t.rows ≡ [] =
            subst (λ z. keep (has_slug z) t.rows ≡ []) (teq→eq slug other hit) free in
          rw
            (
              keep-append (has_slug other) t.rows (new_org now name owner slug t.next_id ∷ []),
              empty,
              hit,
            )
            (omega arith)
      | inr miss ↦
          let whole : length (keep (has_slug other) t.rows ++ []) ≤ 1 =
            omega (arith, unique other, length-append (keep (has_slug other) t.rows) []) in
          rw
            (keep-append (has_slug other) t.rows (new_org now name owner slug t.next_id ∷ []), miss)
            whole
    ]

-- Where no two organizations share a slug, creating one always succeeds: the new organization has
-- the first slug of the series base, base-2, base-3, ... that no other one has, its creator gets an
-- active owner membership of it, both rows are committed, and still no two organizations share a
-- slug.
pub create_org_lem :
    (u : Unicode) (now : ℕ) (request : Request) (actor : User) (name : String) (s : Session)
    → UniqueSlugs s.working.organizations
    → let base = slug_base u (codes name) in
      let organizations = s.working.organizations in
      let (answer, after) = create_org u now request actor name s in
      (m : ℕ) × FirstFree base 1 m organizations.rows
      × (answer
          ≡ ok (
              org_out
                (some "owner")
                (new_org now name actor.id (candidate base m) organizations.next_id)))
      × (after.committed.organizations
          ≡ insert_row (new_org now name actor.id (candidate base m)) organizations)
      × (after.committed.memberships
          ≡ insert_row (owner_row now actor.id organizations.next_id) s.working.memberships)
      × Gives actor.id organizations.next_id OrgRole.owner
          (owner_row now actor.id organizations.next_id s.working.memberships.next_id)
      × UniqueSlugs after.committed.organizations
unfolding create_org parse_org_role
create_org_lem u now request actor name s unique =
    let base = slug_base u (codes name) in
    let (m, runs, first) = slugify_lem u (codes name) s unique in
    (
      m,
      first,
      rw runs refl,
      rw runs refl,
      rw runs refl,
      record { of_user = refl; of_org = refl; active = refl; with_role = refl },
      rw runs (
          insert_row-UniqueSlugs now actor.id name (candidate base m) s.working.organizations unique
            first.free),
    )
