-- ===== src/Orgs/Joining.antt =====
-- What a join request, a change of role and a transfer of ownership do.
use secure_api.Prelude.{
  ℕ, ◌==◌, ◌≡◌, ◌⊎◌, inl, inr, String, false, Option, none, some, [], ◌∷◌, arith, str_eq,
  Bool-cases,
}
use secure_api.Models.{User, Organization, OrgMembership, Db, Table}
use secure_api.Session.{
  Error, crash, http, Request, run, ok, err, one_or_none, one-cases, one_or_none-cases,
}
use secure_api.Session.Query.{select, update_where, update_rows, insert_row}
use secure_api.Auth.Base.{has_id}
use secure_api.Orgs.{
  membership_of, set_member_role, reopen, new_membership, request_to_join, update_member,
  transfer_ownership, not_member, no_target,
}
use secure_api.Orgs.Guards.{Manages, require_owner-cases, membership_in-cases, get_org_or_404-cases}
use secure_api.Orgs.Members.{Changed, start}

module _ (now : ℕ) (request : Request) (actor : User) (org_id user_id : ℕ) (role : String)
    (db : Db) where
  -- Changing a member's role is answered with an error that leaves the database as it was, or the
  -- caller manages the organization and the user's active membership has the new role; nothing
  -- else in the table of memberships changes.
  pub update_member_effect :
      let outcome = run (update_member now request actor org_id user_id role) db in
      ((e : Error) × (outcome.response ≡ err e) × (outcome.db ≡ db))
      ⊎ (Manages db actor org_id
          × Changed db outcome.db user_id org_id "active" (set_member_role role))
  unfolding update_member
  update_member_effect = elim (require_owner-cases actor org_id (start db)) [
    | inl (e, refused) ↦ inl (e, ground arith, ground arith)
    | inr (may, passed) ↦ elim (membership_in-cases "active" not_member user_id org_id (start db)) [
      | inl (e, refused) ↦ inl (e, ground arith, ground arith)
      | inr (m, found, was, same) ↦ elim (one-cases (select (has_id user_id) db.users)) [
        | inl gone ↦ inr (may, record { m = m; found = found; was = was; rows = ground arith })
        | inr (user, named) ↦
            inr (may, record { m = m; found = found; was = was; rows = ground arith })
      ]
    ]
  ]

module _ (now : ℕ) (request : Request) (actor : User) (org_id : ℕ) (db : Db) where
  -- the two ways a request is recorded
  abbrev pub Reopened : Db → Type 0
  Reopened db' =
      (m : OrgMembership) × (select (membership_of actor.id org_id) db.memberships ≡ m ∷ [])
      × (str_eq m.status "active" ≡ false)
      × (db'.memberships ≡ update_rows (λ x. x.id == m.id) reopen db.memberships)

  abbrev pub Opened : Db → Type 0
  Opened db' =
      (select (membership_of actor.id org_id) db.memberships ≡ [])
      × (db'.memberships ≡ insert_row (new_membership now actor.id org_id) db.memberships)

  -- A join request is answered with an error that leaves the database as it was, or it turns the
  -- caller's only membership row in the organization, which is not active, into a pending one, or
  -- it adds a pending row where the caller had none.
  pub request_to_join_effect :
      let outcome = run (request_to_join now request actor org_id) db in
      ((e : Error) × (outcome.response ≡ err e) × (outcome.db ≡ db))
      ⊎ Reopened outcome.db
      ⊎ Opened outcome.db
  unfolding request_to_join
  request_to_join_effect = elim (get_org_or_404-cases org_id (start db)) [
    | inl (e, refused) ↦ inl (e, ground arith, ground arith)
    | inr (org, exists, there) ↦
        elim (one_or_none-cases (select (membership_of actor.id org_id) db.memberships)) [
          | inl nothing ↦ inr (inr (nothing, ground arith))
          | inr (inr many) ↦ inl (crash, ground arith, ground arith)
          | inr (inl (m, found)) ↦ elim (Bool-cases (str_eq m.status "active")) [
            | inl active ↦ inl (http 409 "Already a member", ground arith, ground arith)
            | inr inactive ↦ elim (Bool-cases (str_eq m.status "pending")) [
              | inl pending ↦
                  inl (http 409 "Join request already pending", ground arith, ground arith)
              | inr free ↦ inr (inl (m, found, inactive, ground arith))
            ]
          ]
        ]
  ]

-- the memberships in which the given one is an editor's
abbrev pub demoted : Option OrgMembership → Table OrgMembership → Table OrgMembership
demoted none memberships = memberships
demoted (some p) memberships =
    update_rows (λ x. x.id == p.id) (λ x. record x { role = "editor" }) memberships

module _ (now : ℕ) (request : Request) (actor : User) (org_id user_id : ℕ) (db : Db) where
  -- what a transfer finds, and what it leaves
  pub record Transferred (db' : Db) : Type 0 where
    pub org : Organization
    pub exists : select (λ o. o.id == org_id) db.organizations ≡ org ∷ []
    pub m : OrgMembership
    pub found : select (membership_of user_id org_id) db.memberships ≡ m ∷ []
    pub was : m.status ≡ "active"
    pub prior : Option OrgMembership
    pub prior-eq :
        one_or_none (select (membership_of org.owner_user_id org_id) db.memberships) ≡ ok prior
    pub rows :
        db'.memberships
        ≡ update_rows
            (λ x. x.id == m.id)
            (λ x. record x { role = "owner" })
            (demoted prior db.memberships)
    pub owner :
        db'.organizations.rows
        ≡ update_where
            (λ o. o.id == org.id)
            (λ o. record o { owner_user_id = user_id })
            db.organizations.rows

  -- A transfer is answered with an error that leaves the database as it was, or the caller manages
  -- the organization, the new owner is an active member of it, the prior owner's membership (if
  -- there is one) becomes an editor's, then the new owner's becomes an owner's, and the
  -- organization names the new owner.
  pub transfer_ownership_effect :
      let outcome = run (transfer_ownership now request actor org_id user_id) db in
      ((e : Error) × (outcome.response ≡ err e) × (outcome.db ≡ db))
      ⊎ (Manages db actor org_id × Transferred outcome.db)
  unfolding transfer_ownership
  transfer_ownership_effect = elim (require_owner-cases actor org_id (start db)) [
    | inl (e, refused) ↦ inl (e, ground arith, ground arith)
    | inr (may, passed) ↦ elim (get_org_or_404-cases org_id (start db)) [
      | inl (e, refused) ↦ inl (e, ground arith, ground arith)
      | inr (org, exists, there) ↦
          elim (membership_in-cases "active" no_target user_id org_id (start db)) [
            | inl (e, refused) ↦ inl (e, ground arith, ground arith)
            | inr (m, found, was, same) ↦
                elim (one_or_none-cases
                  (select (membership_of org.owner_user_id org_id) db.memberships)) [
                    | inl nothing ↦ inr (
                      may,
                      record {
                        org = org;
                        exists = exists;
                        m = m;
                        found = found;
                        was = was;
                        prior = none;
                        prior-eq = ground arith;
                        rows = ground arith;
                        owner = ground arith;
                      },
                    )
                    | inr (inr many) ↦ inl (crash, ground arith, ground arith)
                    | inr (inl (p, held)) ↦ inr (
                      may,
                      record {
                        org = org;
                        exists = exists;
                        m = m;
                        found = found;
                        was = was;
                        prior = some p;
                        prior-eq = ground arith;
                        rows = ground arith;
                        owner = ground arith;
                      },
                    )
                  ]
          ]
    ]
  ]
