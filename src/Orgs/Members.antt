-- ===== src/Orgs/Members.antt =====
-- What the handlers do to the table of memberships.
use secure_api.Prelude.{ℕ, ◌==◌, ◌≡◌, ◌⊎◌, inl, inr, String, false, [], ◌∷◌, arith, Bool-cases}
use secure_api.Models.{User, Organization, OrgMembership, Db}
use secure_api.Session.{Error, Request, Session, run, ok, err, one-cases, http}
use secure_api.Session.Query.{select, update_rows}
use secure_api.Orgs.{
  membership_of, decide, approve_member, reject_member, remove_member, no_request, not_member,
}
use secure_api.Auth.Base.{has_id}
use secure_api.Orgs.Guards.{Manages, require_owner-cases, membership_in-cases, get_org_or_404-cases}

-- One membership, found in the table in the state `from`, was changed by `f`, and no other.
pub record Changed (db db' : Db) (user_id org_id : ℕ) (from : String)
    (f : OrgMembership → OrgMembership) : Type 0 where
  pub m : OrgMembership
  pub found : select (membership_of user_id org_id) db.memberships ≡ m ∷ []
  pub was : m.status ≡ from
  pub rows : db'.memberships ≡ update_rows (λ x. x.id == m.id) f db.memberships

abbrev pub start : Db → Session
start db = record { committed = db; working = db; stdout = [] }

module _ (now : ℕ) (request : Request) (actor : User) (org_id user_id : ℕ) (db : Db) where
  -- Approving a member is answered with an error that leaves the database as it was, or the caller
  -- manages the organization and the user's pending request has become active; nothing else in the
  -- table of memberships changes.
  pub approve_member_effect :
      let outcome = run (approve_member now request actor org_id user_id) db in
      ((e : Error) × (outcome.response ≡ err e) × (outcome.db ≡ db))
      ⊎ (Manages db actor org_id
          × Changed db outcome.db user_id org_id "pending" (decide now "active"))
  unfolding approve_member
  approve_member_effect = elim (require_owner-cases actor org_id (start db)) [
    | inl (e, refused) ↦ inl (e, ground arith, ground arith)
    | inr (may, passed) ↦
        elim (membership_in-cases "pending" no_request user_id org_id (start db)) [
          | inl (e, refused) ↦ inl (e, ground arith, ground arith)
          | inr (m, found, was, same) ↦ elim (one-cases (select (has_id user_id) db.users)) [
            | inl gone ↦ inr (may, record { m = m; found = found; was = was; rows = ground arith })
            | inr (user, named) ↦
                inr (may, record { m = m; found = found; was = was; rows = ground arith })
          ]
        ]
  ]

  -- Rejecting a member is answered with an error that leaves the database as it was, or the caller
  -- manages the organization and the user's pending request has become revoked; nothing else in
  -- the table of memberships changes.
  pub reject_member_effect :
      let outcome = run (reject_member now request actor org_id user_id) db in
      ((e : Error) × (outcome.response ≡ err e) × (outcome.db ≡ db))
      ⊎ ((outcome.response ≡ ok tt)
          × Manages db actor org_id
          × Changed db outcome.db user_id org_id "pending" (decide now "revoked"))
  unfolding reject_member
  reject_member_effect = elim (require_owner-cases actor org_id (start db)) [
    | inl (e, refused) ↦ inl (e, ground arith, ground arith)
    | inr (may, passed) ↦
        elim (membership_in-cases "pending" no_request user_id org_id (start db)) [
          | inl (e, refused) ↦ inl (e, ground arith, ground arith)
          | inr (m, found, was, same) ↦
              inr
                (ground arith, may, record { m = m; found = found; was = was; rows = ground arith })
        ]
  ]

  -- Removing a member is answered with an error that leaves the database as it was, or the caller
  -- manages the organization, the user is not its owner, and the user's active membership has
  -- become revoked; nothing else in the table of memberships changes.
  pub remove_member_effect :
      let outcome = run (remove_member now request actor org_id user_id) db in
      ((e : Error) × (outcome.response ≡ err e) × (outcome.db ≡ db))
      ⊎ ((outcome.response ≡ ok tt)
          × Manages db actor org_id
          × ((org : Organization) × (select (λ o. o.id == org_id) db.organizations ≡ org ∷ [])
              × (org.owner_user_id == user_id ≡ false))
          × Changed db outcome.db user_id org_id "active" (decide now "revoked"))
  unfolding remove_member
  remove_member_effect = elim (require_owner-cases actor org_id (start db)) [
    | inl (e, refused) ↦ inl (e, ground arith, ground arith)
    | inr (may, passed) ↦ elim (get_org_or_404-cases org_id (start db)) [
      | inl (e, refused) ↦ inl (e, ground arith, ground arith)
      | inr (org, exists, there) ↦ elim (Bool-cases (org.owner_user_id == user_id)) [
        | inl owns ↦ inl (
          http 400 "Cannot remove the organization owner — transfer ownership first",
          ground arith,
          ground arith,
        )
        | inr other ↦ elim (membership_in-cases "active" not_member user_id org_id (start db)) [
          | inl (e, refused) ↦ inl (e, ground arith, ground arith)
          | inr (m, found, was, same) ↦ inr (
            ground arith,
            may,
            (org, exists, other),
            record { m = m; found = found; was = was; rows = ground arith },
          )
        ]
      ]
    ]
  ]
