-- ===== src/Orgs/Tenancy.antt =====
-- Who is in an organization is decided by those who manage it.
use mathlib.Core.List.{append-nil}
use secure_api.Prelude.{
  ℕ, ◌==◌, ◌≡◌, refl, ◌∙◌, inl, inr, String, Bool, false, ◌&&◌, Option, none, some, List, [], ◌∷◌,
  arith, str_eq, keep, keep-append, All,
}
use secure_api.Models.{User, OrgMembership, Db}
use secure_api.Session.{Request, run, ok, one_or_none, one_or_none-cases}
use secure_api.Session.Query.{
  select, update_where, keep-update_where, keep-update_where-All, keep-one,
}
use secure_api.Session.Keys.{Keyed, Ascending, keep-key}
use secure_api.Orgs.{
  membership_of, decide, set_member_role, reopen, new_membership, request_to_join, approve_member,
  reject_member, update_member, remove_member, transfer_ownership,
}
use secure_api.Orgs.Guards.{Manages}
use secure_api.Orgs.Members.{
  Changed, approve_member_effect, reject_member_effect, remove_member_effect,
}
use secure_api.Orgs.Joining.{
  demoted, Transferred, update_member_effect, request_to_join_effect, transfer_ownership_effect,
}

-- a request to one of the routes that change memberships
pub data OrgAction : Type 0 where
  join : (org_id : ℕ) → OrgAction
  approve : (org_id user_id : ℕ) → OrgAction
  reject : (org_id user_id : ℕ) → OrgAction
  set_role : (org_id user_id : ℕ) → String → OrgAction
  remove : (org_id user_id : ℕ) → OrgAction
  transfer : (org_id user_id : ℕ) → OrgAction

unfoldable pub perform : ℕ → Request → User → OrgAction → Db → Db
perform now request actor (join o) db = (run (request_to_join now request actor o) db).db
perform now request actor (approve o u) db = (run (approve_member now request actor o u) db).db
perform now request actor (reject o u) db = (run (reject_member now request actor o u) db).db
perform now request actor (set_role o u role) db =
    (run (update_member now request actor o u role) db).db
perform now request actor (remove o u) db = (run (remove_member now request actor o u) db).db
perform now request actor (transfer o u) db = (run (transfer_ownership now request actor o u) db).db

-- the active memberships of an organization
abbrev pub in_org : ℕ → OrgMembership → Bool
in_org org_id m = m.org_id == org_id && str_eq m.status "active"

abbrev pub active_members : ℕ → Db → List OrgMembership
active_members org_id db = select (in_org org_id) db.memberships

module _ (db : Db) (ordered : Ascending (λ (m : OrgMembership). m.id) db.memberships.rows)
    (org_id : ℕ) where
  -- an update of a membership that is not active in the organization, before or after
  elsewhere :
      (p : OrgMembership → Bool) (m : OrgMembership) (f : OrgMembership → OrgMembership)
      → select p db.memberships ≡ m ∷ []
      → in_org org_id m ≡ false
      → in_org org_id (f m) ≡ false
      → keep (in_org org_id) (update_where (λ x. x.id == m.id) f db.memberships.rows)
        ≡ active_members org_id db
  elsewhere p m f found out out' =
      keep-update_where-All (in_org org_id) (λ x. x.id == m.id) f db.memberships.rows
        (rw (keep-key (λ x. x.id) p db.memberships.rows ordered found) ((out, out'), tt))

  other_org :
      (now : ℕ) (user_id other : ℕ) (from : String) (f : OrgMembership → OrgMembership) (db' : Db)
      → ¬ (other ≡ org_id)
      → ((m : OrgMembership) → (f m).org_id ≡ m.org_id)
      → Changed db db' user_id other from f
      → active_members org_id db' ≡ active_members org_id db
  other_org now user_id other from f db' differs same h =
      let matched = keep-one (membership_of user_id other) db.memberships.rows h.found in
      let out : in_org org_id h.m ≡ false = ground arith in
      let out' : in_org org_id (f h.m) ≡ false = ground (arith, same h.m) in
      rw h.rows (elsewhere (membership_of user_id other) h.m f h.found out out')

  demoted_elsewhere :
      (prior : Option OrgMembership) (user_id other : ℕ)
      → ¬ (other ≡ org_id)
      → one_or_none (select (membership_of user_id other) db.memberships) ≡ ok prior
      → keep (in_org org_id) (demoted prior db.memberships).rows ≡ active_members org_id db
  demoted_elsewhere none user_id other differs found = refl
  demoted_elsewhere (some p) user_id other differs found =
      elim (one_or_none-cases (select (membership_of user_id other) db.memberships)) [
        | inl nobody ↦ absurd (ground arith)
        | inr (inr many) ↦ absurd (ground arith)
        | inr (inl (m, held)) ↦
            let same : m ≡ p = ground arith in
            let held' : select (membership_of user_id other) db.memberships ≡ p ∷ [] =
              rw same at held in
            let matched = keep-one (membership_of user_id other) db.memberships.rows held' in
            let out : in_org org_id p ≡ false = ground arith in
            let out' : in_org org_id (set_member_role "editor" p) ≡ false = ground arith in
            elsewhere (membership_of user_id other) p (set_member_role "editor") held' out out'
      ]

  -- what the demotion leaves of the row that becomes the owner's
  promoted_row :
      (prior : Option OrgMembership) (p : OrgMembership → Bool) (m : OrgMembership)
      → select p db.memberships ≡ m ∷ []
      → in_org org_id m ≡ false
      → All
          (λ x. (in_org org_id x ≡ false) × (in_org org_id (set_member_role "owner" x) ≡ false))
          (keep (λ x. x.id == m.id) (demoted prior db.memberships).rows)
  promoted_row none p m found out =
      rw (keep-key (λ x. x.id) p db.memberships.rows ordered found) ((out, out), tt)
  promoted_row (some q) p m found out =
      rw
        (
          keep-update_where (λ x. x.id == m.id) (λ x. x.id == q.id) (set_member_role "editor")
              db.memberships.rows (λ x. refl),
          keep-key (λ x. x.id) p db.memberships.rows ordered found,
        )
        (unfold update_where in ground arith)

  Transferred-elsewhere :
      (now : ℕ) (request : Request) (actor : User) (user_id other : ℕ) (db' : Db)
      → ¬ (other ≡ org_id)
      → Transferred now request actor other user_id db db'
      → active_members org_id db' ≡ active_members org_id db
  Transferred-elsewhere now request actor user_id other db' differs h =
      let matched = keep-one (membership_of user_id other) db.memberships.rows h.found in
      let out : in_org org_id h.m ≡ false = ground arith in
      rw h.rows (
        keep-update_where-All (in_org org_id) (λ x. x.id == h.m.id) (set_member_role "owner")
          (demoted h.prior db.memberships).rows
          (promoted_row h.prior (membership_of user_id other) h.m h.found out)
        ∙ demoted_elsewhere h.prior h.org.owner_user_id other differs h.prior-eq)

module _ (now : ℕ) (request : Request) (actor : User) (org_id : ℕ) (db : Db)
    (ordered : Keyed (λ (m : OrgMembership). m.id) db.memberships)
    (outsider : ¬ Manages db actor org_id) where
  not_here : (other : ℕ) → Manages db actor other → ¬ (other ≡ org_id)
  not_here other may same = outsider (rw same at may)

  -- If the memberships have ascending keys and the actor is neither a platform admin nor an active
  -- owner of an organization, no request of the actor to the routes that change memberships, of
  -- that organization or of another, changes who is an active member of it, or in which role.
  pub active_members-perform :
      (a : OrgAction)
      → active_members org_id (perform now request actor a db) ≡ active_members org_id db
  unfolding perform
  active_members-perform (join o) = elim (request_to_join_effect now request actor o db) [
    | inl (e, refused, kept) ↦ rw kept
    | inr (inl (m, found, inactive, rows)) ↦ rw rows (
        elsewhere db ordered.1 org_id (membership_of actor.id o) m reopen found (ground arith)
          (ground arith))
    | inr (inr (nothing, rows)) ↦ rw rows (
        keep-append (in_org org_id) db.memberships.rows
          (new_membership now actor.id o db.memberships.next_id ∷ [])
        ∙ ground (arith, append-nil (active_members org_id db)))
  ]
  active_members-perform (approve o u) = elim (approve_member_effect now request actor o u db) [
    | inl (e, refused, kept) ↦ rw kept
    | inr (may, h) ↦
        other_org db ordered.1 org_id now u o "pending" (decide now "active") _ (not_here o may)
          (λ m. refl) h
  ]
  active_members-perform (reject o u) = elim (reject_member_effect now request actor o u db) [
    | inl (e, refused, kept) ↦ rw kept
    | inr (done, may, h) ↦
        other_org db ordered.1 org_id now u o "pending" (decide now "revoked") _ (not_here o may)
          (λ m. refl) h
  ]
  active_members-perform (remove o u) = elim (remove_member_effect now request actor o u db) [
    | inl (e, refused, kept) ↦ rw kept
    | inr (done, may, org, h) ↦
        other_org db ordered.1 org_id now u o "active" (decide now "revoked") _ (not_here o may)
          (λ m. refl) h
  ]
  active_members-perform (set_role o u role) =
      elim (update_member_effect now request actor o u role db) [
        | inl (e, refused, kept) ↦ rw kept
        | inr (may, h) ↦
            other_org db ordered.1 org_id now u o "active" (set_member_role role) _ (not_here o may)
              (λ m. refl) h
      ]
  active_members-perform (transfer o u) =
      elim (transfer_ownership_effect now request actor o u db) [
        | inl (e, refused, kept) ↦ rw kept
        | inr (may, h) ↦
            Transferred-elsewhere db ordered.1 org_id now request actor u o _ (not_here o may) h
      ]
