-- ===== src/Orgs/Creation.antt =====
-- app/routers/orgs.py: creating an organization, with the loop that looks for a free slug.
pub mod Slugs
pub mod Effects
use secure_api.Prelude.{
  ℕ, zero, suc, ◌+◌, ◌==◌, leb, Bool, true, false, not, ◌&&◌, ◌||◌, Option, none, some, List, [],
  ◌∷◌, ◌++◌, String, reverse, length, Text, teq, decimal, codes, if◌then◌else◌,
}
use secure_api.Models.{User, Organization, OrgMembership, Db, text, org_target}
use secure_api.Session.{
  crash, M, Request, pure, raise, gets, lift, modify, commit, log_audit_event, one_or_none, ◌>>=◌,
  ◌>>◌,
}
use secure_api.Session.Query.{select, insert_row}
use secure_api.Pathutil.{Unicode}
use secure_api.Orgs.{OrgOut, org_out}

-- a character that the pattern [^a-z0-9] leaves in place
abbrev is_slug_char : ℕ → Bool
is_slug_char c = leb b'a' c && leb c b'z' || leb b'0' c && leb c b'9'

-- _SLUG_STRIP_RE.sub("-", s), where the flag says that the last character was in a run
unfoldable pub hyphenate : Bool → Text → Text
hyphenate in_run [] = []
hyphenate in_run (c ∷ s) =
    let kept = is_slug_char c in
    let rest = hyphenate (not kept) s in
    if kept then c ∷ rest else if in_run then rest else b'-' ∷ rest

unfoldable pub strip_hyphens_left : Text → Text
strip_hyphens_left [] = []
strip_hyphens_left (c ∷ s) = let rest = strip_hyphens_left s in if c == b'-' then rest else c ∷ s

-- s or "org"
abbrev or_org : Text → Text
or_org [] = codes "org"
or_org (c ∷ s) = c ∷ s

unfoldable pub slug_base : Unicode → Text → Text
unfolding hyphenate strip_hyphens_left
slug_base u name =
    or_org
      (reverse (strip_hyphens_left (reverse (strip_hyphens_left (hyphenate false (u.lower name))))))

-- Organization.slug == slug
abbrev pub has_slug : Text → Organization → Bool
has_slug slug org = teq org.slug slug

-- f"{base}-{n}"
abbrev pub numbered_slug : Text → ℕ → Text
numbered_slug base n = base ++ b'-' ∷ decimal n

abbrev pub unless_taken : Text → M Text → Option Organization → M Text
unless_taken slug retry none = pure slug
unless_taken slug retry (some org) = retry

-- the loop of _slugify, which queries at most as often as the fuel says
unfoldable pub next_slug : Text → ℕ → ℕ → Text → M Text
next_slug base zero n slug = raise crash
next_slug base (suc fuel) n slug = do
  rows ← gets (λ db. select (has_slug slug) db.organizations)
  found ← lift (one_or_none rows)
  unless_taken slug (next_slug base fuel (n + 1) (numbered_slug base (n + 1))) found

-- one query more than there are organizations
unfoldable pub slugify : Unicode → Text → M Text
slugify u name = do
  count ← gets (λ db. length db.organizations.rows)
  next_slug (slug_base u name) (suc count) 1 (slug_base u name)

abbrev pub new_org : ℕ → String → ℕ → Text → ℕ → Organization
new_org now name owner slug id = record {
  id = id;
  name = name;
  slug = slug;
  owner_user_id = owner;
  created_at = now;
}

-- created_at is the column's default
abbrev pub owner_row : ℕ → ℕ → ℕ → ℕ → OrgMembership
owner_row now user_id org_id id = record {
  id = id;
  user_id = user_id;
  org_id = org_id;
  role = "owner";
  status = "active";
  created_at = now;
  decided_at = some now;
}

-- the rows of the new organization and of its owner's membership
abbrev pub with_org : ℕ → User → String → Text → Db → Db
with_org now current_user name slug db = record db {
  organizations = insert_row (new_org now name current_user.id slug) db.organizations;
  memberships = insert_row (owner_row now current_user.id db.organizations.next_id) db.memberships;
}

unfoldable pub create_org : Unicode → ℕ → Request → User → String → M OrgOut
create_org u now request current_user name = do
  slug ← slugify u (codes name)
  id ← gets (λ db. db.organizations.next_id)
  modify (with_org now current_user name slug)
  commit
  log_audit_event now request "org_created" current_user.username (some (org_target id)) true
      (("name", text name) ∷ [])
  pure (org_out (some "owner") (new_org now name current_user.id slug id))
