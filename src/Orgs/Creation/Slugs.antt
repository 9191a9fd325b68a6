-- ===== src/Orgs/Creation/Slugs.antt =====
-- The search for a free slug ends, because the numbered slugs are all different.
use secure_api.Prelude.{
  ℕ, zero, suc, ◌+◌, ◌≤◌, ◌<◌, ◌≡◌, ◌==◌, refl, sym, ap, ◌∙◌, subst, Bool, true, false, not, List,
  [], ◌∷◌, ◌++◌, arith, length, drop, keep, append_nil, keep-keep_within, Bool-cases, inl, inr,
  Text, teq→eq, ==→eq, decimal, read_from, read_from-decimal, if◌then◌else◌,
}
use secure_api.Models.{Table, Organization}
use secure_api.Session.{Session, ok, one_or_none-cases, too_many}
use secure_api.Session.Query.{select}
use secure_api.Pathutil.{Unicode}
use secure_api.Orgs.Creation.{has_slug, numbered_slug, next_slug, slugify, slug_base}

suffix : ℕ → Text
suffix n = if n == 1 then [] else b'-' ∷ decimal n

-- the slug that the loop tries n-th
unfoldable pub candidate : Text → ℕ → Text
unfolding suffix
candidate base n = base ++ suffix n

number : Text → ℕ
number [] = 1
number (c ∷ s) = read_from 0 s

number-suffix : (n : ℕ) → 1 ≤ n → number (suffix n) ≡ n
unfolding number suffix
number-suffix n h = elim (Bool-cases (n == 1)) [
  | inl one ↦ rw one (ground arith)
  | inr more ↦ rw more (read_from-decimal n)
]

drop-append {ℓ} : {A : Type ℓ} (xs ys : List A) → drop (length xs) (xs ++ ys) ≡ ys
drop-append [] ys = refl
drop-append (x ∷ xs) ys = drop-append xs ys

candidate-inj :
    (base : Text) (m n : ℕ) → 1 ≤ m → 1 ≤ n → candidate base m ≡ candidate base n → m ≡ n
unfolding candidate
candidate-inj base m n hm hn same =
    sym (number-suffix m hm)
    ∙ ap number (
        sym (drop-append base (suffix m))
        ∙ ap (drop (length base)) same
        ∙ drop-append base (suffix n))
    ∙ number-suffix n hn

-- an organization has one slug
apart :
    (base : Text) (m n : ℕ) (org : Organization)
    → 1 ≤ m
    → m < n
    → has_slug (candidate base n) org ≡ true
    → has_slug (candidate base m) org ≡ false
apart base m n org hm lt hit = elim (Bool-cases (has_slug (candidate base m) org)) [
  | inr miss ↦ miss
  | inl both ↦
      let same =
        sym (teq→eq org.slug (candidate base m) both) ∙ teq→eq org.slug (candidate base n) hit in
      absurd (omega (arith, candidate-inj base m n hm (omega arith) same))
]

-- the rows that a filter takes are gone from the others
length-keep_split {ℓ} :
    {A : Type ℓ} (p : A → Bool) (xs : List A)
    → length (keep p xs) + length (keep (λ x. not (p x)) xs) ≡ length xs
length-keep_split p [] = refl
length-keep_split p (x ∷ xs) = elim (Bool-cases (p x)) [
  | inl hit ↦ rw hit (omega (arith, length-keep_split p xs))
  | inr miss ↦ rw miss (omega (arith, length-keep_split p xs))
]

later-numbered : (base : Text) (n : ℕ) → 1 ≤ n → numbered_slug base (n + 1) ≡ candidate base (n + 1)
unfolding candidate suffix
later-numbered base n h = let more : ((n + 1) == 1) ≡ false = ground arith in rw more

-- the candidate m is free, and those from n up to it are not
pub record FirstFree (base : Text) (n m : ℕ) (rows : List Organization) : Type 0 where
  pub from : n ≤ m
  pub free : keep (has_slug (candidate base m)) rows ≡ []
  pub taken :
      (k : ℕ)
      → n ≤ k
      → k < m
      → (org : Organization) × (keep (has_slug (candidate base k)) rows ≡ org ∷ [])

FirstFree-later :
    (base : Text) (n m : ℕ) (rows : List Organization) (org : Organization)
    → keep (has_slug (candidate base n)) rows ≡ org ∷ []
    → FirstFree base (n + 1) m rows
    → FirstFree base n m rows
FirstFree-later base n m rows org found later = record {
  from = omega (arith, later.from);
  free = later.free;
  taken = λ k from below. elim (Bool-cases (k == n)) [
    | inl here ↦ (
      org,
      subst (λ z. keep (has_slug (candidate base z)) rows ≡ org ∷ []) (sym (==→eq k n here)) found,
    )
    | inr beyond ↦ later.taken k (ground arith) below
  ];
}

-- the unique index on the slug
abbrev pub UniqueSlugs : Table Organization → Type 0
UniqueSlugs t = (slug : Text) → length (select (has_slug slug) t) ≤ 1

module _ (base : Text) (s : Session) (unique : UniqueSlugs s.working.organizations) where
  abbrev rows : List Organization
  rows = s.working.organizations.rows

  -- the organizations that can still collide are fewer than the fuel
  next_slug_lem :
      (fuel n : ℕ) (others : List Organization)
      → length others < fuel
      → 1 ≤ n
      → ((k : ℕ)
          → n ≤ k
          → keep (has_slug (candidate base k)) rows ≡ keep (has_slug (candidate base k)) others)
      → (m : ℕ) × (next_slug base fuel n (candidate base n) s ≡ (ok (candidate base m), s))
        × FirstFree base n m rows
  unfolding next_slug
  next_slug_lem zero n others short pos same = absurd (omega arith)
  next_slug_lem (suc fuel) n others short pos same =
      elim (one_or_none-cases (keep (has_slug (candidate base n)) rows)) [
        | inl nothing ↦ (
          n,
          rw nothing refl,
          record {
            from = omega arith;
            free = nothing;
            taken = λ k from below. absurd (omega arith);
          },
        )
        | inr (inr many) ↦
            absurd
              (too_many (keep (has_slug (candidate base n)) rows) many (unique (candidate base n)))
        | inr (inl (org, found)) ↦
            let left = keep (λ o. not (has_slug (candidate base n) o)) others in
            let one : length (keep (has_slug (candidate base n)) others) ≡ 1 =
              ap length (sym (same n (omega arith)) ∙ found) in
            let (m, runs, first) =
              next_slug_lem fuel (n + 1) left
                (omega (arith, one, length-keep_split (has_slug (candidate base n)) others))
                (omega arith)
                (λ k from.
                  same k (omega arith)
                  ∙ sym (
                      keep-keep_within (has_slug (candidate base n)) (has_slug (candidate base k))
                        others (λ o hit. apart base n k o pos (omega arith) hit))) in
            (
              m,
              rw (found, later-numbered base n pos) runs,
              FirstFree-later base n m rows org found first,
            )
      ]

-- Where no two organizations share a slug, the search ends at the first numbered slug that is free.
pub slugify_lem :
    (u : Unicode) (name : Text) (s : Session)
    → UniqueSlugs s.working.organizations
    → (m : ℕ) × (slugify u name s ≡ (ok (candidate (slug_base u name) m), s))
      × FirstFree (slug_base u name) 1 m s.working.organizations.rows
unfolding slugify candidate suffix
slugify_lem u name s unique =
    let base = slug_base u name in
    let (m, runs, first) =
      next_slug_lem base s unique (suc (length s.working.organizations.rows)) 1
        s.working.organizations.rows (omega arith) (omega arith) (λ k from. refl) in
    (
      m,
      subst
          (λ z.
            next_slug base (suc (length s.working.organizations.rows)) 1 z s
            ≡ (ok (candidate base m), s))
          (append_nil base) runs,
      first,
    )
