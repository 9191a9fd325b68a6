-- ===== src/Traffic/Rollup/Groups.antt =====
-- One chunk of rows, grouped and added to the daily summaries.
use secure_api.Prelude.{
  ℕ, ◌+◌, ==→eq, ==_refl, ◌≡◌, refl, ◌∙◌, ap, subst, teq→eq, teq_refl, Bool, true, false, ◌&&◌,
  if◌then◌else◌, List, [], ◌∷◌, ◌++◌, arith, length, keep, Bool-cases, inl, inr,
}
use secure_api.Models.{Table}
use secure_api.Session.{Result-cases, ok, one_or_none, one_or_none-cases}
use secure_api.Session.Query.{update_where, select}
use secure_api.Pathutil.{Unicode}
use secure_api.Traffic.{
  Floats, TrafficEvent, TrafficDailySummary, SummaryKey, same_key, Group, key_of_row, has_key,
  add_row, empty_group, group_row, group_rows, new_summary, add_group, upsert_found,
  upsert_summaries, key_of_summary,
}

pub same_key→eq : (a b : SummaryKey) → same_key a b ≡ true → a ≡ b
same_key→eq a b h =
    let orgs : a.org_id ≡ b.org_id = ==→eq a.org_id b.org_id (ground arith) in
    let days' : a.day ≡ b.day = ==→eq a.day b.day (ground arith) in
    let methods : a.method ≡ b.method = teq→eq a.method b.method (ground arith) in
    let paths : a.path ≡ b.path = teq→eq a.path b.path (ground arith) in cc

pub same_key_refl : (a : SummaryKey) → same_key a a ≡ true
same_key_refl a = rw (==_refl a.org_id, ==_refl a.day, teq_refl a.method, teq_refl a.path) refl

-- the number that a test counts
abbrev pub bit : Bool → ℕ
bit b = if b then 1 else 0

module _ {F : Type 0} where
  -- the column summed over the summaries with a key
  abbrev pub counted : (TrafficDailySummary F → ℕ) → SummaryKey → List (TrafficDailySummary F) → ℕ
  counted col k [] = 0
  counted col k (s ∷ rest) = (if has_key k s then col s else 0) + counted col k rest

  abbrev pub in_groups : (Group F → ℕ) → SummaryKey → List (SummaryKey × Group F) → ℕ
  in_groups gain k [] = 0
  in_groups gain k ((key, g) ∷ grouped) =
      (if same_key key k then gain g else 0) + in_groups gain k grouped

  -- the rows under a key that a column counts
  abbrev pub of_key : Unicode → (TrafficEvent F → Bool) → SummaryKey → TrafficEvent F → Bool
  of_key u q k row = same_key (key_of_row u row) k && q row

module _ {F : Type 0} (fl : Floats F) (u : Unicode) (col : TrafficDailySummary F → ℕ)
    (gain : Group F → ℕ) (q : TrafficEvent F → Bool) (start : gain (empty_group fl u) ≡ 0)
    (row_law : (row : TrafficEvent F) (g : Group F)
      → gain (add_row fl u row g) ≡ gain g + bit (q row)) where
  in_groups-group_row :
      (k : SummaryKey) (row : TrafficEvent F) (grouped : List (SummaryKey × Group F))
      → in_groups gain k (group_row fl u row grouped)
        ≡ in_groups gain k grouped + bit (of_key u q k row)
  unfolding group_row
  in_groups-group_row k row [] = ground (arith, row_law row (empty_group fl u), start)
  in_groups-group_row k row ((key, g) ∷ grouped) =
      elim (Bool-cases (same_key key (key_of_row u row))) [
        | inl hit ↦
            let same : same_key key k ≡ same_key (key_of_row u row) k =
              ap (λ x. same_key x k) (same_key→eq key (key_of_row u row) hit) in
            rw hit (ground (arith, row_law row g, same))
        | inr miss ↦ ground (arith, miss, in_groups-group_row k row grouped)
      ]

  pub in_groups-group_rows :
      (k : SummaryKey) (rows : List (TrafficEvent F)) (grouped : List (SummaryKey × Group F))
      → in_groups gain k (group_rows fl u rows grouped)
        ≡ in_groups gain k grouped + length (keep (of_key u q k) rows)
  unfolding group_rows
  in_groups-group_rows k [] grouped = omega arith
  in_groups-group_rows k (row ∷ rows) grouped = ground (
    arith,
    in_groups-group_rows k rows (group_row fl u row grouped),
    in_groups-group_row k row grouped,
  )

  module _
      (new_law : (key : SummaryKey) (g : Group F) (id : ℕ)
        → col (new_summary fl u key g id) ≡ gain g)
      (sum_law : (g : Group F) (s : TrafficDailySummary F)
        → col (add_group fl u g s) ≡ col s + gain g) where
    counted-append :
        (k : SummaryKey) (xs : List (TrafficDailySummary F)) (s : TrafficDailySummary F)
        → counted col k (xs ++ s ∷ []) ≡ counted col k xs + (if has_key k s then col s else 0)
    counted-append k [] s = omega arith
    counted-append k (x ∷ xs) s = omega (arith, counted-append k xs s)

    counted-other :
        (k key : SummaryKey) (g : Group F) (xs : List (TrafficDailySummary F))
        → same_key key k ≡ false
        → counted col k (update_where (has_key key) (add_group fl u g) xs) ≡ counted col k xs
    unfolding update_where
    counted-other k key g [] other = refl
    counted-other k key g (x ∷ xs) other = elim (Bool-cases (has_key key x)) [
      | inl hit ↦
          let same : has_key k x ≡ same_key key k =
            ap (λ y. same_key y k) (same_key→eq (key_of_summary x) key hit) in
          rw hit (ground (arith, same, counted-other k key g xs other))
      | inr miss ↦ rw miss (ground (arith, counted-other k key g xs other))
    ]

    counted-none :
        (k : SummaryKey) (g : Group F) (xs : List (TrafficDailySummary F))
        → keep (has_key k) xs ≡ []
        → (counted col k (update_where (has_key k) (add_group fl u g) xs) ≡ 0)
          × (counted col k xs ≡ 0)
    unfolding update_where
    counted-none k g [] h = (refl, refl)
    counted-none k g (x ∷ xs) h = elim (Bool-cases (has_key k x)) [
      | inl hit ↦ absurd (ground (arith, rw hit at h))
      | inr miss ↦
          let rest = counted-none k g xs (rw miss at h) in ground (arith, miss, rest.0, rest.1)
    ]

    counted-one :
        (k : SummaryKey) (g : Group F) (xs : List (TrafficDailySummary F))
        {x : TrafficDailySummary F}
        → keep (has_key k) xs ≡ x ∷ []
        → counted col k (update_where (has_key k) (add_group fl u g) xs) ≡ counted col k xs + gain g
    unfolding update_where
    counted-one k g [] h = cc
    counted-one k g (x ∷ xs) h = elim (Bool-cases (has_key k x)) [
      | inl hit ↦
          let nothing : keep (has_key k) xs ≡ [] = ground (arith, rw hit at h) in
          let rest = counted-none k g xs nothing in
          rw hit (ground (arith, hit, sum_law g x, rest.0, rest.1))
      | inr miss ↦
          let rest = counted-one k g xs (rw miss at h) in rw miss (ground (arith, miss, rest))
    ]

    counted-upsert_found :
        (k key : SummaryKey) (g : Group F) (t t' : Table (TrafficDailySummary F))
        → upsert_found fl u key g t (one_or_none (select (has_key key) t)) ≡ ok t'
        → counted col k t'.rows ≡ counted col k t.rows + (if same_key key k then gain g else 0)
    counted-upsert_found k key g t t' done = elim (one_or_none-cases (select (has_key key) t)) [
      | inl nothing ↦
          let e : t'.rows ≡ t.rows ++ new_summary fl u key g t.next_id ∷ [] = ground arith in
          rw e (
            counted-append k t.rows (new_summary fl u key g t.next_id)
            ∙ ap (λ n. counted col k t.rows + (if same_key key k then n else 0))
                (new_law key g t.next_id))
      | inr (inr many) ↦ absurd (ground arith)
      | inr (inl (x, found)) ↦
          let e : t'.rows ≡ update_where (has_key key) (add_group fl u g) t.rows = ground arith in
          elim (Bool-cases (same_key key k)) [
            | inl hit ↦
                let same : key ≡ k = same_key→eq key k hit in
                rw (e, hit)
                  (subst
                    (λ z.
                      counted col z (update_where (has_key key) (add_group fl u g) t.rows)
                      ≡ counted col z t.rows + gain g)
                    same (counted-one key g t.rows found))
            | inr miss ↦ rw (e, miss) (omega (arith, counted-other k key g t.rows miss))
          ]
    ]

    -- The groups of a chunk are added to the summaries, key by key.
    pub counted-upsert_summaries :
        (k : SummaryKey) (grouped : List (SummaryKey × Group F))
        (t t' : Table (TrafficDailySummary F))
        → upsert_summaries fl u grouped t ≡ ok t'
        → counted col k t'.rows ≡ counted col k t.rows + in_groups gain k grouped
    unfolding upsert_summaries
    counted-upsert_summaries k [] t t' done =
        let same : t'.rows ≡ t.rows = ground arith in omega (arith, ap (counted col k) same)
    counted-upsert_summaries k ((key, g) ∷ grouped) t t' done =
        elim (Result-cases (upsert_found fl u key g t (one_or_none (select (has_key key) t)))) [
          | inl (e, failed) ↦ absurd (ground (arith, rw (upsert_summaries, failed) at done))
          | inr (t1, found) ↦ omega (
            arith,
            counted-upsert_found k key g t t1 found,
            counted-upsert_summaries k grouped t1 t' (rw (upsert_summaries, found) at done),
          )
        ]
