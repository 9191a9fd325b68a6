-- ===== src/Traffic/Rollup/Unique.antt =====
-- The daily summaries keep one row for each key, so that the query for `existing` never finds two.
use secure_api.Prelude.{
  ◌≤◌, ◌≡◌, refl, ap, subst, Bool, List, [], ◌∷◌, ◌++◌, arith, length, length-append, keep,
  keep-append, Bool-cases, inl, inr,
}
use secure_api.Models.{Table}
use secure_api.Session.{ok, one_or_none, one_or_none-cases, too_many}
use secure_api.Session.Query.{update_where, select, insert_row, update_rows, keep-update_where}
use secure_api.Pathutil.{Unicode}
use secure_api.Traffic.{
  Floats, TrafficDailySummary, SummaryKey, same_key, Group, has_key, new_summary, add_group,
  upsert_found, upsert_summaries,
}
use secure_api.Traffic.Rollup.Groups.{same_key→eq}

module _ {F : Type 0} where
  -- the unique index of the table
  abbrev pub IsUnique : Table (TrafficDailySummary F) → Type 0
  IsUnique t = (k : SummaryKey) → length (select (has_key k) t) ≤ 1

  module _ (fl : Floats F) (u : Unicode) (key : SummaryKey) (g : Group F)
      (t : Table (TrafficDailySummary F)) (unique : IsUnique t) where
    length-update_where :
        {A : Type 0} (p : A → Bool) (f : A → A) (xs : List A)
        → length (update_where p f xs) ≡ length xs
    unfolding update_where
    length-update_where p f [] = refl
    length-update_where p f (x ∷ xs) = omega (arith, length-update_where p f xs)

    -- a new row has a key that no row had
    new_key :
        (k : SummaryKey)
        → select (has_key key) t ≡ []
        → length (select (has_key k) (insert_row (new_summary fl u key g) t)) ≤ 1
    new_key k nothing = elim (Bool-cases (same_key key k)) [
      | inl hit ↦
          let empty : keep (has_key k) t.rows ≡ [] =
            subst (λ z. keep (has_key z) t.rows ≡ []) (same_key→eq key k hit) nothing in
          rw (keep-append (has_key k) t.rows (new_summary fl u key g t.next_id ∷ []), empty, hit)
            (omega arith)
      | inr miss ↦
          let whole : length (keep (has_key k) t.rows ++ []) ≤ 1 =
            omega (arith, unique k, length-append (keep (has_key k) t.rows) []) in
          rw (keep-append (has_key k) t.rows (new_summary fl u key g t.next_id ∷ []), miss) whole
    ]

    upsert_found-IsUnique :
        (t' : Table (TrafficDailySummary F)) × (upsert_found fl u key g t
            (one_or_none (select (has_key key) t))
          ≡ ok t')
        × IsUnique t'
    upsert_found-IsUnique = elim (one_or_none-cases (select (has_key key) t)) [
      | inl nothing ↦
          (insert_row (new_summary fl u key g) t, rw nothing refl, λ k. new_key k nothing)
      | inr (inr many) ↦ absurd (too_many (select (has_key key) t) many (unique key))
      | inr (inl (x, found)) ↦ (
        update_rows (has_key key) (add_group fl u g) t,
        rw found refl,
        λ k. omega (
          arith,
          unique k,
          ap length
              (keep-update_where (has_key k) (has_key key) (add_group fl u g) t.rows (λ s. refl)),
          length-update_where (has_key key) (add_group fl u g) (keep (has_key k) t.rows),
        ),
      )
    ]

  -- Where the summaries keep one row for each key, adding groups to them succeeds and keeps it so.
  pub upsert_summaries-IsUnique :
      (fl : Floats F) (u : Unicode) (grouped : List (SummaryKey × Group F))
      (t : Table (TrafficDailySummary F))
      → IsUnique t
      → (t' : Table (TrafficDailySummary F)) × (upsert_summaries fl u grouped t ≡ ok t')
        × IsUnique t'
  unfolding upsert_summaries
  upsert_summaries-IsUnique fl u [] t unique = (t, refl, unique)
  upsert_summaries-IsUnique fl u ((key, g) ∷ grouped) t unique =
      let (t1, found, unique1) = upsert_found-IsUnique fl u key g t unique in
      let (t', done, unique') = upsert_summaries-IsUnique fl u grouped t1 unique1 in
      (t', rw (upsert_summaries, found) done, unique')
