-- ===== src/Zombies/Grouping.antt =====
-- Grouping the requests by method and path before matching the templates gives the figures that
-- matching every request gives.
use secure_api.Prelude.{
  ℕ, ◌+◌, ◌-◌, ◌≡◌, refl, sym, ◌∙◌, ap, Text, teq, teq→eq, Bool, ◌&&◌, Option, some, List, [], ◌∷◌,
  ◌++◌, map, max, arith, leb, length, length-append, keep, keep-append, Bool-cases, inl, inr,
  if◌then◌else◌,
}
use secure_api.Models.{ZombieEndpointState}
use secure_api.Security.{days}
use secure_api.Pathutil.{Unicode}
use secure_api.Discovery.{ZombieSettings}
use secure_api.Traffic.{TrafficEvent}
use secure_api.Zombies.{
  latest, max_or, since, Paths, add_ts, group_paths, matching_ts_of, hits, recomputed,
}

module _ (F : Type 0) (u : Unicode) (cfg : ZombieSettings) (now : ℕ) (method tmpl : Text) where
  abbrev hit_by : TrafficEvent F → Bool
  hit_by e = hits u cfg now method tmpl (u.upper e.method) e.path

  abbrev direct : List (TrafficEvent F) → List ℕ
  direct rows = map (λ e. e.ts) (keep hit_by rows)

  abbrev matching : Paths → List ℕ
  matching = matching_ts_of u cfg now method tmpl

  -- a figure that does not depend on the order of the timestamps
  module _ (f : List ℕ → ℕ) (op : ℕ → ℕ → ℕ)
      (append : (xs ys : List ℕ) → f (xs ++ ys) ≡ op (f xs) (f ys))
      (assoc : (a b c : ℕ) → op (op a b) c ≡ op a (op b c)) (comm : (a b : ℕ) → op a b ≡ op b a)
      (unit_left : (a : ℕ) → op (f []) a ≡ a) where
    moved : (a b c : List ℕ) → f ((a ++ b) ++ c) ≡ op (f (a ++ c)) (f b)
    moved a b c =
        append (a ++ b) c
        ∙ ap (λ x. op x (f c)) (append a b)
        ∙ assoc (f a) (f b) (f c)
        ∙ ap (op (f a)) (comm (f b) (f c))
        ∙ sym (assoc (f a) (f c) (f b))
        ∙ ap (λ x. op x (f b)) (sym (append a c))

    figure-add_ts :
        (m p : Text) (ts : ℕ) (path_ts : Paths)
        → f (matching (add_ts m p ts path_ts)) ≡ (
            if hits u cfg now method tmpl m p
            then op (f (matching path_ts)) (f (ts ∷ []))
            else f (matching path_ts))
    unfolding add_ts matching_ts_of
    figure-add_ts m p ts [] = elim (Bool-cases (hits u cfg now method tmpl m p)) [
      | inl hit ↦ rw hit (sym (unit_left (f (ts ∷ []))))
      | inr miss ↦ rw miss refl
    ]
    figure-add_ts m p ts (((m', p'), ts_list) ∷ path_ts) =
        elim (Bool-cases (teq m' m && teq p' p)) [
          | inl same ↦
              let key : hits u cfg now method tmpl m' p' ≡ hits u cfg now method tmpl m p =
                ap (λ x. hits u cfg now method tmpl x p') (teq→eq m' m (ground (arith, same)))
                ∙ ap (hits u cfg now method tmpl m) (teq→eq p' p (ground (arith, same))) in
              elim (Bool-cases (hits u cfg now method tmpl m p)) [
                | inl hit ↦ rw (same, key, hit) (moved ts_list (ts ∷ []) (matching path_ts))
                | inr miss ↦ rw (same, key, miss) refl
              ]
          | inr other ↦
              let rest = figure-add_ts m p ts path_ts in
              elim (Bool-cases (hits u cfg now method tmpl m' p')) [
                | inr strange ↦ rw (other, strange) rest
                | inl own ↦ elim (Bool-cases (hits u cfg now method tmpl m p)) [
                  | inl hit ↦
                      let rest' : f (matching (add_ts m p ts path_ts))
                          ≡ op (f (matching path_ts)) (f (ts ∷ [])) =
                        rw hit at rest in
                      rw (other, own, hit)
                        (append ts_list (matching (add_ts m p ts path_ts))
                          ∙ ap (op (f ts_list)) rest'
                          ∙ sym (assoc (f ts_list) (f (matching path_ts)) (f (ts ∷ [])))
                          ∙ ap (λ a. op a (f (ts ∷ []))) (sym (append ts_list (matching path_ts))))
                  | inr miss ↦
                      let rest' : f (matching (add_ts m p ts path_ts)) ≡ f (matching path_ts) =
                        rw miss at rest in
                      rw (other, own, miss)
                        (append ts_list (matching (add_ts m p ts path_ts))
                          ∙ ap (op (f ts_list)) rest'
                          ∙ sym (append ts_list (matching path_ts)))
                ]
              ]
        ]

    figure-group_paths :
        (rows : List (TrafficEvent F)) (path_ts : Paths)
        → f (matching (group_paths u cfg now rows path_ts))
          ≡ op (f (matching path_ts)) (f (direct rows))
    unfolding group_paths
    figure-group_paths [] path_ts =
        sym (comm (f (matching path_ts)) (f []) ∙ unit_left (f (matching path_ts)))
    figure-group_paths (row ∷ rows) path_ts =
        let added = figure-add_ts (u.upper row.method) row.path row.ts path_ts in
        let rest = figure-group_paths rows (add_ts (u.upper row.method) row.path row.ts path_ts) in
        elim (Bool-cases (hit_by row)) [
          | inl hit ↦
              let added' : f (matching (add_ts (u.upper row.method) row.path row.ts path_ts))
                  ≡ op (f (matching path_ts)) (f (row.ts ∷ [])) =
                rw hit at added in
              rw hit (
                rest
                ∙ ap (λ x. op x (f (direct rows))) added'
                ∙ assoc (f (matching path_ts)) (f (row.ts ∷ [])) (f (direct rows))
                ∙ ap (op (f (matching path_ts))) (sym (append (row.ts ∷ []) (direct rows))))
          | inr miss ↦
              let added' : f (matching (add_ts (u.upper row.method) row.path row.ts path_ts))
                  ≡ f (matching path_ts) =
                rw miss at added in
              rw miss (rest ∙ ap (λ x. op x (f (direct rows))) added')
        ]

    figure-grouped :
        (rows : List (TrafficEvent F))
        → f (matching (group_paths u cfg now rows [])) ≡ f (direct rows)
    unfolding matching_ts_of
    figure-grouped rows = figure-group_paths rows [] ∙ unit_left (f (direct rows))

  since-append :
      (start : ℕ) (xs ys : List ℕ) → since start (xs ++ ys) ≡ since start xs + since start ys
  since-append start xs ys =
      ap length (keep-append (leb start) xs ys)
      ∙ length-append (keep (leb start) xs) (keep (leb start) ys)

  latest-append : (xs ys : List ℕ) → latest (xs ++ ys) ≡ max (latest xs) (latest ys)
  latest-append [] ys = omega arith
  latest-append (x ∷ xs) ys = omega (arith, latest-append xs ys)

  max_or-eq :
      (default : Option ℕ) (xs ys : List ℕ)
      → length xs ≡ length ys
      → latest xs ≡ latest ys
      → max_or default xs ≡ max_or default ys
  max_or-eq default [] [] sizes last = refl
  max_or-eq default [] (y ∷ ys) sizes last = absurd (omega (arith, sizes))
  max_or-eq default (x ∷ xs) [] sizes last = absurd (omega (arith, sizes))
  max_or-eq default (x ∷ xs) (y ∷ ys) sizes last = ap some last

  -- For every list of requests, the state that is written from the groups is the one that is
  -- written from matching the requests one by one: the same last request, the same counts, the same
  -- status and the same risk.
  pub recomputed-group_paths :
      (rows : List (TrafficEvent F)) (default : Option ℕ) (state : ZombieEndpointState)
      → recomputed u cfg now method default
          (matching_ts_of u cfg now method tmpl (group_paths u cfg now rows []))
          state
        ≡ recomputed u cfg now method default
            (map
              (λ e. e.ts)
              (keep (λ e. hits u cfg now method tmpl (u.upper e.method) e.path) rows))
            state
  recomputed-group_paths rows default state =
      let grouped = matching (group_paths u cfg now rows []) in
      let counts : (start : ℕ) → since start grouped ≡ since start (direct rows) = λ start.
        figure-grouped (since start) (λ a b. a + b) (since-append start) (λ a b c. omega arith)
          (λ a b. omega arith) (λ a. omega arith) rows in
      let sizes : length grouped ≡ length (direct rows) =
        figure-grouped length (λ a b. a + b) length-append (λ a b c. omega arith)
          (λ a b. omega arith) (λ a. omega arith) rows in
      let last : latest grouped ≡ latest (direct rows) =
        figure-grouped latest max latest-append (λ a b c. omega arith) (λ a b. omega arith)
          (λ a. omega arith) rows in
      rw
        (
          max_or-eq default grouped (direct rows) sizes last,
          counts (now - days 7),
          counts (now - days 14),
          sizes,
        )
        refl
