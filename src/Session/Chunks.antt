-- ===== src/Session/Chunks.antt =====
-- The loop that works through the rows of a query in chunks, each committed on its own: it ends at
-- an empty chunk, or after one that is not full (app/services/traffic_processor.py,
-- app/jobs/scheduler.py). `while True` runs on fuel.
use secure_api.Prelude.{
  ℕ, zero, suc, ◌+◌, ◌-◌, ◌<◌, ◌≡◌, refl, ◌∙◌, ap, Option, none, some, List, [], ◌∷◌, ltb,
  if◌then◌else◌, arith, length, take, drop, length-take, length-drop, Bool-cases, List-cases, inl,
  inr,
}
use secure_api.Session.{Result, ok, err}

-- `query` gives all rows, `.limit(chunk_size)` is taken here; `body` counts what it did
module _ {A S : Type 0} (query : S → List A) (body : List A → S → Result (ℕ × S))
    (chunk_size : ℕ) where
  unfoldable pub chunk_loop : ℕ → ℕ → S → Option (Result ℕ × S)
  chunk_loop zero total s = none
  chunk_loop (suc fuel) total s = elim (take chunk_size (query s)) [
    | [] ↦ some (ok total, s)
    | row ∷ rows ↦ elim (body (row ∷ rows) s) [
      | err e ↦ some (err e, s)
      | ok (n, s') ↦
          let rest = chunk_loop fuel (total + n) s' in
          if ltb (length (row ∷ rows)) chunk_size then some (ok (total + n), s') else rest
    ]
  ]

  nil-of_length : (xs : List A) → length xs ≡ 0 → xs ≡ []
  nil-of_length [] e = refl
  nil-of_length (x ∷ xs) e = absurd (omega (arith, e))

  chunk_loop_end :
      (fuel total : ℕ) (s : S)
      → take chunk_size (query s) ≡ []
      → chunk_loop (suc fuel) total s ≡ some (ok total, s)
  unfolding chunk_loop
  chunk_loop_end fuel total s e = rw (chunk_loop, e) refl

  chunk_loop_next :
      (fuel total n : ℕ) (s s' : S) (x : A) (rest : List A)
      → take chunk_size (query s) ≡ x ∷ rest
      → body (take chunk_size (query s)) s ≡ ok (n, s')
      → chunk_loop (suc fuel) total s ≡ (
          if ltb (length (take chunk_size (query s))) chunk_size
          then some (ok (total + n), s')
          else chunk_loop fuel (total + n) s')
  unfolding chunk_loop
  chunk_loop_next fuel total n s s' x rest e done =
      let done' : body (x ∷ rest) s ≡ ok (n, s') = rw e at done in rw (chunk_loop, e, done') refl

  -- Where the body takes each chunk out of the query, counts its rows and keeps an invariant, the
  -- loop ends on more fuel than there are rows, with the query empty and all its rows counted.
  module _ (Inv : S → Type 0) (positive : 0 < chunk_size)
      (step : (s : S)
        → Inv s
        → (s' : S) × (body (take chunk_size (query s)) s
            ≡ ok (length (take chunk_size (query s)), s'))
          × Inv s'
          × (query s' ≡ drop chunk_size (query s))) where
    pub chunk_loop_lem :
        (fuel total : ℕ) (s : S)
        → Inv s
        → length (query s) < fuel
        → (s' : S) × (chunk_loop fuel total s ≡ some (ok (total + length (query s)), s'))
          × Inv s'
          × (query s' ≡ [])
    chunk_loop_lem zero total s inv enough = absurd (omega arith)
    chunk_loop_lem (suc fuel) total s inv enough = elim (List-cases (take chunk_size (query s))) [
      | inl e ↦
          let none_left : length (query s) ≡ 0 =
            ground (arith, length-take chunk_size (query s), ap length e) in
          (
            s,
            rw none_left (chunk_loop_end fuel total s e ∙ ap (λ n. some (ok n, s)) (omega arith)),
            inv,
            nil-of_length (query s) none_left,
          )
      | inr (x, rest, e) ↦
          let (s', done, inv', left) = step s inv in
          let fewer : length (query s') ≡ length (query s) - chunk_size =
            ap length left ∙ length-drop chunk_size (query s) in
          let size = length-take chunk_size (query s) in
          let next =
            chunk_loop_next fuel total (length (take chunk_size (query s))) s s' x rest e done in
          elim (Bool-cases (ltb (length (take chunk_size (query s))) chunk_size)) [
            | inl last ↦ (
              s',
              next ∙ rw last (ap (λ n. some (ok n, s')) (ground (arith, size, last))),
              inv',
              nil-of_length (query s') (ground (arith, size, last, fewer)),
            )
            | inr full ↦
                let (s'', more, inv'', empty) =
                  chunk_loop_lem fuel (total + length (take chunk_size (query s))) s' inv'
                    (ground (arith, size, full, fewer)) in
                (
                  s'',
                  next
                      ∙ rw full
                          (more ∙ ap (λ n. some (ok n, s'')) (ground (arith, size, full, fewer))),
                  inv'',
                  empty,
                )
          ]
    ]
