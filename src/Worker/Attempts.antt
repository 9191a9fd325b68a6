-- ===== src/Worker/Attempts.antt =====
-- What handling messages leaves: each is acknowledged, and one that fails comes back with an attempt
-- less, or is set aside.
use secure_api.Prelude.{
  ℕ, zero, suc, take, drop, ◌+◌, ◌-◌, ◌*◌, ◌<◌, ◌≤◌, ◌≡◌, refl, sym, ◌∙◌, ap, Bool, true, List, [],
  ◌∷◌, ◌++◌, map, arith, length, All, map-append, All-append, Bool-cases, inl, inr, leb, subst,
  some, if◌then◌else◌,
}
use secure_api.Worker.{
  Payload, Ingest, Command, xack, attempt, again, on_failure, handle_message, handle_messages,
  readded, dead_letters, acknowledged, numbered_from,
}
use secure_api.Worker.Stream.{ids_from, readded-append, dead_letters-append, acknowledged-append}

module _ {E : Type 0} where
  abbrev pub IsLive : Payload E → Type 0
  IsLive p = p.retry < 5

  -- the payloads of the events that the test is true of
  abbrev pub count_of : (ℕ → E → Bool) → List (Payload E) → ℕ
  count_of q [] = 0
  count_of q (p ∷ ps) = (if q p.org_id p.event then 1 else 0) + count_of q ps

  -- the attempts that they have left
  abbrev pub attempts_of : (ℕ → E → Bool) → List (Payload E) → ℕ
  attempts_of q [] = 0
  attempts_of q (p ∷ ps) = (if q p.org_id p.event then 5 - p.retry else 0) + attempts_of q ps

  pub count_of-append :
      (q : ℕ → E → Bool) (ps ps' : List (Payload E))
      → count_of q (ps ++ ps') ≡ count_of q ps + count_of q ps'
  count_of-append q [] ps' = omega arith
  count_of-append q (p ∷ ps) ps' = omega (arith, count_of-append q ps ps')

  pub attempts_of-append :
      (q : ℕ → E → Bool) (ps ps' : List (Payload E))
      → attempts_of q (ps ++ ps') ≡ attempts_of q ps + attempts_of q ps'
  attempts_of-append q [] ps' = omega arith
  attempts_of-append q (p ∷ ps) ps' = omega (arith, attempts_of-append q ps ps')

  pub attempts_of-le :
      (q : ℕ → E → Bool) (ps : List (Payload E)) → attempts_of q ps ≤ 5 * count_of q ps
  attempts_of-le q [] = omega arith
  attempts_of-le q (p ∷ ps) = elim (Bool-cases (q p.org_id p.event)) [
    | inl hit ↦ rw hit (omega (arith, attempts_of-le q ps))
    | inr miss ↦ rw miss (omega (arith, attempts_of-le q ps))
  ]

  pub count_of_all : (ps : List (Payload E)) → count_of (λ org_id event. true) ps ≡ length ps
  count_of_all [] = refl
  count_of_all (p ∷ ps) = omega (arith, count_of_all ps)

  pub count_of-split :
      (q : ℕ → E → Bool) (n : ℕ) (ps : List (Payload E))
      → count_of q (take n ps) + count_of q (drop n ps) ≡ count_of q ps
  count_of-split q zero ps = omega arith
  count_of-split q (suc n) [] = omega arith
  count_of-split q (suc n) (p ∷ ps) = omega (arith, count_of-split q n ps)

  pub attempts_of-split :
      (q : ℕ → E → Bool) (n : ℕ) (ps : List (Payload E))
      → attempts_of q (take n ps) + attempts_of q (drop n ps) ≡ attempts_of q ps
  attempts_of-split q zero ps = omega arith
  attempts_of-split q (suc n) [] = omega arith
  attempts_of-split q (suc n) (p ∷ ps) = omega (arith, attempts_of-split q n ps)

  pub All-drop : (n : ℕ) (ps : List (Payload E)) → All IsLive ps → All IsLive (drop n ps)
  All-drop zero ps h = h
  All-drop (suc n) [] h = tt
  All-drop (suc n) (p ∷ ps) (h, hs) = All-drop n ps hs

module _ {E D Raw : Type 0} (g : Ingest E D Raw)
    (round_trip : (p : Payload E) → g.parse (g.dumps p) ≡ some p) where
  -- a dead letter counts five attempts
  abbrev pub IsExhausted : Raw → Type 0
  IsExhausted raw = (p : Payload E) × (raw ≡ g.dumps_error p "max_retries_exceeded") × (p.retry ≡ 5)

  -- the messages had the ids from n on
  pub record Handled (n : ℕ) (ps : List (Payload E)) (commands : List (Command Raw)) : Type 0 where
    pub retried : List (Payload E)
    pub same : readded commands ≡ map g.dumps retried
    pub live : All IsLive retried
    pub acks : acknowledged commands ≡ ids_from n (length ps)
    pub lighter : (q : ℕ → E → Bool) → attempts_of q retried + count_of q ps ≤ attempts_of q ps
    pub dead : All IsExhausted (dead_letters commands)

  one_less :
      (q : ℕ → E → Bool) (p : Payload E)
      → IsLive p
      → attempts_of q (again g p ∷ []) + count_of q (p ∷ []) ≤ attempts_of q (p ∷ [])
  one_less q p live = elim (Bool-cases (q p.org_id p.event)) [
    | inl hit ↦ rw hit (omega arith)
    | inr miss ↦ rw miss (omega arith)
  ]

  at_least_one :
      (q : ℕ → E → Bool) (p : Payload E)
      → IsLive p
      → 0 + count_of q (p ∷ []) ≤ attempts_of q (p ∷ [])
  at_least_one q p live = elim (Bool-cases (q p.org_id p.event)) [
    | inl hit ↦ rw hit (omega arith)
    | inr miss ↦ rw miss (omega arith)
  ]

  handle_one :
      (n : ℕ) (p : Payload E) (db : D)
      → IsLive p
      → (commands : List (Command Raw)) × (db' : D) × (handle_message g (n, g.dumps p) db
          ≡ (true, commands, db'))
        × Handled n (p ∷ []) commands
  unfolding handle_message
  handle_one n p db live =
      let out = attempt g p db in
      elim (Bool-cases out.0) [
        | inl good ↦ (
          xack n ∷ [],
          out.1,
          rw (handle_message, round_trip p, good) refl,
          record {
            retried = [];
            same = refl;
            live = tt;
            acks = refl;
            lighter = λ q. at_least_one q p live;
            dead = tt;
          },
        )
        | inr bad ↦ (
          on_failure g p ∷ xack n ∷ [],
          out.1,
          rw (handle_message, round_trip p, bad) refl,
          elim (Bool-cases (leb 5 (p.retry + 1))) [
            | inl last ↦ rw last (record {
              retried = [];
              same = refl;
              live = tt;
              acks = refl;
              lighter = λ q. at_least_one q p live;
              dead = ((again g p, refl, ground (arith, last)), tt);
            })
            | inr more ↦ rw more (record {
              retried = again g p ∷ [];
              same = refl;
              live = (ground (arith, more), tt);
              acks = refl;
              lighter = λ q. one_less q p live;
              dead = tt;
            })
          ],
        )
      ]

  Handled-append :
      (n : ℕ) (p : Payload E) (ps : List (Payload E)) (xs ys : List (Command Raw))
      → Handled n (p ∷ []) xs
      → Handled (n + 1) ps ys
      → Handled n (p ∷ ps) (xs ++ ys)
  Handled-append n p ps xs ys h k = record {
    retried = h.retried ++ k.retried;
    same =
        readded-append xs ys
        ∙ ap (λ t. t ++ readded ys) h.same
        ∙ ap (λ t. map g.dumps h.retried ++ t) k.same
        ∙ sym (map-append g.dumps h.retried k.retried);
    live = All-append IsLive h.retried k.retried h.live k.live;
    acks =
        acknowledged-append xs ys ∙ ap (λ t. t ++ acknowledged ys) h.acks ∙ ap (λ t. n ∷ t) k.acks;
    lighter =
        λ q. omega (arith, attempts_of-append q h.retried k.retried, h.lighter q, k.lighter q);
    dead =
        subst (All IsExhausted) (sym (dead_letters-append xs ys))
          (All-append IsExhausted (dead_letters xs) (dead_letters ys) h.dead k.dead);
  }

  pub handle_all :
      (n : ℕ) (ps : List (Payload E)) (db : D)
      → All IsLive ps
      → (commands : List (Command Raw)) × (db' : D) × (handle_messages g
            (numbered_from n (map g.dumps ps))
            db
          ≡ (true, commands, db'))
        × Handled n ps commands
  unfolding handle_messages
  handle_all n [] db live = (
    [],
    db,
    refl,
    record {
      retried = [];
      same = refl;
      live = tt;
      acks = refl;
      lighter = λ q. omega arith;
      dead = tt;
    },
  )
  handle_all n (p ∷ ps) db (h, hs) =
      let (xs, db1, first, handled) = handle_one n p db h in
      let (ys, db2, rest, handled') = handle_all (n + 1) ps db1 hs in
      (
        xs ++ ys,
        db2,
        rw (handle_messages, first, rest) refl,
        Handled-append n p ps xs ys handled handled',
      )
