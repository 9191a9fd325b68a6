-- ===== src/Worker/Draining.antt =====
-- The queue empties: each message is attempted at most five times and then set aside.
use secure_api.Prelude.{
  ℕ, zero, suc, ◌+◌, ◌*◌, ◌<◌, ◌≤◌, ◌≡◌, refl, sym, ◌∙◌, ap, subst, Bool, true, some, List, [], ◌∷◌,
  ◌++◌, map, arith, length, length-append, length-map, take, drop, length-take, length-drop, All,
  take-map, drop-map, map-append, All-append, All-take,
}
use secure_api.Worker.{
  Payload, Ingest, Command, handle_messages, consume, readded, dead_letters, acknowledged,
  numbered_from,
}
use secure_api.Worker.Stream.{
  ids_from, ids_from-add, readded-append, dead_letters-append, acknowledged-append,
  length-numbered_from, numbered_from-append, take-numbered_from, drop-numbered_from,
}
use secure_api.Worker.Attempts.{
  IsLive, count_of, attempts_of, count_of-append, attempts_of-append, attempts_of-le, count_of_all,
  count_of-split, attempts_of-split, All-drop, IsExhausted, Handled, handle_all,
}

module _ {E D Raw : Type 0} (g : Ingest E D Raw)
    (round_trip : (p : Payload E) → g.parse (g.dumps p) ≡ some p) where
  -- the messages on the stream had the ids from n on
  record Consumed (n : ℕ) (ps : List (Payload E)) (commands : List (Command Raw)) : Type 0 where
    retried : List (Payload E)
    same : readded commands ≡ map g.dumps retried
    acks : acknowledged commands ≡ ids_from n (length ps + length retried)
    few : (q : ℕ → E → Bool) → count_of q ps + count_of q retried ≤ attempts_of q ps
    dead : All (IsExhausted g round_trip) (dead_letters commands)

  then_rest :
      (n k : ℕ) (ps : List (Payload E)) (xs ys : List (Command Raw))
      (h : Handled g round_trip n (take k ps) xs)
      → Consumed (n + length (take k ps)) (drop k ps ++ h.retried) ys
      → Consumed n ps (xs ++ ys)
  then_rest n k ps xs ys h c = record {
    retried = h.retried ++ c.retried;
    same =
        readded-append xs ys
        ∙ ap (λ t. t ++ readded ys) h.same
        ∙ ap (λ t. map g.dumps h.retried ++ t) c.same
        ∙ sym (map-append g.dumps h.retried c.retried);
    acks =
        acknowledged-append xs ys
        ∙ ap (λ t. t ++ acknowledged ys) h.acks
        ∙ ap (λ t. ids_from n (length (take k ps)) ++ t) c.acks
        ∙ sym (
            ids_from-add n (length (take k ps)) (length (drop k ps ++ h.retried) + length c.retried)
              (length ps + length (h.retried ++ c.retried)) (n + length (take k ps))
              (omega (
                arith,
                length-append (drop k ps) h.retried,
                length-append h.retried c.retried,
                length-take k ps,
                length-drop k ps,
              ))
              refl);
    few = λ q. omega (
      arith,
      c.few q,
      h.lighter q,
      count_of-append q (drop k ps) h.retried,
      count_of-append q h.retried c.retried,
      count_of-split q k ps,
      attempts_of-append q (drop k ps) h.retried,
      attempts_of-split q k ps,
    );
    dead =
        subst (All (IsExhausted g round_trip)) (sym (dead_letters-append xs ys))
          (All-append (IsExhausted g round_trip) (dead_letters xs) (dead_letters ys) h.dead c.dead);
  }

  -- what is left on the stream after a pass
  left_over :
      (n k next : ℕ) (ps retried : List (Payload E)) (xs : List (Command Raw))
      → next ≡ n + length ps
      → readded xs ≡ map g.dumps retried
      → drop k (numbered_from n (map g.dumps ps)) ++ numbered_from next (readded xs)
        ≡ numbered_from (n + length (take k ps)) (map g.dumps (drop k ps ++ retried))
  left_over n k next ps retried xs free same =
      let m = n + length (take k ps) in
      let start : n + length (take k (map g.dumps ps)) ≡ m =
        omega (arith, length-take k (map g.dumps ps), length-take k ps, length-map g.dumps ps) in
      let end : next ≡ m + length (map g.dumps (drop k ps)) =
        omega (arith, free, length-map g.dumps (drop k ps), length-take k ps, length-drop k ps) in
      ap (λ t. t ++ numbered_from next (readded xs))
        (drop-numbered_from k n (map g.dumps ps)
          ∙ ap (λ z. numbered_from z (drop k (map g.dumps ps))) start
          ∙ ap (numbered_from m) (drop-map g.dumps k ps))
      ∙ ap (λ t. numbered_from m (map g.dumps (drop k ps)) ++ numbered_from next t) same
      ∙ ap (λ z. numbered_from m (map g.dumps (drop k ps)) ++ numbered_from z (map g.dumps retried))
          end
      ∙ sym (numbered_from-append m (map g.dumps (drop k ps)) (map g.dumps retried))
      ∙ ap (numbered_from m) (sym (map-append g.dumps (drop k ps) retried))

  module _ (count : ℕ) (positive : 0 < count) where
    consume_step :
        (fuel next : ℕ) (message : ℕ × Raw) (messages : List (ℕ × Raw)) (db : D)
        (xs : List (Command Raw)) (db1 : D) (ys : List (Command Raw)) (db2 : D)
        → handle_messages g (take count (message ∷ messages)) db ≡ (true, xs, db1)
        → (let added = numbered_from next (readded xs) in
            consume g count fuel
              (next + length added)
              (drop count (message ∷ messages) ++ added)
              db1
            ≡ some (ys, db2))
        → consume g count (suc fuel) next (message ∷ messages) db ≡ some (xs ++ ys, db2)
    unfolding consume
    consume_step fuel next message messages db xs db1 ys db2 done rest =
        rw (consume, done, rest) refl

    consume_all :
        (fuel n next : ℕ) (ps : List (Payload E)) (db : D)
        → All IsLive ps
        → attempts_of (λ org_id event. true) ps ≤ fuel
        → next ≡ n + length ps
        → (commands : List (Command Raw)) × (db' : D) × (consume g count fuel next
              (numbered_from n (map g.dumps ps))
              db
            ≡ some (commands, db'))
          × Consumed n ps commands
    unfolding consume
    consume_all zero n next [] db live enough free = (
      [],
      db,
      refl,
      record { retried = []; same = refl; acks = refl; few = λ q. omega arith; dead = tt },
    )
    consume_all (suc fuel) n next [] db live enough free = (
      [],
      db,
      refl,
      record { retried = []; same = refl; acks = refl; few = λ q. omega arith; dead = tt },
    )
    consume_all zero n next (p ∷ ps) db (h, hs) enough free = absurd (omega arith)
    consume_all (suc fuel) n next (p ∷ ps) db live enough free =
        let all = p ∷ ps in
        let (xs, db1, done, h) =
          handle_all g round_trip n (take count all) db (All-take IsLive count all live) in
        let left = drop count all ++ h.retried in
        let added = numbered_from next (readded xs) in
        let any_event : ℕ → E → Bool = λ org_id event. true in
        let (ys, db2, rest, c) =
          consume_all fuel (n + length (take count all)) (next + length added) left db1
            (All-append IsLive (drop count all) h.retried (All-drop count all live) h.live)
            (omega (
              arith,
              h.lighter any_event,
              count_of_all (take count all),
              attempts_of-append any_event (drop count all) h.retried,
              attempts_of-split any_event count all,
              length-take count all,
              positive,
            ))
            (omega (
              arith,
              free,
              length-numbered_from next (readded xs),
              ap length h.same,
              length-map g.dumps h.retried,
              length-append (drop count all) h.retried,
              length-take count all,
              length-drop count all,
            )) in
        (
          xs ++ ys,
          db2,
          consume_step fuel next (n, g.dumps p) (numbered_from (n + 1) (map g.dumps ps)) db xs db1
              ys db2
              (ap (λ t. handle_messages g t db)
                  (take-numbered_from count n (map g.dumps all)
                    ∙ ap (numbered_from n) (take-map g.dumps count all))
                ∙ done)
              (ap (λ t. consume g count fuel (next + length added) t db1)
                  (left_over n count next all h.retried xs free h.same)
                ∙ rest),
          then_rest n count all xs ys h c,
        )

  -- Where a message that is written can be read back, messages with fewer than five failed attempts
  -- drain from the queue, in passes of one message or more, on five passes for each of them, whatever
  -- processing them does: the worker ends with an empty stream; the ids of all messages that were
  -- ever on it, first the given ones and then those that were put back, have been acknowledged, each
  -- once and in the order of the stream; whichever events one looks at, there were at most five
  -- deliveries for each given message of such an event; and every dead letter counts five attempts
  -- and names the error.
  pub consume_lem :
      (count : ℕ) (ps : List (Payload E)) (db : D) (q : ℕ → E → Bool)
      → 0 < count
      → All IsLive ps
      → (commands : List (Command Raw)) × (db' : D) × (consume g count
            (5 * length ps)
            (length ps)
            (numbered_from 0 (map g.dumps ps))
            db
          ≡ some (commands, db'))
        × ((retried : List (Payload E)) × (readded commands ≡ map g.dumps retried)
            × (acknowledged commands ≡ ids_from 0 (length ps + length retried))
            × (count_of q ps + count_of q retried ≤ 5 * count_of q ps))
        × All (IsExhausted g round_trip) (dead_letters commands)
  consume_lem count ps db q positive live =
      let any_event : ℕ → E → Bool = λ org_id event. true in
      let (commands, db', done, c) =
        consume_all count positive (5 * length ps) 0 (length ps) ps db live
          (omega (arith, attempts_of-le any_event ps, count_of_all ps)) (omega arith) in
      (
        commands,
        db',
        done,
        (c.retried, c.same, c.acks, omega (arith, c.few q, attempts_of-le q ps)),
        c.dead,
      )
