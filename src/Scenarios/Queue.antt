-- ===== src/Scenarios/Queue.antt =====
-- The theorem on the ingest queue, applied.
use secure_api.Prelude.{
  ℕ, ◌+◌, ◌*◌, ◌≤◌, ◌==◌, ◌≡◌, refl, Bool, true, Option, none, some, String, List, [], ◌∷◌, map,
  arith, length, All, if◌then◌else◌,
}
use secure_api.Worker.{
  Payload, Ingest, Command, consume, handle_message, handle_messages, readded, dead_letters,
  acknowledged, numbered_from,
}
use secure_api.Worker.Stream.{ids_from}
use secure_api.Worker.Attempts.{count_of, IsExhausted}
use secure_api.Worker.Draining.{consume_lem}

-- what is written: a payload, with the error if it has one
abbrev Written : Type 0
Written = Payload ℕ × Option String

-- events are numbers, the database is the number of events stored, and 13 cannot be processed
abbrev ingest : Ingest ℕ ℕ Written
ingest = record {
  parse = λ raw. some raw.0;
  dumps = λ p. (p, none);
  dumps_error = λ p error. (p, some error);
  process = λ org_id event stored. if event == 13 then none else some (stored + 1);
  refresh_gauges = λ stored. true;
}

abbrev message : ℕ → ℕ → Payload ℕ
message retry event = record { retry = retry; org_id = 1; event = event }

abbrev messages : List (Payload ℕ)
messages = message 0 7 ∷ message 0 13 ∷ message 2 8 ∷ []

abbrev written : List Written
written = map (λ p. (p, none)) messages

abbrev is_bad : ℕ → ℕ → Bool
is_bad org_id event = event == 13

abbrev acknowledged_by : Option (List (Command Written) × ℕ) → List ℕ
acknowledged_by none = []
acknowledged_by (some (commands, db)) = acknowledged commands

abbrev set_aside_by : Option (List (Command Written) × ℕ) → List Written
set_aside_by none = []
set_aside_by (some (commands, db)) = dead_letters commands

-- the message that fails comes back four times
seven_deliveries :
    acknowledged_by (consume ingest 2 15 3 (numbered_from 0 written) 0)
    ≡ 0 ∷ 1 ∷ 2 ∷ 3 ∷ 4 ∷ 5 ∷ 6 ∷ []
unfolding consume handle_messages handle_message
seven_deliveries = refl

one_dead_letter :
    set_aside_by (consume ingest 2 15 3 (numbered_from 0 written) 0)
    ≡ (message 5 13, some "max_retries_exceeded") ∷ []
unfolding consume handle_messages handle_message
one_dead_letter = refl

consume_lem_example :
    (commands : List (Command Written)) × (db' : ℕ) × (consume ingest 2
        (5 * length messages)
        (length messages)
        (numbered_from 0 written)
        0
      ≡ some (commands, db'))
    × ((retried : List (Payload ℕ)) × (readded commands ≡ map (λ p. (p, none)) retried)
        × (acknowledged commands ≡ ids_from 0 (length messages + length retried))
        × (count_of is_bad messages + count_of is_bad retried ≤ 5 * count_of is_bad messages))
    × All (IsExhausted ingest (λ p. refl)) (dead_letters commands)
consume_lem_example =
    consume_lem ingest (λ p. refl) 2 messages 0 is_bad (ground arith)
      (ground arith, (ground arith, (ground arith, tt)))
