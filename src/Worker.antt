-- ===== src/Worker.antt =====
-- app/worker.py and app/services/queue_service.py: the ingest queue's consumer. What it sends to
-- Redis is a list of commands, each of which is taken to be carried out; JSON, and the processing
-- of one event with its model, are parameters.
pub mod Stream
pub mod Attempts
pub mod Draining
use secure_api.Prelude.{
  ℕ, zero, suc, ◌+◌, Bool, true, false, Option, none, some, List, [], ◌∷◌, ◌++◌, leb, length, take,
  drop, String, if◌then◌else◌,
}

-- the JSON object of a message: `_retry`, `org_id` and the rest
pub record Payload (E : Type 0) : Type 0 where
  pub retry : ℕ
  pub org_id : ℕ
  pub event : E

-- `parse` is json.loads with the two pops, and gives nothing where one of them raises; `process`
-- loads the model, processes the event and commits, and gives nothing where that raises;
-- `refresh_gauges` tells whether it returns. `dumps_error` writes the further key `_error`.
pub record Ingest (E D Raw : Type 0) : Type 0 where
  pub parse : Raw → Option (Payload E)
  pub dumps : Payload E → Raw
  pub dumps_error : Payload E → (error : String) → Raw
  pub process : ℕ → E → D → Option D
  pub refresh_gauges : D → Bool

-- XADD to STREAM_NAME and to DEAD_LETTER_STREAM, and XACK with the message's id
pub data Command (Raw : Type 0) : Type 0 where
  xadd_stream : Raw → Command Raw
  xadd_dead : Raw → Command Raw
  xack : ℕ → Command Raw

-- MAX_RETRIES
abbrev pub max_retries : ℕ
max_retries = 5

module _ {E D Raw : Type 0} (g : Ingest E D Raw) where
  -- an exception of `process` is before the commit, one of `refresh_gauges` after it
  abbrev pub attempt : Payload E → D → Bool × D
  attempt p db = elim (g.process p.org_id p.event db) [
    | none ↦ (false, db)
    | some db' ↦ (g.refresh_gauges db', db')
  ]

  -- the payload with `_retry` raised
  abbrev pub again : Payload E → Payload E
  again p = record p { retry = p.retry + 1 }

  -- what the `except` clause sends
  abbrev pub on_failure : Payload E → Command Raw
  on_failure p =
      if leb max_retries (p.retry + 1)
      then xadd_dead (g.dumps_error (again p) "max_retries_exceeded")
      else xadd_stream (g.dumps (again p))

  -- The commands and the database, and whether it returned: the message is read outside of `try`,
  -- and acknowledged in `finally`.
  unfoldable pub handle_message : ℕ × Raw → D → Bool × List (Command Raw) × D
  handle_message (msg_id, raw) db = elim (g.parse raw) [
    | none ↦ (false, [], db)
    | some p ↦
        let (good, db') = attempt p db in
        (true, (if good then xack msg_id ∷ [] else on_failure p ∷ xack msg_id ∷ []), db')
  ]

  -- the loop over the messages that a read gave; an exception leaves it
  unfoldable pub handle_messages : List (ℕ × Raw) → D → Bool × List (Command Raw) × D
  unfolding handle_message
  handle_messages [] db = (true, [], db)
  handle_messages (message ∷ messages) db =
      let (fine, commands, db') = handle_message message db in
      let (fine', commands', db'') = handle_messages messages db' in
      if fine then (fine', commands ++ commands', db'') else (false, commands, db')

  abbrev pub enqueue_event : (org_id : ℕ) → E → Raw
  enqueue_event org_id event = g.dumps (record { retry = 0; org_id = org_id; event = event })

module _ {Raw : Type 0} where
  abbrev pub readded : List (Command Raw) → List Raw
  readded [] = []
  readded (xadd_stream raw ∷ commands) = raw ∷ readded commands
  readded (xadd_dead raw ∷ commands) = readded commands
  readded (xack msg_id ∷ commands) = readded commands

  abbrev pub dead_letters : List (Command Raw) → List Raw
  dead_letters [] = []
  dead_letters (xadd_stream raw ∷ commands) = dead_letters commands
  dead_letters (xadd_dead raw ∷ commands) = raw ∷ dead_letters commands
  dead_letters (xack msg_id ∷ commands) = dead_letters commands

  -- the ids, in the order of the acknowledgements
  abbrev pub acknowledged : List (Command Raw) → List ℕ
  acknowledged [] = []
  acknowledged (xadd_stream raw ∷ commands) = acknowledged commands
  acknowledged (xadd_dead raw ∷ commands) = acknowledged commands
  acknowledged (xack msg_id ∷ commands) = msg_id ∷ acknowledged commands

  -- messages with the ids that they get one after the other
  abbrev pub numbered_from : ℕ → List Raw → List (ℕ × Raw)
  numbered_from n [] = []
  numbered_from n (raw ∷ raws) = (n, raw) ∷ numbered_from (n + 1) raws

-- The loop of `run`, until the stream is empty: each pass reads up to `count` of the messages that
-- Redis has yet to deliver, in their order, and what is added to the stream comes after them, under
-- the next ids: of an id, only its place in the order of the stream matters, so that ids are numbers
-- and `next` is the first that is free. It gives all commands in their order.
module _ {E D Raw : Type 0} (g : Ingest E D Raw) (count : ℕ) where
  abbrev prepend :
      List (Command Raw) → Option (List (Command Raw) × D) → Option (List (Command Raw) × D)
  prepend commands none = none
  prepend commands (some (commands', db)) = some (commands ++ commands', db)

  unfoldable pub consume : ℕ → (next : ℕ) → List (ℕ × Raw) → D → Option (List (Command Raw) × D)
  unfolding handle_messages
  consume fuel next [] db = some ([], db)
  consume zero next (message ∷ messages) db = none
  consume (suc fuel) next (message ∷ messages) db =
      let (fine, commands, db') = handle_messages g (take count (message ∷ messages)) db in
      let added = numbered_from next (readded commands) in
      let rest =
        consume fuel (next + length added) (drop count (message ∷ messages) ++ added) db' in
      if fine then prepend commands rest else none
