-- ===== src/JetStream/Dispatch.antt =====
-- messaging/queue.py `JetStreamQueue._dispatch_one`. The server's answers are parameters.
use ocean_data_engine_fronte.Prelude.{
  ℕ, zero, suc, String, List, [], ◌∷◌, ◌++◌, Bool, true, Option, none, some, leb, if◌then◌else◌,
}
use ocean_data_engine_fronte.Prelude.Json.{Json, str, arr, obj, JsonFields, get_or}
use ocean_data_engine_fronte.Queue.Priority.{backoff_delay}
use ocean_data_engine_fronte.Worker.Defs.{Outcome, returned, raised, Handler}

-- What the process asked of the server, in order.
pub data Request : Type 0 where
  acked : Request
  -- with the delay in microseconds, or with none for a client that takes no delay
  naked : Option ℕ → Request
  -- published to the dead-letter subject: original, error, attempts
  dead_lettered : Json → String → ℕ → Request

-- How the call ends: it returns, or an exception leaves it.
pub data Ending : Type 0 where
  finished : Ending
  escaped : String → Ending

-- How `msg.nak` ends: it returns, raises TypeError (a client that takes no delay) or raises something else.
pub data NakReply : Type 0 where
  nak_done nak_type_error : NakReply
  nak_raised : String → NakReply

pub record Server : Type 0 where
  pub ack_fails : Bool
  pub publish_fails : Bool
  pub nak_with_delay : NakReply
  pub nak_without_delay : NakReply

pub record Delivery : Type 0 where
  -- `json.loads(msg.data)`, with `none` where it raises
  pub decoded : Option Json
  -- `msg.metadata.num_delivered`, with `none` where it is missing
  pub num_delivered : Option ℕ

-- How the `try` block ends. An exception takes the variables along that were bound before it.
pub data Tried : Type 0 where
  passed : Tried
  caught : (envelope event_type : Option Json) → String → Tried

-- `delivered or 1`
abbrev pub deliveries : Option ℕ → ℕ
deliveries none = 1
deliveries (some zero) = 1
deliveries (some (suc n)) = suc n

module _ {S : Type 0} (server : Server) (handlers : String → Option (Handler S)) where
  abbrev pub ack_in_try : Option Json → Option Json → S → Tried × List Request × S
  ack_in_try envelope event_type world =
      if server.ack_fails
      then (caught envelope event_type "ack failed", [], world)
      else (passed, acked ∷ [], world)

  abbrev pub after_handler : Option Json → Option Json → Outcome × S → Tried × List Request × S
  after_handler envelope event_type (returned, world) = ack_in_try envelope event_type world
  after_handler envelope event_type (raised error, world) =
      (caught envelope event_type error, [], world)

  -- an event that nobody handles is acknowledged
  abbrev pub run_found :
      Option Json → Option Json → Option (Handler S) → JsonFields → S → Tried × List Request × S
  run_found envelope event_type none payload world = ack_in_try envelope event_type world
  run_found envelope event_type (some handler) payload world =
      after_handler envelope event_type (handler payload world)

  -- `handlers.get(event_type)`; a list or a dict is not hashable
  abbrev pub run_event : Json → Json → JsonFields → S → Tried × List Request × S
  run_event envelope (str kind) payload world =
      run_found (some envelope) (some (str kind)) (handlers kind) payload world
  run_event envelope (arr items) payload world =
      (caught (some envelope) (some (arr items)) "unhashable type", [], world)
  run_event envelope (obj fields) payload world =
      (caught (some envelope) (some (obj fields)) "unhashable type", [], world)
  run_event envelope event_type payload world =
      run_found (some envelope) (some event_type) none payload world

  abbrev pub run_payload : Json → Json → S → Tried × List Request × S
  run_payload envelope (obj payload) world =
      run_event envelope (get_or payload "type" (str "")) payload world
  run_payload envelope _ world = (caught (some envelope) none "no attribute 'get'", [], world)

  abbrev pub run_envelope : Option Json → S → Tried × List Request × S
  run_envelope none world = (caught none none "cannot decode", [], world)
  run_envelope (some (obj fields)) world =
      run_payload (obj fields) (get_or fields "payload" (obj fields)) world
  run_envelope (some envelope) world = (caught (some envelope) none "no attribute 'get'", [], world)

  -- the inner `try`: an envelope that is not bound makes it fail like the server does
  abbrev pub publish_dead : Option Json → String → ℕ → List Request
  publish_dead none error n = []
  publish_dead (some envelope) error n =
      if server.publish_fails then [] else dead_lettered envelope error n ∷ []

  -- The last log line reads `event_type`.
  abbrev pub after_ack : Option Json → Ending
  after_ack none = escaped "UnboundLocalError"
  after_ack (some event_type) = finished

  abbrev pub give_up : Option Json → Option Json → String → ℕ → List Request × Ending
  give_up envelope event_type error n =
      if server.ack_fails
      then (publish_dead envelope error n, escaped "ack failed")
      else (publish_dead envelope error n ++ acked ∷ [], after_ack event_type)

  -- an exception of the second call leaves the call, whichever it is
  abbrev pub nak_plain : NakReply → List Request × Ending
  nak_plain nak_done = (naked none ∷ [], finished)
  nak_plain nak_type_error = ([], escaped "TypeError")
  nak_plain (nak_raised error) = ([], escaped error)

  abbrev pub nak_after : ℕ → NakReply → List Request × Ending
  nak_after delay nak_done = (naked (some delay) ∷ [], finished)
  nak_after delay nak_type_error = nak_plain server.nak_without_delay
  nak_after delay (nak_raised error) = ([], escaped error)

  abbrev pub retry : (ℕ → ℕ) → ℕ → List Request × Ending
  retry uniform n =
      nak_after (backoff_delay uniform true n 2_000_000 300_000_000) server.nak_with_delay

  abbrev pub except_block : (ℕ → ℕ) → ℕ → ℕ → Tried → List Request → List Request × Ending
  except_block uniform max_deliver n passed requests = (requests, finished)
  except_block uniform max_deliver n (caught envelope event_type error) requests =
      if leb max_deliver n then give_up envelope event_type error n else retry uniform n

  unfoldable pub try_block : Option Json → S → Tried × List Request × S
  try_block = run_envelope

  unfoldable pub dispatch_one : (ℕ → ℕ) → ℕ → Delivery → S → List Request × Ending × S
  unfolding try_block
  dispatch_one uniform max_deliver msg world =
      let (tried, requests, world') = try_block msg.decoded world in
      let (all, ending) =
        except_block uniform max_deliver (deliveries msg.num_delivered) tried requests in
      (all, ending, world')
