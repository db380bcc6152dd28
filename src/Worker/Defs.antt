-- ===== src/Worker/Defs.antt =====
-- worker/runtime.py `Worker`. A handler is code of the deployment: it is a parameter that reads the
-- payload, changes a world `S` of its own and returns or raises.
use ocean_data_engine_fronte.Prelude.{
  ℕ, zero, suc, String, List, ◌∷◌, Bool, true, false, Option, none, some, if◌then◌else◌,
}
use ocean_data_engine_fronte.Prelude.Json.{Json, str, JsonFields, get_or}
use ocean_data_engine_fronte.Queue.Priority.{QueuePriority}
use ocean_data_engine_fronte.Queue.Defs.{
  Message, InMemoryQueue, next_ready, ack, nack, depth, dlq_depth,
}

pub data Outcome : Type 0 where
  returned : Outcome
  raised : String → Outcome

abbrev pub Handler : Type 0 → Type 0
Handler S = JsonFields → S → Outcome × S

-- db/enums.py; those that the worker counts
pub data JobStatus : Type 0 where
  succeeded retrying dead_letter : JobStatus

pub record Worker (S : Type 0) : Type 0 where
  pub queue : InMemoryQueue
  pub world : S
  -- the counter JOB_TOTAL: the label pairs it was incremented at, latest first
  pub job_total : List (Json × JobStatus)
  -- the gauges QUEUE_DEPTH and DLQ_DEPTH
  pub queue_gauge : QueuePriority → ℕ
  pub dlq_gauge : QueuePriority → ℕ

module _ {S : Type 0} (handlers : String → Option (Handler S)) where
  -- every gauge is set to what the queue holds
  unfoldable pub update_metrics : Worker S → Worker S
  update_metrics w = record w {
    queue_gauge = λ p. depth w.queue (some p);
    dlq_gauge = λ p. dlq_depth w.queue (some p);
  }

  abbrev pub run_handler : Option (Handler S) → Handler S
  run_handler none payload world = (raised "no handler for event type", world)
  run_handler (some handler) payload world = handler payload world

  -- A key that is no text finds no handler, or is not hashable: both raise. The error's text is
  -- shortened.
  abbrev pub handler_of : Json → Handler S
  handler_of (str kind) = run_handler (handlers kind)
  handler_of _ = run_handler none

  unfoldable pub dispatch : Message → S → Outcome × S
  dispatch message world = handler_of (get_or message.payload "type" (str "")) message.payload world

  abbrev pub status_of : Bool → JobStatus
  status_of true = dead_letter
  status_of false = retrying

  -- what `run_once` does with the message and the handler's outcome, before the metrics
  abbrev pub settle : (ℕ → ℕ) → ℕ → Worker S → Message → Outcome → S → Worker S
  settle uniform now w message returned world = record w {
    queue = ack w.queue message;
    world = world;
    job_total = (get_or message.payload "type" (str "unknown"), succeeded) ∷ w.job_total;
  }
  settle uniform now w message (raised error) world =
      let (queue, dead) = nack w.queue uniform message error now in
      record w {
        queue = queue;
        world = world;
        job_total = (get_or message.payload "type" (str "unknown"), status_of dead) ∷ w.job_total;
      }

  abbrev pub run_message : (ℕ → ℕ) → ℕ → Worker S → Option Message → Worker S × Bool
  run_message uniform now w none = (update_metrics w, false)
  run_message uniform now w (some message) =
      let (outcome, world) = dispatch message w.world in
      (update_metrics (settle uniform now w message outcome world), true)

  unfoldable pub run_once : (ℕ → ℕ) → ℕ → Worker S → Worker S × Bool
  unfolding update_metrics
  run_once uniform now w =
      let (queue, message) = next_ready w.queue now in
      run_message uniform now (record w { queue = queue }) message

  -- `for _ in range(max_iterations)`, with the count of the messages processed. `now` gives the instant of each round,
  -- one for all when the caller passes it and the clock's when not; `uniform` gives the random draws of each.
  unfoldable pub drain : ℕ → (ℕ → ℕ → ℕ) → (ℕ → ℕ) → Worker S → Worker S × ℕ
  drain zero uniform now w = (w, 0)
  drain (suc left) uniform now w =
      let (w', ran) = run_once (uniform 0) (now 0) w in
      let rest = drain left (λ i. uniform (suc i)) (λ i. now (suc i)) w' in
      if ran then (rest.0, suc rest.1) else (w', 0)
