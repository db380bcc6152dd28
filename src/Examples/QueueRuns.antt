-- ===== src/Examples/QueueRuns.antt =====
-- The in-memory queue and its worker with two messages waiting.
use ocean_data_engine_fronte.Prelude.{
  ℕ, ◌+◌, ◌≤◌, ◌≡◌, refl, String, List, [], ◌∷◌, false, Option, none, some, arith,
}
use ocean_data_engine_fronte.Prelude.Json.{str, done, field, JsonFields}
use ocean_data_engine_fronte.Queue.Priority.{critical_alerts, backfill_archive, scientific}
use ocean_data_engine_fronte.Queue.Defs.{
  Message, InMemoryQueue, Fresh, was_seen, new_message, publish, tuple_le, key_le, insert, sort,
  first_ready, next_ready,
}
use ocean_data_engine_fronte.Queue.Count.{count_id, remaining}
use ocean_data_engine_fronte.Queue.Order.{IsNext, next_ready-IsNext}
use ocean_data_engine_fronte.Queue.Invariant.{IsValid}
use ocean_data_engine_fronte.Queue.Accounting.{
  Action, offer, succeed, fail, begin, exec_all, conservation,
}
use ocean_data_engine_fronte.Queue.Publish.{publish-publish}
use ocean_data_engine_fronte.Worker.Defs.{Handler, Worker, raised, run_once, drain}
use ocean_data_engine_fronte.Worker.Drain.{NothingDue, drain_lem}

abbrev alert : JsonFields
alert = field "type" (str "alert.created") done

abbrev first_fresh : Fresh
first_fresh = record { message_id = 1; enqueued_at = 10; not_before = 10 }

abbrev second_fresh : Fresh
second_fresh = record { message_id = 2; enqueued_at = 20; not_before = 20 }

abbrev third_fresh : Fresh
third_fresh = record { message_id = 3; enqueued_at = 30; not_before = 30 }

abbrev slow : Message
slow = new_message first_fresh backfill_archive alert "k1" 2

abbrev urgent : Message
urgent = new_message second_fresh critical_alerts alert "k2" 5

abbrev two_waiting : InMemoryQueue
two_waiting = record {
  pending = slow ∷ urgent ∷ [];
  dlq = [];
  seen_keys = "k2" ∷ "k1" ∷ [];
  backoff_base = 2_000_000;
  backoff_max = 300_000_000;
}

two_waiting-IsValid : IsValid two_waiting
two_waiting-IsValid = record {
  distinct = λ i. ground arith;
  retrying = (omega arith, (omega arith, tt));
  exhausted = tt;
}

abbrev actions : List Action
actions =
    offer first_fresh backfill_archive alert "k1" 2
    ∷ offer second_fresh critical_alerts alert "k2" 5
    ∷ fail (λ raw. raw) "timeout" 50
    ∷ succeed 60
    ∷ []

conservation_example :
    let h = exec_all (begin 2_000_000 300_000_000) actions in
    count_id 1 h.published
    ≡ count_id 1 h.acked + count_id 1 h.queue.pending + count_id 1 h.queue.dlq
conservation_example = conservation 2_000_000 300_000_000 actions 1

next_ready-IsNext_example : IsNext two_waiting 50 (some urgent)
unfolding next_ready sort insert key_le tuple_le first_ready
next_ready-IsNext_example = next_ready-IsNext two_waiting 50

publish-publish_example :
    let q' = (publish two_waiting third_fresh scientific alert "k3" 5).0 in
    (publish q' first_fresh critical_alerts done "k3" 7 ≡ (q', none))
    × (was_seen "k3" two_waiting.seen_keys ≡ false
        → (publish two_waiting third_fresh scientific alert "k3" 5).1
          ≡ some (new_message third_fresh scientific alert "k3" 5))
publish-publish_example =
    publish-publish two_waiting third_fresh first_fresh scientific critical_alerts alert done "k3" 5
      7

-- Every handler counts the call and raises.
abbrev counting : String → Option (Handler ℕ)
counting kind = some (λ payload n. (raised "still down", n + 1))

abbrev worker : Worker ℕ
worker = record {
  queue = two_waiting;
  world = 0;
  job_total = [];
  queue_gauge = λ p. 0;
  dlq_gauge = λ p. 0;
}

nothing_early : (run_once counting (λ raw. raw) 5 worker).1 ≡ false
unfolding run_once next_ready sort insert key_le tuple_le first_ready
nothing_early = refl

drain_example :
    let (w', processed) = drain counting 8 (λ i raw. raw) (λ i. 50 + i) worker in
    IsValid w'.queue
    × NothingDue counting (λ raw. raw) (50 + processed) w'.queue
    × (processed ≤ remaining worker.queue.pending)
drain_example =
    drain_lem counting 8 (λ i raw. raw) (λ i. 50 + i) worker two_waiting-IsValid (omega arith)
