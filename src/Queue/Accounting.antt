-- ===== src/Queue/Accounting.antt =====
-- Histories of the in-memory queue: publications, and consumptions that succeed or fail. Nothing
-- that was published is lost or doubled.
use ocean_data_engine_fronte.Prelude.{
  ℕ, ◌+◌, ◌≡◌, refl, inl, inr, String, List, [], ◌∷◌, Option, none, some, arith, leb, Bool-cases,
  In,
}
use ocean_data_engine_fronte.Prelude.Json.{JsonFields}
use ocean_data_engine_fronte.Queue.Priority.{QueuePriority}
use ocean_data_engine_fronte.Queue.Defs.{
  Message, InMemoryQueue, Fresh, empty, was_seen, new_message, publish, next_ready, ack, nack,
}
use ocean_data_engine_fronte.Queue.Count.{
  count_id, count_id-append, count_id-sort, count_id-In, count_id-remove, count_id-replace,
}
use ocean_data_engine_fronte.Queue.Order.{next_ready-In}

pub data Action : Type 0 where
  offer : Fresh → QueuePriority → JsonFields → String → ℕ → Action
  succeed : ℕ → Action
  fail : (ℕ → ℕ) → String → ℕ → Action

-- The queue with the messages that it took in and those that were acknowledged.
pub record History : Type 0 where
  pub queue : InMemoryQueue
  pub published : List Message
  pub acked : List Message

abbrev pub begin : ℕ → ℕ → History
begin base maximum = record { queue = empty base maximum; published = []; acked = [] }

abbrev pub add : Option Message → List Message → List Message
add none ms = ms
add (some m) ms = m ∷ ms

succeed_with : History → Option Message → History
succeed_with h none = h
succeed_with h (some m) = record h { queue = ack h.queue m; acked = m ∷ h.acked }

fail_with : (ℕ → ℕ) → String → ℕ → History → Option Message → History
fail_with uniform error now h none = h
fail_with uniform error now h (some m) = record h { queue = (nack h.queue uniform m error now).0 }

pub exec : History → Action → History
unfolding succeed_with fail_with
exec h (offer fresh p payload key max_attempts) =
    let (q, taken) = publish h.queue fresh p payload key max_attempts in
    record h { queue = q; published = add taken h.published }
exec h (succeed now) =
    let (q, found) = next_ready h.queue now in succeed_with (record h { queue = q }) found
exec h (fail uniform error now) =
    let (q, found) = next_ready h.queue now in
    fail_with uniform error now (record h { queue = q }) found

pub exec_all : History → List Action → History
exec_all h [] = h
exec_all h (a ∷ rest) = exec_all (exec h a) rest

-- where the messages with one id are
abbrev held : ℕ → History → ℕ
held i h = count_id i h.acked + count_id i h.queue.pending + count_id i h.queue.dlq

abbrev Accounts : ℕ → History → Type 0
Accounts i h = count_id i h.published ≡ held i h

held-nack :
    (i : ℕ) (q : InMemoryQueue) (m : Message) (uniform : ℕ → ℕ) (error : String) (now : ℕ)
    → In m q.pending
    → let q' = (nack q uniform m error now).0 in
      count_id i q'.pending + count_id i q'.dlq ≡ count_id i q.pending + count_id i q.dlq
unfolding nack
held-nack i q m uniform error now here = elim (Bool-cases (leb m.max_attempts (m.attempts + 1))) [
  | inl e ↦ rw e (
      ground (
        arith,
        count_id-remove i m.message_id q.pending,
        count_id-In m q.pending here,
        count_id-append i q.dlq
            (record m { attempts = m.attempts + 1; last_error = some error } ∷ []),
      ))
  | inr e ↦ rw e (rw count_id-replace refl)
]

succeed_with-Accounts :
    (i : ℕ) (h : History) (o : Option Message)
    → ((m : Message) → o ≡ some m → In m h.queue.pending)
    → Accounts i h
    → Accounts i (succeed_with h o)
unfolding succeed_with ack
succeed_with-Accounts i h none here a = a
succeed_with-Accounts i h (some m) here a = ground (
  arith,
  count_id-remove i m.message_id h.queue.pending,
  count_id-In m h.queue.pending (here m refl),
)

fail_with-Accounts :
    (i : ℕ) (uniform : ℕ → ℕ) (error : String) (now : ℕ) (h : History) (o : Option Message)
    → ((m : Message) → o ≡ some m → In m h.queue.pending)
    → Accounts i h
    → Accounts i (fail_with uniform error now h o)
unfolding fail_with
fail_with-Accounts i uniform error now h none here a = a
fail_with-Accounts i uniform error now h (some m) here a =
    omega (arith, held-nack i h.queue m uniform error now (here m refl))

publish-Accounts :
    (i : ℕ) (h : History) (fresh : Fresh) (p : QueuePriority) (payload : JsonFields) (key : String)
    (max_attempts : ℕ)
    → Accounts i h
    → Accounts i (exec h (offer fresh p payload key max_attempts))
unfolding exec publish
publish-Accounts i h fresh p payload key max_attempts a =
    elim (Bool-cases (was_seen key h.queue.seen_keys)) [
      | inl e ↦ rw e a
      | inr e ↦
          let added = new_message fresh p payload key max_attempts in
          rw e (ground (arith, count_id-append i h.queue.pending (added ∷ [])))
    ]

next_ready-Accounts :
    (i : ℕ) (h : History) (now : ℕ)
    → Accounts i h
    → Accounts i (record h { queue = (next_ready h.queue now).0 })
unfolding next_ready
next_ready-Accounts i h now a = rw count_id-sort a

exec-Accounts : (i : ℕ) (h : History) (a : Action) → Accounts i h → Accounts i (exec h a)
unfolding exec
exec-Accounts i h (offer fresh p payload key n) a = publish-Accounts i h fresh p payload key n a
exec-Accounts i h (succeed now) a =
    succeed_with-Accounts i (record h { queue = (next_ready h.queue now).0 })
      (next_ready h.queue now).1 (next_ready-In h.queue now) (next_ready-Accounts i h now a)
exec-Accounts i h (fail uniform error now) a =
    fail_with-Accounts i uniform error now (record h { queue = (next_ready h.queue now).0 })
      (next_ready h.queue now).1 (next_ready-In h.queue now) (next_ready-Accounts i h now a)

exec_all-Accounts :
    (i : ℕ) (h : History) (actions : List Action) → Accounts i h → Accounts i (exec_all h actions)
unfolding exec_all
exec_all-Accounts i h [] a = a
exec_all-Accounts i h (x ∷ rest) a = exec_all-Accounts i (exec h x) rest (exec-Accounts i h x a)

-- After any history from an empty queue, each id was published as often as it is now acknowledged,
-- waiting or dead-lettered, all three together.
pub conservation :
    (base maximum : ℕ) (actions : List Action) (i : ℕ)
    → let h = exec_all (begin base maximum) actions in
      count_id i h.published
      ≡ count_id i h.acked + count_id i h.queue.pending + count_id i h.queue.dlq
unfolding empty
conservation base maximum actions i = exec_all-Accounts i (begin base maximum) actions (omega arith)
