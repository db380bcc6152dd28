-- ===== src/Queue/Defs.antt =====
-- messaging/queue.py: `Message` and `InMemoryQueue`. Times are microseconds of UTC. A message is
-- known by its `message_id`, so the object that `next_ready` returns is found again by that.
use ocean_data_engine_fronte.Prelude.{
  ℕ, suc, ◌+◌, String, str_append, str_eq, List, [], ◌∷◌, ◌++◌, Bool, true, false, ◌&&◌, ◌||◌,
  Option, none, some, length, any, if◌then◌else◌, ltb, leb, ◌==◌,
}
use ocean_data_engine_fronte.Prelude.Json.{JsonFields}
use ocean_data_engine_fronte.Queue.Priority
use ocean_data_engine_fronte.Queue.Priority.{QueuePriority, priority_rank, backoff_delay}

pub record Message : Type 0 where
  pub subject : String
  pub priority : QueuePriority
  pub payload : JsonFields
  pub idempotency_key : String
  pub message_id : ℕ
  pub attempts : ℕ
  pub max_attempts : ℕ
  pub enqueued_at : ℕ
  pub not_before : ℕ
  pub last_error : Option String

pub record InMemoryQueue : Type 0 where
  pub pending : List Message
  pub dlq : List Message
  pub seen_keys : List String
  pub backoff_base : ℕ
  pub backoff_max : ℕ

unfoldable pub empty : ℕ → ℕ → InMemoryQueue
empty base maximum = record {
  pending = [];
  dlq = [];
  seen_keys = [];
  backoff_base = base;
  backoff_max = maximum;
}

-- What `uuid.uuid4()` and the two readings of the clock give a new message.
pub record Fresh : Type 0 where
  pub message_id : ℕ
  pub enqueued_at : ℕ
  pub not_before : ℕ

abbrev pub was_seen : String → List String → Bool
was_seen key keys = any (λ k. str_eq k key) keys

abbrev pub new_message : Fresh → QueuePriority → JsonFields → String → ℕ → Message
new_message fresh priority payload key max_attempts = record {
  subject = str_append "work." (Priority.value priority);
  priority = priority;
  payload = payload;
  idempotency_key = key;
  message_id = fresh.message_id;
  attempts = 0;
  max_attempts = max_attempts;
  enqueued_at = fresh.enqueued_at;
  not_before = fresh.not_before;
  last_error = none;
}

unfoldable pub publish :
    InMemoryQueue → Fresh → QueuePriority → JsonFields → String → ℕ → InMemoryQueue × Option Message
publish q fresh priority payload key max_attempts =
    if was_seen key q.seen_keys
    then (q, none)
    else let msg = new_message fresh priority payload key max_attempts in
      (record q { seen_keys = key ∷ q.seen_keys; pending = q.pending ++ msg ∷ [] }, some msg)

-- Python's order on tuples of three numbers
unfoldable pub tuple_le : ℕ → ℕ → ℕ → ℕ → ℕ → ℕ → Bool
tuple_le a b c x y z = ltb a x || (a == x && (ltb b y || (b == y && leb c z)))

-- by `(PRIORITY_RANK[m.priority], m.not_before, m.enqueued_at)`
unfoldable pub key_le : Message → Message → Bool
key_le m n =
    tuple_le (priority_rank m.priority) m.not_before m.enqueued_at (priority_rank n.priority)
      n.not_before n.enqueued_at

-- before the first message that is not smaller, so equal keys keep their order
unfoldable pub insert : Message → List Message → List Message
insert m [] = m ∷ []
insert m (n ∷ ns) = if key_le m n then m ∷ n ∷ ns else n ∷ insert m ns

-- `list.sort`, which is stable
unfoldable pub sort : List Message → List Message
sort [] = []
sort (m ∷ ms) = insert m (sort ms)

unfoldable pub first_ready : ℕ → List Message → Option Message
first_ready now [] = none
first_ready now (m ∷ ms) =
    let rest = first_ready now ms in if leb m.not_before now then some m else rest

unfoldable pub next_ready : InMemoryQueue → ℕ → InMemoryQueue × Option Message
next_ready q now =
    let sorted = sort q.pending in (record q { pending = sorted }, first_ready now sorted)

-- `list.remove`; a list without the message stays as it is
unfoldable pub remove : ℕ → List Message → List Message
remove i [] = []
remove i (m ∷ ms) = if m.message_id == i then ms else m ∷ remove i ms

-- the object itself has changed: the list holds its new contents
unfoldable pub replace : Message → List Message → List Message
replace new [] = []
replace new (m ∷ ms) = if m.message_id == new.message_id then new ∷ ms else m ∷ replace new ms

unfoldable pub ack : InMemoryQueue → Message → InMemoryQueue
ack q msg = record q { pending = remove msg.message_id q.pending }

unfoldable pub nack : InMemoryQueue → (ℕ → ℕ) → Message → String → ℕ → InMemoryQueue × Bool
nack q uniform msg error now =
    let failed = record msg { attempts = msg.attempts + 1; last_error = some error } in
    let delay = backoff_delay uniform true (msg.attempts + 1) q.backoff_base q.backoff_max in
    if leb msg.max_attempts (msg.attempts + 1)
    then (record q { pending = remove msg.message_id q.pending; dlq = q.dlq ++ failed ∷ [] }, true)
    else (
      record q { pending = replace (record failed { not_before = now + delay }) q.pending },
      false,
    )

-- len(self._pending), and the count of one priority
abbrev pub of_priority : QueuePriority → Message → Bool
of_priority priority m = priority_rank m.priority == priority_rank priority

unfoldable pub count_of : Option QueuePriority → List Message → ℕ
count_of none ms = length ms
count_of (some p) [] = 0
count_of (some p) (m ∷ ms) =
    let rest = count_of (some p) ms in if of_priority p m then suc rest else rest

unfoldable pub depth : InMemoryQueue → Option QueuePriority → ℕ
depth q priority = count_of priority q.pending

unfoldable pub dlq_depth : InMemoryQueue → Option QueuePriority → ℕ
dlq_depth q priority = count_of priority q.dlq
