-- ===== src/Broker/Fanout.antt =====
-- api/broker.py `AlertBroker`. A subscriber's `asyncio.Queue` is known by a number and holds what was put and
-- not yet taken. No operation waits between its first and its last change, so each is one step.
use ocean_data_engine_fronte.Prelude.{
  ℕ, List, [], ◌∷◌, ◌++◌, not, keep, length, leb, ◌==◌, if◌then◌else◌,
}

pub record Subscriber (E : Type 0) : Type 0 where
  pub queue_id : ℕ
  pub events : List E

pub record AlertBroker (E : Type 0) : Type 0 where
  pub replay : ℕ
  pub recent : List E
  pub subscribers : List (Subscriber E)

module _ {E : Type 0} where
  abbrev pub broker_init : ℕ → AlertBroker E
  broker_init replay = record { replay = replay; recent = []; subscribers = [] }

  abbrev pub without_first : List E → List E
  without_first [] = []
  without_first (e ∷ es) = es

  -- deque(maxlen=…).append: a full deque drops its first element
  unfoldable pub push_recent : ℕ → List E → E → List E
  push_recent maxlen recent event =
      let all = recent ++ event ∷ [] in if leb (length all) maxlen then all else without_first all

  -- q.put_nowait(event) for each target
  unfoldable pub put_all : E → List (Subscriber E) → List (Subscriber E)
  put_all event [] = []
  put_all event (s ∷ subscribers) =
      record s { events = s.events ++ event ∷ [] } ∷ put_all event subscribers

  unfoldable pub publish_event : AlertBroker E → E → AlertBroker E
  unfolding push_recent put_all
  publish_event b event = record b {
    recent = push_recent b.replay b.recent event;
    subscribers = put_all event b.subscribers;
  }

  -- a new queue starts with the recent events
  unfoldable pub subscribe : AlertBroker E → ℕ → AlertBroker E
  subscribe b queue_id = record b {
    subscribers = record { queue_id = queue_id; events = b.recent } ∷ b.subscribers;
  }

  unfoldable pub unsubscribe : AlertBroker E → ℕ → AlertBroker E
  unsubscribe b queue_id = record b {
    subscribers = keep (λ s. not (s.queue_id == queue_id)) b.subscribers;
  }

  abbrev pub subscriber_count : AlertBroker E → ℕ
  subscriber_count b = length b.subscribers
