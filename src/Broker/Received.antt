-- ===== src/Broker/Received.antt =====
-- What a subscriber receives.
use ocean_data_engine_fronte.Prelude.{
  ℕ, ◌≡◌, ◌≢◌, refl, ap, ◌∙◌, sym, inl, inr, List, [], ◌∷◌, ◌++◌, not, Option, none, some, arith,
  keep, ◌==◌, if◌then◌else◌, Bool-cases,
}
use ocean_data_engine_fronte.Broker.Fanout.{
  Subscriber, AlertBroker, put_all, publish_event, subscribe, unsubscribe,
}

-- What others and the producer do to the broker.
pub data BrokerStep (E : Type 0) : Type 0 where
  published : E → BrokerStep E
  joined left : ℕ → BrokerStep E

module _ {E : Type 0} where
  unfoldable pub step : AlertBroker E → BrokerStep E → AlertBroker E
  unfolding publish_event subscribe unsubscribe
  step b (published event) = publish_event b event
  step b (joined i) = subscribe b i
  step b (left i) = unsubscribe b i

  unfoldable pub steps : AlertBroker E → List (BrokerStep E) → AlertBroker E
  unfolding step
  steps b [] = b
  steps b (s ∷ rest) = steps (step b s) rest

  abbrev pub events_of : List (BrokerStep E) → List E
  events_of [] = []
  events_of (published event ∷ rest) = event ∷ events_of rest
  events_of (joined i ∷ rest) = events_of rest
  events_of (left i ∷ rest) = events_of rest

  -- No step joins or leaves under this number.
  abbrev pub Others : ℕ → List (BrokerStep E) → Type 0
  Others i [] = Unit
  Others i (published event ∷ rest) = Others i rest
  Others i (joined j ∷ rest) = (j ≢ i) × Others i rest
  Others i (left j ∷ rest) = (j ≢ i) × Others i rest

  unfoldable pub queue_of : ℕ → List (Subscriber E) → Option (List E)
  queue_of i [] = none
  queue_of i (s ∷ subscribers) =
      let rest = queue_of i subscribers in if s.queue_id == i then some s.events else rest

  abbrev pub put_in : E → Option (List E) → Option (List E)
  put_in event none = none
  put_in event (some events) = some (events ++ event ∷ [])

  queue_of-put_all :
      (i : ℕ) (event : E) (ss : List (Subscriber E))
      → queue_of i (put_all event ss) ≡ put_in event (queue_of i ss)
  unfolding queue_of put_all
  queue_of-put_all i event [] = refl
  queue_of-put_all i event (s ∷ ss) = elim (Bool-cases (s.queue_id == i)) [
    | inl e ↦ rw e refl
    | inr e ↦ rw e (queue_of-put_all i event ss)
  ]

  queue_of-unsubscribe :
      (i j : ℕ) (ss : List (Subscriber E))
      → j ≢ i
      → queue_of i (keep (λ s. not (s.queue_id == j)) ss) ≡ queue_of i ss
  unfolding queue_of
  queue_of-unsubscribe i j [] h = refl
  queue_of-unsubscribe i j (s ∷ ss) h = ground (arith, queue_of-unsubscribe i j ss h)

  queue_of-joined :
      (i j : ℕ) (events : List E) (ss : List (Subscriber E))
      → j ≢ i
      → queue_of i (record { queue_id = j; events = events } ∷ ss) ≡ queue_of i ss
  unfolding queue_of
  queue_of-joined i j events ss h = ground arith

  queue_of-own :
      (i : ℕ) (events : List E) (ss : List (Subscriber E))
      → queue_of i (record { queue_id = i; events = events } ∷ ss) ≡ some events
  unfolding queue_of
  queue_of-own i events ss = ground arith

  append_nil : (xs : List E) → xs ++ [] ≡ xs
  append_nil [] = refl
  append_nil (x ∷ xs) = ap (λ l. x ∷ l) (append_nil xs)

  append_assoc : (xs : List E) (e : E) (ys : List E) → (xs ++ e ∷ []) ++ ys ≡ xs ++ e ∷ ys
  append_assoc [] e ys = refl
  append_assoc (x ∷ xs) e ys = ap (λ l. x ∷ l) (append_assoc xs e ys)

  queue_of-steps :
      (i : ℕ) (b : AlertBroker E) (rest : List (BrokerStep E)) (held : List E)
      → queue_of i b.subscribers ≡ some held
      → Others i rest
      → queue_of i (steps b rest).subscribers ≡ some (held ++ events_of rest)
  unfolding steps step publish_event subscribe unsubscribe
  queue_of-steps i b [] held h o = h ∙ ap some (sym (append_nil held))
  queue_of-steps i b (published event ∷ rest) held h o =
      queue_of-steps i (publish_event b event) rest (held ++ event ∷ [])
        (queue_of-put_all i event b.subscribers ∙ ap (put_in event) h) o
      ∙ ap some (append_assoc held event (events_of rest))
  queue_of-steps i b (joined j ∷ rest) held h o =
      queue_of-steps i (subscribe b j) rest held
        (queue_of-joined i j b.recent b.subscribers o.0 ∙ h) o.1
  queue_of-steps i b (left j ∷ rest) held h o =
      queue_of-steps i (unsubscribe b j) rest held (queue_of-unsubscribe i j b.subscribers o.0 ∙ h)
        o.1

  -- A subscriber holds the recent events of the moment it joined and then every event published since, in their
  -- order and each once, whoever else joins or leaves, as long as nobody leaves or joins under its number.
  pub subscribe-receives :
      (b : AlertBroker E) (i : ℕ) (rest : List (BrokerStep E))
      → Others i rest
      → queue_of i (steps (subscribe b i) rest).subscribers ≡ some (b.recent ++ events_of rest)
  unfolding subscribe
  subscribe-receives b i rest o =
      queue_of-steps i (subscribe b i) rest b.recent (queue_of-own i b.recent b.subscribers) o
