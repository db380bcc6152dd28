-- ===== src/JetStream/Settle.antt =====
-- What `_dispatch_one` asks of the server, on each way that a delivery can go.
use ocean_data_engine_fronte.Prelude.{
  ℕ, suc, ◌≡◌, refl, inl, inr, String, List, [], ◌∷◌, ◌++◌, Bool, true, false, Option, none, some,
  arith, leb, if◌then◌else◌, Bool-cases,
}
use ocean_data_engine_fronte.Prelude.Json.{Json, str, arr, obj, JsonFields, get_or}
use ocean_data_engine_fronte.Queue.Priority.{backoff_delay}
use ocean_data_engine_fronte.Worker.Defs.{Outcome, returned, raised, Handler}
use ocean_data_engine_fronte.JetStream.Dispatch.{
  Request, acked, naked, dead_lettered, finished, escaped, Server, Delivery, Tried, passed, caught,
  NakReply, nak_done, nak_type_error, nak_raised, nak_after, deliveries, ack_in_try, after_handler,
  run_found, run_event, run_payload, publish_dead, except_block, try_block, dispatch_one,
}

abbrev pub settlements : List Request → ℕ
settlements [] = 0
settlements (acked ∷ rs) = suc (settlements rs)
settlements (naked d ∷ rs) = suc (settlements rs)
settlements (dead_lettered e x n ∷ rs) = settlements rs

-- The delay that a request for redelivery carries.
abbrev pub sent_delay : NakReply → ℕ → Option ℕ
sent_delay nak_type_error delay = none
sent_delay _ delay = some delay

abbrev goes_through : NakReply → NakReply → Bool
goes_through nak_done plain = true
goes_through nak_type_error nak_done = true
goes_through _ _ = false

-- A request for redelivery goes through, with a delay or without.
abbrev pub naks_go_through : Server → Bool
naks_go_through server = goes_through server.nak_with_delay server.nak_without_delay

retry-through :
    {S : Type 0} (server : Server) (handlers : String → Option (Handler S)) (delay : ℕ)
    (first second : NakReply)
    → server.nak_without_delay ≡ second
    → goes_through first second ≡ true
    → nak_after server handlers delay first ≡ (naked (sent_delay first delay) ∷ [], finished)
retry-through server handlers delay nak_done second e h = refl
retry-through server handlers delay nak_type_error nak_done e h = rw e refl
retry-through server handlers delay nak_type_error nak_type_error e h = cc
retry-through server handlers delay nak_type_error (nak_raised x) e h = cc
retry-through server handlers delay (nak_raised x) second e h = cc

retried :
    {S : Type 0} (server : Server) (handlers : String → Option (Handler S)) (delay : ℕ)
    → naks_go_through server ≡ true
    → nak_after server handlers delay server.nak_with_delay
      ≡ (naked (sent_delay server.nak_with_delay delay) ∷ [], finished)
retried server handlers delay h =
    retry-through server handlers delay server.nak_with_delay server.nak_without_delay refl h

-- The two ways out of the `try` block where acknowledgements go through.
abbrev Shape : {S : Type 0} → Tried × List Request × S → Type 0
Shape (passed, requests, world) = requests ≡ acked ∷ []
Shape (caught envelope event_type error, requests, world) = requests ≡ []

module _ {S : Type 0} (server : Server) (handlers : String → Option (Handler S))
    (ok : server.ack_fails ≡ false) where
  ack_in_try-Shape :
      (envelope event_type : Option Json) (world : S)
      → Shape (ack_in_try server handlers envelope event_type world)
  ack_in_try-Shape envelope event_type world = rw ok refl

  after_handler-Shape :
      (envelope event_type : Option Json) (r : Outcome × S)
      → Shape (after_handler server handlers envelope event_type r)
  after_handler-Shape envelope event_type (returned, w) = ack_in_try-Shape envelope event_type w
  after_handler-Shape envelope event_type (raised error, w) = refl

  run_found-Shape :
      (envelope event_type : Option Json) (h : Option (Handler S)) (payload : JsonFields)
      (world : S)
      → Shape (run_found server handlers envelope event_type h payload world)
  run_found-Shape envelope event_type none payload world =
      ack_in_try-Shape envelope event_type world
  run_found-Shape envelope event_type (some h) payload world =
      after_handler-Shape envelope event_type (h payload world)

  run_event-Shape :
      (envelope event_type : Json) (payload : JsonFields) (world : S)
      → Shape (run_event server handlers envelope event_type payload world)
  run_event-Shape envelope (str kind) payload world =
      run_found-Shape (some envelope) (some (str kind)) (handlers kind) payload world
  run_event-Shape envelope (arr items) payload world = refl
  run_event-Shape envelope (obj fields) payload world = refl
  run_event-Shape envelope event_type payload world =
      run_found-Shape (some envelope) (some event_type) none payload world

  run_payload-Shape :
      (envelope payload : Json) (world : S)
      → Shape (run_payload server handlers envelope payload world)
  run_payload-Shape envelope (obj payload) world =
      run_event-Shape envelope (get_or payload "type" (str "")) payload world
  run_payload-Shape envelope _ world = refl

  try_block-Shape :
      (decoded : Option Json) (world : S) → Shape (try_block server handlers decoded world)
  unfolding try_block
  try_block-Shape none world = refl
  try_block-Shape (some (obj fields)) world =
      run_payload-Shape (obj fields) (get_or fields "payload" (obj fields)) world
  try_block-Shape (some _) world = refl

settlements-publish_dead :
    {S : Type 0} (server : Server) (handlers : String → Option (Handler S)) (envelope : Option Json)
    (error : String) (n : ℕ)
    → settlements (publish_dead server handlers envelope error n ++ acked ∷ []) ≡ 1
settlements-publish_dead server handlers none error n = refl
settlements-publish_dead server handlers (some e) error n = ground arith

except_block-settles :
    {S : Type 0} (server : Server) (handlers : String → Option (Handler S)) (uniform : ℕ → ℕ)
    (max_deliver n : ℕ) (t : Tried) (requests : List Request) (world : S)
    → server.ack_fails ≡ false
    → naks_go_through server ≡ true
    → Shape (t, requests, world)
    → settlements (except_block server handlers uniform max_deliver n t requests).0 ≡ 1
except_block-settles server handlers uniform max_deliver n passed requests world ok nak s =
    rw s refl
except_block-settles server handlers uniform max_deliver n (caught envelope event_type error)
      requests world ok nak s =
    elim (Bool-cases (leb max_deliver n)) [
      | inl e ↦ rw (e, ok) (settlements-publish_dead server handlers envelope error n)
      | inr e ↦
          rw (e, retried server handlers (backoff_delay uniform true n 2_000_000 300_000_000) nak)
            refl
    ]

-- Where acknowledgements and requests for redelivery go through, every delivery is settled exactly once: whatever was sent,
-- whatever the handler does, and whether or not an exception leaves the call.
pub dispatch_one-settles :
    {S : Type 0} (server : Server) (handlers : String → Option (Handler S)) (uniform : ℕ → ℕ)
    (max_deliver : ℕ) (msg : Delivery) (world : S)
    → server.ack_fails ≡ false
    → naks_go_through server ≡ true
    → settlements (dispatch_one server handlers uniform max_deliver msg world).0 ≡ 1
unfolding dispatch_one
dispatch_one-settles server handlers uniform max_deliver msg world ok nak =
    let (t, requests, world') = try_block server handlers msg.decoded world in
    except_block-settles server handlers uniform max_deliver (deliveries msg.num_delivered) t
      requests world' ok nak (try_block-Shape server handlers ok msg.decoded world)

-- Where acknowledgements and requests for redelivery go through, a delivery that cannot be decoded is asked for again until its last try. On that one it is
-- acknowledged, no dead letter is published although the server would take it, and an
-- exception leaves the call.
pub dispatch_one-undecodable :
    {S : Type 0} (server : Server) (handlers : String → Option (Handler S)) (uniform : ℕ → ℕ)
    (max_deliver : ℕ) (msg : Delivery) (world : S)
    → server.ack_fails ≡ false
    → naks_go_through server ≡ true
    → msg.decoded ≡ none
    → dispatch_one server handlers uniform max_deliver msg world ≡ (
        if leb max_deliver (deliveries msg.num_delivered)
        then (acked ∷ [], escaped "UnboundLocalError", world)
        else (
          naked (
                sent_delay server.nak_with_delay
                  (backoff_delay uniform true (deliveries msg.num_delivered) 2_000_000 300_000_000))
              ∷ [],
          finished,
          world,
        ))
unfolding dispatch_one
dispatch_one-undecodable server handlers uniform max_deliver msg world ok nak d =
    let delay = backoff_delay uniform true (deliveries msg.num_delivered) 2_000_000 300_000_000 in
    rw d (elim (Bool-cases (leb max_deliver (deliveries msg.num_delivered))) [
      | inl e ↦ rw (e, ok) refl
      | inr e ↦ rw (e, retried server handlers delay nak) refl
    ])

-- A handled event whose handler raises, where acknowledgements, requests for redelivery and dead letters go through: before the last delivery it is asked for again; on the last
-- one the whole envelope is published as a dead letter, with the error and the number of
-- deliveries, and only then acknowledged.
pub dispatch_one-handler_raises :
    {S : Type 0} (server : Server) (handlers : String → Option (Handler S)) (uniform : ℕ → ℕ)
    (max_deliver : ℕ) (msg : Delivery) (world world' : S) (fields payload : JsonFields)
    (kind error : String) (handler : Handler S)
    → server.ack_fails ≡ false
    → naks_go_through server ≡ true
    → server.publish_fails ≡ false
    → msg.decoded ≡ some (obj fields)
    → get_or fields "payload" (obj fields) ≡ obj payload
    → get_or payload "type" (str "") ≡ str kind
    → handlers kind ≡ some handler
    → handler payload world ≡ (raised error, world')
    → dispatch_one server handlers uniform max_deliver msg world ≡ (
        if leb max_deliver (deliveries msg.num_delivered)
        then (
          dead_lettered (obj fields) error (deliveries msg.num_delivered) ∷ acked ∷ [],
          finished,
          world',
        )
        else (
          naked (
                sent_delay server.nak_with_delay
                  (backoff_delay uniform true (deliveries msg.num_delivered) 2_000_000 300_000_000))
              ∷ [],
          finished,
          world',
        ))
unfolding dispatch_one
dispatch_one-handler_raises server handlers uniform max_deliver msg world world' fields payload kind
      error handler ok nak pub_ok d p t f r =
    let delay = backoff_delay uniform true (deliveries msg.num_delivered) 2_000_000 300_000_000 in
    rw d (
      rw p (
        rw t (
          rw f (
            rw r (elim (Bool-cases (leb max_deliver (deliveries msg.num_delivered))) [
              | inl e ↦ rw (e, ok, pub_ok) refl
              | inr e ↦ rw (e, retried server handlers delay nak) refl
            ])))))
