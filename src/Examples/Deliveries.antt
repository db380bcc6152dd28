-- ===== src/Examples/Deliveries.antt =====
-- JetStream deliveries, a broken one and one whose handler raises, and the fan-out of alerts.
use ocean_data_engine_fronte.Prelude.{
  ℕ, ◌≡◌, refl, String, List, [], ◌∷◌, arith, ◌++◌, true, false, Option, none, some, leb,
  if◌then◌else◌,
}
use ocean_data_engine_fronte.Prelude.Json.{str, obj, done, field, JsonFields}
use ocean_data_engine_fronte.Queue.Priority.{
  QueuePriority, critical_alerts, realtime_observations, backoff_delay,
}
use ocean_data_engine_fronte.Worker.Defs.{Handler, raised}
use ocean_data_engine_fronte.JetStream.Dispatch.{
  acked, naked, finished, escaped, nak_done, nak_type_error, Server, Delivery, deliveries,
  dispatch_one,
}
use ocean_data_engine_fronte.JetStream.Settle.{
  settlements, sent_delay, dispatch_one-settles, dispatch_one-undecodable,
}
use ocean_data_engine_fronte.Broker.Fanout.{AlertBroker, broker_init, publish_event, subscribe}
use ocean_data_engine_fronte.Broker.Received.{
  BrokerStep, published, joined, left, steps, events_of, queue_of, subscribe-receives,
}

abbrev server : Server
server = record {
  ack_fails = false;
  publish_fails = false;
  nak_with_delay = nak_type_error;
  nak_without_delay = nak_done;
}

abbrev raising : Handler ℕ
raising payload n = (raised "down", n)

abbrev handlers : String → Option (Handler ℕ)
handlers kind = some raising

abbrev payload : JsonFields
payload = field "type" (str "ingest.imd_cap") done

abbrev envelope : JsonFields
envelope = field "payload" (obj payload) done

abbrev broken : Delivery
broken = record { decoded = none; num_delivered = some 5 }

abbrev last_try : Delivery
last_try = record { decoded = some (obj envelope); num_delivered = some 5 }

dispatch_one-settles_example :
    settlements (dispatch_one server handlers (λ raw. raw) 5 last_try 0).0 ≡ 1
dispatch_one-settles_example =
    dispatch_one-settles server handlers (λ raw. raw) 5 last_try 0 refl refl

dispatch_one-undecodable_example : dispatch_one server handlers (λ raw. raw) 5 broken 0 ≡ (
    if leb 5 (deliveries broken.num_delivered)
    then (acked ∷ [], escaped "UnboundLocalError", 0)
    else (
      naked (
            sent_delay server.nak_with_delay (
              backoff_delay
                (λ raw. raw)
                true
                (deliveries broken.num_delivered)
                2_000_000
                300_000_000))
          ∷ [],
      finished,
      0,
    ))
dispatch_one-undecodable_example =
    dispatch_one-undecodable server handlers (λ raw. raw) 5 broken 0 refl refl refl

abbrev one_stream : QueuePriority → Option (List Delivery)
one_stream critical_alerts = none
one_stream realtime_observations = some (broken ∷ [])
one_stream _ = some (last_try ∷ [])

-- One subscriber joins after an alert and another one while it listens.
abbrev broker : AlertBroker ℕ
broker = publish_event (broker_init 20) 7

abbrev rest_of_day : List (BrokerStep ℕ)
rest_of_day = published 8 ∷ joined 2 ∷ published 9 ∷ left 2 ∷ []

subscribe-receives_example :
    queue_of 1 (steps (subscribe broker 1) rest_of_day).subscribers
    ≡ some (broker.recent ++ events_of rest_of_day)
subscribe-receives_example =
    subscribe-receives broker 1 rest_of_day ((λ h. omega (arith, h)), ((λ h. omega (arith, h)), tt))

-- three alerts for a buffer of two
abbrev rest_of_week : List (BrokerStep ℕ)
rest_of_week = published 7 ∷ joined 1 ∷ published 8 ∷ published 9 ∷ []
