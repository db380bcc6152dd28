-- ===== src/Lib.antt =====
-- A verification of the marine data engine: its work queue and workers, its safety decisions, the records it
-- ingests and the health of its datasets, its zones, routes and scores, its document cache and alert broker.
--
-- The program fetches bulletins, observations and forecasts from government sources, checks and stores them,
-- and answers whether and when it is safe to put to sea. Source paths below are from the repository's root.
--
-- The parts and their files
--   Prelude      shared names, lists, texts and JSON, and the interface of `float`
--   Queue        src/marine_data_engine/messaging/queue.py `InMemoryQueue`,
--                src/marine_data_engine/messaging/subjects.py
--                (Priority: ranks, subjects, backoff; Defs: Message, publish, next_ready, ack, nack, depth)
--   Worker       src/marine_data_engine/worker/runtime.py `Worker` (Defs) and the roles (Roles); it takes
--                messages from the queue, calls a handler and acknowledges or fails them
--   JetStream    src/marine_data_engine/messaging/queue.py `JetStreamQueue`: _dispatch_one (Dispatch) and a turn of consume_loop (Round)
--   Risk         src/marine_data_engine/domain/risk.py `assess_marine_risk`
--   SeaState     src/marine_data_engine/domain/sea_state.py `parse_sea_state_category`
--   SafetyGate   src/marine_data_engine/domain/safety_gate.py `evaluate_safety_gate`, which uses Risk and SeaState
--   SafeWindow   src/marine_data_engine/domain/safe_window.py `compute_safe_windows`, which uses Risk
--   Qc           src/marine_data_engine/domain/qc.py `qc_observation` and `qc_geometry_record`
--   Freshness    src/marine_data_engine/domain/freshness.py `compute_freshness` (Compute),
--                src/marine_data_engine/services/freshness.py (Service)
--   Dataset      src/marine_data_engine/services/ingestion.py, what a run writes to its dataset (State), and the worker's ingest handler
--                with its database sessions (Ingest)
--   Ingestion    src/marine_data_engine/services/ingestion.py, the records of a payload (Tables, Records, Run), the rows
--                of lineage that open a run (Lineage) and the events that end it (Ending), with
--                src/marine_data_engine/sources/base.py (Parsed), src/marine_data_engine/domain/events.py (Events) and
--                src/marine_data_engine/domain/idempotency.py (Keys); it calls Qc and publishes to Queue
--   Storage      src/marine_data_engine/storage/raw_store.py, the in-memory store of raw payloads
--   Geofence     src/marine_data_engine/services/geofence.py, over the marine zones that Ingestion stores
--   Route        src/marine_data_engine/services/routing.py `compute_safe_route` (Parts, Defs), which scores with Risk and asks
--                a zone checker that answers as Geofence does; the formulas of src/marine_data_engine/domain/geo.py,
--                src/marine_data_engine/domain/crs.py and src/marine_data_engine/domain/units.py (Earth)
--   Suitability  src/marine_data_engine/domain/suitability.py `assess_fishing_suitability`
--   Anomaly      src/marine_data_engine/domain/anomaly.py `detect_anomalies`
--   Units        src/marine_data_engine/domain/unit_labels.py and src/marine_data_engine/domain/normalize.py
--   Cache        src/marine_data_engine/cache.py `BulletinCache`
--   Broker       src/marine_data_engine/api/broker.py `AlertBroker`
--   Examples     the theorems at concrete inputs
--
-- Modelling
--   Instants and delays are whole microseconds of UTC. `uuid4`, the clock, `random.uniform`, the handlers,
--   the adapters, the processing of a payload, the replies of NATS and of Redis and what shapely says of a
--   geometry are parameters. A `float` is a value of the interface `Float`, with the laws of IEEE 754 in
--   `IsIeee`, NaN and the infinities included; `Fixed` is an instance of both that the examples use. The
--   backoff is in exact microseconds. Text is a list of code points, and lower case that of the ASCII
--   letters. A table is a list of rows. Messages are told apart by their `message_id`. The texts of logs,
--   metrics, details and notes are left out or are constructors.
--
-- Bounds
--   `drain` runs on its own count of iterations, and more of them than the waiting messages have tries left
--   suffice; each iteration has an instant and a random draw of its own. The waiting loop of the cache runs on a number of turns, and one turn for each poll interval
--   of the timeout suffices. All other loops are structural.
--
-- Not modelled: the connection, subscription and shutdown of JetStream, the parsers of the sources, the
-- closing of a run's lineage rows and the events of a failed run, the store over S3, reprojections,
-- SQL queries, HTTP and MCP interfaces, configuration and logging.
pub mod Prelude
pub mod Queue
pub mod Worker
pub mod JetStream
pub mod Risk
pub mod SeaState
pub mod SafetyGate
pub mod Qc
pub mod SafeWindow
pub mod Dataset
pub mod Cache
pub mod Broker
pub mod Ingestion
pub mod Units
pub mod Route
pub mod Anomaly
pub mod Suitability
pub mod Storage
pub mod Geofence
pub mod Freshness
pub mod Examples
