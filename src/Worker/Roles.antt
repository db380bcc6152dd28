-- ===== src/Worker/Roles.antt =====
-- worker/runtime.py: the handler registry, and the share of it and of the priority streams that each
-- deployment role owns.
use ocean_data_engine_fronte.Prelude.{
  String, str_eq, List, [], ◌∷◌, ◌++◌, Bool, Option, none, some, any, keep, is_empty, if◌then◌else◌,
}
use ocean_data_engine_fronte.Prelude.Text.{Text, codes, text_eq, strip, lower}
use ocean_data_engine_fronte.Queue.Priority.{
  QueuePriority, critical_alerts, realtime_observations, normal_ingestion, scientific,
  backfill_archive, work_priorities,
}

-- What a registered handler does: it logs the event, runs an ingest with an adapter for a provider
-- and a dataset, or evaluates the freshness of the datasets.
pub data Adapter : Type 0 where
  imd_cap incois_pfz incois_hwa incois_buoy imd_nwp imd_marine_bulletin incois_ww3 : Adapter
  incois_tide incois_erddap mosdac_search marine_regions : Adapter

pub data HandlerKind : Type 0 where
  log_event : String → HandlerKind
  ingest : Adapter → String → String → HandlerKind
  freshness : HandlerKind

abbrev pub Registry : Type 0
Registry = List (String × HandlerKind)

abbrev pub event_handlers : Registry
event_handlers =
    ("alert.created", log_event "alert.created")
    ∷ ("alert.updated", log_event "alert.updated")
    ∷ ("alert.expired", log_event "alert.expired")
    ∷ ("observation.ingested", log_event "observation.ingested")
    ∷ ("pfz.updated", log_event "pfz.updated")
    ∷ ("dataset.updated", log_event "dataset.updated")
    ∷ ("processing.started", log_event "processing.started")
    ∷ ("processing.completed", log_event "processing.completed")
    ∷ ("processing.failed", log_event "processing.failed")
    ∷ []

abbrev pub ingest_handlers : Registry
ingest_handlers =
    ("ingest.imd_cap", ingest imd_cap "IMD" "imd_cap")
    ∷ ("ingest.incois_pfz", ingest incois_pfz "INCOIS" "incois_pfz")
    ∷ ("ingest.incois_hwa", ingest incois_hwa "INCOIS" "incois_hwa")
    ∷ ("ingest.incois_buoy", ingest incois_buoy "INCOIS" "incois_buoy")
    ∷ ("ingest.imd_nwp", ingest imd_nwp "IMD" "imd_nwp")
    ∷ ("ingest.imd_marine_bulletin", ingest imd_marine_bulletin "IMD" "imd_marine_bulletin")
    ∷ ("ingest.incois_ww3", ingest incois_ww3 "INCOIS" "incois_ww3")
    ∷ ("ingest.incois_tide", ingest incois_tide "INCOIS" "incois_tide")
    ∷ ("ingest.incois_erddap", ingest incois_erddap "INCOIS" "incois_erddap")
    ∷ ("ingest.mosdac_search", ingest mosdac_search "MOSDAC" "mosdac_search")
    ∷ (
      "ingest.marine_regions_eez",
      ingest marine_regions "Marine Regions" "marine_regions_eez_india",
    )
    ∷ []

-- the last entry is the compatibility name, with the handler of `ingest.incois_buoy`
unfoldable pub default_handlers : Registry
default_handlers =
    event_handlers
    ++ ingest_handlers
    ++ ("process.freshness_eval", freshness)
      ∷ ("ingest.imd_buoy", ingest incois_buoy "INCOIS" "incois_buoy")
      ∷ []

abbrev pub alert_role_types : List String
alert_role_types =
    "alert.created" ∷ "alert.updated" ∷ "alert.expired" ∷ "ingest.imd_cap" ∷ "ingest.incois_hwa"
    ∷ []

abbrev pub ingest_role_types : List String
ingest_role_types =
    "observation.ingested" ∷ "pfz.updated" ∷ "dataset.updated" ∷ "processing.started"
    ∷ "processing.completed" ∷ "processing.failed" ∷ "ingest.incois_pfz" ∷ "ingest.incois_buoy"
    ∷ "ingest.imd_buoy" ∷ "ingest.imd_nwp" ∷ "ingest.imd_marine_bulletin" ∷ "ingest.incois_ww3"
    ∷ "ingest.incois_tide" ∷ "ingest.incois_erddap" ∷ "ingest.mosdac_search"
    ∷ "ingest.marine_regions_eez" ∷ []

abbrev pub process_role_types : List String
process_role_types = "process.freshness_eval" ∷ []

pub data Role : Type 0 where
  alerts ingests process other : Role

-- `role.strip().lower()`, looked up in the table of roles
unfoldable pub role_of : Text → Role
unfolding strip lower
role_of role =
    let r = lower (strip role) in
    if text_eq r (codes "alerts")
    then alerts
    else if text_eq r (codes "ingest")
    then ingests
    else if text_eq r (codes "process")
    then process
    else other

abbrev pub contains : List String → String → Bool
contains names name = any (λ n. str_eq n name) names

abbrev pub allowed : Role → Option (List String)
allowed alerts = some alert_role_types
allowed ingests = some ingest_role_types
allowed process = some process_role_types
allowed other = none

abbrev restrict : Option (List String) → Registry → Registry
restrict none registry = registry
restrict (some names) registry = keep (λ h. contains names h.0) registry

unfoldable pub handlers_for_role : Text → Registry → Registry
unfolding role_of default_handlers
handlers_for_role role handlers =
    restrict (allowed (role_of role)) (if is_empty handlers then default_handlers else handlers)

abbrev priorities_of : Role → List QueuePriority
priorities_of alerts = critical_alerts ∷ []
priorities_of ingests = realtime_observations ∷ scientific ∷ backfill_archive ∷ []
priorities_of process = normal_ingestion ∷ []
priorities_of other = work_priorities

unfoldable pub priorities_for_role : Text → List QueuePriority
unfolding role_of
priorities_for_role role = priorities_of (role_of role)
