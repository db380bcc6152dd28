-- ===== src/Examples/Records.antt =====
-- Records, datasets and cached documents at concrete values.
use ocean_data_engine_fronte.Prelude.{
  ℕ, ◌+◌, ◌≤◌, ◌≡◌, ◌≢◌, ◌&&◌, refl, subst, eq_iff, String, List, [], ◌∷◌, true, false, Option,
  none, some, arith, if◌then◌else◌,
}
use mathlib.Core.Bool.{false≢true}
use ocean_data_engine_fronte.Prelude.Json.{JsonFields, done}
use ocean_data_engine_fronte.Prelude.Fixed.{Fixed, fixed_float}
use ocean_data_engine_fronte.Qc.Checks.{
  naive, aware, accepted, rejected, quarantined, loaded, no_geometry, qc_observation,
  qc_geometry_record,
}
use ocean_data_engine_fronte.Qc.Disposition.{
  metadata_hold, value_holds, geometry_holds, window_holds, qc_observation_status,
  qc_geometry_status,
}
use ocean_data_engine_fronte.Freshness.Compute.{compute_freshness, age_of, total_seconds, decay}
use ocean_data_engine_fronte.Freshness.Upsert.{DistinctKeys}
use ocean_data_engine_fronte.Dataset.State.{
  healthy, failed, Dataset, new_dataset, find_dataset, record_source_error,
}
use ocean_data_engine_fronte.Dataset.Streak.{
  HandlerRun, failed_fetches, after_runs, counter, consecutive_failures_count,
}
use ocean_data_engine_fronte.Dataset.Ingest.{
  source_contract, source_license_required, result_state, is_final, Fetched, fetch_failed, fetched,
  Processed, process_failed, processed, ingest_handler, authentication_required,
}
use ocean_data_engine_fronte.Worker.Defs.{returned, raised}
use ocean_data_engine_fronte.Dataset.Recorded.{or_new, handler-fetch_failed, handler-process_failed}
use ocean_data_engine_fronte.Cache.Bulletin.{RedisClient, Surroundings, BulletinCache, get_or_fetch}
use ocean_data_engine_fronte.Cache.FailOpen.{
  IsClocked, LoaderReturns, Available, get_or_fetch-Available,
}

abbrev one_metre : Option Fixed
one_metre = some (some 1000)

abbrev too_long : Option Fixed
too_long = some (some 40000)

abbrev threefold : Fixed
threefold = some 3000

qc_observation_status_example :
    (qc_observation "wave_period" too_long one_metre one_metre (some (naive 5)) 10 false).status ≡ (
      if metadata_hold "wave_period" one_metre one_metre (some (naive 5)) 10
      then (if value_holds "wave_period" too_long then accepted else quarantined)
      else rejected)
qc_observation_status_example =
    qc_observation_status "wave_period" too_long one_metre one_metre (some (naive 5)) 10 false

qc_geometry_status_example :
    (qc_geometry_record {W = Fixed}
      (some (loaded false true))
      (some (naive 5))
      (some (aware 3))).status
    ≡ (if geometry_holds (some (loaded false true))
          && window_holds (some (naive 5)) (some (aware 3))
        then (if no_geometry (some (loaded false true)) then quarantined else accepted)
        else rejected)
qc_geometry_status_example =
    qc_geometry_status Fixed (some (loaded false true)) (some (naive 5)) (some (aware 3))

stale_by_then :
    (compute_freshness (some (aware 0)) 14_400_000_000 (some 3600) threefold).is_stale ≡ true
unfolding compute_freshness age_of total_seconds decay
stale_by_then = refl

abbrev imd_cap : Dataset Fixed
imd_cap = record (new_dataset "imd_cap") { status = healthy; last_success_at = some 0 }

abbrev incois_pfz : Dataset Fixed
incois_pfz = record (new_dataset "incois_pfz") { status = failed; consecutive_failures = 2 }

abbrev datasets : List (Dataset Fixed)
datasets = imd_cap ∷ incois_pfz ∷ []

different_keys : incois_pfz.key ≢ imd_cap.key
different_keys h = false≢true ((eq_iff incois_pfz.key imd_cap.key).1 h)

datasets_distinct : DistinctKeys datasets
datasets_distinct = ((different_keys, tt), (tt, tt))

abbrev runs : List HandlerRun
runs =
    record { now = 40; end = fetched (process_failed "bad payload") }
    ∷ record { now = 30; end = fetch_failed authentication_required "401" }
    ∷ record { now = 20; end = fetch_failed source_contract "no such field" }
    ∷ record { now = 10; end = fetched (processed 9 5 "ok") }
    ∷ []

consecutive_failures_count_example :
    counter "incois_pfz" (after_runs "incois_pfz" (incois_pfz ∷ []) runs)
    ≡ failed_fetches (counter "incois_pfz" (incois_pfz ∷ [])) runs
consecutive_failures_count_example = consecutive_failures_count "incois_pfz" (incois_pfz ∷ []) runs

license_is_final : is_final source_license_required ≡ true
unfolding is_final
license_is_final = refl

abbrev broken_contract : JsonFields → Fetched String
broken_contract payload = fetch_failed source_contract "unexpected columns"

abbrev fetching : JsonFields → Fetched String
fetching payload = fetched "<alert/>"

abbrev failing : String → Processed
failing document = process_failed "no such column"

handler-fetch_failed_example :
    ((ingest_handler broken_contract failing "imd_cap" 40 done datasets).0
      ≡ (if is_final source_contract then returned else raised "unexpected columns"))
    × (find_dataset "imd_cap" (ingest_handler broken_contract failing "imd_cap" 40 done datasets).1
        ≡ some (
            record_source_error 40
              (result_state source_contract)
              (or_new "imd_cap" (find_dataset "imd_cap" datasets))))
handler-fetch_failed_example =
    handler-fetch_failed broken_contract failing "imd_cap" 40 done datasets source_contract
      "unexpected columns" refl

handler-process_failed_example :
    ingest_handler fetching failing "imd_cap" 40 done datasets ≡ (raised "no such column", datasets)
handler-process_failed_example =
    handler-process_failed fetching failing "imd_cap" 40 done datasets "<alert/>" "no such column"
      refl refl

-- A client whose lock is always taken and whose writes raise. The world is the clock.
abbrev taken : RedisClient ℕ
taken = record {
  get = λ key s. (some none, s + 1);
  set = λ key value nx ttl s. (if nx then some false else none, s);
  delete = λ key s. s;
}

abbrev env : Surroundings ℕ
env = record {
  client = some taken;
  loader = λ s. (some "bulletin", s + 5);
  monotonic = λ s. s;
  sleep = λ n s. s + n;
}

same_client : (r : RedisClient ℕ) → some taken ≡ some r → taken ≡ r
same_client r h = cc

env-IsClocked : IsClocked env
env-IsClocked = record {
  get_forward = λ r key s h. subst (λ c. s ≤ (c.get key s).1) (same_client r h) (omega arith);
  sleep_forward = λ n s. omega arith;
}

env-LoaderReturns : LoaderReturns env
env-LoaderReturns = λ s. ("bulletin", refl)

abbrev cache : BulletinCache
cache = record {
  ttl_s = 900;
  lock_ttl_s = 45;
  wait_timeout = 5_000_000;
  namespace = "mde:cache";
  hits = 0;
  misses = 0;
  single_flight_waits = 0;
  degraded_fetches = 0;
}

get_or_fetch-Available_example : Available env (get_or_fetch env 50 cache "page" none 0)
get_or_fetch-Available_example =
    get_or_fetch-Available env env-IsClocked env-LoaderReturns 50 cache "page" none 0 (omega arith)
