-- ===== src/Examples/Reruns.antt =====
-- The opening of a run at a concrete payload.
use ocean_data_engine_fronte.Prelude.{◌≡◌, refl, [], arith, none, some, false}
use ocean_data_engine_fronte.Prelude.Text.{codes}
use ocean_data_engine_fronte.Qc.Checks.{aware}
use ocean_data_engine_fronte.Ingestion.Lineage.{Lineage, Opening, Opened, open_run, select}
use ocean_data_engine_fronte.Ingestion.SingleRows.{IsUnique, open_run-IsUnique}

abbrev no_rows : Lineage
no_rows = record { ingestion_jobs = []; assets = []; processing_jobs = []; runs = [] }

abbrev opening : Opening
opening = record {
  dataset_id = 4;
  dataset_key = "incois-ww3";
  raw_dataset = "ww3";
  stored = record {
    uri = codes "s3://raw/incois/ww3/ab/cd/abcd.json";
    key = codes "incois/ww3/ab/cd/abcd.json";
    bucket = codes "raw";
    checksum_sha256 = codes "abcd";
    size_bytes = 12;
    media_type = none;
    retrieved_at = aware 50;
    already_existed = false;
  };
  now = 100;
  ingestion_uid = "i1";
  processing_uid = "p1";
  run_uid = "r1";
}

abbrev reopening : Opening
reopening = record opening {
  now = 200;
  ingestion_uid = "i2";
  processing_uid = "p2";
  run_uid = "r2";
}

open_run-IsUnique_example :
    (r : Opened) × (s : Lineage) × (open_run opening no_rows ≡ some (r, s))
    × (open_run reopening s ≡ some (r, s))
    × IsUnique s
unfolding select
open_run-IsUnique_example =
    open_run-IsUnique opening reopening no_rows refl refl refl (record {
      jobs = λ c. omega arith;
      assets = λ d u. omega arith;
      proc_jobs = λ c. omega arith;
    })
