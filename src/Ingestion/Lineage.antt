-- ===== src/Ingestion/Lineage.antt =====
-- services/ingestion.py: the rows of lineage with which `ingest` opens a run: one that has the key is used again,
-- or a new one is added. Rows are in the order of insertion; an id is the number of the row. `none` stands for the
-- MultipleResultsFound of `scalar_one_or_none`.
use ocean_data_engine_fronte.Prelude.{
  ℕ, suc, String, str_append, List, [], ◌∷◌, ◌++◌, Bool, ◌==◌, ◌&&◌, Option, none, some, length,
  if◌then◌else◌,
}
use ocean_data_engine_fronte.Prelude.Text.{Text, text_eq}
use ocean_data_engine_fronte.Queue.Priority.{value, normal_ingestion}
use ocean_data_engine_fronte.Qc.Checks.{DateTime}
use ocean_data_engine_fronte.Storage.RawStore.{StoredObject}

pub record IngestionJob : Type 0 where
  pub id : ℕ
  pub job_uid : String
  pub dataset_key : String
  pub priority : String
  pub status : String
  pub idempotency_key : Text
  pub started_at : ℕ
  pub bytes_fetched : ℕ

pub record DatasetAsset : Type 0 where
  pub dataset_id : ℕ
  pub role : String
  pub storage_uri : Text
  pub media_type : Option String
  pub checksum_sha256 : Text
  pub size_bytes : ℕ
  pub ingestion_job_id : ℕ
  pub retrieved_at : DateTime

pub record ProcessingJob : Type 0 where
  pub id : ℕ
  pub job_uid : String
  pub dataset_key : String
  pub job_type : String
  pub priority : String
  pub status : String
  pub idempotency_key : Text
  pub ingestion_job_id : ℕ
  pub started_at : ℕ

pub record ProcessingRun : Type 0 where
  pub run_uid : String
  pub processing_job_id : ℕ
  pub attempt : ℕ
  pub status : String
  pub worker : String
  pub started_at : ℕ

pub record Lineage : Type 0 where
  pub ingestion_jobs : List IngestionJob
  pub assets : List DatasetAsset
  pub processing_jobs : List ProcessingJob
  pub runs : List ProcessingRun

-- what a run is opened for: the dataset, the stored payload, the clock and the answers of `uuid4`
pub record Opening : Type 0 where
  pub dataset_id : ℕ
  pub dataset_key : String
  pub raw_dataset : String
  pub stored : StoredObject
  pub now : ℕ
  pub ingestion_uid : String
  pub processing_uid : String
  pub run_uid : String

pub record Opened : Type 0 where
  pub ingestion_job : IngestionJob
  pub asset : DatasetAsset
  pub proc_job : ProcessingJob
  pub run : ProcessingRun

infixl 5 ◌>>=◌
abbrev pub ◌>>=◌ : {A B : Type 0} → Option A → (A → Option B) → Option B
none >>= f = none
some a >>= f = f a

abbrev pub opened : IngestionJob → DatasetAsset → ProcessingJob → ProcessingRun → Opened
opened job asset proc_job run = record {
  ingestion_job = job;
  asset = asset;
  proc_job = proc_job;
  run = run;
}

abbrev pub lineage :
    List IngestionJob → List DatasetAsset → List ProcessingJob → List ProcessingRun → Lineage
lineage jobs assets proc_jobs runs = record {
  ingestion_jobs = jobs;
  assets = assets;
  processing_jobs = proc_jobs;
  runs = runs;
}

module _ {A : Type 0} where
  -- select(...).where(...)
  unfoldable pub select : (A → Bool) → List A → List A
  select p [] = []
  select p (row ∷ rows) = let rest = select p rows in if p row then row ∷ rest else rest

  abbrev pub scalar_one_or_none : List A → Option (Option A)
  scalar_one_or_none [] = some none
  scalar_one_or_none (row ∷ []) = some (some row)
  scalar_one_or_none (row ∷ other ∷ rows) = none

  abbrev pub first : List A → Option (Option A)
  first [] = some none
  first (row ∷ rows) = some (some row)

  abbrev pub found_or_added : A → List A → Option (Option A) → Option (A × List A)
  found_or_added row rows none = none
  found_or_added row rows (some none) = some (row, rows ++ row ∷ [])
  found_or_added row rows (some (some found)) = some (found, rows)

abbrev pub job_has : Text → IngestionJob → Bool
job_has checksum job = text_eq job.idempotency_key checksum

abbrev pub asset_has : ℕ → Text → DatasetAsset → Bool
asset_has dataset_id uri asset = asset.dataset_id == dataset_id && text_eq asset.storage_uri uri

abbrev pub proc_job_has : Text → ProcessingJob → Bool
proc_job_has checksum job = text_eq job.idempotency_key checksum

abbrev pub run_has : ℕ → ProcessingRun → Bool
run_has job_id run = run.processing_job_id == job_id

module _ (o : Opening) where
  abbrev pub new_ingestion_job : ℕ → IngestionJob
  new_ingestion_job id = record {
    id = id;
    job_uid = o.ingestion_uid;
    dataset_key = o.dataset_key;
    priority = value normal_ingestion;
    status = "running";
    idempotency_key = o.stored.checksum_sha256;
    started_at = o.now;
    bytes_fetched = o.stored.size_bytes;
  }

  abbrev pub new_asset : ℕ → DatasetAsset
  new_asset job_id = record {
    dataset_id = o.dataset_id;
    role = "raw";
    storage_uri = o.stored.uri;
    media_type = o.stored.media_type;
    checksum_sha256 = o.stored.checksum_sha256;
    size_bytes = o.stored.size_bytes;
    ingestion_job_id = job_id;
    retrieved_at = o.stored.retrieved_at;
  }

  abbrev pub new_processing_job : ℕ → ℕ → ProcessingJob
  new_processing_job id job_id = record {
    id = id;
    job_uid = o.processing_uid;
    dataset_key = o.dataset_key;
    job_type = str_append "normalize_" o.raw_dataset;
    priority = value normal_ingestion;
    status = "running";
    idempotency_key = o.stored.checksum_sha256;
    ingestion_job_id = job_id;
    started_at = o.now;
  }

  abbrev pub new_run : ℕ → ProcessingRun
  new_run job_id = record {
    run_uid = o.run_uid;
    processing_job_id = job_id;
    attempt = 1;
    status = "running";
    worker = "ingestion-service";
    started_at = o.now;
  }

  abbrev pub open_ingestion_job : List IngestionJob → Option (IngestionJob × List IngestionJob)
  open_ingestion_job jobs =
      found_or_added (new_ingestion_job (suc (length jobs))) jobs
        (scalar_one_or_none (select (job_has o.stored.checksum_sha256) jobs))

  abbrev pub open_asset : ℕ → List DatasetAsset → Option (DatasetAsset × List DatasetAsset)
  open_asset job_id assets =
      found_or_added (new_asset job_id) assets
        (scalar_one_or_none (select (asset_has o.dataset_id o.stored.uri) assets))

  abbrev pub open_processing_job :
      ℕ → List ProcessingJob → Option (ProcessingJob × List ProcessingJob)
  open_processing_job job_id jobs =
      found_or_added (new_processing_job (suc (length jobs)) job_id) jobs
        (scalar_one_or_none (select (proc_job_has o.stored.checksum_sha256) jobs))

  abbrev pub open_processing_run :
      ℕ → List ProcessingRun → Option (ProcessingRun × List ProcessingRun)
  open_processing_run job_id runs =
      found_or_added (new_run job_id) runs (first (select (run_has job_id) runs))

  unfoldable pub open_run : Lineage → Option (Opened × Lineage)
  unfolding select
  open_run s = do
    job ← open_ingestion_job s.ingestion_jobs
    asset ← open_asset job.0.id s.assets
    proc_job ← open_processing_job job.0.id s.processing_jobs
    run ← open_processing_run proc_job.0.id s.runs
    some (opened job.0 asset.0 proc_job.0 run.0, lineage job.1 asset.1 proc_job.1 run.1)
