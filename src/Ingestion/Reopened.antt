-- ===== src/Ingestion/Reopened.antt =====
-- services/ingestion.py: proofs on opening the run of a payload that was ingested before.
use ocean_data_engine_fronte.Prelude.{
  ◌≡◌, refl, sym, ap, ◌∙◌, subst, inl, inr, ℕ, List, [], ◌∷◌, ◌++◌, Bool, true, false, Option, none,
  some, Bool-cases, ◌&&◌, length, suc, ◌==◌, arith, if◌then◌else◌,
}
use mathlib.Core.Option.{none-ne-some, some-injective}
use ocean_data_engine_fronte.Prelude.Text.{Text}
use ocean_data_engine_fronte.Storage.Lookup.{text_eq_refl}
use ocean_data_engine_fronte.Ingestion.Lineage.{
  IngestionJob, DatasetAsset, ProcessingJob, ProcessingRun, Lineage, Opening, Opened, opened,
  lineage, ◌>>=◌, select, scalar_one_or_none, first, found_or_added, open_ingestion_job, open_asset,
  open_processing_job, open_processing_run, open_run, job_has, asset_has, proc_job_has, run_has,
  new_run, new_asset, new_ingestion_job, new_processing_job,
}

bound :
    {A B : Type 0} (o : Option A) (f : A → Option B) (y : B)
    → (o >>= f) ≡ some y
    → (a : A) × (o ≡ some a) × (f a ≡ some y)
bound none f y h = absurd (none-ne-some y h)
bound (some a) f y h = (a, refl, h)

module _ {A : Type 0} (p : A → Bool) where
  pub select-append : (xs ys : List A) → select p (xs ++ ys) ≡ select p xs ++ select p ys
  unfolding select
  select-append [] ys = refl
  select-append (x ∷ xs) ys =
      let ih = select-append xs ys in
      elim (Bool-cases (p x)) [ inl e ↦ rw (e, ih) refl | inr e ↦ rw (e, ih) refl ]

  pub select-only : (row : A) → p row ≡ true → select p (row ∷ []) ≡ row ∷ []
  unfolding select
  select-only row h = ap (λ b. if b then row ∷ [] else []) h

  pub select-none : (row : A) → p row ≡ false → select p (row ∷ []) ≡ []
  unfolding select
  select-none row h = ap (λ b. if b then row ∷ [] else []) h

  module _ (row row' : A) (kept : p row ≡ true) (rows : List A) where
    one_found_again :
        (found : List A) (y : A × List A)
        → select p rows ≡ found
        → found_or_added row rows (scalar_one_or_none found) ≡ some y
        → found_or_added row' y.1 (scalar_one_or_none (select p y.1)) ≡ some y
    one_found_again [] y e h =
        subst (λ x. found_or_added row' x.1 (scalar_one_or_none (select p x.1)) ≡ some x)
          (some-injective (row, rows ++ row ∷ []) y h)
          (ap (λ l. found_or_added row' (rows ++ row ∷ []) (scalar_one_or_none l))
            (select-append rows (row ∷ [])
              ∙ (ap (λ l. l ++ select p (row ∷ [])) e ∙ select-only row kept)))
    one_found_again (x ∷ []) y e h =
        subst (λ x. found_or_added row' x.1 (scalar_one_or_none (select p x.1)) ≡ some x)
          (some-injective (x, rows) y h)
          (ap (λ l. found_or_added row' rows (scalar_one_or_none l)) e)
    one_found_again (x ∷ z ∷ xs) y e h = absurd (none-ne-some y h)

    first_found_again :
        (found : List A) (y : A × List A)
        → select p rows ≡ found
        → found_or_added row rows (first found) ≡ some y
        → found_or_added row' y.1 (first (select p y.1)) ≡ some y
    first_found_again [] y e h =
        subst (λ x. found_or_added row' x.1 (first (select p x.1)) ≡ some x)
          (some-injective (row, rows ++ row ∷ []) y h)
          (ap (λ l. found_or_added row' (rows ++ row ∷ []) (first l))
            (select-append rows (row ∷ [])
              ∙ (ap (λ l. l ++ select p (row ∷ [])) e ∙ select-only row kept)))
    first_found_again (x ∷ xs) y e h =
        subst (λ x. found_or_added row' x.1 (first (select p x.1)) ≡ some x)
          (some-injective (x, rows) y h) (ap (λ l. found_or_added row' rows (first l)) e)

and_true : (a b : Bool) → a ≡ true → b ≡ true → (a && b) ≡ true
and_true a b h k = rw (h, k) refl

same_id : (n : ℕ) → (n == n) ≡ true
same_id n = ground arith

module _ (o : Opening) (s : Lineage) (job : IngestionJob × List IngestionJob)
    (asset : DatasetAsset × List DatasetAsset) (proc : ProcessingJob × List ProcessingJob)
    (run : ProcessingRun × List ProcessingRun) where
  pub open_run_steps :
      open_ingestion_job o s.ingestion_jobs ≡ some job
      → open_asset o job.0.id s.assets ≡ some asset
      → open_processing_job o job.0.id s.processing_jobs ≡ some proc
      → open_processing_run o proc.0.id s.runs ≡ some run
      → open_run o s ≡ some (opened job.0 asset.0 proc.0 run.0, lineage job.1 asset.1 proc.1 run.1)
  unfolding open_run
  open_run_steps a b c d = rw (a, b, c, d) refl

-- After a run is opened for a stored payload, opening one again for the same checksum and URI in the same dataset, whatever the
-- clock and `uuid4` say, uses the same rows and adds none.
pub open_run-again :
    (o o' : Opening) (s s' : Lineage) (r : Opened)
    → o'.stored.checksum_sha256 ≡ o.stored.checksum_sha256
    → o'.stored.uri ≡ o.stored.uri
    → o'.dataset_id ≡ o.dataset_id
    → open_run o s ≡ some (r, s')
    → open_run o' s' ≡ some (r, s')
unfolding open_run
open_run-again o o' s s' r same_checksum same_uri same_dataset h =
    let job = bound (open_ingestion_job o s.ingestion_jobs) _ _ h in
    let asset = bound (open_asset o job.0.0.id s.assets) _ _ job.2 in
    let proc = bound (open_processing_job o job.0.0.id s.processing_jobs) _ _ asset.2 in
    let run = bound (open_processing_run o proc.0.0.id s.runs) _ _ proc.2 in
    let job_again =
      subst
        (λ c.
          found_or_added (new_ingestion_job o' (suc (length job.0.1))) job.0.1
            (scalar_one_or_none (select (job_has c) job.0.1))
          ≡ some job.0)
        (sym same_checksum)
        (one_found_again (job_has o.stored.checksum_sha256) _
          (new_ingestion_job o' (suc (length job.0.1))) (text_eq_refl o.stored.checksum_sha256)
          s.ingestion_jobs _ job.0 refl job.1) in
    let asset_again =
      subst {A = ℕ × Text}
        (λ t.
          found_or_added (new_asset o' job.0.0.id) asset.0.1
            (scalar_one_or_none (select (asset_has t.0 t.1) asset.0.1))
          ≡ some asset.0)
        (λ i. (sym same_dataset i, sym same_uri i))
        (one_found_again (asset_has o.dataset_id o.stored.uri) _ (new_asset o' job.0.0.id)
          (and_true _ _ (same_id o.dataset_id) (text_eq_refl o.stored.uri)) s.assets _ asset.0 refl
          asset.1) in
    let proc_again =
      subst
        (λ c.
          found_or_added (new_processing_job o' (suc (length proc.0.1)) job.0.0.id) proc.0.1
            (scalar_one_or_none (select (proc_job_has c) proc.0.1))
          ≡ some proc.0)
        (sym same_checksum)
        (one_found_again (proc_job_has o.stored.checksum_sha256) _
          (new_processing_job o' (suc (length proc.0.1)) job.0.0.id)
          (text_eq_refl o.stored.checksum_sha256) s.processing_jobs _ proc.0 refl proc.1) in
    let run_again =
      first_found_again (run_has proc.0.0.id) _ (new_run o' proc.0.0.id) (same_id proc.0.0.id)
        s.runs _ run.0 refl run.1 in
    subst (λ x. open_run o' x.1 ≡ some x) (some-injective _ _ run.2)
      (open_run_steps o' (lineage job.0.1 asset.0.1 proc.0.1 run.0.1) job.0 asset.0 proc.0 run.0
        job_again asset_again proc_again run_again)
