-- ===== src/Ingestion/SingleRows.antt =====
-- services/ingestion.py: proofs on how many rows of lineage a key has.
use ocean_data_engine_fronte.Prelude.{
  ◌≡◌, refl, sym, ap, ◌∙◌, subst, inl, inr, ℕ, suc, ◌≤◌, List, [], ◌∷◌, ◌++◌, Bool, true, some,
  Bool-cases, ◌&&◌, length, length-append, ◌==◌, arith,
}
use mathlib.Core.Bool.{false≢true}
use mathlib.Core.Option.{none-ne-some, some-injective}
use ocean_data_engine_fronte.Prelude.Text.{Text, text_eq}
use ocean_data_engine_fronte.Storage.Lookup.{same_text}
use ocean_data_engine_fronte.Ingestion.Lineage.{
  Lineage, Opening, Opened, opened, lineage, select, scalar_one_or_none, first, found_or_added,
  open_run, job_has, asset_has, proc_job_has, new_run, new_asset, new_ingestion_job,
  new_processing_job, run_has,
}
use ocean_data_engine_fronte.Ingestion.Reopened.{
  select-append, select-only, select-none, open_run_steps, open_run-again,
}

abbrev AtMostOne : {A : Type 0} → (A → Bool) → List A → Type 0
AtMostOne p rows = length (select p rows) ≤ 1

-- a key has at most one row
pub record IsUnique (s : Lineage) : Type 0 where
  pub jobs : (checksum : Text) → length (select (job_has checksum) s.ingestion_jobs) ≤ 1
  pub assets :
      (dataset_id : ℕ) (uri : Text) → length (select (asset_has dataset_id uri) s.assets) ≤ 1
  pub proc_jobs : (checksum : Text) → length (select (proc_job_has checksum) s.processing_jobs) ≤ 1

same_asset : (a d : ℕ) (u t : Text) → (a == d && text_eq u t) ≡ true → (d ≡ a) × (t ≡ u)
same_asset a d u t h = elim (Bool-cases (a == d)) [
  | inl e ↦ (ground arith, sym (same_text u t (sym (ap (λ x. x && text_eq u t) e) ∙ h)))
  | inr e ↦ absurd (false≢true (sym (ap (λ x. x && text_eq u t) e) ∙ h))
]

module _ {A : Type 0} (row : A) (rows : List A) where
  one_found :
      (found : List A)
      → length found ≤ 1
      → (y : A × List A) × (found_or_added row rows (scalar_one_or_none found) ≡ some y)
  one_found [] h = ((row, rows ++ row ∷ []), refl)
  one_found (x ∷ []) h = ((x, rows), refl)
  one_found (x ∷ z ∷ xs) h = absurd (omega (arith, h))

  first_found :
      (found : List A) → (y : A × List A) × (found_or_added row rows (first found) ≡ some y)
  first_found [] = ((row, rows ++ row ∷ []), refl)
  first_found (x ∷ xs) = ((x, rows), refl)

  module _ (p q : A → Bool) where
    still_one :
        (found : List A) (y : A × List A)
        → select p rows ≡ found
        → found_or_added row rows (scalar_one_or_none found) ≡ some y
        → AtMostOne q rows
        → (q row ≡ true → select q rows ≡ select p rows)
        → AtMostOne q y.1
    still_one [] y e h one same =
        subst (λ x. AtMostOne q x.1) (some-injective (row, rows ++ row ∷ []) y h)
          (subst (λ l. length l ≤ 1) (sym (select-append q rows (row ∷ [])))
            (elim (Bool-cases (q row)) [
              | inl k ↦
                  subst (λ l. length (l ++ select q (row ∷ [])) ≤ 1) (sym (same k ∙ e))
                    (subst (λ l. length l ≤ 1) (sym (select-only q row k)) (omega arith))
              | inr k ↦ omega (
                arith,
                one,
                length-append (select q rows) (select q (row ∷ [])),
                ap length (select-none q row k),
              )
            ]))
    still_one (x ∷ []) y e h one same =
        subst (λ x. AtMostOne q x.1) (some-injective (x, rows) y h) one
    still_one (x ∷ z ∷ xs) y e h one same = absurd (none-ne-some y h)

-- In a lineage with at most one row for each key, opening a run raises nothing and keeps that; and a run opened
-- afterwards for the same checksum and URI in the same dataset uses the same rows and adds none, whatever the clock
-- and `uuid4` say.
pub open_run-IsUnique :
    (o o' : Opening) (s : Lineage)
    → o'.stored.checksum_sha256 ≡ o.stored.checksum_sha256
    → o'.stored.uri ≡ o.stored.uri
    → o'.dataset_id ≡ o.dataset_id
    → IsUnique s
    → (r : Opened) × (s' : Lineage) × (open_run o s ≡ some (r, s'))
      × (open_run o' s' ≡ some (r, s'))
      × IsUnique s'
open_run-IsUnique o o' s same_checksum same_uri same_dataset u =
    let c = o.stored.checksum_sha256 in
    let job =
      one_found (new_ingestion_job o (suc (length s.ingestion_jobs))) s.ingestion_jobs
        (select (job_has c) s.ingestion_jobs) (u.jobs c) in
    let asset =
      one_found (new_asset o job.0.0.id) s.assets
        (select (asset_has o.dataset_id o.stored.uri) s.assets)
        (u.assets o.dataset_id o.stored.uri) in
    let proc =
      one_found (new_processing_job o (suc (length s.processing_jobs)) job.0.0.id) s.processing_jobs
        (select (proc_job_has c) s.processing_jobs) (u.proc_jobs c) in
    let run = first_found (new_run o proc.0.0.id) s.runs (select (run_has proc.0.0.id) s.runs) in
    let steps = open_run_steps o s job.0 asset.0 proc.0 run.0 job.1 asset.1 proc.1 run.1 in
    (
      opened job.0.0 asset.0.0 proc.0.0 run.0.0,
      lineage job.0.1 asset.0.1 proc.0.1 run.0.1,
      steps,
      open_run-again o o' s _ _ same_checksum same_uri same_dataset steps,
      record {
        jobs = λ k.
            still_one (new_ingestion_job o (suc (length s.ingestion_jobs))) s.ingestion_jobs
              (job_has c) (job_has k) _ job.0 refl job.1 (u.jobs k)
              (λ e. ap (λ t. select (job_has t) s.ingestion_jobs) (sym (same_text c k e)));
        assets = λ d t.
            still_one (new_asset o job.0.0.id) s.assets (asset_has o.dataset_id o.stored.uri)
              (asset_has d t) _ asset.0 refl asset.1 (u.assets d t)
              (λ e.
                let k = same_asset o.dataset_id d o.stored.uri t e in
                λ i. select (asset_has (k.0 i) (k.1 i)) s.assets);
        proc_jobs = λ k.
            still_one (new_processing_job o (suc (length s.processing_jobs)) job.0.0.id)
              s.processing_jobs (proc_job_has c) (proc_job_has k) _ proc.0 refl proc.1
              (u.proc_jobs k)
              (λ e. ap (λ t. select (proc_job_has t) s.processing_jobs) (sym (same_text c k e)));
      },
    )
