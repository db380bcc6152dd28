-- ===== src/Freshness/Upsert.antt =====
-- The rows and the statuses after an evaluation.
use ocean_data_engine_fronte.Prelude.{
  ℕ, ◌≡◌, refl, sym, ◌∙◌, subst, ap, ◌≢◌, String, str_eq, eq_iff, eq_refl, List, [], ◌∷◌, ◌⊎◌, inl,
  inr, true, false, some, if◌then◌else◌, Bool-cases, All,
}
use ocean_data_engine_fronte.Prelude.Float.{Float}
use ocean_data_engine_fronte.Dataset.State.{healthy, stale, degraded, failed, disabled, Dataset}
use ocean_data_engine_fronte.Freshness.Service.{
  FreshnessRow, upsert, find_row, freshness_of, row_of, evaluate_dataset_freshness,
}

str_eq-true : (a b : String) → a ≡ b → str_eq a b ≡ true
str_eq-true a b h = subst (λ c. str_eq a c ≡ true) h (eq_refl a)

str_eq-false : (a b : String) → a ≢ b → str_eq a b ≡ false
str_eq-false a b h = elim (Bool-cases (str_eq a b)) [
  | inl e ↦ absurd (h ((eq_iff a b).0 e))
  | inr e ↦ e
]

module _ {W : Type 0} where
  upsert_hit :
      (row r : FreshnessRow W) (rows : List (FreshnessRow W))
      → str_eq r.dataset_key row.dataset_key ≡ true
      → upsert row (r ∷ rows) ≡ row ∷ rows
  unfolding upsert
  upsert_hit row r rows e = ap (λ b. if b then row ∷ rows else r ∷ upsert row rows) e

  upsert_miss :
      (row r : FreshnessRow W) (rows : List (FreshnessRow W))
      → str_eq r.dataset_key row.dataset_key ≡ false
      → upsert row (r ∷ rows) ≡ r ∷ upsert row rows
  unfolding upsert
  upsert_miss row r rows e = ap (λ b. if b then row ∷ rows else r ∷ upsert row rows) e

  find_hit :
      (key : String) (r : FreshnessRow W) (rows : List (FreshnessRow W))
      → str_eq r.dataset_key key ≡ true
      → find_row key (r ∷ rows) ≡ some r
  unfolding find_row
  find_hit key r rows e = ap (λ b. if b then some r else find_row key rows) e

  find_miss :
      (key : String) (r : FreshnessRow W) (rows : List (FreshnessRow W))
      → str_eq r.dataset_key key ≡ false
      → find_row key (r ∷ rows) ≡ find_row key rows
  unfolding find_row
  find_miss key r rows e = ap (λ b. if b then some r else find_row key rows) e

  find_row-upsert :
      (row : FreshnessRow W) (rows : List (FreshnessRow W))
      → find_row row.dataset_key (upsert row rows) ≡ some row
  unfolding upsert
  find_row-upsert row [] = find_hit _ row [] (eq_refl row.dataset_key)
  find_row-upsert row (r ∷ rows) = elim (Bool-cases (str_eq r.dataset_key row.dataset_key)) [
    | inl e ↦
        ap (find_row row.dataset_key) (upsert_hit row r rows e)
        ∙ find_hit _ row rows (eq_refl row.dataset_key)
    | inr e ↦
        ap (find_row row.dataset_key) (upsert_miss row r rows e)
        ∙ (find_miss _ r (upsert row rows) e ∙ find_row-upsert row rows)
  ]

  find_row-congr :
      (key : String) (r : FreshnessRow W) (xs ys : List (FreshnessRow W))
      → find_row key xs ≡ find_row key ys
      → find_row key (r ∷ xs) ≡ find_row key (r ∷ ys)
  unfolding find_row
  find_row-congr key r xs ys h = ap (λ rest. if str_eq r.dataset_key key then some r else rest) h

  -- A row of another key is out of the way.
  find_other :
      (key : String) (r : FreshnessRow W) (rows : List (FreshnessRow W))
      → r.dataset_key ≢ key
      → find_row key (r ∷ rows) ≡ find_row key rows
  find_other key r rows h = find_miss key r rows (str_eq-false _ _ h)

  find_row-upsert_other :
      (row : FreshnessRow W) (key : String) (rows : List (FreshnessRow W))
      → row.dataset_key ≢ key
      → find_row key (upsert row rows) ≡ find_row key rows
  unfolding upsert
  find_row-upsert_other row key [] h = find_other key row [] h
  find_row-upsert_other row key (r ∷ rows) h =
      elim (Bool-cases (str_eq r.dataset_key row.dataset_key)) [
        | inl e ↦
            let other : r.dataset_key ≢ key = λ k. h (sym ((eq_iff _ _).0 e) ∙ k) in
            ap (find_row key) (upsert_hit row r rows e)
            ∙ (find_other key row rows h ∙ sym (find_other key r rows other))
        | inr e ↦
            ap (find_row key) (upsert_miss row r rows e)
            ∙ find_row-congr key r _ _ (find_row-upsert_other row key rows h)
      ]

  -- No two datasets have the same key, which the table's unique index keeps.
  abbrev pub DistinctKeys : List (Dataset W) → Type 0
  DistinctKeys [] = Unit
  DistinctKeys (d ∷ datasets) = All (λ e. e.key ≢ d.key) datasets × DistinctKeys datasets

module _ {W : Type 0} ⦃f : Float W⦄ (default : W) (now : ℕ) where
  row_of-key : (d : Dataset W) → (row_of default now d).dataset_key ≡ d.key
  unfolding row_of
  row_of-key d = refl

  find_row-evaluate_other :
      (datasets : List (Dataset W)) (rows : List (FreshnessRow W)) (key : String)
      → All (λ e. e.key ≢ key) datasets
      → find_row key (evaluate_dataset_freshness default now datasets rows).1 ≡ find_row key rows
  unfolding evaluate_dataset_freshness row_of
  find_row-evaluate_other [] rows key h = refl
  find_row-evaluate_other (d ∷ datasets) rows key h =
      find_row-evaluate_other datasets (upsert (row_of default now d) rows) key h.1
      ∙ find_row-upsert_other (row_of default now d) key rows h.0

  -- After an evaluation each dataset's row holds its own freshness as of `now`, whatever rows stood there before,
  -- when no two datasets share a key.
  pub find_row-evaluate :
      (datasets : List (Dataset W)) (rows : List (FreshnessRow W))
      → DistinctKeys datasets
      → All
          (λ d.
            find_row d.key (evaluate_dataset_freshness default now datasets rows).1
            ≡ some (row_of default now d))
          datasets
  unfolding evaluate_dataset_freshness row_of
  find_row-evaluate [] rows h = tt
  find_row-evaluate (d ∷ datasets) rows h = (
    find_row-evaluate_other datasets (upsert (row_of default now d) rows) d.key h.0
        ∙ find_row-upsert (row_of default now d) rows,
    find_row-evaluate datasets (upsert (row_of default now d) rows) h.1,
  )

  -- What an evaluation may do to one dataset: a status outside healthy and stale stays, and between these
  -- two the new status says whether the data is stale.
  abbrev pub Settled : Dataset W → Dataset W → Type 0
  Settled before later =
      ((before.status ≡ degraded) ⊎ ((before.status ≡ failed) ⊎ (before.status ≡ disabled))
        → later.status ≡ before.status)
      × ((before.status ≡ healthy) ⊎ (before.status ≡ stale)
          → later.status ≡ (if (freshness_of default now before).is_stale then stale else healthy))

  abbrev pub All₂ : (Dataset W → Dataset W → Type 0) → List (Dataset W) → List (Dataset W) → Type 0
  All₂ R [] [] = Unit
  All₂ R (x ∷ xs) (y ∷ ys) = R x y × All₂ R xs ys
  All₂ R _ _ = ⊥
