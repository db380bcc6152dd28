-- ===== src/Freshness/Compute.antt =====
-- domain/freshness.py `compute_freshness`. Instants are microseconds.
use ocean_data_engine_fronte.Prelude.{
  ℕ, ◌-◌, Bool, true, false, Option, none, some, leb, ltb, if◌then◌else◌,
}
use ocean_data_engine_fronte.Prelude.Float.{Float, zero_, fmax}
use ocean_data_engine_fronte.Qc.Checks.{DateTime, as_utc}

pub record Freshness (W : Type 0) : Type 0 where
  pub reference_at : Option ℕ
  pub age_seconds : Option W
  pub age_minutes : Option W
  pub is_stale : Bool
  pub freshness_score : W
  pub expected_update_interval_s : Option ℕ
  pub stale_threshold_s : Option W

module _ {W : Type 0} ⦃f : Float W⦄ where
  -- (later - earlier).total_seconds()
  unfoldable pub total_seconds : ℕ → ℕ → W
  total_seconds later earlier =
      if leb earlier later
      then f.lit (later - earlier) 1_000_000
      else f.neg (f.lit (earlier - later) 1_000_000)

  unfoldable pub age_of : ℕ → ℕ → W
  unfolding total_seconds
  age_of now reference = fmax zero_ (total_seconds now reference)

  -- the linear decay to 0 at the threshold, before it is rounded
  unfoldable pub decay : W → W → W
  decay age threshold =
      if f.lt zero_ threshold then fmax zero_ (f.sub (f.lit 1 1) (f.div age threshold)) else zero_

  abbrev aged : ℕ → Option ℕ → W → Option W → Bool → W → Freshness W
  aged reference interval age threshold stale score = record {
    reference_at = some reference;
    age_seconds = some age;
    age_minutes = some (f.div age (f.lit 60 1));
    is_stale = stale;
    freshness_score = f.round score 4;
    expected_update_interval_s = interval;
    stale_threshold_s = threshold;
  }

  -- the interval is a count of seconds from 0 up; 0 counts as none
  abbrev with_interval : ℕ → Option ℕ → W → W → Freshness W
  with_interval reference none multiplier age = aged reference none age none false (f.lit 1 1)
  with_interval reference (some n) multiplier age =
      if ltb 0 n
      then (let threshold = f.mul (f.lit n 1) multiplier in
          aged reference (some n) age (some threshold) (f.lt threshold age) (decay age threshold))
      else aged reference (some n) age none false (f.lit 1 1)

  unfoldable pub compute_freshness : Option DateTime → ℕ → Option ℕ → W → Freshness W
  unfolding age_of decay
  compute_freshness none now interval multiplier = record {
    reference_at = none;
    age_seconds = none;
    age_minutes = none;
    is_stale = true;
    freshness_score = f.lit 0 1;
    expected_update_interval_s = interval;
    stale_threshold_s = none;
  }
  compute_freshness (some at) now interval multiplier =
      with_interval (as_utc at) interval multiplier (age_of now (as_utc at))
