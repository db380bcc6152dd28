-- ===== src/Queue/Priority.antt =====
-- db/enums.py `QueuePriority`, and messaging/subjects.py: ranks, subjects and the backoff.
use ocean_data_engine_fronte.Prelude.{
  ℕ, ◌-◌, ◌*◌, ◌^◌, String, str_append, List, [], ◌∷◌, Bool, min, if◌then◌else◌,
}

pub data QueuePriority : Type 0 where
  critical_alerts realtime_observations normal_ingestion scientific backfill_archive : QueuePriority

abbrev pub value : QueuePriority → String
value critical_alerts = "critical_alerts"
value realtime_observations = "realtime_observations"
value normal_ingestion = "normal_ingestion"
value scientific = "scientific"
value backfill_archive = "backfill_archive"

abbrev pub work_priorities : List QueuePriority
work_priorities =
    critical_alerts ∷ realtime_observations ∷ normal_ingestion ∷ scientific ∷ backfill_archive ∷ []

-- the index in `WORK_PRIORITIES`; lower is more urgent
abbrev pub priority_rank : QueuePriority → ℕ
priority_rank critical_alerts = 0
priority_rank realtime_observations = 1
priority_rank normal_ingestion = 2
priority_rank scientific = 3
priority_rank backfill_archive = 4

unfoldable pub work_subject : String → QueuePriority → String
work_subject pre priority = str_append pre (str_append ".work." (value priority))

unfoldable pub dlq_subject : String → QueuePriority → String
unfolding work_subject
dlq_subject pre priority = str_append (work_subject pre priority) ".dlq"

-- The undrawn delay, in microseconds. `base * 2 ** k` is exact on doubles, and `attempt - 1` is
-- truncated here as `max(0, attempt - 1)` is there.
unfoldable pub raw_delay : ℕ → ℕ → ℕ → ℕ
raw_delay attempt base maximum = min maximum (base * 2 ^ (attempt - 1))

-- `uniform` is `random.uniform(0, raw)`, a parameter.
unfoldable pub backoff_delay : (ℕ → ℕ) → Bool → ℕ → ℕ → ℕ → ℕ
unfolding raw_delay
backoff_delay uniform jitter attempt base maximum =
    let raw = raw_delay attempt base maximum in if jitter then uniform raw else raw
