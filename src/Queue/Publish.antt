-- ===== src/Queue/Publish.antt =====
-- messaging/queue.py: proofs on publications and the backoff.
use ocean_data_engine_fronte.Prelude.{
  ℕ, zero, suc, ◌+◌, ◌-◌, ◌*◌, ◌^◌, ◌≤◌, ◌≡◌, refl, inl, inr, String, eq_refl, Bool, false, none,
  some, arith, Bool-cases,
}
use native.Mathlib.Nat.{pow-suc}
use ocean_data_engine_fronte.Prelude.Json.{JsonFields}
use ocean_data_engine_fronte.Queue.Priority.{QueuePriority, raw_delay, backoff_delay}
use ocean_data_engine_fronte.Queue.Defs.{InMemoryQueue, Fresh, was_seen, new_message, publish}

-- A second publication under a key, whatever its content, is dropped and changes nothing; a first
-- one under a key that was not seen is taken.
pub publish-publish :
    (q : InMemoryQueue) (f g : Fresh) (p r : QueuePriority) (payload other : JsonFields)
    (key : String) (n k : ℕ)
    → let q' = (publish q f p payload key n).0 in
      (publish q' g r other key k ≡ (q', none))
      × (was_seen key q.seen_keys ≡ false
          → (publish q f p payload key n).1 ≡ some (new_message f p payload key n))
unfolding publish
publish-publish q f g p r payload other key n k = elim (Bool-cases (was_seen key q.seen_keys)) [
  | inl e ↦ (rw e (rw e refl), λ h. cc)
  | inr e ↦ (rw e (rw eq_refl refl), λ h. rw e refl)
]

doubling : (k : ℕ) → 2 ^ suc k ≡ 2 * 2 ^ k
doubling k = omega (arith, pow-suc 2 k)

raw_delay_mono : (k base maximum : ℕ) → raw_delay k base maximum ≤ raw_delay (k + 1) base maximum
unfolding raw_delay
raw_delay_mono zero base maximum = omega arith
raw_delay_mono (suc k) base maximum =
    let e : suc k + 1 - 1 ≡ suc k = omega arith in
    let d : suc k - 1 ≡ k = omega arith in rw (e, d, doubling) (grind arith)

-- With a draw that `random.uniform` may make, the delay never passes the maximum, and without
-- jitter it is the base at the first retry and never falls from one retry to the next.
pub backoff_delay_bounds :
    (uniform : ℕ → ℕ) (jitter : Bool) (attempt base maximum : ℕ)
    → ((raw : ℕ) → uniform raw ≤ raw)
    → (backoff_delay uniform jitter attempt base maximum ≤ maximum)
      × (backoff_delay uniform false attempt base maximum
          ≤ backoff_delay uniform false (attempt + 1) base maximum)
unfolding backoff_delay
backoff_delay_bounds uniform jitter attempt base maximum draw = (
  elim (Bool-cases jitter) [
    | inl e ↦ rw e (unfold raw_delay in omega (arith, draw (raw_delay attempt base maximum)))
    | inr e ↦ rw e (unfold raw_delay in omega arith)
  ],
  raw_delay_mono attempt base maximum,
)
