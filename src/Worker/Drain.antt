-- ===== src/Worker/Drain.antt =====
-- worker/runtime.py: proofs on `run_once` and `drain`.
use ocean_data_engine_fronte.Prelude.{
  ℕ, zero, suc, ◌≤◌, ◌<◌, ◌≡◌, refl, sym, ◌∙◌, inl, inr, String, true, false, Option, none, some,
  arith, Bool-cases, Option-cases, In,
}
use mathlib.Core.Bool.{false≢true}
use ocean_data_engine_fronte.Queue.Defs.{Message, InMemoryQueue, next_ready}
use ocean_data_engine_fronte.Queue.Count.{remaining}
use ocean_data_engine_fronte.Queue.Order.{
  next_ready-In, next_ready-none, next_ready-pending, remaining-next_ready,
}
use ocean_data_engine_fronte.Queue.Invariant.{
  IsValid, next_ready-IsValid, ack-IsValid, nack-IsValid, remaining-ack, remaining-nack,
}
use ocean_data_engine_fronte.Worker.Defs.{
  Worker, Handler, Outcome, returned, raised, dispatch, settle, run_message, run_once, drain,
}

module _ {S : Type 0} (handlers : String → Option (Handler S)) (uniform : ℕ → ℕ) (now : ℕ) where
  -- What one round does to a valid queue: it stays valid, and a message that ran used up a try.
  abbrev Progress : InMemoryQueue → InMemoryQueue → Type 0
  Progress before after = IsValid after × (remaining after.pending < remaining before.pending)

  settle-Progress :
      (w : Worker S) (m : Message) (o : Outcome) (world : S)
      → In m w.queue.pending
      → IsValid w.queue
      → Progress w.queue (settle handlers uniform now w m o world).queue
  settle-Progress w m returned world i v = (ack-IsValid w.queue m i v, remaining-ack w.queue m i v)
  settle-Progress w m (raised error) world i v =
      (nack-IsValid w.queue m i v uniform error now, remaining-nack w.queue m i v uniform error now)

  run_message-Progress :
      (w : Worker S) (o : Option Message)
      → ((m : Message) → o ≡ some m → In m w.queue.pending)
      → IsValid w.queue
      → (run_message handlers uniform now w o).1 ≡ true
      → Progress w.queue (run_message handlers uniform now w o).0.queue
  unfolding run_once
  run_message-Progress w none i v h = cc
  run_message-Progress w (some m) i v h =
      settle-Progress w m (dispatch handlers m w.world).0 (dispatch handlers m w.world).1 (i m refl)
        v

  -- A round that finds no ready message changes neither the messages nor their order of service.
  pub run_once-idle :
      (w : Worker S)
      → (run_once handlers uniform now w).1 ≡ false
      → ((next_ready w.queue now).1 ≡ none)
        × ((run_once handlers uniform now w).0.queue ≡ (next_ready w.queue now).0)
  unfolding run_once
  run_once-idle w h = elim (Option-cases (next_ready w.queue now).1) [
    | inl e ↦ (e, rw e)
    | inr (m, e) ↦ absurd (false≢true (sym h ∙ rw e refl))
  ]

  run_once-Progress :
      (w : Worker S)
      → IsValid w.queue
      → (run_once handlers uniform now w).1 ≡ true
      → Progress w.queue (run_once handlers uniform now w).0.queue
  unfolding run_once
  run_once-Progress w v h =
      let q = (next_ready w.queue now).0 in
      let (valid, less) =
        run_message-Progress (record w { queue = q }) (next_ready w.queue now).1
          (next_ready-In w.queue now) (next_ready-IsValid w.queue now v) h in
      (valid, omega (arith, less, remaining-next_ready w.queue now))

  -- One round keeps a valid queue valid, whether it is idle, succeeds, retries or dead-letters.
  pub run_once-IsValid :
      (w : Worker S) → IsValid w.queue → IsValid (run_once handlers uniform now w).0.queue
  run_once-IsValid w v = elim (Bool-cases (run_once handlers uniform now w).1) [
    | inl e ↦ (run_once-Progress w v e).0
    | inr e ↦ rw (run_once-idle w e).1 (next_ready-IsValid w.queue now v)
  ]

  abbrev pub NothingDue : InMemoryQueue → Type 0
  NothingDue q = (m : Message) → In m q.pending → now < m.not_before

  run_once-NothingDue :
      (w : Worker S)
      → (run_once handlers uniform now w).1 ≡ false
      → NothingDue (run_once handlers uniform now w).0.queue
  run_once-NothingDue w h =
      let (idle, e) = run_once-idle w h in
      rw e (λ m i. (next_ready-none w.queue now).0 idle m (next_ready-pending w.queue now m i))

module _ {S : Type 0} (handlers : String → Option (Handler S)) where
  -- From a valid queue, and with more rounds allowed than the waiting messages have tries left, `drain` stops because
  -- nothing is due at the instant of its last round, whatever instants its rounds have, and it has processed at most
  -- that many messages.
  pub drain_lem :
      (fuel : ℕ) (uniform : ℕ → ℕ → ℕ) (now : ℕ → ℕ) (w : Worker S)
      → IsValid w.queue
      → remaining w.queue.pending < fuel
      → let (w', processed) = drain handlers fuel uniform now w in
        IsValid w'.queue
        × NothingDue handlers (uniform processed) (now processed) w'.queue
        × (processed ≤ remaining w.queue.pending)
  unfolding drain
  drain_lem zero uniform now w v h = absurd (omega arith)
  drain_lem (suc fuel) uniform now w v h =
      elim (Bool-cases (run_once handlers (uniform 0) (now 0) w).1) [
        | inl e ↦
            let (valid, less) = run_once-Progress handlers (uniform 0) (now 0) w v e in
            let (a, b, c) =
              drain_lem fuel (λ i. uniform (suc i)) (λ i. now (suc i))
                (run_once handlers (uniform 0) (now 0) w).0 valid (omega (arith, less)) in
            rw e (a, b, omega (arith, less, c))
        | inr e ↦ rw e (
          run_once-IsValid handlers (uniform 0) (now 0) w v,
          run_once-NothingDue handlers (uniform 0) (now 0) w e,
          omega arith,
        )
      ]
