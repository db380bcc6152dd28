-- ===== src/Queue/Invariant.antt =====
-- The invariant of the in-memory queue under its consumer operations.
use ocean_data_engine_fronte.Prelude.{
  ℕ, ◌+◌, ◌≤◌, ◌<◌, ◌≡◌, refl, inl, inr, String, [], ◌∷◌, arith, leb, Bool-cases, In, All,
  All-append, leb→le, leb→lt,
}
use ocean_data_engine_fronte.Queue.Priority.{QueuePriority}
use ocean_data_engine_fronte.Prelude.Json.{JsonFields}
use ocean_data_engine_fronte.Queue.Defs.{
  Message, InMemoryQueue, Fresh, empty, was_seen, new_message, publish, next_ready, ack, nack,
}
use ocean_data_engine_fronte.Queue.Count.{
  count_id, count_id-append, count_id-sort, count_id-In, count_id-remove, count_id-replace,
  remaining, remaining-remove, remaining-replace, All-sort, All-remove, All-replace, All-In,
}

abbrev pub Retrying : Message → Type 0
Retrying m = m.attempts < m.max_attempts

abbrev pub Exhausted : Message → Type 0
Exhausted m = m.attempts ≡ m.max_attempts

-- Waiting messages have tries left, and dead ones used up exactly the tries that they had.
pub record IsValid (q : InMemoryQueue) : Type 0 where
  pub distinct : (i : ℕ) → count_id i q.pending ≤ 1
  pub retrying : All Retrying q.pending
  pub exhausted : All Exhausted q.dlq

pub empty-IsValid : (base maximum : ℕ) → IsValid (empty base maximum)
unfolding empty
empty-IsValid base maximum = record { distinct = λ i. omega arith; retrying = tt; exhausted = tt }

-- A publication keeps a queue valid when its message may be tried at least once and the `uuid4` of the
-- message is not the id of one that waits.
pub publish-IsValid :
    (q : InMemoryQueue) (fresh : Fresh) (p : QueuePriority) (payload : JsonFields) (key : String)
    (max_attempts : ℕ)
    → IsValid q
    → count_id fresh.message_id q.pending ≡ 0
    → 0 < max_attempts
    → IsValid (publish q fresh p payload key max_attempts).0
unfolding publish
publish-IsValid q fresh p payload key max_attempts v new pos =
    elim (Bool-cases (was_seen key q.seen_keys)) [
      | inl e ↦ rw e v
      | inr e ↦ rw e (record {
        distinct = λ i.
            let added = new_message fresh p payload key max_attempts in
            ground (arith, count_id-append i q.pending (added ∷ []), v.distinct i);
        retrying = All-append Retrying q.pending (_ ∷ []) v.retrying (pos, tt);
        exhausted = v.exhausted;
      })
    ]

pub next_ready-IsValid : (q : InMemoryQueue) (now : ℕ) → IsValid q → IsValid (next_ready q now).0
unfolding next_ready
next_ready-IsValid q now v = record {
  distinct = λ i. rw count_id-sort (v.distinct i);
  retrying = All-sort Retrying q.pending v.retrying;
  exhausted = v.exhausted;
}

module _ (q : InMemoryQueue) (m : Message) (here : In m q.pending) (v : IsValid q) where
  pub ack-IsValid : IsValid (ack q m)
  unfolding ack
  ack-IsValid = record {
    distinct = λ i.
        omega
          (arith, count_id-remove i m.message_id q.pending (count_id-In m _ here), v.distinct i);
    retrying = All-remove Retrying m.message_id q.pending v.retrying;
    exhausted = v.exhausted;
  }

  -- In a valid queue, the acknowledgement of a message that waits takes at least one of the tries that the
  -- waiting messages have left.
  pub remaining-ack : remaining (ack q m).pending < remaining q.pending
  unfolding ack
  remaining-ack = omega (
    arith,
    remaining-remove m q.pending here (v.distinct m.message_id),
    All-In Retrying m _ v.retrying here,
  )

  module _ (uniform : ℕ → ℕ) (error : String) (now : ℕ) where
    -- The failure of a message that waits keeps a valid queue valid: the message waits on with tries left, or is
    -- dead with none.
    pub nack-IsValid : IsValid (nack q uniform m error now).0
    unfolding nack
    nack-IsValid = elim (Bool-cases (leb m.max_attempts (m.attempts + 1))) [
      | inl e ↦ rw e (record {
        distinct = λ i.
            omega (
              arith,
              count_id-remove i m.message_id q.pending (count_id-In m _ here),
              v.distinct i,
            );
        retrying = All-remove Retrying m.message_id q.pending v.retrying;
        exhausted =
            All-append Exhausted q.dlq (_ ∷ []) v.exhausted
              (omega (arith, leb→le _ _ e, All-In Retrying m _ v.retrying here), tt);
      })
      | inr e ↦ rw e (record {
        distinct = λ i. rw count_id-replace (v.distinct i);
        retrying = All-replace Retrying _ q.pending (leb→lt _ _ e) v.retrying;
        exhausted = v.exhausted;
      })
    ]

    -- In a valid queue, the failure of a message that waits takes at least one of the tries that the waiting
    -- messages have left, whether it is retried or dead-lettered.
    pub remaining-nack : remaining (nack q uniform m error now).0.pending < remaining q.pending
    unfolding nack
    remaining-nack = elim (Bool-cases (leb m.max_attempts (m.attempts + 1))) [
      | inl e ↦ rw e (
          omega (
            arith,
            remaining-remove m q.pending here (v.distinct m.message_id),
            All-In Retrying m _ v.retrying here,
          ))
      | inr e ↦ rw e (
          omega (
            arith,
            remaining-replace m _ q.pending refl here (v.distinct m.message_id),
            leb→lt _ _ e,
          ))
    ]
