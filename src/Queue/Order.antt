-- ===== src/Queue/Order.antt =====
-- The order in which the in-memory queue hands messages out.
use ocean_data_engine_fronte.Prelude.{
  ℕ, ◌≤◌, ◌<◌, ◌≡◌, ◌↔◌, ◌⊎◌, refl, sym, ap, ◌∙◌, subst, keep, inl, inr, List, [], ◌∷◌, true, false,
  Option, none, some, if◌then◌else◌, arith, leb, Bool-cases, Option-cases, In, All,
}
use ocean_data_engine_fronte.Queue.Priority.{priority_rank}
use ocean_data_engine_fronte.Queue.Defs.{
  Message, InMemoryQueue, tuple_le, key_le, insert, sort, first_ready, next_ready,
}
use ocean_data_engine_fronte.Queue.Count.{remaining, remaining-sort}

tuple_le_total : (a b c x y z : ℕ) → tuple_le a b c x y z ≡ false → tuple_le x y z a b c ≡ true
unfolding tuple_le
tuple_le_total a b c x y z h = ground arith

tuple_le_trans :
    (a b c x y z u v w : ℕ)
    → tuple_le a b c x y z ≡ true
    → tuple_le x y z u v w ≡ true
    → tuple_le a b c u v w ≡ true
unfolding tuple_le
tuple_le_trans a b c x y z u v w h k = ground arith

tuple_le_first : (a b c x y z : ℕ) → tuple_le a b c x y z ≡ true → a ≤ x
unfolding tuple_le
tuple_le_first a b c x y z h = ground arith

tuple_le_refl : (a b c : ℕ) → tuple_le a b c a b c ≡ true
unfolding tuple_le
tuple_le_refl a b c = ground arith

key_le_total : (m n : Message) → key_le m n ≡ false → key_le n m ≡ true
unfolding key_le
key_le_total m n = tuple_le_total _ _ _ _ _ _

key_le_trans : (m n o : Message) → key_le m n ≡ true → key_le n o ≡ true → key_le m o ≡ true
unfolding key_le
key_le_trans m n o = tuple_le_trans _ _ _ _ _ _ _ _ _

key_le_refl : (m : Message) → key_le m m ≡ true
unfolding key_le
key_le_refl m = tuple_le_refl _ _ _

-- A message whose key is not larger has a priority class that is not less urgent.
pub key_le_rank :
    (m n : Message) → key_le m n ≡ true → priority_rank m.priority ≤ priority_rank n.priority
unfolding key_le
key_le_rank m n = tuple_le_first _ _ _ _ _ _

abbrev pub Below : Message → List Message → Type 0
Below m ms = All (λ n. key_le m n ≡ true) ms

abbrev pub IsSorted : List Message → Type 0
IsSorted [] = Unit
IsSorted (m ∷ ms) = Below m ms × IsSorted ms

Below-trans : (m n : Message) (ms : List Message) → key_le m n ≡ true → Below n ms → Below m ms
Below-trans m n [] h b = tt
Below-trans m n (o ∷ ms) h b = (key_le_trans m n o h b.0, Below-trans m n ms h b.1)

Below-insert :
    (m n : Message) (ms : List Message) → key_le m n ≡ true → Below m ms → Below m (insert n ms)
unfolding insert
Below-insert m n [] h b = (h, tt)
Below-insert m n (o ∷ ms) h b = elim (Bool-cases (key_le n o)) [
  | inl e ↦ rw e (h, b)
  | inr e ↦ rw e (b.0, Below-insert m n ms h b.1)
]

insert-IsSorted : (m : Message) (ms : List Message) → IsSorted ms → IsSorted (insert m ms)
unfolding insert
insert-IsSorted m [] s = (tt, tt)
insert-IsSorted m (n ∷ ms) s = elim (Bool-cases (key_le m n)) [
  | inl e ↦ rw e ((e, Below-trans m n ms e s.0), s)
  | inr e ↦ rw e (Below-insert n m ms (key_le_total m n e) s.0, insert-IsSorted m ms s.1)
]

pub sort-IsSorted : (ms : List Message) → IsSorted (sort ms)
unfolding sort
sort-IsSorted [] = tt
sort-IsSorted (m ∷ ms) = insert-IsSorted m (sort ms) (sort-IsSorted ms)

In-insert : (x m : Message) (ms : List Message) → (x ≡ m) ⊎ In x ms → In x (insert m ms)
unfolding insert
In-insert x m [] h = h
In-insert x m (n ∷ ms) (inl p) = elim (Bool-cases (key_le m n)) [
  | inl e ↦ rw e (inl p)
  | inr e ↦ rw e (inr (In-insert x m ms (inl p)))
]
In-insert x m (n ∷ ms) (inr (inl p)) = elim (Bool-cases (key_le m n)) [
  | inl e ↦ rw e (inr (inl p))
  | inr e ↦ rw e (inl p)
]
In-insert x m (n ∷ ms) (inr (inr i)) = elim (Bool-cases (key_le m n)) [
  | inl e ↦ rw e (inr (inr i))
  | inr e ↦ rw e (inr (In-insert x m ms (inr i)))
]

insert-In : (x m : Message) (ms : List Message) → In x (insert m ms) → (x ≡ m) ⊎ In x ms
unfolding insert
insert-In x m [] h = h
insert-In x m (n ∷ ms) h = elim (Bool-cases (key_le m n)) [
  | inl e ↦ rw e at h
  | inr e ↦ later (insert-In x m ms) (rw e at h)
]
  where
    later :
        (In x (insert m ms) → (x ≡ m) ⊎ In x ms)
        → (x ≡ n) ⊎ In x (insert m ms)
        → (x ≡ m) ⊎ In x (n ∷ ms)
    later f (inl p) = inr (inl p)
    later f (inr i) = elim (f i) [ inl p ↦ inl p | inr j ↦ inr (inr j) ]

-- Sorting keeps the messages.
pub In-sort : (x : Message) (ms : List Message) → In x ms → In x (sort ms)
unfolding sort
In-sort x [] i = elim i [ ]
In-sort x (m ∷ ms) (inl p) = In-insert x m (sort ms) (inl p)
In-sort x (m ∷ ms) (inr i) = In-insert x m (sort ms) (inr (In-sort x ms i))

pub sort-In : (x : Message) (ms : List Message) → In x (sort ms) → In x ms
unfolding sort
sort-In x [] h = h
sort-In x (m ∷ ms) h = elim (insert-In x m (sort ms) h) [
  | inl p ↦ inl p
  | inr i ↦ inr (sort-In x ms i)
]

Below-In : (m n : Message) (ms : List Message) → Below m ms → In n ms → key_le m n ≡ true
Below-In m n [] b i = elim i [ ]
Below-In m n (o ∷ ms) b (inl p) = rw p b.0
Below-In m n (o ∷ ms) b (inr i) = Below-In m n ms b.1 i

first_ready-In :
    (now : ℕ) (ms : List Message) (m : Message)
    → first_ready now ms ≡ some m
    → In m ms × (m.not_before ≤ now)
unfolding first_ready
first_ready-In now [] m h = cc
first_ready-In now (n ∷ ms) m h = elim (Bool-cases (leb n.not_before now)) [
  | inl e ↦ let p : m ≡ n = ground arith in (inl p, rw p (ground arith))
  | inr e ↦ let (i, r) = first_ready-In now ms m (ground arith) in (inr i, r)
]

first_ready-le :
    (now : ℕ) (ms : List Message) (m n : Message)
    → IsSorted ms
    → first_ready now ms ≡ some m
    → In n ms
    → n.not_before ≤ now
    → key_le m n ≡ true
unfolding first_ready
first_ready-le now [] m n s h i r = elim i [ ]
first_ready-le now (o ∷ ms) m n s h (inl p) r =
    let e : leb o.not_before now ≡ true = rw (← p) (ground arith) in
    let q : m ≡ o = ground arith in rw (q, p) (key_le_refl o)
first_ready-le now (o ∷ ms) m n s h (inr i) r = elim (Bool-cases (leb o.not_before now)) [
  | inl e ↦ let p : m ≡ o = ground arith in rw p (Below-In o n ms s.0 i)
  | inr e ↦ first_ready-le now ms m n s.1 (ground arith) i r
]

first_ready-none :
    (now : ℕ) (ms : List Message) (n : Message)
    → first_ready now ms ≡ none
    → In n ms
    → now < n.not_before
unfolding first_ready
first_ready-none now [] n h i = elim i [ ]
first_ready-none now (o ∷ ms) n h (inl p) = rw p (ground arith)
first_ready-none now (o ∷ ms) n h (inr j) = first_ready-none now ms n (ground arith) j

-- the waiting messages that are ready
abbrev pub due : ℕ → List Message → List Message
due now ms = keep (λ n. leb n.not_before now) ms

All-due :
    (P : Message → Type 0) (now : ℕ) (ms : List Message)
    → ((n : Message) → In n ms → n.not_before ≤ now → P n)
    → All P (due now ms)
All-due P now [] h = tt
All-due P now (m ∷ ms) h =
    let rest = All-due P now ms (λ n i r. h n (inr i) r) in
    elim (Bool-cases (leb m.not_before now)) [
      | inl e ↦
          subst (λ b. All P (if b then m ∷ due now ms else due now ms)) (sym e)
            (h m (inl refl) (ground arith), rest)
      | inr e ↦ subst (λ b. All P (if b then m ∷ due now ms else due now ms)) (sym e) rest
    ]

nothing_due :
    (now : ℕ) (ms : List Message) → ((n : Message) → In n ms → now < n.not_before) → due now ms ≡ []
nothing_due now [] h = refl
nothing_due now (m ∷ ms) h =
    let late : leb m.not_before now ≡ false = ground (arith, h m (inl refl)) in
    ap (λ b. if b then m ∷ due now ms else due now ms) late
    ∙ nothing_due now ms (λ n i. h n (inr i))

-- What may be handed out: nothing when no waiting message is ready, and else one that waits, is ready and comes
-- first among those that are ready.
abbrev pub IsNext : InMemoryQueue → ℕ → Option Message → Type 0
IsNext q now none = due now q.pending ≡ []
IsNext q now (some m) =
    In m q.pending
    × (m.not_before ≤ now)
    × All (λ n. (key_le m n ≡ true) × (priority_rank m.priority ≤ priority_rank n.priority))
        (due now q.pending)

-- Nothing is handed out exactly when no waiting message is ready.
pub next_ready-none :
    (q : InMemoryQueue) (now : ℕ)
    → ((next_ready q now).1 ≡ none) ↔ ((n : Message) → In n q.pending → now < n.not_before)
unfolding next_ready
next_ready-none q now = (
  λ h n i. first_ready-none now (sort q.pending) n h (In-sort n q.pending i),
  λ all. elim (Option-cases (first_ready now (sort q.pending))) [
    | inl e ↦ e
    | inr (m, e) ↦
        let (j, ready) = first_ready-In now (sort q.pending) m e in
        absurd (omega (arith, all m (sort-In m q.pending j)))
  ],
)

-- A message that is handed out is waiting and is ready, and its key (priority rank, then readiness, then enqueue
-- time) and its priority rank are not larger than those of any waiting message that is ready; and nothing is handed
-- out only when no waiting message is ready.
pub next_ready-IsNext : (q : InMemoryQueue) (now : ℕ) → IsNext q now (next_ready q now).1
unfolding next_ready
next_ready-IsNext q now = elim (Option-cases (next_ready q now).1) [
  | inl e ↦ subst (IsNext q now) (sym e) (nothing_due now q.pending ((next_ready-none q now).0 e))
  | inr (m, e) ↦
      let (j, ready) = first_ready-In now (sort q.pending) m e in
      subst (IsNext q now) (sym e) (
        sort-In m q.pending j,
        ready,
        All-due _ now q.pending (λ n i r.
            let le =
              first_ready-le now (sort q.pending) m n (sort-IsSorted q.pending) e
                (In-sort n q.pending i) r in
            (le, key_le_rank m n le)),
      )
]

-- A message that is handed out waits in the queue, which is now sorted.
pub next_ready-In :
    (q : InMemoryQueue) (now : ℕ) (m : Message)
    → (next_ready q now).1 ≡ some m
    → In m (next_ready q now).0.pending
unfolding next_ready
next_ready-In q now m h = (first_ready-In now (sort q.pending) m h).0

-- The messages that wait afterwards waited before.
pub next_ready-pending :
    (q : InMemoryQueue) (now : ℕ) (m : Message) → In m (next_ready q now).0.pending → In m q.pending
unfolding next_ready
next_ready-pending q now m = sort-In m q.pending

pub remaining-next_ready :
    (q : InMemoryQueue) (now : ℕ) → remaining (next_ready q now).0.pending ≡ remaining q.pending
unfolding next_ready
remaining-next_ready q now = remaining-sort q.pending
