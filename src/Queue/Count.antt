-- ===== src/Queue/Count.antt =====
-- How often a message id stands in a list, under each list operation of the queue.
use ocean_data_engine_fronte.Prelude.{
  ℕ, suc, ◌+◌, ◌-◌, ◌≤◌, ◌≡◌, refl, inl, inr, List, [], ◌∷◌, ◌++◌, arith, ◌==◌, if◌then◌else◌,
  Bool-cases, In, All,
}
use ocean_data_engine_fronte.Queue.Defs.{Message, key_le, insert, sort, remove, replace}

abbrev pub count_id : ℕ → List Message → ℕ
count_id i [] = 0
count_id i (m ∷ ms) = let rest = count_id i ms in if m.message_id == i then suc rest else rest

-- the tries that the waiting messages have left
abbrev pub remaining : List Message → ℕ
remaining [] = 0
remaining (m ∷ ms) = (m.max_attempts - m.attempts) + remaining ms

pub count_id-append :
    (i : ℕ) (xs ys : List Message) → count_id i (xs ++ ys) ≡ count_id i xs + count_id i ys
count_id-append i [] ys = omega arith
count_id-append i (x ∷ xs) ys = ground (arith, count_id-append i xs ys)

count_id-insert :
    (i : ℕ) (m : Message) (ms : List Message) → count_id i (insert m ms) ≡ count_id i (m ∷ ms)
unfolding insert
count_id-insert i m [] = refl
count_id-insert i m (n ∷ ms) = elim (Bool-cases (key_le m n)) [
  | inl e ↦ rw e
  | inr e ↦ rw e (ground (arith, count_id-insert i m ms))
]

pub count_id-sort : (i : ℕ) (ms : List Message) → count_id i (sort ms) ≡ count_id i ms
unfolding sort
count_id-sort i [] = refl
count_id-sort i (m ∷ ms) = ground (arith, count_id-insert i m (sort ms), count_id-sort i ms)

remaining-insert : (m : Message) (ms : List Message) → remaining (insert m ms) ≡ remaining (m ∷ ms)
unfolding insert
remaining-insert m [] = refl
remaining-insert m (n ∷ ms) = elim (Bool-cases (key_le m n)) [
  | inl e ↦ rw e
  | inr e ↦ rw e (omega (arith, remaining-insert m ms))
]

pub remaining-sort : (ms : List Message) → remaining (sort ms) ≡ remaining ms
unfolding sort
remaining-sort [] = refl
remaining-sort (m ∷ ms) = omega (arith, remaining-insert m (sort ms), remaining-sort ms)

pub count_id-In : (m : Message) (ms : List Message) → In m ms → 1 ≤ count_id m.message_id ms
count_id-In m [] h = elim h [ ]
count_id-In m (n ∷ ms) (inl p) = rw p (ground arith)
count_id-In m (n ∷ ms) (inr i) = ground (arith, count_id-In m ms i)

-- Removing a message that is there takes exactly one place away, from its own id.
pub count_id-remove :
    (i : ℕ) (j : ℕ) (ms : List Message)
    → 1 ≤ count_id j ms
    → count_id i (remove j ms) + (if j == i then 1 else 0) ≡ count_id i ms
unfolding remove
count_id-remove i j [] h = absurd (omega arith)
count_id-remove i j (m ∷ ms) h = ground (arith, count_id-remove i j ms)

pub count_id-replace :
    (i : ℕ) (m : Message) (ms : List Message) → count_id i (replace m ms) ≡ count_id i ms
unfolding replace
count_id-replace i m [] = refl
count_id-replace i m (n ∷ ms) = ground (arith, count_id-replace i m ms)

module _ (m : Message) where
  pub remaining-remove :
      (ms : List Message)
      → In m ms
      → count_id m.message_id ms ≤ 1
      → remaining (remove m.message_id ms) + (m.max_attempts - m.attempts) ≡ remaining ms
  unfolding remove
  remaining-remove [] h u = elim h [ ]
  remaining-remove (n ∷ ms) (inl p) u = rw p (ground arith)
  remaining-remove (n ∷ ms) (inr i) u = ground (arith, count_id-In m ms i, remaining-remove ms i)

  pub remaining-replace :
      (new : Message) (ms : List Message)
      → new.message_id ≡ m.message_id
      → In m ms
      → count_id m.message_id ms ≤ 1
      → remaining (replace new ms) + (m.max_attempts - m.attempts)
        ≡ remaining ms + (new.max_attempts - new.attempts)
  unfolding replace
  remaining-replace new [] e h u = elim h [ ]
  remaining-replace new (n ∷ ms) e (inl p) u = rw p (ground arith)
  remaining-replace new (n ∷ ms) e (inr i) u =
      ground (arith, count_id-In m ms i, remaining-replace new ms e i)

module _ (P : Message → Type 0) where
  pub All-insert : (m : Message) (ms : List Message) → P m → All P ms → All P (insert m ms)
  unfolding insert
  All-insert m [] p a = (p, tt)
  All-insert m (n ∷ ms) p a = elim (Bool-cases (key_le m n)) [
    | inl e ↦ rw e (p, a)
    | inr e ↦ rw e (a.0, All-insert m ms p a.1)
  ]

  pub All-sort : (ms : List Message) → All P ms → All P (sort ms)
  unfolding sort
  All-sort [] a = tt
  All-sort (m ∷ ms) a = All-insert m (sort ms) a.0 (All-sort ms a.1)

  pub All-remove : (i : ℕ) (ms : List Message) → All P ms → All P (remove i ms)
  unfolding remove
  All-remove i [] a = tt
  All-remove i (m ∷ ms) a = elim (Bool-cases (m.message_id == i)) [
    | inl e ↦ rw e a.1
    | inr e ↦ rw e (a.0, All-remove i ms a.1)
  ]

  pub All-replace : (new : Message) (ms : List Message) → P new → All P ms → All P (replace new ms)
  unfolding replace
  All-replace new [] p a = tt
  All-replace new (m ∷ ms) p a = elim (Bool-cases (m.message_id == new.message_id)) [
    | inl e ↦ rw e (p, a.1)
    | inr e ↦ rw e (a.0, All-replace new ms p a.1)
  ]

  pub All-In : (m : Message) (ms : List Message) → All P ms → In m ms → P m
  All-In m [] a i = elim i [ ]
  All-In m (n ∷ ms) a (inl e) = rw e a.0
  All-In m (n ∷ ms) a (inr i) = All-In m ms a.1 i
