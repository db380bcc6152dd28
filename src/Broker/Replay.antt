-- ===== src/Broker/Replay.antt =====
-- What the replay buffer of the broker holds.
use ocean_data_engine_fronte.Prelude.{
  ℕ, suc, ◌≤◌, ◌≡◌, ◌⊎◌, refl, ap, ◌∙◌, sym, subst, inl, inr, List, [], ◌∷◌, ◌++◌, true, false,
  arith, length, length-append, leb, if◌then◌else◌, Bool-cases, leb→le,
}
use ocean_data_engine_fronte.Broker.Fanout.{
  AlertBroker, broker_init, without_first, push_recent, publish_event, subscribe, unsubscribe,
}
use ocean_data_engine_fronte.Broker.Received.{
  BrokerStep, published, joined, left, step, steps, events_of,
}

module _ {E : Type 0} where
  append_assoc3 : (xs ys zs : List E) → (xs ++ ys) ++ zs ≡ xs ++ (ys ++ zs)
  append_assoc3 [] ys zs = refl
  append_assoc3 (x ∷ xs) ys zs = ap (λ l. x ∷ l) (append_assoc3 xs ys zs)

  -- The buffer holds the end of a list: no more than `n` of it, and all of it or exactly `n`.
  abbrev pub Replays : ℕ → List E → List E → Type 0
  Replays n recent all =
      (dropped : List E) × (dropped ++ recent ≡ all)
      × (length recent ≤ n)
      × ((dropped ≡ []) ⊎ (length recent ≡ n))

  length-snoc : (xs : List E) (e : E) → length (xs ++ e ∷ []) ≡ suc (length xs)
  length-snoc xs e = omega (arith, length-append xs (e ∷ []))

  push-fits :
      (n : ℕ) (recent : List E) (e : E)
      → leb (length (recent ++ e ∷ [])) n ≡ true
      → push_recent n recent e ≡ recent ++ e ∷ []
  unfolding push_recent
  push-fits n recent e h =
      ap (λ b. if b then recent ++ e ∷ [] else without_first (recent ++ e ∷ [])) h

  push-drops :
      (n : ℕ) (recent : List E) (e : E)
      → leb (length (recent ++ e ∷ [])) n ≡ false
      → push_recent n recent e ≡ without_first (recent ++ e ∷ [])
  unfolding push_recent
  push-drops n recent e h =
      ap (λ b. if b then recent ++ e ∷ [] else without_first (recent ++ e ∷ [])) h

  dropped-Replays :
      (n : ℕ) (recent all : List E) (e : E)
      → length recent ≡ n
      → Replays n recent all
      → Replays n (without_first (recent ++ e ∷ [])) (all ++ e ∷ [])
  dropped-Replays n [] all e full (dropped, eq, le, d) = (
    dropped ++ e ∷ [],
    append_assoc3 dropped (e ∷ []) []
        ∙ (ap (λ l. l ++ e ∷ []) (sym (append_nil_r dropped)) ∙ ap (λ l. l ++ e ∷ []) eq),
    omega arith,
    inr full,
  )
    where
      append_nil_r : (xs : List E) → xs ++ [] ≡ xs
      append_nil_r [] = refl
      append_nil_r (x ∷ xs) = ap (λ l. x ∷ l) (append_nil_r xs)
  dropped-Replays n (x ∷ xs) all e full (dropped, eq, le, d) = (
    dropped ++ x ∷ [],
    append_assoc3 dropped (x ∷ []) (xs ++ e ∷ [])
        ∙ (sym (append_assoc3 dropped (x ∷ xs) (e ∷ [])) ∙ ap (λ l. l ++ e ∷ []) eq),
    omega (arith, length-snoc xs e, full),
    inr (omega (arith, length-snoc xs e, full)),
  )

  no_room :
      (n : ℕ) (recent : List E) (e : E) → length recent ≡ n → length (recent ++ e ∷ []) ≤ n → ⊥
  no_room n recent e full le = omega (arith, length-snoc recent e)

  push_recent-Replays :
      (n : ℕ) (recent all : List E) (e : E)
      → Replays n recent all
      → Replays n (push_recent n recent e) (all ++ e ∷ [])
  push_recent-Replays n recent all e (dropped, eq, le, d) =
      elim (Bool-cases (leb (length (recent ++ e ∷ [])) n)) [
        | inl h ↦
            let bound : length (recent ++ e ∷ []) ≤ n = leb→le _ _ h in
            subst (λ r. Replays n r (all ++ e ∷ [])) (sym (push-fits n recent e h))
              (
                dropped,
                sym (append_assoc3 dropped recent (e ∷ [])) ∙ ap (λ l. l ++ e ∷ []) eq,
                bound,
                elim d [ inl p ↦ inl p | inr q ↦ absurd (no_room n recent e q bound) ],
              )
        | inr h ↦
            subst (λ r. Replays n r (all ++ e ∷ [])) (sym (push-drops n recent e h))
              (dropped-Replays n recent all e (ground (arith, length-snoc recent e))
                (dropped, eq, le, d))
      ]

  append_end : (xs : List E) → xs ++ [] ≡ xs
  append_end [] = refl
  append_end (x ∷ xs) = ap (λ l. x ∷ l) (append_end xs)

  steps-Replays :
      (b : AlertBroker E) (rest : List (BrokerStep E)) (all : List E)
      → Replays b.replay b.recent all
      → Replays b.replay (steps b rest).recent (all ++ events_of rest)
  unfolding steps step publish_event subscribe unsubscribe
  steps-Replays b [] all h = subst (Replays b.replay b.recent) (sym (append_end all)) h
  steps-Replays b (published event ∷ rest) all h =
      subst (Replays b.replay (steps (publish_event b event) rest).recent)
        (append_assoc3 all (event ∷ []) (events_of rest))
        (steps-Replays (publish_event b event) rest (all ++ event ∷ [])
          (push_recent-Replays b.replay b.recent all event h))
  steps-Replays b (joined i ∷ rest) all h = steps-Replays (subscribe b i) rest all h
  steps-Replays b (left i ∷ rest) all h = steps-Replays (unsubscribe b i) rest all h

  -- At any time the replay buffer of a new broker holds the last events published, in their order: all of
  -- them, or exactly as many as the buffer takes.
  pub recent-Replays :
      (replay : ℕ) (rest : List (BrokerStep E))
      → Replays replay (steps (broker_init replay) rest).recent (events_of rest)
  recent-Replays replay rest =
      steps-Replays (broker_init replay) rest [] ([], refl, omega arith, inl refl)
