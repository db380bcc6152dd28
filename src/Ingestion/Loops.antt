-- ===== src/Ingestion/Loops.antt =====
-- What a loop over records keeps, adds and reaches, from what its body does.
use ocean_data_engine_fronte.Prelude.{ℕ, suc, ◌+◌, ◌≡◌, List, [], ◌∷◌, length, All, arith}
use ocean_data_engine_fronte.Ingestion.Run.{for_each}

module _ {A S : Type 0} (f : A → S → S) where
  -- each turn adds one to a measure
  pub for_each-adds :
      (m : S → ℕ)
      → ((a : A) (s : S) → m (f a s) ≡ suc (m s))
      → (xs : List A) (s : S) → m (for_each f xs s) ≡ length xs + m s
  unfolding for_each
  for_each-adds m h [] s = omega arith
  for_each-adds m h (x ∷ xs) s = omega (arith, for_each-adds m h xs (f x s), h x s)

  pub for_each-keeps :
      (P : S → Type 0)
      → ((a : A) (s : S) → P s → P (f a s))
      → (xs : List A) (s : S) → P s
      → P (for_each f xs s)
  unfolding for_each
  for_each-keeps P h [] s k = k
  for_each-keeps P h (x ∷ xs) s k = for_each-keeps P h xs (f x s) (h x s k)

  -- What a turn reaches for its own record, and the turns after it keep, holds of all records at the end.
  pub for_each-reaches :
      (Q : A → S → Type 0)
      → ((a b : A) (s : S) → Q a s → Q a (f b s))
      → ((a : A) (s : S) → Q a (f a s))
      → (xs : List A) (s : S) → All (λ a. Q a (for_each f xs s)) xs
  unfolding for_each
  for_each-reaches Q keeps reach [] s = tt
  for_each-reaches Q keeps reach (x ∷ xs) s = (
    for_each-keeps (Q x) (keeps x) xs (f x s) (reach x s),
    for_each-reaches Q keeps reach xs (f x s),
  )

  -- A property that a turn keeps when its record satisfies `Q`, which may rest on the property.
  pub for_each-keeps_if :
      (Q : A → Type 0) (P : S → Type 0)
      → ((a : A) (s : S) → Q a → P s → P (f a s))
      → (xs : List A) (s : S) → All Q xs
      → P s
      → P (for_each f xs s)
  unfolding for_each
  for_each-keeps_if Q P h [] s q k = k
  for_each-keeps_if Q P h (x ∷ xs) s q k = for_each-keeps_if Q P h xs (f x s) q.1 (h x s q.0 k)

pub All-map :
    {A : Type 0} (P Q : A → Type 0) (xs : List A) → ((a : A) → P a → Q a) → All P xs → All Q xs
All-map P Q [] h k = tt
All-map P Q (x ∷ xs) h k = (h x k.0, All-map P Q xs h k.1)
