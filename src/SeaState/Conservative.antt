-- ===== src/SeaState/Conservative.antt =====
-- The band of a categorical sea state covers every term that the bulletin named.
use ocean_data_engine_fronte.Prelude.{
  ℕ, ◌≡◌, refl, ◌⊎◌, inl, inr, sym, subst, List, [], ◌∷◌, true, false, some, arith, is_empty,
  Bool-cases, Option-cases, In, All,
}
use mathlib.Core.Option.{none-ne-some}
use ocean_data_engine_fronte.Prelude.Text.{Text}
use ocean_data_engine_fronte.Prelude.Float.{Float, IsIeee}
use ocean_data_engine_fronte.SeaState.Parse.{
  SeaStateBand, term_to_code, collapse, normalise, split_span, codes_of, insert_code, sorted_set,
  lower_bound, upper_bound, min_of, max_of, band_of, parse_parts, parse_category,
  parse_sea_state_category,
}

In-insert_code : (x c : ℕ) (ds : List ℕ) → (x ≡ c) ⊎ In x ds → In x (insert_code c ds)
unfolding insert_code
In-insert_code x c [] h = h
In-insert_code x c (d ∷ ds) (inl p) = ground (arith, In-insert_code x c ds (inl p))
In-insert_code x c (d ∷ ds) (inr (inl p)) = ground arith
In-insert_code x c (d ∷ ds) (inr (inr i)) = ground (arith, In-insert_code x c ds (inr i))

In-sorted_set : (x : ℕ) (cs : List ℕ) → In x cs → In x (sorted_set cs)
unfolding sorted_set
In-sorted_set x [] i = elim i [ ]
In-sorted_set x (c ∷ cs) (inl p) = In-insert_code x c (sorted_set cs) (inl p)
In-sorted_set x (c ∷ cs) (inr i) = In-insert_code x c (sorted_set cs) (inr (In-sorted_set x cs i))

-- A part has a code, and the code is among the given ones.
abbrev HasCode : List ℕ → Text → Type 0
HasCode cs p = (c : ℕ) × (term_to_code p ≡ some c) × In c cs

HasCode-later :
    (d : ℕ) (cs : List ℕ) (ps : List Text) → All (HasCode cs) ps → All (HasCode (d ∷ cs)) ps
HasCode-later d cs [] a = tt
HasCode-later d cs (p ∷ ps) ((c, e, i), a) = ((c, e, inr i), HasCode-later d cs ps a)

codes_of-HasCode : (ps : List Text) (cs : List ℕ) → codes_of ps ≡ some cs → All (HasCode cs) ps
unfolding codes_of
codes_of-HasCode [] cs h = tt
codes_of-HasCode (p ∷ ps) cs h = elim (Option-cases (term_to_code p)) [
  | inl e ↦ absurd (none-ne-some cs (rw (e, codes_of) at h))
  | inr (c, e) ↦ elim (Option-cases (codes_of ps)) [
    | inl k ↦ cc
    | inr (ds, k) ↦
        let q : cs ≡ c ∷ ds = ground arith in
        subst (λ l. All (HasCode l) (p ∷ ps)) (sym q)
          ((c, e, inl refl), HasCode-later c ds ps (codes_of-HasCode ps ds k))
  ]
]

-- what the sorted codes keep
HasCode-sorted :
    (cs : List ℕ) (ps : List Text) → All (HasCode cs) ps → All (HasCode (sorted_set cs)) ps
HasCode-sorted cs [] a = tt
HasCode-sorted cs (p ∷ ps) ((c, e, i), a) = ((c, e, In-sorted_set c cs i), HasCode-sorted cs ps a)

module _ {W : Type 0} ⦃f : Float W⦄ (law : IsIeee W) where
  -- The term is in the vocabulary and its published bounds lie within the band.
  abbrev pub Covers : SeaStateBand W → Text → Type 0
  Covers b p =
      (c : ℕ) × (term_to_code p ≡ some c)
      × (f.le (upper_bound c) b.max_height_m ≡ true)
      × (f.le b.min_height_m (lower_bound c) ≡ true)

  hundredths_refl : (n : ℕ) → f.le (f.lit n 100) (f.lit n 100) ≡ true
  hundredths_refl n = law.le_refl _ (law.isnan-lit n 100)

  not_lt_le :
      (n m : ℕ) → f.lt (f.lit n 100) (f.lit m 100) ≡ false → f.le (f.lit m 100) (f.lit n 100) ≡ true
  not_lt_le n m h = ground (
    arith,
    law.lt-eq-not-le (f.lit n 100) (f.lit m 100),
    law.isnan-lit n 100,
    law.isnan-lit m 100,
  )

  max_of-ge : (d : ℕ) (cs : List ℕ) → f.le (upper_bound d) (max_of (upper_bound d) cs) ≡ true
  unfolding max_of
  max_of-ge d [] = hundredths_refl _
  max_of-ge d (c ∷ cs) = elim (Bool-cases (f.lt (upper_bound d) (upper_bound c))) [
    | inl e ↦ rw e (law.le_trans _ _ _ (law.lt_le _ _ e) (max_of-ge c cs))
    | inr e ↦ rw e (max_of-ge d cs)
  ]

  max_of-In :
      (d c : ℕ) (cs : List ℕ) → In c cs → f.le (upper_bound c) (max_of (upper_bound d) cs) ≡ true
  unfolding max_of
  max_of-In d c [] i = elim i [ ]
  max_of-In d c (x ∷ cs) (inl p) = elim (Bool-cases (f.lt (upper_bound d) (upper_bound x))) [
    | inl e ↦ rw (p, e) (max_of-ge x cs)
    | inr e ↦ rw (p, e) (law.le_trans _ _ _ (not_lt_le _ _ e) (max_of-ge d cs))
  ]
  max_of-In d c (x ∷ cs) (inr i) = elim (Bool-cases (f.lt (upper_bound d) (upper_bound x))) [
    | inl e ↦ rw e (max_of-In x c cs i)
    | inr e ↦ rw e (max_of-In d c cs i)
  ]

  min_of-le : (d : ℕ) (cs : List ℕ) → f.le (min_of (lower_bound d) cs) (lower_bound d) ≡ true
  unfolding min_of
  min_of-le d [] = hundredths_refl _
  min_of-le d (c ∷ cs) = elim (Bool-cases (f.lt (lower_bound c) (lower_bound d))) [
    | inl e ↦ rw e (law.le_trans _ _ _ (min_of-le c cs) (law.lt_le _ _ e))
    | inr e ↦ rw e (min_of-le d cs)
  ]

  min_of-In :
      (d c : ℕ) (cs : List ℕ) → In c cs → f.le (min_of (lower_bound d) cs) (lower_bound c) ≡ true
  unfolding min_of
  min_of-In d c [] i = elim i [ ]
  min_of-In d c (x ∷ cs) (inl p) = elim (Bool-cases (f.lt (lower_bound x) (lower_bound d))) [
    | inl e ↦ rw (p, e) (min_of-le x cs)
    | inr e ↦ rw (p, e) (law.le_trans _ _ _ (min_of-le d cs) (not_lt_le _ _ e))
  ]
  min_of-In d c (x ∷ cs) (inr i) = elim (Bool-cases (f.lt (lower_bound x) (lower_bound d))) [
    | inl e ↦ rw e (min_of-In x c cs i)
    | inr e ↦ rw e (min_of-In d c cs i)
  ]

  band_of-Covers :
      (category n : Text) (ds : List ℕ) (b : SeaStateBand W) (ps : List Text)
      → band_of category n ds ≡ some b
      → All (HasCode ds) ps
      → All (Covers b) ps
  unfolding band_of
  band_of-Covers category n [] b ps h a = cc
  band_of-Covers category n (d ∷ ds) b [] h a = tt
  band_of-Covers category n (d ∷ ds) b (p ∷ ps) h ((c, e, inl q), a) =
      let up : b.max_height_m ≡ max_of (upper_bound d) ds = ground arith in
      let down : b.min_height_m ≡ min_of (lower_bound d) ds = ground arith in
      (
        (c, e, rw (up, q) (max_of-ge d ds), rw (down, q) (min_of-le d ds)),
        band_of-Covers category n (d ∷ ds) b ps h a,
      )
  band_of-Covers category n (d ∷ ds) b (p ∷ ps) h ((c, e, inr i), a) =
      let up : b.max_height_m ≡ max_of (upper_bound d) ds = ground arith in
      let down : b.min_height_m ≡ min_of (lower_bound d) ds = ground arith in
      (
        (c, e, rw up (max_of-In d c ds i), rw down (min_of-In d c ds i)),
        band_of-Covers category n (d ∷ ds) b ps h a,
      )

  parse_parts-Covers :
      (category n : Text) (b : SeaStateBand W)
      → parse_parts category n ≡ some b
      → All (Covers b) (split_span n)
  parse_parts-Covers category n b h = elim (Option-cases (codes_of (split_span n))) [
    | inl e ↦ absurd (none-ne-some b (rw (e, parse_parts) at h))
    | inr (cs, e) ↦
        band_of-Covers category n (sorted_set cs) b (split_span n) (rw (e, parse_parts) at h)
          (HasCode-sorted cs (split_span n) (codes_of-HasCode (split_span n) cs e))
  ]

  parse_category-Covers :
      (category : Text) (b : SeaStateBand W)
      → parse_category category ≡ some b
      → All (Covers b) (split_span (normalise category))
  parse_category-Covers category b h = elim (Bool-cases (is_empty category)) [
    | inl e ↦ absurd (none-ne-some b (rw e at h))
    | inr e ↦ elim (Bool-cases (is_empty (normalise category))) [
      | inl k ↦ absurd (none-ne-some b (rw (e, k) at h))
      | inr k ↦ parse_parts-Covers category (normalise category) b (rw (e, k) at h)
    ]
  ]

  -- Where a term is accepted, every part that it spans is in the verified vocabulary, the height used
  -- for decisions is at least the upper bound published for each part, and the lower bound of the
  -- band is at most each part's. The numbers meet the laws of IEEE 754.
  pub parse_sea_state_category-Covers :
      (term : Text) (b : SeaStateBand W)
      → parse_sea_state_category (some term) ≡ some b
      → All (Covers b) (split_span (normalise (collapse term)))
  unfolding parse_sea_state_category
  parse_sea_state_category-Covers term b h = parse_category-Covers (collapse term) b h
