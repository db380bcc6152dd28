-- ===== src/Storage/Lookup.antt =====
-- Looking up a key in the items of a `dict` of storage/raw_store.py, before and after an assignment.
use ocean_data_engine_fronte.Prelude.{
  ◌≡◌, refl, sym, ap, ◌∙◌, subst, inl, inr, List, [], ◌∷◌, Bool, true, false, some, ◌&&◌, ◌==◌,
  arith, Bool-cases, if◌then◌else◌,
}
use mathlib.Core.Bool.{false≢true}
use ocean_data_engine_fronte.Prelude.Text.{Text, text_eq}
use ocean_data_engine_fronte.Storage.RawStore.{lookup, assign}

pub text_eq_refl : (s : Text) → text_eq s s ≡ true
text_eq_refl [] = refl
text_eq_refl (c ∷ s) = let ih = text_eq_refl s in ground (arith, ih)

pub same_text : (a b : Text) → text_eq a b ≡ true → a ≡ b
same_text [] [] h = refl
same_text [] (d ∷ b) h = absurd (false≢true h)
same_text (c ∷ a) [] h = absurd (false≢true h)
same_text (c ∷ a) (d ∷ b) h = elim (Bool-cases (c == d)) [
  | inl e ↦
      let same : c ≡ d = ground arith in
      λ i. same i ∷ same_text a b (sym (ap (λ x. x && text_eq a b) e) ∙ h) i
  | inr e ↦ absurd (false≢true (sym (ap (λ x. x && text_eq a b) e) ∙ h))
]

-- a text that is not `j` is not `k` where `k` is `j`
apart : (j key k : Text) → text_eq j key ≡ false → text_eq j k ≡ true → text_eq key k ≡ false
apart j key k h e = elim (Bool-cases (text_eq key k)) [
  | inl d ↦ absurd (false≢true (sym h ∙ (ap (text_eq j) (same_text key k d) ∙ e)))
  | inr d ↦ d
]

branch_fixed :
    {A : Type 0} (b c : Bool) (x y z : A)
    → (b ≡ true → c ≡ false)
    → (if b then x else if c then y else z) ≡ (if c then y else if b then x else z)
branch_fixed true c x y z h = rw (h refl) refl
branch_fixed false c x y z h = refl

branch_same :
    {A : Type 0} (b : Bool) (x y z : A)
    → (if b then x else z) ≡ (if b then x else if b then y else z)
branch_same true x y z = refl
branch_same false x y z = refl

module _ {A : Type 0} where
  -- what an assignment leaves at each key
  pub lookup-assign :
      (k key : Text) (v : A) (items : List (Text × A))
      → lookup k (assign key v items) ≡ (if text_eq key k then some v else lookup k items)
  unfolding lookup assign
  lookup-assign k key v [] = refl
  lookup-assign k key v ((j, w) ∷ items) = elim (Bool-cases (text_eq j key)) [
    | inl e ↦
        ap (λ b. lookup k (if b then (j, v) ∷ items else (j, w) ∷ assign key v items)) e
        ∙ subst
            (λ t.
              (if text_eq j k then some v else lookup k items)
              ≡ (if text_eq t k then some v else if text_eq j k then some w else lookup k items))
            (same_text j key e) (branch_same (text_eq j k) (some v) (some w) (lookup k items))
    | inr e ↦
        ap (λ b. lookup k (if b then (j, v) ∷ items else (j, w) ∷ assign key v items)) e
        ∙ (ap (λ o. if text_eq j k then some w else o) (lookup-assign k key v items)
            ∙ branch_fixed (text_eq j k) (text_eq key k) (some w) (some v) (lookup k items)
                (apart j key k e))
  ]

  pub lookup-same :
      (key : Text) (v : A) (items : List (Text × A)) → lookup key (assign key v items) ≡ some v
  lookup-same key v items =
      lookup-assign key key v items
      ∙ ap (λ b. if b then some v else lookup key items) (text_eq_refl key)

  pub lookup-other :
      (k key : Text) (v : A) (items : List (Text × A))
      → text_eq key k ≡ false
      → lookup k (assign key v items) ≡ lookup k items
  lookup-other k key v items h =
      lookup-assign k key v items ∙ ap (λ b. if b then some v else lookup k items) h
