-- ===== src/Units/Contract.antt =====
-- domain/unit_labels.py: proofs on `canonical_unit` and `require_unit`.
use ocean_data_engine_fronte.Prelude.{
  ◌≡◌, refl, sym, ap, ◌∙◌, subst, inl, inr, String, List, [], ◌∷◌, true, Option, none, some, All,
  Bool-cases, if◌then◌else◌,
}
use mathlib.Core.Option.{none-ne-some, some-injective}
use ocean_data_engine_fronte.Prelude.Text.{Text, codes, text_eq, strip, lower}
use ocean_data_engine_fronte.Units.Labels.{
  synonyms, among, find_unit, canonical_unit, Required, unknown_unit, contract_violated, required,
  meets_contract, require_unit,
}

-- what is found is a unit of the table
found_unit :
    (P : Text → Type 0) (key : Text) (rows : List (String × List String)) (c : Text)
    → All (λ row. P (codes row.0)) rows
    → find_unit key rows ≡ some c
    → P c
unfolding find_unit
found_unit P key [] c h e = absurd (none-ne-some c e)
found_unit P key ((canon, names) ∷ rows) c h e = elim (Bool-cases (among key names)) [
  | inl k ↦
      subst P
        (some-injective (codes canon) c
          (sym (ap (λ b. if b then some (codes canon) else find_unit key rows) k) ∙ e))
        h.0
  | inr k ↦
      found_unit P key rows c h.1
        (sym (ap (λ b. if b then some (codes canon) else find_unit key rows) k) ∙ e)
]

abbrev Settled : Text → Type 0
Settled c = canonical_unit (some c) ≡ some c

synonyms-Settled : All (λ row. Settled (codes row.0)) synonyms
unfolding canonical_unit strip lower
synonyms-Settled = (
  refl,
  (refl, (refl, (refl, (refl, (refl, (refl, (refl, (refl, (refl, (refl, (refl, tt))))))))))),
)

-- The canonical unit of a label is its own canonical unit.
pub canonical_unit-canonical_unit :
    (label : Option Text) (c : Text)
    → canonical_unit label ≡ some c
    → canonical_unit (some c) ≡ some c
unfolding canonical_unit
canonical_unit-canonical_unit none c e = absurd (none-ne-some c e)
canonical_unit-canonical_unit (some label) c e =
    found_unit Settled (lower (strip label)) synonyms c synonyms-Settled e

is_required : Required → Option Text
is_required unknown_unit = none
is_required (contract_violated c) = none
is_required (required c) = some c

accepted_unit :
    (want : Text) (o : Option Text) (c : Text)
    → meets_contract want o ≡ required c
    → (o ≡ some c) × (text_eq c want ≡ true)
unfolding is_required
accepted_unit want none c e = absurd (none-ne-some c (ap is_required e))
accepted_unit want (some r) c e = elim (Bool-cases (text_eq r want)) [
  | inl k ↦
      let same =
        some-injective r c
          (ap is_required (sym (ap (λ b. if b then required r else contract_violated r) k) ∙ e)) in
      (ap some same, subst (λ t. text_eq t want ≡ true) same k)
  | inr k ↦ absurd (
      none-ne-some c
        (ap is_required (sym (ap (λ b. if b then required r else contract_violated r) k) ∙ e)))
]

-- A label that is accepted for an expected unit resolves to exactly that unit, and the unit's own name is accepted
-- in its place with the same result.
pub require_unit_lem :
    (label : Option Text) (expected c : Text)
    → require_unit label expected ≡ required c
    → (canonical_unit label ≡ some c)
      × (text_eq c (lower (strip expected)) ≡ true)
      × (require_unit (some c) expected ≡ required c)
unfolding require_unit
require_unit_lem label expected c e =
    let want = lower (strip expected) in
    let h = accepted_unit want (canonical_unit label) c e in
    let again = canonical_unit-canonical_unit label c h.0 in
    (
      h.0,
      h.1,
      ap (meets_contract want) again ∙ ap (λ b. if b then required c else contract_violated c) h.1,
    )
