-- ===== src/Ingestion/Split.antt =====
-- domain/idempotency.py: when the parts of a key can be told from the text that is hashed.
use ocean_data_engine_fronte.Prelude.{
  ◌≡◌, sym, ap, ◌∙◌, List, [], ◌∷◌, ◌++◌, map, Bool, true, false, ◌&&◌, ◌||◌, any, All, arith, ◌==◌,
  if◌then◌else◌,
}
use mathlib.Core.List.{append-nil, append_assoc}
use ocean_data_engine_fronte.Prelude.Text.{Text, split_sep, split_sep_from}
use ocean_data_engine_fronte.Ingestion.Keys.{Format, Part, norm, join_parts, make_idempotency_key}

abbrev bar : Text
bar = b'|' ∷ []

abbrev pub has_bar : Text → Bool
has_bar text = any (λ c. c == b'|') text

no_head : (a b : Bool) → (a || b) ≡ false → a ≡ false
no_head a b h = ground arith

no_tail : (a b : Bool) → (a || b) ≡ false → b ≡ false
no_tail a b h = ground arith

-- a part without a separator is read to its end
split-part :
    (part text rest : Text)
    → has_bar text ≡ false
    → split_sep_from bar part 0 (text ++ rest) ≡ split_sep_from bar (part ++ text) 0 rest
split-part part [] rest h = ap (λ p. split_sep_from bar p 0 rest) (sym (append-nil part))
split-part part (c ∷ text) rest h =
    let e = no_head (c == b'|') (has_bar text) h in
    let cut = part ∷ split_sep_from bar [] 0 (text ++ rest) in
    let on = split_sep_from bar (part ++ c ∷ []) 0 (text ++ rest) in
    ap (λ b. if b && true then cut else on) e
    ∙ (split-part (part ++ c ∷ []) text rest (no_tail (c == b'|') (has_bar text) h)
        ∙ ap (λ p. split_sep_from bar p 0 rest) (append_assoc part (c ∷ []) text))

split-last : (text : Text) → has_bar text ≡ false → split_sep_from bar [] 0 text ≡ text ∷ []
split-last text h = ap (split_sep_from bar [] 0) (sym (append-nil text)) ∙ split-part [] text [] h

split-join_parts :
    (text : Text) (texts : List Text)
    → has_bar text ≡ false
    → All (λ t. has_bar t ≡ false) texts
    → split_sep_from bar [] 0 (join_parts (text ∷ texts)) ≡ text ∷ texts
unfolding join_parts
split-join_parts text [] h k = split-last text h
split-join_parts text (t ∷ texts) h k =
    split-part [] text (b'|' ∷ join_parts (t ∷ texts)) h
    ∙ ap (λ rest. text ∷ rest) (split-join_parts t texts k.0 k.1)

-- A part whose text has no separator.
abbrev pub IsPlain : {W : Type 0} → Format W → Part W → Type 0
IsPlain python part = has_bar (norm python part) ≡ false

module _ {W : Type 0} (python : Format W) where
  -- the texts of the parts, at least one
  abbrev pub texts_of : List (Part W) → List Text
  texts_of parts = map (norm python) parts

  All-texts :
      (parts : List (Part W))
      → All (IsPlain python) parts
      → All (λ t. has_bar t ≡ false) (texts_of parts)
  All-texts [] h = tt
  All-texts (p ∷ parts) h = (h.0, All-texts parts h.1)

  -- The text that is hashed into a key gives the texts of its parts back when it is split at the separator, if no
  -- part contains the separator and there is a part.
  split-parts :
      (p : Part W) (parts : List (Part W))
      → All (IsPlain python) (p ∷ parts)
      → split_sep bar (join_parts (texts_of (p ∷ parts))) ≡ texts_of (p ∷ parts)
  unfolding split_sep
  split-parts p parts h =
      split-join_parts (norm python p) (texts_of parts) h.0 (All-texts parts h.1)

  -- Two keys are equal only when the parts have the same texts, if no part contains the separator and the
  -- hashes of the two texts do not collide.
  pub make_idempotency_key-inj :
      (p q : Part W) (parts others : List (Part W))
      → All (IsPlain python) (p ∷ parts)
      → All (IsPlain python) (q ∷ others)
      → (let s = join_parts (texts_of (p ∷ parts)) in
          let t = join_parts (texts_of (q ∷ others)) in python.sha256 s ≡ python.sha256 t → s ≡ t)
      → make_idempotency_key python (p ∷ parts) ≡ make_idempotency_key python (q ∷ others)
      → texts_of (p ∷ parts) ≡ texts_of (q ∷ others)
  unfolding make_idempotency_key
  make_idempotency_key-inj p q parts others h k collision_free e =
      sym (split-parts p parts h) ∙ (ap (split_sep bar) (collision_free e) ∙ split-parts q others k)
