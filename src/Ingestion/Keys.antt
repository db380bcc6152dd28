-- ===== src/Ingestion/Keys.antt =====
-- domain/idempotency.py. The hash, `isoformat` and `str` of a float are Python's and are parameters.
use ocean_data_engine_fronte.Prelude.{String, List, [], ◌∷◌, ◌++◌, Option, none, some, map}
use ocean_data_engine_fronte.Prelude.Text.{Text, codes}
use ocean_data_engine_fronte.Qc.Checks.{DateTime}

pub data Part (W : Type 0) : Type 0 where
  missing : Part W
  instant : DateTime → Part W
  word : String → Part W
  number : W → Part W

pub record Format (W : Type 0) : Type 0 where
  -- hashlib.sha256(text.encode("utf-8")).hexdigest()
  pub sha256 : Text → String
  pub isoformat : DateTime → String
  -- str(x)
  pub float_str : W → String

abbrev pub word_of : {W : Type 0} → Option String → Part W
word_of none = missing
word_of (some s) = word s

abbrev pub instant_of : {W : Type 0} → Option DateTime → Part W
instant_of none = missing
instant_of (some t) = instant t

abbrev pub number_of : {W : Type 0} → Option W → Part W
number_of none = missing
number_of (some x) = number x

-- "|".join(parts)
unfoldable pub join_parts : List Text → Text
join_parts [] = []
join_parts (p ∷ []) = p
join_parts (p ∷ q ∷ parts) = p ++ b'|' ∷ join_parts (q ∷ parts)

module _ {W : Type 0} (python : Format W) where
  abbrev pub norm : Part W → Text
  norm missing = []
  norm (instant t) = codes (python.isoformat t)
  norm (word s) = codes s
  norm (number x) = codes (python.float_str x)

  unfoldable pub make_idempotency_key : List (Part W) → String
  unfolding join_parts
  make_idempotency_key parts = python.sha256 (join_parts (map norm parts))
