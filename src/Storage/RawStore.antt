-- ===== src/Storage/RawStore.antt =====
-- storage/raw_store.py: `build_key` and `InMemoryRawStore`. A checksum is hashlib's hex digest, a parameter.
-- A `dict` is a list of its items in the order of insertion.
use ocean_data_engine_fronte.Prelude.{
  ℕ, zero, suc, String, List, [], ◌∷◌, ◌++◌, Bool, true, false, Option, none, some, length, ◌==◌,
  if◌then◌else◌,
}
use ocean_data_engine_fronte.Prelude.Text.{Text, codes, text_eq, lower, lstrip}
use ocean_data_engine_fronte.Qc.Checks.{DateTime}

abbrev pub Bytes : Type 0
Bytes = List ℕ

-- text[:n] and text[n:]
abbrev pub take : ℕ → Text → Text
take zero text = []
take (suc n) [] = []
take (suc n) (c ∷ text) = c ∷ take n text

abbrev pub drop : ℕ → Text → Text
drop zero text = text
drop (suc n) [] = []
drop (suc n) (c ∷ text) = drop n text

-- by the prefix of the checksum; the date is not used
unfoldable pub build_key : Text → Text → Text → Text → Text
build_key provider dataset checksum ext =
    lower provider
    ++ b'/'
      ∷ (lower dataset
          ++ b'/'
            ∷ (take 2 checksum
                ++ b'/'
                  ∷ (take 2 (drop 2 checksum)
                      ++ b'/' ∷ (checksum ++ b'.' ∷ lstrip (λ c. c == b'.') ext))))

pub record StoredObject : Type 0 where
  pub uri : Text
  pub key : Text
  pub bucket : Text
  pub checksum_sha256 : Text
  pub size_bytes : ℕ
  pub media_type : Option String
  pub retrieved_at : DateTime
  pub already_existed : Bool

pub record InMemoryRawStore : Type 0 where
  pub bucket : Text
  pub objects : List (Text × Bytes)
  -- the checksum and the media type of each object
  pub meta : List (Text × (Text × Option String))

unfoldable pub lookup : {A : Type 0} → Text → List (Text × A) → Option A
lookup key [] = none
lookup key ((k, v) ∷ items) = let rest = lookup key items in if text_eq k key then some v else rest

-- items[key] = v: in the place of the item that has the key, or at the end
unfoldable pub assign : {A : Type 0} → Text → A → List (Text × A) → List (Text × A)
assign key v [] = (key, v) ∷ []
assign key v ((k, w) ∷ items) =
    let rest = assign key v items in if text_eq k key then (k, v) ∷ items else (k, w) ∷ rest

abbrev pub is_present : {A : Type 0} → Option A → Bool
is_present none = false
is_present (some v) = true

unfoldable pub exists : InMemoryRawStore → Text → Bool
exists store key = is_present (lookup key store.objects)

-- a read: the KeyError of an unknown key, the RuntimeError of a failed integrity check, or the bytes
pub data Read : Type 0 where
  key_error integrity_error : Read
  read : Bytes → Read

module _ (sha256 : Bytes → Text) where
  abbrev pub stored_object :
      InMemoryRawStore → Text → Bytes → Option String → DateTime → Bool → StoredObject
  stored_object store key content media_type when already = record {
    uri = codes "s3://" ++ (store.bucket ++ b'/' ∷ key);
    key = key;
    bucket = store.bucket;
    checksum_sha256 = sha256 content;
    size_bytes = length content;
    media_type = media_type;
    retrieved_at = when;
    already_existed = already;
  }

  abbrev pub add_object : InMemoryRawStore → Text → Bytes → Option String → InMemoryRawStore
  add_object store key content media_type = record store {
    objects = assign key content store.objects;
    meta = assign key (sha256 content, media_type) store.meta;
  }

  unfoldable pub put :
      InMemoryRawStore
      → Text
      → Text
      → Bytes
      → Text
      → Option String
      → DateTime
      → InMemoryRawStore × StoredObject
  unfolding build_key exists
  put store provider dataset content ext media_type when =
      let key = build_key provider dataset (sha256 content) ext in
      let already = exists store key in
      (
        if already then store else add_object store key content media_type,
        stored_object store key content media_type when already,
      )

  -- the bytes are returned unless a checksum was recorded and differs
  abbrev pub checked : Bytes → Option (Text × Option String) → Read
  checked content none = read content
  checked content (some (expected, media_type)) =
      if text_eq (sha256 content) expected then read content else integrity_error

  abbrev pub get_object : Option Bytes → Option (Text × Option String) → Read
  get_object none recorded = key_error
  get_object (some content) recorded = checked content recorded

  unfoldable pub get : InMemoryRawStore → Text → Read
  unfolding lookup
  get store key = get_object (lookup key store.objects) (lookup key store.meta)
