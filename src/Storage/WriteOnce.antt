-- ===== src/Storage/WriteOnce.antt =====
-- storage/raw_store.py: proofs on writing and reading `InMemoryRawStore`.
use ocean_data_engine_fronte.Prelude.{
  ◌≡◌, refl, sym, ap, ◌∙◌, inl, inr, String, Bool, true, false, Option, none, some, Bool-cases,
  if◌then◌else◌, if-elim,
}
use mathlib.Core.Bool.{false≢true}
use ocean_data_engine_fronte.Prelude.Text.{Text, text_eq}
use ocean_data_engine_fronte.Qc.Checks.{DateTime}
use ocean_data_engine_fronte.Storage.Lookup.{text_eq_refl, same_text, lookup-same, lookup-other}
use ocean_data_engine_fronte.Storage.RawStore.{
  Bytes, build_key, InMemoryRawStore, lookup, assign, is_present, exists, Read, key_error,
  integrity_error, read, add_object, put, get_object, get,
}

is_read : Read → Bool
is_read (read b) = true
is_read _ = false

key_error≢read : (b : Bytes) → key_error ≡ read b → ⊥
unfolding is_read
key_error≢read b h = false≢true (ap is_read h)

module _ (sha256 : Bytes → Text) (store : InMemoryRawStore) (provider dataset : Text)
    (content : Bytes) (ext : Text) (media : Option String) (when : DateTime) where
  abbrev pub key_of : Text
  key_of = build_key provider dataset (sha256 content) ext

  abbrev pub after_put : InMemoryRawStore
  after_put = (put sha256 store provider dataset content ext media when).0

  put-cases :
      (P : InMemoryRawStore → Type 0)
      → (exists store key_of ≡ true → P store)
      → (exists store key_of ≡ false → P (add_object sha256 store key_of content media))
      → P after_put
  unfolding put
  put-cases P h k = if-elim P (exists store key_of) h k

  readable :
      (k : Text) (o : Option Bytes) (m : Option (Text × Option String)) (bytes : Bytes)
      → get_object sha256 o m ≡ read bytes
      → (b : Bytes) × (o ≡ some b)
  readable k none m bytes h = absurd (key_error≢read bytes h)
  readable k (some b) m bytes h = (b, refl)

  -- another key than one that is free
  not_key :
      (k : Text) (b : Bytes)
      → exists store key_of ≡ false
      → lookup k store.objects ≡ some b
      → text_eq key_of k ≡ false
  unfolding exists
  not_key k b e h = elim (Bool-cases (text_eq key_of k)) [
    | inl d ↦ absurd (
        false≢true (
          sym e
          ∙ (ap (λ t. is_present (lookup t store.objects)) (same_text key_of k d)
              ∙ ap is_present h)))
    | inr d ↦ d
  ]

  -- What can be read at any key is read there still after a write, to whatever key it went.
  pub get-put :
      (k : Text) (bytes : Bytes)
      → get sha256 store k ≡ read bytes
      → get sha256 after_put k ≡ read bytes
  unfolding get
  get-put k bytes h =
      let found = readable k (lookup k store.objects) (lookup k store.meta) bytes h in
      put-cases (λ s. get sha256 s k ≡ read bytes) (λ e. h)
        (λ e.
          let d = not_key k found.0 e found.1 in
          ap
            (λ o. get_object sha256 o (lookup k (assign key_of (sha256 content, media) store.meta)))
            (lookup-other k key_of content store.objects d)
          ∙ (ap (get_object sha256 (lookup k store.objects))
                (lookup-other k key_of (sha256 content, media) store.meta d)
              ∙ h))

  -- After a write to a key that was free, the written bytes are read back from it.
  written : get sha256 (add_object sha256 store key_of content media) key_of ≡ read content
  unfolding get
  written =
      ap
        (λ q.
          get_object sha256 q (lookup key_of (assign key_of (sha256 content, media) store.meta)))
        (lookup-same key_of content store.objects)
      ∙ (ap (get_object sha256 (some content))
            (lookup-same key_of (sha256 content, media) store.meta)
          ∙ ap (λ b. if b then read content else integrity_error) (text_eq_refl (sha256 content)))

  present : exists (add_object sha256 store key_of content media) key_of ≡ true
  unfolding exists
  present = ap is_present (lookup-same key_of content store.objects)

  exists-after : exists after_put key_of ≡ true
  exists-after = put-cases (λ s. exists s key_of ≡ true) (λ e. e) (λ e. present)

  -- A payload whose key was free is read back as it was written; and a second write of the same payload, whatever its
  -- media type and date, changes nothing and says that the object was there.
  pub put-get :
      (media_again : Option String) (when_again : DateTime)
      → exists store key_of ≡ false
      → let again = put sha256 after_put provider dataset content ext media_again when_again in
        (get sha256 after_put key_of ≡ read content)
        × (again.0 ≡ after_put)
        × (again.1.already_existed ≡ true)
  unfolding put
  put-get media_again when_again e = (
    ap (λ b. get sha256 (if b then store else add_object sha256 store key_of content media) key_of)
          e
        ∙ written,
    ap (λ b. if b then after_put else add_object sha256 after_put key_of content media_again)
        exists-after,
    exists-after,
  )
