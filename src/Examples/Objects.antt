-- ===== src/Examples/Objects.antt =====
-- The store of raw payloads at concrete values.
use ocean_data_engine_fronte.Prelude.{◌≡◌, refl, [], true, none, some}
use ocean_data_engine_fronte.Prelude.Text.{Text, codes}
use ocean_data_engine_fronte.Qc.Checks.{aware}
use ocean_data_engine_fronte.Storage.RawStore.{
  Bytes, InMemoryRawStore, lookup, exists, read, get, put,
}
use ocean_data_engine_fronte.Storage.WriteOnce.{key_of, after_put, get-put, put-get}

-- the bytes themselves, in place of a hash
abbrev digest : Bytes → Text
digest content = content

abbrev nothing : InMemoryRawStore
nothing = record { bucket = codes "marine-raw"; objects = []; meta = [] }

abbrev imd : Text
imd = codes "IMD"

abbrev bulletin : Bytes
bulletin = codes "a1b2c3"

abbrev one_bulletin : InMemoryRawStore
one_bulletin = after_put digest nothing imd imd bulletin (codes ".xml") none (aware 5)

put-get_example :
    (get digest
        (after_put digest nothing imd imd bulletin (codes ".xml") none (aware 5))
        (key_of digest nothing imd imd bulletin (codes ".xml") none (aware 5))
      ≡ read bulletin)
    × ((put digest
          (after_put digest nothing imd imd bulletin (codes ".xml") none (aware 5))
          imd
          imd
          bulletin
          (codes ".xml")
          (some "text/xml")
          (aware 9)).0
        ≡ after_put digest nothing imd imd bulletin (codes ".xml") none (aware 5))
    × ((put digest
          (after_put digest nothing imd imd bulletin (codes ".xml") none (aware 5))
          imd
          imd
          bulletin
          (codes ".xml")
          (some "text/xml")
          (aware 9)).1.already_existed
        ≡ true)
unfolding exists lookup
put-get_example =
    put-get digest nothing imd imd bulletin (codes ".xml") none (aware 5) (some "text/xml")
      (aware 9) refl

bulletin_stored :
    get digest one_bulletin (key_of digest nothing imd imd bulletin (codes ".xml") none (aware 5))
    ≡ read bulletin
unfolding exists lookup
bulletin_stored =
    (put-get digest nothing imd imd bulletin (codes ".xml") none (aware 5) (some "text/xml")
      (aware 9) refl).0

get-put_example :
    get digest
      (after_put digest one_bulletin imd imd (codes "ffff") (codes "json") none (aware 7))
      (key_of digest nothing imd imd bulletin (codes ".xml") none (aware 5))
    ≡ read bulletin
get-put_example =
    get-put digest one_bulletin imd imd (codes "ffff") (codes "json") none (aware 7)
      (key_of digest nothing imd imd bulletin (codes ".xml") none (aware 5)) bulletin
      bulletin_stored
