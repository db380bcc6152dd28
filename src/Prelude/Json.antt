-- ===== src/Prelude/Json.antt =====
-- JSON values, as `json.loads` returns them and as the event payloads hold them.
use Prim.Native.Nat.{ℕ}
use Prim.Native.String.{String}
use mathlib.Core.Bool.{Bool}
use mathlib.Core.Option.{Option, none, some}
use text.Mathlib.Text.{◌==◌}
use ocean_data_engine_fronte.Prelude.Tests.{if◌then◌else◌}

mutual
  pub data Json : Type 0 where
    null : Json
    bool : Bool → Json
    num : ℕ → Json
    str : String → Json
    arr : JsonList → Json
    obj : JsonFields → Json

  pub data JsonList : Type 0 where
    end : JsonList
    item : Json → JsonList → JsonList

  -- a `dict` with text keys, in insertion order
  pub data JsonFields : Type 0 where
    done : JsonFields
    field : String → Json → JsonFields → JsonFields

-- d.get(key)
abbrev pub get : JsonFields → String → Option Json
get done key = none
get (field k v rest) key = if k == key then some v else get rest key

-- d.get(key, default)
abbrev pub get_or : JsonFields → String → Json → Json
get_or fields key default = elim (get fields key) [ none ↦ default | some v ↦ v ]
