-- ===== src/Examples/Labels.antt =====
-- A unit label at a concrete value.
use ocean_data_engine_fronte.Prelude.{◌≡◌, refl, true, some}
use ocean_data_engine_fronte.Prelude.Text.{codes, text_eq, strip, lower}
use ocean_data_engine_fronte.Units.Labels.{canonical_unit, required, require_unit}
use ocean_data_engine_fronte.Units.Contract.{require_unit_lem}

require_unit_example :
    (canonical_unit (some (codes " Meters/Second ")) ≡ some (codes "m/s"))
    × (text_eq (codes "m/s") (lower (strip (codes "m/s"))) ≡ true)
    × (require_unit (some (codes "m/s")) (codes "m/s") ≡ required (codes "m/s"))
unfolding require_unit canonical_unit strip lower
require_unit_example =
    require_unit_lem (some (codes " Meters/Second ")) (codes "m/s") (codes "m/s") refl
