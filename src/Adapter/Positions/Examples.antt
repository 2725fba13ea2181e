-- ===== src/Adapter/Positions/Examples.antt =====
-- The theorems on positions and lock calls applied to concrete tables.
use pgcqrs.Base.{String, pos, ◌≡◌}
use pgcqrs.Wire.{Error}
use pgcqrs.Storage.Fixture.{at_time, tables}
use pgcqrs.Storage.Positions as Store
use pgcqrs.Service.Positions.{set_position_handler}
use pgcqrs.Adapter.Positions.{set_position}
use pgcqrs.Adapter.Positions.Told.{told, set_position_tells}

abbrev text_of : Error → String
text_of failure = "error"

set_position_tells_example :
    set_position (set_position_handler (at_time 5) text_of "d" "s" "c" (pos 2) tables).0
    ≡ told text_of (Store.set_position (at_time 5) "d" "s" "c" (pos 2) tables).0
set_position_tells_example = (set_position_tells (at_time 5) text_of "d" "s" "c" (pos 2) tables).0
