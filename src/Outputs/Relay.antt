-- ===== src/Outputs/Relay.antt =====
-- src/sensors/sensor_relay.cpp: a relay on a pin.
use shp.Base.{true, false, List, [], ◌∷◌}
use shp.Outputs.{Action, pin_mode_output, digital_write}

abbrev pub switch_on : List Action
switch_on = digital_write true ∷ []

abbrev pub switch_off : List Action
switch_off = digital_write false ∷ []

abbrev pub activate : List Action
activate = pin_mode_output ∷ switch_off
