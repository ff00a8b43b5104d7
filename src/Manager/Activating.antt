-- ===== src/Manager/Activating.antt =====
-- The sensors after their activation.
use shp.Base.{◌≡◌, refl, sym, ap, ◌∙◌, true, false, some, List, [], ◌∷◌, length, done}
use shp.Message
use shp.Queue.{Queue}
use shp.ErrorCodes.{ok}
use shp.Client.Configure.{SensorSettings, SensorsSettings}
use shp.Client.Announcing.{AreSensors}
use shp.Sensor.{Sensor, Board, activate}
use shp.Manager.{
  Kind, Managed, Manager, Outputs, button, dht11, flame, pir, led, has_event, new_manager,
  setup_sensors, activate_managed, activate_all, activate_sensors,
}
use shp.Manager.Making.{Makes, nothing, made, skipped, inactive, add_sensors-Makes}

module _ (board : Board) (outputs : Outputs board.World) where
  open board use {World}

  -- A sensor that keeps its class, pin and callbacks, and is active if it has events.
  abbrev Activates : Managed → World → Type 0
  Activates x w =
      (x' : Managed) × (w' : World) × (activate_managed board outputs x w ≡ done (x', w'))
      × (x'.kind ≡ x.kind)
      × (x'.sensor.gpio_num ≡ x.sensor.gpio_num)
      × (x'.sensor.has_callbacks ≡ x.sensor.has_callbacks)
      × (x'.sensor.activated ≡ has_event x.kind)

  awake : Kind → Sensor → Managed
  awake k s = record { kind = k; sensor = record s { activated = true } }

  on_kind :
      (k : Kind) (s : Sensor) (w : World)
      → s.activated ≡ false
      → Activates (record { kind = k; sensor = s }) w
  unfolding activate_managed activate awake
  on_kind led s w asleep = (
    record { kind = led; sensor = s },
    outputs.digital_write s.gpio_num false (outputs.pin_mode_output s.gpio_num w),
    refl,
    refl,
    refl,
    refl,
    asleep,
  )
  on_kind dht11 s w asleep = (
    awake dht11 s,
    outputs.digital_write s.gpio_num true (outputs.pin_mode_output s.gpio_num w),
    rw asleep,
    refl,
    refl,
    refl,
    refl,
  )
  on_kind button s w asleep =
      (awake button s, board.pin_mode_input s.gpio_num w, rw asleep, refl, refl, refl, refl)
  on_kind flame s w asleep =
      (awake flame s, board.pin_mode_input s.gpio_num w, rw asleep, refl, refl, refl, refl)
  on_kind pir s w asleep =
      (awake pir s, board.pin_mode_input s.gpio_num w, rw asleep, refl, refl, refl, refl)

  activate_all-Makes :
      (ss : List SensorSettings) (xs : List Managed) (w : World)
      → Makes inactive ss xs
      → (xs' : List Managed) × (w' : World) × (activate_all board outputs xs w ≡ done (xs', w'))
        × Makes has_event ss xs'
  unfolding activate_all
  activate_all-Makes [] [] w nothing = ([], w, refl, nothing)
  activate_all-Makes [] (x ∷ xs) w impossible = elim impossible [ ]
  activate_all-Makes (s ∷ ss) (x ∷ xs) w (made _ _ _ _ known pin called asleep makes) =
      let (x', w1, activates, same, same_pin, same_calls, active) =
        on_kind x.kind x.sensor w asleep in
      let (xs', w', rest, all) = activate_all-Makes ss xs w1 makes in
      (
        x' ∷ xs',
        w',
        rw (activates, rest),
        made s ss x' xs' (known ∙ ap (λ k. done (some k)) (sym same)) (same_pin ∙ pin)
            (same_calls ∙ called ∙ ap has_event (sym same)) (active ∙ ap has_event (sym same)) all,
      )
  activate_all-Makes (s ∷ ss) xs w (skipped _ _ _ unknown makes) =
      let (xs', w', rest, all) = activate_all-Makes ss xs w makes in
      (xs', w', rest, skipped s ss xs' unknown all)

  -- On settings with ended texts, a new manager makes and activates its sensors without undefined
  -- behaviour and with the result `ok`: there is one sensor for each of the settings with a known
  -- type, in their order, on their pins taken as unsigned characters, and none for the others; the
  -- sensors with events, which are all but the LEDs, have their callbacks and are active.
  pub setup_sensors-activate_sensors :
      (q : Queue Message.Message) (settings : SensorsSettings) (w : World)
      → settings.sensors_count ≡ length settings.sensors
      → AreSensors settings.sensors
      → (m : Manager) × (xs : List Managed) × (w' : World) × (setup_sensors q settings new_manager
          ≡ done (ok, m))
        × (activate_sensors board outputs m w ≡ done ((ok, record m { sensors = xs }), w'))
        × Makes has_event settings.sensors xs
  unfolding setup_sensors new_manager activate_sensors
  setup_sensors-activate_sensors q settings w counted v =
      let (xs, adds, makes) =
        add_sensors-Makes settings.sensors (record new_manager { queue = some q }) v in
      let (xs', w', activates, all) = activate_all-Makes settings.sensors xs w makes in
      (
        record new_manager { queue = some q; sensors = xs },
        xs',
        w',
        rw (counted, adds),
        rw activates,
        all,
      )
