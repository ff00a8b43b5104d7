-- ===== src/Sensor/Shown.antt =====
-- An event from the sensor to the screen of the head.
use shp.Base.{ℕ, ◌<◌, ◌*◌, ◌≡◌, refl, Bool, List, length, done, arith}
use shp.Memory.{Memory, u32_mod}
use shp.Message.{Message, field_code}
use shp.Configuration.{Config, SensorStatus}
use shp.Head.{Tm, show_message_event}
use shp.Head.Showing.{Shows, shown_text, IsScreen, show_message_event-Shows}
use shp.Sensor.{Sensor, event_message}
use shp.Sensor.Building.{IsSensor, event_message-Represents, event_fields-AreFields}

-- The message that a sensor makes of an event is shown by a head with a table of as many sensors as it
-- counts: the sensors on that pin get the word for an alarm or not and the time of day of the event,
-- and the time at which they are shown; all others keep their state.
pub event_message-Shows :
    (localtime : ℕ → Tm) (now : ℕ → ℕ) (c : Config) (value : Bool) (t : ℕ) (s : Sensor)
    (type_name name : Memory)
    → IsSensor s type_name name
    → t < u32_mod * u32_mod
    → c.sensors_count ≡ length c.screen
    → IsScreen c.screen
    → (m : Message) × (event_message value t s ≡ done m)
      × (screen' : List SensorStatus) × (show_message_event localtime now m c
          ≡ done (record c { screen = screen' }))
      × Shows s.gpio_num (shown_text value (localtime t)) now 0 c.screen screen'
unfolding field_code
event_message-Shows localtime now c value t s type_name name v early counted screen =
    let (m, makes, same_id, r) = event_message-Represents value t s type_name name v in
    let (screen', shows, which) =
      show_message_event-Shows localtime now m _ c value s.gpio_num t r
        (event_fields-AreFields t s type_name name value v) refl refl refl (omega (arith, v.pin))
        early counted screen in
    (m, makes, screen', shows, which)
