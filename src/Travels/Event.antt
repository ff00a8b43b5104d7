-- ===== src/Travels/Event.antt =====
-- An event on its way from src/sensors/sensor.cpp by way of src/proxy_main.cpp to the screen of
-- src/head_event.cpp.
use shp.Base.{
  ℕ, ◌<◌, ◌*◌, ◌≡◌, refl, append-nil, sym, subst, ◌∙◌, Bool, some, List, length, done, arith,
}
use shp.Memory.{Memory, u32_mod, strlen, le32, le64}
use shp.Memory.Arrives.{strlen-written}
use shp.Message.Arriving.{AreWritten}
use shp.Message.{Message, MessageId, field_code}
use shp.Configuration.{Config, SensorStatus}
use shp.Transfer.Trip.{Trip, Trip-AreWritten}
use shp.Head.{Tm, show_message_event}
use shp.Head.Showing.{Shows, shown_text, IsScreen, show_message_event-Shows}
use shp.Sensor.{Sensor, event_value, event_message}
use shp.Sensor.Building.{
  IsSensor, event_value-ended, event_fields, event_message-Represents, event_fields-AreFields,
}
use shp.Transfer.Through.{done_injective}

event_fields-AreWritten :
    (now : ℕ) (s : Sensor) (type_name name : Memory) (value : Bool)
    → IsSensor s type_name name
    → AreWritten (event_fields now type_name name s.gpio_num value)
event_fields-AreWritten now s type_name name value v = (
  (le64 now, refl),
  (
    strlen-written type_name v.type_length v.type_ended v.type_whole,
    (
      strlen-written name v.name_length v.name_ended v.name_whole,
      (
        (le32 s.gpio_num, refl),
        (
          strlen-written (event_value value) 1
              (subst (λ t. strlen t ≡ some 1) (append-nil (event_value value))
                (event_value-ended value).0)
              (event_value-ended value).1,
          tt,
        ),
      ),
    ),
  ),
)

-- An event of a sensor, sent by the client and received by the proxy, sent on and received by a head
-- with a table of as many sensors as it counts, is shown there: the sensors on that pin get the word
-- for an alarm or not and the time of day of the event, and the time at which they are shown; all
-- others keep their state.
pub event_travels :
    (localtime : ℕ → Tm) (now : ℕ → ℕ) (c : Config) (value : Bool) (t : ℕ) (s : Sensor)
    (type_name name : Memory) (m at_proxy at_head : Message)
    → IsSensor s type_name name
    → t < u32_mod * u32_mod
    → c.sensors_count ≡ length c.screen
    → IsScreen c.screen
    → event_message value t s ≡ done m
    → Trip m at_proxy
    → Trip at_proxy at_head
    → (screen' : List SensorStatus) × (show_message_event localtime now at_head c
        ≡ done (record c { screen = screen' }))
      × Shows s.gpio_num (shown_text value (localtime t)) now 0 c.screen screen'
unfolding field_code
event_travels localtime now c value t s type_name name m at_proxy at_head v early counted screen
      makes first second =
    let (made, makes', stamped, r) = event_message-Represents value t s type_name name v in
    let same : made ≡ m = done_injective made m (sym makes' ∙ makes) in
    let written = event_fields-AreWritten t s type_name name value v in
    let (stamped1, r1) =
      Trip-AreWritten made at_proxy _ MessageId.send_event
        (subst (λ x. Trip x at_proxy) (sym same) first) stamped r written in
    let (stamped2, r2) =
      Trip-AreWritten at_proxy at_head _ MessageId.send_event second stamped1 r1 written in
    show_message_event-Shows localtime now at_head _ c value s.gpio_num t r2
      (event_fields-AreFields t s type_name name value v) refl refl refl (omega (arith, v.pin))
      early counted screen
