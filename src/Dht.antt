-- ===== src/Dht.antt =====
-- src/sensors/sensor_dht.hpp and src/sensors/sensor_dht.cpp: the temperature and humidity sensors
-- DHT11 and DHT22. Lines printed are left out.
pub mod Values
pub mod Reading
mod Tests
use shp.Base.{
  ℕ, zero, suc, ◌+◌, ◌-◌, ◌*◌, ◌/◌, ◌%◌, ◌^◌, ◌<◌, ℤ, pos, negsuc, Bool, true, false, not, leb,
  ◌==◌, if◌then◌else◌, Exec, done, out_of_fuel, Option,
}
use shp.Message.{Message}
use shp.Queue.{Queue}
use shp.Sensor.{Sensor, event_message, add_to_queue}
use shp.Os.Actions.{Io, pure, ◌>>=◌, ◌>>◌, call, lift}

-- `p_data [DATA_LENGTH]`
pub record Frame : Type 0 where
  pub byte_0 : ℕ
  pub byte_1 : ℕ
  pub byte_2 : ℕ
  pub byte_3 : ℕ
  pub byte_4 : ℕ

abbrev pub zeros : Frame
zeros = record { byte_0 = 0; byte_1 = 0; byte_2 = 0; byte_3 = 0; byte_4 = 0 }

-- `sensor_dht11_class` and `sensor_dht22_class`
pub data Model : Type 0 where
  dht11 dht22 : Model

-- A whole part and a digit, as ten times the value.
unfoldable pub dht11_get_temperature : Frame → ℕ
dht11_get_temperature d = d.byte_2 * 10 + d.byte_3

unfoldable pub dht11_get_humidity : Frame → ℕ
dht11_get_humidity d = d.byte_0 * 10 + d.byte_1

-- `(p_data[0] + p_data[2]) - p_data[4] != 0`, in `int`
unfoldable pub dht11_is_data_crc_valid : Frame → Bool
dht11_is_data_crc_valid d = d.byte_0 + d.byte_2 == d.byte_4

-- `high` and `low` of the two getters; the product of a number below 2^16 with .1, cut off, is the
-- quotient by ten.
unfoldable pub by_tens : ℕ → ℕ
by_tens n = let high = n / 10 in let low = n - high * 10 in high * 10 + low

abbrev pub negated : ℕ → ℤ
negated zero = pos 0
negated (suc n) = negsuc n

-- Of a byte, `& 0x7f` is the remainder by 128, and `& 0x80` tests whether it is 128 at least.
unfoldable pub dht22_get_temperature : Frame → ℤ
unfolding by_tens
dht22_get_temperature d =
    let temperature = by_tens (d.byte_2 % 128 * 256 + d.byte_3) in
    if leb 128 d.byte_2 then negated temperature else pos temperature

unfoldable pub dht22_get_humidity : Frame → ℕ
unfolding by_tens
dht22_get_humidity d = by_tens (d.byte_0 * 256 + d.byte_1)

unfoldable pub dht22_is_data_crc_valid : Frame → Bool
dht22_is_data_crc_valid d = (d.byte_0 + d.byte_1 + d.byte_2 + d.byte_3) % 256 == d.byte_4

unfoldable pub is_data_crc_valid : Model → Frame → Bool
unfolding dht11_is_data_crc_valid dht22_is_data_crc_valid
is_data_crc_valid dht11 d = dht11_is_data_crc_valid d
is_data_crc_valid dht22 d = dht22_is_data_crc_valid d

-- What wiringPi does on the sensor's pin, a wait in milliseconds and one in microseconds, the wait
-- of `sleep (1)`, and `time (NULL)`.
pub record Board : Type 1 where
  pub World : Type 0
  pub pin_mode_output : Bool → World → World
  pub digital_write : Bool → World → World
  pub digital_read : World → Bool × World
  pub delay : ℕ → World → World
  pub delay_microseconds : ℕ → World → World
  pub sleep : ℕ → World → World
  pub time : World → ℕ × World

module _ (board : Board) where
  open board use {World}

  abbrev act : (World → World) → Io World (Unit {0})
  act f w = done (tt, f w)

  -- `while (digitalRead (sensor_gpio_num) == level);`, cut off after some reads.
  unfoldable pub wait_while : ℕ → Bool → Io World (Unit {0})
  wait_while zero level = λ w. out_of_fuel
  wait_while (suc fuel) level = do
    high ← call (board.digital_read)
    let again = wait_while fuel level
    if (if level then high else not high) then again else pure tt

  -- One bit; `1 << (7 - bit)` is not set in `byte` yet, so that `|=` adds it.
  unfoldable pub read_bit : ℕ → ℕ → ℕ → Io World ℕ
  unfolding wait_while
  read_bit fuel weight byte = do
    wait_while fuel true
    wait_while fuel false
    act (board.delay_microseconds 30)
    high ← call (board.digital_read)
    pure (if high then byte + weight else byte)

  -- The bits that are left, the highest first.
  unfoldable pub read_bits : ℕ → ℕ → ℕ → Io World ℕ
  read_bits fuel zero byte = pure byte
  read_bits fuel (suc left) byte = do
    byte' ← read_bit fuel (2 ^ left) byte
    read_bits fuel left byte'

  unfoldable pub read_byte : ℕ → Io World ℕ
  unfolding read_bits
  read_byte fuel = read_bits fuel 8 0

  unfoldable pub start : ℕ → Io World (Unit {0})
  unfolding wait_while
  start fuel = do
    act (board.digital_write false)
    act (board.delay 30)
    act (board.digital_write true)
    act (board.delay_microseconds 30)
    act (board.pin_mode_output false)
    wait_while fuel true
    act (board.delay_microseconds 80)
    wait_while fuel false
    act (board.delay_microseconds 80)

  unfoldable pub read_data : ℕ → Io World Frame
  unfolding start read_byte
  read_data fuel = do
    start fuel
    byte_0 ← read_byte fuel
    byte_1 ← read_byte fuel
    byte_2 ← read_byte fuel
    byte_3 ← read_byte fuel
    byte_4 ← read_byte fuel
    act (board.pin_mode_output true)
    act (board.digital_write true)
    pure (record {
      byte_0 = byte_0;
      byte_1 = byte_1;
      byte_2 = byte_2;
      byte_3 = byte_3;
      byte_4 = byte_4;
    })

  -- The loop of `do_task`, with `retry_count`.
  unfoldable pub retry_loop : ℕ → Model → ℕ → Io World Frame
  unfolding read_data is_data_crc_valid
  retry_loop fuel model zero = do
    data_read ← read_data fuel
    pure (if is_data_crc_valid model data_read then data_read else zeros)
  retry_loop fuel model (suc retry_count) = do
    data_read ← read_data fuel
    let again = (do act (board.sleep 1); retry_loop fuel model retry_count)
    if is_data_crc_valid model data_read then pure data_read else again

  unfoldable pub sensor_setup : Io World (Unit {0})
  sensor_setup = do act (board.pin_mode_output true); act (board.digital_write true)

  -- `sensor_event_class::activate`, with the setup of a DHT sensor.
  unfoldable pub activate : Sensor → Io World Sensor
  unfolding sensor_setup
  activate s =
      if s.activated then pure s else (do sensor_setup; pure (record s { activated = true }))

  -- `sensor_event_class::event_off`, with the callback of src/client_sensor_manager.cpp, which
  -- activates the sensor again.
  unfoldable pub event_off :
      Sensor → Option (Queue Message) → Io World (Sensor × Option (Queue Message))
  unfolding event_message add_to_queue activate
  event_off s q =
      if s.has_callbacks
      then (do
        now ← call board.time
        m ← lift (event_message false now s)
        let q' = add_to_queue m q
        s' ← activate s
        pure (s', q'))
      else pure (s, q)

  -- `do_task`, with what `p_data` holds at the end.
  unfoldable pub do_task :
      ℕ
      → Model
      → Sensor
      → Option (Queue Message)
      → Io World (Frame × Sensor × Option (Queue Message))
  unfolding retry_loop event_off
  do_task fuel model s q = do
    let s' = record s { activated = false }
    p_data ← retry_loop fuel model 3
    (s'', q') ← event_off s' q
    pure (p_data, s'', q')
