-- ===== src/Dht/Values.antt =====
-- The values and the check sums of the two sensors.
use shp.Base.{
  ℕ, ◌+◌, ◌*◌, ◌/◌, ◌%◌, ◌<◌, ◌≡◌, ◌≢◌, ap, Bool, true, false, pos, if◌then◌else◌, arith, leb, ◌==◌,
}
use shp.Dht.{
  Frame, Model, negated, by_tens, dht11_get_temperature, dht22_get_temperature, dht22_get_humidity,
  is_data_crc_valid, dht11_is_data_crc_valid, dht22_is_data_crc_valid,
}

pub record IsFrame (d : Frame) : Type 0 where
  pub byte_0 : d.byte_0 < 256
  pub byte_1 : d.byte_1 < 256
  pub byte_2 : d.byte_2 < 256
  pub byte_3 : d.byte_3 < 256
  pub byte_4 : d.byte_4 < 256

-- The five bytes in which a DHT22 sends a humidity and a temperature with its sign.
abbrev pub dht22_frame : ℕ → Bool → ℕ → Frame
dht22_frame humidity below_zero temperature =
    let sign = if below_zero then 128 else 0 in
    record {
      byte_0 = humidity / 256;
      byte_1 = humidity % 256;
      byte_2 = temperature / 256 + sign;
      byte_3 = temperature % 256;
      byte_4 =
          (humidity / 256 + humidity % 256 + (temperature / 256 + sign) + temperature % 256) % 256;
    }

-- What a DHT22 sends is accepted, and read as the humidity and the temperature that it measured.
pub dht22_round_trip :
    (humidity temperature : ℕ) (below_zero : Bool)
    → humidity < 65536
    → temperature < 32768
    → (is_data_crc_valid Model.dht22 (dht22_frame humidity below_zero temperature) ≡ true)
      × (dht22_get_humidity (dht22_frame humidity below_zero temperature) ≡ humidity)
      × (dht22_get_temperature (dht22_frame humidity below_zero temperature)
          ≡ (if below_zero then negated temperature else pos temperature))
unfolding is_data_crc_valid dht22_is_data_crc_valid dht22_get_humidity dht22_get_temperature by_tens
dht22_round_trip humidity temperature true h t =
    let sign : leb 128 (temperature / 256 + 128) ≡ true = ground arith in
    let whole : by_tens ((temperature / 256 + 128) % 128 * 256 + temperature % 256) ≡ temperature =
      omega arith in
    (ground arith, omega arith, rw sign (ap negated whole))
dht22_round_trip humidity temperature false h t =
    let sign : leb 128 (temperature / 256 + 0) ≡ false = ground arith in
    let whole : by_tens ((temperature / 256 + 0) % 128 * 256 + temperature % 256) ≡ temperature =
      omega arith in
    (ground arith, omega arith, rw sign (ap pos whole))

-- The number of bytes in which two frames differ.
abbrev differs : ℕ → ℕ → ℕ
differs m n = if m == n then 0 else 1

abbrev pub differing : Frame → Frame → ℕ
differing c d =
    differs c.byte_0 d.byte_0
    + differs c.byte_1 d.byte_1
    + differs c.byte_2 d.byte_2
    + differs c.byte_3 d.byte_3
    + differs c.byte_4 d.byte_4

-- A DHT22 frame that was accepted is no longer accepted with one byte changed.
pub dht22_detects_one :
    (c d : Frame)
    → IsFrame c
    → IsFrame d
    → is_data_crc_valid Model.dht22 c ≡ true
    → differing c d ≡ 1
    → is_data_crc_valid Model.dht22 d ≡ false
unfolding is_data_crc_valid dht22_is_data_crc_valid
dht22_detects_one c d p q valid one = ground arith

-- The DHT11 check does not look at the digits behind the point: an accepted frame is still accepted
-- with another digit of the temperature, and read as another temperature.
pub dht11_misses_digit :
    (d : Frame) (digit : ℕ)
    → is_data_crc_valid Model.dht11 d ≡ true
    → digit ≢ d.byte_3
    → (is_data_crc_valid Model.dht11 (record d { byte_3 = digit }) ≡ true)
      × (dht11_get_temperature (record d { byte_3 = digit }) ≢ dht11_get_temperature d)
unfolding is_data_crc_valid dht11_is_data_crc_valid dht11_get_temperature
dht11_misses_digit d digit valid other = (valid, λ e. other (omega arith))
