-- ===== src/Settings.antt =====
-- src/client_config.cpp: the client's settings, read from a file. libconfig is a parameter.
pub mod Reading
pub mod Whole
mod Tests
use shp.Base.{
  ℕ, zero, suc, ◌+◌, Option, none, some, List, [], ◌∷◌, length, replicate, Bool, true,
  if◌then◌else◌, Exec, done, or_fault, ◌>>=◌,
}
use shp.Memory.{Memory, write_at}
use shp.ErrorCodes.{ErrorCode, ok, invalid_param, system_error}
use shp.Sensor.{strncpy}
use shp.Client.{NetworkSettings}
use shp.Client.Configure.{GeneralSettings, SensorSettings, SensorsSettings}

-- The parameters of `read_general` and `read_network`, by their paths in the file.
pub data Param : Type 0 where
  general_client_id general_name network_address network_port : Param
  network_keep_alive_timeout network_connect_retry_count network_connect_retry_sleep : Param
  network_write_timeout network_read_timeout : Param

-- An item of the list of sensors: what `config_setting_lookup_string` and `config_setting_lookup_int`
-- find of it; the number is already taken as an unsigned one.
pub record Item : Type 0 where
  pub name : Option Memory
  pub gpio : Option ℕ
  pub type_name : Option Memory

-- A file that `config_read_file` can read: what `config_lookup_string`, `config_lookup_int` and
-- `config_lookup` find in it.
pub record File : Type 0 where
  pub lookup_string : Param → Option Memory
  pub lookup_int : Param → Option ℕ
  pub sensors : Option (List Item)

-- The three static variables.
pub record Settings : Type 0 where
  pub general : GeneralSettings
  pub network : NetworkSettings
  pub sensors : SensorsSettings

-- `read_string`: at most `holder_length` characters, with no terminator behind as many.
unfoldable pub read_string : File → Param → ℕ → Memory → Exec (ErrorCode × Memory)
unfolding strncpy write_at
read_string f param holder_length holder = elim (f.lookup_string param) [
  | none ↦ done (invalid_param, holder)
  | some str ↦ do
    text ← or_fault (strncpy holder_length str)
    written ← or_fault (write_at holder 0 text)
    done (ok, written)
]

-- `read_number`
unfoldable pub read_number : File → Param → ℕ → ErrorCode × ℕ
read_number f param holder = elim (f.lookup_int param) [
  | none ↦ (invalid_param, holder)
  | some value ↦ (ok, value)
]

-- The results of the single reads are not looked at.
unfoldable pub read_general : File → GeneralSettings → Exec (ErrorCode × GeneralSettings)
unfolding read_string read_number
read_general f g = do
  (result, name) ← read_string f general_name 32 g.name
  done (ok, record g { client_id = (read_number f general_client_id g.client_id).1; name = name })

unfoldable pub read_network : File → NetworkSettings → Exec (ErrorCode × NetworkSettings)
unfolding read_string read_number
read_network f n = do
  (result, address) ← read_string f network_address 15 n.address
  done (
    ok,
    record {
      address = address;
      port = (read_number f network_port n.port).1;
      connect_retry_count = (read_number f network_connect_retry_count n.connect_retry_count).1;
      connect_retry_sleep = (read_number f network_connect_retry_sleep n.connect_retry_sleep).1;
      write_timeout = (read_number f network_write_timeout n.write_timeout).1;
      read_timeout = (read_number f network_read_timeout n.read_timeout).1;
      keep_alive_timeout = (read_number f network_keep_alive_timeout n.keep_alive_timeout).1;
    },
  )

-- An entry of the array as `malloc` leaves it. Its numbers stand for any; whoever reads an entry
-- reads its texts first.
abbrev pub unwritten : SensorSettings
unwritten = record {
  is_initialized = 0;
  gpio = 0;
  name = replicate 33 none;
  type_name = replicate 17 none;
}

-- One round of the loop over the items; an item that lacks something leaves its entry unwritten.
unfoldable pub read_sensor : Item → Exec SensorSettings
unfolding strncpy write_at
read_sensor item = elim item.name [
  | none ↦ done unwritten
  | some name ↦ elim item.gpio [
    | none ↦ done unwritten
    | some gpio ↦ elim item.type_name [
      | none ↦ done unwritten
      | some type_name ↦ do
        n ← or_fault (strncpy 32 name)
        named ← or_fault (write_at unwritten.name 0 n)
        t ← or_fault (strncpy 16 type_name)
        typed ← or_fault (write_at unwritten.type_name 0 t)
        done (record { is_initialized = 1; gpio = gpio; name = named; type_name = typed })
    ]
  ]
]

unfoldable pub read_entries : List Item → Exec (List SensorSettings)
unfolding read_sensor
read_entries [] = done []
read_entries (item ∷ items) = do s ← read_sensor item; rest ← read_entries items; done (s ∷ rest)

unfoldable pub read_sensors : File → SensorsSettings → Exec (ErrorCode × SensorsSettings)
unfolding read_entries
read_sensors f s = elim f.sensors [
  | none ↦ done (invalid_param, s)
  | some items ↦ do
    entries ← read_entries items
    done (ok, record { sensors_count = length items; sensors = entries })
]

-- `read_config`; a file that cannot be read is none.
unfoldable pub read_config : Option File → Settings → Exec (ErrorCode × Settings)
unfolding read_general read_network read_sensors
read_config file s = elim file [
  | none ↦ done (system_error, s)
  | some f ↦ do
    (result1, general) ← read_general f s.general
    (result2, network) ← read_network f s.network
    (result3, sensors) ← read_sensors f s.sensors
    done (result3, record { general = general; network = network; sensors = sensors })
]

-- The file as one of the getters leaves the settings: the flag is set by a getter's first call, and
-- by nothing else, and what `read_config` returns is not looked at.
unfoldable pub get_settings : Option File → Bool × Settings → Exec (Bool × Settings)
unfolding read_config
get_settings file (is_initialized, s) =
    let first = do (result, s') ← read_config file s; done (true, s')
    in if is_initialized then done (is_initialized, s) else first

-- `destroy_config`; the number of sensors stays.
unfoldable pub destroy_config : Settings → Settings
destroy_config s = record s { sensors = record (s.sensors) { sensors = [] } }
