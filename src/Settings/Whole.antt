-- ===== src/Settings/Whole.antt =====
-- The whole file, and the announcement that can be made from it.
use shp.Base.{
  ℕ, ◌+◌, ◌<◌, ◌≤◌, ◌≡◌, refl, sym, ap, ◌∙◌, some, List, [], ◌++◌, length, take, drop,
  take-append-drop, length-take, append_assoc, done, arith,
}
use shp.Memory.{Memory, IsU32, strlen}
use shp.Memory.Copy.{write_at-append}
use shp.ErrorCodes.{ok}
use shp.Configuration.Pointers.{strlen-take}
use shp.Sensor.Text.{strncpy_short}
use shp.Client.Announced.{AreSettings}
use shp.Settings.{
  File, Item, Param, general_name, general_client_id, network_address, network_port,
  network_keep_alive_timeout, network_connect_retry_count, network_connect_retry_sleep,
  network_write_timeout, network_read_timeout, Settings, read_string, read_number, read_general,
  read_network, read_sensors, read_config,
}
use shp.Settings.Reading.{AreItems, read_entries-AreSensors}

-- A text that is found and fits goes to the start of its array.
read_string-done :
    (f : File) (param : Param) (size k : ℕ) (str holder : Memory)
    → f.lookup_string param ≡ some str
    → strlen str ≡ some k
    → k < size
    → size ≤ length holder
    → (text : Memory) × (read_string f param size holder
        ≡ done (ok, text ++ drop (length text) holder))
      × (strlen text ≡ some k)
      × (length text ≡ size)
unfolding read_string
read_string-done f param size k str holder found ended short room =
    let (text, copies, text_ended, text_size) = strncpy_short size k str ended short in
    (
      text,
      rw (read_string, found, copies, write_at-append [] text holder 0 refl (omega arith)),
      text_ended,
      text_size,
    )

-- A file with a client's id and name, an address and at least one sensor, all texts shorter than the
-- arrays by two at least, or by one for the address.
pub record IsWhole (f : File) (name_length : ℕ) (items : List Item) : Type 0 where
  pub client_id : ℕ
  pub name : Memory
  pub address : Memory
  pub address_length : ℕ
  pub identified : f.lookup_int general_client_id ≡ some client_id
  pub id_word : IsU32 client_id
  pub named : f.lookup_string general_name ≡ some name
  pub name_ended : strlen name ≡ some name_length
  pub name_short : name_length < 32
  pub addressed : f.lookup_string network_address ≡ some address
  pub address_ended : strlen address ≡ some address_length
  pub address_short : address_length < 15
  pub listed : f.sensors ≡ some items
  pub items_valid : AreItems items
  pub some_sensor : 0 < length items
  pub few : length items < 1000000

-- A file with a client's id and name, an address and at least one sensor, all of whose texts fit, is
-- read with the result `ok`, and leaves settings from which an announcement can be made, with a name
-- as long as the one in the file.
pub read_config-AreSettings :
    (f : File) (s : Settings) (n : ℕ) (items : List Item)
    → IsWhole f n items
    → length s.general.name ≡ 33
    → length s.network.address ≡ 16
    → (s' : Settings) × (name : Memory) × (read_config (some f) s ≡ done (ok, s'))
      × AreSettings s'.general s'.sensors n name
unfolding read_config read_general read_network read_sensors read_number
read_config-AreSettings f s n items v name_room address_room =
    let (text, reads, text_ended, size) =
      read_string-done f general_name 32 n v.name s.general.name v.named v.name_ended v.name_short
        (omega arith) in
    let (address, reads_address, address_ended, address_size) =
      read_string-done f network_address 15 v.address_length v.address s.network.address v.addressed
        v.address_ended v.address_short (omega arith) in
    let id : (read_number f general_client_id s.general.client_id).1 ≡ v.client_id =
      rw (read_number, v.identified) in
    let (ss, entries, count, valid) = read_entries-AreSensors items v.items_valid in
    (
      record {
        general = record {
          client_id = (read_number f general_client_id s.general.client_id).1;
          name = text ++ drop (length text) s.general.name;
        };
        network = record {
          address = address ++ drop (length address) s.network.address;
          port = (read_number f network_port s.network.port).1;
          connect_retry_count =
              (read_number f network_connect_retry_count s.network.connect_retry_count).1;
          connect_retry_sleep =
              (read_number f network_connect_retry_sleep s.network.connect_retry_sleep).1;
          write_timeout = (read_number f network_write_timeout s.network.write_timeout).1;
          read_timeout = (read_number f network_read_timeout s.network.read_timeout).1;
          keep_alive_timeout =
              (read_number f network_keep_alive_timeout s.network.keep_alive_timeout).1;
        };
        sensors = record { sensors_count = length items; sensors = ss };
      },
      take (n + 1) text,
      rw (reads, reads_address, v.listed, entries),
      record {
        extra = drop (n + 1) text ++ drop (length text) s.general.name;
        id_word = omega (arith, id, v.id_word);
        named =
            ap (λ t. t ++ drop (length text) s.general.name) (sym (take-append-drop (n + 1) text))
            ∙ append_assoc (take (n + 1) text) (drop (n + 1) text)
                (drop (length text) s.general.name);
        terminated = strlen-take text n text_ended;
        whole = omega (arith, length-take (n + 1) text, size, v.name_short);
        short = omega (arith, v.name_short);
        counted = sym count;
        sensors_valid = valid;
        some_sensor = omega (arith, count, v.some_sensor);
        few = omega (arith, count, v.few);
      },
    )
