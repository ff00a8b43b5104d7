-- ===== src/Proxy/Registered.antt =====
-- A registration from end to end: what the proxy keeps is what the head takes from the answer.
use shp.Base.{
  ℕ, ◌+◌, ◌*◌, ◌<◌, ◌≡◌, refl, subst, ap, ◌∙◌, some, List, ◌++◌, length, inr, done, arith,
}
use shp.Memory.{Memory, IsU32, u32_mod, le32, le64, strlen}
use shp.Message.{Message, field_code}
use shp.Message.{MessageId}
use shp.Message.Fields.{Represents}
use shp.Message.Build.{stamp, stamp_of}
use shp.Configuration.{Config, head_configuration}
use shp.Configuration.Pointers.{strlen-append}
use shp.Configuration.Screen.{Entry, AreEntries, packed_all, length-packed_all}
use shp.Configuration.Reading.{Describes, configured, head_configuration_lem}
use shp.Proxy.{register_answer}
use shp.Proxy.Registering.{register_fields, register_answer-Represents}

-- A configuration that was taken from a message: a name of fewer than 33 characters, and the settings
-- of at least one sensor.
pub record Holds (c : Config) (client_id n : ℕ) (name : Memory) (es : List Entry) : Type 0 where
  pub extra : Memory
  pub id_same : c.client_id ≡ client_id
  pub id_word : IsU32 client_id
  pub named : c.name ≡ name ++ extra
  pub terminated : strlen name ≡ some n
  pub whole : length name ≡ n + 1
  pub short : n < 33
  pub counted : c.sensors_count ≡ length es
  pub listed : c.sensors ≡ some (packed_all es)
  pub entries : AreEntries es
  pub some_sensor : 0 < length es
  pub few : length es < 1000000

register_fields-Describes :
    (h : Config) (now client_id n : ℕ) (name : Memory) (es : List Entry)
    → IsU32 client_id
    → strlen name ≡ some n
    → length name ≡ n + 1
    → n < 33
    → AreEntries es
    → length es < 1000000
    → length h.name ≡ 33
    → Describes
        (register_fields now client_id name (length es) (packed_all es))
        client_id
        n
        name
        es
        h
unfolding field_code le64 le32
register_fields-Describes h now client_id n name es word terminated whole short v few room =
    record {
      fields = (
        (omega arith, omega arith),
        (
          (omega arith, omega arith),
          (
            (omega arith, omega (arith, whole, short)),
            (
              (omega arith, omega arith),
              ((omega arith, omega (arith, length-packed_all es v, few)), tt),
            ),
          ),
        ),
      );
      id_word = word;
      terminated = terminated;
      whole = whole;
      room = omega (arith, room, whole, short);
      entries = v;
      few = omega (arith, few);
      identified = refl;
      named = refl;
      counted = refl;
      listed = inr refl;
    }

-- The answer to a registration stands for what the proxy holds.
pub register_answer-stands :
    (p : Config) (now client_id n : ℕ) (name : Memory) (es : List Entry)
    → Holds p client_id n name es
    → (m : Message) × (register_answer now p ≡ done m)
      × (stamp m ≡ stamp_of MessageId.send_register_result)
      × Represents m (register_fields now client_id name (length es) (packed_all es))
register_answer-stands p now client_id n name es k =
    let (m, answers, stamped, stands) =
      register_answer-Represents now p name k.extra n (packed_all es) k.named
        (ap strlen k.named ∙ strlen-append name k.extra n k.terminated) k.whole k.short k.listed
        (omega (arith, length-packed_all es k.entries, k.counted))
        (omega (arith, k.counted, k.some_sensor)) (omega (arith, k.counted, k.few)) in
    (
      m,
      answers,
      stamped,
      subst (λ i. Represents m (register_fields now i name (length es) (packed_all es))) k.id_same
          (subst (λ i. Represents m (register_fields now p.client_id name i (packed_all es)))
            k.counted stands),
    )

-- A head takes these fields from any message that stands for them.
pub register_fields-head_configuration :
    (now client_id n : ℕ) (name : Memory) (es : List Entry) (m : Message) (h : Config)
    → IsU32 client_id
    → strlen name ≡ some n
    → length name ≡ n + 1
    → n < 33
    → AreEntries es
    → length es < 1000000
    → length h.name ≡ 33
    → now < u32_mod * u32_mod
    → Represents m (register_fields now client_id name (length es) (packed_all es))
    → head_configuration m h ≡ done (configured now client_id name es h)
unfolding field_code
register_fields-head_configuration now client_id n name es m h word terminated whole short v few
      room early stands =
    head_configuration_lem m _ client_id n name h stands es now
      (register_fields-Describes h now client_id n name es word terminated whole short v few room)
      early refl

-- A head that registers with a proxy that holds a configuration takes from the answer what the proxy
-- holds: the client's id, the name, the number of sensors and the settings of each of them, with an
-- empty state for every sensor, and the time of the answer.
pub register_answer-head_configuration :
    (p h : Config) (now client_id n : ℕ) (name : Memory) (es : List Entry)
    → Holds p client_id n name es
    → length h.name ≡ 33
    → now < u32_mod * u32_mod
    → (m : Message) × (register_answer now p ≡ done m)
      × (head_configuration m h ≡ done (configured now client_id name es h))
register_answer-head_configuration p h now client_id n name es k room early =
    let (m, answers, stamped, stands) = register_answer-stands p now client_id n name es k in
    (
      m,
      answers,
      register_fields-head_configuration now client_id n name es m h k.id_word k.terminated k.whole
          k.short k.entries k.few room early stands,
    )
