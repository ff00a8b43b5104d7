-- ===== src/Server.antt =====
-- server/core_class.hpp and server/core_class.cpp: the older server's table of probes. The map is a list
-- of pairs, of which the order means nothing; `lost` has the objects to which no pointer is left.
pub mod Probes
use shp.Base.{ℕ, ℤ, pos, Bool, true, Option, none, some, List, [], ◌∷◌, ◌++◌, ◌==◌, if◌then◌else◌}

pub record SensorClass : Type 0 where
  pub id : ℕ
  pub type : ℕ
  pub name : List ℕ
  pub payload : List ℕ

pub record ProbeClass : Type 0 where
  pub id : ℕ
  pub name : List ℕ
  pub time : ℕ
  pub jitter : ℤ
  pub payload : List (ℕ × SensorClass)

pub record CoreClass : Type 0 where
  pub probes : List (ℕ × ProbeClass)
  pub lost : List ProbeClass

module _ {ℓ} {A : Type ℓ} where
  -- `map [k] = v`: a key that is there gets the new value.
  unfoldable pub assign : ℕ → A → List (ℕ × A) → List (ℕ × A)
  assign k v [] = (k, v) ∷ []
  assign k v ((j, w) ∷ m) = if k == j then (j, v) ∷ m else (j, w) ∷ assign k v m

  -- The value under a key.
  unfoldable pub held : ℕ → List (ℕ × A) → Option A
  held k [] = none
  held k ((j, w) ∷ m) = if k == j then some w else held k m

-- The constructor.
unfoldable pub new_core : CoreClass
new_core = record { probes = []; lost = [] }

-- The object that was under the key is not deleted. Allocations do not fail.
unfoldable pub register_probe : ℕ → List ℕ → ℕ → CoreClass → Bool × CoreClass
unfolding assign held
register_probe probe_id probe_name probe_time c =
    let probe : ProbeClass = record {
      id = probe_id;
      name = probe_name;
      time = probe_time;
      jitter = pos 0;
      payload = [];
    } in
    (
      true,
      record {
        probes = assign probe_id probe c.probes;
        lost = elim (held probe_id c.probes) [ none ↦ c.lost | some old ↦ old ∷ c.lost ];
      },
    )

-- The body is empty.
unfoldable pub register_sensor : ℕ → ℕ → List ℕ → ℕ → ℕ → List ℕ → CoreClass → Bool × CoreClass
register_sensor probe_id sensor_id sensor_name sensor_type event_time event_payload c = (true, c)
