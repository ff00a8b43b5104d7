-- ===== src/Configuration/Arriving.antt =====
-- The settings of the sensors on their way: the bytes behind a text's terminator may change, and the
-- sensors stay the same.
use shp.Base.{
  ℕ, ◌+◌, ◌-◌, ◌≡◌, refl, sym, ap, ap₂, ◌∙◌, none, List, [], ◌∷◌, ◌++◌, map, length, replicate,
  arith,
}
use shp.Memory.{Memory, cells, le32}
use shp.Memory.Arrives.{
  Arrives, Arrives-append, Arrives-cells, length-Arrives, strlen-Arrives, take-Arrives,
}
use shp.Message.Fields.{Field}
use shp.Message.Arriving.{AreWritten, FieldsArrive, field-FieldArrives}
use shp.Configuration.Screen.{Entry, IsEntry, AreEntries, packed, packed_all, initial}

-- As many sensors, each on the same pin and with the same name.
pub record SameSensors (es es' : List Entry) : Type 0 where
  pub valid : AreEntries es'
  pub same_count : length es' ≡ length es
  pub same_screen : map initial es' ≡ map initial es

packed-Arrives :
    (e : Entry) (came : Memory)
    → IsEntry e
    → Arrives (packed e) came
    → (e' : Entry) × (came ≡ packed e') × IsEntry e' × (initial e' ≡ initial e)
packed-Arrives e came v a =
    let (name, others, e1, a1, b1) =
      Arrives-append e.name (e.type_name ++ cells (le32 e.gpio)) came a in
    let (type_name, pin, e2, a2, b2) = Arrives-append e.type_name (cells (le32 e.gpio)) others b1 in
    (
      record { name = name; type_name = type_name; gpio = e.gpio; name_length = e.name_length },
      e1 ∙ ap (◌++◌ name) (e2 ∙ ap (◌++◌ type_name) (sym (Arrives-cells (le32 e.gpio) pin b2))),
      record {
        name_size = omega (arith, length-Arrives e.name name a1, v.name_size);
        type_size = omega (arith, length-Arrives e.type_name type_name a2, v.type_size);
        gpio_word = v.gpio_word;
        terminated = strlen-Arrives e.name name e.name_length v.terminated a1;
        fits = v.fits;
      },
      ap
          (λ text. record {
            gpio = e.gpio;
            name = text ++ replicate (33 - (e.name_length + 1)) none;
            buffer = (initial e).buffer;
            last_message = 0;
          })
          (sym (take-Arrives e.name name e.name_length v.terminated a1)),
    )

-- What arrives of the settings of sensors are the settings of the same sensors.
pub packed_all-Arrives :
    (es : List Entry) (came : Memory)
    → AreEntries es
    → Arrives (packed_all es) came
    → (es' : List Entry) × (came ≡ packed_all es') × SameSensors es es'
packed_all-Arrives [] [] v a =
    ([], refl, record { valid = tt; same_count = refl; same_screen = refl })
packed_all-Arrives [] (c ∷ came) v a = absurd a
packed_all-Arrives (e ∷ es) came (v, vs) a =
    let (front, back, split, a1, b1) = Arrives-append (packed e) (packed_all es) came a in
    let (e', same, v', start) = packed-Arrives e front v a1 in
    let (es', others, s) = packed_all-Arrives es back vs b1 in
    (
      e' ∷ es',
      split ∙ ap₂ (λ x y. x ++ y) same others,
      record {
        valid = (v', s.valid);
        same_count = omega (arith, s.same_count);
        same_screen = ap₂ ◌∷◌ start s.same_screen;
      },
    )

-- Written fields arrive as they are, and the settings of sensors behind them as those of the same
-- sensors.
pub sensors_field-FieldsArrive :
    (fs : List Field) (tag : ℕ) (es : List Entry) (gs : List Field)
    → AreWritten fs
    → AreEntries es
    → FieldsArrive (fs ++ (record { tag = tag; value = packed_all es } ∷ [])) gs
    → (es' : List Entry) × (gs ≡ fs ++ (record { tag = tag; value = packed_all es' } ∷ []))
      × SameSensors es es'
sensors_field-FieldsArrive [] tag es [] w v a = absurd a
sensors_field-FieldsArrive [] tag es (g ∷ h ∷ gs) w v a = absurd a.1
sensors_field-FieldsArrive [] tag es (g ∷ []) w v ((same_tag, came), a) =
    let (es', same, s) = packed_all-Arrives es g.value v came in
    (es', ap₂ (λ t u. record { tag = t; value = u } ∷ []) (sym same_tag) same, s)
sensors_field-FieldsArrive (f ∷ fs) tag es [] w v a = absurd a
sensors_field-FieldsArrive (f ∷ fs) tag es (g ∷ gs) (w, ws) v (a, as_well) =
    let (es', same, s) = sensors_field-FieldsArrive fs tag es gs ws v as_well in
    (es', ap₂ ◌∷◌ (sym (field-FieldArrives f g w a)) same, s)
