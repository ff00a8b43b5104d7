-- ===== src/Outputs/Levels.antt =====
-- What the calls of an output do to its pin.
use shp.Base.{◌≡◌, ap, ◌∙◌, refl, Bool, true, false, List, [], ◌∷◌, ◌++◌}
use shp.Outputs.{
  Action, pin_mode_output, digital_write, delay_microseconds, switch_on, switch_off,
  activate_output,
}
use shp.Outputs.Relay

-- A pin: whether it is an output, and its level.
pub record Pin : Type 0 where
  pub is_output : Bool
  pub level : Bool

abbrev pub run : List Action → Pin → Pin
run [] p = p
run (pin_mode_output ∷ actions) p = run actions (record p { is_output = true })
run (digital_write level ∷ actions) p = run actions (record p { level = level })
run (delay_microseconds time ∷ actions) p = run actions p

-- A call of an LED or a relay that switches.
pub data Call : Type 0 where
  on off : Call

abbrev pub led_calls : List Call → List Action
led_calls [] = []
led_calls (on ∷ calls) = switch_on ++ led_calls calls
led_calls (off ∷ calls) = switch_off ++ led_calls calls

abbrev pub relay_calls : List Call → List Action
relay_calls [] = []
relay_calls (on ∷ calls) = Relay.switch_on ++ relay_calls calls
relay_calls (off ∷ calls) = Relay.switch_off ++ relay_calls calls

-- Off from the activation on, and then as the last call says.
abbrev pub last_level : Bool → List Call → Bool
last_level level [] = level
last_level level (on ∷ calls) = last_level true calls
last_level level (off ∷ calls) = last_level false calls

led_calls-last_level :
    (calls : List Call) (p : Pin)
    → run (led_calls calls) p ≡ record p { level = last_level p.level calls }
led_calls-last_level [] p = refl
led_calls-last_level (on ∷ calls) p = led_calls-last_level calls (record p { level = true })
led_calls-last_level (off ∷ calls) p = led_calls-last_level calls (record p { level = false })

relay_calls-led_calls : (calls : List Call) → relay_calls calls ≡ led_calls calls
relay_calls-led_calls [] = refl
relay_calls-led_calls (on ∷ calls) = ap (digital_write true ∷◌) (relay_calls-led_calls calls)
relay_calls-led_calls (off ∷ calls) = ap (digital_write false ∷◌) (relay_calls-led_calls calls)

-- Whatever a pin was, after the activation of an LED or a relay and any calls it is an output, with the
-- level of the last call, or low if there was none.
pub activate-last_level :
    (calls : List Call) (p : Pin)
    → (run (activate_output ++ led_calls calls) p
        ≡ record { is_output = true; level = last_level false calls })
      × (run (Relay.activate ++ relay_calls calls) p
          ≡ record { is_output = true; level = last_level false calls })
activate-last_level calls p =
    let led = led_calls-last_level calls (record { is_output = true; level = false }) in
    (
      led,
      ap (λ actions. run actions (record { is_output = true; level = false }))
            (relay_calls-led_calls calls)
          ∙ led,
    )
