-- ===== src/Outputs/Angles.antt =====
-- The pulses of the servo.
use shp.Base.{ℕ, zero, suc, ◌+◌, ◌*◌, ◌≤◌, ◌<◌, ◌≡◌, List, [], ◌∷◌, arith}
use shp.Outputs.{
  Action, delay_microseconds, Servo, new_servo, set_params, pulse_time, pulses, set_angle,
}

-- The times of all waits, one after the other.
unfoldable pub total : List Action → ℕ
total [] = 0
total (delay_microseconds n ∷ actions) = n + total actions
total (action ∷ actions) = total actions

pulses-total :
    (left : ℕ) (s : Servo) (angle : ℕ)
    → pulse_time s angle ≤ s.wait_time
    → total (pulses left s angle) ≡ left * s.wait_time
unfolding pulses total
pulses-total zero s angle h = omega arith
pulses-total (suc left) s angle h = grind (arith, pulses-total left s angle h)

-- For every angle of an unsigned char, the pulse takes 500 microseconds and eleven for each degree,
-- and the 25 pulses take half a second in all.
pub set_angle-total :
    (angle : ℕ)
    → angle < 256
    → (pulse_time new_servo angle ≡ 500 + 11 * angle)
      × (total (set_angle new_servo angle) ≡ 500_000)
unfolding new_servo set_params pulse_time set_angle
set_angle-total angle h = (omega arith, pulses-total 25 new_servo angle (omega arith))
