-- ===== src/Control/Tests.antt =====
-- Concrete runs of the controllers' mathematics, and the theorems at them.
use robot_core.Prelude.{◌≡◌, refl, true, false, ◌⊎◌, inl, none, List, [], ◌∷◌, All, drop, ◌↔◌}
use robot_core.Prelude.Int.{ℤ, pos, negsuc}
use robot_core.Prelude.Results.{ok}
use robot_core.Floats.{lt, lit, clip, seconds, zero_float, py_max, ◌⊖◌, ◌⊕◌}
use robot_core.Floats.Model.{Num, num_floats}
use robot_core.Floats.Order.{IsWithin, IsBounded}
use robot_core.Floats.Vectors.{np_max, np_min, is_close}
use robot_core.Control.{vec}
use robot_core.Control.Mixing.{zeros, station_velocity_setpoints, altitude_level_pwm_commands}
use robot_core.Control.Mixing.Bounds.{altitude_level_pwm_commands-IsBounded}
use robot_core.Control.Mixing.Setpoints.{station_velocity_setpoints-IsWithin}
use robot_core.Control.Level.{conditional_axis_integral_effort, peak_with, add_at}
use robot_core.Control.Level.Integral.{conditional_axis_integral_effort-IsWithin}
use robot_core.Control.Filters.{
  slew_rate_limit, surge_pitch_decoupling_effort, directional_velocity_feedforward,
}
use robot_core.Control.Rates.{timestamped_rate_prediction, corrected_rate, predicted_rate}
use robot_core.Control.Rates.Bounds.{AreNear, timestamped_rate_prediction-AreNear}
use robot_core.Control.Pid.{
  PidGains, PidInput, reset, step, settle, observed, unsaturated, proposed_integral, derivative,
  raw_derivative, smoothing, limit_of, can_integrate, is_same,
}
use robot_core.Control.Pid.Bounds.{reset_call, step_call, run, step-IsBounded, run-reset-IsBounded}
use robot_core.Control.Pid.Windup.{Accepts, demand, step_returns_iff, step_holds_integral}

-- Milli-units.
abbrev milli : ℤ → Num
milli n = num_floats.lit n 3

slewed :
    slew_rate_limit (milli (pos 0)) (milli (pos 9000)) (milli (pos 100)) (milli (pos 5000))
    ≡ ok (milli (pos 500))
unfolding slew_rate_limit clip
slewed = refl

-- A forward pitch correction, saturated.
decoupled :
    surge_pitch_decoupling_effort
      (milli (pos 900))
      (milli (pos 500))
      (milli (pos 200))
      (milli (pos 300))
    ≡ ok (milli (negsuc 299))
unfolding surge_pitch_decoupling_effort clip
decoupled = refl

fed_forward :
    directional_velocity_feedforward
      (milli (negsuc 399))
      (milli (pos 500))
      (milli (pos 200))
      (milli (pos 300))
    ≡ ok (milli (negsuc 79))
unfolding directional_velocity_feedforward clip
fed_forward = refl

setpoints :
    station_velocity_setpoints
      (milli (pos 0) ∷ milli (pos 100) ∷ [])
      (milli (pos 2000) ∷ milli (pos 100) ∷ [])
      (milli (pos 500) ∷ milli (pos 500) ∷ [])
      (milli (pos 250))
      (milli (pos 200))
      false
    ≡ ok (milli (pos 250) ∷ milli (pos 150) ∷ [])
unfolding station_velocity_setpoints vec clip
setpoints = refl

station_velocity_setpoints-IsWithin_example :
    (surge : Num) × (sway : Num) × ((milli (pos 250) ∷ milli (pos 150) ∷ []) ≡ surge ∷ sway ∷ [])
    × IsWithin (milli (pos 250)) surge
    × IsWithin (milli (pos 200)) sway
station_velocity_setpoints-IsWithin_example =
    station_velocity_setpoints-IsWithin (milli (pos 0) ∷ milli (pos 100) ∷ [])
      (milli (pos 2000) ∷ milli (pos 100) ∷ []) (milli (pos 500) ∷ milli (pos 500) ∷ [])
      (milli (pos 250)) (milli (pos 200)) setpoints

-- A height effort with a roll correction: the differential is kept, the collective takes what is left.
abbrev level_commands : List Num
level_commands =
    milli (pos 200)
    ∷ milli (pos 200)
    ∷ milli (pos 0)
    ∷ milli (pos 0)
    ∷ milli (pos 0)
    ∷ milli (pos 0)
    ∷ milli (pos 0)
    ∷ milli (pos 0)
    ∷ []

levelled :
    altitude_level_pwm_commands
      (milli (pos 900))
      (milli (pos 100))
      (milli (pos 0))
      (milli (pos 200))
      (milli (pos 1000))
    ≡ ok level_commands
unfolding altitude_level_pwm_commands np_max np_min clip is_close
levelled = refl

altitude_level_pwm_commands-IsBounded_example :
    All (IsBounded (num_floats.abs (milli (pos 200)))) level_commands
    × (drop 4 level_commands ≡ zeros)
altitude_level_pwm_commands-IsBounded_example =
    altitude_level_pwm_commands-IsBounded (milli (pos 900)) (milli (pos 100)) (milli (pos 0))
      (milli (pos 200)) (milli (pos 1000)) levelled

-- The other axis is saturated already: the integral is held.
held :
    conditional_axis_integral_effort
      (milli (pos 10))
      (milli (pos 1000))
      (milli (pos 500))
      (milli (pos 100))
      (milli (pos 100))
      (milli (pos 150) ∷ milli (pos 100) ∷ [])
      0
      (milli (pos 200))
    ≡ ok (milli (pos 10))
unfolding conditional_axis_integral_effort vec clip peak_with add_at
held = refl

conditional_axis_integral_effort-IsWithin_example :
    IsWithin (milli (pos 100)) (milli (pos 10))
    × ((lt
            (milli (pos 200) ⊕ lit 1 12)
            (peak_with (milli (pos 150) ∷ milli (pos 100) ∷ []) 0 (milli (pos 10)))
          ≡ false)
        ⊎ (lt
              (peak_with
                  (milli (pos 150) ∷ milli (pos 100) ∷ [])
                  0
                  (clip (milli (pos 10)) (num_floats.neg (milli (pos 100))) (milli (pos 100)))
                ⊕ lit 1 12)
              (peak_with (milli (pos 150) ∷ milli (pos 100) ∷ []) 0 (milli (pos 10)))
            ≡ false))
conditional_axis_integral_effort-IsWithin_example =
    conditional_axis_integral_effort-IsWithin (milli (pos 10)) (milli (pos 1000)) (milli (pos 500))
      (milli (pos 100)) (milli (pos 100)) (milli (pos 150) ∷ milli (pos 100) ∷ []) 0
      (milli (pos 200)) held

abbrev gyro : List (List Num)
gyro =
    (milli (pos 0) ∷ milli (pos 10) ∷ milli (pos 0) ∷ [])
    ∷ (milli (pos 0) ∷ milli (pos 20) ∷ milli (pos 0) ∷ [])
    ∷ (milli (pos 0) ∷ milli (pos 30) ∷ milli (pos 0) ∷ [])
    ∷ []

abbrev newest_gyro : List Num
newest_gyro = milli (pos 0) ∷ milli (pos 30) ∷ milli (pos 0) ∷ []

abbrev seconds_apart : List ℤ
seconds_apart = pos 0 ∷ pos 1000000000 ∷ pos 2000000000 ∷ []

abbrev limited_gyro : List Num
limited_gyro = milli (pos 0) ∷ milli (pos 31) ∷ milli (pos 0) ∷ []

-- The fitted line would add 2 mrad/s after a second, and 1 is allowed.
predicted :
    timestamped_rate_prediction seconds_apart gyro
      (milli (pos 1000))
      (milli (pos 1000))
      (milli (pos 1))
    ≡ ok limited_gyro
unfolding timestamped_rate_prediction corrected_rate predicted_rate clip seconds
predicted = refl

timestamped_rate_prediction-AreNear_example : AreNear (milli (pos 1)) newest_gyro limited_gyro
timestamped_rate_prediction-AreNear_example =
    timestamped_rate_prediction-AreNear seconds_apart gyro (milli (pos 1000)) (milli (pos 1000))
      (milli (pos 1)) newest_gyro refl predicted

abbrev gains : PidGains Num
gains = record {
  kp = milli (pos 2000);
  ki = milli (pos 1000);
  kd = milli (pos 0);
  integral_limit = milli (pos 300);
  output_limit = milli (pos 500);
  derivative_cutoff_hz = milli (pos 0);
}

abbrev pid_input : ℤ → PidInput Num
pid_input setpoint = record {
  setpoint = milli setpoint;
  measurement = milli (pos 0);
  dt = milli (pos 100);
  feedforward = milli (pos 0);
  output_limit = none;
  integral_enabled = true;
}

-- An error of one asks for two and is held at the limit, one of a tenth is passed on.
step_saturates : (step gains reset (pid_input (pos 1000))).1 ≡ ok (milli (pos 500))
unfolding step settle observed derivative raw_derivative smoothing proposed_integral unsaturated
    limit_of can_integrate reset clip is_close py_max
step_saturates = refl

step_passes : (step gains reset (pid_input (pos 100))).1 ≡ ok (milli (pos 210))
unfolding step settle observed derivative raw_derivative smoothing proposed_integral unsaturated
    limit_of can_integrate reset clip is_close py_max
step_passes = refl

step-IsBounded_example : IsBounded (limit_of gains (pid_input (pos 1000))) (milli (pos 500))
step-IsBounded_example = step-IsBounded gains reset (pid_input (pos 1000)) step_saturates

run-reset-IsBounded_example :
    IsBounded
      (num_floats.abs gains.integral_limit)
      (run gains
        (step_call (pid_input (pos 100)) ∷ reset_call ∷ step_call (pid_input (pos 90)) ∷ [])
        reset).integral
run-reset-IsBounded_example =
    run-reset-IsBounded gains
      (step_call (pid_input (pos 100)) ∷ reset_call ∷ step_call (pid_input (pos 90)) ∷ []) refl

step_returns_iff_example :
    ((output : Num) × ((step gains reset (pid_input (pos 1000))).1 ≡ ok output))
    ↔ Accepts gains reset (pid_input (pos 1000))
step_returns_iff_example = step_returns_iff gains reset (pid_input (pos 1000))

limit_finite : num_floats.is_finite (limit_of gains (pid_input (pos 1000))) ≡ true
unfolding limit_of
limit_finite = refl

demand_saturates :
    (lt (limit_of gains (pid_input (pos 1000))) (demand gains reset (pid_input (pos 1000))) ≡ true)
    × (is_same (demand gains reset (pid_input (pos 1000))) (limit_of gains (pid_input (pos 1000)))
        ≡ false)
    × (lt (milli (pos 1000) ⊖ milli (pos 0)) zero_float ≡ false)
unfolding derivative raw_derivative smoothing proposed_integral unsaturated limit_of reset clip
    is_close py_max
demand_saturates = (refl, refl, refl)

step_holds_integral_example :
    (step gains reset (pid_input (pos 1000))).0.integral ≡ (reset {F = Num}).integral
step_holds_integral_example =
    step_holds_integral gains reset (pid_input (pos 1000)) refl limit_finite (inl demand_saturates)
