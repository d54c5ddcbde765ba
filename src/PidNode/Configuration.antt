-- ===== src/PidNode/Configuration.antt =====
-- `load_configuration`: the parameters are checked, and the configuration is what they say, or one in
-- which nothing is approved. The texts of the errors and the hash are left out.
pub mod Valid
mod Tests
use robot_core.Prelude.{
  ℕ, String, Bool, true, false, not, ◌&&◌, ◌||◌, List, [], ◌∷◌, map, take, leb, if◌then◌else◌,
}
use robot_core.Prelude.Int.{ℤ, pos, negsuc}
use robot_core.Prelude.Results.{Result, ok, err, ◌>>=◌, ◌>>◌, raise_if}
use robot_core.Floats.{Floats, lt, le, lit, zero_float, one_float}
use robot_core.Floats.Vectors.{any, all, all_finite, is_negative, is_close}
use robot_core.Control.{vec}
use robot_core.Control.Pid.{PidGains}
use robot_core.PidNode.{PidConfig}

-- The parameters that are declared: the doubles by their name, the others each by itself.
pub record Parameters (F : Type 0) : Type 0 where
  pub float_of : String → F
  pub configuration_ready : Bool
  pub fast_station_surge_pitch_decoupling_enabled : Bool
  pub station_position_kp : List F
  pub fast_station_level_rate_limit_rps : List F
  pub imu_rate_history_samples : ℤ

-- `max(3, min(requested_history, 15))`
pub history_of : ℤ → ℕ
history_of (pos n) = if leb 15 n then 15 else if leb n 3 then 3 else n
history_of (negsuc n) = 3

-- `3 <= imu_rate_history_samples <= 15`
pub is_history : ℤ → Bool
is_history (pos n) = leb 3 n && leb n 15
is_history (negsuc n) = false

module _ {F : Type 0} ⦃fl : Floats F⦄ where
  pub altitude_values : Parameters F → List F
  altitude_values p = map p.float_of (
      "altitude_pwm_kp" ∷ "altitude_pwm_ki" ∷ "altitude_pwm_kd" ∷ "altitude_pwm_integral_limit"
      ∷ "altitude_velocity_filter_time_constant_s" ∷ "altitude_pwm_command_sign" ∷ [])

  pub station_values : Parameters F → List F
  station_values p = map p.float_of (
      "station_surge_pwm_kp" ∷ "station_surge_pwm_ki" ∷ "station_surge_pwm_kd"
      ∷ "station_surge_integral_limit" ∷ "station_sway_pwm_kp" ∷ "fast_station_sway_pwm_kp"
      ∷ "fast_station_sway_pwm_feedforward_positive_gain"
      ∷ "fast_station_sway_pwm_feedforward_negative_gain"
      ∷ "fast_station_sway_effort_slew_rate_per_s" ∷ "station_sway_pwm_ki" ∷ "station_sway_pwm_kd"
      ∷ "station_sway_integral_limit" ∷ "station_yaw_pwm_kp" ∷ "station_yaw_pwm_ki"
      ∷ "station_yaw_integral_limit" ∷ "station_yaw_heading_kp" ∷ "station_horizontal_axis_limit"
      ∷ "station_yaw_axis_limit" ∷ "station_surge_rate_limit" ∷ "fast_station_surge_rate_limit"
      ∷ "fast_station_sway_rate_limit" ∷ "fast_station_lateral_yaw_axis_limit"
      ∷ "fast_station_sway_yaw_compensation_gain"
      ∷ "fast_station_lateral_yaw_effort_slew_rate_per_s" ∷ "station_yaw_rate_limit"
      ∷ "fast_station_level_pwm_limit" ∷ [])

  pub level_values : Parameters F → List F
  level_values p = map p.float_of (
      "fast_station_roll_angle_to_rate_kp" ∷ "fast_station_pitch_angle_to_rate_kp"
      ∷ "fast_station_roll_rate_kp" ∷ "fast_station_pitch_rate_kp" ∷ "fast_station_pitch_rate_ki"
      ∷ "fast_station_pitch_rate_integral_effort_limit" ∷ "fast_station_surge_pitch_forward_gain"
      ∷ "fast_station_surge_pitch_reverse_gain" ∷ "fast_station_surge_pitch_limit" ∷ [])

  pub imu_values : Parameters F → List F
  imu_values p = map p.float_of (
      "imu_rate_outlier_limit_rps" ∷ "imu_rate_prediction_horizon_s"
      ∷ "imu_rate_prediction_accel_limit_rps2" ∷ "imu_rate_prediction_delta_limit_rps"
      ∷ "imu_rate_filter_time_constant_s" ∷ [])

  -- `not math.isfinite(value) or value < 0.0`
  pub is_refused : F → Bool
  is_refused x = not (fl.is_finite x) || lt x zero_float

  -- `math.isfinite(value) and value >= 0.0`
  pub is_nonneg : F → Bool
  is_nonneg x = fl.is_finite x && le zero_float x

  abbrev gains_of : F → F → F → F → F → PidGains F
  gains_of kp ki kd integral_limit cutoff = record {
    kp = kp;
    ki = ki;
    kd = kd;
    integral_limit = integral_limit;
    output_limit = one_float;
    derivative_cutoff_hz = cutoff;
  }

  -- The configuration that the parameters say.
  pub accepted : Parameters F → (station_position_kp level_rate_limit : List F) → PidConfig F
  unfolding history_of
  accepted p station_position_kp level_rate_limit = record {
    pid_configured = p.configuration_ready;
    control_rate_hz = p.float_of "control_rate_hz";
    max_input_age_s = p.float_of "max_input_age_s";
    imu_rate_history = history_of p.imu_rate_history_samples;
    altitude_gains =
        gains_of (p.float_of "altitude_pwm_kp") (p.float_of "altitude_pwm_ki")
          (p.float_of "altitude_pwm_kd") (p.float_of "altitude_pwm_integral_limit")
          (p.float_of "derivative_cutoff_hz");
    altitude_pwm_command_sign = fl.copysign one_float (p.float_of "altitude_pwm_command_sign");
    station_surge_gains =
        gains_of (p.float_of "station_surge_pwm_kp") (p.float_of "station_surge_pwm_ki")
          (p.float_of "station_surge_pwm_kd") (p.float_of "station_surge_integral_limit")
          (p.float_of "derivative_cutoff_hz");
    station_sway_gains =
        gains_of (p.float_of "station_sway_pwm_kp") (p.float_of "station_sway_pwm_ki")
          (p.float_of "station_sway_pwm_kd") (p.float_of "station_sway_integral_limit")
          (p.float_of "derivative_cutoff_hz");
    fast_station_sway_gains =
        gains_of (p.float_of "fast_station_sway_pwm_kp") (p.float_of "station_sway_pwm_ki")
          (p.float_of "station_sway_pwm_kd") (p.float_of "station_sway_integral_limit")
          (p.float_of "derivative_cutoff_hz");
    station_yaw_gains =
        gains_of (p.float_of "station_yaw_pwm_kp") (p.float_of "station_yaw_pwm_ki") zero_float
          (p.float_of "station_yaw_integral_limit") (p.float_of "derivative_cutoff_hz");
    station_position_kp = station_position_kp;
    fast_station_level_rate_limit_rps = level_rate_limit;
    fast_station_level_angle_to_rate_kp =
        p.float_of "fast_station_roll_angle_to_rate_kp"
        ∷ p.float_of "fast_station_pitch_angle_to_rate_kp"
        ∷ [];
    fast_station_level_rate_kp =
        p.float_of "fast_station_roll_rate_kp" ∷ p.float_of "fast_station_pitch_rate_kp" ∷ [];
    fast_station_surge_pitch_decoupling_enabled = p.fast_station_surge_pitch_decoupling_enabled;
    station_yaw_pwm_ki = p.float_of "station_yaw_pwm_ki";
    station_yaw_heading_kp = p.float_of "station_yaw_heading_kp";
    station_yaw_rate_limit = p.float_of "station_yaw_rate_limit";
    station_horizontal_axis_limit = p.float_of "station_horizontal_axis_limit";
    station_yaw_axis_limit = p.float_of "station_yaw_axis_limit";
    station_surge_rate_limit = p.float_of "station_surge_rate_limit";
    station_sway_rate_limit = p.float_of "station_sway_rate_limit";
    fast_station_surge_rate_limit = p.float_of "fast_station_surge_rate_limit";
    fast_station_sway_rate_limit = p.float_of "fast_station_sway_rate_limit";
    fast_station_lateral_yaw_axis_limit = p.float_of "fast_station_lateral_yaw_axis_limit";
    fast_station_sway_pwm_feedforward_positive_gain =
        p.float_of "fast_station_sway_pwm_feedforward_positive_gain";
    fast_station_sway_pwm_feedforward_negative_gain =
        p.float_of "fast_station_sway_pwm_feedforward_negative_gain";
    fast_station_sway_effort_slew_rate_per_s =
        p.float_of "fast_station_sway_effort_slew_rate_per_s";
    fast_station_sway_yaw_compensation_gain = p.float_of "fast_station_sway_yaw_compensation_gain";
    fast_station_lateral_yaw_effort_slew_rate_per_s =
        p.float_of "fast_station_lateral_yaw_effort_slew_rate_per_s";
    fast_station_level_pwm_limit = p.float_of "fast_station_level_pwm_limit";
    fast_station_pitch_rate_ki = p.float_of "fast_station_pitch_rate_ki";
    fast_station_pitch_rate_integral_effort_limit =
        p.float_of "fast_station_pitch_rate_integral_effort_limit";
    fast_station_surge_pitch_forward_gain = p.float_of "fast_station_surge_pitch_forward_gain";
    fast_station_surge_pitch_reverse_gain = p.float_of "fast_station_surge_pitch_reverse_gain";
    fast_station_surge_pitch_limit = p.float_of "fast_station_surge_pitch_limit";
    altitude_velocity_filter_time_constant_s =
        p.float_of "altitude_velocity_filter_time_constant_s";
    altitude_position_kp = p.float_of "altitude_position_kp";
    imu_rate_outlier_limit_rps = p.float_of "imu_rate_outlier_limit_rps";
    imu_rate_prediction_horizon_s = p.float_of "imu_rate_prediction_horizon_s";
    imu_rate_prediction_accel_limit_rps2 = p.float_of "imu_rate_prediction_accel_limit_rps2";
    imu_rate_prediction_delta_limit_rps = p.float_of "imu_rate_prediction_delta_limit_rps";
    imu_rate_filter_time_constant_s = p.float_of "imu_rate_filter_time_constant_s";
    imu_orientation_filter_time_constant_s = p.float_of "imu_orientation_filter_time_constant_s";
  }

  -- `PidGains(0, 0, 0, 0, 0)`
  abbrev no_gains : PidGains F
  no_gains = record {
    kp = zero_float;
    ki = zero_float;
    kd = zero_float;
    integral_limit = zero_float;
    output_limit = zero_float;
    derivative_cutoff_hz = lit 5 0;
  }

  abbrev nothing : List F
  nothing = zero_float ∷ zero_float ∷ []

  -- The configuration after an error.
  pub rejected : Parameters F → PidConfig F
  unfolding history_of
  rejected p = record {
    pid_configured = false;
    control_rate_hz = p.float_of "control_rate_hz";
    max_input_age_s = p.float_of "max_input_age_s";
    imu_rate_history = history_of p.imu_rate_history_samples;
    altitude_gains = no_gains;
    altitude_pwm_command_sign = fl.neg one_float;
    station_surge_gains = no_gains;
    station_sway_gains = no_gains;
    fast_station_sway_gains = no_gains;
    station_yaw_gains = no_gains;
    station_position_kp = nothing;
    fast_station_level_rate_limit_rps = nothing;
    fast_station_level_angle_to_rate_kp = nothing;
    fast_station_level_rate_kp = nothing;
    fast_station_surge_pitch_decoupling_enabled = false;
    station_yaw_pwm_ki = zero_float;
    station_yaw_heading_kp = zero_float;
    station_yaw_rate_limit = zero_float;
    station_horizontal_axis_limit = zero_float;
    station_yaw_axis_limit = zero_float;
    station_surge_rate_limit = zero_float;
    station_sway_rate_limit = zero_float;
    fast_station_surge_rate_limit = zero_float;
    fast_station_sway_rate_limit = zero_float;
    fast_station_lateral_yaw_axis_limit = zero_float;
    fast_station_sway_pwm_feedforward_positive_gain = zero_float;
    fast_station_sway_pwm_feedforward_negative_gain = zero_float;
    fast_station_sway_effort_slew_rate_per_s = zero_float;
    fast_station_sway_yaw_compensation_gain = zero_float;
    fast_station_lateral_yaw_effort_slew_rate_per_s = zero_float;
    fast_station_level_pwm_limit = zero_float;
    fast_station_pitch_rate_ki = zero_float;
    fast_station_pitch_rate_integral_effort_limit = zero_float;
    fast_station_surge_pitch_forward_gain = zero_float;
    fast_station_surge_pitch_reverse_gain = zero_float;
    fast_station_surge_pitch_limit = zero_float;
    altitude_velocity_filter_time_constant_s = lit 2 1;
    altitude_position_kp = zero_float;
    imu_rate_outlier_limit_rps = lit 2 1;
    imu_rate_prediction_horizon_s = lit 4 2;
    imu_rate_prediction_accel_limit_rps2 = lit 4 0;
    imu_rate_prediction_delta_limit_rps = lit 12 2;
    imu_rate_filter_time_constant_s = lit 1 2;
    imu_orientation_filter_time_constant_s = lit 3 2;
  }

  pub are_rates_refused : Parameters F → (station_position_kp level_rate_limit : List F) → Bool
  unfolding is_refused
  are_rates_refused p station_position_kp level_rate_limit =
      any is_negative station_position_kp
      || is_refused (p.float_of "station_sway_rate_limit")
      || any is_negative level_rate_limit
      || is_refused (p.float_of "derivative_cutoff_hz")

  pub are_filters_refused : Parameters F → Bool
  unfolding is_refused
  are_filters_refused p =
      is_refused (p.float_of "imu_rate_filter_time_constant_s")
      || is_refused (p.float_of "imu_orientation_filter_time_constant_s")

  pub read_parameters : Parameters F → Result (PidConfig F)
  read_parameters p = do
    station_position_kp ← vec p.station_position_kp 2
    level_rate_limit ← vec p.fast_station_level_rate_limit_rps 2
    raise_if (are_rates_refused p station_position_kp level_rate_limit)
        "station gains, rate limits, and derivative cutoff must be finite and non-negative"
    raise_if (not (all_finite (altitude_values p))) "altitude PWM PID parameters must be finite"
    raise_if (any is_negative (take 5 (altitude_values p)))
        "altitude PWM PID gains and filter must be non-negative"
    raise_if (is_close (lit 1 9) (lit 1 12) (p.float_of "altitude_pwm_command_sign") zero_float)
        "altitude PWM command sign must be non-zero"
    raise_if (is_refused (p.float_of "altitude_position_kp"))
        "altitude position gain must be finite and non-negative"
    raise_if (not (all_finite (station_values p))) "station PWM gains and limit must be finite"
    raise_if (any is_negative (station_values p)) "station PWM gains and limit must be non-negative"
    raise_if (not (all is_nonneg (level_values p)))
        "level cascade and decoupling gains must be finite and non-negative"
    raise_if (not (is_history p.imu_rate_history_samples))
        "IMU rate history must contain 3 to 15 samples"
    raise_if (not (all is_nonneg (imu_values p)))
        "IMU rate estimator settings must be finite and non-negative"
    raise_if (are_filters_refused p) "IMU filter time constants must be finite and non-negative"
    ok (accepted p station_position_kp level_rate_limit)

  pub load_configuration : Parameters F → PidConfig F
  unfolding read_parameters rejected
  load_configuration p = elim (read_parameters p) [ err _ ↦ rejected p | ok config ↦ config ]
