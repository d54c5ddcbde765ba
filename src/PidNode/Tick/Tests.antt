-- ===== src/PidNode/Tick/Tests.antt =====
-- A tick of the height hold with concrete inputs, and the theorems there.
use robot_core.Prelude.{◌≡◌, ◌⊎◌, refl, true, false, some, [], ◌∷◌}
use robot_core.Prelude.Int.{ℤ, pos, negsuc}
use robot_core.Prelude.Results.{ok}
use robot_core.Floats.{le, lit, clip, py_min, py_max, seconds, zero_float, one_float}
use robot_core.Floats.Vectors.{is_close}
use robot_core.Floats.Model.{Num, num_floats}
use robot_core.Python.Texts.{eq_lowered}
use robot_core.Tracking.{BodyState}
use robot_core.Tracking.Rotation.{Vector3, Quaternion}
use robot_core.Logger.Messages.{TargetMessage}
use robot_core.Control.Pid.{
  PidGains, reset, step, settle, observed, unsaturated, proposed_integral, derivative,
  raw_derivative, smoothing, limit_of, can_integrate,
}
use robot_core.Control.Filters.{first_order_low_pass}
use robot_core.Control.Mixing.{altitude_velocity_setpoint, altitude_collective_pwm_commands}
use robot_core.Control.Quaternions.{
  normalize_quaternion, quaternion_conjugate, quaternion_multiply, quaternion_apply,
  quaternion_error_body,
}
use robot_core.PidNode.{
  PidConfig, PidNode, lowered_in, is_compatible, missing_names, age, is_localized, body_checks,
  target_type, target_mode, target_is_valid, input_checks, input_status, reset_controllers,
  command_limit,
}
use robot_core.PidNode.Horizontal.{step_pid}
use robot_core.PidNode.Vertical.{vertical_speeds, run_altitude}
use robot_core.PidNode.Publish.{Published, action_of, publish_command}
use robot_core.PidNode.Tick.{
  frame_of, enter_mode, hold_axes, hold_level, hold_commands, run_hold, drive, timestep, tick,
}
use robot_core.PidNode.Tick.Safe.{IsDisabled, IsEnabled, IsReady, tick-IsSafe}
use robot_core.PidNode.Events.{initial}

abbrev milli : ℤ → Num
milli n = num_floats.lit n 3

abbrev gains : PidGains Num
gains = record {
  kp = milli (pos 1000);
  ki = zero_float;
  kd = zero_float;
  integral_limit = milli (pos 500);
  output_limit = one_float;
  derivative_cutoff_hz = milli (pos 1500);
}

abbrev pub config : PidConfig Num
config = record {
  pid_configured = true;
  control_rate_hz = milli (pos 50000);
  max_input_age_s = milli (pos 150);
  imu_rate_history = 5;
  imu_rate_outlier_limit_rps = milli (pos 200);
  imu_rate_prediction_horizon_s = milli (pos 40);
  imu_rate_prediction_accel_limit_rps2 = milli (pos 4000);
  imu_rate_prediction_delta_limit_rps = milli (pos 120);
  imu_rate_filter_time_constant_s = milli (pos 10);
  imu_orientation_filter_time_constant_s = milli (pos 30);
  altitude_gains = gains;
  altitude_velocity_filter_time_constant_s = milli (pos 100);
  altitude_pwm_command_sign = milli (negsuc 999);
  altitude_position_kp = milli (pos 250);
  station_surge_gains = gains;
  station_sway_gains = gains;
  fast_station_sway_gains = gains;
  station_yaw_gains = gains;
  station_yaw_pwm_ki = milli (pos 120);
  station_position_kp = zero_float ∷ zero_float ∷ [];
  station_yaw_heading_kp = milli (pos 900);
  station_yaw_rate_limit = milli (pos 600);
  station_horizontal_axis_limit = milli (pos 120);
  station_yaw_axis_limit = milli (pos 200);
  station_surge_rate_limit = milli (pos 400);
  station_sway_rate_limit = milli (pos 200);
  fast_station_surge_rate_limit = milli (pos 500);
  fast_station_sway_rate_limit = milli (pos 200);
  fast_station_lateral_yaw_axis_limit = milli (pos 100);
  fast_station_sway_pwm_feedforward_positive_gain = milli (pos 1800);
  fast_station_sway_pwm_feedforward_negative_gain = milli (pos 1900);
  fast_station_sway_effort_slew_rate_per_s = milli (pos 1200);
  fast_station_sway_yaw_compensation_gain = milli (pos 55);
  fast_station_lateral_yaw_effort_slew_rate_per_s = milli (pos 300);
  fast_station_level_pwm_limit = milli (pos 100);
  fast_station_level_angle_to_rate_kp = milli (pos 1300) ∷ milli (pos 800) ∷ [];
  fast_station_level_rate_kp = milli (pos 200) ∷ milli (pos 350) ∷ [];
  fast_station_level_rate_limit_rps = milli (pos 500) ∷ milli (pos 500) ∷ [];
  fast_station_pitch_rate_ki = milli (pos 200);
  fast_station_pitch_rate_integral_effort_limit = milli (pos 100);
  fast_station_surge_pitch_decoupling_enabled = true;
  fast_station_surge_pitch_forward_gain = milli (pos 80);
  fast_station_surge_pitch_reverse_gain = milli (pos 60);
  fast_station_surge_pitch_limit = milli (pos 60);
}

abbrev zero_vector : Vector3 Num
zero_vector = record { x = zero_float; y = zero_float; z = zero_float }

abbrev upright : Quaternion Num
upright = record { w = one_float; x = zero_float; y = zero_float; z = zero_float }

abbrev pub afloat : BodyState Num
afloat = record {
  frame_id = "map";
  position = zero_vector;
  orientation = upright;
  linear_velocity = zero_vector;
  state_valid = true;
  position_estimated = false;
  linear_velocity_valid = true;
}

abbrev pub deeper : TargetMessage Num
deeper = record {
  trajectory_type = "hold";
  control_mode = "Altitude_Hold";
  trajectory_phase = "";
  time_s = zero_float;
  position = record { x = zero_float; y = zero_float; z = milli (negsuc 799) };
  linear_velocity = zero_vector;
  linear_acceleration = zero_vector;
  orientation = upright;
  angular_velocity = zero_vector;
  angular_acceleration = zero_vector;
  valid = true;
}

abbrev pub ready : PidNode Num
ready = record (initial (milli (pos 250000))) {
  pid_selected = true;
  is_connected = true;
  body = some afloat;
  body_ns = some 1000000000;
  imu_angular_velocity_filtered = some (zero_float ∷ zero_float ∷ zero_float ∷ []);
  imu_orientation_filtered = some upright;
  imu_ns = some 1000000000;
  target = some deeper;
  target_ns = some 1000000000;
  last_tick_ns = some 1000000000;
  absolute_localization_seen = true;
}

abbrev held : PidNode Num
held = record ready {
  last_tick_ns = some 1020000000;
  altitude_hold_active = true;
  altitude_vertical_velocity_filtered = some zero_float;
  altitude_pid = record {
    integral = milli (negsuc 3);
    previous_measurement = some zero_float;
    filtered_derivative = zero_float;
    saturated = false;
  };
}

-- The four vertical thrusters push down by four tenths.
abbrev descending : Published Num
descending = record {
  command = record {
    stamp_ns = 1020000000;
    action =
        milli (pos 400)
        ∷ milli (pos 400)
        ∷ milli (pos 400)
        ∷ milli (pos 400)
        ∷ zero_float
        ∷ zero_float
        ∷ zero_float
        ∷ zero_float
        ∷ [];
    enable = true;
    source = "pid_controller";
  };
  status = record {
    ready = true;
    producing_command = true;
    missing_inputs = [];
    body_state_age_s = milli (pos 20);
    imu_age_s = milli (pos 20);
    target_age_s = milli (pos 20);
    allocation_residual = zero_float;
    saturation_fraction = zero_float;
  };
}

descends : tick config 1020000000 ready ≡ ok (held, some descending)
unfolding initial tick drive run_hold hold_axes hold_level hold_commands vertical_speeds
    run_altitude step_pid frame_of enter_mode input_status input_checks body_checks target_type
    target_mode target_is_valid missing_names age is_localized is_compatible lowered_in
    reset_controllers command_limit publish_command action_of timestep eq_lowered reset step settle
    observed unsaturated proposed_integral derivative raw_derivative smoothing limit_of
    can_integrate first_order_low_pass altitude_velocity_setpoint altitude_collective_pwm_commands
    normalize_quaternion quaternion_conjugate quaternion_multiply quaternion_apply
    quaternion_error_body clip py_min py_max seconds is_close
descends = refl

tick-IsSafe_example :
    (ready.pid_selected ≡ true)
    × (IsDisabled descending
        ⊎ (IsEnabled descending
            × IsReady config 1020000000 ready
            × (le (lit 1 4) (timestep config ready.last_tick_ns 1020000000) ≡ true)
            × (le (timestep config ready.last_tick_ns 1020000000) (lit 1 1) ≡ true)))
tick-IsSafe_example = tick-IsSafe config 1020000000 ready held descending descends
