-- ===== src/PidNode/Configuration/Tests.antt =====
-- A configuration that is approved, and the theorem at it.
use robot_core.Prelude.{◌≡◌, refl, true, some, [], ◌∷◌, str_eq, if◌then◌else◌}
use robot_core.Prelude.Int.{pos, negsuc}
use robot_core.Prelude.Results.{ok}
use robot_core.Floats.{clip, py_max, seconds, zero_float, lit}
use robot_core.Floats.Model.{Num, num_floats}
use robot_core.Floats.Vectors.{is_close}
use robot_core.Python.Texts.{eq_lowered}
use robot_core.Control.{vec}
use robot_core.Control.Pid.{reset}
use robot_core.Control.Quaternions.{
  normalize_quaternion, quaternion_conjugate, quaternion_multiply, quaternion_apply,
  quaternion_error_body,
}
use robot_core.PidNode.{
  PidNode, lowered_in, is_compatible, missing_names, age, is_localized, body_checks, target_type,
  target_mode, target_is_valid, input_checks, input_status, reset_controllers,
}
use robot_core.PidNode.Publish.{Published, action_of, neutral, publish_command}
use robot_core.PidNode.Tick.{frame_of, enter_mode, drive, timestep, tick}
use robot_core.PidNode.Tick.Tests.{ready, deeper}
use robot_core.PidNode.Events.{initial}
use robot_core.PidNode.Configuration.{
  Parameters, history_of, is_history, altitude_values, station_values, level_values, imu_values,
  is_refused, is_nonneg, accepted, are_rates_refused, are_filters_refused, read_parameters,
  load_configuration,
}
use robot_core.PidNode.Configuration.Valid.{IsApproved, tick-load_configuration-IsApproved}

abbrev declared : Parameters Num
declared = record {
  float_of = λ name.
      if str_eq name "altitude_pwm_command_sign"
      then num_floats.lit (negsuc 0) 0
      else if str_eq name "max_input_age_s"
      then num_floats.lit (pos 150) 3
      else num_floats.lit (pos 100) 3;
  configuration_ready = true;
  fast_station_surge_pitch_decoupling_enabled = true;
  station_position_kp = lit 1 0 ∷ lit 1 0 ∷ [];
  fast_station_level_rate_limit_rps = lit 5 1 ∷ lit 5 1 ∷ [];
  imu_rate_history_samples = pos 5;
}

abbrev idle : PidNode Num
idle = record ready {
  target = some (record deeper { trajectory_type = "idle"; control_mode = "idle" });
}

abbrev idled : PidNode Num
idled = record idle { last_tick_ns = some 1020000000 }

abbrev waiting : Published Num
waiting = record {
  command = record {
    stamp_ns = 1020000000;
    action = neutral;
    enable = true;
    source = "pid_controller";
  };
  status = record {
    ready = true;
    producing_command = true;
    missing_inputs = [];
    body_state_age_s = lit 20 3;
    imu_age_s = lit 20 3;
    target_age_s = lit 20 3;
    allocation_residual = zero_float;
    saturation_fraction = zero_float;
  };
}

waits : tick (load_configuration declared) 1020000000 idle ≡ ok (idled, some waiting)
unfolding load_configuration read_parameters accepted altitude_values station_values level_values
    imu_values is_refused is_nonneg is_history history_of are_rates_refused are_filters_refused vec
    is_close tick drive frame_of enter_mode input_status input_checks body_checks target_type
    target_mode target_is_valid missing_names age is_localized is_compatible lowered_in
    reset_controllers publish_command action_of timestep eq_lowered initial reset
    normalize_quaternion quaternion_conjugate quaternion_multiply quaternion_apply
    quaternion_error_body clip py_max seconds
waits = refl

tick-load_configuration-IsApproved_example : IsApproved declared
tick-load_configuration-IsApproved_example =
    tick-load_configuration-IsApproved declared 1020000000 idle idled waiting waits refl
