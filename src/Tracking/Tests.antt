-- ===== src/Tracking/Tests.antt =====
-- A short history of the tracking monitor, and the theorems at concrete inputs.
use robot_core.Prelude.{◌≡◌, refl, true, false, Option, some, List, [], ◌∷◌}
use robot_core.Prelude.Results.{Result, ok}
use robot_core.Floats.{lit, zero_float, one_float, seconds, py_max, py_min}
use robot_core.Floats.Model.{Num, num_floats}
use robot_core.Tracking.Rotation.{
  Vector3, Quaternion, vector_norm, quaternion_norm, quat_conjugate_wxyz, quat_apply_wxyz,
  quaternion_to_rpy, rpy_quaternion, quaternion_error_body, shortest,
}
use robot_core.Tracking.{
  BodyState, Imu, Target, TrackingMonitor, TrackingStatus, no_inputs, on_body_state, imu_is_usable,
  on_imu, on_trajectory_target, max_age, inputs_are_fresh, estimate_actual_acceleration,
  control_attitude, status_of, is_valid, prepared, sample, tick, Arrived, body_input, imu_input,
  target_input, callback, run_callbacks,
}
use robot_core.Tracking.Valid.{IsFresh, tick_valid}

abbrev zero_vector : Vector3 Num
zero_vector = record { x = zero_float; y = zero_float; z = zero_float }

abbrev upright : Quaternion Num
upright = record { w = one_float; x = zero_float; y = zero_float; z = zero_float }

abbrev body : BodyState Num
body = record {
  frame_id = "map";
  position = zero_vector;
  orientation = upright;
  linear_velocity = zero_vector;
  state_valid = true;
  position_estimated = false;
  linear_velocity_valid = true;
}

abbrev imu : Imu Num
imu = record {
  frame_id = "base_link";
  orientation = upright;
  orientation_covariance_0 = zero_float;
  angular_velocity = zero_vector;
}

abbrev target : Target Num
target = record {
  frame_id = "map";
  trajectory_type = "hold";
  control_mode = "station_hold";
  valid = true;
  time_s = zero_float;
  position = zero_vector;
  orientation = upright;
  linear_velocity = zero_vector;
  angular_velocity = zero_vector;
  linear_acceleration = zero_vector;
}

-- 0.15 s
abbrev limit_s : Num
limit_s = lit 15 2

abbrev history : List (Arrived Num)
history = body_input body 1000 ∷ imu_input imu 2000 ∷ target_input target 3000 ∷ []

abbrev filled : TrackingMonitor Num
filled = run_callbacks limit_s history no_inputs

-- The status of the last tick.
abbrev published : Result (Option (TrackingStatus Num)) → List (TrackingStatus Num)
published (ok (some status)) = status ∷ []
published _ = []

abbrev unpublished : TrackingStatus Num
unpublished = record {
  stamp_ns = 0;
  frame_id = "";
  trajectory_type = "";
  control_mode = "";
  valid = false;
  time_s = zero_float;
  target_position = zero_vector;
  actual_position = zero_vector;
  target_orientation = upright;
  actual_orientation = upright;
  target_velocity_body = zero_vector;
  actual_velocity_body = zero_vector;
  target_acceleration_body = zero_vector;
  actual_acceleration_body = zero_vector;
  target_angular_velocity_body = zero_vector;
  actual_angular_velocity_body = zero_vector;
  position_error_body = zero_vector;
  orientation_error_body = zero_vector;
  position_error_m = zero_float;
  orientation_error_rad = zero_float;
  velocity_error_mps = zero_float;
  angular_velocity_error_rps = zero_float;
  speed_mps = zero_float;
  acceleration_mps2 = zero_float;
}

abbrev first_or : TrackingStatus Num → List (TrackingStatus Num) → TrackingStatus Num
first_or default [] = default
first_or default (status ∷ rest) = status

abbrev last_published : TrackingStatus Num
last_published = first_or unpublished (published (tick limit_s 5000 filled).1)

tick-publishes : (tick limit_s 5000 filled).1 ≡ ok (some last_published)
unfolding tick sample prepared inputs_are_fresh max_age control_attitude status_of is_valid
    estimate_actual_acceleration run_callbacks callback on_body_state on_imu on_trajectory_target
    imu_is_usable quaternion_to_rpy quaternion_norm rpy_quaternion quat_conjugate_wxyz
    quat_apply_wxyz quaternion_error_body vector_norm shortest seconds py_max py_min
tick-publishes = refl

last_published-valid : last_published.valid ≡ true
unfolding tick sample prepared inputs_are_fresh max_age control_attitude status_of is_valid
    estimate_actual_acceleration run_callbacks callback on_body_state on_imu on_trajectory_target
    imu_is_usable quaternion_to_rpy quaternion_norm rpy_quaternion quat_conjugate_wxyz
    quat_apply_wxyz quaternion_error_body vector_norm shortest seconds py_max py_min
last_published-valid = refl

tick_valid_example :
    let s = run_callbacks limit_s history no_inputs in
    (body : BodyState Num) × (imu : Imu Num) × (target : Target Num) × (s.last_body ≡ some body)
    × (s.last_imu ≡ some imu)
    × (s.last_target ≡ some target)
    × IsFresh limit_s 5000 s
    × (imu_is_usable imu ≡ true)
    × (is_valid true body target ≡ true)
tick_valid_example =
    tick_valid limit_s history 5000 {status = last_published} tick-publishes last_published-valid

abbrev nothing : TrackingMonitor Num
nothing = no_inputs
