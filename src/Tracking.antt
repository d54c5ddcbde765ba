-- ===== src/Tracking.antt =====
-- ros_ws/src/robotcore_runtime/robotcore_runtime/tracking_monitor_node.py: the tracking diagnostics.
-- A callback is a function of the node's state and the clock; a tick gives the status to publish, if
-- any, or the exception that it raises.
pub mod Rotation
pub mod Valid
mod Tests
use robot_core.Prelude.{
  ℕ, String, Bool, true, false, not, ◌&&◌, ◌||◌, Option, none, some, List, [], ◌∷◌, str_eq,
  if◌then◌else◌,
}
use robot_core.Prelude.Int.{ℤ, pos, sub_ℕ, ltb_ℤ}
use robot_core.Prelude.Results.{Result, ok, err, value_error, overflow_error, ◌>>=◌}
use robot_core.Floats.{Floats, lt, le, lit, ◌⊕◌, ◌⊖◌, ◌⊗◌, ◌⊘◌, zero_float, one_float, seconds}
use robot_core.Tracking.Rotation.{
  Vector3, Quaternion, vector_norm, quaternion_norm, quat_conjugate_wxyz, quat_apply_wxyz,
  quaternion_to_rpy, rpy_quaternion, quaternion_error_body,
}

-- The message fields that the node reads.
pub record BodyState (F : Type 0) : Type 0 where
  pub frame_id : String
  pub position : Vector3 F
  pub orientation : Quaternion F
  pub linear_velocity : Vector3 F
  pub state_valid : Bool
  pub position_estimated : Bool
  pub linear_velocity_valid : Bool

pub record Imu (F : Type 0) : Type 0 where
  pub frame_id : String
  pub orientation : Quaternion F
  pub orientation_covariance_0 : F
  pub angular_velocity : Vector3 F

pub record Target (F : Type 0) : Type 0 where
  pub frame_id : String
  pub trajectory_type : String
  pub control_mode : String
  pub valid : Bool
  pub time_s : F
  pub position : Vector3 F
  pub orientation : Quaternion F
  pub linear_velocity : Vector3 F
  pub angular_velocity : Vector3 F
  pub linear_acceleration : Vector3 F

pub record TrackingMonitor (F : Type 0) : Type 0 where
  pub last_body : Option (BodyState F)
  pub last_body_ns : Option ℕ
  pub last_imu : Option (Imu F)
  pub last_imu_ns : Option ℕ
  pub last_target : Option (Target F)
  pub last_target_ns : Option ℕ
  pub previous_velocity : Option (Vector3 F × ℕ)
  pub filtered_acceleration_body : Vector3 F

pub record TrackingStatus (F : Type 0) : Type 0 where
  pub stamp_ns : ℕ
  pub frame_id : String
  pub trajectory_type : String
  pub control_mode : String
  pub valid : Bool
  pub time_s : F
  pub target_position : Vector3 F
  pub actual_position : Vector3 F
  pub target_orientation : Quaternion F
  pub actual_orientation : Quaternion F
  pub target_velocity_body : Vector3 F
  pub actual_velocity_body : Vector3 F
  pub target_acceleration_body : Vector3 F
  pub actual_acceleration_body : Vector3 F
  pub target_angular_velocity_body : Vector3 F
  pub actual_angular_velocity_body : Vector3 F
  pub position_error_body : Vector3 F
  pub orientation_error_body : Vector3 F
  pub position_error_m : F
  pub orientation_error_rad : F
  pub velocity_error_mps : F
  pub angular_velocity_error_rps : F
  pub speed_mps : F
  pub acceleration_mps2 : F

-- `(now_ns - since_ns) <= max_age_ns`
abbrev pub is_recent : ℤ → ℕ → Option ℕ → Bool
is_recent max_age_ns now_ns none = false
is_recent max_age_ns now_ns (some since_ns) = not (ltb_ℤ max_age_ns (sub_ℕ now_ns since_ns))

abbrev or_else : String → String → String
or_else a b = if str_eq a "" then b else a

module _ {F : Type 0} ⦃fl : Floats F⦄ where
  abbrev pub no_inputs : TrackingMonitor F
  no_inputs = record {
    last_body = none;
    last_body_ns = none;
    last_imu = none;
    last_imu_ns = none;
    last_target = none;
    last_target_ns = none;
    previous_velocity = none;
    filtered_acceleration_body = record { x = zero_float; y = zero_float; z = zero_float };
  }

  abbrev difference : Vector3 F → Vector3 F → Vector3 F
  difference a b = record { x = a.x ⊖ b.x; y = a.y ⊖ b.y; z = a.z ⊖ b.z }

  pub on_body_state : BodyState F → ℕ → TrackingMonitor F → TrackingMonitor F
  on_body_state m now_ns s = record s { last_body = some m; last_body_ns = some now_ns }

  -- The IMU message that `on_imu` does not drop.
  pub imu_is_usable : Imu F → Bool
  imu_is_usable m =
      let norm = quaternion_norm m.orientation in
      not (
        not (str_eq m.frame_id "base_link")
        || lt m.orientation_covariance_0 zero_float
        || not (fl.is_finite norm)
        || le norm (lit 1 9))

  pub on_imu : Imu F → ℕ → TrackingMonitor F → TrackingMonitor F
  on_imu m now_ns s =
      if imu_is_usable m then record s { last_imu = some m; last_imu_ns = some now_ns } else s

  pub on_trajectory_target : Target F → ℕ → TrackingMonitor F → TrackingMonitor F
  on_trajectory_target m now_ns s = record s { last_target = some m; last_target_ns = some now_ns }

  -- `int(float(max_input_age_s) * 1e9)`
  pub max_age : F → Result ℤ
  max_age max_input_age_s =
      let age = max_input_age_s ⊗ lit 1_000_000_000 0 in
      elim (fl.truncate age) [
        | some n ↦ ok n
        | none ↦
            if le age age
            then err overflow_error
            else err (value_error "cannot convert float NaN to integer")
      ]

  pub inputs_are_fresh : F → ℕ → TrackingMonitor F → Result Bool
  inputs_are_fresh max_input_age_s now_ns s = do
    max_age_ns ← max_age max_input_age_s
    ok (
        is_recent max_age_ns now_ns s.last_body_ns
        && is_recent max_age_ns now_ns s.last_imu_ns
        && is_recent max_age_ns now_ns s.last_target_ns)

  abbrev filtered : F → F → F → F
  filtered raw old dt = lit 35 2 ⊗ (raw ⊘ dt) ⊕ (one_float ⊖ lit 35 2) ⊗ old

  -- The state keeps the last velocity and the filter's output; the output is returned.
  pub estimate_actual_acceleration : Vector3 F → ℕ → TrackingMonitor F → TrackingMonitor F
  estimate_actual_acceleration velocity now_ns s = elim s.previous_velocity [
    | none ↦ record s { previous_velocity = some (velocity, now_ns) }
    | some before ↦
        let dt = seconds (sub_ℕ now_ns before.1) in
        let change = difference velocity before.0 in
        let old = s.filtered_acceleration_body in
        if le dt (lit 1 4) then s else record s {
          previous_velocity = some (velocity, now_ns);
          filtered_acceleration_body = record {
            x = filtered change.x old.x dt;
            y = filtered change.y old.y dt;
            z = filtered change.z old.z dt;
          };
        }
  ]

  -- Roll and pitch of the IMU, yaw of the localization.
  pub control_attitude : Imu F → BodyState F → Result (Quaternion F)
  control_attitude imu body = do
    imu_rpy ← quaternion_to_rpy imu.orientation
    map_rpy ← quaternion_to_rpy body.orientation
    ok (rpy_quaternion imu_rpy.x imu_rpy.y map_rpy.z)

  -- The status of one tick, from the three messages, the validity and the filter's output.
  pub status_of :
      ℕ
      → Bool
      → BodyState F
      → Imu F
      → Target F
      → Quaternion F
      → Vector3 F
      → Result (TrackingStatus F)
  status_of now_ns valid body imu target attitude acceleration = do
    let map_to_body = quat_conjugate_wxyz body.orientation
    let attitude_to_body = quat_conjugate_wxyz attitude
    let target_velocity = quat_apply_wxyz map_to_body target.linear_velocity
    let target_acceleration = quat_apply_wxyz map_to_body target.linear_acceleration
    let error_world = difference target.position body.position
    let target_angular = quat_apply_wxyz attitude_to_body target.angular_velocity
    let orientation_error = quaternion_error_body attitude target.orientation
    position_error_m ← vector_norm error_world
    orientation_error_rad ← vector_norm orientation_error
    velocity_error_mps ← vector_norm (difference target_velocity body.linear_velocity)
    angular_error_rps ← vector_norm (difference target_angular imu.angular_velocity)
    speed_mps ← vector_norm body.linear_velocity
    acceleration_mps2 ← vector_norm acceleration
    ok (record {
      stamp_ns = now_ns;
      frame_id = or_else body.frame_id (or_else target.frame_id "map");
      trajectory_type = target.trajectory_type;
      control_mode = target.control_mode;
      valid = valid;
      time_s = target.time_s;
      target_position = target.position;
      actual_position = body.position;
      target_orientation = target.orientation;
      actual_orientation = attitude;
      target_velocity_body = target_velocity;
      actual_velocity_body = body.linear_velocity;
      target_acceleration_body = target_acceleration;
      actual_acceleration_body = acceleration;
      target_angular_velocity_body = target_angular;
      actual_angular_velocity_body = imu.angular_velocity;
      position_error_body = quat_apply_wxyz map_to_body error_world;
      orientation_error_body = orientation_error;
      position_error_m = position_error_m;
      orientation_error_rad = orientation_error_rad;
      velocity_error_mps = velocity_error_mps;
      angular_velocity_error_rps = angular_error_rps;
      speed_mps = speed_mps;
      acceleration_mps2 = acceleration_mps2;
    })

  pub is_valid : Bool → BodyState F → Target F → Bool
  is_valid fresh body target =
      fresh
      && (body.state_valid || body.position_estimated)
      && body.linear_velocity_valid
      && target.valid

  prepared : F → ℕ → BodyState F → Imu F → TrackingMonitor F → Result (Bool × Quaternion F)
  prepared max_input_age_s now_ns body imu s = do
    fresh ← inputs_are_fresh max_input_age_s now_ns s
    attitude ← control_attitude imu body
    ok (fresh, attitude)

  -- The tick with the three messages there. What raises before the filter leaves the state.
  sample :
      F
      → ℕ
      → BodyState F
      → Imu F
      → Target F
      → TrackingMonitor F
      → TrackingMonitor F × Result (Option (TrackingStatus F))
  sample max_input_age_s now_ns body imu target s =
      elim (prepared max_input_age_s now_ns body imu s) [
        | err e ↦ (s, err e)
        | ok (fresh, attitude) ↦
            let s' = estimate_actual_acceleration body.linear_velocity now_ns s in
            let valid = is_valid fresh body target in
            (
              s',
              do
                status ←
                    status_of now_ns valid body imu target attitude s'.filtered_acceleration_body
                ok (some status),
            )
      ]

  pub tick : F → ℕ → TrackingMonitor F → TrackingMonitor F × Result (Option (TrackingStatus F))
  unfolding sample
  tick max_input_age_s now_ns s = elim s.last_body [
    | none ↦ (s, ok none)
    | some body ↦ elim s.last_imu [
      | none ↦ (s, ok none)
      | some imu ↦ elim s.last_target [
        | none ↦ (s, ok none)
        | some target ↦ sample max_input_age_s now_ns body imu target s
      ]
    ]
  ]

-- A callback with the clock that it reads.
pub data Arrived (F : Type 0) : Type 0 where
  body_input : BodyState F → ℕ → Arrived F
  imu_input : Imu F → ℕ → Arrived F
  target_input : Target F → ℕ → Arrived F
  tick_input : ℕ → Arrived F

module _ {F : Type 0} ⦃fl : Floats F⦄ (max_input_age_s : F) where
  pub callback : Arrived F → TrackingMonitor F → TrackingMonitor F
  callback (body_input m now_ns) s = on_body_state m now_ns s
  callback (imu_input m now_ns) s = on_imu m now_ns s
  callback (target_input m now_ns) s = on_trajectory_target m now_ns s
  callback (tick_input now_ns) s = (tick max_input_age_s now_ns s).0

  pub run_callbacks : List (Arrived F) → TrackingMonitor F → TrackingMonitor F
  run_callbacks [] s = s
  run_callbacks (i ∷ is) s = run_callbacks is (callback i s)
