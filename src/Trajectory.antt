-- ===== src/Trajectory.antt =====
-- The start gate of ros_ws/src/robotcore_runtime/robotcore_runtime/trajectory_command_node.py: the
-- services that validate, reset and stop a trajectory, and its clock. The parameters are the
-- lower-cased texts that each service reads. The envelope check is an argument; of an arrived pose only
-- the latest position and attitude are kept, as `on_body_state` and `on_imu` store them.
pub mod Gate
mod Tests
use robot_core.Prelude.{
  ℕ, String, Bool, true, false, not, ◌&&◌, ◌||◌, Option, none, some, List, [], ◌∷◌, str_eq, concat,
  if◌then◌else◌,
}
use robot_core.Prelude.Int.{sub_ℕ}
use robot_core.Floats.{Floats, lit, ◌⊕◌, ◌⊖◌, ◌⊗◌, zero_float, one_float, seconds, py_max}
use robot_core.Python.{one_of}
use robot_core.Tracking.Rotation.{Vector3, Quaternion, rpy_quaternion}

abbrev pub automatic_trajectory_types : List String
automatic_trajectory_types = "spatial_lissajous" ∷ "circle" ∷ "racetrack" ∷ "straight_line" ∷ []

pub record Parameters (F : Type 0) : Type 0 where
  pub trajectory_type : String
  pub control_mode : String
  pub center_z : F

pub record TrajectoryCommand (F : Type 0) : Type 0 where
  pub started_ns : ℕ
  pub tracking_started : Bool
  pub latest_position : Option (Vector3 F)
  pub latest_quaternion : Option (Quaternion F)
  pub motion_start_position : Option (Vector3 F)
  pub motion_start_quaternion : Option (Quaternion F)
  pub altitude_hold_z : Option F
  pub altitude_heave_active : Bool
  pub station_target_position : Option (Vector3 F)
  pub station_target_quaternion : Option (Quaternion F)
  pub station_planar_active : Bool
  pub station_heave_active : Bool
  pub station_yaw_active : Bool
  -- The last operator message and the last manual command, with their arrivals.
  pub operator_target_input : Option (Vector3 F × ℕ)
  pub manual_command : Option (List F × ℕ)
  pub envelope_checked : Bool
  pub envelope_valid : Bool
  pub envelope_rejection_reason : String

pub record ServiceResponse : Type 0 where
  pub success : Bool
  pub message : String

pub control_mode_is_compatible : String → String → Bool
control_mode_is_compatible trajectory_type control_mode =
    if str_eq trajectory_type "hold"
    then one_of control_mode
        ("altitude_hold" ∷ "station_hold" ∷ "station_hold_fast" ∷ "rl_policy" ∷ [])
    else if one_of trajectory_type automatic_trajectory_types
    then one_of control_mode ("station_hold" ∷ "station_hold_fast" ∷ "rl_policy" ∷ [])
    else false

-- `trajectory_type in {"hold", *AUTOMATIC_TRAJECTORY_TYPES}`
pub needs_pose : String → Bool
needs_pose trajectory_type =
    str_eq trajectory_type "hold" || one_of trajectory_type automatic_trajectory_types

abbrev incompatible : String → String → ServiceResponse
incompatible trajectory_type control_mode = record {
  success = false;
  message =
      concat (
        "trajectory " ∷ trajectory_type ∷ " is incompatible with control mode " ∷ control_mode
        ∷ []);
}

module _ {F : Type 0} ⦃fl : Floats F⦄ where
  abbrev two : F
  two = lit 2 0

  -- The yaw that `quaternion_to_rpy` gives.
  abbrev yaw_of : Quaternion F → F
  yaw_of q = fl.atan2 (two ⊗ (q.w ⊗ q.z ⊕ q.x ⊗ q.y)) (one_float ⊖ two ⊗ (q.y ⊗ q.y ⊕ q.z ⊗ q.z))

  pub level_heading_quaternion : Quaternion F → Quaternion F
  level_heading_quaternion q = rpy_quaternion zero_float zero_float (yaw_of q)

  -- The trajectory's clock.
  pub trajectory_time_s : ℕ → TrajectoryCommand F → F
  trajectory_time_s now_ns s =
      if not s.tracking_started
      then zero_float
      else py_max zero_float (seconds (sub_ℕ now_ns s.started_ns))

  -- The hold targets that a reset latches from the validated pose.
  latch_targets :
      Parameters F → Vector3 F → Quaternion F → TrajectoryCommand F → TrajectoryCommand F
  latch_targets p position quaternion s =
      if str_eq p.trajectory_type "hold" && str_eq p.control_mode "altitude_hold"
      then record s { altitude_hold_z = some p.center_z; altitude_heave_active = false }
      else if str_eq p.trajectory_type "hold"
          && one_of p.control_mode ("station_hold" ∷ "station_hold_fast" ∷ "rl_policy" ∷ [])
      then record s {
        station_target_position = some (
            if str_eq p.control_mode "station_hold"
            then record position { z = p.center_z }
            else position);
        station_target_quaternion = some (level_heading_quaternion quaternion);
        station_planar_active = false;
        station_heave_active = false;
        station_yaw_active = false;
      }
      else s

  -- A compatible type always needs a pose.
  pub on_reset_scenario :
      Parameters F → ℕ → TrajectoryCommand F → TrajectoryCommand F × ServiceResponse
  unfolding latch_targets
  on_reset_scenario p now_ns s =
      if not (control_mode_is_compatible p.trajectory_type p.control_mode)
      then (s, incompatible p.trajectory_type p.control_mode)
      else elim s.motion_start_position [
        | none ↦ (
          s,
          record {
            success = false;
            message = concat (p.trajectory_type ∷ " requires a validated current body pose" ∷ []);
          },
        )
        | some position ↦ elim s.motion_start_quaternion [
          | none ↦ (
            s,
            record {
              success = false;
              message = concat (p.trajectory_type ∷ " requires a validated current attitude" ∷ []);
            },
          )
          | some quaternion ↦ (
            record (latch_targets p position quaternion s) {
              started_ns = now_ns;
              tracking_started = true;
            },
            record { success = true; message = "trajectory tracking started at 0.00 s" },
          )
        ]
      ]

  pub on_stop_scenario : ℕ → TrajectoryCommand F → TrajectoryCommand F × ServiceResponse
  on_stop_scenario now_ns s = (
    record s {
      tracking_started = false;
      started_ns = now_ns;
      motion_start_position = none;
      motion_start_quaternion = none;
      altitude_hold_z = none;
      altitude_heave_active = false;
      station_target_position = none;
      station_target_quaternion = none;
      station_planar_active = false;
      station_heave_active = false;
      station_yaw_active = false;
      operator_target_input = none;
      manual_command = none;
    },
    record { success = true; message = "trajectory ready; target time held at 0.00 s" },
  )

  -- The envelope check and its reason, once the start pose is latched.
  checked :
      (TrajectoryCommand F → Bool × String)
      → TrajectoryCommand F
      → TrajectoryCommand F × ServiceResponse
  checked envelope s =
      let (valid, reason) = envelope s in
      (
        record s {
          envelope_valid = valid;
          envelope_checked = true;
          envelope_rejection_reason = reason;
        },
        record {
          success = valid;
          message =
              if valid
              then "trajectory envelope is inside all configured limits"
              else if str_eq reason ""
              then "trajectory envelope or safety limits are invalid"
              else reason;
        },
      )

  pub on_validate_scenario :
      (TrajectoryCommand F → Bool × String)
      → Parameters F
      → TrajectoryCommand F
      → TrajectoryCommand F × ServiceResponse
  unfolding checked
  on_validate_scenario envelope p s =
      if not (control_mode_is_compatible p.trajectory_type p.control_mode)
      then (
        record s { envelope_valid = false; envelope_checked = true },
        incompatible p.trajectory_type p.control_mode,
      )
      else if not (needs_pose p.trajectory_type)
      then checked envelope
          (record s { motion_start_position = none; motion_start_quaternion = none })
      else elim s.latest_position [
        | none ↦ no_pose p.trajectory_type s
        | some position ↦ elim s.latest_quaternion [
          | none ↦ no_pose p.trajectory_type s
          | some quaternion ↦ checked envelope (record s {
            motion_start_position = some position;
            motion_start_quaternion = some quaternion;
          })
        ]
      ]
    where
      no_pose : String → TrajectoryCommand F → TrajectoryCommand F × ServiceResponse
      no_pose trajectory_type s = (
        record s { envelope_valid = false; envelope_checked = true },
        record {
          success = false;
          message = concat (trajectory_type ∷ " requires a current valid body pose" ∷ []);
        },
      )

-- A service call with the parameters and the clock that it reads, or an arrived pose.
pub data Event (F : Type 0) : Type 0 where
  reset_event : Parameters F → (now_ns : ℕ) → Event F
  stop_event : (now_ns : ℕ) → Event F
  validate_event : Parameters F → Event F
  position_event : Vector3 F → Event F
  attitude_event : Quaternion F → Event F

module _ {F : Type 0} ⦃fl : Floats F⦄ (envelope : TrajectoryCommand F → Bool × String) where
  pub on_event : Event F → TrajectoryCommand F → TrajectoryCommand F
  on_event (reset_event p now_ns) s = (on_reset_scenario p now_ns s).0
  on_event (stop_event now_ns) s = (on_stop_scenario now_ns s).0
  on_event (validate_event p) s = (on_validate_scenario envelope p s).0
  on_event (position_event position) s = record s { latest_position = some position }
  on_event (attitude_event quaternion) s = record s { latest_quaternion = some quaternion }

  pub on_events : List (Event F) → TrajectoryCommand F → TrajectoryCommand F
  on_events [] s = s
  on_events (e ∷ es) s = on_events es (on_event e s)
