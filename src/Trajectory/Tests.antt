-- ===== src/Trajectory/Tests.antt =====
-- A stop and a reset of the trajectory, and the theorems at concrete inputs.
use robot_core.Prelude.{String, ◌≡◌, ◌⊎◌, Bool, true, false, none, some, List, [], ◌∷◌}
use robot_core.Floats.{lit, zero_float, one_float}
use robot_core.Floats.Model.{Num, num_floats}
use robot_core.Tracking.Rotation.{Vector3, Quaternion}
use robot_core.Trajectory.{
  Parameters, TrajectoryCommand, control_mode_is_compatible, trajectory_time_s, on_reset_scenario,
  on_stop_scenario, Event, reset_event, position_event, on_events,
}
use robot_core.Trajectory.Gate.{stop_holds, on_reset_scenario_cases}

abbrev origin : Vector3 Num
origin = record { x = zero_float; y = zero_float; z = zero_float }

abbrev level : Quaternion Num
level = record { w = one_float; x = zero_float; y = zero_float; z = zero_float }

abbrev parameters : Parameters Num
parameters = record { trajectory_type = "hold"; control_mode = "station_hold"; center_z = lit 9 1 }

abbrev validated : TrajectoryCommand Num
validated = record {
  started_ns = 0;
  tracking_started = false;
  latest_position = some origin;
  latest_quaternion = some level;
  motion_start_position = some origin;
  motion_start_quaternion = some level;
  altitude_hold_z = none;
  altitude_heave_active = false;
  station_target_position = none;
  station_target_quaternion = none;
  station_planar_active = false;
  station_heave_active = false;
  station_yaw_active = false;
  operator_target_input = none;
  manual_command = none;
  envelope_checked = true;
  envelope_valid = true;
  envelope_rejection_reason = "";
}

abbrev accepts : TrajectoryCommand Num → Bool × String
accepts s = (true, "")

abbrev later : List (Event Num)
later = position_event origin ∷ reset_event parameters 20 ∷ []

stop_holds_example :
    let s' = on_events accepts later (on_stop_scenario 10 validated).0 in
    ((on_reset_scenario parameters 30 s').1.success ≡ false)
    × (trajectory_time_s 30 s' ≡ zero_float)
stop_holds_example = stop_holds accepts later validated 10 30 parameters (tt, (tt, tt))

on_reset_scenario_cases_example :
    let (s', response) = on_reset_scenario parameters 20 validated in
    ((response.success ≡ true)
      × (control_mode_is_compatible parameters.trajectory_type parameters.control_mode ≡ true)
      × ((position : Vector3 Num) × (validated.motion_start_position ≡ some position)
          × (s'.motion_start_position ≡ some position))
      × ((quaternion : Quaternion Num) × (validated.motion_start_quaternion ≡ some quaternion)
          × (s'.motion_start_quaternion ≡ some quaternion))
      × (s'.tracking_started ≡ true)
      × (s'.started_ns ≡ 20))
    ⊎ ((response.success ≡ false) × (s' ≡ validated))
on_reset_scenario_cases_example = on_reset_scenario_cases parameters 20 validated
