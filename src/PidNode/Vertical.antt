-- ===== src/PidNode/Vertical.antt =====
-- The height loop of `tick`, with the roll and pitch cascade of the fast station mode.
pub mod Kept
use robot_core.Prelude.{
  ℕ, String, Bool, true, false, not, ◌&&◌, ◌||◌, Option, none, some, List, [], ◌∷◌, map,
  if◌then◌else◌,
}
use robot_core.Prelude.Int.{ℤ, pos, negsuc, eq_ℤ}
use robot_core.Prelude.Results.{Result, ok, err, ◌>>=◌}
use robot_core.Floats.{
  Floats, lt, le, lit, py_min, py_max, zero_float, one_float, ◌⊗◌, ◌⊘◌, ◌⊕◌, ◌⊖◌,
}
use robot_core.Tracking.Rotation.{Vector3, Quaternion}
use robot_core.Control.Filters.{first_order_low_pass, surge_pitch_decoupling_effort}
use robot_core.Control.Level.{
  LevelEfforts, level_attitude_rate_efforts, conditional_axis_integral_effort,
}
use robot_core.Control.Mixing.{altitude_velocity_setpoint}
use robot_core.PidNode.{PidConfig, PidNode, command_limit}
use robot_core.PidNode.Horizontal.{Frame, HorizontalEfforts, pair_of, step_pid, threshold}

-- The roll and pitch efforts, and what they leave of the height effort's limit.
pub record Levelling (F : Type 0) : Type 0 where
  pub roll : F
  pub pitch : F
  pub is_limited : Bool
  pub output_limit : F

module _ {F : Type 0} ⦃fl : Floats F⦄ where
  pub direction_of : F → ℤ
  direction_of effort =
      if lt threshold effort
      then pos 1
      else if lt effort (fl.neg threshold)
      then negsuc 0
      else pos 0

  abbrev cascade : PidConfig F → Frame F → F → List F → List F → Result (LevelEfforts F)
  cascade config frame limit feedforward integral =
      level_attitude_rate_efforts (frame.orientation_error.x ∷ frame.orientation_error.y ∷ [])
        (frame.target_angular.x ∷ frame.target_angular.y ∷ [])
        (frame.angular_velocity.x ∷ frame.angular_velocity.y ∷ [])
        config.fast_station_level_angle_to_rate_kp config.fast_station_level_rate_kp
        config.fast_station_level_rate_limit_rps limit feedforward integral

  -- `fast_station_mode`; the surge effort is the one that the mixer applies.
  pub run_level : PidConfig F → Frame F → F → PidNode F → Result (PidNode F × Levelling F)
  unfolding direction_of
  run_level config frame applied_surge s = do
    let direction = direction_of applied_surge
    let kept =
        if eq_ℤ direction s.fast_station_surge_direction
        then s.fast_station_pitch_rate_integral_effort
        else zero_float
    decoupling ←
        if config.fast_station_surge_pitch_decoupling_enabled
        then surge_pitch_decoupling_effort applied_surge
            config.fast_station_surge_pitch_forward_gain
            config.fast_station_surge_pitch_reverse_gain config.fast_station_surge_pitch_limit
        else ok zero_float
    let limit = py_min (command_limit s) config.fast_station_level_pwm_limit
    base ← cascade config frame limit (zero_float ∷ decoupling ∷ []) (zero_float ∷ zero_float ∷ [])
    (_, desired_pitch_rate) ← pair_of base.desired_rate
    integral ←
        conditional_axis_integral_effort kept (desired_pitch_rate ⊖ frame.angular_velocity.y)
          config.fast_station_pitch_rate_ki frame.dt
          config.fast_station_pitch_rate_integral_effort_limit base.raw 1 limit
    level ← cascade config frame limit (zero_float ∷ decoupling ∷ []) (zero_float ∷ integral ∷ [])
    (roll, pitch) ← pair_of level.efforts
    ok (
      record s {
        fast_station_surge_direction = direction;
        fast_station_pitch_rate_integral_effort = integral;
      },
      record {
        roll = roll;
        pitch = pitch;
        is_limited = level.is_limited;
        output_limit = py_max zero_float (command_limit s ⊖ fl.np_sum (map fl.abs level.efforts));
      },
    )

  -- The vertical speed, filtered, and the speed that is asked for.
  unfoldable pub vertical_speeds :
      PidConfig F → F → (speed height target_height target_speed : F) → PidNode F → Result (F × F)
  vertical_speeds config dt speed height target_height target_speed s = do
    filtered ←
        first_order_low_pass s.altitude_vertical_velocity_filtered speed dt
          config.altitude_velocity_filter_time_constant_s
    desired ←
        altitude_velocity_setpoint target_height height target_speed config.altitude_position_kp
    ok (filtered, desired)

  unfoldable pub run_altitude :
      PidConfig F → F → (filtered desired limit : F) → PidNode F → Result (PidNode F × F)
  run_altitude config dt filtered desired limit s = do
    (altitude_pid, effort) ← step_pid config.altitude_gains s.altitude_pid (record {
      setpoint = desired;
      measurement = filtered;
      dt = dt;
      feedforward = zero_float;
      output_limit = some limit;
      integral_enabled = true;
    })
    ok (
      record s { altitude_pid = altitude_pid; altitude_vertical_velocity_filtered = some filtered },
      effort,
    )
