-- ===== src/PidNode/Horizontal.antt =====
-- The surge, sway and yaw loops of a station mode in `tick`.
pub mod Kept
use robot_core.Prelude.{
  ℕ, String, Bool, true, false, not, ◌&&◌, ◌||◌, Option, none, some, List, [], ◌∷◌, if◌then◌else◌,
}
use robot_core.Prelude.Int.{ℤ, pos}
use robot_core.Prelude.Results.{Result, ok, err, type_error, value_error, ◌>>=◌}
use robot_core.Floats.{Floats, lt, le, lit, clip, py_min, zero_float, one_float, ◌⊗◌, ◌⊘◌, ◌⊕◌, ◌⊖◌}
use robot_core.Tracking.Rotation.{Vector3}
use robot_core.Control.Pid.{PidGains, ConditionalPid, PidInput, reset, step}
use robot_core.Control.Filters.{directional_velocity_feedforward, slew_rate_limit}
use robot_core.Control.Level.{integral_reset_after_error_crossing}
use robot_core.Control.Mixing.{station_velocity_setpoints, station_horizontal_pwm_mix}
use robot_core.PidNode.{PidConfig, PidNode, command_limit}

-- What the tick computes before it chooses a mode, in the frame of the body.
pub record Frame (F : Type 0) : Type 0 where
  pub dt : F
  pub position_error : Vector3 F
  pub orientation_error : Vector3 F
  pub target_linear : Vector3 F
  pub target_angular : Vector3 F
  pub actual_linear : Vector3 F
  pub angular_velocity : Vector3 F

pub record HorizontalEfforts (F : Type 0) : Type 0 where
  pub surge_effort : F
  pub sway_effort : F
  pub yaw_effort : F
  pub mix_scale : F
  pub is_saturated : Bool

-- What the mode makes of the configuration, and which motion is under way.
pub record Motion (F : Type 0) : Type 0 where
  pub is_fast : Bool
  pub is_approach : Bool
  pub yaw_maneuver : Bool
  pub lateral : Bool
  pub axis_limit : F
  pub yaw_limit : F

-- What the steps of the three loops give.
pub record AxisSteps (F : Type 0) : Type 0 where
  pub surge_pid : ConditionalPid F
  pub sway_pid : ConditionalPid F
  pub yaw_pid : ConditionalPid F
  pub sway_limited : F
  pub yaw_limited : F
  pub efforts : HorizontalEfforts F

module _ {F : Type 0} ⦃fl : Floats F⦄ where
  -- A step that raises ends the node.
  unfoldable pub step_pid :
      PidGains F → ConditionalPid F → PidInput F → Result (ConditionalPid F × F)
  step_pid gains pid input =
      let (pid', output) = step gains pid input in
      elim output [ err e ↦ err e | ok effort ↦ ok (pid', effort) ]

  abbrev pub pair_of : List F → Result (F × F)
  pair_of (a ∷ b ∷ []) = ok (a, b)
  pair_of _ = err (value_error "not a pair")

  -- `STATION_YAW_MANEUVER_RATE_THRESHOLD_RPS` and `FAST_STATION_SURGE_DIRECTION_DEADBAND`
  abbrev pub threshold : F
  threshold = lit 1 2

  -- `math.radians(0.2)`
  abbrev crossing_hysteresis : F
  crossing_hysteresis = lit 2 1 ⊗ (fl.pi ⊘ lit 180 0)

  pub motion_of : PidConfig F → Frame F → (is_fast is_approach : Bool) → PidNode F → Motion F
  motion_of config frame is_fast is_approach s =
      let limit = command_limit s in
      let yaw_maneuver = lt threshold (fl.abs frame.target_angular.z) in
      let lateral =
        is_fast
        && not yaw_maneuver
        && (lt threshold (fl.abs frame.target_linear.y)
            || lt threshold (fl.abs s.fast_station_sway_limited_effort)
            || lt (lit 3 2) (fl.abs frame.actual_linear.y)) in
      let yaw_limit = py_min limit config.station_yaw_axis_limit in
      record {
        is_fast = is_fast;
        is_approach = is_approach;
        yaw_maneuver = yaw_maneuver;
        lateral = lateral;
        axis_limit =
            if is_fast || is_approach
            then limit
            else py_min limit config.station_horizontal_axis_limit;
        yaw_limit =
            if lateral
            then py_min yaw_limit config.fast_station_lateral_yaw_axis_limit
            else yaw_limit;
      }

  abbrev pub without_yaw_integral : PidNode F → PidNode F
  without_yaw_integral s = record s {
    station_yaw_pid = record s.station_yaw_pid { integral = zero_float };
    station_yaw_heading_error_sign = pos 0;
  }

  -- What becomes of the yaw integral before the step.
  pub prepare_yaw : PidConfig F → Frame F → Motion F → PidNode F → Result (PidNode F)
  prepare_yaw config frame motion s =
      let crossing =
        integral_reset_after_error_crossing s.station_yaw_heading_error_sign
          frame.orientation_error.z (config.station_yaw_pwm_ki ⊗ s.station_yaw_pid.integral)
          crossing_hysteresis in
      if motion.yaw_maneuver || motion.lateral
      then ok (without_yaw_integral s)
      else if s.station_yaw_maneuver_active
      then ok (record s { station_yaw_pid = reset; station_yaw_heading_error_sign = pos 0 })
      else elim crossing [
        | err e ↦ err e
        | ok (is_reset, sign) ↦
            let signed = record s { station_yaw_heading_error_sign = sign } in
            ok (
              if is_reset
              then record signed {
                station_yaw_pid = record s.station_yaw_pid { integral = zero_float };
              }
              else signed)
      ]

  abbrev pub sway_pid_of : Bool → PidNode F → ConditionalPid F
  sway_pid_of is_fast s = if is_fast then s.fast_station_sway_pid else s.station_sway_pid

  abbrev pub sway_gains_of : Bool → PidConfig F → PidGains F
  sway_gains_of is_fast config =
      if is_fast then config.fast_station_sway_gains else config.station_sway_gains

  abbrev pub with_sway_pid : Bool → ConditionalPid F → PidNode F → PidNode F
  with_sway_pid true pid s = record s { fast_station_sway_pid = pid }
  with_sway_pid false pid s = record s { station_sway_pid = pid }

  abbrev pub with_integral : F → ConditionalPid F → ConditionalPid F
  with_integral integral pid = record pid { integral = integral }

  -- `horizontal_mix_scale < 1.0 - 1e-12`
  abbrev pub is_reduced : F → Bool
  is_reduced scale = lt scale (one_float ⊖ lit 1 12)

  -- The integrals of the three loops as they stood before the steps.
  pub roll_back : Bool → PidNode F → PidNode F → PidNode F
  roll_back is_fast before s =
      with_sway_pid is_fast
        (with_integral (sway_pid_of is_fast before).integral (sway_pid_of is_fast s))
        (record s {
          station_surge_pid = with_integral before.station_surge_pid.integral s.station_surge_pid;
          station_yaw_pid = with_integral before.station_yaw_pid.integral s.station_yaw_pid;
        })

  -- `slew_rate_limit(...) if limited else 0.0`, and the effort that is applied.
  abbrev pub slewed : Bool → F → F → F → F → Result (F × F)
  slewed is_limited previous requested dt rate =
      if is_limited
      then (slew_rate_limit previous requested dt rate >>= λ effort. ok (effort, effort))
      else ok (zero_float, requested)

  -- The speeds that the three loops are to hold.
  pub axis_setpoints : PidConfig F → Frame F → Motion F → Result (F × F × F)
  axis_setpoints config frame motion = do
    planar ←
        station_velocity_setpoints (frame.target_linear.x ∷ frame.target_linear.y ∷ [])
          (frame.position_error.x ∷ frame.position_error.y ∷ []) config.station_position_kp
          (if motion.is_fast
            then config.fast_station_surge_rate_limit
            else config.station_surge_rate_limit)
          (if motion.is_fast
            then config.fast_station_sway_rate_limit
            else config.station_sway_rate_limit)
          motion.is_approach
    (desired_surge, desired_sway) ← pair_of planar
    let turn = frame.target_angular.z ⊕ config.station_yaw_heading_kp ⊗ frame.orientation_error.z
    ok (
      desired_surge,
      desired_sway,
      clip turn (fl.neg config.station_yaw_rate_limit) config.station_yaw_rate_limit,
    )

  pub step_axes : PidConfig F → Frame F → Motion F → F × F × F → PidNode F → Result (AxisSteps F)
  step_axes config frame motion (desired_surge, desired_sway, desired_yaw_rate) s = do
    (surge_pid, surge) ← step_pid config.station_surge_gains s.station_surge_pid (record {
      setpoint = desired_surge;
      measurement = frame.actual_linear.x;
      dt = frame.dt;
      feedforward = zero_float;
      output_limit = some motion.axis_limit;
      integral_enabled = true;
    })
    sway_feedforward ←
        if motion.is_fast
        then directional_velocity_feedforward desired_sway
            config.fast_station_sway_pwm_feedforward_positive_gain
            config.fast_station_sway_pwm_feedforward_negative_gain motion.axis_limit
        else ok zero_float
    (sway_pid, requested_sway) ←
        step_pid (sway_gains_of motion.is_fast config) (sway_pid_of motion.is_fast s) (record {
          setpoint = desired_sway;
          measurement = frame.actual_linear.y;
          dt = frame.dt;
          feedforward = sway_feedforward;
          output_limit = some motion.axis_limit;
          integral_enabled = true;
        })
    (sway_limited, sway) ←
        slewed motion.is_fast s.fast_station_sway_limited_effort requested_sway frame.dt
          config.fast_station_sway_effort_slew_rate_per_s
    (yaw_pid, requested_yaw) ← step_pid config.station_yaw_gains s.station_yaw_pid (record {
      setpoint = desired_yaw_rate;
      measurement = frame.angular_velocity.z;
      dt = frame.dt;
      feedforward =
          if motion.lateral
          then fl.neg config.fast_station_sway_yaw_compensation_gain ⊗ sway
          else zero_float;
      output_limit = some motion.yaw_limit;
      integral_enabled = not (motion.yaw_maneuver || motion.lateral);
    })
    (yaw_limited, yaw) ←
        slewed motion.lateral s.fast_station_lateral_yaw_limited_effort requested_yaw frame.dt
          config.fast_station_lateral_yaw_effort_slew_rate_per_s
    (_, scale) ← station_horizontal_pwm_mix surge sway yaw (command_limit s)
    ok (record {
      surge_pid = surge_pid;
      sway_pid = sway_pid;
      yaw_pid = yaw_pid;
      sway_limited = sway_limited;
      yaw_limited = yaw_limited;
      efforts = record {
        surge_effort = surge;
        sway_effort = sway;
        yaw_effort = yaw;
        mix_scale = scale;
        is_saturated =
            surge_pid.saturated || sway_pid.saturated || yaw_pid.saturated || is_reduced scale;
      };
    })

  -- The node after the three steps. Where the mixer reduces the efforts, the integrals are as before.
  pub keep_axes : Motion F → AxisSteps F → PidNode F → PidNode F
  unfolding roll_back
  keep_axes motion steps s =
      let stepped = with_sway_pid motion.is_fast steps.sway_pid (record s {
        station_yaw_maneuver_active = motion.yaw_maneuver;
        station_surge_pid = steps.surge_pid;
        station_yaw_pid = steps.yaw_pid;
        fast_station_sway_limited_effort = steps.sway_limited;
        fast_station_lateral_yaw_limited_effort = steps.yaw_limited;
      }) in
      if is_reduced steps.efforts.mix_scale then roll_back motion.is_fast s stepped else stepped

  pub run_axes :
      PidConfig F → Frame F → Motion F → PidNode F → Result (PidNode F × HorizontalEfforts F)
  unfolding keep_axes
  run_axes config frame motion s = do
    setpoints ← axis_setpoints config frame motion
    prepared ← prepare_yaw config frame motion s
    steps ← step_axes config frame motion setpoints prepared
    ok (keep_axes motion steps prepared, steps.efforts)
