-- ===== src/PidNode/Tick.antt =====
-- `tick`: from the inputs to the thruster command and the status, and the node's callbacks together.
pub mod Kept
pub mod Safe
pub mod Tests
use robot_core.Prelude.{
  ℕ, String, Bool, true, false, not, ◌&&◌, ◌||◌, Option, none, some, List, [], ◌∷◌, ◌++◌, map, drop,
  is_empty, if◌then◌else◌,
}
use robot_core.Prelude.Int.{ℤ, pos, sub_ℕ}
use robot_core.Prelude.Results.{
  Result, ok, err, value_error, attribute_error, or_raise, ◌>>=◌, ◌>>◌, raise_if,
}
use robot_core.Floats.{
  Floats, lt, le, lit, clip, seconds, py_max, zero_float, one_float, ◌⊗◌, ◌⊘◌, ◌⊕◌, ◌⊖◌,
}
use robot_core.Floats.Vectors.{any, all_finite}
use robot_core.Python.Texts.{eq_lowered}
use robot_core.Tracking.{BodyState, Imu}
use robot_core.Tracking.Rotation.{Vector3, Quaternion}
use robot_core.Logger.Messages.{TargetMessage}
use robot_core.Control.Quaternions.{
  normalize_quaternion, quaternion_conjugate, quaternion_apply, quaternion_error_body,
}
use robot_core.Control.Mixing.{
  altitude_station_pwm_commands, altitude_collective_pwm_commands, zeros,
}
use robot_core.PidNode.{
  PidConfig, PidNode, AuthorityStatus, InputStatus, command_limit, input_status, reset_controllers,
  lowered_in, on_body, on_target, on_authority_status,
}
use robot_core.PidNode.Imu.{vector_list, on_imu}
use robot_core.PidNode.Publish.{Published, neutral, publish_command, publish_disabled}
use robot_core.PidNode.Horizontal.{Frame, Motion, HorizontalEfforts, motion_of, run_axes}
use robot_core.PidNode.Vertical.{Levelling, run_level, vertical_speeds, run_altitude}

abbrev differs : Bool → Bool → Bool
differs true b = not b
differs false b = b

module _ {F : Type 0} ⦃fl : Floats F⦄ where
  -- `vec` of three components.
  abbrev pub finite_vector : Vector3 F → Result (Vector3 F)
  finite_vector v =
      if all_finite (vector_list v) then ok v else err (value_error "expected 3 finite values")

  abbrev vector_of : List F → Result (Vector3 F)
  vector_of (x ∷ y ∷ z ∷ []) = ok (record { x = x; y = y; z = z })
  vector_of _ = err (value_error "not three components")

  abbrev pub sub_vector3 : Vector3 F → Vector3 F → Vector3 F
  sub_vector3 a b = record { x = a.x ⊖ b.x; y = a.y ⊖ b.y; z = a.z ⊖ b.z }

  -- The errors and targets in the frame of the body, with the attitude of the localization.
  unfoldable pub frame_of :
      F → BodyState F → TargetMessage F → PidNode F → Result (Frame F × Quaternion F)
  frame_of dt body target s = do
    localization_q ← normalize_quaternion body.orientation
    map_to_body ← quaternion_conjugate localization_q
    current_q ← or_raise s.imu_orientation_filtered attribute_error
    imu_reference_to_body ← quaternion_conjugate current_q
    target_q ← normalize_quaternion target.orientation
    current_position ← finite_vector body.position
    target_position ← finite_vector target.position
    position_error ← quaternion_apply map_to_body (sub_vector3 target_position current_position)
    orientation_error ← quaternion_error_body current_q target_q
    target_linear ← quaternion_apply map_to_body target.linear_velocity
    target_angular ← quaternion_apply imu_reference_to_body target.angular_velocity
    actual_linear ← finite_vector body.linear_velocity
    rates ← or_raise s.imu_angular_velocity_filtered attribute_error
    angular_velocity ← vector_of rates
    ok (
      record {
        dt = dt;
        position_error = position_error;
        orientation_error = orientation_error;
        target_linear = target_linear;
        target_angular = target_angular;
        actual_linear = actual_linear;
        angular_velocity = angular_velocity;
      },
      localization_q,
    )

  abbrev pub is_station : TargetMessage F → Bool
  is_station target = lowered_in ("station_hold" ∷ "station_hold_fast" ∷ []) target.control_mode

  abbrev pub is_fast_station : TargetMessage F → Bool
  is_fast_station target = eq_lowered target.control_mode "station_hold_fast"

  abbrev pub is_direct_altitude : TargetMessage F → Bool
  is_direct_altitude target = eq_lowered target.control_mode "altitude_hold" || is_station target

  -- A change of mode, or of the phase of a station mode, resets the controllers. The phase is stored as
  -- it came and compared in lower case.
  unfoldable pub enter_mode : TargetMessage F → PidNode F → PidNode F
  unfolding reset_controllers
  enter_mode target s =
      let station = is_station target in
      let is_changed =
        differs (is_direct_altitude target) s.altitude_hold_active
        || differs station s.station_hold_active
        || differs (is_fast_station target) s.fast_station_hold_active
        || station && not (eq_lowered target.trajectory_phase s.station_trajectory_phase) in
      record (if is_changed then reset_controllers s else s) {
        altitude_hold_active = is_direct_altitude target;
        station_hold_active = station;
        fast_station_hold_active = is_fast_station target;
        station_trajectory_phase = if station then target.trajectory_phase else "";
      }

  abbrev no_horizontal : HorizontalEfforts F
  no_horizontal = record {
    surge_effort = zero_float;
    sway_effort = zero_float;
    yaw_effort = zero_float;
    mix_scale = one_float;
    is_saturated = false;
  }

  abbrev level_flat : F → Levelling F
  level_flat limit = record {
    roll = zero_float;
    pitch = zero_float;
    is_limited = false;
    output_limit = limit;
  }

  -- `command_limit > 0.0 and np.any(np.abs(commands[4:]) >= command_limit - 1e-9)`
  pub is_at_limit : F → List F → Bool
  is_at_limit limit commands =
      lt zero_float limit && any (λ c. le (limit ⊖ lit 1 9) (fl.abs c)) (drop 4 commands)

  -- `if station_mode: ...`
  pub hold_axes :
      PidConfig F → Frame F → TargetMessage F → PidNode F → Result (PidNode F × HorizontalEfforts F)
  hold_axes config frame target s =
      if is_station target
      then run_axes config frame
          (motion_of config frame (is_fast_station target)
            (eq_lowered target.trajectory_phase "start_approach") s)
          s
      else ok (s, no_horizontal)

  -- `if fast_station_mode: ...`
  pub hold_level :
      PidConfig F
      → Frame F
      → TargetMessage F
      → HorizontalEfforts F
      → PidNode F
      → Result (PidNode F × Levelling F)
  hold_level config frame target axes s =
      if is_fast_station target
      then run_level config frame (axes.surge_effort ⊗ axes.mix_scale) s
      else ok (s, level_flat (command_limit s))

  -- The commands in the effort domain.
  pub hold_commands :
      PidConfig F
      → TargetMessage F
      → (limit effort : F) → HorizontalEfforts F
      → Levelling F
      → Result (List F)
  hold_commands config target limit effort axes level =
      if is_station target
      then altitude_station_pwm_commands effort axes.surge_effort axes.sway_effort axes.yaw_effort
          limit config.altitude_pwm_command_sign level.roll level.pitch
      else altitude_collective_pwm_commands effort limit config.altitude_pwm_command_sign

  -- The hold modes: the commands, and whether anything saturates.
  pub run_hold :
      PidConfig F
      → Frame F
      → Quaternion F
      → BodyState F
      → TargetMessage F
      → PidNode F
      → Result (PidNode F × List F × Bool)
  unfolding hold_axes hold_level hold_commands
  run_hold config frame localization_q body target s = do
    let limit = command_limit s
    world ← quaternion_apply localization_q frame.actual_linear
    (filtered, desired) ←
        vertical_speeds config frame.dt world.z body.position.z target.position.z
          target.linear_velocity.z s
    (moved, axes) ← hold_axes config frame target s
    (levelled, level) ← hold_level config frame target axes moved
    (risen, effort) ← run_altitude config frame.dt filtered desired level.output_limit levelled
    commands ← hold_commands config target limit effort axes level
    let is_saturated =
        risen.altitude_pid.saturated
        || is_station target
          && (axes.is_saturated || is_at_limit limit commands || level.is_limited)
    ok (risen, commands, is_saturated)

  abbrev pub fraction : Bool → F
  fraction is_saturated = if is_saturated then one_float else zero_float

  -- The tick where the inputs are ready and the timestep is usable.
  unfoldable pub drive :
      PidConfig F
      → ℕ
      → F
      → InputStatus F
      → BodyState F
      → TargetMessage F
      → PidNode F
      → Result (PidNode F × Published F)
  unfolding publish_command publish_disabled
  drive config now_ns dt inputs body target s = do
    (frame, localization_q) ← frame_of dt body target s
    let entered = enter_mode target s
    if eq_lowered target.control_mode "idle"
        then ok (reset_controllers entered, publish_command now_ns neutral zero_float inputs)
        else if is_direct_altitude target
        then (run_hold config frame localization_q body target entered
            >>= λ (s', commands, is_saturated).
                ok (s', publish_command now_ns commands (fraction is_saturated) inputs))
        else ok (entered, publish_disabled now_ns ("unsupported_control_mode" ∷ []) inputs)

  unfoldable pub timestep : PidConfig F → Option ℕ → ℕ → F
  timestep config none now_ns = one_float ⊘ py_max one_float config.control_rate_hz
  timestep config (some last_ns) now_ns = seconds (sub_ℕ now_ns last_ns)

  unfoldable pub tick : PidConfig F → ℕ → PidNode F → Result (PidNode F × Option (Published F))
  tick config now_ns s =
      let inputs = input_status config s now_ns in
      let dt = timestep config s.last_tick_ns now_ns in
      let s' = record s { last_tick_ns = some now_ns } in
      let disabled : List String → Result (PidNode F × Option (Published F)) =
        λ missing. ok (reset_controllers s', some (publish_disabled now_ns missing inputs)) in
      if not s.pid_selected
      then ok (s, none)
      else if not (is_empty inputs.missing)
      then disabled inputs.missing
      else if not (le (lit 1 4) dt && le dt (lit 1 1))
      then disabled ("control_dt_invalid" ∷ [])
      else do
        body ← or_raise s.body attribute_error
        target ← or_raise s.target attribute_error
        (driven, published) ← drive config now_ns dt inputs body target s'
        ok (driven, some published)
