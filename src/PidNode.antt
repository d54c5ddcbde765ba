-- ===== src/PidNode.antt =====
-- ros_ws/src/robotcore_control/robotcore_control/six_dof_pid_node.py, from a loaded configuration on. A
-- callback returns the next state, or the exception that ends the node. The texts of a status are left
-- out but for the missing inputs.
pub mod Imu
pub mod Horizontal
pub mod Vertical
pub mod Publish
pub mod Tick
pub mod Events
pub mod Configuration
use robot_core.Prelude.{
  ◌≡◌, ℕ, String, Bool, true, false, not, ◌&&◌, ◌||◌, Option, none, some, List, [], ◌∷◌, ◌++◌,
  if◌then◌else◌,
}
use robot_core.Prelude.Int.{ℤ, pos, sub_ℕ}
use robot_core.Prelude.Results.{Result, ok, err}
use robot_core.Floats.{Floats, lt, le, lit, seconds, zero_float, one_float, ◌⊗◌, ◌⊘◌}
use robot_core.Floats.Vectors.{any, is_close}
use robot_core.Python.Texts.{eq_lowered, strip}
use robot_core.Tracking.{BodyState}
use robot_core.Tracking.Rotation.{Quaternion, Vector3}
use robot_core.Logger.Messages.{TargetMessage}
use robot_core.Control.Quaternions.{normalize_quaternion}
use robot_core.Control.Pid.{PidGains, ConditionalPid, reset}

-- What `load_configuration` leaves, and the parameters that are read at each tick.
pub record PidConfig (F : Type 0) : Type 0 where
  pub pid_configured : Bool
  pub control_rate_hz : F
  pub max_input_age_s : F
  pub imu_rate_history : ℕ
  pub imu_rate_outlier_limit_rps : F
  pub imu_rate_prediction_horizon_s : F
  pub imu_rate_prediction_accel_limit_rps2 : F
  pub imu_rate_prediction_delta_limit_rps : F
  pub imu_rate_filter_time_constant_s : F
  pub imu_orientation_filter_time_constant_s : F
  pub altitude_gains : PidGains F
  pub altitude_velocity_filter_time_constant_s : F
  pub altitude_pwm_command_sign : F
  pub altitude_position_kp : F
  pub station_surge_gains : PidGains F
  pub station_sway_gains : PidGains F
  pub fast_station_sway_gains : PidGains F
  pub station_yaw_gains : PidGains F
  pub station_yaw_pwm_ki : F
  pub station_position_kp : List F
  pub station_yaw_heading_kp : F
  pub station_yaw_rate_limit : F
  pub station_horizontal_axis_limit : F
  pub station_yaw_axis_limit : F
  pub station_surge_rate_limit : F
  pub station_sway_rate_limit : F
  pub fast_station_surge_rate_limit : F
  pub fast_station_sway_rate_limit : F
  pub fast_station_lateral_yaw_axis_limit : F
  pub fast_station_sway_pwm_feedforward_positive_gain : F
  pub fast_station_sway_pwm_feedforward_negative_gain : F
  pub fast_station_sway_effort_slew_rate_per_s : F
  pub fast_station_sway_yaw_compensation_gain : F
  pub fast_station_lateral_yaw_effort_slew_rate_per_s : F
  pub fast_station_level_pwm_limit : F
  pub fast_station_level_angle_to_rate_kp : List F
  pub fast_station_level_rate_kp : List F
  pub fast_station_level_rate_limit_rps : List F
  pub fast_station_pitch_rate_ki : F
  pub fast_station_pitch_rate_integral_effort_limit : F
  pub fast_station_surge_pitch_decoupling_enabled : Bool
  pub fast_station_surge_pitch_forward_gain : F
  pub fast_station_surge_pitch_reverse_gain : F
  pub fast_station_surge_pitch_limit : F

-- `is_connected` says that the three inputs are subscribed to.
pub record PidNode (F : Type 0) : Type 0 where
  pub pid_selected : Bool
  pub is_connected : Bool
  pub body : Option (BodyState F)
  pub body_ns : Option ℕ
  pub imu_angular_velocity : Option (List F)
  pub imu_orientation : Option (Quaternion F)
  pub imu_ns : Option ℕ
  pub imu_angular_velocity_filtered : Option (List F)
  pub imu_orientation_filtered : Option (Quaternion F)
  pub imu_filter_ns : Option ℕ
  pub imu_rate_samples : List (ℕ × List F)
  pub target : Option (TargetMessage F)
  pub target_ns : Option ℕ
  pub last_tick_ns : Option ℕ
  pub absolute_localization_seen : Bool
  pub altitude_hold_active : Bool
  pub station_hold_active : Bool
  pub fast_station_hold_active : Bool
  pub station_trajectory_phase : String
  pub station_yaw_maneuver_active : Bool
  pub station_yaw_heading_error_sign : ℤ
  pub fast_station_sway_limited_effort : F
  pub fast_station_lateral_yaw_limited_effort : F
  pub fast_station_pitch_rate_integral_effort : F
  pub fast_station_surge_direction : ℤ
  pub altitude_vertical_velocity_filtered : Option F
  pub pwm_limit_us : F
  pub altitude_pid : ConditionalPid F
  pub station_surge_pid : ConditionalPid F
  pub station_sway_pid : ConditionalPid F
  pub fast_station_sway_pid : ConditionalPid F
  pub station_yaw_pid : ConditionalPid F

-- A loop of the controller leaves the selection and the connections alone.
pub IsKept : {F : Type 0} → PidNode F → PidNode F → Type 0
IsKept s s' = (s'.pid_selected ≡ s.pid_selected) × (s'.is_connected ≡ s.is_connected)

-- The fields of `ControlAuthorityStatus` that the node reads.
pub record AuthorityStatus (F : Type 0) : Type 0 where
  pub selected_source : String
  pub action_limit : F

-- What `input_status` answers.
pub record InputStatus (F : Type 0) : Type 0 where
  pub missing : List String
  pub body_age : F
  pub imu_age : F
  pub target_age : F

-- `text.lower() in {...}`
pub lowered_in : List String → String → Bool
lowered_in names text = any (λ name. eq_lowered text name) names

pub is_compatible : String → String → Bool
unfolding lowered_in
is_compatible trajectory_type control_mode =
    eq_lowered trajectory_type "idle" && eq_lowered control_mode "idle"
    || eq_lowered trajectory_type "hold"
      && lowered_in ("altitude_hold" ∷ "station_hold" ∷ "station_hold_fast" ∷ []) control_mode
    || lowered_in ("spatial_lissajous" ∷ "circle" ∷ "racetrack" ∷ "straight_line" ∷ [])
        trajectory_type
      && lowered_in ("station_hold" ∷ "station_hold_fast" ∷ []) control_mode

-- A check of the inputs: whether it fails, and the name it then adds to the list of missing inputs.
-- `if bad: missing.append(name)`
pub missing_names : List (Bool × String) → List String
missing_names [] = []
missing_names ((true, name) ∷ checks) = name ∷ missing_names checks
missing_names ((false, name) ∷ checks) = missing_names checks

abbrev pub is_none {ℓ} : {A : Type ℓ} → Option A → Bool
is_none none = true
is_none (some _) = false

module _ {F : Type 0} ⦃fl : Floats F⦄ where
  pub age : Option ℕ → ℕ → F
  age none now_ns = fl.inf
  age (some then_ns) now_ns = seconds (sub_ℕ now_ns then_ns)

  pub is_localized : BodyState F → Bool
  is_localized body = body.state_valid || body.position_estimated

  abbrev pub is_normal : Quaternion F → Bool
  is_normal q = elim (normalize_quaternion q) [ ok _ ↦ true | err _ ↦ false ]

  pub body_checks : Bool → Option (BodyState F) → List (Bool × String)
  unfolding is_localized
  body_checks seen none = []
  body_checks seen (some body) =
      (not body.linear_velocity_valid, "linear_velocity_invalid")
      ∷ (not (is_localized body), "localization_invalid")
      ∷ (not seen, "absolute_localization_not_seen")
      ∷ (not (is_normal body.orientation), "localization_quaternion_invalid")
      ∷ []

  -- `str(self.target.trajectory_type)` where there is a target, and the empty text otherwise.
  pub target_type : Option (TargetMessage F) → String
  target_type none = ""
  target_type (some target) = target.trajectory_type

  pub target_mode : Option (TargetMessage F) → String
  target_mode none = ""
  target_mode (some target) = target.control_mode

  pub target_is_valid : Option (TargetMessage F) → Bool
  target_is_valid none = true
  target_is_valid (some target) = target.valid

  -- The checks of `input_status`, where `body` and `target` are those of the node.
  pub input_checks :
      PidConfig F
      → PidNode F
      → ℕ
      → Option (BodyState F)
      → Option (TargetMessage F)
      → List (Bool × String)
  unfolding target_type target_mode target_is_valid lowered_in age is_compatible body_checks
  input_checks config s now_ns body target =
      let is_type =
        lowered_in
          ("idle" ∷ "hold" ∷ "spatial_lissajous" ∷ "circle" ∷ "racetrack" ∷ "straight_line" ∷ [])
          (target_type target) in
      let is_mode =
        lowered_in ("idle" ∷ "altitude_hold" ∷ "station_hold" ∷ "station_hold_fast" ∷ [])
          (target_mode target) in
      let is_old : Option ℕ → Bool = λ then_ns. lt config.max_input_age_s (age then_ns now_ns) in
      (not config.pid_configured, "pid_parameters_not_approved")
      ∷ (not is_type, "unsupported_trajectory_type")
      ∷ (not is_mode, "unsupported_control_mode")
      ∷ (
        not (is_none target) && not (is_compatible (target_type target) (target_mode target)),
        "incompatible_trajectory_control_mode",
      )
      ∷ (is_none body || is_old s.body_ns, "/robot/body_state")
      ∷ (
        is_none s.imu_orientation_filtered
            || is_none s.imu_angular_velocity_filtered
            || is_old s.imu_ns,
        "/sensors/external_imu",
      )
      ∷ (is_none target || is_old s.target_ns, "/runtime/trajectory_target")
      ∷ (body_checks s.absolute_localization_seen body
          ++ (not (target_is_valid target), "trajectory_target_invalid") ∷ [])

  pub input_status : PidConfig F → PidNode F → ℕ → InputStatus F
  unfolding missing_names age input_checks
  input_status config s now_ns = record {
    missing = missing_names (input_checks config s now_ns s.body s.target);
    body_age = age s.body_ns now_ns;
    imu_age = age s.imu_ns now_ns;
    target_age = age s.target_ns now_ns;
  }

  pub reset_controllers : PidNode F → PidNode F
  unfolding reset
  reset_controllers s = record s {
    altitude_pid = reset;
    station_surge_pid = reset;
    station_sway_pid = reset;
    fast_station_sway_pid = reset;
    station_yaw_pid = reset;
    station_yaw_maneuver_active = false;
    station_yaw_heading_error_sign = pos 0;
    fast_station_sway_limited_effort = zero_float;
    fast_station_lateral_yaw_limited_effort = zero_float;
    fast_station_pitch_rate_integral_effort = zero_float;
    fast_station_surge_direction = pos 0;
    altitude_vertical_velocity_filtered = none;
  }

  -- Half of the action scale: `pwm_limit_us / PID_EFFORT_PWM_SPAN_US`.
  pub command_limit : PidNode F → F
  command_limit s = s.pwm_limit_us ⊘ lit 500 0

  pub on_body : BodyState F → ℕ → PidNode F → PidNode F
  on_body message now_ns s = record s {
    body = some message;
    body_ns = some now_ns;
    absolute_localization_seen = message.state_valid || s.absolute_localization_seen;
  }

  pub on_target : TargetMessage F → ℕ → PidNode F → PidNode F
  on_target message now_ns s = record s { target = some message; target_ns = some now_ns }

  pub disconnect_pid_inputs : PidNode F → PidNode F
  disconnect_pid_inputs s = record s {
    is_connected = false;
    body = none;
    body_ns = none;
    imu_angular_velocity = none;
    imu_orientation = none;
    imu_ns = none;
    imu_angular_velocity_filtered = none;
    imu_orientation_filtered = none;
    imu_filter_ns = none;
    imu_rate_samples = [];
    target = none;
    target_ns = none;
  }

  -- `if selected != self.pid_selected: ...`
  pub select : Bool → PidNode F → PidNode F
  select selected s =
      let fresh = record (reset_controllers s) { pid_selected = selected; last_tick_ns = none } in
      if selected
      then if s.pid_selected then s else record fresh { is_connected = true }
      else if s.pid_selected
      then disconnect_pid_inputs fresh
      else s

  -- `if not math.isclose(pwm_limit_us, self.pwm_limit_us, abs_tol=1e-9): ...`
  pub limit_pwm : F → PidNode F → PidNode F
  limit_pwm action_limit s =
      let pwm_limit_us = action_limit ⊗ lit 250 0 in
      if is_close (lit 1 9) (lit 1 9) pwm_limit_us s.pwm_limit_us
      then s
      else reset_controllers (record s { pwm_limit_us = pwm_limit_us })

  pub on_authority_status : AuthorityStatus F → PidNode F → PidNode F
  unfolding select limit_pwm
  on_authority_status message s =
      let selected = eq_lowered (strip message.selected_source) "pid" in
      let limit = message.action_limit in
      if not (fl.is_finite limit) || not (le zero_float limit && le limit one_float)
      then select selected s
      else limit_pwm limit (select selected s)
