-- ===== src/Logger/Payloads.antt =====
-- The payload of each event of run_logger.py. A payload's keys are sorted when it is written; here they
-- stand in the code's order.
use robot_core.Prelude.{ℕ, String, List, [], ◌∷◌, map, if◌then◌else◌}
use robot_core.Prelude.Int.{pos}
use robot_core.Floats.{Floats}
use robot_core.Python.{
  Value, Values, nil, cons, none_value, bool_value, int_value, float_value, str_value, list_value,
}
use robot_core.Tracking.Rotation.{Vector3, Quaternion}
use robot_core.Tracking.{TrackingStatus}
use robot_core.Logger.Messages.{
  Payload, SafetyMessage, PolicyMessage, ThrusterMessage, TargetMessage, AuthorityMessage,
  PidMessage, LocalizationMessage,
}

module _ {F : Type 0} where
  abbrev count : ℕ → Value F
  count n = int_value (pos n)

  abbrev values : List (Value F) → Values F
  values [] = nil
  values (v ∷ vs) = cons v (values vs)

  abbrev pub floats : List F → Value F
  floats xs = list_value (values (map (λ x. float_value x) xs))

  abbrev texts : List String → Value F
  texts xs = list_value (values (map (λ s. str_value s) xs))

  abbrev vector3 : Vector3 F → Value F
  vector3 v = floats (v.x ∷ v.y ∷ v.z ∷ [])

  abbrev quaternion : Quaternion F → Value F
  quaternion q = floats (q.w ∷ q.x ∷ q.y ∷ q.z ∷ [])

  pub safety_event_payload : SafetyMessage → Payload F
  safety_event_payload m =
      ("level", count m.level)
      ∷ ("code", str_value m.code)
      ∷ ("message", str_value m.message)
      ∷ ("abort_active", bool_value m.abort_active)
      ∷ ("source", str_value m.source)
      ∷ []

  pub policy_status_payload : PolicyMessage F → Payload F
  policy_status_payload m =
      ("role", str_value m.policy_role)
      ∷ ("policy", str_value m.policy_name)
      ∷ ("loaded", bool_value m.loaded)
      ∷ ("input_ready", bool_value m.input_ready)
      ∷ ("missing_inputs", texts m.missing_inputs)
      ∷ ("latency_ms", float_value m.inference_latency_ms)
      ∷ ("tick_interval_ms", float_value m.tick_interval_ms)
      ∷ ("deadline_miss_count", count m.deadline_miss_count)
      ∷ []

  pub thruster_cmd_payload : ThrusterMessage F → Payload F
  thruster_cmd_payload m =
      ("source", str_value m.source)
      ∷ ("enable", bool_value m.enable)
      ∷ ("action", floats m.action)
      ∷ []

  pub trajectory_target_payload : TargetMessage F → Payload F
  trajectory_target_payload m =
      ("trajectory_type", str_value m.trajectory_type)
      ∷ ("control_mode", str_value m.control_mode)
      ∷ ("trajectory_phase", str_value m.trajectory_phase)
      ∷ ("time_s", float_value m.time_s)
      ∷ ("position", vector3 m.position)
      ∷ ("linear_velocity", vector3 m.linear_velocity)
      ∷ ("linear_acceleration", vector3 m.linear_acceleration)
      ∷ ("orientation_wxyz", quaternion m.orientation)
      ∷ ("angular_velocity", vector3 m.angular_velocity)
      ∷ ("angular_acceleration", vector3 m.angular_acceleration)
      ∷ ("valid", bool_value m.valid)
      ∷ []

  pub tracking_status_payload : TrackingStatus F → Payload F
  tracking_status_payload m =
      ("trajectory_type", str_value m.trajectory_type)
      ∷ ("control_mode", str_value m.control_mode)
      ∷ ("time_s", float_value m.time_s)
      ∷ ("valid", bool_value m.valid)
      ∷ ("target_position", vector3 m.target_position)
      ∷ ("actual_position", vector3 m.actual_position)
      ∷ ("position_error_m", float_value m.position_error_m)
      ∷ ("orientation_error_rad", float_value m.orientation_error_rad)
      ∷ ("velocity_error_mps", float_value m.velocity_error_mps)
      ∷ ("angular_velocity_error_rps", float_value m.angular_velocity_error_rps)
      ∷ ("speed_mps", float_value m.speed_mps)
      ∷ ("acceleration_mps2", float_value m.acceleration_mps2)
      ∷ ("target_orientation_wxyz", quaternion m.target_orientation)
      ∷ ("actual_orientation_wxyz", quaternion m.actual_orientation)
      ∷ ("target_velocity_body", vector3 m.target_velocity_body)
      ∷ ("actual_velocity_body", vector3 m.actual_velocity_body)
      ∷ ("target_acceleration_body", vector3 m.target_acceleration_body)
      ∷ ("actual_acceleration_body", vector3 m.actual_acceleration_body)
      ∷ ("target_angular_velocity_body", vector3 m.target_angular_velocity_body)
      ∷ ("actual_angular_velocity_body", vector3 m.actual_angular_velocity_body)
      ∷ ("position_error_body", vector3 m.position_error_body)
      ∷ ("orientation_error_body", vector3 m.orientation_error_body)
      ∷ []

  pub control_authority_status_payload : AuthorityMessage F → Payload F
  control_authority_status_payload m =
      ("selected_source", str_value m.selected_source)
      ∷ ("armed", bool_value m.armed)
      ∷ ("abort_active", bool_value m.abort_active)
      ∷ ("fault_latched", bool_value m.fault_latched)
      ∷ ("fault_code", str_value m.fault_code)
      ∷ ("message", str_value m.message)
      ∷ ("selected_command_age_s", float_value m.selected_command_age_s)
      ∷ ("body_state_age_s", float_value m.body_state_age_s)
      ∷ ("target_age_s", float_value m.target_age_s)
      ∷ ("action_limit", float_value m.action_limit)
      ∷ ("localization_source", str_value m.localization_source)
      ∷ []

  pub pid_status_payload : PidMessage F → Payload F
  pid_status_payload m =
      ("ready", bool_value m.ready)
      ∷ ("producing_command", bool_value m.producing_command)
      ∷ ("missing_inputs", texts m.missing_inputs)
      ∷ ("body_state_age_s", float_value m.body_state_age_s)
      ∷ ("imu_age_s", float_value m.imu_age_s)
      ∷ ("target_age_s", float_value m.target_age_s)
      ∷ ("allocation_rank", count m.allocation_rank)
      ∷ ("allocation_condition", float_value m.allocation_condition)
      ∷ ("allocation_residual", float_value m.allocation_residual)
      ∷ ("saturation_fraction", float_value m.saturation_fraction)
      ∷ ("configuration_hash", str_value m.configuration_hash)
      ∷ ("message", str_value m.message)
      ∷ []

module _ {F : Type 0} ⦃fl : Floats F⦄ where
  pub finite_or_none : F → Value F
  finite_or_none x = if fl.is_finite x then float_value x else none_value

  pub localization_status_payload : LocalizationMessage F → Payload F
  localization_status_payload m =
      ("localization_source", str_value m.localization_source)
      ∷ ("vio_fresh", bool_value m.vio_fresh)
      ∷ ("tag_fresh", bool_value m.tag_fresh)
      ∷ ("tag_consistent", bool_value m.tag_consistent)
      ∷ ("absolute_fix_valid", bool_value m.absolute_fix_valid)
      ∷ ("position_estimated", bool_value m.position_estimated)
      ∷ ("tag_observation_class", str_value m.tag_observation_class)
      ∷ ("rejection_reason", str_value m.rejection_reason)
      ∷ ("detected_tag_count", count m.detected_tag_count)
      ∷ ("mapped_tag_count", count m.mapped_tag_count)
      ∷ ("inlier_tag_count", count m.inlier_tag_count)
      ∷ ("tag_reprojection_rms_px", finite_or_none m.tag_reprojection_rms_px)
      ∷ ("minimum_tag_edge_px", finite_or_none m.minimum_tag_edge_px)
      ∷ ("tag_pose_published", bool_value m.tag_pose_published)
      ∷ ("apriltag_rejection_reason", str_value m.apriltag_rejection_reason)
      ∷ ("vio_age_s", finite_or_none m.vio_age_s)
      ∷ ("tag_age_s", finite_or_none m.tag_age_s)
      ∷ ("absolute_fix_age_s", finite_or_none m.absolute_fix_age_s)
      ∷ ("apriltag_frame_age_s", finite_or_none m.apriltag_frame_age_s)
      ∷ ("vio_rate_hz", float_value m.vio_rate_hz)
      ∷ ("tag_rate_hz", float_value m.tag_rate_hz)
      ∷ ("body_state_rate_hz", float_value m.body_state_rate_hz)
      ∷ ("apriltag_frame_rate_hz", float_value m.apriltag_frame_rate_hz)
      ∷ ("vio_transport_delay_s", finite_or_none m.vio_transport_delay_s)
      ∷ ("tag_transport_delay_s", finite_or_none m.tag_transport_delay_s)
      ∷ ("tag_vio_translation_residual_m", finite_or_none m.tag_vio_translation_residual_m)
      ∷ ("tag_vio_angle_residual_deg", finite_or_none m.tag_vio_angle_residual_deg)
      ∷ ("pose_covariance_diagonal", floats m.pose_diagonal)
      ∷ ("twist_covariance_diagonal", floats m.twist_diagonal)
      ∷ []
