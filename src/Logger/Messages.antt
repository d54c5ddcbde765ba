-- ===== src/Logger/Messages.antt =====
-- The messages that run_logger.py records, with the fields that it reads.
use robot_core.Prelude.{ℕ, String, Bool, List}
use robot_core.Python.{Value}
use robot_core.Tracking.Rotation.{Vector3, Quaternion}

abbrev pub Payload : Type 0 → Type 0
Payload F = List (String × Value F)

pub record SafetyMessage : Type 0 where
  pub level : ℕ
  pub code : String
  pub message : String
  pub abort_active : Bool
  pub source : String

pub record PolicyMessage (F : Type 0) : Type 0 where
  pub policy_role : String
  pub policy_name : String
  pub loaded : Bool
  pub input_ready : Bool
  pub missing_inputs : List String
  pub inference_latency_ms : F
  pub tick_interval_ms : F
  pub deadline_miss_count : ℕ

pub record ThrusterMessage (F : Type 0) : Type 0 where
  pub source : String
  pub enable : Bool
  pub action : List F

pub record TargetMessage (F : Type 0) : Type 0 where
  pub trajectory_type : String
  pub control_mode : String
  pub trajectory_phase : String
  pub time_s : F
  pub position : Vector3 F
  pub linear_velocity : Vector3 F
  pub linear_acceleration : Vector3 F
  pub orientation : Quaternion F
  pub angular_velocity : Vector3 F
  pub angular_acceleration : Vector3 F
  pub valid : Bool

pub record AuthorityMessage (F : Type 0) : Type 0 where
  pub selected_source : String
  pub armed : Bool
  pub abort_active : Bool
  pub fault_latched : Bool
  pub fault_code : String
  pub message : String
  pub selected_command_age_s : F
  pub body_state_age_s : F
  pub target_age_s : F
  pub action_limit : F
  pub localization_source : String

pub record PidMessage (F : Type 0) : Type 0 where
  pub ready : Bool
  pub producing_command : Bool
  pub missing_inputs : List String
  pub body_state_age_s : F
  pub imu_age_s : F
  pub target_age_s : F
  pub allocation_rank : ℕ
  pub allocation_condition : F
  pub allocation_residual : F
  pub saturation_fraction : F
  pub configuration_hash : String
  pub message : String

-- The covariances are six-by-six matrices; their diagonals are what is read.
pub record LocalizationMessage (F : Type 0) : Type 0 where
  pub localization_source : String
  pub vio_fresh : Bool
  pub tag_fresh : Bool
  pub tag_consistent : Bool
  pub absolute_fix_valid : Bool
  pub position_estimated : Bool
  pub tag_observation_class : String
  pub rejection_reason : String
  pub detected_tag_count : ℕ
  pub mapped_tag_count : ℕ
  pub inlier_tag_count : ℕ
  pub tag_reprojection_rms_px : F
  pub minimum_tag_edge_px : F
  pub tag_pose_published : Bool
  pub apriltag_rejection_reason : String
  pub vio_age_s : F
  pub tag_age_s : F
  pub absolute_fix_age_s : F
  pub apriltag_frame_age_s : F
  pub vio_rate_hz : F
  pub tag_rate_hz : F
  pub body_state_rate_hz : F
  pub apriltag_frame_rate_hz : F
  pub vio_transport_delay_s : F
  pub tag_transport_delay_s : F
  pub tag_vio_translation_residual_m : F
  pub tag_vio_angle_residual_deg : F
  pub pose_diagonal : List F
  pub twist_diagonal : List F
