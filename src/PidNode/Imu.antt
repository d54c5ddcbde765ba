-- ===== src/PidNode/Imu.antt =====
-- `on_imu`: the filter of the external IMU's samples.
pub mod Kept
use robot_core.Prelude.{
  ℕ, ◌+◌, ◌-◌, String, Bool, true, false, not, ◌&&◌, ◌||◌, Option, none, some, List, [], ◌∷◌, ◌++◌,
  map, length, drop, str_eq, if◌then◌else◌,
}
use robot_core.Prelude.Int.{ℤ, pos, sub_ℕ}
use robot_core.Prelude.Results.{Result, ok, err, type_error, or_raise, ◌>>=◌}
use robot_core.Floats.{Floats, lt, le, lit, seconds, zero_float, one_float, ◌⊗◌, ◌⊘◌, ◌⊕◌, ◌⊖◌}
use robot_core.Floats.Vectors.{all_finite, add_vectors, sub_vectors}
use robot_core.Tracking.{BodyState, Imu}
use robot_core.Tracking.Rotation.{Quaternion, Vector3}
use robot_core.Control.Quaternions.{
  components, normalize_quaternion, attitude_with_heading, quaternion_slerp,
}
use robot_core.Control.Rates.{reject_vector_outlier, timestamped_rate_prediction}
use robot_core.PidNode.{PidConfig, PidNode, is_localized}

module _ {F : Type 0} ⦃fl : Floats F⦄ where
  abbrev pub vector_list : Vector3 F → List F
  vector_list v = v.x ∷ v.y ∷ v.z ∷ []

  pub imu_is_usable : Imu F → Bool
  imu_is_usable message =
      str_eq message.frame_id "base_link"
      && not (lt message.orientation_covariance_0 zero_float)
      && all_finite (vector_list message.angular_velocity)
      && all_finite (components message.orientation)
      && not (lt (fl.np_norm (components message.orientation)) (lit 1 9))

  -- `attitude_with_heading(orientation, quaternion_from_message(self.body.pose.orientation))`
  pub heading : Quaternion F → BodyState F → Result (Quaternion F)
  heading orientation body = do
    reference ← normalize_quaternion body.orientation
    attitude_with_heading orientation reference

  -- The attitude that a sample stands for: its own tilt with the heading of the localization. `none`
  -- where the handler returns.
  pub sample_attitude : PidNode F → Imu F → Result (Option (Quaternion F))
  sample_attitude s message = do
    orientation ← normalize_quaternion message.orientation
    elim s.body [
      | none ↦ ok none
      | some body ↦ if not (is_localized body) then ok none else elim (heading orientation body) [
        | err _ ↦ ok none
        | ok attitude ↦ ok (some attitude)
      ]
    ]

  -- A deque of limited length, the newest last.
  pub append_sample : ℕ → ℕ × List F → List (ℕ × List F) → List (ℕ × List F)
  append_sample maximum sample samples =
      let appended = samples ++ sample ∷ [] in drop (length appended - maximum) appended

  -- `1.0 if time_constant <= 0.0 else -math.expm1(-dt / time_constant)`
  pub filter_weight : F → F → F
  filter_weight time_constant dt =
      if le time_constant zero_float
      then one_float
      else fl.neg (fl.expm1 (fl.neg dt ⊘ time_constant))

  -- A sample that follows none, or not within 0.2 s, starts the filter anew.
  pub restart_filter : ℕ → List F → Quaternion F → PidNode F → PidNode F
  restart_filter sample_ns angular_velocity orientation s = record s {
    imu_rate_samples = (sample_ns, angular_velocity) ∷ [];
    imu_angular_velocity_filtered = some angular_velocity;
    imu_orientation_filtered = some orientation;
  }

  pub advance_filter : PidConfig F → F → ℕ → List F → Quaternion F → PidNode F → Result (PidNode F)
  unfolding filter_weight append_sample
  advance_filter config dt sample_ns angular_velocity orientation s = do
    accepted ←
        reject_vector_outlier (map (λ sample. sample.1) s.imu_rate_samples) angular_velocity
          config.imu_rate_outlier_limit_rps
    let samples = append_sample config.imu_rate_history (sample_ns, accepted) s.imu_rate_samples
    predicted ←
        timestamped_rate_prediction (map (λ sample. pos sample.0) samples)
          (map (λ sample. sample.1) samples) config.imu_rate_prediction_horizon_s
          config.imu_rate_prediction_accel_limit_rps2 config.imu_rate_prediction_delta_limit_rps
    rate ← or_raise s.imu_angular_velocity_filtered type_error
    attitude ← or_raise s.imu_orientation_filtered type_error
    let rate_alpha = filter_weight config.imu_rate_filter_time_constant_s dt
    let orientation_alpha = filter_weight config.imu_orientation_filter_time_constant_s dt
    filtered ← quaternion_slerp attitude orientation orientation_alpha
    ok (record s {
      imu_rate_samples = samples;
      imu_angular_velocity_filtered =
          some (add_vectors rate (map (λ x. rate_alpha ⊗ x) (sub_vectors predicted rate)));
      imu_orientation_filtered = some filtered;
    })

  -- Whether the sample follows the last one, and by how much.
  pub step_of : Option ℕ → ℕ → Option F
  step_of none sample_ns = none
  step_of (some previous) sample_ns =
      let dt = seconds (sub_ℕ sample_ns previous) in
      if lt zero_float dt && le dt (lit 2 1) then some dt else none

  pub filter_sample : PidConfig F → ℕ → List F → Quaternion F → PidNode F → Result (PidNode F)
  unfolding restart_filter
  filter_sample config sample_ns angular_velocity orientation s =
      elim (step_of s.imu_filter_ns sample_ns) [
        | none ↦ ok (restart_filter sample_ns angular_velocity orientation s)
        | some dt ↦ advance_filter config dt sample_ns angular_velocity orientation s
      ]

  -- `sample_ns` is the stamp of the message, `now_ns` the clock.
  pub on_imu : PidConfig F → Imu F → ℕ → ℕ → PidNode F → Result (PidNode F)
  on_imu config message sample_ns now_ns s = do
    sampled ← if s.pid_selected && imu_is_usable message then sample_attitude s message else ok none
    elim sampled [
      | none ↦ ok s
      | some orientation ↦
          let angular_velocity = vector_list message.angular_velocity in
          filter_sample config sample_ns angular_velocity orientation s >>= λ s'. ok (record s' {
            imu_orientation = some orientation;
            imu_angular_velocity = some angular_velocity;
            imu_ns = some now_ns;
            imu_filter_ns = some sample_ns;
          })
    ]
