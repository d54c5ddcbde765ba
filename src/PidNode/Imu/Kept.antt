-- ===== src/PidNode/Imu/Kept.antt =====
-- A sample of the IMU leaves the selection and the connections of the node alone.
use robot_core.Prelude.{◌≡◌, inl, inr, ℕ, List, Option-cases, arith}
use robot_core.Prelude.Results.{ok, Result-cases}
use robot_core.Floats.{Floats}
use robot_core.Tracking.{Imu}
use robot_core.Tracking.Rotation.{Quaternion}
use robot_core.PidNode.{PidConfig, PidNode, IsKept}
use robot_core.PidNode.Imu.{
  on_imu, advance_filter, restart_filter, filter_sample, sample_attitude, step_of, vector_list,
}

module _ {F : Type 0} ⦃fl : Floats F⦄ where
  advance_filter-IsKept :
      (config : PidConfig F) (dt : F) (sample_ns : ℕ) (rate : List F) (attitude : Quaternion F)
      (s s' : PidNode F)
      → advance_filter config dt sample_ns rate attitude s ≡ ok s'
      → IsKept s s'
  unfolding advance_filter IsKept
  advance_filter-IsKept config dt sample_ns rate attitude s s' h = ground arith

  filter_sample-IsKept :
      (config : PidConfig F) (sample_ns : ℕ) (rate : List F) (attitude : Quaternion F)
      (s s' : PidNode F)
      → filter_sample config sample_ns rate attitude s ≡ ok s'
      → IsKept s s'
  unfolding filter_sample restart_filter IsKept
  filter_sample-IsKept config sample_ns rate attitude s s' h =
      elim (Option-cases (step_of {F = F} s.imu_filter_ns sample_ns)) [
        | inl anew ↦ ground arith
        | inr (dt, e) ↦ ground (arith, advance_filter-IsKept config dt sample_ns rate attitude s s')
      ]

  pub on_imu-IsKept :
      (config : PidConfig F) (message : Imu F) (sample_ns now_ns : ℕ) (s s' : PidNode F)
      → on_imu config message sample_ns now_ns s ≡ ok s'
      → IsKept s s'
  unfolding on_imu IsKept
  on_imu-IsKept config message sample_ns now_ns s s' h =
      elim (Result-cases (sample_attitude s message)) [
        | inl bad ↦ ground arith
        | inr (sampled, e) ↦ elim (Option-cases sampled) [
          | inl ignored ↦ ground arith
          | inr (attitude, e2) ↦
              let rate = vector_list message.angular_velocity in
              elim (Result-cases (filter_sample config sample_ns rate attitude s)) [
                | inl bad ↦ ground arith
                | inr (filtered, e3) ↦
                    ground
                      (arith, filter_sample-IsKept config sample_ns rate attitude s filtered e3)
              ]
        ]
      ]
