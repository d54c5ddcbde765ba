-- ===== src/PidNode/Events.antt =====
-- The callbacks of the PID node, in the order in which they run.
pub mod Connected
mod Tests
use robot_core.Prelude.{
  ℕ, Bool, true, false, Option, none, some, List, [], ◌∷◌, ◌++◌, if◌then◌else◌,
}
use robot_core.Prelude.Int.{ℤ, pos}
use robot_core.Prelude.Results.{Result, ok, err, ◌>>=◌}
use robot_core.Floats.{Floats, clip, zero_float, lit}
use robot_core.Tracking.{BodyState, Imu}
use robot_core.Logger.Messages.{TargetMessage}
use robot_core.Control.Pid.{reset}
use robot_core.PidNode.{
  PidConfig, PidNode, AuthorityStatus, on_body, on_target, on_authority_status,
}
use robot_core.PidNode.Imu.{on_imu}
use robot_core.PidNode.Publish.{Published}
use robot_core.PidNode.Tick.{tick}

pub data Callback (F : Type 0) : Type 0 where
  authority : AuthorityStatus F → Callback F
  body : (now_ns : ℕ) → BodyState F → Callback F
  imu : (sample_ns now_ns : ℕ) → Imu F → Callback F
  target : (now_ns : ℕ) → TargetMessage F → Callback F
  timer : (now_ns : ℕ) → Callback F

module _ {F : Type 0} ⦃fl : Floats F⦄ where
  -- The node that is constructed: no input, not selected. `pwm_limit_us` is the parameter.
  unfoldable pub initial : F → PidNode F
  unfolding reset
  initial pwm_limit_us = record {
    pid_selected = false;
    is_connected = false;
    body = none;
    body_ns = none;
    imu_angular_velocity = none;
    imu_orientation = none;
    imu_ns = none;
    imu_angular_velocity_filtered = none;
    imu_orientation_filtered = none;
    imu_filter_ns = none;
    imu_rate_samples = [];
    target = none;
    target_ns = none;
    last_tick_ns = none;
    absolute_localization_seen = false;
    altitude_hold_active = false;
    station_hold_active = false;
    fast_station_hold_active = false;
    station_trajectory_phase = "";
    station_yaw_maneuver_active = false;
    station_yaw_heading_error_sign = pos 0;
    fast_station_sway_limited_effort = zero_float;
    fast_station_lateral_yaw_limited_effort = zero_float;
    fast_station_pitch_rate_integral_effort = zero_float;
    fast_station_surge_direction = pos 0;
    altitude_vertical_velocity_filtered = none;
    pwm_limit_us = clip pwm_limit_us zero_float (lit 250 0);
    altitude_pid = reset;
    station_surge_pid = reset;
    station_sway_pid = reset;
    fast_station_sway_pid = reset;
    station_yaw_pid = reset;
  }

  abbrev pub silent : Result (PidNode F) → Result (PidNode F × Option (Published F))
  silent answer = answer >>= λ s. ok (s, none)

  -- The three inputs are heard only while they are subscribed to, and the timer runs only while the
  -- PID source is selected.
  pub callback : PidConfig F → Callback F → PidNode F → Result (PidNode F × Option (Published F))
  callback config (authority message) s = ok (on_authority_status message s, none)
  callback config (body now_ns message) s =
      ok (if s.is_connected then on_body message now_ns s else s, none)
  callback config (imu sample_ns now_ns message) s =
      if s.is_connected then silent (on_imu config message sample_ns now_ns s) else ok (s, none)
  callback config (target now_ns message) s =
      ok (if s.is_connected then on_target message now_ns s else s, none)
  callback config (timer now_ns) s = tick config now_ns s

  abbrev pub published_of : Option (Published F) → List (Published F)
  published_of none = []
  published_of (some p) = p ∷ []

  pub run : PidConfig F → List (Callback F) → PidNode F → Result (PidNode F × List (Published F))
  unfolding callback
  run config [] s = ok (s, [])
  run config (c ∷ cs) s = do
    (s', published) ← callback config c s
    (s'', rest) ← run config cs s'
    ok (s'', published_of published ++ rest)
