-- ===== src/Logger/Events.antt =====
-- The subscriptions of run_logger.py, and the node as a whole: callbacks in any order, up to the first
-- that raises.
pub mod Folders
pub mod Journal
use robot_core.Prelude.{
  ℕ, ◌+◌, String, Bool, true, false, ◌&&◌, ◌==◌, Option, none, some, List, [], ◌∷◌, ltb, str_eq,
  if◌then◌else◌,
}
use robot_core.Prelude.Results.{Result, ok, err, Error}
use robot_core.Floats.{Floats}
use robot_core.Tracking.{TrackingStatus}
use robot_core.Logger.{RunLogger, Signature, write_event, flush_event_log, stream_log_due}
use robot_core.Logger.Messages.{
  Payload, SafetyMessage, PolicyMessage, ThrusterMessage, TargetMessage, AuthorityMessage,
  PidMessage, LocalizationMessage,
}
use robot_core.Logger.Payloads.{
  safety_event_payload, policy_status_payload, thruster_cmd_payload, trajectory_target_payload,
  tracking_status_payload, control_authority_status_payload, pid_status_payload,
  localization_status_payload,
}
use robot_core.Logger.Run.{
  RunConfig, StartEnv, StartRequest, StopRequest, on_start_run, on_stop_run,
}

abbrev eq_bool : Bool → Bool → Bool
eq_bool true b = b
eq_bool false true = false
eq_bool false false = true

unfoldable pub eq_signature : Signature → Option Signature → Bool
eq_signature a none = false
eq_signature a (some b) =
    str_eq a.code b.code && str_eq a.message b.message && eq_bool a.abort_active b.abort_active

unfoldable pub signature_of : SafetyMessage → Signature
signature_of m = record { code = m.code; message = m.message; abort_active = m.abort_active }

-- `now_ns - last < 1_000_000_000`, also where the ROS clock has gone back.
abbrev pub is_recent : ℕ → ℕ → Bool
is_recent now_ns last = ltb now_ns (last + 1000000000)

module _ {F : Type 0} where
  unfoldable pub on_safety_event : ℕ → SafetyMessage → RunLogger F → RunLogger F
  on_safety_event now_ns m s =
      let signature = signature_of m in
      if eq_signature signature s.last_safety_signature && is_recent now_ns s.last_safety_log_ns
      then s
      else write_event now_ns "safety_event" (safety_event_payload m) m.abort_active
          (record s { last_safety_signature = some signature; last_safety_log_ns = now_ns })

  pub on_policy_status : ℕ → PolicyMessage F → RunLogger F → RunLogger F
  on_policy_status now_ns m = write_event now_ns "policy_status" (policy_status_payload m) false

module _ {F : Type 0} ⦃fl : Floats F⦄ where
  pub on_localization_status : ℕ → LocalizationMessage F → RunLogger F → RunLogger F
  on_localization_status now_ns m s =
      if is_recent now_ns s.last_localization_log_ns
      then s
      else write_event now_ns "localization_status" (localization_status_payload m) false
          (record s { last_localization_log_ns = now_ns })

  -- The handlers of the sampled streams: `if not self.stream_log_due(...): return`, then the event.
  -- `mono_ns` is the monotonic clock.
  pub record_stream :
      List (String × F)
      → String
      → Payload F
      → (now_ns mono_ns : ℕ) → RunLogger F
      → RunLogger F × Result (Unit {0})
  record_stream rates event_type payload now_ns mono_ns s =
      let (s', due) = stream_log_due rates event_type mono_ns s in
      elim due [
        | err e ↦ (s', err e)
        | ok is_due ↦ (if is_due then write_event now_ns event_type payload false s' else s', ok tt)
      ]

  pub on_thruster_cmd :
      List (String × F)
      → (now_ns mono_ns : ℕ) → ThrusterMessage F
      → RunLogger F
      → RunLogger F × Result (Unit {0})
  on_thruster_cmd rates now_ns mono_ns m =
      record_stream rates "thruster_cmd" (thruster_cmd_payload m) now_ns mono_ns

  pub on_trajectory_target :
      List (String × F)
      → (now_ns mono_ns : ℕ) → TargetMessage F
      → RunLogger F
      → RunLogger F × Result (Unit {0})
  on_trajectory_target rates now_ns mono_ns m =
      record_stream rates "trajectory_target" (trajectory_target_payload m) now_ns mono_ns

  pub on_tracking_status :
      List (String × F)
      → (now_ns mono_ns : ℕ) → TrackingStatus F
      → RunLogger F
      → RunLogger F × Result (Unit {0})
  on_tracking_status rates now_ns mono_ns m =
      record_stream rates "tracking_status" (tracking_status_payload m) now_ns mono_ns

  pub on_authority_status :
      List (String × F)
      → (now_ns mono_ns : ℕ) → AuthorityMessage F
      → RunLogger F
      → RunLogger F × Result (Unit {0})
  on_authority_status rates now_ns mono_ns m =
      record_stream rates "control_authority_status" (control_authority_status_payload m) now_ns
        mono_ns

  pub on_pid_status :
      List (String × F)
      → (now_ns mono_ns : ℕ) → PidMessage F
      → RunLogger F
      → RunLogger F × Result (Unit {0})
  on_pid_status rates now_ns mono_ns m =
      record_stream rates "pid_status" (pid_status_payload m) now_ns mono_ns

-- A callback of the node, with the clocks that it reads.
pub data Callback (F : Type 0) : Type 0 where
  start : StartEnv → StartRequest F → Callback F
  stop : (now_ns : ℕ) → (wait_expires : Bool) → StopRequest → Callback F
  safety : (now_ns : ℕ) → SafetyMessage → Callback F
  policy : (now_ns : ℕ) → PolicyMessage F → Callback F
  localization : (now_ns : ℕ) → LocalizationMessage F → Callback F
  thruster : (now_ns mono_ns : ℕ) → ThrusterMessage F → Callback F
  target : (now_ns mono_ns : ℕ) → TargetMessage F → Callback F
  tracking : (now_ns mono_ns : ℕ) → TrackingStatus F → Callback F
  authority : (now_ns mono_ns : ℕ) → AuthorityMessage F → Callback F
  pid : (now_ns mono_ns : ℕ) → PidMessage F → Callback F
  flush_timer : Callback F

module _ {F : Type 0} where
  abbrev pub done : RunLogger F → RunLogger F × Result (Unit {0})
  done s = (s, ok tt)

  -- A service's answer goes to its client.
  abbrev pub answered : {X : Type 0} → RunLogger F × Result X → RunLogger F × Result (Unit {0})
  answered (s, err e) = (s, err e)
  answered (s, ok _) = (s, ok tt)

module _ {F : Type 0} ⦃fl : Floats F⦄ (config : RunConfig) (rates : List (String × F)) where
  unfoldable pub handle : Callback F → RunLogger F → RunLogger F × Result (Unit {0})
  handle (start env request) s = answered (on_start_run config env request s)
  handle (stop now_ns wait_expires request) s = answered (on_stop_run now_ns wait_expires request s)
  handle (safety now_ns m) s = done (on_safety_event now_ns m s)
  handle (policy now_ns m) s = done (on_policy_status now_ns m s)
  handle (localization now_ns m) s = done (on_localization_status now_ns m s)
  handle (thruster now_ns mono_ns m) s = on_thruster_cmd rates now_ns mono_ns m s
  handle (target now_ns mono_ns m) s = on_trajectory_target rates now_ns mono_ns m s
  handle (tracking now_ns mono_ns m) s = on_tracking_status rates now_ns mono_ns m s
  handle (authority now_ns mono_ns m) s = on_authority_status rates now_ns mono_ns m s
  handle (pid now_ns mono_ns m) s = on_pid_status rates now_ns mono_ns m s
  handle flush_timer s = done (flush_event_log s)

  -- Callbacks one after another; an exception leaves `rclpy.spin`.
  unfoldable pub spin : List (Callback F) → RunLogger F → RunLogger F × Result (Unit {0})
  spin [] s = done s
  spin (callback ∷ callbacks) s =
      let (s', outcome) = handle callback s in
      elim outcome [ err e ↦ (s', err e) | ok _ ↦ spin callbacks s' ]
