-- ===== src/Experiment/Steps.antt =====
-- The awaited calls of tracking_experiment_node.py and its waits for a status. A timeout in seconds
-- is given in nanoseconds, as `int(timeout_s * 1e9)` makes it. Each pass of a waiting loop takes a
-- unit of fuel.
pub mod Ready
pub mod Stops
pub mod Reports
use robot_core.Prelude.{
  is_empty, ℕ, zero, suc, ◌+◌, String, Bool, true, false, not, ◌&&◌, Option, none, some, List, [],
  ◌∷◌, ltb, str_eq, if◌then◌else◌,
}
use robot_core.Python.Texts.{eq_lowered}
use robot_core.Catalog.{Field}
use robot_core.Experiment.{
  AuthorityStatus, TrajectoryTarget, PidStatus, PolicyStatus, TrackingExperimentNode, on_arrivals,
  AuthorityResponse, TriggerResponse, StartResponse, Reply, raised_reply, reply, Call,
  set_authority_call, start_run_call, stop_trajectory_call, stop_run_call, validate_call,
  reset_call, Env, Run, Outcome, done, raised, running, Action, pure, raise, gets, ◌>>=◌, ◌>>◌,
  emit,
}

-- What `wait_for_tracking_ready` waits for.
pub record Expected : Type 0 where
  pub target_sequence_before_reset : ℕ
  pub trajectory_type : String
  pub control_mode : String
  pub controller : String

-- The controller's sequence number, and the policy's inference count, when the reset target was
-- first seen.
pub record Marks : Type 0 where
  pub controller_sequence_at_target : Option ℕ
  pub inference_count_at_target : ℕ

abbrev pub unmarked : Marks
unmarked = record { controller_sequence_at_target = none; inference_count_at_target = 0 }

abbrev pub target_matches : Expected → TrackingExperimentNode → Bool
target_matches e s = elim s.latest_trajectory_target [
  | none ↦ false
  | some target ↦
      ltb e.target_sequence_before_reset s.trajectory_target_sequence
      && target.valid
      && eq_lowered target.trajectory_type e.trajectory_type
      && eq_lowered target.control_mode e.control_mode
]

abbrev pub policy_count : Marks → Option PolicyStatus → ℕ
policy_count marks none = marks.inference_count_at_target
policy_count marks (some policy) = policy.inference_count

unfoldable pub mark : Expected → Marks → TrackingExperimentNode → Marks
mark e marks s = elim marks.controller_sequence_at_target [
  | some n ↦ marks
  | none ↦
      if target_matches e s
      then if str_eq e.controller "pid"
        then record marks { controller_sequence_at_target = some s.pid_status_sequence }
        else record {
          controller_sequence_at_target = some s.policy_status_sequence;
          inference_count_at_target = policy_count marks s.latest_policy_status;
        }
      else marks
]

unfoldable pub pid_is_ready : Option PidStatus → Bool
pid_is_ready none = false
pid_is_ready (some pid) = pid.ready && pid.producing_command && is_empty pid.missing_inputs

unfoldable pub policy_is_ready : ℕ → Option PolicyStatus → Bool
policy_is_ready count none = false
policy_is_ready count (some policy) =
    policy.loaded
    && policy.input_ready
    && is_empty policy.missing_inputs
    && ltb count policy.inference_count

unfoldable pub is_ready : Expected → Marks → TrackingExperimentNode → Bool
unfolding pid_is_ready policy_is_ready
is_ready e marks s = elim marks.controller_sequence_at_target [
  | none ↦ false
  | some n ↦
      if str_eq e.controller "pid"
      then ltb n s.pid_status_sequence && pid_is_ready s.latest_pid_status
      else ltb n s.policy_status_sequence
        && policy_is_ready marks.inference_count_at_target s.latest_policy_status
]

abbrev pub is_disarmed_as : String → Option AuthorityStatus → Bool
is_disarmed_as source none = false
is_disarmed_as source (some a) =
    not a.armed && not a.fault_latched && str_eq a.selected_source source

abbrev pub is_armed_as : String → ℕ → Option AuthorityStatus → Bool
is_armed_as source previous none = false
is_armed_as source previous (some a) =
    a.armed
    && not a.fault_latched
    && str_eq a.selected_source source
    && ltb previous a.arm_generation

abbrev pub outcome_of : {A : Type 0} → Reply A → Outcome A
outcome_of raised_reply = raised
outcome_of (reply a) = done a

module _ {F : Type 0} (env : Env) where
  -- The run after one wait, whatever arrives during it.
  unfoldable pub waited : Run F → Run F
  waited r = record r { node = on_arrivals (env.arrivals r.waits) r.node; waits = r.waits + 1 }

  -- `await client.call_async(request)`
  unfoldable pub call : {A : Type 0} → Call F → (ℕ → Reply A) → Action F A
  unfolding waited
  call c answer r = (outcome_of (answer r.waits), waited (record r { trace = c ∷ r.trace }))

  -- `client.wait_for_service(...)`. It blocks the executor, so no message need arrive; the environment says.
  unfoldable pub wait_for_service : Action F Bool
  unfolding waited
  wait_for_service r = (done (env.service_ready r.waits), waited r)

  -- `wait_for_next_feedback`
  unfoldable pub wait_for_next_feedback : Action F (Unit {0})
  unfolding waited
  wait_for_next_feedback r = (done tt, waited r)

  unfoldable pub now_ns : Run F → ℕ
  now_ns r = env.clock_ns r.waits

  -- `set_authority`; `none` when the service is not there. The sources are lower-case already.
  unfoldable pub set_authority : String → Bool → Action F (Option AuthorityResponse)
  unfolding wait_for_service call ◌>>=◌
  set_authority source arm = do
    available ← wait_for_service
    if not available then pure none else do
      response ← call (set_authority_call source arm) env.authority_reply
      pure (some response)

  unfoldable pub disarm : String → Action F (Option AuthorityResponse)
  unfolding set_authority
  disarm source = set_authority source false

  unfoldable pub stop_trajectory : Action F (Option TriggerResponse)
  unfolding wait_for_service call ◌>>=◌
  stop_trajectory = do
    available ← wait_for_service
    if not available
        then pure none
        else do response ← call stop_trajectory_call env.trigger_reply; pure (some response)

  unfoldable pub stop_run : Bool → String → Action F TriggerResponse
  unfolding call
  stop_run success message = call (stop_run_call success message) env.stop_reply

  -- `while now < deadline: if test: return True; wait`, then `return False`.
  unfoldable pub wait_until : ℕ → (TrackingExperimentNode → Bool) → ℕ → Action F Bool
  unfolding now_ns wait_for_next_feedback
  wait_until zero test deadline_ns r = (running, r)
  wait_until (suc fuel) test deadline_ns r =
      let again = wait_until fuel test deadline_ns (waited r) in
      if ltb (now_ns r) deadline_ns
      then (if test r.node then (done true, r) else again)
      else (done false, r)

  unfoldable pub wait_for_disarmed_status : ℕ → String → ℕ → Action F Bool
  wait_for_disarmed_status fuel source timeout_ns r =
      wait_until fuel (λ s. is_disarmed_as source s.authority) (now_ns r + timeout_ns) r

  unfoldable pub wait_for_armed_status : ℕ → String → ℕ → ℕ → Action F Bool
  wait_for_armed_status fuel source previous timeout_ns r =
      wait_until fuel (λ s. is_armed_as source previous s.authority) (now_ns r + timeout_ns) r

  -- The loop of `wait_for_tracking_ready`: first the reset target, then a newer output of the controller.
  unfoldable pub ready_loop : ℕ → Expected → Marks → ℕ → Action F Bool
  unfolding now_ns waited mark is_ready
  ready_loop zero expected marks deadline_ns r = (running, r)
  ready_loop (suc fuel) expected marks deadline_ns r =
      let marks' = mark expected marks r.node in
      let again = ready_loop fuel expected marks' deadline_ns (waited r) in
      if ltb (now_ns r) deadline_ns
      then (if is_ready expected marks' r.node then (done true, r) else again)
      else (done false, r)

  unfoldable pub wait_for_tracking_ready : ℕ → Expected → ℕ → Action F Bool
  wait_for_tracking_ready fuel expected timeout_ns r =
      ready_loop fuel expected unmarked (now_ns r + timeout_ns) r
