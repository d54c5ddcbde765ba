-- ===== src/Experiment/Execute.antt =====
-- `execute` of tracking_experiment_node.py, in the order of the code: each stage ends the run or goes
-- on to the next. `upper_name` is `controller.upper()` of the two controllers of the catalog.
pub mod Disarm
pub mod Stops
pub mod Settled
pub mod Armed
mod Tests
use robot_core.Prelude.{
  ℕ, zero, suc, ◌+◌, String, Bool, true, false, not, ◌&&◌, ◌||◌, Option, none, some, List, [], ◌∷◌,
  ◌++◌, str_eq, concat, if◌then◌else◌,
}
use robot_core.Prelude.Int.{sub_ℕ}
use robot_core.Prelude.Results.{Result, ok, err}
use robot_core.Floats.{Floats, lt, le, ◌⊘◌, lit, seconds, py_max, py_min, zero_float, one_float}
use robot_core.Catalog.{Task, Field, text_field, number_field, Scenario, find, insert, text_of}
use robot_core.Experiment.{
  AuthorityStatus, AuthorityResponse, TriggerResponse, StartResponse, Call, start_run_call,
  set_parameters_call, validate_call, reset_call, feedback_call, succeed_call, abort_call,
  canceled_call, Env, Run, Outcome, done, raised, running, Action, pure, raise, gets, ◌>>=◌, ◌>>◌,
  finally_do, emit,
}
use robot_core.Experiment.Steps.{
  waited, call, wait_for_service, wait_for_next_feedback, now_ns, set_authority, disarm,
  stop_trajectory, stop_run, wait_for_disarmed_status, wait_for_armed_status,
  wait_for_tracking_ready,
}

pub record RunResult : Type 0 where
  pub success : Bool
  pub run_dir : String
  pub message : String

-- How the feedback loop ended: `success`, `canceled` and `message`.
pub record Ended : Type 0 where
  pub success : Bool
  pub canceled : Bool
  pub message : String

-- The keys of `ALLOWED_PARAMETER_TYPES`, in order.
abbrev pub allowed_parameters : List String
allowed_parameters =
    "trajectory_type" ∷ "control_mode" ∷ "attitude_mode" ∷ "relative_to_initial_pose" ∷ "center_x"
    ∷ "center_y" ∷ "center_z" ∷ "hold_before_motion_s" ∷ "amp_x" ∷ "amp_y" ∷ "amp_z" ∷ "radius_m"
    ∷ "period_s" ∷ "trajectory_speed_mps" ∷ "trajectory_ramp_s" ∷ "move_duration_s"
    ∷ "manual_vertical_speed_mps" ∷ "station_linear_input_gain_mps"
    ∷ "station_lateral_input_gain_mps" ∷ "station_yaw_input_gain_rps" ∷ []

pub upper_name : String → String
upper_name controller = if str_eq controller "pid" then "PID" else "RL"

all_true : List Bool → Bool
all_true [] = true
all_true (b ∷ bs) = b && all_true bs

module _ {F : Type 0} where
  chosen : Option (Field F) → String → List (String × Field F) → List (String × Field F)
  chosen none name rest = rest
  chosen (some f) name rest = (name, f) ∷ rest

  -- The parameters that are sent: the allowed ones that the scenario sets.
  pub select_parameters : List String → Scenario F → List (String × Field F)
  unfolding chosen
  select_parameters [] fields = []
  select_parameters (name ∷ names) fields =
      chosen (find name fields) name (select_parameters names fields)

  pub scenario_parameters : Task F → Scenario F
  scenario_parameters task = insert "control_mode" (text_field task.control_mode) task.trajectory

  pub number_or : F → Option (Field F) → F
  number_or default (some (number_field x)) = x
  number_or default _ = default

  -- `finish`
  pub finish : Bool → String → Action F RunResult
  finish success message = do
    emit (if success then succeed_call else abort_call)
    pure (record { success = success; run_dir = ""; message = message })

-- `response is not None and response.accepted`, with `armed` for the arming call.
pub is_accepted : Option AuthorityResponse → Bool
is_accepted none = false
is_accepted (some response) = response.accepted

pub is_armed : Option AuthorityResponse → Bool
is_armed none = false
is_armed (some response) = response.accepted && response.armed

-- `self.authority is not None and not self.authority.fault_latched`
pub is_healthy : Option AuthorityStatus → Bool
is_healthy none = false
is_healthy (some a) = not a.fault_latched

arm_message : Option AuthorityResponse → String
arm_message none = "control authority service unavailable"
arm_message (some response) = response.message

-- The authority still runs this controller, without a fault.
pub holds_authority : String → Option AuthorityStatus → Bool
holds_authority controller none = false
holds_authority controller (some a) =
    a.armed && str_eq a.selected_source controller && not a.fault_latched

-- `int(self.authority.arm_generation)`, which raises on None.
pub known_generation : {F : Type 0} → Option AuthorityStatus → Action F ℕ
known_generation none = raise
known_generation (some a) = pure a.arm_generation

module _ {F : Type 0} (env : Env) where
  -- `fail_active_run`
  pub fail_active_run : String → String → String → Action F RunResult
  fail_active_run run_dir message controller = do
    finally_do (stop_trajectory env) (disarm env controller)
    stop_run env false message
    result ← finish false message
    pure (record result { run_dir = run_dir })

module _ {F : Type 0} ⦃fl : Floats F⦄ where
  -- `publish_feedback`
  pub feedback : Task F → F → Call F
  feedback task elapsed =
      feedback_call
        (if task.run_until_stopped
          then zero_float
          else py_min one_float (elapsed ⊘ py_max task.duration_s (lit 1 6)))
        (if lt elapsed (number_or zero_float (find "hold_before_motion_s" task.trajectory))
          then "hold"
          else "tracking")
        elapsed

module _ {F : Type 0} ⦃fl : Floats F⦄ (env : Env) where
  -- The `while True` loop; each pass takes a unit of fuel.
  pub track : ℕ → Task F → ℕ → Action F Ended
  unfolding now_ns wait_for_next_feedback holds_authority feedback
  track zero task started_ns r = (running, r)
  track (suc passes) task started_ns r =
      let elapsed = seconds (sub_ℕ (now_ns env r) started_ns) in
      let again =
        track passes task started_ns
          (waited env (record r { trace = feedback task elapsed ∷ r.trace })) in
      if not task.run_until_stopped && le task.duration_s elapsed
      then (done (record { success = true; canceled = false; message = "completed" }), r)
      else if env.cancel_requested r.waits
      then (
        done (record { success = false; canceled = true; message = "canceled and disarmed" }),
        record r { trace = canceled_call ∷ r.trace },
      )
      else if not (holds_authority task.controller r.node.authority)
      then (
        done (record {
          success = false;
          canceled = false;
          message = "authority disarmed or faulted during experiment";
        }),
        r,
      )
      else again

module _ {F : Type 0} ⦃fl : Floats F⦄ (env : Env) (fuel : ℕ) where
  -- From the first feedback to the result: the loop, then always stop and disarm.
  pub track_and_stop : Task F → String → Action F RunResult
  track_and_stop task run_dir = do
    started_ns ← gets (now_ns env)
    ended ←
        finally_do (track env fuel task started_ns)
          (finally_do (stop_trajectory env) (disarm env task.controller))
    stop_run env ended.success ended.message
    (if ended.success
        then emit succeed_call
        else if not ended.canceled
        then emit abort_call
        else pure tt)
    pure (record { success = ended.success; run_dir = run_dir; message = ended.message })

  -- Arm, confirm, and restart the trajectory's clock.
  pub arm_and_track : Task F → String → Action F RunResult
  arm_and_track task run_dir = do
    known ← gets (λ r. r.node.authority)
    generation ← known_generation known
    response ← set_authority env task.controller true
    if not (is_armed response)
        then fail_active_run env run_dir
            (concat (
              upper_name task.controller
              ∷ " re-arm after trajectory reset failed: "
              ∷ arm_message response
              ∷ []))
            task.controller
        else do
          confirmed ← wait_for_armed_status env fuel task.controller generation 500_000_000
          if not confirmed
              then fail_active_run env run_dir
                  (concat (
                    upper_name task.controller
                    ∷ " re-arm was not confirmed by authority status"
                    ∷ []))
                  task.controller
              else do
                official ← call env reset_call env.trigger_reply
                if not official.success
                    then fail_active_run env run_dir official.message task.controller
                    else track_and_stop task run_dir

  -- Scenario parameters, validation, reset, and a fresh target and controller output.
  pub prepare_and_arm : Task F → String → Action F RunResult
  prepare_and_arm task run_dir = do
    let fail = λ (message : String). fail_active_run env run_dir message task.controller
    let fields = scenario_parameters task
    available ← wait_for_service env
    if not available then fail "trajectory parameter service unavailable" else do
      accepted ←
          call env (set_parameters_call (select_parameters allowed_parameters fields))
            env.parameters_reply
      if not (all_true accepted) then fail "trajectory scenario parameters rejected" else do
        can_validate ← wait_for_service env
        if not can_validate then fail "trajectory validation service unavailable" else do
          validation ← call env validate_call env.trigger_reply
          if not validation.success then fail validation.message else do
            can_reset ← wait_for_service env
            if not can_reset then fail "trajectory reset service unavailable" else do
              before ← gets (λ r. r.node.trajectory_target_sequence)
              reset ← call env reset_call env.trigger_reply
              if not reset.success then fail reset.message else do
                ready ←
                    wait_for_tracking_ready env fuel
                      (record {
                        target_sequence_before_reset = before;
                        trajectory_type = text_of "trajectory_type" fields;
                        control_mode = task.control_mode;
                        controller = task.controller;
                      })
                      1_000_000_000
                if not ready
                    then fail (
                        concat (
                          "reset trajectory target and ready "
                          ∷ upper_name task.controller
                          ∷ " command were not observed"
                          ∷ []))
                    else arm_and_track task run_dir

  -- The recorder starts; without it nothing else does.
  pub record_and_run : Task F → Action F RunResult
  record_and_run task = do
    available ← wait_for_service env
    if not available
        then (do disarm env task.controller; finish false "run recorder service unavailable")
        else do
          started ←
              call env (start_run_call task.name task.controller task.duration_s) env.start_reply
          if not started.success
              then (do disarm env task.controller; finish false started.message)
              else prepare_and_arm task started.run_dir

  -- `execute` of a task that the catalog has.
  pub run_task : Task F → Action F RunResult
  run_task task = do
    known ← gets (λ r. r.node.authority)
    if not (is_healthy known)
        then finish false (
            concat
              (upper_name task.controller ∷ " authority status must be available and healthy" ∷ []))
        else do
          disarmed ← set_authority env "" false
          if not (is_accepted disarmed)
              then finish false "could not disarm current authority before preparing trajectory"
              else do
                selected ← set_authority env task.controller false
                if not (is_accepted selected)
                    then finish false (
                        concat (
                          "could not select "
                          ∷ upper_name task.controller
                          ∷ " while disarmed"
                          ∷ []))
                    else do
                      confirmed ← wait_for_disarmed_status env fuel task.controller 500_000_000
                      if not confirmed
                          then finish false (
                              concat (
                                upper_name task.controller
                                ∷ " disarmed selection was not confirmed"
                                ∷ []))
                          else record_and_run task

  -- `execute`, from what the catalog answers for the task id; the text of its exception is left out.
  pub execute : Result (Task F) → Action F RunResult
  execute (ok task) = run_task task
  execute (err e) = finish false "managed tracking task is unavailable or invalid"
