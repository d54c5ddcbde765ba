-- ===== src/Experiment.antt =====
-- ros_ws/src/robotcore_runtime/robotcore_runtime/tracking_experiment_node.py: the action that runs
-- one tracking task. The other nodes are the environment: for the n-th wait of the run it says what
-- the service answers, which messages arrive meanwhile, and what the clock and the goal then say.
pub mod Steps
pub mod Execute
pub mod Ensures
use robot_core.Prelude.{
  ℕ, zero, suc, ◌+◌, String, Bool, true, false, Option, none, some, List, [], ◌∷◌,
}
use robot_core.Catalog.{Field}

-- The message fields that the node reads.
pub record AuthorityStatus : Type 0 where
  pub selected_source : String
  pub armed : Bool
  pub arm_generation : ℕ
  pub fault_latched : Bool

pub record TrajectoryTarget : Type 0 where
  pub trajectory_type : String
  pub control_mode : String
  pub valid : Bool

pub record PidStatus : Type 0 where
  pub ready : Bool
  pub producing_command : Bool
  pub missing_inputs : List String

pub record PolicyStatus : Type 0 where
  pub loaded : Bool
  pub input_ready : Bool
  pub missing_inputs : List String
  pub inference_count : ℕ

pub data Arrival : Type 0 where
  authority_arrival : AuthorityStatus → Arrival
  target_arrival : TrajectoryTarget → Arrival
  pid_arrival : PidStatus → Arrival
  policy_arrival : PolicyStatus → Arrival

pub record TrackingExperimentNode : Type 0 where
  pub authority : Option AuthorityStatus
  pub latest_trajectory_target : Option TrajectoryTarget
  pub trajectory_target_sequence : ℕ
  pub latest_pid_status : Option PidStatus
  pub pid_status_sequence : ℕ
  pub latest_policy_status : Option PolicyStatus
  pub policy_status_sequence : ℕ

-- `on_authority`, `on_trajectory_target`, `on_pid_status` and `on_policy_status`.
pub on_arrival : Arrival → TrackingExperimentNode → TrackingExperimentNode
on_arrival (authority_arrival m) s = record s { authority = some m }
on_arrival (target_arrival m) s = record s {
  latest_trajectory_target = some m;
  trajectory_target_sequence = s.trajectory_target_sequence + 1;
}
on_arrival (pid_arrival m) s = record s {
  latest_pid_status = some m;
  pid_status_sequence = s.pid_status_sequence + 1;
}
on_arrival (policy_arrival m) s = record s {
  latest_policy_status = some m;
  policy_status_sequence = s.policy_status_sequence + 1;
}

pub on_arrivals : List Arrival → TrackingExperimentNode → TrackingExperimentNode
on_arrivals [] s = s
on_arrivals (a ∷ as_) s = on_arrivals as_ (on_arrival a s)

-- Service responses, and an awaited call that may raise instead.
pub record AuthorityResponse : Type 0 where
  pub accepted : Bool
  pub armed : Bool
  pub message : String

pub record TriggerResponse : Type 0 where
  pub success : Bool
  pub message : String

pub record StartResponse : Type 0 where
  pub success : Bool
  pub run_dir : String
  pub message : String

pub data Reply (A : Type 0) : Type 0 where
  raised_reply : Reply A
  reply : A → Reply A

-- What the node does to the outside.
pub data Call (F : Type 0) : Type 0 where
  set_authority_call : (source : String) → (arm : Bool) → Call F
  start_run_call : (task_name controller : String) → (duration_s : F) → Call F
  set_parameters_call : List (String × Field F) → Call F
  validate_call : Call F
  reset_call : Call F
  stop_trajectory_call : Call F
  stop_run_call : (success : Bool) → (message : String) → Call F
  feedback_call : (progress : F) → (phase : String) → (elapsed_s : F) → Call F
  succeed_call : Call F
  abort_call : Call F
  canceled_call : Call F

pub record Env : Type 0 where
  pub clock_ns : ℕ → ℕ
  pub arrivals : ℕ → List Arrival
  pub cancel_requested : ℕ → Bool
  -- `wait_for_service` within its timeout
  pub service_ready : ℕ → Bool
  pub authority_reply : ℕ → Reply AuthorityResponse
  pub start_reply : ℕ → Reply StartResponse
  pub stop_reply : ℕ → Reply TriggerResponse
  pub parameters_reply : ℕ → Reply (List Bool)
  pub trigger_reply : ℕ → Reply TriggerResponse

-- A run so far: the node, the number of waits, and the calls made, the last one first.
pub record Run (F : Type 0) : Type 0 where
  pub node : TrackingExperimentNode
  pub waits : ℕ
  pub trace : List (Call F)

-- `running` is a run that has not come to an end within the fuel.
pub data Outcome (A : Type 0) : Type 0 where
  done : A → Outcome A
  raised : Outcome A
  running : Outcome A

abbrev pub Action : Type 0 → Type 0 → Type 0
Action F A = Run F → Outcome A × Run F

module _ {F : Type 0} where
  abbrev pub pure : {A : Type 0} → A → Action F A
  pure a r = (done a, r)

  abbrev pub raise : {A : Type 0} → Action F A
  raise r = (raised, r)

  abbrev pub gets : {A : Type 0} → (Run F → A) → Action F A
  gets f r = (done (f r), r)

  -- An exception, and a run that has not come to an end, skip the rest.
  abbrev pub continue : {A B : Type 0} → Outcome A → Run F → (A → Action F B) → Outcome B × Run F
  continue (done a) r f = f a r
  continue raised r f = (raised, r)
  continue running r f = (running, r)

  infixl 5 ◌>>=◌ ◌>>◌
  unfoldable pub ◌>>=◌ : {A B : Type 0} → Action F A → (A → Action F B) → Action F B
  ◌>>=◌ m f r = let (o, r') = m r in continue o r' f

  abbrev pub ◌>>◌ : {A B : Type 0} → Action F A → Action F B → Action F B
  m >> k = m >>= λ _. k

  abbrev after_cleanup : {A B : Type 0} → Outcome A → Outcome B × Run F → Outcome A × Run F
  after_cleanup o (done _, r) = (o, r)
  after_cleanup o (raised, r) = (raised, r)
  after_cleanup o (running, r) = (running, r)

  -- `try: m finally: cleanup`; what the cleanup raises takes the place of how `m` ended.
  abbrev pub finally_do : {A B : Type 0} → Action F A → Action F B → Action F A
  finally_do m cleanup r =
      let (o, r') = m r in
      elim o [
        | done a ↦ after_cleanup (done a) (cleanup r')
        | raised ↦ after_cleanup raised (cleanup r')
        | running ↦ (running, r')
      ]

  -- A call that returns at once.
  abbrev pub emit : Call F → Action F (Unit {0})
  emit c r = (done tt, record r { trace = c ∷ r.trace })
