-- ===== src/Experiment/Execute/Armed.antt =====
-- Arming comes last: what has been called, and in which order, whenever the controller is armed.
pub mod Stages
pub mod Order
use robot_core.Prelude.{
  ℕ, zero, suc, String, ◌≡◌, refl, Bool, true, false, not, List, [], ◌∷◌, arith, Option, none, some,
  if◌then◌else◌,
}
use robot_core.Prelude.Int.{sub_ℕ}
use robot_core.Prelude.Results.{Result, ok, err}
use robot_core.Floats.{Floats, seconds}
use robot_core.Catalog.{Task, Field}
use robot_core.Experiment.{
  AuthorityStatus, AuthorityResponse, StartResponse, Reply, TrackingExperimentNode, Call,
  set_authority_call, start_run_call, set_parameters_call, validate_call, reset_call,
  stop_trajectory_call, stop_run_call, feedback_call, succeed_call, abort_call, canceled_call, Env,
  Run, Outcome, done, raised, running, Action, ◌>>=◌, ◌>>◌, finally_do,
}
use robot_core.Experiment.Ensures.{
  Before, Returns, Holds, Ensures, Keeps, Ensures-if, Ensures-bind, Ensures-unchanged, Keeps-bind,
}
use robot_core.Experiment.Steps.{
  Expected, Marks, mark, now_ns, waited, call, wait_for_service, set_authority, disarm,
  stop_trajectory, stop_run, wait_until, wait_for_disarmed_status, wait_for_armed_status,
  ready_loop, wait_for_tracking_ready,
}
use robot_core.Experiment.Execute.{
  RunResult, is_accepted, feedback, known_generation, finish, fail_active_run, track,
  track_and_stop, arm_and_track, prepare_and_arm, record_and_run, run_task, execute,
}

module _ {F : Type 0} where
  -- The calls, the last one first, end with the preparation of this controller up to a stage.
  abbrev pub IsNeutral : Before F
  IsNeutral calls = (older : List (Call F)) × (calls ≡ set_authority_call "" false ∷ older)

  abbrev pub IsSelected : String → Before F
  IsSelected controller calls =
      (older : List (Call F)) × (calls ≡ set_authority_call controller false ∷ older)
      × IsNeutral older

  abbrev pub IsRecording : String → Before F
  IsRecording controller calls =
      (older : List (Call F)) × (name : String) × (duration_s : F) × (calls
        ≡ start_run_call name controller duration_s ∷ older)
      × IsSelected controller older

  abbrev pub IsConfigured : String → Before F
  IsConfigured controller calls =
      (older : List (Call F)) × (parameters : List (String × Field F)) × (calls
        ≡ set_parameters_call parameters ∷ older)
      × IsRecording controller older

  abbrev pub IsValidated : String → Before F
  IsValidated controller calls =
      (older : List (Call F)) × (calls ≡ validate_call ∷ older) × IsConfigured controller older

  abbrev pub IsReset : String → Before F
  IsReset controller calls =
      (older : List (Call F)) × (calls ≡ reset_call ∷ older) × IsValidated controller older

  -- Every request to arm comes right after a complete preparation of the controller that it arms.
  abbrev pub ArmsPrepared : Before F
  ArmsPrepared [] = Unit
  ArmsPrepared (set_authority_call source true ∷ calls) = IsReset source calls × ArmsPrepared calls
  ArmsPrepared (set_authority_call source false ∷ calls) = ArmsPrepared calls
  ArmsPrepared (start_run_call _ _ _ ∷ calls) = ArmsPrepared calls
  ArmsPrepared (set_parameters_call _ ∷ calls) = ArmsPrepared calls
  ArmsPrepared (validate_call ∷ calls) = ArmsPrepared calls
  ArmsPrepared (reset_call ∷ calls) = ArmsPrepared calls
  ArmsPrepared (stop_trajectory_call ∷ calls) = ArmsPrepared calls
  ArmsPrepared (stop_run_call _ _ ∷ calls) = ArmsPrepared calls
  ArmsPrepared (feedback_call _ _ _ ∷ calls) = ArmsPrepared calls
  ArmsPrepared (succeed_call ∷ calls) = ArmsPrepared calls
  ArmsPrepared (abort_call ∷ calls) = ArmsPrepared calls
  ArmsPrepared (canceled_call ∷ calls) = ArmsPrepared calls

  -- At a stage of the preparation, every arming so far prepared.
  abbrev pub At : (List (Call F) → Type 0) → Before F
  At stage calls = stage calls × ArmsPrepared calls

  abbrev pub Prepared : {A : Type 0} → Returns F A
  Prepared a calls = ArmsPrepared calls
