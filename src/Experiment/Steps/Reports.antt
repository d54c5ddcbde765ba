-- ===== src/Experiment/Steps/Reports.antt =====
-- What the calls of a run tell the client of the action and the recorder: the waits and the requests to
-- the other nodes say nothing.
use robot_core.Prelude.{ℕ, zero, suc, String, ◌≡◌, Bool, List, [], ◌∷◌, arith}
use robot_core.Floats.{Floats}
use robot_core.Catalog.{Field}
use robot_core.Experiment.{
  Reply, TrackingExperimentNode, Call, set_authority_call, start_run_call, set_parameters_call,
  validate_call, reset_call, stop_trajectory_call, stop_run_call, feedback_call, succeed_call,
  abort_call, canceled_call, Env, ◌>>=◌,
}
use robot_core.Experiment.Ensures.{Before, Keeps}
use robot_core.Experiment.Steps.{
  Expected, Marks, mark, waited, call, wait_for_service, set_authority, wait_until,
  wait_for_disarmed_status, wait_for_armed_status, ready_loop, wait_for_tracking_ready,
}

-- How a goal ends.
pub data Verdict : Type 0 where
  succeeded aborted was_canceled : Verdict

module _ {F : Type 0} where
  -- The verdicts on the goal, and the reports to the recorder, among the calls.
  abbrev pub verdicts : List (Call F) → List Verdict
  verdicts [] = []
  verdicts (succeed_call ∷ calls) = succeeded ∷ verdicts calls
  verdicts (abort_call ∷ calls) = aborted ∷ verdicts calls
  verdicts (canceled_call ∷ calls) = was_canceled ∷ verdicts calls
  verdicts (set_authority_call _ _ ∷ calls) = verdicts calls
  verdicts (start_run_call _ _ _ ∷ calls) = verdicts calls
  verdicts (set_parameters_call _ ∷ calls) = verdicts calls
  verdicts (validate_call ∷ calls) = verdicts calls
  verdicts (reset_call ∷ calls) = verdicts calls
  verdicts (stop_trajectory_call ∷ calls) = verdicts calls
  verdicts (stop_run_call _ _ ∷ calls) = verdicts calls
  verdicts (feedback_call _ _ _ ∷ calls) = verdicts calls

  abbrev pub reports : List (Call F) → List (Bool × String)
  reports [] = []
  reports (stop_run_call success message ∷ calls) = (success, message) ∷ reports calls
  reports (succeed_call ∷ calls) = reports calls
  reports (abort_call ∷ calls) = reports calls
  reports (canceled_call ∷ calls) = reports calls
  reports (set_authority_call _ _ ∷ calls) = reports calls
  reports (start_run_call _ _ _ ∷ calls) = reports calls
  reports (set_parameters_call _ ∷ calls) = reports calls
  reports (validate_call ∷ calls) = reports calls
  reports (reset_call ∷ calls) = reports calls
  reports (stop_trajectory_call ∷ calls) = reports calls
  reports (feedback_call _ _ _ ∷ calls) = reports calls

  -- Nothing has been said yet.
  abbrev pub IsOpen : Before F
  IsOpen calls = (verdicts calls ≡ []) × (reports calls ≡ [])

  abbrev pub Anything : Before F
  Anything calls = Unit

module _ {F : Type 0} ⦃fl : Floats F⦄ (env : Env) where
  pub wait_for_service-Keeps : Keeps {F = F} IsOpen Anything (wait_for_service env)
  unfolding wait_for_service
  wait_for_service-Keeps = record { at = λ r k. k }

  pub start_run-Keeps :
      {A : Type 0} (name controller : String) (duration_s : F) (answer : ℕ → Reply A)
      → Keeps IsOpen Anything (call env (start_run_call name controller duration_s) answer)
  unfolding call waited
  start_run-Keeps name controller duration_s answer = record { at = λ r k. ground arith }

  pub set_parameters-Keeps :
      {A : Type 0} (parameters : List (String × Field F)) (answer : ℕ → Reply A)
      → Keeps IsOpen Anything (call env (set_parameters_call parameters) answer)
  unfolding call waited
  set_parameters-Keeps parameters answer = record { at = λ r k. ground arith }

  pub validate-Keeps :
      {A : Type 0} (answer : ℕ → Reply A)
      → Keeps {F = F} IsOpen Anything (call env validate_call answer)
  unfolding call waited
  validate-Keeps answer = record { at = λ r k. ground arith }

  pub reset-Keeps :
      {A : Type 0} (answer : ℕ → Reply A)
      → Keeps {F = F} IsOpen Anything (call env reset_call answer)
  unfolding call waited
  reset-Keeps answer = record { at = λ r k. ground arith }

  pub set_authority-Keeps :
      (source : String) (arm : Bool) → Keeps {F = F} IsOpen Anything (set_authority env source arm)
  unfolding set_authority call wait_for_service waited ◌>>=◌
  set_authority-Keeps source arm = record { at = λ r k. ground arith }

  wait_until-Keeps :
      (fuel : ℕ) (test : TrackingExperimentNode → Bool) (deadline_ns : ℕ)
      → Keeps {F = F} IsOpen Anything (wait_until env fuel test deadline_ns)
  unfolding wait_until waited
  wait_until-Keeps zero test deadline_ns = record { at = λ r k. tt }
  wait_until-Keeps (suc fuel) test deadline_ns = record {
    at = λ r k. ground (arith, (wait_until-Keeps fuel test deadline_ns).at (waited env r) k);
  }

  ready_loop-Keeps :
      (fuel : ℕ) (e : Expected) (marks : Marks) (deadline_ns : ℕ)
      → Keeps {F = F} IsOpen Anything (ready_loop env fuel e marks deadline_ns)
  unfolding ready_loop waited
  ready_loop-Keeps zero e marks deadline_ns = record { at = λ r k. tt }
  ready_loop-Keeps (suc fuel) e marks deadline_ns = record {
    at = λ r k.
        ground
          (arith, (ready_loop-Keeps fuel e (mark e marks r.node) deadline_ns).at (waited env r) k);
  }

  pub wait_for_tracking_ready-Keeps :
      (fuel : ℕ) (e : Expected) (timeout_ns : ℕ)
      → Keeps {F = F} IsOpen Anything (wait_for_tracking_ready env fuel e timeout_ns)
  unfolding wait_for_tracking_ready
  wait_for_tracking_ready-Keeps fuel e timeout_ns = record {
    at = λ r. (ready_loop-Keeps fuel e _ _).at r;
  }

  pub wait_for_disarmed_status-Keeps :
      (fuel : ℕ) (source : String) (timeout_ns : ℕ)
      → Keeps {F = F} IsOpen Anything (wait_for_disarmed_status env fuel source timeout_ns)
  unfolding wait_for_disarmed_status
  wait_for_disarmed_status-Keeps fuel source timeout_ns = record {
    at = λ r. (wait_until-Keeps fuel _ _).at r;
  }

  pub wait_for_armed_status-Keeps :
      (fuel : ℕ) (source : String) (previous timeout_ns : ℕ)
      → Keeps {F = F} IsOpen Anything (wait_for_armed_status env fuel source previous timeout_ns)
  unfolding wait_for_armed_status
  wait_for_armed_status-Keeps fuel source previous timeout_ns = record {
    at = λ r. (wait_until-Keeps fuel _ _).at r;
  }
