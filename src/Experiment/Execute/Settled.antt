-- ===== src/Experiment/Execute/Settled.antt =====
-- What the client of the action is told, and what the recorder is told.
use robot_core.Prelude.{
  ℕ, zero, suc, String, ◌≡◌, ◌⊎◌, inl, inr, Bool, true, false, List, [], ◌∷◌, arith, Option, none,
  some,
}
use robot_core.Prelude.Results.{Result, ok, err}
use robot_core.Floats.{Floats, seconds}
use robot_core.Prelude.Int.{sub_ℕ}
use robot_core.Catalog.{Task}
use robot_core.Experiment.{AuthorityStatus, Call, Env, Run, ◌>>=◌}
use robot_core.Experiment.Ensures.{
  Returns, Holds, Ensures, Keeps, Ensures-if, Ensures-weaken, Keeps-bind,
}
use robot_core.Experiment.Steps.{
  now_ns, waited, call, wait_for_service, set_authority, disarm, stop_trajectory, stop_run,
}
use robot_core.Experiment.Execute.{
  RunResult, Ended, feedback, known_generation, finish, fail_active_run, track, track_and_stop,
  arm_and_track, prepare_and_arm, record_and_run, run_task, execute,
}
use robot_core.Experiment.Steps.Reports.{
  succeeded, aborted, was_canceled, verdicts, reports, IsOpen, Anything, wait_for_service-Keeps,
  start_run-Keeps, set_parameters-Keeps, validate-Keeps, reset-Keeps, set_authority-Keeps,
  wait_for_tracking_ready-Keeps, wait_for_disarmed_status-Keeps, wait_for_armed_status-Keeps,
}

module _ {F : Type 0} where
  -- One verdict, which is the result's.
  abbrev pub HasVerdict : Bool → List (Call F) → Type 0
  HasVerdict true calls = verdicts calls ≡ succeeded ∷ []
  HasVerdict false calls = (verdicts calls ≡ aborted ∷ []) ⊎ (verdicts calls ≡ was_canceled ∷ [])

  -- The recorder has been told the result, once.
  abbrev pub IsReported : Returns F RunResult
  IsReported result calls =
      HasVerdict result.success calls × (reports calls ≡ (result.success, result.message) ∷ [])

  abbrev pub IsSettled : Returns F RunResult
  IsSettled result calls =
      IsReported result calls
      ⊎ ((result.success ≡ false) × (verdicts calls ≡ aborted ∷ []) × (reports calls ≡ []))

module _ {F : Type 0} ⦃fl : Floats F⦄ (env : Env) where
  known_generation-Keeps :
      (known : Option AuthorityStatus) → Keeps {F = F} IsOpen Anything (known_generation known)
  unfolding known_generation
  known_generation-Keeps none = record { at = λ r k. tt }
  known_generation-Keeps (some a) = record { at = λ r k. k }

  finish-IsSettled :
      (message : String) → Ensures {F = F} IsOpen IsSettled Anything (finish false message)
  unfolding finish ◌>>=◌
  finish-IsSettled message = record { at = λ r k. inr (ground arith) }

  fail_active_run-IsReported :
      (run_dir message controller : String)
      → Ensures {F = F} IsOpen IsReported Anything (fail_active_run env run_dir message controller)
  unfolding fail_active_run stop_trajectory disarm set_authority stop_run call wait_for_service
      waited finish ◌>>=◌
  fail_active_run-IsReported run_dir message controller = record { at = λ r k. ground arith }

  -- The loop says nothing, except on a cancel.
  abbrev Said : Returns F Ended
  Said ended calls =
      (reports calls ≡ [])
      × ((ended.canceled ≡ true) → (ended.success ≡ false) × (verdicts calls ≡ was_canceled ∷ []))
      × ((ended.canceled ≡ false) → verdicts calls ≡ [])

  track-Said :
      (fuel : ℕ) (task : Task F) (started_ns : ℕ)
      → Ensures IsOpen Said Anything (track env fuel task started_ns)
  unfolding track waited
  track-Said zero task started_ns = record { at = λ r k. tt }
  track-Said (suc fuel) task started_ns = record {
    at = λ r k.
        let fed : Run F = record r {
          trace = feedback task (seconds (sub_ℕ (now_ns env r) started_ns)) ∷ r.trace;
        } in
        ground (arith, (track-Said fuel task started_ns).at (waited env fed) k);
  }

  track_and_stop-IsReported :
      (fuel : ℕ) (task : Task F) (run_dir : String)
      → Ensures IsOpen IsReported Anything (track_and_stop env fuel task run_dir)
  unfolding track_and_stop stop_trajectory disarm set_authority stop_run call wait_for_service
      waited ◌>>=◌
  track_and_stop-IsReported fuel task run_dir = record {
    at = λ r k. ground (arith, (track-Said fuel task (now_ns env r)).at r k);
  }

  arm_and_track-IsReported :
      (fuel : ℕ) (task : Task F) (run_dir : String)
      → Ensures IsOpen IsReported Anything (arm_and_track env fuel task run_dir)
  unfolding arm_and_track
  arm_and_track-IsReported fuel task run_dir =
      search
        (
          Keeps-bind, Ensures-if, known_generation-Keeps, set_authority-Keeps,
          wait_for_armed_status-Keeps, reset-Keeps, fail_active_run-IsReported,
          track_and_stop-IsReported,
        )
        depth 30

  prepare_and_arm-IsReported :
      (fuel : ℕ) (task : Task F) (run_dir : String)
      → Ensures IsOpen IsReported Anything (prepare_and_arm env fuel task run_dir)
  unfolding prepare_and_arm
  prepare_and_arm-IsReported fuel task run_dir =
      search
        (
          Keeps-bind, Ensures-if, wait_for_service-Keeps, set_parameters-Keeps, validate-Keeps,
          reset-Keeps, wait_for_tracking_ready-Keeps, fail_active_run-IsReported,
          arm_and_track-IsReported,
        )
        depth 40

  -- Once the recorder has started a run and the goal has no verdict yet, the rest of the execution,
  -- when it returns, has given the goal one verdict, which agrees with the result's success, and has
  -- told the recorder to stop once, with the result's success and message.
  pub prepare_and_arm_reports :
      (fuel : ℕ) (task : Task F) (run_dir : String) (r : Run F)
      → IsOpen r.trace
      → Holds IsReported Anything (prepare_and_arm env fuel task run_dir r)
  prepare_and_arm_reports fuel task run_dir r start =
      (prepare_and_arm-IsReported fuel task run_dir).at r start

  prepare_and_arm-IsSettled :
      (fuel : ℕ) (task : Task F) (run_dir : String)
      → Ensures IsOpen IsSettled Anything (prepare_and_arm env fuel task run_dir)
  prepare_and_arm-IsSettled fuel task run_dir =
      Ensures-weaken IsOpen IsReported IsSettled Anything _ (λ result calls. inl)
        (prepare_and_arm-IsReported fuel task run_dir)

  record_and_run-IsSettled :
      (fuel : ℕ) (task : Task F) → Ensures IsOpen IsSettled Anything (record_and_run env fuel task)
  unfolding record_and_run disarm
  record_and_run-IsSettled fuel task =
      search
        (
          Keeps-bind, Ensures-if, set_authority-Keeps, wait_for_service-Keeps, start_run-Keeps,
          finish-IsSettled, prepare_and_arm-IsSettled,
        )
        depth 20

  run_task-IsSettled :
      (fuel : ℕ) (task : Task F) → Ensures IsOpen IsSettled Anything (run_task env fuel task)
  unfolding run_task
  run_task-IsSettled fuel task =
      search
        (
          Keeps-bind, Ensures-if, set_authority-Keeps, wait_for_disarmed_status-Keeps,
          finish-IsSettled, record_and_run-IsSettled,
        )
        depth 30

  -- From a goal without a verdict and a recorder without a report, an execution that returns has
  -- given the goal exactly one verdict: succeeded when the result is a success, and otherwise aborted
  -- or canceled. The recorder has been told to stop at most once, with the result's success and
  -- message; it has not been told only if the result is a failure.
  pub execute_settles :
      (fuel : ℕ) (found : Result (Task F)) (r : Run F)
      → IsOpen r.trace
      → Holds IsSettled Anything (execute env fuel found r)
  unfolding execute
  execute_settles fuel (ok task) r start = (run_task-IsSettled fuel task).at r start
  execute_settles fuel (err e) r start = (finish-IsSettled _).at r start
