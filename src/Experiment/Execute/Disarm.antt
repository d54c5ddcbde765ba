-- ===== src/Experiment/Execute/Disarm.antt =====
-- The run ends disarmed.
use robot_core.Prelude.{
  ℕ, zero, suc, String, ◌≡◌, Bool, true, false, List, [], ◌∷◌, arith, if◌then◌else◌,
}
use robot_core.Prelude.Results.{Result, ok, err}
use robot_core.Floats.{Floats}
use robot_core.Catalog.{Task}
use robot_core.Experiment.{
  TrackingExperimentNode, Reply, Call, set_authority_call, start_run_call, set_parameters_call,
  validate_call, reset_call, stop_trajectory_call, stop_run_call, feedback_call, succeed_call,
  abort_call, canceled_call, Env, Run, Outcome, done, raised, running, Action, ◌>>=◌, continue,
}
use robot_core.Experiment.Steps.{
  now_ns, waited, call, wait_for_service, set_authority, disarm, stop_trajectory, stop_run,
  wait_until, wait_for_disarmed_status,
}
use robot_core.Experiment.Execute.{
  finish, fail_active_run, track, track_and_stop, arm_and_track, prepare_and_arm, record_and_run,
  run_task, execute,
}

-- The last authority request of a trace, if any, disarms.
abbrev pub IsDisarmed : {F : Type 0} → List (Call F) → Type 0
IsDisarmed [] = Unit
IsDisarmed (set_authority_call source arm ∷ calls) = arm ≡ false
IsDisarmed (start_run_call _ _ _ ∷ calls) = IsDisarmed calls
IsDisarmed (set_parameters_call _ ∷ calls) = IsDisarmed calls
IsDisarmed (validate_call ∷ calls) = IsDisarmed calls
IsDisarmed (reset_call ∷ calls) = IsDisarmed calls
IsDisarmed (stop_trajectory_call ∷ calls) = IsDisarmed calls
IsDisarmed (stop_run_call _ _ ∷ calls) = IsDisarmed calls
IsDisarmed (feedback_call _ _ _ ∷ calls) = IsDisarmed calls
IsDisarmed (succeed_call ∷ calls) = IsDisarmed calls
IsDisarmed (abort_call ∷ calls) = IsDisarmed calls
IsDisarmed (canceled_call ∷ calls) = IsDisarmed calls

-- A run that returns is disarmed.
abbrev pub ReturnsDisarmed : {F A : Type 0} → Outcome A × Run F → Type 0
ReturnsDisarmed (done a, r) = IsDisarmed r.trace
ReturnsDisarmed (raised, r) = Unit
ReturnsDisarmed (running, r) = Unit

-- A run that has come to an end, by an exception too, is disarmed.
abbrev pub EndsDisarmed : {F A : Type 0} → Outcome A × Run F → Type 0
EndsDisarmed (done a, r) = IsDisarmed r.trace
EndsDisarmed (raised, r) = IsDisarmed r.trace
EndsDisarmed (running, r) = Unit

-- Whenever the action returns, the run is disarmed.
pub record Disarms {F A : Type 0} (m : Action F A) : Type 0 where
  pub at : (r : Run F) → ReturnsDisarmed (m r)

-- The action, when it returns, leaves a disarmed run disarmed.
pub record KeepsDisarmed {F A : Type 0} (m : Action F A) : Type 0 where
  pub at : (r : Run F) → IsDisarmed r.trace → ReturnsDisarmed (m r)

module _ {F A : Type 0} where
  Disarms-KeepsDisarmed : (m : Action F A) → Disarms m → KeepsDisarmed m
  Disarms-KeepsDisarmed m h = record { at = λ r _. h.at r }

  KeepsDisarmed-if :
      (b : Bool) (m n : Action F A)
      → KeepsDisarmed m
      → KeepsDisarmed n
      → KeepsDisarmed (if b then m else n)
  KeepsDisarmed-if true m n hm hn = hm
  KeepsDisarmed-if false m n hm hn = hn

  Disarms-if : (b : Bool) (m n : Action F A) → Disarms m → Disarms n → Disarms (if b then m else n)
  Disarms-if true m n hm hn = hm
  Disarms-if false m n hm hn = hn

  Disarms-ends : (m : Action F A) → ((r : Run F) → EndsDisarmed (m r)) → Disarms m
  Disarms-ends m h = record { at = λ r. weaken (m r) (h r) }
    where
      weaken : (x : Outcome A × Run F) → EndsDisarmed x → ReturnsDisarmed x
      weaken (done a, r) k = k
      weaken (raised, r) k = tt
      weaken (running, r) k = tt

module _ {F A B : Type 0} where
  -- What every continuation leaves disarmed, the whole does.
  Disarms-bind :
      (m : Action F A) (f : A → Action F B) → ((a : A) → Disarms (f a)) → Disarms (m >>= f)
  unfolding ◌>>=◌
  Disarms-bind m f h = record { at = λ r. let (o, r') = m r in go o r' }
    where
      go : (o : Outcome A) (r : Run F) → ReturnsDisarmed (continue o r f)
      go (done a) r = (h a).at r
      go raised r = tt
      go running r = tt

  KeepsDisarmed-bind :
      (m : Action F A) (f : A → Action F B)
      → KeepsDisarmed m
      → ((a : A) → KeepsDisarmed (f a))
      → KeepsDisarmed (m >>= f)
  unfolding ◌>>=◌
  KeepsDisarmed-bind m f hm hf = record { at = λ r k. go (m r) (hm.at r k) }
    where
      go :
          (x : Outcome A × Run F)
          → ReturnsDisarmed x
          → ReturnsDisarmed (let (o, r') = x in continue o r' f)
      go (done a, r) k = (hf a).at r k
      go (raised, r) k = tt
      go (running, r) k = tt

module _ {F : Type 0} ⦃fl : Floats F⦄ (env : Env)
    (ready : (n : ℕ) → env.service_ready n ≡ true) where
  disarm-EndsDisarmed : (source : String) (r : Run F) → EndsDisarmed (disarm env source r)
  unfolding disarm
  disarm-EndsDisarmed source r = ground (arith, ready r.waits)

  fail_active_run-EndsDisarmed :
      (run_dir message controller : String) (r : Run F)
      → EndsDisarmed (fail_active_run env run_dir message controller r)
  unfolding fail_active_run stop_run finish ◌>>=◌
  fail_active_run-EndsDisarmed run_dir message controller r =
      ground (arith, disarm-EndsDisarmed controller (stop_trajectory env r).1)

  -- Once the feedback loop has begun, the run ends disarmed however it ends: by its duration, a
  -- cancel, a lost authority, or an exception in the stop or disarm calls.
  pub track_and_stop-EndsDisarmed :
      (fuel : ℕ) (task : Task F) (run_dir : String) (r : Run F)
      → EndsDisarmed (track_and_stop env fuel task run_dir r)
  unfolding track_and_stop stop_run ◌>>=◌
  track_and_stop-EndsDisarmed fuel task run_dir r =
      let r' = (track env fuel task (now_ns env r) r).1 in
      ground (arith, disarm-EndsDisarmed task.controller (stop_trajectory env r').1)

  fail_active_run-Disarms :
      (run_dir message controller : String)
      → Disarms {F = F} (fail_active_run env run_dir message controller)
  fail_active_run-Disarms run_dir message controller =
      Disarms-ends _ (fail_active_run-EndsDisarmed run_dir message controller)

  track_and_stop-Disarms :
      (fuel : ℕ) (task : Task F) (run_dir : String) → Disarms (track_and_stop env fuel task run_dir)
  track_and_stop-Disarms fuel task run_dir =
      Disarms-ends _ (track_and_stop-EndsDisarmed fuel task run_dir)

  arm_and_track-Disarms :
      (fuel : ℕ) (task : Task F) (run_dir : String) → Disarms (arm_and_track env fuel task run_dir)
  unfolding arm_and_track
  arm_and_track-Disarms fuel task run_dir =
      search (Disarms-bind, Disarms-if, fail_active_run-Disarms, track_and_stop-Disarms) depth 20

  prepare_and_arm-Disarms :
      (fuel : ℕ) (task : Task F) (run_dir : String)
      → Disarms (prepare_and_arm env fuel task run_dir)
  unfolding prepare_and_arm
  prepare_and_arm-Disarms fuel task run_dir =
      search (Disarms-bind, Disarms-if, fail_active_run-Disarms, arm_and_track-Disarms) depth 30

  finish-KeepsDisarmed :
      (success : Bool) (message : String) → KeepsDisarmed {F = F} (finish success message)
  unfolding finish ◌>>=◌
  finish-KeepsDisarmed true message = record { at = λ r k. k }
  finish-KeepsDisarmed false message = record { at = λ r k. k }

  set_authority-KeepsDisarmed :
      (source : String) → KeepsDisarmed {F = F} (set_authority env source false)
  unfolding set_authority call wait_for_service waited ◌>>=◌
  set_authority-KeepsDisarmed source = record { at = λ r k. ground arith }

  wait_until-KeepsDisarmed :
      (fuel : ℕ) (test : TrackingExperimentNode → Bool) (deadline_ns : ℕ) (r : Run F)
      → IsDisarmed r.trace
      → ReturnsDisarmed (wait_until env fuel test deadline_ns r)
  unfolding wait_until waited
  wait_until-KeepsDisarmed zero test deadline_ns r k = tt
  wait_until-KeepsDisarmed (suc fuel) test deadline_ns r k =
      ground (arith, wait_until-KeepsDisarmed fuel test deadline_ns (waited env r) k)

  wait_for_disarmed_status-KeepsDisarmed :
      (fuel : ℕ) (source : String) (timeout_ns : ℕ)
      → KeepsDisarmed {F = F} (wait_for_disarmed_status env fuel source timeout_ns)
  unfolding wait_for_disarmed_status
  wait_for_disarmed_status-KeepsDisarmed fuel source timeout_ns = record {
    at = λ r. wait_until-KeepsDisarmed fuel _ _ r;
  }

  gets-KeepsDisarmed : {A : Type 0} (f : Run F → A) → KeepsDisarmed (λ (r : Run F). (done (f r), r))
  gets-KeepsDisarmed f = record { at = λ r k. k }

  wait_for_service-KeepsDisarmed : KeepsDisarmed {F = F} (wait_for_service env)
  unfolding wait_for_service
  wait_for_service-KeepsDisarmed = record { at = λ r k. k }

  call-KeepsDisarmed :
      {A : Type 0} (name controller : String) (duration_s : F) (answer : ℕ → Reply A)
      → KeepsDisarmed (call env (start_run_call name controller duration_s) answer)
  unfolding call waited
  call-KeepsDisarmed name controller duration_s answer = record { at = λ r k. ground arith }

  prepare_and_arm-KeepsDisarmed :
      (fuel : ℕ) (task : Task F) (run_dir : String)
      → KeepsDisarmed (prepare_and_arm env fuel task run_dir)
  prepare_and_arm-KeepsDisarmed fuel task run_dir =
      Disarms-KeepsDisarmed _ (prepare_and_arm-Disarms fuel task run_dir)

  disarm-KeepsDisarmed : (source : String) → KeepsDisarmed {F = F} (disarm env source)
  unfolding disarm
  disarm-KeepsDisarmed = set_authority-KeepsDisarmed

  record_and_run-KeepsDisarmed :
      (fuel : ℕ) (task : Task F) → KeepsDisarmed (record_and_run env fuel task)
  unfolding record_and_run
  record_and_run-KeepsDisarmed fuel task =
      search
        (
          KeepsDisarmed-bind, KeepsDisarmed-if, wait_for_service-KeepsDisarmed, call-KeepsDisarmed,
          disarm-KeepsDisarmed, finish-KeepsDisarmed, prepare_and_arm-KeepsDisarmed,
        )
        depth 20

  run_task-KeepsDisarmed : (fuel : ℕ) (task : Task F) → KeepsDisarmed (run_task env fuel task)
  unfolding run_task
  run_task-KeepsDisarmed fuel task =
      search
        (
          KeepsDisarmed-bind, KeepsDisarmed-if, gets-KeepsDisarmed, set_authority-KeepsDisarmed,
          wait_for_disarmed_status-KeepsDisarmed, finish-KeepsDisarmed,
          record_and_run-KeepsDisarmed,
        )
        depth 30

  -- When the authority service (and every other one) answers within its timeout and the run starts
  -- with its last authority request, if any, a disarming one, then on every path on which `execute`
  -- returns a result the last authority request it made disarms.
  pub execute-ReturnsDisarmed :
      (fuel : ℕ) (found : Result (Task F)) (r : Run F) (start : IsDisarmed r.trace)
      → ReturnsDisarmed (execute env fuel found r)
  unfolding execute
  execute-ReturnsDisarmed fuel (ok task) r start = (run_task-KeepsDisarmed fuel task).at r start
  execute-ReturnsDisarmed fuel (err e) r start = (finish-KeepsDisarmed false _).at r start
