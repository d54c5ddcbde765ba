-- ===== src/Experiment/Execute/Armed/Stages.antt =====
-- How each call of `execute` moves the preparation from one stage to the next.
use robot_core.Prelude.{
  ℕ, zero, suc, String, ◌≡◌, refl, Bool, true, false, not, List, ◌∷◌, arith, Option, none, some,
  if◌then◌else◌,
}
use robot_core.Prelude.Int.{sub_ℕ}
use robot_core.Floats.{Floats, seconds}
use robot_core.Catalog.{Task, Field}
use robot_core.Experiment.{
  AuthorityStatus, AuthorityResponse, Reply, TrackingExperimentNode, Call, start_run_call,
  set_parameters_call, validate_call, reset_call, Env, Run, done, Action, ◌>>=◌,
}
use robot_core.Experiment.Ensures.{
  Returns, Ensures, Keeps, Ensures-if, Ensures-bind, Ensures-unchanged,
}
use robot_core.Experiment.Steps.{
  Expected, Marks, mark, now_ns, waited, call, wait_for_service, set_authority, disarm,
  stop_trajectory, stop_run, wait_until, wait_for_disarmed_status, wait_for_armed_status,
  ready_loop, wait_for_tracking_ready,
}
use robot_core.Experiment.Execute.{
  RunResult, is_accepted, feedback, known_generation, finish, fail_active_run, track,
  track_and_stop,
}
use robot_core.Experiment.Execute.Armed.{
  IsNeutral, IsSelected, IsRecording, IsConfigured, IsValidated, IsReset, ArmsPrepared, At,
  Prepared,
}

module _ {F : Type 0} ⦃fl : Floats F⦄ (env : Env) where
  pub fail_active_run-Prepared :
      (run_dir message controller : String)
      → Ensures {F = F} ArmsPrepared Prepared ArmsPrepared
          (fail_active_run env run_dir message controller)
  unfolding fail_active_run stop_trajectory disarm set_authority stop_run call wait_for_service
      waited finish ◌>>=◌
  fail_active_run-Prepared run_dir message controller = record { at = λ r k. ground arith }

  track-Prepared :
      (fuel : ℕ) (task : Task F) (started_ns : ℕ)
      → Ensures ArmsPrepared Prepared ArmsPrepared (track env fuel task started_ns)
  unfolding track waited
  track-Prepared zero task started_ns = record { at = λ r k. k }
  track-Prepared (suc fuel) task started_ns = record {
    at = λ r k.
        let fed : Run F = record r {
          trace = feedback task (seconds (sub_ℕ (now_ns env r) started_ns)) ∷ r.trace;
        } in
        ground (arith, (track-Prepared fuel task started_ns).at (waited env fed) k);
  }

  pub track_and_stop-Prepared :
      (fuel : ℕ) (task : Task F) (run_dir : String)
      → Ensures ArmsPrepared Prepared ArmsPrepared (track_and_stop env fuel task run_dir)
  unfolding track_and_stop stop_trajectory disarm set_authority stop_run call wait_for_service
      waited ◌>>=◌
  track_and_stop-Prepared fuel task run_dir = record {
    at = λ r k. ground (arith, (track-Prepared fuel task (now_ns env r)).at r k);
  }

  wait_until_trace :
      (fuel : ℕ) (test : TrackingExperimentNode → Bool) (deadline_ns : ℕ) (r : Run F)
      → (wait_until env fuel test deadline_ns r).1.trace ≡ r.trace
  unfolding wait_until waited
  wait_until_trace zero test deadline_ns r = refl
  wait_until_trace (suc fuel) test deadline_ns r =
      ground (arith, wait_until_trace fuel test deadline_ns (waited env r))

  ready_loop_trace :
      (fuel : ℕ) (e : Expected) (marks : Marks) (deadline_ns : ℕ) (r : Run F)
      → (ready_loop env fuel e marks deadline_ns r).1.trace ≡ r.trace
  unfolding ready_loop waited
  ready_loop_trace zero e marks deadline_ns r = refl
  ready_loop_trace (suc fuel) e marks deadline_ns r =
      ground (arith, ready_loop_trace fuel e (mark e marks r.node) deadline_ns (waited env r))

  pub arm-Prepared :
      (controller : String)
      → Ensures {F = F}
          (At (IsReset controller))
          Prepared
          ArmsPrepared
          (set_authority env controller true)
  unfolding set_authority call wait_for_service waited ◌>>=◌
  arm-Prepared controller = record { at = λ r k. ground arith }

  module _ (Stage : List (Call F) → Type 0) where
    pub known_generation-At :
        (known : Option AuthorityStatus)
        → Ensures (At Stage) (λ _. At Stage) ArmsPrepared (known_generation known)
    unfolding known_generation
    known_generation-At none = record { at = λ r k. k.1 }
    known_generation-At (some a) = record { at = λ r k. k }

    pub gets-At :
        {A : Type 0} (f : Run F → A)
        → Ensures (At Stage) (λ _. At Stage) ArmsPrepared (λ r. (done (f r), r))
    gets-At f = record { at = λ r k. k }

    pub wait_for_service-At : Ensures (At Stage) (λ _. At Stage) ArmsPrepared (wait_for_service env)
    unfolding wait_for_service
    wait_for_service-At = record { at = λ r k. k }

    pub fail_active_run-At :
        (run_dir message controller : String)
        → Ensures (At Stage) Prepared ArmsPrepared (fail_active_run env run_dir message controller)
    fail_active_run-At run_dir message controller = record {
      at = λ r k. (fail_active_run-Prepared run_dir message controller).at r k.1;
    }

    pub finish-At :
        (message : String) → Ensures (At Stage) Prepared ArmsPrepared (finish false message)
    unfolding finish ◌>>=◌
    finish-At message = record { at = λ r k. k.1 }

    pub disarm-At :
        (controller : String) → Ensures (At Stage) Prepared ArmsPrepared (disarm env controller)
    unfolding disarm set_authority call wait_for_service waited ◌>>=◌
    disarm-At controller = record { at = λ r k. ground arith }

    pub wait_for_tracking_ready-At :
        (fuel : ℕ) (e : Expected) (timeout_ns : ℕ)
        → Ensures
            (At Stage)
            (λ _. At Stage)
            ArmsPrepared
            (wait_for_tracking_ready env fuel e timeout_ns)
    unfolding wait_for_tracking_ready
    wait_for_tracking_ready-At fuel e timeout_ns =
        Ensures-unchanged _ _ _ _ (λ r. ready_loop_trace fuel e _ _ r) (λ _ _ k. k) (λ _ k. k.1)

    pub wait_for_disarmed_status-At :
        (fuel : ℕ) (source : String) (timeout_ns : ℕ)
        → Ensures
            (At Stage)
            (λ _. At Stage)
            ArmsPrepared
            (wait_for_disarmed_status env fuel source timeout_ns)
    unfolding wait_for_disarmed_status
    wait_for_disarmed_status-At fuel source timeout_ns =
        Ensures-unchanged _ _ _ _ (λ r. wait_until_trace fuel _ _ r) (λ _ _ k. k) (λ _ k. k.1)

  pub wait_for_armed_status-Prepared :
      (fuel : ℕ) (source : String) (previous timeout_ns : ℕ)
      → Keeps {F = F} ArmsPrepared ArmsPrepared
          (wait_for_armed_status env fuel source previous timeout_ns)
  unfolding wait_for_armed_status
  wait_for_armed_status-Prepared fuel source previous timeout_ns =
      Ensures-unchanged _ _ _ _ (λ r. wait_until_trace fuel _ _ r) (λ _ _ k. k) (λ _ k. k)

  pub reset-Prepared :
      {A : Type 0} (answer : ℕ → Reply A)
      → Keeps {F = F} ArmsPrepared ArmsPrepared (call env reset_call answer)
  unfolding call waited
  reset-Prepared answer = record { at = λ r k. ground arith }

  pub finish-Prepared :
      (message : String) → Ensures {F = F} ArmsPrepared Prepared ArmsPrepared (finish false message)
  unfolding finish ◌>>=◌
  finish-Prepared message = record { at = λ r k. k }

  pub start_run-IsRecording :
      {A : Type 0} (name controller : String) (duration_s : F) (answer : ℕ → Reply A)
      → Ensures
          (At (IsSelected controller))
          (λ _. At (IsRecording controller))
          ArmsPrepared
          (call env (start_run_call name controller duration_s) answer)
  unfolding call waited
  start_run-IsRecording name controller duration_s answer = record { at = λ r k. ground arith }

  pub set_parameters-IsConfigured :
      {A : Type 0} (controller : String) (parameters : List (String × Field F))
      (answer : ℕ → Reply A)
      → Ensures
          (At (IsRecording controller))
          (λ _. At (IsConfigured controller))
          ArmsPrepared
          (call env (set_parameters_call parameters) answer)
  unfolding call waited
  set_parameters-IsConfigured controller parameters answer = record { at = λ r k. ground arith }

  pub validate-IsValidated :
      {A : Type 0} (controller : String) (answer : ℕ → Reply A)
      → Ensures {F = F}
          (At (IsConfigured controller))
          (λ _. At (IsValidated controller))
          ArmsPrepared
          (call env validate_call answer)
  unfolding call waited
  validate-IsValidated controller answer = record { at = λ r k. ground arith }

  pub reset_call-IsReset :
      {A : Type 0} (controller : String) (answer : ℕ → Reply A)
      → Ensures {F = F}
          (At (IsValidated controller))
          (λ _. At (IsReset controller))
          ArmsPrepared
          (call env reset_call answer)
  unfolding call waited
  reset_call-IsReset controller answer = record { at = λ r k. ground arith }

  -- A step to a stage, and then the test of its answer: the run fails, or goes on at the stage.
  pub guarded :
      {A : Type 0} (P Stage : List (Call F) → Type 0) (m : Action F A) (test : A → Bool)
      (failed passed : A → Action F RunResult)
      → Ensures P (λ _. At Stage) ArmsPrepared m
      → ((a : A) → Ensures (At Stage) Prepared ArmsPrepared (failed a))
      → ((a : A) → Ensures (At Stage) Prepared ArmsPrepared (passed a))
      → Ensures P Prepared ArmsPrepared (m >>= λ a. if test a then failed a else passed a)
  guarded P Stage m test failed passed hm hn hy =
      Ensures-bind P (λ _. At Stage) Prepared ArmsPrepared m _ hm
        (λ a.
          Ensures-if (At Stage) Prepared ArmsPrepared (test a) (failed a) (passed a) (hn a) (hy a))

  -- What `set_authority` leaves, by whether the service was there.
  abbrev pub Answered : (List (Call F) → Type 0) → Returns F (Option AuthorityResponse)
  Answered Stage none calls = ArmsPrepared calls
  Answered Stage (some response) calls = At Stage calls

  pub answered :
      (P Stage : List (Call F) → Type 0) (m : Action F (Option AuthorityResponse))
      (message : String) (passed : Option AuthorityResponse → Action F RunResult)
      → Ensures P (Answered Stage) ArmsPrepared m
      → ((a : Option AuthorityResponse) → Ensures (At Stage) Prepared ArmsPrepared (passed a))
      → Ensures P Prepared ArmsPrepared
          (m >>= λ a. if not (is_accepted a) then finish false message else passed a)
  unfolding is_accepted
  answered P Stage m message passed hm hy =
      Ensures-bind P (Answered Stage) Prepared ArmsPrepared m _ hm (λ a.
        elim a
          as (λ a.
            Ensures (Answered Stage a) Prepared ArmsPrepared
              (if not (is_accepted a) then finish false message else passed a)) [
                | none ↦ finish-Prepared message
                | some response ↦
                    Ensures-if (At Stage) Prepared ArmsPrepared (not response.accepted) _ _
                      (finish-At Stage message) (hy (some response))
              ])

  pub disarm-IsNeutral :
      Ensures {F = F} ArmsPrepared (Answered IsNeutral) ArmsPrepared (set_authority env "" false)
  unfolding set_authority call wait_for_service waited ◌>>=◌
  disarm-IsNeutral = record { at = λ r k. ground arith }

  pub select-IsSelected :
      (controller : String)
      → Ensures {F = F}
          (At IsNeutral)
          (Answered (IsSelected controller))
          ArmsPrepared
          (set_authority env controller false)
  unfolding set_authority call wait_for_service waited ◌>>=◌
  select-IsSelected controller = record { at = λ r k. ground arith }
