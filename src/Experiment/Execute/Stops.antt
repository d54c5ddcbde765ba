-- ===== src/Experiment/Execute/Stops.antt =====
-- A task of a fixed duration comes to an end.
use robot_core.Prelude.{
  ℕ, zero, suc, ◌+◌, ◌-◌, ◌≤◌, ◌≡◌, Bool, true, false, Option, none, some, String, ◌∷◌, arith,
  if◌then◌else◌,
}
use robot_core.Prelude.Int.{pos, sub_ℕ}
use robot_core.Floats.{Floats, le, seconds}
use robot_core.Catalog.{Task}
use robot_core.Experiment.{
  AuthorityStatus, Env, Run, Outcome, done, raised, running, Action, Call, Reply, ◌>>=◌, continue,
  raise, pure,
}
use robot_core.Experiment.Steps.{
  Expected, now_ns, waited, call, wait_for_service, set_authority, disarm, stop_trajectory,
  stop_run, wait_for_disarmed_status, wait_for_armed_status, wait_for_tracking_ready,
}
use robot_core.Experiment.Steps.Stops.{IsOver, Advances, wait_until-IsOver, ready_loop-IsOver}
use robot_core.Experiment.Execute.{
  known_generation, finish, fail_active_run, feedback, track, track_and_stop, arm_and_track,
  prepare_and_arm, record_and_run, run_task,
}

-- Every run of the action comes to an end.
pub record Finishes {F A : Type 0} (m : Action F A) : Type 0 where
  pub at : (r : Run F) → IsOver (m r)

-- The task has a fixed duration, which has passed after `limit` nanoseconds.
abbrev pub EndsBy : {F : Type 0} ⦃fl : Floats F⦄ → ℕ → Task F → Type 0
EndsBy limit task =
    (task.run_until_stopped ≡ false)
    × ((n : ℕ) → limit ≤ n → le task.duration_s (seconds (pos n)) ≡ true)

finish-Finishes :
    {F : Type 0} (success : Bool) (message : String) → Finishes {F = F} (finish success message)
unfolding finish ◌>>=◌
finish-Finishes true message = record { at = λ r. tt }
finish-Finishes false message = record { at = λ r. tt }

module _ {F A : Type 0} where
  Finishes-if :
      (b : Bool) (m n : Action F A) → Finishes m → Finishes n → Finishes (if b then m else n)
  Finishes-if true m n hm hn = hm
  Finishes-if false m n hm hn = hn

  Finishes-pure : (a : A) → Finishes {F = F} (pure a)
  Finishes-pure a = record { at = λ r. tt }

  Finishes-raise : Finishes {F = F} {A = A} raise
  Finishes-raise = record { at = λ r. tt }

  Finishes-gets : (f : Run F → A) → Finishes (λ (r : Run F). (done (f r), r))
  Finishes-gets f = record { at = λ r. tt }

module _ {F A B : Type 0} where
  Finishes-bind :
      (m : Action F A) (f : A → Action F B)
      → Finishes m
      → ((a : A) → Finishes (f a))
      → Finishes (m >>= f)
  unfolding ◌>>=◌
  Finishes-bind m f hm hf = record { at = λ r. go (m r) (hm.at r) }
    where
      go : (x : Outcome A × Run F) → IsOver x → IsOver (let (o, r) = x in continue o r f)
      go (done a, r) k = (hf a).at r
      go (raised, r) k = tt
      go (running, r) k = absurd k

known_generation-Finishes :
    {F : Type 0} (known : Option AuthorityStatus) → Finishes {F = F} (known_generation known)
unfolding known_generation
known_generation-Finishes none = record { at = λ r. tt }
known_generation-Finishes (some a) = record { at = λ r. tt }

module _ {F : Type 0} ⦃fl : Floats F⦄ (env : Env) (advances : Advances env) where
  Finishes-call : {A : Type 0} (c : Call F) (answer : ℕ → Reply A) → Finishes (call env c answer)
  unfolding call
  Finishes-call c answer = record { at = λ r. ground arith }

  Finishes-wait_for_service : Finishes {F = F} (wait_for_service env)
  unfolding wait_for_service
  Finishes-wait_for_service = record { at = λ r. tt }

  Finishes-set_authority :
      (source : String) (arm : Bool) → Finishes {F = F} (set_authority env source arm)
  unfolding set_authority
  Finishes-set_authority source arm =
      search (Finishes-bind, Finishes-if, Finishes-pure, Finishes-call, Finishes-wait_for_service)

  fail_active_run-Finishes :
      (run_dir message controller : String)
      → Finishes {F = F} (fail_active_run env run_dir message controller)
  unfolding fail_active_run stop_trajectory disarm set_authority stop_run call wait_for_service
      finish ◌>>=◌
  fail_active_run-Finishes run_dir message controller = record { at = λ r. ground arith }

  wait_for_disarmed_status-Finishes :
      (fuel : ℕ) (source : String) (timeout_ns : ℕ)
      → timeout_ns ≤ fuel
      → Finishes {F = F} (wait_for_disarmed_status env (suc fuel) source timeout_ns)
  unfolding wait_for_disarmed_status
  wait_for_disarmed_status-Finishes fuel source timeout_ns h = record {
    at = λ r. wait_until-IsOver env advances fuel _ _ r (omega arith);
  }

  wait_for_armed_status-Finishes :
      (fuel : ℕ) (source : String) (previous timeout_ns : ℕ)
      → timeout_ns ≤ fuel
      → Finishes {F = F} (wait_for_armed_status env (suc fuel) source previous timeout_ns)
  unfolding wait_for_armed_status
  wait_for_armed_status-Finishes fuel source previous timeout_ns h = record {
    at = λ r. wait_until-IsOver env advances fuel _ _ r (omega arith);
  }

  track-IsOver :
      (fuel limit : ℕ) (task : Task F) (started_ns : ℕ) (r : Run F)
      → EndsBy limit task
      → started_ns + limit ≤ now_ns env r + fuel
      → IsOver (track env (suc fuel) task started_ns r)
  unfolding track now_ns waited
  track-IsOver zero limit task started_ns r (fixed, ends) h =
      ground (arith, ends (env.clock_ns r.waits - started_ns) (omega arith))
  track-IsOver (suc fuel) limit task started_ns r (fixed, ends) h =
      let fed : Run F = record r {
        trace = feedback task (seconds (sub_ℕ (now_ns env r) started_ns)) ∷ r.trace;
      } in
      ground (
        arith,
        track-IsOver fuel limit task started_ns (waited env fed) (fixed, ends)
            (omega (arith, advances r.waits)),
      )

  track_and_stop-Finishes :
      (fuel limit : ℕ) (task : Task F) (run_dir : String)
      → EndsBy limit task
      → limit ≤ fuel
      → Finishes (track_and_stop env (suc fuel) task run_dir)
  unfolding track_and_stop stop_trajectory disarm set_authority stop_run call wait_for_service ◌>>=◌
  track_and_stop-Finishes fuel limit task run_dir ends h = record {
    at = λ r. ground (arith, track-IsOver fuel limit task (now_ns env r) r ends (omega arith));
  }

module _ {F : Type 0} ⦃fl : Floats F⦄ (env : Env) (advances : Advances env) (fuel limit : ℕ)
    (task : Task F) (ends : EndsBy limit task) (passes : limit ≤ fuel)
    (waits : 1_000_000_000 ≤ fuel) where
  armed_status-Finishes :
      (source : String) (previous : ℕ)
      → Finishes {F = F} (wait_for_armed_status env (suc fuel) source previous 500_000_000)
  armed_status-Finishes source previous =
      wait_for_armed_status-Finishes env advances fuel source previous 500_000_000 (omega arith)

  disarmed_status-Finishes :
      (source : String)
      → Finishes {F = F} (wait_for_disarmed_status env (suc fuel) source 500_000_000)
  disarmed_status-Finishes source =
      wait_for_disarmed_status-Finishes env advances fuel source 500_000_000 (omega arith)

  track-Finishes : (run_dir : String) → Finishes (track_and_stop env (suc fuel) task run_dir)
  track-Finishes run_dir = track_and_stop-Finishes env advances fuel limit task run_dir ends passes

  arm_and_track-Finishes : (run_dir : String) → Finishes (arm_and_track env (suc fuel) task run_dir)
  unfolding arm_and_track
  arm_and_track-Finishes run_dir =
      search
        (
          Finishes-bind,
          Finishes-if,
          Finishes-gets,
          Finishes-set_authority env advances,
          Finishes-call env advances,
          known_generation-Finishes,
          fail_active_run-Finishes env advances,
          armed_status-Finishes,
          track-Finishes,
        )
        depth 30

  tracking_ready-Finishes :
      (e : Expected) → Finishes {F = F} (wait_for_tracking_ready env (suc fuel) e 1_000_000_000)
  unfolding wait_for_tracking_ready
  tracking_ready-Finishes e = record {
    at = λ r. ready_loop-IsOver env advances fuel e _ _ r (omega arith);
  }

  prepare_and_arm-Finishes :
      (run_dir : String) → Finishes (prepare_and_arm env (suc fuel) task run_dir)
  unfolding prepare_and_arm
  prepare_and_arm-Finishes run_dir =
      search
        (
          Finishes-bind,
          Finishes-if,
          Finishes-gets,
          Finishes-call env advances,
          Finishes-wait_for_service env advances,
          fail_active_run-Finishes env advances,
          arm_and_track-Finishes,
          tracking_ready-Finishes,
        )
        depth 40

  record_and_run-Finishes : Finishes (record_and_run env (suc fuel) task)
  unfolding record_and_run disarm
  record_and_run-Finishes =
      search
        (
          Finishes-bind,
          Finishes-if,
          Finishes-call env advances,
          Finishes-set_authority env advances,
          Finishes-wait_for_service env advances,
          finish-Finishes,
          prepare_and_arm-Finishes,
        )
        depth 20

  run_task-Finishes : Finishes (run_task env (suc fuel) task)
  unfolding run_task
  run_task-Finishes =
      search
        (
          Finishes-bind,
          Finishes-if,
          Finishes-gets,
          Finishes-set_authority env advances,
          finish-Finishes,
          disarmed_status-Finishes,
          record_and_run-Finishes,
        )
        depth 30

  -- When the task has a fixed duration that `limit` nanoseconds complete, each wait advances the
  -- clock, and there is fuel for `limit` passes and for the longest wait, one second, then the
  -- execution of the task comes to an end, whatever the services answer and whenever they do.
  pub run_task-IsOver : (r : Run F) → IsOver (run_task env (suc fuel) task r)
  run_task-IsOver r = run_task-Finishes.at r
