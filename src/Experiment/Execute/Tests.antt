-- ===== src/Experiment/Execute/Tests.antt =====
-- Runs of one tracking task, and the theorems at concrete inputs.
use robot_core.Prelude.{
  ℕ, suc, ◌*◌, ◌≡◌, refl, true, false, none, some, List, [], ◌∷◌, arith, leb, if◌then◌else◌, Bool,
}
use robot_core.Prelude.Results.{ok}
use robot_core.Floats.{lit, seconds, le}
use robot_core.Floats.Order.{seconds_le}
use robot_core.Prelude.Int.{pos}
use robot_core.Floats.Model.{Num, num_floats}
use robot_core.Catalog.{Task, text_field, find, insert, text_of}
use robot_core.Python.Texts.{eq_lowered}
use robot_core.Experiment.{
  AuthorityStatus, TrajectoryTarget, PidStatus, Arrival, authority_arrival, target_arrival,
  pid_arrival, Outcome, done, raised, running, AuthorityResponse, reply, Env, Run, ◌>>=◌,
  on_arrival, on_arrivals,
}
use robot_core.Experiment.Steps.{
  Expected, target_matches, waited, call, wait_for_service, wait_for_next_feedback, now_ns,
  set_authority, disarm, stop_trajectory, stop_run, wait_until, wait_for_disarmed_status,
  wait_for_armed_status, wait_for_tracking_ready, ready_loop, mark, is_ready, pid_is_ready,
}
use robot_core.Experiment.Execute.{
  RunResult, finish, fail_active_run, track, track_and_stop, arm_and_track, prepare_and_arm,
  record_and_run, run_task, execute, known_generation, is_armed, is_accepted, is_healthy,
  holds_authority, feedback, all_true, scenario_parameters, select_parameters, chosen, number_or,
  upper_name, arm_message,
}
use robot_core.Experiment.Ensures.{Holds}
use robot_core.Experiment.Steps.Ready.{
  after, HasFreshOutput, wait_for_tracking_ready-HasFreshOutput,
}
use robot_core.Experiment.Steps.Stops.{IsOver, Advances}
use robot_core.Experiment.Steps.Reports.{Anything}
use robot_core.Experiment.Execute.Disarm.{ReturnsDisarmed, execute-ReturnsDisarmed}
use robot_core.Experiment.Execute.Stops.{EndsBy, run_task-IsOver}
use robot_core.Experiment.Execute.Settled.{
  IsReported, IsSettled, execute_settles, prepare_and_arm_reports,
}

abbrev response : AuthorityResponse
response = record { accepted = true; armed = true; message = "" }

abbrev authority_is : Bool → ℕ → AuthorityStatus
authority_is armed generation = record {
  selected_source = "pid";
  armed = armed;
  arm_generation = generation;
  fault_latched = false;
}

abbrev target : TrajectoryTarget
target = record { trajectory_type = "Hold"; control_mode = "station_hold"; valid = true }

abbrev pid : PidStatus
pid = record { ready = true; producing_command = true; missing_inputs = [] }

-- Once armed, at wait 17, the authority reports it; a wait takes 50 ms.
abbrev arrivals_at : ℕ → List Arrival
arrivals_at n =
    authority_arrival (authority_is (leb 17 n) (if leb 17 n then 8 else 7))
    ∷ target_arrival target
    ∷ pid_arrival pid
    ∷ []

abbrev env : Env
env = record {
  clock_ns = λ n. n * 50_000_000;
  arrivals = arrivals_at;
  cancel_requested = λ n. false;
  service_ready = λ n. true;
  authority_reply = λ n. reply response;
  start_reply = λ n. reply (record { success = true; run_dir = "/runs/1"; message = "" });
  stop_reply = λ n. reply (record { success = true; message = "" });
  parameters_reply = λ n. reply (true ∷ []);
  trigger_reply = λ n. reply (record { success = true; message = "" });
}

abbrev start : Run Num
start = record {
  node = record {
    authority = some (authority_is false 7);
    latest_trajectory_target = none;
    trajectory_target_sequence = 0;
    latest_pid_status = none;
    pid_status_sequence = 0;
    latest_policy_status = none;
    policy_status_sequence = 0;
  };
  waits = 0;
  trace = [];
}

abbrev hover : Task Num
hover = record {
  name = "hover";
  label = "Hover";
  scenario = "hold";
  trajectory_name = "none";
  control_mode = "station_hold";
  controller = "pid";
  duration_s = lit 2 1;
  run_until_stopped = false;
  trajectory = ("trajectory_type", text_field "hold") ∷ [];
}

succeeds : Outcome RunResult × Run Num → Bool
succeeds (done result, r) = result.success
succeeds (raised, r) = false
succeeds (running, r) = false

hover-succeeds : succeeds (execute env 40 (ok hover) start) ≡ true
unfolding succeeds execute run_task record_and_run prepare_and_arm arm_and_track track_and_stop
    track fail_active_run finish wait_for_tracking_ready ready_loop mark is_ready pid_is_ready
    wait_for_armed_status wait_for_disarmed_status wait_until stop_run stop_trajectory disarm
    set_authority now_ns wait_for_service wait_for_next_feedback call waited on_arrivals on_arrival
    ◌>>=◌ known_generation is_armed is_accepted is_healthy holds_authority feedback all_true
    scenario_parameters select_parameters chosen number_or upper_name arm_message find insert
    text_of eq_lowered seconds
hover-succeeds = refl

execute-ReturnsDisarmed_example : ReturnsDisarmed (execute env 40 (ok hover) start)
execute-ReturnsDisarmed_example = execute-ReturnsDisarmed env (λ n. refl) 40 (ok hover) start tt

execute_settles_example : Holds IsSettled Anything (execute env 40 (ok hover) start)
execute_settles_example = execute_settles env 40 (ok hover) start (refl, refl)

prepare_and_arm_reports_example :
    Holds IsReported Anything (prepare_and_arm env 40 hover "/runs/1" start)
prepare_and_arm_reports_example = prepare_and_arm_reports env 40 hover "/runs/1" start (refl, refl)

env-Advances : Advances env
env-Advances n = omega arith

duration_passed : le hover.duration_s (seconds (pos 200_000_000)) ≡ true
unfolding seconds
duration_passed = refl

hover-EndsBy : EndsBy 200_000_000 hover
hover-EndsBy = (
  refl,
  λ n h.
      num_floats.le_trans hover.duration_s (seconds (pos 200_000_000)) (seconds (pos n))
        duration_passed (seconds_le Num (pos 200_000_000) (pos n) (omega arith)),
)

run_task-IsOver_example : IsOver (run_task env (suc 1_000_000_000) hover start)
run_task-IsOver_example =
    run_task-IsOver env env-Advances 1_000_000_000 200_000_000 hover hover-EndsBy (omega arith)
      (omega arith) start

abbrev expected : Expected
expected = record {
  target_sequence_before_reset = 0;
  trajectory_type = "hold";
  control_mode = "station_hold";
  controller = "pid";
}

abbrev ready_run : Run Num
ready_run = (wait_for_tracking_ready env 40 expected 1_000_000_000 start).1

is_ready_run : wait_for_tracking_ready env 40 expected 1_000_000_000 start ≡ (done true, ready_run)
unfolding wait_for_tracking_ready ready_loop mark is_ready pid_is_ready now_ns waited on_arrivals
    on_arrival eq_lowered
is_ready_run = refl

wait_for_tracking_ready-HasFreshOutput_example :
    (k j : ℕ) × (ready_run ≡ after env j (after env k start))
    × (target_matches expected (after env k start).node ≡ true)
    × HasFreshOutput expected (after env k start).node ready_run.node
wait_for_tracking_ready-HasFreshOutput_example =
    wait_for_tracking_ready-HasFreshOutput env expected 40 1_000_000_000 start {r' = ready_run}
      is_ready_run
