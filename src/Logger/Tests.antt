-- ===== src/Logger/Tests.antt =====
-- A short run of the logger, and the theorems at it.
use robot_core.Prelude.{ℕ, String, ◌≡◌, refl, true, false, none, some, List, [], ◌∷◌, All, arith}
use robot_core.Prelude.Results.{ok}
use robot_core.Floats.{lit}
use robot_core.Floats.Model.{Num, num_floats}
use robot_core.Logger.{
  init, lookup, put, write_event, append_line, period_ns, stream_log_due, is_within_period,
}
use robot_core.Logger.Messages.{SafetyMessage}
use robot_core.Logger.Run.{
  RunConfig, StartEnv, StartRequest, on_start_run, start_run, start_rosbag, stop_rosbag,
  on_stop_run, run_dir_of, snapshot_control_configs, file_hashes, announce, open_log, close_log,
}
use robot_core.Logger.Run.Log.{IsSound}
use robot_core.Logger.Events.{
  Callback, start, stop, safety, handle, spin, on_safety_event, eq_signature, signature_of,
}
use robot_core.Logger.Events.Folders.{folders, started}
use robot_core.Logger.Events.Journal.{spin_keeps_journal}
use robot_core.Logger.Sampling.{IsAscending, IsSpaced, IsCovered, due_times, due_times_sample}

abbrev config : RunConfig
config = record {
  run_root = "runs";
  rosbag_executable = "ros2";
  record_topics = "/imu" ∷ [];
  config_files = ("safety.yaml", "safety.yaml") ∷ [];
  task_catalog_sha256 = "c";
  recording_config_sha256 = "r";
}

abbrev env : StartEnv
env = record {
  stamp = "0";
  raises = λ stage. false;
  digest_of = λ path. none;
  resolved_digest = λ task. ok "t";
  recorder_exited = false;
  started_ns = 10;
  announced_ns = 11;
}

abbrev request : StartRequest Num
request = record { task_name = "hold"; controller = "pid"; duration_s = lit 5 0 }

abbrev abort_message : SafetyMessage
abort_message = record {
  level = 3;
  code = "ABORT_ACTIVE";
  message = "operator_request";
  abort_active = true;
  source = "safety_monitor";
}

-- A run with one safety event, which is repeated too soon, and a stop.
abbrev callbacks : List (Callback Num)
callbacks =
    start env request
    ∷ safety 2000000000 abort_message
    ∷ safety 2500000000 abort_message
    ∷ stop 3000000000 false (record { success = true; message = "done" })
    ∷ []

abbrev rates : List (String × Num)
rates = ("pid_status", lit 10 0) ∷ []

callbacks_return : (spin config rates callbacks init).1 ≡ ok tt
unfolding spin handle on_start_run start_run start_rosbag stop_rosbag on_stop_run run_dir_of
    snapshot_control_configs file_hashes announce open_log close_log write_event append_line put
    on_safety_event eq_signature signature_of
callbacks_return = refl

spin_keeps_journal_example :
    IsSound (spin config rates callbacks init).0
    × (folders (spin config rates callbacks init).0 ≡ started config rates callbacks init)
spin_keeps_journal_example = spin_keeps_journal config rates callbacks callbacks_return

ten_hertz : period_ns (lit {F = Num} 10 0) ≡ ok 100000000
unfolding period_ns
ten_hertz = refl

found : lookup "pid_status" rates ≡ some (lit 10 0)
unfolding lookup
found = refl

abbrev times : List ℕ
times = 0 ∷ 50000000 ∷ 100000000 ∷ 260000000 ∷ []

due : due_times rates "pid_status" times init ≡ 0 ∷ 100000000 ∷ 260000000 ∷ []
unfolding due_times stream_log_due lookup put period_ns is_within_period
due = refl

ascending : IsAscending (lookup "pid_status" (init {F = Num}).last_stream_log_ns) times
unfolding lookup
ascending = omega arith

due_times_sample_example :
    IsSpaced 100000000
      (lookup "pid_status" (init {F = Num}).last_stream_log_ns)
      (due_times rates "pid_status" times init)
    × All
        (IsCovered 100000000
          (lookup "pid_status" (init {F = Num}).last_stream_log_ns)
          (due_times rates "pid_status" times init))
        times
due_times_sample_example =
    due_times_sample rates "pid_status" (lit 10 0) 100000000 found refl ten_hertz times init
      ascending
