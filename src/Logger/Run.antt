-- ===== src/Logger/Run.antt =====
-- Starting and stopping a run: `on_start_run`, `on_stop_run`, the recorder process, and `destroy_node`.
-- `StartEnv` says what the file system and the recorder do during one start.
pub mod Log
use robot_core.Prelude.{
  ℕ, String, Bool, true, false, not, Option, none, some, List, [], ◌∷◌, ◌++◌, length, concat,
  if◌then◌else◌,
}
use robot_core.Prelude.Results.{
  Result, ok, err, Error, os_error, attribute_error, runtime_error, timeout_expired, ◌>>=◌, ◌>>◌,
}
use robot_core.Python.{bool_value, float_value, str_value}
use robot_core.Experiment.{StartResponse}
use robot_core.Logger.{RunLogger, EventLog, write_event, publish_run_dir, put}
use robot_core.Logger.Messages.{Payload}

-- The parameters of the node: the configuration files with their names, and the digests of the
-- catalogs that it loaded.
pub record RunConfig : Type 0 where
  pub run_root : String
  pub rosbag_executable : String
  pub record_topics : List String
  pub config_files : List (String × String)
  pub task_catalog_sha256 : String
  pub recording_config_sha256 : String

-- The file operations of a start that may raise.
pub data Stage : Type 0 where
  creating opening copying qos_file output_file spawning : Stage

-- `resolved_digest` is the digest of the task as the catalog resolves it, or the catalog's error;
-- `digest_of` answers for the paths that are files; `recorder_exited` is what `poll` finds.
pub record StartEnv : Type 0 where
  pub stamp : String
  pub raises : Stage → Bool
  pub digest_of : String → Option String
  pub resolved_digest : String → Result String
  pub recorder_exited : Bool
  pub started_ns : ℕ
  pub announced_ns : ℕ

pub record StartRequest (F : Type 0) : Type 0 where
  pub task_name : String
  pub controller : String
  pub duration_s : F

pub record StopRequest : Type 0 where
  pub success : Bool
  pub message : String

pub record StopResponse : Type 0 where
  pub accepted : Bool
  pub run_dir : String
  pub message : String

-- `str(self.run_dir)`
abbrev pub dir_text : Option String → String
dir_text none = "None"
dir_text (some dir) = dir

unfoldable pub run_dir_of : RunConfig → StartEnv → String → String
run_dir_of config env task_name =
    concat (config.run_root ∷ "/run_" ∷ env.stamp ∷ "_" ∷ task_name ∷ [])

-- The digests of the configuration files that are there, added by name.
unfoldable pub file_hashes :
    (String → Option String)
    → List (String × String)
    → List (String × String)
    → List (String × String)
file_hashes digest_of [] hashes = hashes
file_hashes digest_of ((path, name) ∷ files) hashes =
    file_hashes digest_of files
      (elim (digest_of path) [ none ↦ hashes | some digest ↦ put name digest hashes ])

-- The table of digests that `snapshot_control_configs` writes.
unfoldable pub snapshot_control_configs :
    RunConfig → StartEnv → String → Result (List (String × String))
snapshot_control_configs config env task_name =
    let hashes = put "recording.yaml" config.recording_config_sha256 (
      put "tracking_tasks.yaml" config.task_catalog_sha256
        (file_hashes env.digest_of config.config_files [])) in
    if env.raises copying then err os_error else elim (env.resolved_digest task_name) [
      | err e ↦ err e
      | ok digest ↦ ok (put "resolved_tracking_task.yaml" digest hashes)
    ]

pub rosbag_command : RunConfig → String → List String
rosbag_command config run_dir =
    (config.rosbag_executable
      ∷ "bag"
      ∷ "record"
      ∷ "--storage"
      ∷ "sqlite3"
      ∷ "--output"
      ∷ concat (run_dir ∷ "/rosbag2/tracking" ∷ [])
      ∷ "--qos-profile-overrides-path"
      ∷ concat (run_dir ∷ "/configs/rosbag_qos_overrides.yaml" ∷ [])
      ∷ [])
    ++ config.record_topics

unfoldable pub start_answer : String → StartResponse
start_answer run_dir = record {
  success = true;
  run_dir = run_dir;
  message = "run directory and rosbag recording started";
}

module _ {F : Type 0} where
  unfoldable pub start_rosbag :
      RunConfig → StartEnv → String → RunLogger F → RunLogger F × Result (Unit {0})
  start_rosbag config env run_dir s =
      let opened = record s { rosbag_output_handle = true } in
      let running = record opened { rosbag_process = some (rosbag_command config run_dir) } in
      if env.raises qos_file
      then (s, err os_error)
      else if env.raises output_file
      then (s, err os_error)
      else if env.raises spawning
      then (opened, err os_error)
      else if env.recorder_exited
      then (running, err (runtime_error "rosbag2 recorder exited during startup"))
      else (running, ok tt)

  unfoldable pub stop_rosbag : (wait_expires : Bool) → RunLogger F → RunLogger F × Result (Unit {0})
  stop_rosbag wait_expires s = elim s.rosbag_process [
    | none ↦ (s, err attribute_error)
    | some command ↦
        if wait_expires
        then (s, err timeout_expired)
        else if s.rosbag_output_handle
        then (record s { rosbag_process = none; rosbag_output_handle = false }, ok tt)
        else (record s { rosbag_process = none }, err attribute_error)
  ]

  pub started_payload : String → Payload F
  started_payload run_dir =
      ("run_dir", str_value run_dir)
      ∷ ("rosbag2_dir", str_value (concat (run_dir ∷ "/rosbag2/tracking" ∷ [])))
      ∷ []

  pub start_payload : StartRequest F → Payload F
  start_payload request =
      ("phase", str_value "start")
      ∷ ("scenario", str_value request.task_name)
      ∷ ("controller", str_value request.controller)
      ∷ ("duration_s", float_value request.duration_s)
      ∷ ("success", bool_value true)
      ∷ ("message", str_value "started")
      ∷ []

  pub end_payload : StopRequest → Payload F
  end_payload request =
      ("phase", str_value "end")
      ∷ ("success", bool_value request.success)
      ∷ ("message", str_value request.message)
      ∷ []

  -- The two events that open a log.
  unfoldable pub announce : StartEnv → StartRequest F → String → RunLogger F → RunLogger F
  unfolding started_payload start_payload
  announce env request run_dir s =
      write_event env.announced_ns "tracking_experiment" (start_payload request) true
        (write_event env.started_ns "run_started" (started_payload run_dir) true s)

  unfoldable pub open_log : String → RunLogger F → RunLogger F
  open_log run_dir s = record s {
    run_dir = some run_dir;
    event_log_handle = some (record { folder = run_dir; lines = []; flushed = 0 });
  }

  -- The start of a run where none is active: the state, and the answer.
  unfoldable pub start_run :
      RunConfig → StartEnv → StartRequest F → RunLogger F → RunLogger F × Result StartResponse
  start_run config env request s =
      let run_dir = run_dir_of config env request.task_name in
      let opened = open_log run_dir s in
      let (recording, started) = start_rosbag config env run_dir opened in
      if env.raises creating
      then (s, err os_error)
      else if env.raises opening
      then (record s { run_dir = some run_dir }, err os_error)
      else elim (snapshot_control_configs config env request.task_name) [
        | err e ↦ (opened, err e)
        | ok _ ↦ elim started [
          | err e ↦ (recording, err e)
          | ok _ ↦ (announce env request run_dir recording, ok (start_answer run_dir))
        ]
      ]

  unfoldable pub on_start_run :
      RunConfig → StartEnv → StartRequest F → RunLogger F → RunLogger F × Result StartResponse
  on_start_run config env request s = elim s.event_log_handle [
    | none ↦ start_run config env request s
    | some _ ↦ (
      s,
      ok (record {
        success = false;
        run_dir = dir_text s.run_dir;
        message = "a tracking run is already active";
      }),
    )
  ]

  -- Closing a log writes what is left in its buffer.
  unfoldable pub close_log : EventLog F → RunLogger F → RunLogger F
  close_log log s = record s {
    run_dir = none;
    event_log_handle = none;
    closed = record log { flushed = length log.lines } ∷ s.closed;
  }

  unfoldable pub on_stop_run :
      (now_ns : ℕ) (wait_expires : Bool)
      → StopRequest
      → RunLogger F
      → RunLogger F × Result StopResponse
  on_stop_run now_ns wait_expires request s =
      let ended = write_event now_ns "tracking_experiment" (end_payload request) true s in
      let (idle, stopped) = stop_rosbag wait_expires ended in
      elim stopped [
        | err e ↦ (idle, err e)
        | ok _ ↦ elim idle.event_log_handle [
          | none ↦ (idle, err attribute_error)
          | some log ↦ (
            close_log log idle,
            ok (record {
              accepted = true;
              run_dir = dir_text s.run_dir;
              message = "run log and rosbag recording stopped";
            }),
          )
        ]
      ]

  -- `destroy_node`: the recorder first, then the log that is open.
  pub destroy_node : (wait_expires : Bool) → RunLogger F → RunLogger F × Result (Unit {0})
  destroy_node wait_expires s =
      let stopped : RunLogger F × Result (Unit {0}) = elim s.rosbag_process [
        | none ↦ (s, ok tt)
        | some _ ↦ stop_rosbag wait_expires s
      ] in
      elim stopped.1 [
        | err e ↦ (stopped.0, err e)
        | ok _ ↦ elim s.event_log_handle [
          | none ↦ (stopped.0, ok tt)
          | some log ↦ (close_log log stopped.0, ok tt)
        ]
      ]
