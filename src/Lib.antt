-- ===== src/Lib.antt =====
-- RobotCore runs an underwater robot: ROS 2 nodes for sensing, localization, control and hardware
-- transport, the runtime nodes that sequence an experiment, and a host manager for configuration.
-- This library models the Python parts that decide whether and when the robot may act, and proves
-- what makes them correct.
--
-- The parts and how they interact:
-- * Safety models ros_ws/src/robotcore_runtime/robotcore_runtime/safety_monitor.py. A callback
--   (`on_board_status`, `handle_abort`, `tick`) is a function from the node's state and the clocks to
--   the next state and the event on /safety/events; `run` and `events` compose callbacks in any order.
--   Safety/Verdict has one callback, Safety/History a whole run, Safety/Freshness what persists.
-- * Catalog models ros_ws/src/robotcore_runtime/robotcore_runtime/task_catalog.py, from the parsed
--   YAML document on: Catalog/Load has `TaskCatalog` (`__init__`, `task`, `summaries`) and
--   Catalog/Recording has `load_recording_config`. A raised exception is an error of `Result`.
-- * Experiment models the action server of
--   ros_ws/src/robotcore_runtime/robotcore_runtime/tracking_experiment_node.py, which takes a task of
--   the catalog and drives the authority, recorder and trajectory services. Experiment has the
--   messages and the node's state, Experiment/Steps the awaited calls and the waiting loops, and
--   Experiment/Execute the action `execute`, one definition for each stage (`run_task`,
--   `record_and_run`, `prepare_and_arm`, `arm_and_track`, `track_and_stop`, `fail_active_run`).
--   The other nodes are an environment `Env`: for the n-th wait of the run it says which messages
--   arrive, what the service answers (or that the call raises), what the clock reads and whether the
--   goal is to be canceled. Theorems hold for every environment, so for every interleaving of the
--   messages with the waits.
--
-- * HostManager models host_manager/robotcore_host_manager/daemon.py, the managed AprilTag map first:
--   HostManager/Tag has `_finite_vector`, `_validated_tag_id` and `_validated_tag`, HostManager/Edit
--   `upsert_apriltag`, `delete_apriltag`, `_write_apriltag_map` and `_tag_list`. The disk is a state
--   with the map file and the temporary file; `Fault` says where a write raises, if
--   anywhere, and whether the removal of the temporary file in the `finally` raises as well.
--   HostManager/Dispatch has `handle` with `service_status`, `logs` and `lifecycle`: the commands that
--   a request runs, the disk afterwards and the answer. The answers of the reports on devices, on
--   rosbags and on maintenance are without their content.
-- * Tracking models ros_ws/src/robotcore_runtime/robotcore_runtime/tracking_monitor_node.py: the three
--   inputs, `inputs_are_fresh`, `estimate_actual_acceleration` and `tick`, with the vector and
--   quaternion functions in Tracking/Rotation, in the code's order of operations.
-- * Trajectory models the start gate of
--   ros_ws/src/robotcore_runtime/robotcore_runtime/trajectory_command_node.py: the services
--   `on_validate_scenario`, `on_reset_scenario` and `on_stop_scenario`, and `trajectory_time_s`. The
--   envelope check is an argument of the validation.
-- * Control models ros_ws/src/robotcore_control/robotcore_control/control_math.py: Control/Mixing has the
--   setpoints and the thruster mixes, Control/Level the roll and pitch cascade with its integral terms,
--   Control/Filters the feedforwards, the low pass and the slew limit, Control/Rates the two estimators
--   on gyro samples, Control/Quaternions the attitude algebra and Control/Pid `ConditionalPid`, whose
--   `step` returns the object's state also where it raises. A vector is a list.
-- * PidNode models ros_ws/src/robotcore_control/robotcore_control/six_dof_pid_node.py, the client of
--   Control: PidNode has the state, `on_authority_status`, `on_body`, `on_target` and `input_status`,
--   PidNode/Imu the filter of `on_imu`, PidNode/Publish what is published, and PidNode/Tick `tick`, which runs the planar loops of
--   PidNode/Horizontal and the height loop of PidNode/Vertical. PidNode/Events runs the callbacks in any
--   order; the inputs are heard while they are subscribed to. PidNode/Configuration has
--   `load_configuration` over the declared parameters; control_rate_hz and max_input_age_s, which `tick`
--   reads anew, are taken with it. Of a status the texts, the rank, the condition and the hash are left
--   out.
-- * Logger models ros_ws/src/robotcore_runtime/robotcore_runtime/run_logger.py: Logger has `write_event`
--   and `stream_log_due`, Logger/Run the start and the stop of a run with the recorder process, and
--   Logger/Events the subscriptions; `spin` handles callbacks in any order up to the first that
--   raises. Logger/Messages and Logger/Payloads have what is read of a message and what is written of
--   it. A log is the list of its lines, in place of their JSON text. The operations of a start
--   and of the recorder may raise; that write() and flush() of the open log do is left out.
--   Logger/Events/Folders has which starts announced which folder.
-- * T60 models ros_ws/src/robotcore_policy/robotcore_policy/t60_observation.py, over floats of single
--   precision: `build` with the frames that it makes of an observation, `commit` and `reset`. An
--   observation is a record of the keys that are read, each flattened and rounded to single precision.
-- * Manifest models `load_policy_manifest` of
--   ros_ws/src/robotcore_policy/robotcore_policy/policy_manifest.py, from the parsed document on.
--
-- Shared modules: Prelude (names passed on, tests, lists, integers, results), Python (the values that
-- a parsed document consists of, str(int), and the text operations used), Floats (an interface for
-- doubles with the comparison laws that the proofs use; Floats/Model is an arithmetic that meets
-- them, for tests and witnesses). Nothing else is assumed of the doubles.
--
-- Bounds and fuel: integers of Python are unbounded. The waiting loops and the feedback loop take a
-- unit of fuel for each pass, and a run out of fuel is an outcome of its own (`running`). How much fuel
-- is enough is proved for a task of a fixed duration: a wait takes at least a nanosecond of the clock,
-- so one more than the duration and the longest timeout (one second) in nanoseconds.
--
-- Not modelled: reading and parsing files (the documents are arguments), the ROS middleware and its
-- executor (the environment), the texts of exceptions that the code only reports, and of the rest of
-- the repository the policy node and its runners, the paths and targets of the
-- trajectory node, the host manager's reports on devices and recordings and its socket server, C++
-- nodes, launch files and scripts.
pub mod Prelude
pub mod Floats
pub mod Python
pub mod Safety
pub mod Catalog
pub mod Experiment
pub mod HostManager
pub mod Tracking
pub mod Trajectory
pub mod Manifest
pub mod Control
pub mod Logger
pub mod PidNode
pub mod T60
