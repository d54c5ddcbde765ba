-- ===== src/Logger.antt =====
-- ros_ws/src/robotcore_runtime/robotcore_runtime/run_logger.py: the node that opens a run, records the
-- events of the other nodes and closes the run. A callback returns the state that the node is left in,
-- also where it raises. Files are what is written to them; the clocks are arguments.
pub mod Messages
pub mod Payloads
pub mod Run
pub mod Events
pub mod Sampling
mod Tests
use robot_core.Prelude.{
  ℕ, ◌+◌, String, Bool, true, false, not, ◌&&◌, Option, none, some, List, [], ◌∷◌, ◌++◌, length,
  ltb, leb, str_eq, if◌then◌else◌,
}
use robot_core.Prelude.Int.{pos_part}
use robot_core.Prelude.Results.{Result, ok, err, Error, key_error, overflow_error}
use robot_core.Floats.{Floats, le, lit, zero_float, ◌⊘◌}
use Messages.{Payload, SafetyMessage}

-- A line of the event log.
pub record Event (F : Type 0) : Type 0 where
  pub time : ℕ
  pub type : String
  pub payload : Payload F

-- The open event log: its folder, the lines written, and how many of them a flush has made durable.
pub record EventLog (F : Type 0) : Type 0 where
  pub folder : String
  pub lines : List (Event F)
  pub flushed : ℕ

-- `(msg.code, msg.message, bool(msg.abort_active))`
pub record Signature : Type 0 where
  pub code : String
  pub message : String
  pub abort_active : Bool

-- `rosbag_process` is the command of the recorder that runs; `closed` holds the logs that were closed, the last one first.
pub record RunLogger (F : Type 0) : Type 0 where
  pub run_dir : Option String
  pub event_log_handle : Option (EventLog F)
  pub rosbag_process : Option (List String)
  pub rosbag_output_handle : Bool
  pub last_stream_log_ns : List (String × ℕ)
  pub last_safety_signature : Option Signature
  pub last_safety_log_ns : ℕ
  pub last_localization_log_ns : ℕ
  pub closed : List (EventLog F)

abbrev pub init : {F : Type 0} → RunLogger F
init = record {
  run_dir = none;
  event_log_handle = none;
  rosbag_process = none;
  rosbag_output_handle = false;
  last_stream_log_ns = [];
  last_safety_signature = none;
  last_safety_log_ns = 0;
  last_localization_log_ns = 0;
  closed = [];
}

-- `d.get(key)` and `d[key] = value`
pub lookup {ℓ} : {V : Type ℓ} → String → List (String × V) → Option V
lookup key [] = none
lookup key ((k, v) ∷ rest) = if str_eq k key then some v else lookup key rest

pub put {ℓ} : {V : Type ℓ} → String → V → List (String × V) → List (String × V)
put key value [] = (key, value) ∷ []
put key value ((k, v) ∷ rest) =
    if str_eq k key then (k, value) ∷ rest else (k, v) ∷ put key value rest

-- `previous_ns is not None and 0 <= now_ns - previous_ns < period_ns`
pub is_within_period : Option ℕ → ℕ → ℕ → Bool
is_within_period none period now_ns = false
is_within_period (some previous) period now_ns =
    leb previous now_ns && ltb now_ns (previous + period)

module _ {F : Type 0} where
  pub append_line : Event F → Bool → EventLog F → EventLog F
  append_line line flush log =
      let lines = log.lines ++ line ∷ [] in
      record log { lines = lines; flushed = (if flush then length lines else log.flushed) }

  -- `now_ns` is the ROS clock.
  pub write_event : ℕ → String → Payload F → (flush : Bool) → RunLogger F → RunLogger F
  unfolding append_line
  write_event now_ns event_type payload flush s = elim s.event_log_handle [
    | none ↦ s
    | some log ↦
        let line : Event F = record { time = now_ns; type = event_type; payload = payload } in
        record s { event_log_handle = some (append_line line flush log) }
  ]

  pub flush_event_log : RunLogger F → RunLogger F
  flush_event_log s = elim s.event_log_handle [
    | none ↦ s
    | some log ↦ record s { event_log_handle = some (record log { flushed = length log.lines }) }
  ]

  -- What is published on /runtime/run_dir, if anything.
  pub publish_run_dir : RunLogger F → Option String
  publish_run_dir s = s.run_dir

module _ {F : Type 0} ⦃fl : Floats F⦄ where
  -- `max(1, int(1e9 / rate_hz))`, for a positive rate.
  pub period_ns : F → Result ℕ
  period_ns rate_hz = elim (fl.truncate (lit 1000000000 0 ⊘ rate_hz)) [
    | none ↦ err overflow_error
    | some n ↦ ok (if ltb 1 (pos_part n) then pos_part n else 1)
  ]

  -- Whether a stream's message is to be written; `now_ns` is the monotonic clock.
  pub stream_log_due : List (String × F) → String → ℕ → RunLogger F → RunLogger F × Result Bool
  stream_log_due stream_log_rates event_type now_ns s = elim (lookup event_type stream_log_rates) [
    | none ↦ (s, err (key_error event_type))
    | some rate_hz ↦ if le rate_hz zero_float then (s, ok false) else elim (period_ns rate_hz) [
      | err e ↦ (s, err e)
      | ok period ↦
          if is_within_period (lookup event_type s.last_stream_log_ns) period now_ns
          then (s, ok false)
          else (
            record s { last_stream_log_ns = put event_type now_ns s.last_stream_log_ns },
            ok true,
          )
    ]
  ]
