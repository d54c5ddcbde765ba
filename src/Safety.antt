-- ===== src/Safety.antt =====
-- ros_ws/src/robotcore_runtime/robotcore_runtime/safety_monitor.py: the abort latch and the
-- fail-closed heartbeat. A callback is a function from the node's state to the next state and the
-- event that it publishes; the clocks are arguments.
pub mod Verdict
pub mod History
pub mod Freshness
mod Tests
use robot_core.Prelude.{
  ℕ, String, Bool, true, false, not, Option, none, some, List, [], ◌∷◌, ◌++◌, str_eq, if◌then◌else◌,
}
use robot_core.Prelude.Int.{ℤ, pos, sub_ℕ}
use robot_core.Floats.{Floats, lt, seconds, py_max, zero_float}

-- The fields of the `BoardStatus` message that the node reads.
pub record BoardStatus : Type 0 where
  pub connected : Bool
  pub heartbeat_ok : Bool
  pub failsafe_active : Bool

-- A `TriggerAbort` request and its response.
pub record AbortRequest : Type 0 where
  pub abort : Bool
  pub reason : String

pub record AbortResponse : Type 0 where
  pub accepted : Bool
  pub abort_active : Bool
  pub message : String

-- The levels of `SafetyEvent` that this node publishes.
pub data Level : Type 0 where
  level_info level_abort : Level

pub record SafetyEvent : Type 0 where
  pub stamp : ℕ
  pub level : Level
  pub code : String
  pub message : String
  pub abort_active : Bool
  pub source : String

pub record SafetyMonitor : Type 0 where
  pub operator_abort_active : Bool
  pub operator_abort_reason : String
  pub abort_active : Bool
  pub board_status_ns : Option ℕ
  pub board_connected : Bool
  pub board_heartbeat_ok : Bool
  pub board_failsafe_active : Bool

abbrev pub init : SafetyMonitor
init = record {
  operator_abort_active = false;
  operator_abort_reason = "";
  abort_active = true;
  board_status_ns = none;
  board_connected = false;
  board_heartbeat_ok = false;
  board_failsafe_active = false;
}

-- Python's `a or b` on texts.
abbrev pub or_text : String → String → String
or_text a b = if str_eq a "" then b else a

pub on_board_status : BoardStatus → ℕ → SafetyMonitor → SafetyMonitor
on_board_status m now_ns s = record s {
  board_connected = m.connected;
  board_heartbeat_ok = m.heartbeat_ok;
  board_failsafe_active = m.failsafe_active;
  board_status_ns = some now_ns;
}

abbrev pub level_of : Bool → Level
level_of active = if active then level_abort else level_info

-- The event that `publish_event` sends; `stamp` is the ROS clock.
pub publish_event : Level → String → String → ℕ → SafetyMonitor → SafetyEvent
publish_event level code message stamp s = record {
  stamp = stamp;
  level = level;
  code = code;
  message = message;
  abort_active = s.abort_active;
  source = "safety_monitor";
}

-- What `handle_abort` writes before it evaluates the state.
pub latch : AbortRequest → SafetyMonitor → SafetyMonitor
latch request s = record s {
  operator_abort_active = request.abort;
  operator_abort_reason = (if request.abort then or_text request.reason "operator_request" else "");
}

-- `board_status_timeout_s` is read from the parameter server at each call.
module _ {F : Type 0} ⦃fl : Floats F⦄ (timeout_s : F) where
  -- The age test of `board_failure`, and what follows it.
  live_failure : ℕ → ℕ → SafetyMonitor → Option (String × String)
  live_failure status_ns now_ns s =
      if lt (py_max zero_float timeout_s) (seconds (sub_ℕ now_ns status_ns))
      then some ("BOARD_STATUS_STALE", "low-level board status is stale")
      else if not s.board_connected
      then some ("BOARD_DISCONNECTED", "low-level board is disconnected")
      else if not s.board_heartbeat_ok
      then some ("BOARD_HEARTBEAT_LOST", "low-level board heartbeat is not healthy")
      else if s.board_failsafe_active
      then some ("BOARD_FAILSAFE_ACTIVE", "low-level board failsafe is active")
      else none

  pub board_failure : ℕ → SafetyMonitor → Option (String × String)
  unfolding live_failure
  board_failure now_ns s = elim s.board_status_ns [
    | none ↦ some ("BOARD_STATUS_MISSING", "low-level board status is missing")
    | some status_ns ↦ live_failure status_ns now_ns s
  ]

  pub update_abort_state : ℕ → SafetyMonitor → SafetyMonitor × (String × String)
  update_abort_state now_ns s = elim (board_failure now_ns s) [
    | some failure ↦ (record s { abort_active = true }, failure)
    | none ↦
        if s.operator_abort_active
        then (
          record s { abort_active = true },
          ("ABORT_ACTIVE", or_text s.operator_abort_reason "operator_request"),
        )
        else (record s { abort_active = false }, ("ABORT_CLEAR", "Safety monitor healthy"))
  ]

  pub handle_abort :
      AbortRequest → ℕ → ℕ → SafetyMonitor → SafetyMonitor × SafetyEvent × AbortResponse
  unfolding latch publish_event
  handle_abort request now_ns stamp s =
      let (s', verdict) = update_abort_state now_ns (latch request s) in
      let code : String = if s'.abort_active then verdict.0 else "ABORT_CLEARED" in
      let message : String = if s'.abort_active then verdict.1 else "Abort state cleared" in
      (
        s',
        publish_event (level_of s'.abort_active) code message stamp s',
        record { accepted = true; abort_active = s'.abort_active; message = message },
      )

  pub tick : ℕ → ℕ → SafetyMonitor → SafetyMonitor × SafetyEvent
  unfolding publish_event
  tick now_ns stamp s =
      let (s', verdict) = update_abort_state now_ns s in
      (s', publish_event (level_of s'.abort_active) verdict.0 verdict.1 stamp s')

-- A callback with the clocks that it reads.
pub data Input : Type 0 where
  status : BoardStatus → (now_ns : ℕ) → Input
  request : AbortRequest → (now_ns stamp : ℕ) → Input
  timer : (now_ns stamp : ℕ) → Input

module _ {F : Type 0} ⦃fl : Floats F⦄ (timeout_s : F) where
  -- One callback: the next state, and the events published.
  pub step : Input → SafetyMonitor → SafetyMonitor × List SafetyEvent
  step (status m now_ns) s = (on_board_status m now_ns s, [])
  step (request r now_ns stamp) s =
      let (s', event, _) = handle_abort timeout_s r now_ns stamp s in (s', event ∷ [])
  step (timer now_ns stamp) s = let (s', event) = tick timeout_s now_ns stamp s in (s', event ∷ [])

  pub run : List Input → SafetyMonitor → SafetyMonitor
  run [] s = s
  run (i ∷ is) s = run is (step i s).0

  -- Everything published along the run, in order.
  pub events : List Input → SafetyMonitor → List SafetyEvent
  events [] s = []
  events (i ∷ is) s = let (s', published) = step i s in published ++ events is s'
