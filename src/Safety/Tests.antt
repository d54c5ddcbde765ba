-- ===== src/Safety/Tests.antt =====
-- Runs of the safety monitor, and the theorems at concrete inputs.
use robot_core.Prelude.{
  ℕ, ◌+◌, ◌*◌, ◌^◌, ◌≡◌, ◌↔◌, ◌⊎◌, refl, true, false, none, some, List, String, [], ◌∷◌, arith, All,
}
use robot_core.Floats.{lit, seconds, py_max}
use robot_core.Floats.Model.{Num, num_floats}
use robot_core.Safety.{
  SafetyMonitor, BoardStatus, AbortRequest, level_abort, init, board_failure, update_abort_state,
  handle_abort, tick, Input, status, request, timer, step, run, events, on_board_status,
}
use robot_core.Safety.Verdict.{handle_abort_clears}
use robot_core.Safety.History.{
  last_status, last_request, IsHealthy, IsReleased, tick_refines_history,
}
use robot_core.Safety.Freshness.{ReportsAbort, events_latched, events_stale}

-- The default timeout, 0.50 s.
abbrev timeout : Num
timeout = lit 50 2

abbrev second : ℕ
second = 10 ^ 9

abbrev healthy : BoardStatus
healthy = record { connected = true; heartbeat_ok = true; failsafe_active = false }

abbrev engage : AbortRequest
engage = record { abort = true; reason = "" }

abbrev release : AbortRequest
release = record { abort = false; reason = "" }

abbrev history : List Input
history = status healthy second ∷ timer (second + 1000) 7 ∷ request engage (second + 2000) 8 ∷ []

abbrev latched : SafetyMonitor
latched = run timeout history init

tick_fresh :
    (tick timeout (second + 1000) 7 (run timeout (status healthy second ∷ []) init)).1.code
    ≡ "ABORT_CLEAR"
unfolding tick run step update_abort_state board_failure on_board_status seconds py_max
tick_fresh = refl

tick_stale :
    (tick timeout (2 * second) 7 (run timeout (status healthy second ∷ []) init)).1.code
    ≡ "BOARD_STATUS_STALE"
unfolding tick run step update_abort_state board_failure on_board_status seconds py_max
tick_stale = refl

handle_abort_clears_example :
    let (s', event, response) = handle_abort timeout release second 7 init in
    (s'.operator_abort_active ≡ false)
    × (response.abort_active ≡ s'.abort_active)
    × (((board_failure timeout second init ≡ none)
          × (s'.abort_active ≡ false)
          × (event.code ≡ "ABORT_CLEARED"))
        ⊎ ((code message : String) × (board_failure timeout second init ≡ some (code, message))
            × (s'.abort_active ≡ true)
            × (event.level ≡ level_abort)
            × (event.code ≡ code)
            × (response.message ≡ message)))
handle_abort_clears_example = handle_abort_clears timeout second 7 release init refl

tick_refines_history_example :
    ((tick timeout (second + 5) 9 (run timeout history init)).1.abort_active ≡ false) ↔ (
      IsHealthy timeout (second + 5) (last_status history none)
      × IsReleased (last_request history none))
tick_refines_history_example = tick_refines_history timeout history (second + 5) 9

abbrev later : List Input
later = status healthy (2 * second) ∷ timer (2 * second + 1) 9 ∷ []

events_latched_example : All ReportsAbort (events timeout later latched)
unfolding run step handle_abort update_abort_state board_failure on_board_status seconds py_max tick
events_latched_example = events_latched timeout later latched (tt, (tt, tt)) refl

abbrev silent : List Input
silent = timer (3 * second) 10 ∷ request release (4 * second) 11 ∷ []

events_stale_example : All ReportsAbort (events timeout silent latched)
unfolding run step handle_abort update_abort_state board_failure on_board_status seconds py_max tick
events_stale_example =
    events_stale timeout (3 * second) silent latched (omega arith, (omega arith, tt))
      (second, refl, refl)
