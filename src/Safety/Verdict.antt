-- ===== src/Safety/Verdict.antt =====
-- What one callback of `SafetyMonitor` publishes and answers.
use robot_core.Prelude.{
  ℕ, ◌≡◌, ◌↔◌, ◌⊎◌, inl, inr, ◌≢◌, refl, String, true, false, none, some, arith, ne_of_str_eq,
  Option-cases,
}
use robot_core.Floats.{Floats}
use robot_core.Safety.{
  SafetyMonitor, AbortRequest, level_abort, level_of, board_failure, update_abort_state,
  handle_abort, tick,
}

module _ {F : Type 0} ⦃fl : Floats F⦄ (timeout_s : F) (now_ns stamp : ℕ) where
  -- The evaluation changes only `abort_active`, and clears it exactly when the board reports no
  -- failure and no operator abort is latched.
  pub update_abort_state_cases :
      (s : SafetyMonitor)
      → ((update_abort_state timeout_s now_ns s).0.abort_active ≡ false)
        ↔ ((board_failure timeout_s now_ns s ≡ none) × (s.operator_abort_active ≡ false))
  unfolding update_abort_state
  update_abort_state_cases s = ground arith

  -- No board failure goes by the code that announces a clear abort.
  board_failure_code :
      (s : SafetyMonitor) (code message : String)
      → board_failure timeout_s now_ns s ≡ some (code, message)
      → code ≢ "ABORT_CLEAR"
  unfolding board_failure
  board_failure_code s code message h = ground (
    arith,
    ne_of_str_eq "BOARD_STATUS_MISSING" "ABORT_CLEAR" refl,
    ne_of_str_eq "BOARD_STATUS_STALE" "ABORT_CLEAR" refl,
    ne_of_str_eq "BOARD_DISCONNECTED" "ABORT_CLEAR" refl,
    ne_of_str_eq "BOARD_HEARTBEAT_LOST" "ABORT_CLEAR" refl,
    ne_of_str_eq "BOARD_FAILSAFE_ACTIVE" "ABORT_CLEAR" refl,
  )

  -- Every heartbeat says what the state says: its flag is the state's, its level is ABORT exactly
  -- when the flag is set, and its code is ABORT_CLEAR exactly when the flag is not set.
  pub tick_event :
      (s : SafetyMonitor)
      → let (s', event) = tick timeout_s now_ns stamp s in
        (event.abort_active ≡ s'.abort_active)
        × (event.level ≡ level_of s'.abort_active)
        × ((event.code ≡ "ABORT_CLEAR") ↔ (event.abort_active ≡ false))
  unfolding tick update_abort_state
  tick_event s = elim (Option-cases (board_failure timeout_s now_ns s)) [
    | inl healthy ↦ ground (arith, ne_of_str_eq "ABORT_ACTIVE" "ABORT_CLEAR" refl)
    | inr (failure, e) ↦ ground (arith, board_failure_code s failure.0 failure.1)
  ]

  -- Engaging the abort latches it and is answered as active at once, whatever the board says; the
  -- response and the published event carry the state's flag.
  pub handle_abort_engages :
      (request : AbortRequest) (s : SafetyMonitor)
      → request.abort ≡ true
      → let (s', event, response) = handle_abort timeout_s request now_ns stamp s in
        (s'.operator_abort_active ≡ true)
        × (s'.abort_active ≡ true)
        × (event.level ≡ level_abort)
        × (event.abort_active ≡ true)
        × (response.abort_active ≡ true)
  unfolding handle_abort update_abort_state
  handle_abort_engages request s h = ground arith

  -- A request to clear drops the operator's latch, and drops the abort only if the board reports no
  -- failure: otherwise the abort stays, under the board's own code and message.
  pub handle_abort_clears :
      (request : AbortRequest) (s : SafetyMonitor)
      → request.abort ≡ false
      → let (s', event, response) = handle_abort timeout_s request now_ns stamp s in
        (s'.operator_abort_active ≡ false)
        × (response.abort_active ≡ s'.abort_active)
        × (((board_failure timeout_s now_ns s ≡ none)
              × (s'.abort_active ≡ false)
              × (event.code ≡ "ABORT_CLEARED"))
            ⊎ ((code message : String) × (board_failure timeout_s now_ns s ≡ some (code, message))
                × (s'.abort_active ≡ true)
                × (event.level ≡ level_abort)
                × (event.code ≡ code)
                × (response.message ≡ message)))
  unfolding handle_abort update_abort_state board_failure
  handle_abort_clears request s h = elim (Option-cases (board_failure timeout_s now_ns s)) [
    | inl healthy ↦ (ground arith, ground arith, inl (ground arith))
    | inr (failure, e) ↦ (
      ground arith,
      ground arith,
      inr (failure.0, failure.1, e, ground arith, ground arith, ground arith, ground arith),
    )
  ]
