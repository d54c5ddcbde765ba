-- ===== src/Safety/History.antt =====
-- The node as a run over what arrives at it: the verdict depends on the last board status, the last
-- operator request and the clock alone.
use robot_core.Prelude.{ℕ, ◌≡◌, ◌↔◌, refl, true, false, Option, none, some, List, [], ◌∷◌, arith}
use robot_core.Prelude.Int.{sub_ℕ}
use robot_core.Floats.{Floats, lt, seconds, py_max, zero_float}
use robot_core.Safety.{
  SafetyMonitor, BoardStatus, AbortRequest, init, on_board_status, latch, update_abort_state,
  board_failure, handle_abort, tick, Input, status, request, timer, step, run,
}

-- The last status with its arrival, and the last operator request, of a history.
pub last_status : List Input → Option (ℕ × BoardStatus) → Option (ℕ × BoardStatus)
last_status [] before = before
last_status (status m now_ns ∷ is) before = last_status is (some (now_ns, m))
last_status (request _ _ _ ∷ is) before = last_status is before
last_status (timer _ _ ∷ is) before = last_status is before

pub last_request : List Input → Option AbortRequest → Option AbortRequest
last_request [] before = before
last_request (status _ _ ∷ is) before = last_request is before
last_request (request r _ _ ∷ is) before = last_request is (some r)
last_request (timer _ _ ∷ is) before = last_request is before

-- The state holds what a history ends with.
abbrev HoldsStatus : Option (ℕ × BoardStatus) → SafetyMonitor → Type 0
HoldsStatus none s = s.board_status_ns ≡ none
HoldsStatus (some (t, m)) s =
    (s.board_status_ns ≡ some t)
    × (s.board_connected ≡ m.connected)
    × (s.board_heartbeat_ok ≡ m.heartbeat_ok)
    × (s.board_failsafe_active ≡ m.failsafe_active)

abbrev HoldsRequest : Option AbortRequest → SafetyMonitor → Type 0
HoldsRequest none s = s.operator_abort_active ≡ false
HoldsRequest (some r) s = s.operator_abort_active ≡ r.abort

-- The board's last word is recent and healthy, and the operator's last word is no abort.
abbrev pub IsHealthy : {F : Type 0} ⦃fl : Floats F⦄ → F → ℕ → Option (ℕ × BoardStatus) → Type 0
IsHealthy timeout_s now_ns none = ⊥
IsHealthy timeout_s now_ns (some (t, m)) =
    (lt (py_max zero_float timeout_s) (seconds (sub_ℕ now_ns t)) ≡ false)
    × (m.connected ≡ true)
    × (m.heartbeat_ok ≡ true)
    × (m.failsafe_active ≡ false)

abbrev pub IsReleased : Option AbortRequest → Type 0
IsReleased none = Unit
IsReleased (some r) = r.abort ≡ false

module _ {F : Type 0} ⦃fl : Floats F⦄ (timeout_s : F) where
  step-Holds :
      (i : Input) (s : SafetyMonitor) (m : Option (ℕ × BoardStatus)) (r : Option AbortRequest)
      → HoldsStatus m s
      → HoldsRequest r s
      → HoldsStatus (last_status (i ∷ []) m) (step timeout_s i s).0
        × HoldsRequest (last_request (i ∷ []) r) (step timeout_s i s).0
  unfolding step last_status last_request on_board_status handle_abort latch tick update_abort_state
  step-Holds (status m' now_ns) s m none hm hr = ground arith
  step-Holds (status m' now_ns) s m (some r) hm hr = ground arith
  step-Holds (request r' now_ns stamp) s none r hm hr = ground arith
  step-Holds (request r' now_ns stamp) s (some m) r hm hr = ground arith
  step-Holds (timer now_ns stamp) s none none hm hr = ground arith
  step-Holds (timer now_ns stamp) s (some m) none hm hr = ground arith
  step-Holds (timer now_ns stamp) s none (some r) hm hr = ground arith
  step-Holds (timer now_ns stamp) s (some m) (some r) hm hr = ground arith

  run-Holds :
      (is : List Input) (s : SafetyMonitor) (m : Option (ℕ × BoardStatus)) (r : Option AbortRequest)
      → HoldsStatus m s
      → HoldsRequest r s
      → HoldsStatus (last_status is m) (run timeout_s is s)
        × HoldsRequest (last_request is r) (run timeout_s is s)
  unfolding run last_status last_request
  run-Holds [] s m r hm hr = (hm, hr)
  run-Holds (status m' now_ns ∷ is) s m r hm hr =
      let held = step-Holds (status m' now_ns) s m r hm hr in
      run-Holds is (step timeout_s (status m' now_ns) s).0 (some (now_ns, m')) r held.0 held.1
  run-Holds (request r' now_ns stamp ∷ is) s m r hm hr =
      let held = step-Holds (request r' now_ns stamp) s m r hm hr in
      run-Holds is (step timeout_s (request r' now_ns stamp) s).0 m (some r') held.0 held.1
  run-Holds (timer now_ns stamp ∷ is) s m r hm hr =
      let held = step-Holds (timer now_ns stamp) s m r hm hr in
      run-Holds is (step timeout_s (timer now_ns stamp) s).0 m r held.0 held.1

  verdict_of_Holds :
      (now_ns stamp : ℕ) (s : SafetyMonitor) (m : Option (ℕ × BoardStatus))
      (r : Option AbortRequest)
      → HoldsStatus m s
      → HoldsRequest r s
      → ((tick timeout_s now_ns stamp s).1.abort_active ≡ false)
        ↔ (IsHealthy timeout_s now_ns m × IsReleased r)
  unfolding tick update_abort_state board_failure
  verdict_of_Holds now_ns stamp s none none hm hr = ground arith
  verdict_of_Holds now_ns stamp s none (some r) hm hr = ground arith
  verdict_of_Holds now_ns stamp s (some m) none hm hr = ground arith
  verdict_of_Holds now_ns stamp s (some m) (some r) hm hr = ground arith

  -- From start-up, after any callbacks, the heartbeat at any moment is clear exactly when the last
  -- board status arrived within the timeout and was healthy, and the last operator request, if
  -- any, did not engage the abort.
  pub tick_refines_history :
      (is : List Input) (now_ns stamp : ℕ)
      → ((tick timeout_s now_ns stamp (run timeout_s is init)).1.abort_active ≡ false)
        ↔ (IsHealthy timeout_s now_ns (last_status is none) × IsReleased (last_request is none))
  tick_refines_history is now_ns stamp =
      let held = run-Holds is init none none refl refl in
      verdict_of_Holds now_ns stamp (run timeout_s is init) (last_status is none)
        (last_request is none) held.0 held.1
