-- ===== src/Safety/Freshness.antt =====
-- The abort persists: an operator's latch until it is released, a stale board until its next status.
use robot_core.Prelude.{ℕ, ◌≤◌, ◌≡◌, ◌∙◌, true, some, List, [], ◌∷◌, arith, All, All-append}
use robot_core.Prelude.Int.{sub_ℕ}
use robot_core.Floats.{Floats, lt, seconds, py_max, zero_float}
use robot_core.Floats.Order.{seconds_le, lt_le_trans}
use robot_core.Safety.{
  SafetyMonitor, SafetyEvent, on_board_status, latch, update_abort_state, board_failure,
  handle_abort, tick, Input, status, request, timer, step, events,
}

-- The published event reports an abort.
abbrev pub ReportsAbort : SafetyEvent → Type 0
ReportsAbort event = event.abort_active ≡ true

-- No callback of the history releases the operator's abort.
abbrev pub KeepsLatch : Input → Type 0
KeepsLatch (status m now_ns) = Unit
KeepsLatch (request r now_ns stamp) = r.abort ≡ true
KeepsLatch (timer now_ns stamp) = Unit

-- The callback brings no board status, and runs at `start_ns` or later.
abbrev pub IsSilentSince : ℕ → Input → Type 0
IsSilentSince start_ns (status m now_ns) = ⊥
IsSilentSince start_ns (request r now_ns stamp) = start_ns ≤ now_ns
IsSilentSince start_ns (timer now_ns stamp) = start_ns ≤ now_ns

module _ {F : Type 0} ⦃fl : Floats F⦄ (timeout_s : F) where
  step_latched :
      (i : Input) (s : SafetyMonitor)
      → KeepsLatch i
      → s.operator_abort_active ≡ true
      → ((step timeout_s i s).0.operator_abort_active ≡ true)
        × All ReportsAbort (step timeout_s i s).1
  unfolding step on_board_status handle_abort latch tick update_abort_state
  step_latched (status m now_ns) s k h = ground arith
  step_latched (request r now_ns stamp) s k h = ground arith
  step_latched (timer now_ns stamp) s k h = ground arith

  -- While an operator abort is latched and no request releases it, every event published reports
  -- an abort, whatever board statuses arrive.
  pub events_latched :
      (is : List Input) (s : SafetyMonitor)
      → All KeepsLatch is
      → s.operator_abort_active ≡ true
      → All ReportsAbort (events timeout_s is s)
  unfolding events
  events_latched [] s k h = tt
  events_latched (i ∷ is) s k h =
      let (kept, reported) = step_latched i s k.0 h in
      All-append ReportsAbort (step timeout_s i s).1 (events timeout_s is (step timeout_s i s).0)
        reported (events_latched is (step timeout_s i s).0 k.1 kept)

  -- The last status is older than the timeout at `start_ns`.
  abbrev pub IsStaleAt : ℕ → SafetyMonitor → Type 0
  IsStaleAt start_ns s =
      (t : ℕ) × (s.board_status_ns ≡ some t)
      × (lt (py_max zero_float timeout_s) (seconds (sub_ℕ start_ns t)) ≡ true)

  stale_later :
      (start_ns now_ns t : ℕ)
      → start_ns ≤ now_ns
      → lt (py_max zero_float timeout_s) (seconds (sub_ℕ start_ns t)) ≡ true
      → lt (py_max zero_float timeout_s) (seconds (sub_ℕ now_ns t)) ≡ true
  stale_later start_ns now_ns t le h =
      lt_le_trans (py_max zero_float timeout_s) (seconds (sub_ℕ start_ns t))
        (seconds (sub_ℕ now_ns t)) h
        (seconds_le F (sub_ℕ start_ns t) (sub_ℕ now_ns t) (ground arith))

  step_stale :
      (start_ns : ℕ) (i : Input) (s : SafetyMonitor)
      → IsSilentSince start_ns i
      → IsStaleAt start_ns s
      → ((step timeout_s i s).0.board_status_ns ≡ s.board_status_ns)
        × All ReportsAbort (step timeout_s i s).1
  unfolding step handle_abort latch tick update_abort_state board_failure
  step_stale start_ns (status m now_ns) s k h = absurd k
  step_stale start_ns (request r now_ns stamp) s k (t, e, old) =
      ground (arith, stale_later start_ns now_ns t k old)
  step_stale start_ns (timer now_ns stamp) s k (t, e, old) =
      ground (arith, stale_later start_ns now_ns t k old)

  -- Once the last board status is older than the timeout, every event published at that moment or
  -- later reports an abort, operator requests included, until a board status arrives.
  pub events_stale :
      (start_ns : ℕ) (is : List Input) (s : SafetyMonitor)
      → All (IsSilentSince start_ns) is
      → IsStaleAt start_ns s
      → All ReportsAbort (events timeout_s is s)
  unfolding events
  events_stale start_ns [] s k h = tt
  events_stale start_ns (i ∷ is) s k (t, e, old) =
      let (kept, reported) = step_stale start_ns i s k.0 (t, e, old) in
      All-append ReportsAbort (step timeout_s i s).1 (events timeout_s is (step timeout_s i s).0)
        reported (events_stale start_ns is (step timeout_s i s).0 k.1 (t, kept ∙ e, old))
