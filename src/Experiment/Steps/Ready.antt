-- ===== src/Experiment/Steps/Ready.antt =====
-- What `wait_for_tracking_ready` has seen when it returns true.
use robot_core.Prelude.{
  ℕ, zero, suc, ◌+◌, ◌<◌, ◌≡◌, ◌⊎◌, ◌∙◌, sym, refl, inl, inr, Bool-cases, true, false, some, str_eq,
  arith, if◌then◌else◌, ltb,
}
use robot_core.Experiment.{TrackingExperimentNode, Env, Run, done}
use robot_core.Experiment.Steps.{
  Expected, Marks, target_matches, policy_count, mark, pid_is_ready, policy_is_ready, is_ready,
  waited, now_ns, ready_loop, unmarked, wait_for_tracking_ready,
}

-- Between two states of the node the controller has put out a new status, which is ready; a policy
-- has also run another inference.
abbrev pub HasFreshOutput : Expected → TrackingExperimentNode → TrackingExperimentNode → Type 0
HasFreshOutput e before after =
    ((str_eq e.controller "pid" ≡ true)
      × (before.pid_status_sequence < after.pid_status_sequence)
      × (pid_is_ready after.latest_pid_status ≡ true))
    ⊎ ((str_eq e.controller "pid" ≡ false)
        × (before.policy_status_sequence < after.policy_status_sequence)
        × (policy_is_ready (policy_count unmarked before.latest_policy_status)
              after.latest_policy_status
            ≡ true))

mark_once :
    (e : Expected) (marks : Marks) (n : ℕ) (s : TrackingExperimentNode)
    → marks.controller_sequence_at_target ≡ some n
    → mark e marks s ≡ marks
unfolding mark
mark_once e marks n s h = ground arith

fresh_of_ready :
    (e : Expected) (before later : TrackingExperimentNode)
    → target_matches e before ≡ true
    → is_ready e (mark e unmarked before) later ≡ true
    → HasFreshOutput e before later
unfolding is_ready mark
fresh_of_ready e before later h ready = elim (Bool-cases (str_eq e.controller "pid")) [
  | inl pid ↦ inl (ground arith)
  | inr policy ↦ inr (ground arith)
]

unready_of_unmatched :
    (e : Expected) (s : TrackingExperimentNode)
    → target_matches e s ≡ false
    → (mark e unmarked s ≡ unmarked) × (is_ready e unmarked s ≡ false)
unfolding is_ready mark
unready_of_unmatched e s h = ground arith

marked_of_matched :
    (e : Expected) (s : TrackingExperimentNode)
    → target_matches e s ≡ true
    → (n : ℕ) × ((mark e unmarked s).controller_sequence_at_target ≡ some n)
unfolding mark
marked_of_matched e s h = elim (Bool-cases (str_eq e.controller "pid")) [
  | inl pid ↦ (s.pid_status_sequence, ground arith)
  | inr rl ↦ (s.policy_status_sequence, ground arith)
]

module _ {F : Type 0} (env : Env) where
  -- The run after some waits.
  pub after : ℕ → Run F → Run F
  after zero r = r
  after (suc k) r = after k (waited env r)

module _ {F : Type 0} (env : Env) (e : Expected) where
  marked_step :
      (fuel : ℕ) (marks marks' : Marks) (deadline_ns : ℕ) (r : Run F)
      → mark e marks r.node ≡ marks'
      → ready_loop env (suc fuel) e marks deadline_ns r ≡ (
          if ltb (now_ns env r) deadline_ns
          then (if is_ready e marks' r.node
              then (done true, r)
              else ready_loop env fuel e marks' deadline_ns (waited env r))
          else (done false, r))
  unfolding ready_loop
  marked_step fuel marks marks' deadline_ns r h = rw h refl

  ready_of_marked :
      (fuel : ℕ) (marks : Marks) (n deadline_ns : ℕ) (r : Run F) {r' : Run F}
      → marks.controller_sequence_at_target ≡ some n
      → ready_loop env fuel e marks deadline_ns r ≡ (done true, r')
      → (j : ℕ) × (r' ≡ after env j r) × (is_ready e marks r'.node ≡ true)
  unfolding after ready_loop
  ready_of_marked zero marks n deadline_ns r m h = ground arith
  ready_of_marked (suc fuel) marks n deadline_ns r {r'} m h =
      let step =
        sym (marked_step fuel marks marks deadline_ns r (mark_once e marks n r.node m)) ∙ h in
      elim (Bool-cases (is_ready e marks r.node)) [
        | inl ready ↦ (0, ground arith, ground arith)
        | inr unready ↦
            let (j, later, ready) =
              ready_of_marked fuel marks n deadline_ns (waited env r) {r' = r'} m (ground arith) in
            (suc j, later, ready)
      ]

  -- Unmarked, the loop runs as from the marks that it takes at its first state.
  marked_run :
      (fuel : ℕ) (deadline_ns n : ℕ) (r : Run F)
      → (mark e unmarked r.node).controller_sequence_at_target ≡ some n
      → ready_loop env fuel e unmarked deadline_ns r
        ≡ ready_loop env fuel e (mark e unmarked r.node) deadline_ns r
  unfolding ready_loop
  marked_run zero deadline_ns n r m = refl
  marked_run (suc fuel) deadline_ns n r m =
      rw (mark_once e (mark e unmarked r.node) n r.node m) refl

  ready_loop-HasFreshOutput :
      (fuel deadline_ns : ℕ) (r : Run F) {r' : Run F}
      → ready_loop env fuel e unmarked deadline_ns r ≡ (done true, r')
      → (k j : ℕ) × (r' ≡ after env j (after env k r))
        × (target_matches e (after env k r).node ≡ true)
        × HasFreshOutput e (after env k r).node r'.node
  unfolding ready_loop after
  ready_loop-HasFreshOutput zero deadline_ns r h = ground arith
  ready_loop-HasFreshOutput (suc fuel) deadline_ns r {r'} h =
      elim (Bool-cases (target_matches e r.node)) [
        | inl matched ↦
            let (n, m) = marked_of_matched e r.node matched in
            let (j, later, ready) =
              ready_of_marked (suc fuel) (mark e unmarked r.node) n deadline_ns r {r' = r'} m
                (sym (marked_run (suc fuel) deadline_ns n r m) ∙ h) in
            (0, j, later, matched, fresh_of_ready e r.node r'.node matched ready)
        | inr unmatched ↦
            let (same, unready) = unready_of_unmatched e r.node unmatched in
            let step = sym (marked_step fuel unmarked unmarked deadline_ns r same) ∙ h in
            let (k, j, later, matched, fresh) =
              ready_loop-HasFreshOutput fuel deadline_ns (waited env r) {r' = r'} (ground arith) in
            (suc k, j, later, matched, fresh)
      ]

  -- When the wait for a ready controller returns true, some number of waits after its start the
  -- node held a valid target of the expected type and mode, newer than the reset; and at its end the
  -- selected controller's latest status is ready and arrived after that, a policy's after another
  -- inference.
  pub wait_for_tracking_ready-HasFreshOutput :
      (fuel timeout_ns : ℕ) (r : Run F) {r' : Run F}
      → wait_for_tracking_ready env fuel e timeout_ns r ≡ (done true, r')
      → (k j : ℕ) × (r' ≡ after env j (after env k r))
        × (target_matches e (after env k r).node ≡ true)
        × HasFreshOutput e (after env k r).node r'.node
  unfolding wait_for_tracking_ready
  wait_for_tracking_ready-HasFreshOutput fuel timeout_ns r h =
      ready_loop-HasFreshOutput fuel (now_ns env r + timeout_ns) r h
