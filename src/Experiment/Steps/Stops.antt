-- ===== src/Experiment/Steps/Stops.antt =====
-- The waiting loops come to an end: each wait advances the clock, so the fuel bounds the time left.
use robot_core.Prelude.{ℕ, zero, suc, ◌+◌, ◌≤◌, ◌<◌, Bool, arith}
use robot_core.Experiment.{TrackingExperimentNode, Env, Run, Outcome, done, raised, running}
use robot_core.Experiment.Steps.{Expected, Marks, mark, now_ns, waited, wait_until, ready_loop}

-- The run has come to an end.
abbrev pub IsOver : {A F : Type 0} → Outcome A × Run F → Type 0
IsOver (done a, r) = Unit
IsOver (raised, r) = Unit
IsOver (running, r) = ⊥

-- A wait takes at least a nanosecond of the node's clock.
abbrev pub Advances : Env → Type 0
Advances env = (n : ℕ) → env.clock_ns n < env.clock_ns (n + 1)

module _ {F : Type 0} (env : Env) (advances : Advances env) where
  pub wait_until-IsOver :
      (fuel : ℕ) (test : TrackingExperimentNode → Bool) (deadline_ns : ℕ) (r : Run F)
      → deadline_ns ≤ now_ns env r + fuel
      → IsOver (wait_until env (suc fuel) test deadline_ns r)
  unfolding wait_until now_ns waited
  wait_until-IsOver zero test deadline_ns r h = ground arith
  wait_until-IsOver (suc fuel) test deadline_ns r h = ground (
    arith,
    wait_until-IsOver fuel test deadline_ns (waited env r) (omega (arith, advances r.waits)),
  )

  pub ready_loop-IsOver :
      (fuel : ℕ) (e : Expected) (marks : Marks) (deadline_ns : ℕ) (r : Run F)
      → deadline_ns ≤ now_ns env r + fuel
      → IsOver (ready_loop env (suc fuel) e marks deadline_ns r)
  unfolding ready_loop now_ns waited
  ready_loop-IsOver zero e marks deadline_ns r h = ground arith
  ready_loop-IsOver (suc fuel) e marks deadline_ns r h = ground (
    arith,
    ready_loop-IsOver fuel e (mark e marks r.node) deadline_ns (waited env r)
        (omega (arith, advances r.waits)),
  )
