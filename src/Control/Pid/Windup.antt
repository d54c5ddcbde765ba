-- ===== src/Control/Pid/Windup.antt =====
-- When the PID raises, and that its integral does not wind up against the limit.
use robot_core.Prelude.{◌≡◌, true, false, ◌↔◌, ◌⊎◌, inl, inr, arith}
use robot_core.Prelude.Results.{ok, err, Error, Result-cases}
use robot_core.Floats.{Floats, ◌⊖◌, le, lt, zero_float}
use robot_core.Floats.Order.{clip_above, clip_below, neg-le_self}
use robot_core.Control.Pid.{
  PidGains, ConditionalPid, PidInput, proposed_integral, limit_of, unsaturated, can_integrate,
  is_same, observed, settle, derivative, step,
}
use robot_core.Control.Pid.Bounds.{limit_of_nonneg}

module _ {F : Type 0} ⦃fl : Floats F⦄ (gains : PidGains F) (s : ConditionalPid F)
    (input : PidInput F) where
  abbrev pub Accepts : Type 0
  Accepts =
      (fl.is_finite input.setpoint ≡ true)
      × (fl.is_finite input.measurement ≡ true)
      × (fl.is_finite input.dt ≡ true)
      × (fl.is_finite input.feedforward ≡ true)
      × (le input.dt zero_float ≡ false)
      × (fl.is_finite (limit_of gains input) ≡ true)

  -- A step returns an output exactly when its four inputs are finite, the timestep is positive and
  -- the output limit is finite.
  pub step_returns_iff : ((output : F) × ((step gains s input).1 ≡ ok output)) ↔ Accepts
  unfolding step settle
  step_returns_iff = (
    λ returned. ground arith,
    λ accepted. elim (Result-cases (step gains s input).1) [
      | inl raised ↦ ground arith
      | inr returned ↦ returned
    ],
  )

  -- A step that raises leaves the integral as it was or, where integration is disabled, at zero, and
  -- it leaves the flag of saturation as it was.
  pub step-err_keeps :
      {e : Error}
      → (step gains s input).1 ≡ err e
      → (((step gains s input).0.integral ≡ s.integral)
          ⊎ ((input.integral_enabled ≡ false) × ((step gains s input).0.integral ≡ zero_float)))
        × ((step gains s input).0.saturated ≡ s.saturated)
  unfolding step settle observed
  step-err_keeps raised = (ground arith, ground arith)

  -- The effort that the step would ask for with the integral that it proposes.
  abbrev pub demand : F
  demand = unsaturated gains input (proposed_integral gains s input) (derivative gains s input)

  -- With integration enabled, a demand above the limit (by more than the tolerance of 1e-12) while the
  -- error is not negative leaves the integral as it was; likewise a demand below the negative limit
  -- while the error is not positive.
  pub step_holds_integral :
      input.integral_enabled ≡ true
      → fl.is_finite (limit_of gains input) ≡ true
      → ((lt (limit_of gains input) demand ≡ true)
          × (is_same demand (limit_of gains input) ≡ false)
          × (lt (input.setpoint ⊖ input.measurement) zero_float ≡ false))
        ⊎ ((lt demand (fl.neg (limit_of gains input)) ≡ true)
            × (is_same demand (fl.neg (limit_of gains input)) ≡ false)
            × (lt zero_float (input.setpoint ⊖ input.measurement) ≡ false))
      → (step gains s input).0.integral ≡ s.integral
  unfolding step settle observed can_integrate
  step_holds_integral enabled finite demanding =
      let limit = limit_of gains input in
      let ordered = neg-le_self limit (limit_of_nonneg gains input finite) in
      elim demanding [
        | inl above ↦ ground (
          arith,
          clip_above demand (fl.neg limit) limit,
          fl.lt_le limit demand,
          fl.le_trans (fl.neg limit) limit demand,
          fl.lt_not_le demand (fl.neg limit),
        )
        | inr below ↦ ground (
          arith,
          clip_below demand (fl.neg limit) limit,
          fl.lt_le demand (fl.neg limit),
          fl.le_trans demand (fl.neg limit) limit,
          fl.lt_not_le limit demand,
        )
      ]
