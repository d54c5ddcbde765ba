-- ===== src/Control/Pid.antt =====
-- `ConditionalPid` of control_math.py. A step returns the state that the object is left in, also
-- where it raises.
pub mod Bounds
pub mod Windup
use robot_core.Prelude.{
  Bool, true, false, not, ◌&&◌, ◌||◌, Option, none, some, List, [], ◌∷◌, if◌then◌else◌,
}
use robot_core.Prelude.Results.{Result, ok, err, value_error}
use robot_core.Floats.{Floats, ◌⊕◌, ◌⊖◌, ◌⊗◌, ◌⊘◌, lt, le, lit, clip, zero_float, one_float, py_max}
use robot_core.Floats.Vectors.{all_finite, is_close}

pub record PidGains (F : Type 0) : Type 0 where
  pub kp : F
  pub ki : F
  pub kd : F
  pub integral_limit : F
  pub output_limit : F
  pub derivative_cutoff_hz : F

pub record ConditionalPid (F : Type 0) : Type 0 where
  pub integral : F
  pub previous_measurement : Option F
  pub filtered_derivative : F
  pub saturated : Bool

-- The keyword arguments of `step`.
pub record PidInput (F : Type 0) : Type 0 where
  pub setpoint : F
  pub measurement : F
  pub dt : F
  pub feedforward : F
  pub output_limit : Option F
  pub integral_enabled : Bool

module _ {F : Type 0} ⦃fl : Floats F⦄ where
  -- `__init__` and `reset` store the same values.
  unfoldable pub reset : ConditionalPid F
  reset = record {
    integral = zero_float;
    previous_measurement = none;
    filtered_derivative = zero_float;
    saturated = false;
  }

  unfoldable pub raw_derivative : ConditionalPid F → PidInput F → F
  raw_derivative s input = elim s.previous_measurement [
    | none ↦ zero_float
    | some previous ↦ fl.neg (input.measurement ⊖ previous) ⊘ input.dt
  ]

  unfoldable pub smoothing : PidGains F → F → F
  smoothing gains dt =
      let cutoff = py_max zero_float gains.derivative_cutoff_hz in
      if le cutoff zero_float
      then one_float
      else one_float ⊖ fl.exp (fl.neg (lit 2 0) ⊗ fl.pi ⊗ cutoff ⊗ dt)

  unfoldable pub derivative : PidGains F → ConditionalPid F → PidInput F → F
  derivative gains s input =
      s.filtered_derivative
      ⊕ smoothing gains input.dt ⊗ (raw_derivative s input ⊖ s.filtered_derivative)

  unfoldable pub proposed_integral : PidGains F → ConditionalPid F → PidInput F → F
  proposed_integral gains s input =
      let bound = fl.abs gains.integral_limit in
      if input.integral_enabled
      then clip (s.integral ⊕ (input.setpoint ⊖ input.measurement) ⊗ input.dt) (fl.neg bound) bound
      else zero_float

  unfoldable pub unsaturated : PidGains F → PidInput F → (integral filtered : F) → F
  unsaturated gains input integral filtered =
      input.feedforward
      ⊕ gains.kp ⊗ (input.setpoint ⊖ input.measurement)
      ⊕ gains.ki ⊗ integral
      ⊕ gains.kd ⊗ filtered

  -- `abs(float(self.gains.output_limit) if output_limit is None else float(output_limit))`
  unfoldable pub limit_of : PidGains F → PidInput F → F
  limit_of gains input =
      fl.abs (elim input.output_limit [ none ↦ gains.output_limit | some limit ↦ limit ])

  -- `math.isclose(a, b, rel_tol=0.0, abs_tol=1e-12)`
  abbrev pub is_same : F → F → Bool
  is_same = is_close zero_float (lit 1 12)

  unfoldable pub can_integrate : F → F → F → Bool
  can_integrate effort limit error =
      is_same effort (clip effort (fl.neg limit) limit)
      || lt limit effort && lt error zero_float
      || lt effort (fl.neg limit) && lt zero_float error

  -- What the step leaves in the fields before the output limit is checked.
  unfoldable pub observed : PidGains F → ConditionalPid F → PidInput F → ConditionalPid F
  observed gains s input = record s {
    integral = (if input.integral_enabled then s.integral else zero_float);
    previous_measurement = some input.measurement;
    filtered_derivative = derivative gains s input;
  }

  -- The last lines: the integral that is kept, the output, and whether it is saturated.
  unfoldable pub settle : ConditionalPid F → F → F → F → ConditionalPid F × Result F
  settle s integral effort limit =
      let saturated = clip effort (fl.neg limit) limit in
      (record s { integral = integral; saturated = not (is_same effort saturated) }, ok saturated)

  unfoldable pub step : PidGains F → ConditionalPid F → PidInput F → ConditionalPid F × Result F
  step gains s input =
      let error = input.setpoint ⊖ input.measurement in
      let proposed = proposed_integral gains s input in
      let s' = observed gains s input in
      let effort = unsaturated gains input proposed s'.filtered_derivative in
      let limit = limit_of gains input in
      if not (all_finite (input.setpoint ∷ input.measurement ∷ input.dt ∷ input.feedforward ∷ []))
      then (s, err (value_error "PID inputs must be finite"))
      else if le input.dt zero_float
      then (s, err (value_error "PID dt must be positive"))
      else if not (fl.is_finite limit)
      then (s', err (value_error "PID output limit must be finite"))
      else if not input.integral_enabled || can_integrate effort limit error
      then settle s' proposed effort limit
      else settle s' s'.integral (unsaturated gains input s'.integral s'.filtered_derivative) limit
