-- ===== src/Control/Pid/Bounds.antt =====
-- The output of the PID lies within its limit, and its integral within the integral limit.
use mathlib.Core.Path.{subst}
use robot_core.Prelude.{◌≡◌, true, ◌⊎◌, inr, arith, List, [], ◌∷◌}
use robot_core.Prelude.Results.{ok}
use robot_core.Floats.{Floats, ◌⊕◌, ◌⊖◌, ◌⊗◌, clip, zero_float}
use robot_core.Floats.Order.{
  IsBounded, clip-IsBounded, zero-IsWithin, abs_nonneg_of_finite, abs_limit_nonneg,
}
use robot_core.Control.Pid.{
  PidGains, ConditionalPid, PidInput, reset, proposed_integral, limit_of, unsaturated, observed,
  settle, step,
}

-- A call of the object.
pub data Call (F : Type 0) : Type 0 where
  reset_call : Call F
  step_call : PidInput F → Call F

module _ {F : Type 0} ⦃fl : Floats F⦄ where
  pub run : PidGains F → List (Call F) → ConditionalPid F → ConditionalPid F
  run gains [] s = s
  run gains (reset_call ∷ calls) s = run gains calls reset
  run gains (step_call input ∷ calls) s = run gains calls (step gains s input).0

  pub limit_of_nonneg :
      (gains : PidGains F) (input : PidInput F)
      → fl.is_finite (limit_of gains input) ≡ true
      → fl.le zero_float (limit_of gains input) ≡ true
  unfolding limit_of
  limit_of_nonneg gains input finite = abs_limit_nonneg {F = F} _ finite

  settle-IsBounded :
      (s : ConditionalPid F) (integral effort limit output : F)
      → fl.le zero_float limit ≡ true
      → (settle s integral effort limit).1 ≡ ok output
      → IsBounded limit output
  unfolding settle
  settle-IsBounded s integral effort limit output nonneg h =
      let e : clip effort (fl.neg limit) limit ≡ output = cc in
      subst (IsBounded limit) e (clip-IsBounded effort limit nonneg)

  -- The output of a step lies within the output limit, unless it is a NaN.
  pub step-IsBounded :
      (gains : PidGains F) (s : ConditionalPid F) (input : PidInput F) {output : F}
      → (step gains s input).1 ≡ ok output
      → IsBounded (limit_of gains input) output
  unfolding step
  step-IsBounded gains s input {output} h =
      let s' = observed gains s input in
      let proposed = proposed_integral gains s input in
      let limit = limit_of gains input in
      ground (
        arith,
        limit_of_nonneg gains input,
        settle-IsBounded s' proposed (unsaturated gains input proposed s'.filtered_derivative) limit
            output,
        settle-IsBounded s' s'.integral (unsaturated gains input s'.integral s'.filtered_derivative)
            limit output,
      )

  proposed_integral-IsBounded :
      (gains : PidGains F) (s : ConditionalPid F) (input : PidInput F)
      → fl.is_finite gains.integral_limit ≡ true
      → IsBounded (fl.abs gains.integral_limit) (proposed_integral gains s input)
  unfolding proposed_integral
  proposed_integral-IsBounded gains s input finite =
      let bound = fl.abs gains.integral_limit in
      let moved = s.integral ⊕ (input.setpoint ⊖ input.measurement) ⊗ input.dt in
      ground (
        arith,
        abs_nonneg_of_finite gains.integral_limit,
        clip-IsBounded moved bound,
        zero-IsWithin bound,
      )

  step-integral :
      (gains : PidGains F) (s : ConditionalPid F) (input : PidInput F)
      → ((step gains s input).0.integral ≡ s.integral)
        ⊎ ((step gains s input).0.integral ≡ zero_float)
        ⊎ ((step gains s input).0.integral ≡ proposed_integral gains s input)
  unfolding step settle observed
  step-integral gains s input = ground arith

  step-integral-IsBounded :
      (gains : PidGains F) (s : ConditionalPid F) (input : PidInput F)
      → fl.is_finite gains.integral_limit ≡ true
      → IsBounded (fl.abs gains.integral_limit) s.integral
      → IsBounded (fl.abs gains.integral_limit) (step gains s input).0.integral
  step-integral-IsBounded gains s input finite h = ground (
    arith,
    step-integral gains s input,
    proposed_integral-IsBounded gains s input finite,
    zero-IsWithin (fl.abs gains.integral_limit) (abs_nonneg_of_finite gains.integral_limit finite),
  )

  -- Whatever is called from a bounded integral on, the integral stays bounded.
  run-IsBounded :
      (gains : PidGains F) (calls : List (Call F)) (s : ConditionalPid F)
      → fl.is_finite gains.integral_limit ≡ true
      → IsBounded (fl.abs gains.integral_limit) s.integral
      → IsBounded (fl.abs gains.integral_limit) (run gains calls s).integral
  unfolding run reset
  run-IsBounded gains [] s finite h = h
  run-IsBounded gains (reset_call ∷ calls) s finite h =
      run-IsBounded gains calls reset finite
        (inr (zero-IsWithin {F = F} _ (abs_nonneg_of_finite gains.integral_limit finite)))
  run-IsBounded gains (step_call input ∷ calls) s finite h =
      run-IsBounded gains calls (step gains s input).0 finite
        (step-integral-IsBounded gains s input finite h)

  -- Where the integral limit is finite, the integral of a controller lies within it after any calls of
  -- `step` and `reset`, unless it is a NaN; calls that raise are included.
  pub run-reset-IsBounded :
      (gains : PidGains F) (calls : List (Call F))
      → fl.is_finite gains.integral_limit ≡ true
      → IsBounded (fl.abs gains.integral_limit) (run gains calls reset).integral
  unfolding reset
  run-reset-IsBounded gains calls finite =
      run-IsBounded gains calls reset finite
        (inr (zero-IsWithin {F = F} _ (abs_nonneg_of_finite gains.integral_limit finite)))
