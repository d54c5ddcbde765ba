-- ===== src/Control/Level.antt =====
-- The roll and pitch cascade of control_math.py, with its integral terms.
pub mod Integral
use robot_core.Prelude.{
  ℕ, ◌==◌, ◌-◌, Bool, true, false, not, ◌&&◌, ◌||◌, List, [], ◌∷◌, map, if◌then◌else◌,
}
use robot_core.Prelude.Int.{ℤ, pos, negsuc, eq_ℤ}
use robot_core.Prelude.Results.{Result, ok, err, value_error, ◌>>=◌, ◌>>◌, raise_if}
use robot_core.Floats.{Floats, ◌⊕◌, ◌⊖◌, ◌⊗◌, ◌⊘◌, lt, le, lit, clip, zero_float}
use robot_core.Floats.Vectors.{
  all_finite, any, is_negative, add_vectors, sub_vectors, mul_vectors, scale, clip_each,
}
use robot_core.Control.{vec}

-- The tuple that `level_attitude_rate_efforts` returns.
pub record LevelEfforts (F : Type 0) : Type 0 where
  pub efforts : List F
  pub raw : List F
  pub desired_rate : List F
  pub is_limited : Bool

abbrev pub is_sign : ℤ → Bool
is_sign n = eq_ℤ n (negsuc 0) || eq_ℤ n (pos 0) || eq_ℤ n (pos 1)

module _ {F : Type 0} ⦃fl : Floats F⦄ where
  pub level_attitude_rate_efforts :
      List F
      → List F
      → List F
      → List F
      → List F
      → List F
      → F
      → List F
      → List F
      → Result (LevelEfforts F)
  level_attitude_rate_efforts orientation_error target_angular_rate measured_angular_rate
        angle_to_rate_kp rate_kp angular_rate_limit combined_limit effort_feedforward
        effort_integral =
      do
        error ← vec orientation_error 2
        target_rate ← vec target_angular_rate 2
        measured_rate ← vec measured_angular_rate 2
        angle_to_rate_gains ← vec angle_to_rate_kp 2
        rate_gains ← vec rate_kp 2
        rate_limits ← vec angular_rate_limit 2
        feedforward ← vec effort_feedforward 2
        integral ← vec effort_integral 2
        raise_if
            (any is_negative angle_to_rate_gains
              || any is_negative rate_gains
              || any is_negative rate_limits
              || not (fl.is_finite combined_limit)
              || is_negative combined_limit)
            "level cascade gains, rate limits and effort limit must be finite and non-negative"
        let desired_rate =
            clip_each (add_vectors target_rate (mul_vectors angle_to_rate_gains error)) rate_limits
        let raw =
            add_vectors
              (add_vectors (mul_vectors rate_gains (sub_vectors desired_rate measured_rate))
                feedforward)
              integral
        let peak = fl.np_sum (map fl.abs raw)
        let is_limited = lt combined_limit peak && lt zero_float peak
        ok (record {
          efforts = (if is_limited then scale (combined_limit ⊘ peak) raw else raw);
          raw = raw;
          desired_rate = desired_rate;
          is_limited = is_limited;
        })

  -- `total[axis] += effort`
  unfoldable pub add_at : List F → ℕ → F → List F
  add_at [] axis effort = []
  add_at (x ∷ xs) axis effort =
      let rest = add_at xs (axis - 1) effort in if axis == 0 then (x ⊕ effort) ∷ xs else x ∷ rest

  -- The combined demand on the most loaded channel, with the given integral effort on one axis.
  unfoldable pub peak_with : List F → ℕ → F → F
  peak_with base axis effort = fl.np_sum (map fl.abs (add_at base axis effort))

  -- An axis other than 0 and 1, a negative one included, raises.
  unfoldable pub conditional_axis_integral_effort : F → F → F → F → F → List F → ℕ → F → Result F
  conditional_axis_integral_effort current_effort error integral_gain dt effort_limit base_efforts
        axis combined_limit =
      do
        base ← vec base_efforts 2
        raise_if
            (not (
              all_finite
                (current_effort ∷ error ∷ integral_gain ∷ dt ∷ effort_limit ∷ combined_limit ∷ [])))
            "integral effort inputs must be finite"
        raise_if
            (is_negative integral_gain || is_negative effort_limit || is_negative combined_limit)
            "integral gain and effort limits must be non-negative"
        raise_if (le dt zero_float) "integral timestep must be positive"
        raise_if (not (axis == 0 || axis == 1)) "integral effort axis must be 0 or 1"
        let current = clip current_effort (fl.neg effort_limit) effort_limit
        let proposed =
            clip (current ⊕ integral_gain ⊗ error ⊗ dt) (fl.neg effort_limit) effort_limit
        let current_peak = peak_with base axis current
        let proposed_peak = peak_with base axis proposed
        ok (
            if lt (combined_limit ⊕ lit 1 12) proposed_peak
              && lt (current_peak ⊕ lit 1 12) proposed_peak
            then current
            else proposed)

  pub integral_reset_after_error_crossing : ℤ → F → F → F → Result (Bool × ℤ)
  integral_reset_after_error_crossing previous_error_sign error integral_effort hysteresis = do
    raise_if (not (all_finite (error ∷ integral_effort ∷ hysteresis ∷ [])))
        "integral crossing inputs must be finite"
    raise_if (not (is_sign previous_error_sign)) "previous error sign must be -1, 0, or 1"
    raise_if (is_negative hysteresis) "integral crossing hysteresis must be non-negative"
    let current_error_sign = if lt zero_float error then pos 1 else negsuc 0
    let crossed =
        not (eq_ℤ previous_error_sign (pos 0)) && not (eq_ℤ current_error_sign previous_error_sign)
    let opposing = is_negative (integral_effort ⊗ error)
    ok (
        if le (fl.abs error) hysteresis
        then (false, previous_error_sign)
        else (crossed && opposing, current_error_sign))
