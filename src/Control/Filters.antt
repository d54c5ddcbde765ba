-- ===== src/Control/Filters.antt =====
-- The scalar feedforwards and filters of control_math.py.
pub mod Bounds
use robot_core.Prelude.{
  ℕ, ◌==◌, ◌^◌, ◌-◌, ◌+◌, Bool, true, false, not, ◌&&◌, ◌||◌, Option, none, some, List, [], ◌∷◌,
  ◌++◌, map, length, ltb, leb, if◌then◌else◌,
}
use robot_core.Prelude.Int.{ℤ, pos, negsuc, pos_part, neg_part, sub_ℕ, ltb_ℤ}
use robot_core.Prelude.Results.{Result, ok, err, value_error, overflow_error, ◌>>=◌, ◌>>◌, raise_if}
use robot_core.Floats.{
  Floats, ◌⊕◌, ◌⊖◌, ◌⊗◌, ◌⊘◌, lt, le, lit, clip, seconds, zero_float, py_min, py_max,
}
use robot_core.Floats.Vectors.{
  all, all_finite, any, zip_with, is_negative, add_vectors, sub_vectors, mul_vectors, scale,
  clip_all,
}
use robot_core.Control.{vec}

module _ {F : Type 0} ⦃fl : Floats F⦄ where
  unfoldable pub surge_pitch_decoupling_effort : F → F → F → F → Result F
  surge_pitch_decoupling_effort applied_surge_effort forward_gain reverse_gain output_limit = do
    raise_if
        (not (all_finite (applied_surge_effort ∷ forward_gain ∷ reverse_gain ∷ output_limit ∷ [])))
        "surge-pitch decoupling inputs must be finite"
    raise_if (is_negative forward_gain || is_negative reverse_gain || is_negative output_limit)
        "surge-pitch gains and limit must be non-negative"
    let gain = if le zero_float applied_surge_effort then forward_gain else reverse_gain
    ok (clip (fl.neg gain ⊗ applied_surge_effort) (fl.neg output_limit) output_limit)

  unfoldable pub first_order_low_pass : Option F → F → F → F → Result F
  first_order_low_pass previous sample dt time_constant_s = do
    raise_if (not (all_finite (sample ∷ dt ∷ time_constant_s ∷ [])))
        "low-pass inputs must be finite"
    raise_if (le dt zero_float) "low-pass dt must be positive"
    elim previous [
      | none ↦ ok sample
      | some old ↦
          if le time_constant_s zero_float
          then ok sample
          else if not (fl.is_finite old)
          then err (value_error "low-pass previous value must be finite")
          else ok (old ⊕ fl.neg (fl.expm1 (fl.neg dt ⊘ time_constant_s)) ⊗ (sample ⊖ old))
    ]

  unfoldable pub directional_velocity_feedforward : F → F → F → F → Result F
  directional_velocity_feedforward velocity_setpoint positive_gain negative_gain output_limit = do
    raise_if
        (not (all_finite (velocity_setpoint ∷ positive_gain ∷ negative_gain ∷ output_limit ∷ [])))
        "velocity feedforward inputs must be finite"
    raise_if (is_negative positive_gain || is_negative negative_gain || is_negative output_limit)
        "velocity feedforward gains and limit must be non-negative"
    let gain = if le zero_float velocity_setpoint then positive_gain else negative_gain
    ok (clip (gain ⊗ velocity_setpoint) (fl.neg output_limit) output_limit)

  unfoldable pub slew_rate_limit : F → F → F → F → Result F
  slew_rate_limit previous requested dt rate_limit_per_s = do
    raise_if (not (all_finite (previous ∷ requested ∷ dt ∷ rate_limit_per_s ∷ [])))
        "slew-rate inputs must be finite"
    raise_if (le dt zero_float) "slew-rate timestep must be positive"
    raise_if (is_negative rate_limit_per_s) "slew-rate limit must be non-negative"
    let maximum_delta = rate_limit_per_s ⊗ dt
    ok (previous ⊕ clip (requested ⊖ previous) (fl.neg maximum_delta) maximum_delta)
