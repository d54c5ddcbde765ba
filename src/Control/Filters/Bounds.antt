-- ===== src/Control/Filters/Bounds.antt =====
-- The outputs of the scalar feedforwards and of the slew limit lie within their limits.
use robot_core.Prelude.{◌≡◌, true, arith}
use robot_core.Prelude.Results.{ok}
use robot_core.Floats.{Floats, ◌⊕◌, ◌⊖◌, ◌⊗◌, le, clip}
use robot_core.Floats.Order.{
  IsWithin, clip-IsWithin, nonneg_of_tests, positive_of_tests, neg-mul_number,
}
use robot_core.Control.Filters.{
  surge_pitch_decoupling_effort, directional_velocity_feedforward, slew_rate_limit,
}

module _ {F : Type 0} ⦃fl : Floats F⦄ where
  -- A pitch correction that is returned lies within the output limit.
  pub surge_pitch_decoupling_effort-IsWithin :
      (surge forward reverse limit : F) {effort : F}
      → surge_pitch_decoupling_effort surge forward reverse limit ≡ ok effort
      → IsWithin limit effort
  unfolding surge_pitch_decoupling_effort
  surge_pitch_decoupling_effort-IsWithin surge forward reverse limit {effort} h = ground (
    arith,
    nonneg_of_tests limit,
    neg-mul_number forward surge,
    neg-mul_number reverse surge,
    clip-IsWithin (fl.neg forward ⊗ surge) limit,
    clip-IsWithin (fl.neg reverse ⊗ surge) limit,
  )

  -- A velocity feedforward that is returned lies within the output limit.
  pub directional_velocity_feedforward-IsWithin :
      (velocity positive negative limit : F) {effort : F}
      → directional_velocity_feedforward velocity positive negative limit ≡ ok effort
      → IsWithin limit effort
  unfolding directional_velocity_feedforward
  directional_velocity_feedforward-IsWithin velocity positive negative limit {effort} h = ground (
    arith,
    nonneg_of_tests limit,
    fl.mul_number positive velocity,
    fl.mul_number negative velocity,
    clip-IsWithin (positive ⊗ velocity) limit,
    clip-IsWithin (negative ⊗ velocity) limit,
  )

  -- A command that the slew limit returns lies between the previous command less the largest change
  -- and the previous command plus the largest change: the rate limit times the timestep, rounded.
  pub slew_rate_limit_bounds :
      (previous requested dt rate : F) {command : F}
      → slew_rate_limit previous requested dt rate ≡ ok command
      → (le (previous ⊕ fl.neg (rate ⊗ dt)) command ≡ true)
        × (le command (previous ⊕ rate ⊗ dt) ≡ true)
  unfolding slew_rate_limit
  slew_rate_limit_bounds previous requested dt rate {command} h =
      let change = clip (requested ⊖ previous) (fl.neg (rate ⊗ dt)) (rate ⊗ dt) in
      ground (
        arith,
        nonneg_of_tests rate,
        positive_of_tests dt,
        fl.mul_nonneg rate dt,
        fl.sub_number requested previous,
        clip-IsWithin (requested ⊖ previous) (rate ⊗ dt),
        fl.add_le previous (fl.neg (rate ⊗ dt)) change,
        fl.add_le previous change (rate ⊗ dt),
      )
