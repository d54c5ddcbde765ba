-- ===== src/Control/Level/Integral.antt =====
-- The shared integral effort of the roll and pitch cascade stays within its limit and does not wind up.
use robot_core.Prelude.{◌≡◌, true, false, ◌⊎◌, inl, inr, List, ℕ, arith, ap}
use robot_core.Prelude.Results.{ok, Result-cases}
use robot_core.Floats.{Floats, le, lt, lit, clip, zero_float, ◌⊕◌, ◌⊗◌}
use robot_core.Floats.Order.{IsWithin, clip-IsWithin, nonneg_of_tests, positive_of_tests}
use robot_core.Control.{vec}
use robot_core.Control.Level.{conditional_axis_integral_effort, peak_with}

module _ {F : Type 0} ⦃fl : Floats F⦄ where
  vec-eq : (values : List F) (n : ℕ) {answer : List F} → vec values n ≡ ok answer → answer ≡ values
  unfolding vec
  vec-eq values n h = ground arith

  moved_number :
      (current gain error dt : F)
      → fl.is_finite current ≡ true
      → fl.is_finite gain ≡ true
      → fl.is_finite error ≡ true
      → fl.is_finite dt ≡ true
      → le dt zero_float ≡ false
      → le (current ⊕ gain ⊗ error ⊗ dt) (current ⊕ gain ⊗ error ⊗ dt) ≡ true
  moved_number current gain error dt fc fg fe fd h = fl.add_number current (gain ⊗ error ⊗ dt) fc (
      fl.mul_positive_number (gain ⊗ error) dt (fl.mul_number gain error fg fe) fd
        (positive_of_tests dt fd h).0)

  -- An integral effort that is returned lies within the effort limit. With it the combined demand on
  -- the two axes is not above the combined limit, or not above what it was with the present effort,
  -- by more than 1e-12.
  pub conditional_axis_integral_effort-IsWithin :
      (present error gain dt limit : F) (base : List F) (axis : ℕ) (combined : F) {effort : F}
      → conditional_axis_integral_effort present error gain dt limit base axis combined ≡ ok effort
      → IsWithin limit effort
        × ((lt (combined ⊕ lit 1 12) (peak_with base axis effort) ≡ false)
            ⊎ (lt
                  (peak_with base axis (clip present (fl.neg limit) limit) ⊕ lit 1 12)
                  (peak_with base axis effort)
                ≡ false))
  unfolding conditional_axis_integral_effort
  conditional_axis_integral_effort-IsWithin present error gain dt limit base axis combined {effort}
        h =
      elim (Result-cases (vec base 2)) [
        | inl bad ↦ ground arith
        | inr (base', e) ↦
            let same : base' ≡ base = vec-eq base 2 e in
            let current = clip present (fl.neg limit) limit in
            let proposed = clip (current ⊕ gain ⊗ error ⊗ dt) (fl.neg limit) limit in
            (
              ground (
                arith,
                nonneg_of_tests limit,
                fl.finite_le present,
                clip-IsWithin present limit,
                fl.neg_finite limit,
                fl.between_finite (fl.neg limit) current limit,
                moved_number current gain error dt,
                clip-IsWithin (current ⊕ gain ⊗ error ⊗ dt) limit,
              ),
              ground (
                arith,
                ap (λ xs. peak_with xs axis current) same,
                ap (λ xs. peak_with xs axis proposed) same,
                fl.add_nonneg (peak_with base axis current) (lit 1 12) (fl.lit_nonneg 1 12),
              ),
            )
      ]
