-- ===== src/Control/Mixing/Bounds.antt =====
-- The thruster commands and the planar setpoints lie within their limits.
use mathlib.Core.Path.{subst}
use robot_core.Prelude.{
  ◌≡◌, true, inl, inr, List, [], ◌∷◌, ◌++◌, map, All, All-append, arith, drop, ◌&&◌, ◌∙◌,
  Bool-cases, drop-append, length, length-map,
}
use robot_core.Prelude.Results.{ok, Result-cases}
use robot_core.Floats.{Floats, le, lt, zero_float, one_float, clip, ◌⊕◌, ◌⊖◌, ◌⊗◌}
use robot_core.Floats.Vectors.{clip_all, np_max, np_min}
use robot_core.Floats.Order.{IsBounded, clip-IsBounded, zero-IsWithin, abs_nonneg_of_finite}
use robot_core.Control.Mixing.{zeros, attitude_pattern, scale_to, altitude_level_pwm_commands}

module _ {F : Type 0} ⦃fl : Floats F⦄ where
  clip_all-IsBounded :
      (xs : List F) (limit : F)
      → le zero_float limit ≡ true
      → All (IsBounded limit) (clip_all xs limit)
  clip_all-IsBounded [] limit h = tt
  clip_all-IsBounded (x ∷ xs) limit h = (clip-IsBounded x limit h, clip_all-IsBounded xs limit h)

  zeros-IsBounded : (limit : F) → le zero_float limit ≡ true → All (IsBounded limit) zeros
  zeros-IsBounded limit h = let z = inr (zero-IsWithin limit h) in (z, (z, (z, (z, tt))))

  length-scale_to : (limit peak : F) (xs : List F) → length (scale_to limit peak xs) ≡ length xs
  length-scale_to limit peak xs = elim (Bool-cases (lt limit peak && lt zero_float peak)) [
    | inl over ↦ rw over (length-map _ xs)
    | inr fits ↦ rw fits
  ]

  length-mixed :
      (limit peak collective : F) (xs : List F)
      → length (clip_all (map (λ x. collective ⊕ x) (scale_to limit peak xs)) limit) ≡ length xs
  length-mixed limit peak collective xs =
      length-map _ (map (λ x. collective ⊕ x) (scale_to limit peak xs))
      ∙ length-map _ (scale_to limit peak xs)
      ∙ length-scale_to limit peak xs

  -- Each of the eight commands of the height and level mix lies within the command limit, unless it is
  -- a NaN, and the last four are zero.
  pub altitude_level_pwm_commands-IsBounded :
      (altitude roll pitch limit sign : F) {commands : List F}
      → altitude_level_pwm_commands altitude roll pitch limit sign ≡ ok commands
      → All (IsBounded (fl.abs limit)) commands × (drop 4 commands ≡ zeros)
  unfolding altitude_level_pwm_commands
  altitude_level_pwm_commands-IsBounded altitude roll pitch limit sign {commands} h =
      let top = fl.abs limit in
      let requested = attitude_pattern roll pitch in
      elim (Result-cases (np_max (map fl.abs requested))) [
        | inl bad ↦ ground arith
        | inr (peak, e1) ↦
            let attitude = scale_to top peak requested in
            elim (Result-cases (np_min attitude)) [
              | inl bad ↦ ground arith
              | inr (lowest, e2) ↦ elim (Result-cases (np_max attitude)) [
                | inl bad ↦ ground arith
                | inr (highest, e3) ↦
                    let collective =
                      clip (fl.copysign one_float sign ⊗ altitude) (fl.neg top ⊖ lowest)
                        (top ⊖ highest) in
                    let values = map (λ x. collective ⊕ x) attitude in
                    let e : (clip_all values top ++ zeros) ≡ commands = ground arith in
                    subst (λ xs. All (IsBounded top) xs × (drop 4 xs ≡ zeros)) e
                      (
                        All-append (IsBounded top) (clip_all values top) zeros
                            (clip_all-IsBounded values top
                              (abs_nonneg_of_finite limit (ground arith)))
                            (zeros-IsBounded top (abs_nonneg_of_finite limit (ground arith))),
                        drop-append 4 (clip_all values top) zeros
                            (length-mixed top peak collective requested),
                      )
              ]
            ]
      ]
