-- ===== src/Control/Mixing.antt =====
-- The setpoints and thruster mixes of control_math.py.
pub mod Bounds
pub mod Setpoints
use robot_core.Prelude.{
  ℕ, Bool, true, false, not, ◌&&◌, ◌||◌, List, [], ◌∷◌, ◌++◌, map, take, if◌then◌else◌,
}
use robot_core.Prelude.Results.{Result, ok, err, value_error, ◌>>=◌, ◌>>◌, raise_if}
use robot_core.Floats.{Floats, ◌⊕◌, ◌⊖◌, ◌⊗◌, ◌⊘◌, lt, le, lit, clip, zero_float, one_float}
use robot_core.Floats.Vectors.{
  all_finite, any, is_negative, add_vectors, mul_vectors, scale, clip_each, clip_all, np_max,
  np_min, is_close,
}
use robot_core.Control.{vec}

module _ {F : Type 0} ⦃fl : Floats F⦄ where
  unfoldable pub altitude_velocity_setpoint : F → F → F → F → Result F
  altitude_velocity_setpoint target_height actual_height target_vertical_velocity position_kp =
      if not
        (all_finite (target_height ∷ actual_height ∷ target_vertical_velocity ∷ position_kp ∷ []))
      then err (value_error "altitude-loop inputs must be finite")
      else ok (target_vertical_velocity ⊕ position_kp ⊗ (target_height ⊖ actual_height))

  unfoldable pub station_velocity_setpoints :
      List F → List F → List F → F → F → (center_approach : Bool) → Result (List F)
  station_velocity_setpoints target_velocity error_body position_kp surge_limit sway_limit
        approach =
      do
        target ← vec target_velocity 2
        error ← vec error_body 2
        gains ← vec position_kp 2
        limits ← vec (surge_limit ∷ sway_limit ∷ []) 2
        raise_if (any is_negative gains || any is_negative limits)
            "station position gains and speed limits must be non-negative"
        let requested = add_vectors target (mul_vectors gains error)
        ok (if approach then requested else clip_each requested limits)

  -- `math.isclose(sign, 0.0, abs_tol=1e-12)`
  abbrev pub is_near_zero : F → Bool
  is_near_zero sign = is_close (lit 1 9) (lit 1 12) sign zero_float

  -- The vertical channels carry the first four of eight commands.
  abbrev pub zeros : List F
  zeros = zero_float ∷ zero_float ∷ zero_float ∷ zero_float ∷ []

  unfoldable pub altitude_collective_pwm_commands : F → F → F → Result (List F)
  altitude_collective_pwm_commands pid_output command_limit command_sign = do
    raise_if (not (all_finite (pid_output ∷ command_limit ∷ command_sign ∷ [])))
        "altitude PWM inputs must be finite"
    raise_if (is_near_zero command_sign) "altitude PWM command sign must be non-zero"
    let limit = fl.abs command_limit
    let common = clip (fl.copysign one_float command_sign ⊗ pid_output) (fl.neg limit) limit
    ok ((common ∷ common ∷ common ∷ common ∷ []) ++ zeros)

  -- `k * np.asarray(pattern)`
  abbrev pub weighted : F → List F → List F
  weighted k = map (λ x. k ⊗ x)

  abbrev minus_one : F
  minus_one = fl.neg one_float

  abbrev pub attitude_pattern : F → F → List F
  attitude_pattern roll pitch =
      add_vectors (weighted roll (one_float ∷ one_float ∷ minus_one ∷ minus_one ∷ []))
        (weighted pitch (one_float ∷ minus_one ∷ one_float ∷ minus_one ∷ []))

  -- `if peak > limit and peak > 0.0: values *= limit / peak`
  abbrev pub scale_to : F → F → List F → List F
  scale_to limit peak values =
      if lt limit peak && lt zero_float peak then scale (limit ⊘ peak) values else values

  unfoldable pub altitude_level_pwm_commands : F → F → F → F → F → Result (List F)
  altitude_level_pwm_commands altitude_output roll_output pitch_output command_limit sign = do
    raise_if
        (not
          (all_finite (altitude_output ∷ roll_output ∷ pitch_output ∷ command_limit ∷ sign ∷ [])))
        "altitude-level PWM inputs must be finite"
    raise_if (is_near_zero sign) "altitude PWM command sign must be non-zero"
    let limit = fl.abs command_limit
    let requested_attitude = attitude_pattern roll_output pitch_output
    attitude_peak ← np_max (map fl.abs requested_attitude)
    let attitude = scale_to limit attitude_peak requested_attitude
    let requested_collective = fl.copysign one_float sign ⊗ altitude_output
    lowest ← np_min attitude
    highest ← np_max attitude
    let collective = clip requested_collective (fl.neg limit ⊖ lowest) (limit ⊖ highest)
    ok (clip_all (map (λ x. collective ⊕ x) attitude) limit ++ zeros)

  abbrev pub sway_pattern : F → List F
  sway_pattern sway =
      if le zero_float sway
      then weighted sway (minus_one ∷ zero_float ∷ fl.neg (lit 893 3) ∷ lit 608 3 ∷ [])
      else weighted (fl.neg sway) (zero_float ∷ minus_one ∷ lit 608 3 ∷ fl.neg (lit 893 3) ∷ [])

  abbrev pub yaw_pattern : F → List F
  yaw_pattern yaw =
      if le zero_float yaw
      then weighted yaw (one_float ∷ fl.neg (lit 998 3) ∷ fl.neg (lit 355 3) ∷ lit 722 3 ∷ [])
      else weighted (fl.neg yaw)
          (fl.neg (lit 998 3) ∷ one_float ∷ lit 722 3 ∷ fl.neg (lit 355 3) ∷ [])

  pub station_horizontal_pwm_mix : F → F → F → F → Result (List F × F)
  station_horizontal_pwm_mix surge_output sway_output yaw_output command_limit = do
    raise_if (not (all_finite (surge_output ∷ sway_output ∷ yaw_output ∷ command_limit ∷ [])))
        "station horizontal PWM inputs must be finite"
    let limit = fl.abs command_limit
    let surge = clip surge_output (fl.neg limit) limit
    let sway = clip sway_output (fl.neg limit) limit
    let yaw = clip yaw_output (fl.neg limit) limit
    let forward = weighted surge (minus_one ∷ minus_one ∷ one_float ∷ one_float ∷ [])
    let upper = add_vectors (add_vectors forward (sway_pattern sway)) (yaw_pattern yaw)
    peak ← np_max (map fl.abs upper)
    ok (
      scale_to limit peak upper,
      if lt limit peak && lt zero_float peak then limit ⊘ peak else one_float,
    )

  pub altitude_station_pwm_commands : F → F → F → F → F → F → F → F → Result (List F)
  altitude_station_pwm_commands altitude surge sway yaw command_limit sign roll_effort
        pitch_effort =
      do
        commands ← altitude_level_pwm_commands altitude roll_effort pitch_effort command_limit sign
        (horizontal, _) ← station_horizontal_pwm_mix surge sway yaw command_limit
        ok (take 4 commands ++ horizontal)
