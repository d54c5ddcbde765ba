-- ===== src/PidNode/Configuration/Valid.antt =====
-- What a configuration that is approved satisfies.
use mathlib.Core.Path.{subst}
use robot_core.Prelude.Int.{ℤ, pos, negsuc, ◌≤ℤ◌}
use robot_core.Prelude.{
  ◌≡◌, length, refl, inl, inr, ℕ, true, false, List, [], ◌∷◌, ◌++◌, All, All-append, zero, suc,
  take, some, arith,
}
use robot_core.Prelude.Results.{ok, Result-cases}
use robot_core.Floats.{Floats, le, lit, zero_float}
use robot_core.Floats.Order.{nonneg_of_tests}
use robot_core.Floats.Vectors.{any, all, all_finite, is_negative, is_close}
use robot_core.Control.{vec}
use robot_core.PidNode.{PidConfig, PidNode}
use robot_core.PidNode.Publish.{Published}
use robot_core.PidNode.Tick.{tick}
use robot_core.PidNode.Tick.Safe.{IsDisabled, IsReady, tick-IsSafe}
use robot_core.PidNode.Configuration.{
  Parameters, altitude_values, station_values, level_values, imu_values, is_refused, is_nonneg,
  is_history, accepted, rejected, are_rates_refused, are_filters_refused, read_parameters,
  load_configuration,
}

-- A finite number that is not negative.
pub IsNonneg : {F : Type 0} ⦃fl : Floats F⦄ → F → Type 0
IsNonneg ⦃fl⦄ x = (fl.is_finite x ≡ true) × (le zero_float x ≡ true)

-- The gains, limits and time constants of a configuration.
pub settings : {F : Type 0} → PidConfig F → List F
settings config =
    (config.altitude_gains.kp ∷ config.altitude_gains.ki ∷ config.altitude_gains.kd
      ∷ config.altitude_gains.integral_limit ∷ config.altitude_velocity_filter_time_constant_s ∷ [])
    ++ ((config.station_surge_gains.kp ∷ config.station_surge_gains.ki
          ∷ config.station_surge_gains.kd ∷ config.station_surge_gains.integral_limit
          ∷ config.station_sway_gains.kp ∷ config.fast_station_sway_gains.kp
          ∷ config.fast_station_sway_pwm_feedforward_positive_gain
          ∷ config.fast_station_sway_pwm_feedforward_negative_gain
          ∷ config.fast_station_sway_effort_slew_rate_per_s ∷ config.station_sway_gains.ki
          ∷ config.station_sway_gains.kd ∷ config.station_sway_gains.integral_limit
          ∷ config.station_yaw_gains.kp ∷ config.station_yaw_gains.ki
          ∷ config.station_yaw_gains.integral_limit ∷ config.station_yaw_heading_kp
          ∷ config.station_horizontal_axis_limit ∷ config.station_yaw_axis_limit
          ∷ config.station_surge_rate_limit ∷ config.fast_station_surge_rate_limit
          ∷ config.fast_station_sway_rate_limit ∷ config.fast_station_lateral_yaw_axis_limit
          ∷ config.fast_station_sway_yaw_compensation_gain
          ∷ config.fast_station_lateral_yaw_effort_slew_rate_per_s ∷ config.station_yaw_rate_limit
          ∷ config.fast_station_level_pwm_limit ∷ [])
        ++ ((config.fast_station_level_angle_to_rate_kp
              ++ (config.fast_station_level_rate_kp
                  ++ (config.fast_station_pitch_rate_ki
                      ∷ config.fast_station_pitch_rate_integral_effort_limit
                      ∷ config.fast_station_surge_pitch_forward_gain
                      ∷ config.fast_station_surge_pitch_reverse_gain
                      ∷ config.fast_station_surge_pitch_limit ∷ [])))
            ++ ((config.imu_rate_outlier_limit_rps ∷ config.imu_rate_prediction_horizon_s
                  ∷ config.imu_rate_prediction_accel_limit_rps2
                  ∷ config.imu_rate_prediction_delta_limit_rps
                  ∷ config.imu_rate_filter_time_constant_s ∷ [])
                ++ ((config.altitude_position_kp ∷ config.station_sway_rate_limit
                      ∷ config.imu_orientation_filter_time_constant_s
                      ∷ config.altitude_gains.derivative_cutoff_hz
                      ∷ config.station_surge_gains.derivative_cutoff_hz
                      ∷ config.station_sway_gains.derivative_cutoff_hz
                      ∷ config.fast_station_sway_gains.derivative_cutoff_hz
                      ∷ config.station_yaw_gains.derivative_cutoff_hz ∷ [])
                    ++ (config.station_position_kp ++ config.fast_station_level_rate_limit_rps)))))

-- Every setting is finite and not negative, and the position gains and the level rate limits are two each.
pub IsValid : {F : Type 0} ⦃fl : Floats F⦄ → PidConfig F → Type 0
IsValid config =
    All IsNonneg (settings config)
    × (length config.station_position_kp ≡ 2)
    × (length config.fast_station_level_rate_limit_rps ≡ 2)

-- The parameters are approved: the flag is set, the sign of the height command is not zero, the rate
-- history is to have 3 to 15 samples and the configuration is valid.
pub IsApproved : {F : Type 0} ⦃fl : Floats F⦄ → Parameters F → Type 0
IsApproved p =
    (p.configuration_ready ≡ true)
    × (is_close (lit 1 9) (lit 1 12) (p.float_of "altitude_pwm_command_sign") zero_float ≡ false)
    × (pos 3 ≤ℤ p.imu_rate_history_samples)
    × (p.imu_rate_history_samples ≤ℤ pos 15)
    × IsValid (load_configuration p)

is_history-bounds : (n : ℤ) → is_history n ≡ true → (pos 3 ≤ℤ n) × (n ≤ℤ pos 15)
unfolding is_history
is_history-bounds (pos n) h = (ground arith, ground arith)
is_history-bounds (negsuc n) h = ground arith

module _ {F : Type 0} ⦃fl : Floats F⦄ where
  tests-IsNonneg :
      (xs : List F) → all_finite xs ≡ true → any is_negative xs ≡ false → All IsNonneg xs
  unfolding IsNonneg
  tests-IsNonneg [] h k = tt
  tests-IsNonneg (x ∷ xs) h k = (
    (ground arith, nonneg_of_tests x (ground arith) (ground arith)),
    tests-IsNonneg xs (ground arith) (ground arith),
  )

  take_finite : (n : ℕ) (xs : List F) → all_finite xs ≡ true → all_finite (take n xs) ≡ true
  take_finite zero xs h = refl
  take_finite (suc n) [] h = refl
  take_finite (suc n) (x ∷ xs) h = ground (arith, take_finite n xs)

  all-IsNonneg : (xs : List F) → all is_nonneg xs ≡ true → All IsNonneg xs
  unfolding IsNonneg is_nonneg
  all-IsNonneg [] h = tt
  all-IsNonneg (x ∷ xs) h = ((ground arith, ground arith), all-IsNonneg xs (ground arith))

  refused-IsNonneg : (x : F) → is_refused x ≡ false → IsNonneg x
  unfolding IsNonneg is_refused
  refused-IsNonneg x h = (ground arith, nonneg_of_tests x (ground arith) (ground arith))

  -- The tests that a document of parameters passed when it is accepted.
  accepted-IsNonneg :
      (p : Parameters F) (position rate : List F)
      → all_finite (altitude_values p) ≡ true
      → any is_negative (take 5 (altitude_values p)) ≡ false
      → all_finite (station_values p) ≡ true
      → any is_negative (station_values p) ≡ false
      → all is_nonneg (level_values p) ≡ true
      → all is_nonneg (imu_values p) ≡ true
      → is_refused (p.float_of "altitude_position_kp") ≡ false
      → is_refused (p.float_of "station_sway_rate_limit") ≡ false
      → is_refused (p.float_of "imu_orientation_filter_time_constant_s") ≡ false
      → is_refused (p.float_of "derivative_cutoff_hz") ≡ false
      → All IsNonneg position
      → All IsNonneg rate
      → All IsNonneg (settings (accepted p position rate))
  unfolding settings accepted altitude_values station_values level_values imu_values
  accepted-IsNonneg p position rate a b c d e f g h i j positions rates =
      let altitude =
        tests-IsNonneg (take 5 (altitude_values p)) (take_finite 5 (altitude_values p) a) b in
      let station = tests-IsNonneg (station_values p) c d in
      let level = all-IsNonneg (level_values p) e in
      let imu = all-IsNonneg (imu_values p) f in
      let cutoff = refused-IsNonneg (p.float_of "derivative_cutoff_hz") j in
      let last : List F =
        p.float_of "altitude_position_kp"
        ∷ p.float_of "station_sway_rate_limit"
        ∷ p.float_of "imu_orientation_filter_time_constant_s"
        ∷ p.float_of "derivative_cutoff_hz"
        ∷ p.float_of "derivative_cutoff_hz"
        ∷ p.float_of "derivative_cutoff_hz"
        ∷ p.float_of "derivative_cutoff_hz"
        ∷ p.float_of "derivative_cutoff_hz"
        ∷ [] in
      let others : All IsNonneg last = (
        refused-IsNonneg _ g,
        (
          refused-IsNonneg _ h,
          (refused-IsNonneg _ i, (cutoff, (cutoff, (cutoff, (cutoff, (cutoff, tt)))))),
        ),
      ) in
      let vectors = position ++ rate in
      let from_last =
        All-append IsNonneg last vectors others
          (All-append IsNonneg position rate positions rates) in
      let from_imu = All-append IsNonneg (imu_values p) (last ++ vectors) imu from_last in
      let from_level =
        All-append IsNonneg (level_values p) (imu_values p ++ (last ++ vectors)) level from_imu in
      let from_station =
        All-append IsNonneg (station_values p)
          (level_values p ++ (imu_values p ++ (last ++ vectors))) station from_level in
      All-append IsNonneg (take 5 (altitude_values p))
        (station_values p ++ (level_values p ++ (imu_values p ++ (last ++ vectors)))) altitude
        from_station

  rates-refused :
      (p : Parameters F) (position rate : List F)
      → are_rates_refused p position rate ≡ false
      → (any is_negative position ≡ false)
        × (is_refused (p.float_of "station_sway_rate_limit") ≡ false)
        × (any is_negative rate ≡ false)
        × (is_refused (p.float_of "derivative_cutoff_hz") ≡ false)
  unfolding are_rates_refused
  rates-refused p position rate h = (ground arith, ground arith, ground arith, ground arith)

  filters-refused :
      (p : Parameters F)
      → are_filters_refused p ≡ false
      → is_refused (p.float_of "imu_orientation_filter_time_constant_s") ≡ false
  unfolding are_filters_refused
  filters-refused p h = ground arith

  vec-finite :
      (xs : List F) (n : ℕ) {ys : List F}
      → vec xs n ≡ ok ys
      → (all_finite ys ≡ true) × (length ys ≡ n)
  unfolding vec
  vec-finite xs n {ys} h = ground arith

  -- Parameters that are read without an error passed each test.
  read_parameters-eq-ok :
      (p : Parameters F) (config : PidConfig F)
      → read_parameters p ≡ ok config
      → (position : List F) × (rate : List F) × (vec p.station_position_kp 2 ≡ ok position)
        × (vec p.fast_station_level_rate_limit_rps 2 ≡ ok rate)
        × (accepted p position rate ≡ config)
        × (are_rates_refused p position rate ≡ false)
        × (all_finite (altitude_values p) ≡ true)
        × (any is_negative (take 5 (altitude_values p)) ≡ false)
        × (is_close (lit 1 9) (lit 1 12) (p.float_of "altitude_pwm_command_sign") zero_float
            ≡ false)
        × (is_refused (p.float_of "altitude_position_kp") ≡ false)
        × (all_finite (station_values p) ≡ true)
        × (any is_negative (station_values p) ≡ false)
        × (all is_nonneg (level_values p) ≡ true)
        × (is_history p.imu_rate_history_samples ≡ true)
        × (all is_nonneg (imu_values p) ≡ true)
        × (are_filters_refused p ≡ false)
  unfolding read_parameters
  read_parameters-eq-ok p config h = elim (Result-cases (vec p.station_position_kp 2)) [
    | inl bad ↦ ground arith
    | inr (position, e1) ↦ elim (Result-cases (vec p.fast_station_level_rate_limit_rps 2)) [
      | inl bad ↦ ground arith
      | inr (rate, e2) ↦ (
        position,
        rate,
        e1,
        e2,
        ground arith,
        ground arith,
        ground arith,
        ground arith,
        ground arith,
        ground arith,
        ground arith,
        ground arith,
        ground arith,
        ground arith,
        ground arith,
        ground arith,
      )
    ]
  ]

  read_parameters-IsValid :
      (p : Parameters F) (config : PidConfig F)
      → read_parameters p ≡ ok config
      → IsValid config × (config.pid_configured ≡ p.configuration_ready)
  unfolding accepted IsValid
  read_parameters-IsValid p config h =
      let (position, rate, e1, e2, same, tested, a, b, _, g, c, d, e, _, f, filters) =
        read_parameters-eq-ok p config h in
      let (positions, h', rates, j) = rates-refused p position rate tested in
      let (finite, two) = vec-finite p.station_position_kp 2 e1 in
      let (finite', two') = vec-finite p.fast_station_level_rate_limit_rps 2 e2 in
      subst (λ x. IsValid x × (x.pid_configured ≡ p.configuration_ready)) same
        (
          (
            accepted-IsNonneg p position rate a b c d e f g h' (filters-refused p filters) j
                (tests-IsNonneg position finite positions) (tests-IsNonneg rate finite' rates),
            two,
            two',
          ),
          refl,
        )

  load_configuration-IsApproved :
      (p : Parameters F) → (load_configuration p).pid_configured ≡ true → IsApproved p
  unfolding load_configuration rejected IsApproved
  load_configuration-IsApproved p h = elim (Result-cases (read_parameters p)) [
    | inl (e, bad) ↦ ground arith
    | inr (config, e) ↦
        let same : config ≡ load_configuration p = ground arith in
        let (valid, configured) = read_parameters-IsValid p config e in
        let (_, _, _, _, _, _, _, _, signed, _, _, _, _, history, _, _) =
          read_parameters-eq-ok p config e in
        let (low, high) = is_history-bounds p.imu_rate_history_samples history in
        (ground arith, signed, low, high, subst IsValid same valid)
  ]

  -- A tick with the configuration of the declared parameters publishes an enabled command only when
  -- configuration_ready is set, every gain, limit, cutoff and time constant that is read is finite and
  -- not negative, the position gains and the level rate limits are two each, the sign of the height
  -- command is not zero and the rate history is declared with 3 to 15 samples.
  pub tick-load_configuration-IsApproved :
      (p : Parameters F) (now_ns : ℕ) (s s' : PidNode F) (published : Published F)
      → tick (load_configuration p) now_ns s ≡ ok (s', some published)
      → published.command.enable ≡ true
      → IsApproved p
  unfolding IsDisabled IsReady
  tick-load_configuration-IsApproved p now_ns s s' published h enabled =
      elim (tick-IsSafe (load_configuration p) now_ns s s' published h).1 [
        | inl (disabled, _, _) ↦ ground arith
        | inr (_, ready, _, _) ↦ load_configuration-IsApproved p ready.10
      ]
