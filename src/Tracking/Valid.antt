-- ===== src/Tracking/Valid.antt =====
-- When the monitor publishes, and what a status that is valid stands on.
use mathlib.Core.Path.{subst}
use robot_core.Prelude.{
  sym, ℕ, ◌≡◌, ◌⊎◌, ◌↔◌, inl, inr, Bool, true, Option, none, some, List, [], ◌∷◌, arith,
  Option-cases,
}
use robot_core.Prelude.Int.{ℤ}
use robot_core.Prelude.Results.{ok, Result-cases, >>=-eq-ok}
use robot_core.Floats.{Floats}
use robot_core.Tracking.Rotation.{Vector3, Quaternion}
use robot_core.Tracking.{
  BodyState, Imu, Target, TrackingMonitor, TrackingStatus, no_inputs, on_body_state, imu_is_usable,
  on_imu, on_trajectory_target, is_recent, max_age, inputs_are_fresh, estimate_actual_acceleration,
  control_attitude, status_of, is_valid, sample, prepared, tick, Arrived, body_input, imu_input,
  target_input, tick_input, callback, run_callbacks,
}

module _ {F : Type 0} ⦃fl : Floats F⦄ where
  -- The IMU message that the state holds, if any, is usable.
  abbrev HoldsUsable : Option (Imu F) → Type 0
  HoldsUsable none = Unit
  HoldsUsable (some imu) = imu_is_usable imu ≡ true

  estimate-last_imu :
      (velocity : Vector3 F) (now_ns : ℕ) (s : TrackingMonitor F)
      → (estimate_actual_acceleration velocity now_ns s).last_imu ≡ s.last_imu
  unfolding estimate_actual_acceleration
  estimate-last_imu velocity now_ns s = ground arith

  tick-last_imu :
      (max_input_age_s : F) (now_ns : ℕ) (s : TrackingMonitor F)
      → (tick max_input_age_s now_ns s).0.last_imu ≡ s.last_imu
  unfolding tick sample estimate_actual_acceleration
  tick-last_imu max_input_age_s now_ns s = ground arith

  callback-HoldsUsable :
      (max_input_age_s : F) (i : Arrived F) (s : TrackingMonitor F)
      → HoldsUsable s.last_imu
      → HoldsUsable (callback max_input_age_s i s).last_imu
  unfolding callback on_body_state on_imu on_trajectory_target
  callback-HoldsUsable max_input_age_s (body_input m now_ns) s h = h
  callback-HoldsUsable max_input_age_s (imu_input m now_ns) s h = ground arith
  callback-HoldsUsable max_input_age_s (target_input m now_ns) s h = h
  callback-HoldsUsable max_input_age_s (tick_input now_ns) s h =
      subst HoldsUsable (sym (tick-last_imu max_input_age_s now_ns s)) h

  run_callbacks-HoldsUsable :
      (max_input_age_s : F) (is : List (Arrived F)) (s : TrackingMonitor F)
      → HoldsUsable s.last_imu
      → HoldsUsable (run_callbacks max_input_age_s is s).last_imu
  unfolding run_callbacks
  run_callbacks-HoldsUsable max_input_age_s [] s h = h
  run_callbacks-HoldsUsable max_input_age_s (i ∷ is) s h =
      run_callbacks-HoldsUsable max_input_age_s is (callback max_input_age_s i s)
        (callback-HoldsUsable max_input_age_s i s h)

  status_of-valid :
      (now_ns : ℕ) (valid : Bool) (body : BodyState F) (imu : Imu F) (target : Target F)
      (attitude : Quaternion F) (acceleration : Vector3 F) {status : TrackingStatus F}
      → status_of now_ns valid body imu target attitude acceleration ≡ ok status
      → status.valid ≡ valid
  unfolding status_of
  status_of-valid now_ns valid body imu target attitude acceleration h = ground arith

  -- Every input arrived no longer than the limit ago.
  abbrev pub IsFresh : F → ℕ → TrackingMonitor F → Type 0
  IsFresh max_input_age_s now_ns s =
      (limit : ℤ) × (max_age max_input_age_s ≡ ok limit)
      × (is_recent limit now_ns s.last_body_ns ≡ true)
      × (is_recent limit now_ns s.last_imu_ns ≡ true)
      × (is_recent limit now_ns s.last_target_ns ≡ true)

  prepared-IsFresh :
      (max_input_age_s : F) (now_ns : ℕ) (body : BodyState F) (imu : Imu F) (s : TrackingMonitor F)
      {fresh : Bool} {attitude : Quaternion F}
      → prepared max_input_age_s now_ns body imu s ≡ ok (fresh, attitude)
      → fresh ≡ true
      → IsFresh max_input_age_s now_ns s
  unfolding prepared inputs_are_fresh
  prepared-IsFresh max_input_age_s now_ns body imu s h k =
      let (fresh', is_fresh, rest) = >>=-eq-ok (inputs_are_fresh max_input_age_s now_ns s) _ h in
      let (limit, same, recent) = >>=-eq-ok (max_age max_input_age_s) _ is_fresh in
      let (_, _, made) = >>=-eq-ok (control_attitude imu body) _ rest in
      (limit, same, ground arith, ground arith, ground arith)

  is_valid-fresh :
      (fresh : Bool) (body : BodyState F) (target : Target F)
      → is_valid fresh body target ≡ true
      → fresh ≡ true
  unfolding is_valid
  is_valid-fresh fresh body target h = ground arith

  sample_valid :
      (max_input_age_s : F) (now_ns : ℕ) (body : BodyState F) (imu : Imu F) (target : Target F)
      (s : TrackingMonitor F) {status : TrackingStatus F}
      → (sample max_input_age_s now_ns body imu target s).1 ≡ ok (some status)
      → status.valid ≡ true
      → IsFresh max_input_age_s now_ns s × (is_valid true body target ≡ true)
  unfolding sample
  sample_valid max_input_age_s now_ns body imu target s h k =
      elim (Result-cases (prepared max_input_age_s now_ns body imu s)) [
        | inl (e, raised) ↦ ground arith
        | inr ((fresh, attitude), there) ↦
            let s' = estimate_actual_acceleration body.linear_velocity now_ns s in
            let made =
              status_of now_ns (is_valid fresh body target) body imu target attitude
                s'.filtered_acceleration_body in
            elim (Result-cases made) [
              | inl (e, raised) ↦ ground arith
              | inr (status', same) ↦
                  let valid =
                    status_of-valid now_ns (is_valid fresh body target) body imu target attitude
                      s'.filtered_acceleration_body same in
                  let fresh_true : fresh ≡ true = is_valid-fresh fresh body target (ground arith) in
                  (
                    prepared-IsFresh max_input_age_s now_ns body imu s there fresh_true,
                    ground arith,
                  )
            ]
      ]

  tick_valid_at :
      (max_input_age_s : F) (now_ns : ℕ) (s : TrackingMonitor F) {status : TrackingStatus F}
      → HoldsUsable s.last_imu
      → (tick max_input_age_s now_ns s).1 ≡ ok (some status)
      → status.valid ≡ true
      → (body : BodyState F) × (imu : Imu F) × (target : Target F) × (s.last_body ≡ some body)
        × (s.last_imu ≡ some imu)
        × (s.last_target ≡ some target)
        × IsFresh max_input_age_s now_ns s
        × (imu_is_usable imu ≡ true)
        × (is_valid true body target ≡ true)
  unfolding tick
  tick_valid_at max_input_age_s now_ns s {status} usable h k = elim (Option-cases s.last_body) [
    | inl missing ↦ ground arith
    | inr (body, has_body) ↦ elim (Option-cases s.last_imu) [
      | inl missing ↦ ground arith
      | inr (imu, has_imu) ↦ elim (Option-cases s.last_target) [
        | inl missing ↦ ground arith
        | inr (target, has_target) ↦
            let (fresh, valid) =
              sample_valid max_input_age_s now_ns body imu target s {status = status} (ground arith)
                k in
            (body, imu, target, has_body, has_imu, has_target, fresh, ground arith, valid)
      ]
    ]
  ]

  -- After any callbacks from start-up, a status that is published as valid stands on a body state, an
  -- IMU message and a target that were each received no longer than the limit ago; the IMU message
  -- has the frame base_link, a covariance that is not negative and a finite norm that is not zero;
  -- the body's pose is valid or estimated, its velocity is valid, and the target is valid.
  pub tick_valid :
      (max_input_age_s : F) (is : List (Arrived F)) (now_ns : ℕ) {status : TrackingStatus F}
      → (tick max_input_age_s now_ns (run_callbacks max_input_age_s is no_inputs)).1
        ≡ ok (some status)
      → status.valid ≡ true
      → let s = run_callbacks max_input_age_s is no_inputs in
        (body : BodyState F) × (imu : Imu F) × (target : Target F) × (s.last_body ≡ some body)
        × (s.last_imu ≡ some imu)
        × (s.last_target ≡ some target)
        × IsFresh max_input_age_s now_ns s
        × (imu_is_usable imu ≡ true)
        × (is_valid true body target ≡ true)
  tick_valid max_input_age_s is now_ns {status} h k =
      let s = run_callbacks max_input_age_s is no_inputs in
      tick_valid_at max_input_age_s now_ns s {status = status}
        (run_callbacks-HoldsUsable max_input_age_s is no_inputs tt) h k

  -- A tick publishes nothing, without raising, exactly when a body state, a usable IMU message or a
  -- target has not been received yet.
  pub tick_silent :
      (max_input_age_s : F) (now_ns : ℕ) (s : TrackingMonitor F)
      → ((tick max_input_age_s now_ns s).1 ≡ ok none)
        ↔ ((s.last_body ≡ none) ⊎ (s.last_imu ≡ none) ⊎ (s.last_target ≡ none))
  unfolding tick sample
  tick_silent max_input_age_s now_ns s = ground arith
