-- ===== src/PidNode/Tick/Safe.antt =====
-- What a tick of the PID node may publish.
use mathlib.Core.Path.{subst}
use robot_core.Prelude.{
  ◌≡◌, ◌⊎◌, refl, inl, inr, ℕ, String, Bool, true, false, not, ◌&&◌, ◌||◌, Option, none, some, List,
  [], ◌∷◌, All, arith, is_empty, Bool-cases,
}
use robot_core.Prelude.Int.{pos}
use robot_core.Prelude.Results.{ok, Result-cases}
use robot_core.Floats.{Floats, lt, le, lit, zero_float, one_float, ◌⊗◌, ◌⊘◌}
use robot_core.Floats.Order.{IsBounded, clip-IsBounded}
use robot_core.Python.Texts.{eq_lowered}
use robot_core.Tracking.{BodyState}
use robot_core.Tracking.Rotation.{Quaternion}
use robot_core.Control.Quaternions.{normalize_quaternion}
use robot_core.Logger.Messages.{TargetMessage}
use robot_core.PidNode.{
  PidConfig, PidNode, InputStatus, input_status, input_checks, missing_names, body_checks,
  target_type, target_mode, target_is_valid, is_localized, is_compatible, is_none, is_normal, age,
}
use robot_core.PidNode.Publish.{Published, action_of, neutral, publish_command, publish_disabled}
use robot_core.PidNode.Tick.{
  drive, frame_of, enter_mode, run_hold, fraction, is_direct_altitude, tick, timestep,
}

-- A disabled command that stops the eight thrusters.
unfoldable pub IsDisabled : {F : Type 0} ⦃fl : Floats F⦄ → Published F → Type 0
IsDisabled p =
    (p.command.enable ≡ false) × (p.command.action ≡ neutral) × (p.status.producing_command ≡ false)

-- An enabled command whose every action lies between -1 and 1, or is a NaN.
pub IsEnabled : {F : Type 0} ⦃fl : Floats F⦄ → Published F → Type 0
IsEnabled p =
    (p.command.enable ≡ true)
    × All (IsBounded one_float) p.command.action
    × (p.status.missing_inputs ≡ [])

IsClear : Bool × String → Type 0
IsClear check = check.0 ≡ false

missing_names-IsClear :
    (checks : List (Bool × String)) → missing_names checks ≡ [] → All IsClear checks
unfolding missing_names IsClear
missing_names-IsClear [] h = tt
missing_names-IsClear ((true, name) ∷ checks) h = ground arith
missing_names-IsClear ((false, name) ∷ checks) h = (refl, missing_names-IsClear checks h)

is_empty-eq : (missing : List String) → is_empty missing ≡ true → missing ≡ []
is_empty-eq [] h = refl
is_empty-eq (name ∷ missing) h = ground arith

not-false : {b : Bool} → not b ≡ false → b ≡ true
not-false {b = true} h = refl
not-false {b = false} h = ground arith

are_none-or {ℓ κ} :
    {A : Type ℓ} {B : Type κ} (o : Option A) (r : Option B) {bad : Bool}
    → (is_none o || is_none r || bad) ≡ false
    → (a : A) × (b : B) × (o ≡ some a) × (r ≡ some b) × (bad ≡ false)
are_none-or none r h = ground arith
are_none-or (some a) none h = ground arith
are_none-or (some a) (some b) h = (a, b, refl, refl, h)

-- The inputs that an enabled command rests on: a body state, a target and a filtered attitude and rate
-- of the IMU that are there and no older than allowed, a body whose velocity and localization are valid
-- and whose quaternion has a norm, and a valid target with a type and a mode that fit.
unfoldable pub IsReady : {F : Type 0} ⦃fl : Floats F⦄ → PidConfig F → ℕ → PidNode F → Type 0
IsReady {F} config now_ns s =
    (body : BodyState F) × (target : TargetMessage F) × (attitude : Quaternion F) × (rate : List F)
    × (heading : Quaternion F) × (s.body ≡ some body)
    × (s.target ≡ some target)
    × (s.imu_orientation_filtered ≡ some attitude)
    × (s.imu_angular_velocity_filtered ≡ some rate)
    × (normalize_quaternion body.orientation ≡ ok heading)
    × (config.pid_configured ≡ true)
    × (lt config.max_input_age_s (age s.body_ns now_ns) ≡ false)
    × (lt config.max_input_age_s (age s.imu_ns now_ns) ≡ false)
    × (lt config.max_input_age_s (age s.target_ns now_ns) ≡ false)
    × (body.linear_velocity_valid ≡ true)
    × (is_localized body ≡ true)
    × (s.absolute_localization_seen ≡ true)
    × (target.valid ≡ true)
    × (is_compatible target.trajectory_type target.control_mode ≡ true)

module _ {F : Type 0} ⦃fl : Floats F⦄ where
  action_of-IsBounded : (xs : List F) → All (IsBounded one_float) (action_of xs)
  unfolding action_of
  action_of-IsBounded [] = tt
  action_of-IsBounded (x ∷ xs) = (
    clip-IsBounded (x ⊗ lit 500 0 ⊘ lit 250 0) one_float
        (fl.of_int_le (pos 0) (pos 1) (omega arith)),
    action_of-IsBounded xs,
  )

  publish_command-IsEnabled :
      (now_ns : ℕ) (commands : List F) (saturation : F) (inputs : InputStatus F)
      → IsEnabled (publish_command now_ns commands saturation inputs)
  unfolding publish_command IsEnabled
  publish_command-IsEnabled now_ns commands saturation inputs =
      (refl, action_of-IsBounded commands, refl)

  publish_disabled-IsDisabled :
      (now_ns : ℕ) (missing : List String) (inputs : InputStatus F)
      → IsDisabled (publish_disabled now_ns missing inputs)
  unfolding publish_disabled IsDisabled
  publish_disabled-IsDisabled now_ns missing inputs = (refl, refl, refl)

  -- An `ok` state that is published.
  pub drive_lem :
      (config : PidConfig F) (now_ns : ℕ) (dt : F) (inputs : InputStatus F) (body : BodyState F)
      (target : TargetMessage F) (s s' : PidNode F) (p : Published F)
      → drive config now_ns dt inputs body target s ≡ ok (s', p)
      → IsDisabled p ⊎ IsEnabled p
  unfolding drive
  drive_lem config now_ns dt inputs body target s s' p h =
      let entered = enter_mode target s in
      elim (Result-cases (frame_of dt body target s)) [
        | inl bad ↦ ground arith
        | inr ((frame, q), e) ↦ elim (Bool-cases (eq_lowered target.control_mode "idle")) [
          | inl idle ↦
              let same : publish_command now_ns neutral zero_float inputs ≡ p = ground arith in
              inr
                (subst IsEnabled same (publish_command-IsEnabled now_ns neutral zero_float inputs))
          | inr driven ↦ elim (Bool-cases (is_direct_altitude target)) [
            | inl direct ↦ elim (Result-cases (run_hold config frame q body target entered)) [
              | inl bad ↦ ground arith
              | inr ((held, commands, is_saturated), e2) ↦
                  let same : publish_command now_ns commands (fraction is_saturated) inputs ≡ p =
                    ground arith in
                  inr (
                    subst IsEnabled same
                      (publish_command-IsEnabled now_ns commands (fraction is_saturated) inputs))
            ]
            | inr other ↦
                let same : publish_disabled now_ns ("unsupported_control_mode" ∷ []) inputs ≡ p =
                  ground arith in
                inl (
                  subst IsDisabled same
                    (publish_disabled-IsDisabled now_ns ("unsupported_control_mode" ∷ []) inputs))
          ]
        ]
      ]

  normalized :
      (q : Quaternion F) → is_normal q ≡ true → (n : Quaternion F) × (normalize_quaternion q ≡ ok n)
  normalized q h = elim (Result-cases (normalize_quaternion q)) [
    | inl bad ↦ ground arith
    | inr found ↦ found
  ]

  input_checks-IsReady :
      (config : PidConfig F) (now_ns : ℕ) (s : PidNode F) (body : Option (BodyState F))
      (target : Option (TargetMessage F))
      → s.body ≡ body
      → s.target ≡ target
      → All IsClear (input_checks config s now_ns body target)
      → IsReady config now_ns s
  unfolding input_checks body_checks target_type target_mode target_is_valid IsReady IsClear
  input_checks-IsReady config now_ns s none target has_body has_target
        (_, (_, (_, (_, (bodied, _))))) =
      ground arith
  input_checks-IsReady config now_ns s (some body) none has_body has_target
        (_, (_, (_, (_, (_, (_, (targeted, _))))))) =
      ground arith
  input_checks-IsReady config now_ns s (some body) (some target) has_body has_target
        (
          configured,
          (
            _,
            (
              _,
              (
                compatible,
                (
                  body_fresh,
                  (sensed, (target_fresh, (moving, (localized, (seen, (normal, (valid, _))))))),
                ),
              ),
            ),
          ),
        ) =
      let (attitude, rate, has_attitude, has_rate, imu_fresh) =
        are_none-or s.imu_orientation_filtered s.imu_angular_velocity_filtered sensed in
      let (heading, has_heading) = normalized body.orientation (not-false normal) in
      (
        body,
        target,
        attitude,
        rate,
        heading,
        has_body,
        has_target,
        has_attitude,
        has_rate,
        has_heading,
        not-false configured,
        body_fresh,
        imu_fresh,
        target_fresh,
        not-false moving,
        not-false localized,
        not-false seen,
        not-false valid,
        not-false compatible,
      )

  input_status-IsReady :
      (config : PidConfig F) (now_ns : ℕ) (s : PidNode F)
      → (input_status config s now_ns).missing ≡ []
      → IsReady config now_ns s
  unfolding input_status
  input_status-IsReady config now_ns s h =
      input_checks-IsReady config now_ns s s.body s.target refl refl
        (missing_names-IsClear (input_checks config s now_ns s.body s.target) h)

  -- With the inputs ready and a usable timestep a tick publishes what `drive` does.
  tick-drive :
      (config : PidConfig F) (now_ns : ℕ) (s s' : PidNode F) (p : Published F)
      → tick config now_ns s ≡ ok (s', some p)
      → is_empty (input_status config s now_ns).missing ≡ true
      → (let dt = timestep config s.last_tick_ns now_ns in
          (le (lit 1 4) dt && le dt (lit 1 1)) ≡ true)
      → IsReady config now_ns s
      → IsDisabled p ⊎ IsEnabled p
  unfolding tick IsReady
  tick-drive config now_ns s s' p h whole timely
        (body, target, _, _, _, has_body, has_target, _, _, _, _, _, _, _, _, _, _, _, _) =
      let inputs = input_status config s now_ns in
      let dt = timestep config s.last_tick_ns now_ns in
      let fresh : PidNode F = record s { last_tick_ns = some now_ns } in
      elim (Result-cases (drive config now_ns dt inputs body target fresh)) [
        | inl bad ↦ ground arith
        | inr ((driven, published), e) ↦
            let same : published ≡ p = ground arith in
            subst (λ q. IsDisabled q ⊎ IsEnabled q) same
              (drive_lem config now_ns dt inputs body target fresh driven published e)
      ]

  -- Something is published only while the PID source is selected: a disabled command of eight zeros, or
  -- an enabled one. Each action of an enabled command lies between -1 and 1 or is a NaN, and there are
  -- an approved configuration, a body state, a target and a filtered attitude and rate of the IMU that
  -- are no older than allowed, with the body's velocity, localization and quaternion and the target
  -- valid and its type and mode compatible, and a timestep between 1e-4 and 0.1 seconds.
  pub tick-IsSafe :
      (config : PidConfig F) (now_ns : ℕ) (s s' : PidNode F) (p : Published F)
      → tick config now_ns s ≡ ok (s', some p)
      → (s.pid_selected ≡ true)
        × (IsDisabled p
            ⊎ (IsEnabled p
                × IsReady config now_ns s
                × (le (lit 1 4) (timestep config s.last_tick_ns now_ns) ≡ true)
                × (le (timestep config s.last_tick_ns now_ns) (lit 1 1) ≡ true)))
  unfolding tick
  tick-IsSafe config now_ns s s' p h =
      let inputs = input_status config s now_ns in
      let dt = timestep config s.last_tick_ns now_ns in
      let selected : s.pid_selected ≡ true = ground arith in
      (
        selected,
        elim (Bool-cases (is_empty inputs.missing)) [
          | inr missing ↦
              let same : publish_disabled now_ns inputs.missing inputs ≡ p = ground arith in
              inl (subst IsDisabled same (publish_disabled-IsDisabled now_ns inputs.missing inputs))
          | inl whole ↦ elim (Bool-cases (le (lit 1 4) dt && le dt (lit 1 1))) [
            | inr late ↦
                let same : publish_disabled now_ns ("control_dt_invalid" ∷ []) inputs ≡ p =
                  ground arith in
                inl (
                  subst IsDisabled same
                    (publish_disabled-IsDisabled now_ns ("control_dt_invalid" ∷ []) inputs))
            | inl timely ↦
                let ready =
                  input_status-IsReady config now_ns s (is_empty-eq inputs.missing whole) in
                let in_time : (le (lit 1 4) dt ≡ true) × (le dt (lit 1 1) ≡ true) = ground arith in
                elim (tick-drive config now_ns s s' p h whole timely ready) [
                  | inl disabled ↦ inl disabled
                  | inr enabled ↦ inr (enabled, ready, in_time.0, in_time.1)
                ]
          ]
        ],
      )
