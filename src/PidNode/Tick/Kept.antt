-- ===== src/PidNode/Tick/Kept.antt =====
-- A tick leaves the selection and the connections of the node alone.
use robot_core.Prelude.{
  ◌≡◌, inl, inr, ℕ, Bool, false, List, arith, Option, none, some, Option-cases,
}
use robot_core.Prelude.Results.{ok, Result-cases}
use robot_core.Floats.{Floats, ◌⊗◌}
use robot_core.Python.Texts.{eq_lowered}
use robot_core.Control.Quaternions.{quaternion_apply}
use robot_core.Tracking.{BodyState}
use robot_core.Tracking.Rotation.{Quaternion}
use robot_core.Logger.Messages.{TargetMessage}
use robot_core.PidNode.{PidConfig, PidNode, InputStatus, input_status, IsKept, reset_controllers}
use robot_core.PidNode.Horizontal.{Frame, HorizontalEfforts, motion_of}
use robot_core.PidNode.Horizontal.Kept.{run_axes-IsKept}
use robot_core.PidNode.Vertical.{Levelling, vertical_speeds, run_altitude}
use robot_core.PidNode.Vertical.Kept.{run_level-IsKept, run_altitude-IsKept}
use robot_core.PidNode.Publish.{Published}
use robot_core.PidNode.Tick.{
  is_fast_station, enter_mode, hold_axes, hold_level, run_hold, frame_of, drive, timestep, tick,
}

module _ {F : Type 0} ⦃fl : Floats F⦄ where
  enter_mode-IsKept : (target : TargetMessage F) (s : PidNode F) → IsKept s (enter_mode target s)
  unfolding enter_mode reset_controllers IsKept
  enter_mode-IsKept target s = ground arith

  hold_axes-IsKept :
      (config : PidConfig F) (frame : Frame F) (target : TargetMessage F) (s s' : PidNode F)
      (axes : HorizontalEfforts F)
      → hold_axes config frame target s ≡ ok (s', axes)
      → IsKept s s'
  unfolding hold_axes IsKept
  hold_axes-IsKept config frame target s s' axes h = ground (
    arith,
    run_axes-IsKept config frame
        (motion_of config frame (is_fast_station target)
          (eq_lowered target.trajectory_phase "start_approach") s)
        s s' axes,
  )

  hold_level-IsKept :
      (config : PidConfig F) (frame : Frame F) (target : TargetMessage F)
      (axes : HorizontalEfforts F) (s s' : PidNode F) (level : Levelling F)
      → hold_level config frame target axes s ≡ ok (s', level)
      → IsKept s s'
  unfolding hold_level IsKept
  hold_level-IsKept config frame target axes s s' level h =
      ground (arith, run_level-IsKept config frame (axes.surge_effort ⊗ axes.mix_scale) s s' level)

  run_hold-IsKept :
      (config : PidConfig F) (frame : Frame F) (q : Quaternion F) (body : BodyState F)
      (target : TargetMessage F) (s s' : PidNode F) (commands : List F) (saturated : Bool)
      → run_hold config frame q body target s ≡ ok (s', commands, saturated)
      → IsKept s s'
  unfolding run_hold IsKept
  run_hold-IsKept config frame q body target s s' commands saturated h =
      elim (Result-cases (quaternion_apply q frame.actual_linear)) [
        | inl bad ↦ ground arith
        | inr (world, e) ↦
            elim (Result-cases (
              vertical_speeds config frame.dt world.z body.position.z target.position.z
                target.linear_velocity.z s)) [
                  | inl bad ↦ ground arith
                  | inr ((filtered, desired), e2) ↦
                      elim (Result-cases (hold_axes config frame target s)) [
                        | inl bad ↦ ground arith
                        | inr ((moved, axes), e3) ↦
                            elim (Result-cases (hold_level config frame target axes moved)) [
                              | inl bad ↦ ground arith
                              | inr ((levelled, level), e4) ↦
                                  elim (Result-cases (
                                    run_altitude config frame.dt filtered desired level.output_limit
                                      levelled)) [
                                        | inl bad ↦ ground arith
                                        | inr ((risen, effort), e5) ↦ ground (
                                          arith,
                                          hold_axes-IsKept config frame target s moved axes e3,
                                          hold_level-IsKept config frame target axes moved levelled
                                              level e4,
                                          run_altitude-IsKept config frame.dt filtered desired
                                              level.output_limit levelled risen effort e5,
                                        )
                                      ]
                            ]
                      ]
                ]
      ]

  drive-IsKept :
      (config : PidConfig F) (now_ns : ℕ) (dt : F) (inputs : InputStatus F) (body : BodyState F)
      (target : TargetMessage F) (s s' : PidNode F) (p : Published F)
      → drive config now_ns dt inputs body target s ≡ ok (s', p)
      → IsKept s s'
  unfolding drive IsKept reset_controllers
  drive-IsKept config now_ns dt inputs body target s s' p h =
      elim (Result-cases (frame_of dt body target s)) [
        | inl bad ↦ ground arith
        | inr ((frame, q), e) ↦
            elim (Result-cases (run_hold config frame q body target (enter_mode target s))) [
              | inl bad ↦ ground (arith, enter_mode-IsKept target s)
              | inr ((held, commands, saturated), e2) ↦ ground (
                arith,
                enter_mode-IsKept target s,
                run_hold-IsKept config frame q body target (enter_mode target s) held commands
                    saturated e2,
              )
            ]
      ]

  pub tick-IsKept :
      (config : PidConfig F) (now_ns : ℕ) (s s' : PidNode F) (p : Option (Published F))
      → tick config now_ns s ≡ ok (s', p)
      → IsKept s s'
  unfolding tick IsKept reset_controllers
  tick-IsKept config now_ns s s' p h = elim (Option-cases s.body) [
    | inl gone ↦ ground arith
    | inr (body, e) ↦ elim (Option-cases s.target) [
      | inl gone ↦ ground arith
      | inr (target, e2) ↦
          let inputs = input_status config s now_ns in
          let dt = timestep config s.last_tick_ns now_ns in
          let fresh : PidNode F = record s { last_tick_ns = some now_ns } in
          elim (Result-cases (drive config now_ns dt inputs body target fresh)) [
            | inl bad ↦ ground arith
            | inr ((driven, published), e3) ↦
                ground (
                  arith,
                  drive-IsKept config now_ns dt inputs body target fresh driven published e3,
                )
          ]
    ]
  ]

  pub tick-unselected :
      (config : PidConfig F) (now_ns : ℕ) (s : PidNode F)
      → s.pid_selected ≡ false
      → tick config now_ns s ≡ ok (s, none)
  unfolding tick
  tick-unselected config now_ns s h = rw h
