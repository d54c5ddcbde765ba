-- ===== src/PidNode/Horizontal/Kept.antt =====
-- The planar loops leave the inputs and the selection of the node alone.
use robot_core.Prelude.{◌≡◌, inl, inr, arith}
use robot_core.Prelude.Results.{ok, Result-cases}
use robot_core.Floats.{Floats}
use robot_core.PidNode.{PidConfig, PidNode, IsKept}
use robot_core.PidNode.Horizontal.{
  Frame, HorizontalEfforts, Motion, AxisSteps, axis_setpoints, prepare_yaw, step_axes, keep_axes,
  run_axes, roll_back,
}

module _ {F : Type 0} ⦃fl : Floats F⦄ where
  pub prepare_yaw-IsKept :
      (config : PidConfig F) (frame : Frame F) (motion : Motion F) (s s' : PidNode F)
      → prepare_yaw config frame motion s ≡ ok s'
      → IsKept s s'
  unfolding prepare_yaw IsKept
  prepare_yaw-IsKept config frame motion s s' h = ground arith

  keep_axes-IsKept :
      (motion : Motion F) (steps : AxisSteps F) (s : PidNode F)
      → IsKept s (keep_axes motion steps s)
  unfolding keep_axes roll_back IsKept
  keep_axes-IsKept motion steps s = ground arith

  pub run_axes-IsKept :
      (config : PidConfig F) (frame : Frame F) (motion : Motion F) (s s' : PidNode F)
      (efforts : HorizontalEfforts F)
      → run_axes config frame motion s ≡ ok (s', efforts)
      → IsKept s s'
  unfolding run_axes IsKept
  run_axes-IsKept config frame motion s s' efforts h =
      elim (Result-cases (axis_setpoints config frame motion)) [
        | inl bad ↦ ground arith
        | inr (setpoints, e) ↦ elim (Result-cases (prepare_yaw config frame motion s)) [
          | inl bad ↦ ground arith
          | inr (prepared, e2) ↦
              elim (Result-cases (step_axes config frame motion setpoints prepared)) [
                | inl bad ↦ ground arith
                | inr (steps, e3) ↦ ground (
                  arith,
                  prepare_yaw-IsKept config frame motion s prepared e2,
                  keep_axes-IsKept motion steps prepared,
                )
              ]
        ]
      ]
