-- ===== src/PidNode/Vertical/Kept.antt =====
-- The height loop and the level cascade leave the inputs and the selection of the node alone.
use robot_core.Prelude.{◌≡◌, arith}
use robot_core.Prelude.Results.{ok}
use robot_core.Floats.{Floats}
use robot_core.PidNode.{PidConfig, PidNode, IsKept}
use robot_core.PidNode.Horizontal.{Frame}
use robot_core.PidNode.Vertical.{Levelling, run_level, run_altitude}

module _ {F : Type 0} ⦃fl : Floats F⦄ where
  pub run_level-IsKept :
      (config : PidConfig F) (frame : Frame F) (applied : F) (s s' : PidNode F)
      (level : Levelling F)
      → run_level config frame applied s ≡ ok (s', level)
      → IsKept s s'
  unfolding run_level IsKept
  run_level-IsKept config frame applied s s' level h = ground arith

  pub run_altitude-IsKept :
      (config : PidConfig F) (dt filtered desired limit : F) (s s' : PidNode F) (effort : F)
      → run_altitude config dt filtered desired limit s ≡ ok (s', effort)
      → IsKept s s'
  unfolding run_altitude IsKept
  run_altitude-IsKept config dt filtered desired limit s s' effort h = ground arith
