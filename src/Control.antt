-- ===== src/Control.antt =====
-- ros_ws/src/robotcore_control/robotcore_control/control_math.py: the controllers' mathematics, with
-- the inputs it rejects. A vector is a list of floats, and a raised ValueError is an error of `Result`.
pub mod Mixing
pub mod Level
pub mod Filters
pub mod Rates
pub mod Pid
pub mod Quaternions
mod Tests
use robot_core.Prelude.{
  ℕ, ◌==◌, Bool, not, ◌&&◌, ◌||◌, List, [], ◌∷◌, length, concat, if◌then◌else◌,
}
use robot_core.Prelude.Int.{pos}
use robot_core.Prelude.Results.{Result, ok, err, value_error}
use robot_core.Floats.{Floats}
use robot_core.Python.Decimal.{show_ℤ}
use robot_core.Floats.Vectors.{all_finite}

module _ {F : Type 0} ⦃fl : Floats F⦄ where
  -- A vector of the given size with finite components.
  unfoldable pub vec : List F → ℕ → Result (List F)
  vec values size =
      if not (length values == size) || not (all_finite values)
      then err (value_error (concat ("expected " ∷ show_ℤ (pos size) ∷ " finite values" ∷ [])))
      else ok values
