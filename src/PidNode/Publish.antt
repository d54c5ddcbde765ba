-- ===== src/PidNode/Publish.antt =====
-- The command and the status that a tick publishes.
use robot_core.Prelude.{ℕ, String, Bool, true, false, List, [], ◌++◌, map}
use robot_core.Floats.{Floats, lit, clip, zero_float, one_float, ◌⊗◌, ◌⊘◌}
use robot_core.Control.Mixing.{zeros}
use robot_core.PidNode.{InputStatus}

pub record ThrusterCommand (F : Type 0) : Type 0 where
  pub stamp_ns : ℕ
  pub action : List F
  pub enable : Bool
  pub source : String

pub record PidStatus (F : Type 0) : Type 0 where
  pub ready : Bool
  pub producing_command : Bool
  pub missing_inputs : List String
  pub body_state_age_s : F
  pub imu_age_s : F
  pub target_age_s : F
  pub allocation_residual : F
  pub saturation_fraction : F

pub record Published (F : Type 0) : Type 0 where
  pub command : ThrusterCommand F
  pub status : PidStatus F

module _ {F : Type 0} ⦃fl : Floats F⦄ where
  abbrev pub neutral : List F
  neutral = zeros ++ zeros

  unfoldable pub publish_disabled : ℕ → List String → InputStatus F → Published F
  publish_disabled now_ns missing inputs = record {
    command = record {
      stamp_ns = now_ns;
      action = neutral;
      enable = false;
      source = "pid_controller";
    };
    status = record {
      ready = false;
      producing_command = false;
      missing_inputs = missing;
      body_state_age_s = inputs.body_age;
      imu_age_s = inputs.imu_age;
      target_age_s = inputs.target_age;
      allocation_residual = fl.inf;
      saturation_fraction = zero_float;
    };
  }

  -- `np.clip(value * PID_EFFORT_PWM_SPAN_US / ACTION_PWM_SPAN_US, -1.0, 1.0)`
  unfoldable pub action_of : List F → List F
  action_of = map (λ x. clip (x ⊗ lit 500 0 ⊘ lit 250 0) (fl.neg one_float) one_float)

  unfoldable pub publish_command : ℕ → List F → F → InputStatus F → Published F
  unfolding action_of
  publish_command now_ns commands saturation inputs = record {
    command = record {
      stamp_ns = now_ns;
      action = action_of commands;
      enable = true;
      source = "pid_controller";
    };
    status = record {
      ready = true;
      producing_command = true;
      missing_inputs = [];
      body_state_age_s = inputs.body_age;
      imu_age_s = inputs.imu_age;
      target_age_s = inputs.target_age;
      allocation_residual = zero_float;
      saturation_fraction = saturation;
    };
  }
