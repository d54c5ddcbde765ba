-- ===== src/PidNode/Events/Tests.antt =====
-- A selection that ends, and the theorem at it.
use robot_core.Prelude.{◌≡◌, String, refl, List, [], ◌∷◌}
use robot_core.Prelude.Results.{ok}
use robot_core.Floats.{clip, one_float}
use robot_core.Floats.Vectors.{is_close}
use robot_core.Floats.Model.{Num, num_floats}
use robot_core.Python.Texts.{eq_lowered, strip}
use robot_core.Control.Pid.{reset}
use robot_core.PidNode.{
  PidNode, AuthorityStatus, reset_controllers, on_authority_status, select, limit_pwm,
  disconnect_pid_inputs, on_body,
}
use robot_core.PidNode.Tick.Tests.{config, afloat}
use robot_core.PidNode.Events.{Callback, authority, body, initial, callback, run}
use robot_core.PidNode.Events.Connected.{IsConnected, run-initial-IsConnected}

abbrev selected_by : String → AuthorityStatus Num
selected_by source = record { selected_source = source; action_limit = one_float }

abbrev calls : List (Callback Num)
calls =
    body 1 afloat
    ∷ authority (selected_by " PID ")
    ∷ body 2 afloat
    ∷ authority (selected_by "manual")
    ∷ []

abbrev heard : PidNode Num
heard = on_body afloat 2 (on_authority_status (selected_by " PID ") (initial one_float))

abbrev released : PidNode Num
released = on_authority_status (selected_by "manual") heard

releases : run config calls (initial one_float) ≡ ok (released, [])
unfolding run callback on_authority_status select limit_pwm disconnect_pid_inputs reset_controllers
    on_body initial eq_lowered strip reset clip is_close
releases = refl

run-initial-IsConnected_example : IsConnected released
run-initial-IsConnected_example =
    run-initial-IsConnected config one_float calls released [] releases
