-- ===== src/HostManager/Dispatch/Tests.antt =====
-- A restart request, and the theorems at concrete inputs.
use robot_core.Prelude.{String, ◌≡◌, refl, Bool, false, List, [], ◌∷◌, All}
use robot_core.Prelude.Results.{ok}
use robot_core.Floats.Model.{Num, num_floats}
use robot_core.Python.{Value, str_value, get, has_key, one_of}
use robot_core.Catalog.{find}
use robot_core.HostManager.Edit.{Disk, no_fault, unreadable}
use robot_core.HostManager.Dispatch.{
  Command, ends_with, service_name, lifecycle, request_text, handle, commands_answer, show_result,
  journal,
}
use robot_core.HostManager.Dispatch.Allowed.{IsPermitted, handle-IsPermitted}

abbrev services : List (String × Value Num)
services = ("runtime", str_value "robotcore-runtime.service") ∷ []

abbrev request : List (Value Num × Value Num)
request =
    (str_value "action", str_value "restart") ∷ (str_value "service", str_value "runtime") ∷ []

abbrev disk : Disk Num
disk = record { map_file = unreadable; has_temporary = false }

abbrev never_ok : Command → Bool
never_ok command = false

restart-runs : handle never_ok false no_fault services request disk ≡ (
  ("systemctl" ∷ "restart" ∷ "robotcore-runtime.service" ∷ [])
      ∷ show_result "robotcore-runtime.service"
      ∷ journal "robotcore-runtime.service" "12"
      ∷ [],
  disk,
  ok commands_answer,
)
unfolding handle lifecycle service_name ends_with request_text get has_key find one_of
restart-runs = refl

handle-IsPermitted_example :
    All
      (IsPermitted services (request_text "action" request))
      (handle never_ok false no_fault services request disk).0
handle-IsPermitted_example = handle-IsPermitted never_ok false no_fault services request disk
