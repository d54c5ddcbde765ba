-- ===== src/HostManager/Dispatch.antt =====
-- The requests of the host manager: the allowlist, the managed services, and the commands that a
-- request runs, in order. `run_ok` says whether a command returns zero. The reports on devices,
-- recordings and maintenance read the live system and have no content here.
pub mod Allowed
mod Tests
use robot_core.Prelude.{
  ℕ, String, Bool, true, false, not, ◌&&◌, ◌||◌, Option, none, some, List, [], ◌∷◌, ◌++◌, map, ltb,
  ◌==◌, str_eq, codes, if◌then◌else◌,
}
use robot_core.Prelude.Results.{Result, ok, err, Error, value_error, ◌>>=◌}
use robot_core.Floats.{Floats}
use robot_core.Python.{
  Value, none_value, bool_value, int_value, float_value, str_value, list_value, dict_value,
  other_value, get, has_key, one_of,
}
use robot_core.Python.Decimal.{show_ℤ}
use robot_core.Catalog.{find}
use robot_core.HostManager.Edit.{
  Document, Stored, Disk, Fault, Listed, Upserted, tag_map_document, tag_list, upsert_apriltag,
  delete_apriltag,
}

abbrev pub Command : Type 0
Command = List String

abbrev pub allowed_actions : List String
allowed_actions =
    "status" ∷ "devices" ∷ "rosbag-status" ∷ "logs" ∷ "start" ∷ "stop" ∷ "restart"
    ∷ "maintenance-status" ∷ "apriltag-map" ∷ "apriltag-upsert" ∷ "apriltag-delete" ∷ []

abbrev pub lifecycle_actions : List String
lifecycle_actions = "start" ∷ "stop" ∷ "restart" ∷ []

-- `s.endswith(suffix)`
pub ends_with : String → String → Bool
ends_with suffix String.[] = str_eq "" suffix
ends_with suffix (String.◌∷◌ c s) =
    let later = ends_with suffix s in str_eq (String.◌∷◌ c s) suffix || later

-- The order of texts by their code points.
before_codes : List ℕ → List ℕ → Bool
before_codes [] [] = false
before_codes [] (d ∷ ds) = true
before_codes (c ∷ cs) [] = false
before_codes (c ∷ cs) (d ∷ ds) = let later = before_codes cs ds in ltb c d || ((c == d) && later)

insert_role : String → List String → List String
unfolding before_codes
insert_role role [] = role ∷ []
insert_role role (r ∷ rs) =
    let later = insert_role role rs in
    if before_codes (codes r) (codes role) then r ∷ later else role ∷ r ∷ rs

module _ {F : Type 0} where
  pub service_name : List (String × Value F) → String → Result String
  service_name services requested = elim (find requested services) [
    | some (str_value name) ↦
        if ends_with ".service" name then ok name else err (value_error "unknown managed service")
    | _ ↦ err (value_error "unknown managed service")
  ]

  -- `sorted(self.services)`
  pub sorted_roles : List (String × Value F) → List String
  unfolding insert_role
  sorted_roles [] = []
  sorted_roles ((role, v) ∷ services) = insert_role role (sorted_roles services)

abbrev pub show_unit : String → Command
show_unit name =
    "systemctl" ∷ "show" ∷ name ∷ "--property=ActiveState,SubState,MainPID" ∷ "--no-page" ∷ []

abbrev pub show_result : String → Command
show_result name =
    "systemctl" ∷ "show" ∷ name ∷ "--property=LoadState,ActiveState,SubState,Result" ∷ "--no-page"
    ∷ []

abbrev pub journal : String → String → Command
journal name lines =
    "journalctl" ∷ "--unit" ∷ name ∷ "--lines" ∷ lines ∷ "--no-pager" ∷ "--output=short-iso" ∷ []

-- What a request is answered with.
pub data Answer (F : Type 0) : Type 0 where
  status_answer devices_answer rosbag_answer maintenance_answer commands_answer : Answer F
  map_answer : List (Listed F) → Answer F
  upsert_answer : Upserted F → List (Listed F) → Answer F
  delete_answer : ℕ → List (Listed F) → Answer F

module _ {F : Type 0} where
  -- Each service in turn; one that is not valid raises after the earlier ones were asked.
  pub service_status : List (String × Value F) → List String → List Command × Result (Answer F)
  service_status services [] = ([], ok status_answer)
  service_status services (role ∷ roles) =
      let (commands, answer) = service_status services roles in
      elim (service_name services role) [
        | err e ↦ ([], err e)
        | ok name ↦ (show_unit name ∷ commands, answer)
      ]

  pub logs : List (String × Value F) → String → List Command × Result (Answer F)
  logs services role = elim (service_name services role) [
    | err e ↦ ([], err e)
    | ok name ↦ (journal name "120" ∷ [], ok commands_answer)
  ]

  pub lifecycle :
      (Command → Bool)
      → List (String × Value F)
      → String
      → String
      → List Command × Result (Answer F)
  lifecycle run_ok services action role =
      if not (one_of action lifecycle_actions)
      then ([], err (value_error "unsupported lifecycle action"))
      else elim (service_name services role) [
        | err e ↦ ([], err e)
        | ok service ↦
            let act : Command = "systemctl" ∷ action ∷ service ∷ [] in
            (
              act ∷ show_result service ∷ (if run_ok act then [] else journal service "12" ∷ []),
              ok commands_answer,
            )
      ]

module _ {F : Type 0} ⦃fl : Floats F⦄ where
  -- `str(request.get(name, ""))`; the text of a list or an object names no action and no service.
  pub request_text : String → List (Value F × Value F) → String
  request_text name request = if not (has_key name request) then "" else elim (get name request) [
    | none_value ↦ "None"
    | bool_value b ↦ if b then "True" else "False"
    | int_value n ↦ show_ℤ n
    | float_value x ↦ fl.repr x
    | str_value s ↦ s
    | other_value s ↦ s
    | list_value l ↦ ""
    | dict_value d ↦ ""
  ]

  answer_of : {A : Type 0} → (A → Answer F) → Result A → Result (Answer F)
  answer_of f (ok a) = ok (f a)
  answer_of f (err e) = err e

  -- `HostManager.handle`: the commands run, the disk afterwards, and the answer.
  pub handle :
      (Command → Bool)
      → Bool
      → Fault
      → List (String × Value F)
      → List (Value F × Value F)
      → Disk F
      → List Command × Disk F × Result (Answer F)
  unfolding answer_of
  handle run_ok web_edit_enabled fault services request disk =
      let action = request_text "action" request in
      let role = request_text "service" request in
      if not (one_of action allowed_actions)
      then ([], disk, err (value_error "action is not permitted"))
      else if str_eq action "status"
      then (let (commands, answer) = service_status services (sorted_roles services) in
          (commands, disk, answer))
      else if str_eq action "devices"
      then ([], disk, ok devices_answer)
      else if str_eq action "rosbag-status"
      then ([], disk, ok rosbag_answer)
      else if str_eq action "maintenance-status"
      then ([], disk, ok maintenance_answer)
      else if str_eq action "apriltag-map"
      then (
        [],
        disk,
        answer_of map_answer (do document ← tag_map_document disk.map_file; tag_list document),
      )
      else if str_eq action "apriltag-upsert"
      then (let (disk', answer) =
            upsert_apriltag web_edit_enabled fault (get "tag" request)
              (get "replace_tag_id" request) disk in
          (
            [],
            disk',
            answer_of (λ (u : Upserted F × List (Listed F)). upsert_answer u.0 u.1) answer,
          ))
      else if str_eq action "apriltag-delete"
      then (let (disk', answer) =
            delete_apriltag web_edit_enabled fault (get "tag_id" request) disk in
          ([], disk', answer_of (λ (d : ℕ × List (Listed F)). delete_answer d.0 d.1) answer))
      else if str_eq action "logs"
      then (let (commands, answer) = logs services role in (commands, disk, answer))
      else (let (commands, answer) = lifecycle run_ok services action role in
          (commands, disk, answer))
