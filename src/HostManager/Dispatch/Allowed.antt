-- ===== src/HostManager/Dispatch/Allowed.antt =====
-- What a request can make the host do.
use robot_core.Prelude.{
  String, ◌≡◌, ◌⊎◌, inl, inr, refl, Bool, true, some, List, [], ◌∷◌, All, arith, Bool-cases,
}
use robot_core.Prelude.Results.{ok, Result-cases}
use robot_core.Floats.{Floats}
use robot_core.Python.{Value, str_value, one_of}
use robot_core.Catalog.{find}
use robot_core.HostManager.Edit.{Disk, Fault}
use robot_core.HostManager.Dispatch.{
  Command, lifecycle_actions, ends_with, service_name, sorted_roles, show_unit, show_result,
  journal, service_status, logs, lifecycle, request_text, handle,
}

module _ {F : Type 0} where
  -- The service that the configuration has under a role; its unit is a service.
  abbrev pub IsManaged : List (String × Value F) → String → Type 0
  IsManaged services name =
      (role : String) × (find role services ≡ some (str_value name))
      × (ends_with ".service" name ≡ true)

  -- A command that only reads, on a managed service.
  abbrev pub IsReading : List (String × Value F) → Command → Type 0
  IsReading services command =
      (name : String) × IsManaged services name
      × ((command ≡ show_unit name)
          ⊎ (command ≡ show_result name)
          ⊎ ((lines : String) × (command ≡ journal name lines)))

  -- A lifecycle command, on a managed service.
  abbrev pub IsLifecycle : List (String × Value F) → String → Command → Type 0
  IsLifecycle services action command =
      (name : String) × IsManaged services name
      × (one_of action lifecycle_actions ≡ true)
      × (command ≡ "systemctl" ∷ action ∷ name ∷ [])

  service_name-IsManaged :
      (services : List (String × Value F)) (role : String) {name : String}
      → service_name services role ≡ ok name
      → IsManaged services name
  unfolding service_name
  service_name-IsManaged services role h = (role, ground arith, ground arith)

  -- The commands that a request for an action may run.
  abbrev pub IsPermitted : List (String × Value F) → String → Command → Type 0
  IsPermitted services action command =
      IsReading services command ⊎ IsLifecycle services action command

  service_status-IsPermitted :
      (services : List (String × Value F)) (action : String) (roles : List String)
      → All (IsPermitted services action) (service_status services roles).0
  unfolding service_status
  service_status-IsPermitted services action [] = tt
  service_status-IsPermitted services action (role ∷ roles) =
      elim (Result-cases (service_name services role)) [
        | inl (e, invalid) ↦ rw (invalid, All) tt
        | inr (name, valid) ↦
            rw (valid, All)
              (
                inl (name, service_name-IsManaged services role valid, inl refl),
                service_status-IsPermitted services action roles,
              )
      ]

  logs-IsPermitted :
      (services : List (String × Value F)) (action role : String)
      → All (IsPermitted services action) (logs services role).0
  unfolding logs
  logs-IsPermitted services action role = elim (Result-cases (service_name services role)) [
    | inl (e, invalid) ↦ rw (invalid, All) tt
    | inr (name, valid) ↦
        rw (valid, All)
          (inl (name, service_name-IsManaged services role valid, inr (inr ("120", refl))), tt)
  ]

  lifecycle-IsPermitted :
      (run_ok : Command → Bool) (services : List (String × Value F)) (action role : String)
      → All (IsPermitted services action) (lifecycle run_ok services action role).0
  unfolding lifecycle
  lifecycle-IsPermitted run_ok services action role =
      elim (Bool-cases (one_of action lifecycle_actions)) [
        | inr other ↦ rw other tt
        | inl known ↦ elim (Result-cases (service_name services role)) [
          | inl (e, invalid) ↦ rw (known, invalid) tt
          | inr (name, valid) ↦
              let managed = service_name-IsManaged services role valid in
              elim (Bool-cases (run_ok ("systemctl" ∷ action ∷ name ∷ []))) [
                | inl fine ↦
                    rw (known, valid, fine)
                      (inr (name, managed, known, refl), (inl (name, managed, inr (inl refl)), tt))
                | inr failed ↦
                    rw (known, valid, failed)
                      (
                        inr (name, managed, known, refl),
                        (
                          inl (name, managed, inr (inl refl)),
                          (inl (name, managed, inr (inr ("12", refl))), tt),
                        ),
                      )
              ]
        ]
      ]

module _ {F : Type 0} ⦃fl : Floats F⦄ where
  -- Whatever a request says, every command that it runs either reads the state or the journal of a
  -- unit that the configuration manages, or starts, stops or restarts such a unit, as the request's
  -- action says.
  pub handle-IsPermitted :
      (run_ok : Command → Bool) (web_edit_enabled : Bool) (fault : Fault)
      (services : List (String × Value F)) (request : List (Value F × Value F)) (disk : Disk F)
      → All
          (IsPermitted services (request_text "action" request))
          (handle run_ok web_edit_enabled fault services request disk).0
  unfolding handle
  handle-IsPermitted run_ok web_edit_enabled fault services request disk =
      let action = request_text "action" request in
      let role = request_text "service" request in
      ground (
        arith,
        service_status-IsPermitted services action (sorted_roles services),
        logs-IsPermitted services action role,
        lifecycle-IsPermitted run_ok services action role,
      )
