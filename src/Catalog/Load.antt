-- ===== src/Catalog/Load.antt =====
-- `TaskCatalog.__init__`, `task` and `summaries` of task_catalog.py.
pub mod Valid
pub mod Lookup
mod Tests
use robot_core.Prelude.{
  is_empty, String, Bool, true, false, not, ◌&&◌, ◌||◌, List, [], ◌∷◌, map, str_eq, if◌then◌else◌,
  concat, Option, none, some,
}
use robot_core.Prelude.Results.{
  Result, ok, err, Error, value_error, type_error, key_error, ◌>>=◌, ◌>>◌, raise_if, or_raise,
}
use robot_core.Floats.{Floats, lt, le, zero_float}
use robot_core.Python.{
  Value, list_value, dict_value, str_value, get, as_dict, as_bool, as_str, one_of,
}
use robot_core.Python
use robot_core.Python.Texts.{strip}
use robot_core.Catalog.{
  Task, Field, Scenario, control_modes, trajectory_fields, find, insert, exact_keys, key_text,
  identifier, finite_number, equals_one, get_default, require_bool, require_text, scenario_fields,
  text_of, has_field,
}

abbrev pub task_keys : List String
task_keys = "label" ∷ "scenario" ∷ "control_mode" ∷ "duration_s" ∷ "run_until_stopped" ∷ []

module _ {F : Type 0} ⦃fl : Floats F⦄ where
  -- One pass of the loop over the scenarios.
  pub validate_scenario : Value F → Value F → Result (String × Scenario F)
  validate_scenario raw_name raw_scenario = do
    text ← key_text raw_name
    name ← identifier text "scenario id"
    let label = concat ("scenario " ∷ name ∷ [])
    raw ← or_raise (as_dict raw_scenario) (value_error (concat (label ∷ " must be a mapping" ∷ [])))
    exact_keys raw trajectory_fields label
    raise_if (is_empty raw) (concat (label ∷ " must not be empty" ∷ []))
    fields ← scenario_fields name raw
    raise_if (not (has_field "trajectory_type" fields) || not (has_field "attitude_mode" fields))
        (concat (label ∷ " must declare trajectory_type and attitude_mode" ∷ []))
    ok (name, fields)

  pub validate_scenarios :
      List (Value F × Value F) → List (String × Scenario F) → Result (List (String × Scenario F))
  validate_scenarios [] validated = ok validated
  validate_scenarios ((raw_name, raw) ∷ rest) validated = do
    named ← validate_scenario raw_name raw
    validate_scenarios rest (insert named.0 named.1 validated)

  -- A control mode is looked up in a set, so a list or a dict is a `TypeError`.
  require_mode : Value F → String → Result String
  require_mode (str_value mode) task_id =
      if one_of mode control_modes
      then ok mode
      else err (value_error (concat ("task " ∷ task_id ∷ " has unsupported control_mode" ∷ [])))
  require_mode (list_value l) task_id = err type_error
  require_mode (dict_value d) task_id = err type_error
  require_mode _ task_id =
      err (value_error (concat ("task " ∷ task_id ∷ " has unsupported control_mode" ∷ [])))

  require_label : Value F → String → Result String
  require_label (str_value label) task_id =
      if str_eq (strip label) ""
      then err (value_error (concat ("task " ∷ task_id ∷ ".label must be a non-empty string" ∷ [])))
      else ok label
  require_label _ task_id =
      err (value_error (concat ("task " ∷ task_id ∷ ".label must be a non-empty string" ∷ [])))

  abbrev lookup_text : Value F → List (String × Scenario F) → Option (String × Scenario F)
  lookup_text (str_value s) scenarios = elim (find s scenarios) [
    | none ↦ none
    | some trajectory ↦ some (s, trajectory)
  ]
  lookup_text _ scenarios = none

  -- One pass of the loop over the tasks.
  pub resolve_task :
      List (String × Scenario F) → Value F → Value F → Value F → Value F → Result (String × Task F)
  unfolding require_mode require_label
  resolve_task scenarios duration_default run_default raw_id raw_task = do
    text ← key_text raw_id
    task_id ← identifier text "task id"
    let label_of = λ (end : String). concat ("task " ∷ task_id ∷ end ∷ [])
    raw ← or_raise (as_dict raw_task) (value_error (label_of " must be a mapping"))
    exact_keys raw task_keys (label_of "")
    label ← require_label (get "label" raw) task_id
    chosen ←
        or_raise (lookup_text (get "scenario" raw) scenarios)
          (value_error (label_of " references an unknown scenario"))
    mode ← require_mode (get "control_mode" raw) task_id
    let kind = text_of "trajectory_type" chosen.1
    raise_if (str_eq mode "altitude_hold" && not (str_eq kind "hold"))
        (label_of " altitude_hold requires a hold scenario")
    duration ←
        finite_number (get_default "duration_s" raw duration_default) (label_of ".duration_s")
    raise_if (le duration zero_float) (label_of ".duration_s must be positive")
    run_until_stopped ←
        require_bool (get_default "run_until_stopped" raw run_default)
          (label_of ".run_until_stopped")
    ok (
      task_id,
      record {
        name = task_id;
        label = strip label;
        scenario = chosen.0;
        trajectory_name = if str_eq kind "hold" then "none" else chosen.0;
        control_mode = mode;
        controller = if str_eq mode "rl_policy" then "rl" else "pid";
        duration_s = duration;
        run_until_stopped = run_until_stopped;
        trajectory = chosen.1;
      },
    )

  pub resolve_tasks :
      List (String × Scenario F)
      → Value F
      → Value F
      → List (Value F × Value F)
      → List (String × Task F)
      → Result (List (String × Task F))
  resolve_tasks scenarios duration_default run_default [] resolved = ok resolved
  resolve_tasks scenarios duration_default run_default ((raw_id, raw) ∷ rest) resolved = do
    named ← resolve_task scenarios duration_default run_default raw_id raw
    resolve_tasks scenarios duration_default run_default rest (insert named.0 named.1 resolved)

  non_empty_mapping : Value F → String → Result (List (Value F × Value F))
  non_empty_mapping v message = do
    d ← or_raise (as_dict v) (value_error message)
    raise_if (is_empty d) message
    ok d

  -- The checks on the document's own fields: the scenarios, the tasks and the defaults.
  pub document_parts :
      List (Value F × Value F)
      → Result (List (Value F × Value F) × List (Value F × Value F) × F × Bool)
  unfolding non_empty_mapping
  document_parts document = do
    exact_keys document ("schema_version" ∷ "defaults" ∷ "scenarios" ∷ "tasks" ∷ [])
        "tracking task catalog"
    raise_if (not (equals_one (get "schema_version" document)))
        "tracking task catalog schema_version must be 1"
    defaults ←
        or_raise (as_dict (get "defaults" document))
          (value_error "tracking task defaults must be a mapping")
    scenarios ←
        non_empty_mapping (get "scenarios" document)
          "tracking task scenarios must be a non-empty mapping"
    tasks ← non_empty_mapping (get "tasks" document) "tracking tasks must be a non-empty mapping"
    exact_keys defaults ("duration_s" ∷ "run_until_stopped" ∷ []) "task defaults"
    duration_default ← finite_number (get "duration_s" defaults) "defaults.duration_s"
    raise_if (le duration_default zero_float) "defaults.duration_s must be positive"
    run_default ← require_bool (get "run_until_stopped" defaults) "defaults.run_until_stopped"
    ok (scenarios, tasks, duration_default, run_default)

  -- `TaskCatalog(path)`, from the document that `_load_mapping` returns.
  pub load : List (Value F × Value F) → Result (List (String × Task F))
  load document = do
    parts ← document_parts document
    scenarios ← validate_scenarios parts.0 []
    resolve_tasks scenarios (Python.float_value parts.2) (Python.bool_value parts.3) parts.1 []

-- `TaskCatalog.task`
pub task : {F : Type 0} → List (String × Task F) → String → Result (Task F)
task tasks task_id = do
  name ← identifier task_id "task id"
  or_raise (find name tasks) (key_error (concat ("unknown managed tracking task: " ∷ name ∷ [])))

-- `TaskCatalog.summaries`: ids with labels, in the document's order.
pub summaries : {F : Type 0} → List (String × Task F) → List (String × String)
summaries tasks = map (λ named. (named.0, named.1.label)) tasks
