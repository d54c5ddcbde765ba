-- ===== src/Catalog/Load/Tests.antt =====
-- Loading of concrete documents, and the theorems at them.
use robot_core.Prelude.{String, ◌≡◌, refl, false, List, [], ◌∷◌, All}
use robot_core.Prelude.Int.{pos}
use robot_core.Prelude.Results.{ok}
use robot_core.Floats.{lit}
use robot_core.Floats.Model.{Num, num_floats}
use robot_core.Python.{
  Value, bool_value, int_value, float_value, str_value, dict_value, Entries, end, entry, get,
}
use robot_core.Catalog.{Task, Scenario, text_field, number_field}
use robot_core.Python.{has_key, one_of}
use robot_core.Python.Decimal.{show_ℤ}
use robot_core.Python.Texts.{strip, all_of, is_word, is_word_start}
use robot_core.Catalog.{
  key_text, exact_keys, has_unknown, has_texts, identifier, require_bool, finite_number,
  get_default, scenario_fields, scenario_field, find, insert, text_of, has_field,
}
use robot_core.Catalog.Load.{
  load, task, summaries, document_parts, non_empty_mapping, validate_scenarios, validate_scenario,
  resolve_tasks, resolve_task, require_mode, require_label,
}
use robot_core.Catalog.Load.Valid.{IsStored, load-IsValid}
use robot_core.Catalog.Load.Lookup.{load-summaries}

abbrev hold_fields : Entries Num
hold_fields = entry (str_value "trajectory_type") (str_value "hold") (
    entry (str_value "attitude_mode") (str_value "hold_initial")
      (entry (str_value "center_z") (int_value (pos 1)) end))

abbrev hold_task : Value Num → Entries Num
hold_task label = entry (str_value "label") label (
    entry (str_value "scenario") (str_value "pool_hold")
      (entry (str_value "control_mode") (str_value "altitude_hold") end))

abbrev document_with : Entries Num → List (Value Num × Value Num)
document_with tasks =
    (str_value "schema_version", int_value (pos 1))
    ∷ (
      str_value "defaults",
      dict_value (
          entry (str_value "duration_s") (float_value (lit 60 0))
            (entry (str_value "run_until_stopped") (bool_value false) end)),
    )
    ∷ (
      str_value "scenarios",
      dict_value (entry (str_value "pool_hold") (dict_value hold_fields) end),
    )
    ∷ (str_value "tasks", dict_value tasks)
    ∷ []

abbrev document : List (Value Num × Value Num)
document =
    document_with (entry (str_value "hold_1") (dict_value (hold_task (str_value " Hold "))) end)

abbrev hold_scenario : Scenario Num
hold_scenario =
    ("trajectory_type", text_field "hold")
    ∷ ("attitude_mode", text_field "hold_initial")
    ∷ ("center_z", number_field (lit 1 0))
    ∷ []

abbrev hold_named : String → String → Task Num
hold_named id label = record {
  name = id;
  label = label;
  scenario = "pool_hold";
  trajectory_name = "none";
  control_mode = "altitude_hold";
  controller = "pid";
  duration_s = lit 60 0;
  run_until_stopped = false;
  trajectory = hold_scenario;
}

abbrev tasks : List (String × Task Num)
tasks = ("hold_1", hold_named "hold_1" "Hold") ∷ []

load-document : load document ≡ ok tasks
unfolding load document_parts non_empty_mapping validate_scenarios validate_scenario resolve_tasks
    resolve_task key_text exact_keys has_unknown has_texts identifier all_of is_word is_word_start
    require_bool finite_number get get_default has_key one_of scenario_fields scenario_field find
    insert text_of has_field strip show_ℤ require_mode require_label
load-document = refl

-- The keys 5 and "5" are different YAML keys and one task id: the second task replaces the first.
load_merges_ids :
    load (
      document_with (
        entry
          (int_value (pos 5))
          (dict_value (hold_task (str_value "one")))
          (entry (str_value "5") (dict_value (hold_task (str_value "two"))) end)))
    ≡ ok (("5", hold_named "5" "two") ∷ [])
unfolding load document_parts non_empty_mapping validate_scenarios validate_scenario resolve_tasks
    resolve_task key_text exact_keys has_unknown has_texts identifier all_of is_word is_word_start
    require_bool finite_number get get_default has_key one_of scenario_fields scenario_field find
    insert text_of has_field strip show_ℤ require_mode require_label
load_merges_ids = refl

load-IsValid_example : All IsStored tasks
load-IsValid_example = load-IsValid document load-document

load-summaries_example :
    All
      (λ listed. (t : Task Num) × (task tasks listed.0 ≡ ok t) × (t.label ≡ listed.1))
      (summaries tasks)
load-summaries_example = load-summaries document load-document
