-- ===== src/Catalog.antt =====
-- ros_ws/src/robotcore_runtime/robotcore_runtime/task_catalog.py: the validated task presets.
-- Reading the file, YAML parsing and the SHA-256 digest are the caller's: a catalog is loaded from
-- the parsed document. Where a message ends in a sorted list of names, that list is left out.
pub mod Load
pub mod Recording
use robot_core.Prelude.{
  ℕ, String, Bool, true, false, not, ◌&&◌, ◌||◌, Option, none, some, List, [], ◌∷◌, ◌++◌, str_eq,
  leb, ltb, if◌then◌else◌, codes, concat, length,
}
use robot_core.Prelude.Int.{ℤ, pos}
use robot_core.Prelude.Results.{
  Result, ok, err, Error, value_error, type_error, key_error, overflow_error, ◌>>=◌, ◌>>◌, raise_if,
  or_raise,
}
use robot_core.Floats.{Floats, lt, le, of_int, lit, zero_float, one_float}
use robot_core.Python.{
  Value, none_value, bool_value, int_value, float_value, str_value, list_value, dict_value,
  other_value, get, has_key, as_dict, as_bool, as_str, one_of,
}
use robot_core.Python.Decimal.{show_ℤ}
use robot_core.Python.Texts.{strip, is_word_start, is_word, all_of}

abbrev pub control_modes : List String
control_modes = "altitude_hold" ∷ "station_hold" ∷ "station_hold_fast" ∷ "rl_policy" ∷ []

abbrev pub string_trajectory_fields : List String
string_trajectory_fields = "trajectory_type" ∷ "attitude_mode" ∷ []

abbrev pub bool_trajectory_fields : List String
bool_trajectory_fields = "relative_to_initial_pose" ∷ []

abbrev pub number_trajectory_fields : List String
number_trajectory_fields =
    "center_x" ∷ "center_y" ∷ "center_z" ∷ "hold_before_motion_s" ∷ "amp_x" ∷ "amp_y" ∷ "amp_z"
    ∷ "radius_m" ∷ "period_s" ∷ "trajectory_speed_mps" ∷ "trajectory_ramp_s" ∷ "move_duration_s"
    ∷ "manual_vertical_speed_mps" ∷ "station_linear_input_gain_mps"
    ∷ "station_lateral_input_gain_mps" ∷ "station_yaw_input_gain_rps" ∷ []

abbrev pub trajectory_fields : List String
trajectory_fields = string_trajectory_fields ++ (bool_trajectory_fields ++ number_trajectory_fields)

-- A validated trajectory parameter.
pub data Field (F : Type 0) : Type 0 where
  text_field : String → Field F
  flag_field : Bool → Field F
  number_field : F → Field F

abbrev pub Scenario : Type 0 → Type 0
Scenario F = List (String × Field F)

pub record Task (F : Type 0) : Type 0 where
  pub name : String
  pub label : String
  pub scenario : String
  pub trajectory_name : String
  pub control_mode : String
  pub controller : String
  pub duration_s : F
  pub run_until_stopped : Bool
  pub trajectory : Scenario F

-- A dict keyed by texts, in insertion order.
module _ {ℓ} {V : Type ℓ} where
  unfoldable pub find : String → List (String × V) → Option V
  find k [] = none
  find k ((j, v) ∷ d) = if str_eq j k then some v else find k d

  unfoldable pub insert : String → V → List (String × V) → List (String × V)
  insert k v [] = (k, v) ∷ []
  insert k v ((j, w) ∷ d) = if str_eq j k then (j, v) ∷ d else (j, w) ∷ insert k v d

-- `[a-z0-9][a-z0-9_-]{0,63}\Z`
pub matches_identifier : List ℕ → Bool
matches_identifier [] = false
matches_identifier (c ∷ cs) = is_word_start c && leb (length cs) 63 && all_of is_word cs

module _ {F : Type 0} ⦃fl : Floats F⦄ where
  -- Some key is not a text of `allowed`.
  pub has_unknown : List String → List (Value F × Value F) → Bool
  has_unknown allowed [] = false
  has_unknown allowed ((str_value k, v) ∷ d) = not (one_of k allowed) || has_unknown allowed d
  has_unknown allowed ((_, v) ∷ d) = true

  -- Every key is a text.
  pub has_texts : List (Value F × Value F) → Bool
  has_texts [] = true
  has_texts ((str_value k, v) ∷ d) = has_texts d
  has_texts ((_, v) ∷ d) = false

  -- The keys named in the message are sorted and joined, which raises where one of them is no text.
  pub exact_keys : List (Value F × Value F) → List String → String → Result (Unit {0})
  exact_keys d allowed label =
      if has_texts d
      then raise_if (has_unknown allowed d) (concat (label ∷ " contains unknown keys" ∷ []))
      else err type_error

  -- `str(value)` of a dict's key; lists and dicts are not hashable.
  pub key_text : Value F → Result String
  key_text none_value = ok "None"
  key_text (bool_value true) = ok "True"
  key_text (bool_value false) = ok "False"
  key_text (int_value n) = ok (show_ℤ n)
  key_text (float_value x) = ok (fl.repr x)
  key_text (str_value s) = ok s
  key_text (other_value s) = ok s
  key_text _ = err type_error

-- `_identifier`, after `str(value)`.
pub identifier : String → String → Result String
unfolding matches_identifier
identifier text label =
    if matches_identifier (codes text)
    then ok text
    else err (value_error (concat (label ∷ " must match [a-z0-9][a-z0-9_-]{0,63}\\Z" ∷ [])))

module _ {F : Type 0} ⦃fl : Floats F⦄ where
  -- `float(n)` of an int raises where the nearest double is infinite.
  pub finite_number : Value F → String → Result F
  finite_number (int_value n) label =
      if fl.is_finite (of_int n) then ok (of_int n) else err overflow_error
  finite_number (float_value x) label =
      if fl.is_finite x then ok x else err (value_error (concat (label ∷ " must be finite" ∷ [])))
  finite_number _ label = err (value_error (concat (label ∷ " must be a number" ∷ [])))

  -- `value == 1`
  abbrev pub equals_one : Value F → Bool
  equals_one (bool_value b) = b
  equals_one (int_value (pos n)) = leb n 1 && leb 1 n
  equals_one (float_value x) = le x one_float && le one_float x
  equals_one _ = false

  -- `d.get(name, default)`
  pub get_default : String → List (Value F × Value F) → Value F → Value F
  get_default name d default = if has_key name d then get name d else default

  pub require_bool : Value F → String → Result Bool
  require_bool v label =
      or_raise (as_bool v) (value_error (concat (label ∷ " must be a boolean" ∷ [])))

  pub require_text : Value F → String → Result String
  require_text (str_value s) label =
      if str_eq s ""
      then err (value_error (concat (label ∷ " must be a non-empty string" ∷ [])))
      else ok s
  require_text _ label = err (value_error (concat (label ∷ " must be a non-empty string" ∷ [])))

  -- One pass of the loop over a scenario's items. After `exact_keys` every key is a text.
  scenario_field : String → Value F → Value F → Result (String × Field F)
  unfolding require_bool require_text
  scenario_field name (str_value key) v =
      let label : String = concat ("scenario " ∷ name ∷ "." ∷ key ∷ []) in
      if one_of key string_trajectory_fields
      then (do s ← require_text v label; ok (key, text_field s))
      else if one_of key bool_trajectory_fields
      then (do b ← require_bool v label; ok (key, flag_field b))
      else do x ← finite_number v label; ok (key, number_field x)
  scenario_field name _ v = err type_error

  pub scenario_fields : String → List (Value F × Value F) → Result (Scenario F)
  unfolding scenario_field
  scenario_fields name [] = ok []
  scenario_fields name ((k, v) ∷ rest) = do
    field ← scenario_field name k v
    fields ← scenario_fields name rest
    ok (field ∷ fields)

module _ {F : Type 0} where
  -- The text of a field, `str(trajectory[name])`.
  unfoldable pub text_of : String → Scenario F → String
  text_of name fields = elim (find name fields) [ some (text_field s) ↦ s | _ ↦ "" ]

  -- `name in scenario`
  pub has_field : String → Scenario F → Bool
  has_field name fields = elim (find name fields) [ none ↦ false | some _ ↦ true ]
