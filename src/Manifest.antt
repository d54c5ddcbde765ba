-- ===== src/Manifest.antt =====
-- ros_ws/src/robotcore_policy/robotcore_policy/policy_manifest.py: `load_policy_manifest` from the
-- parsed document. The path's own checks and the search for the model file are the caller's; `str_of`
-- is Python's `str`.
pub mod Valid
use robot_core.Prelude.{
  String, Bool, true, false, not, ◌&&◌, ◌||◌, Option, none, some, List, [], ◌∷◌, is_empty, str_eq,
  concat, if◌then◌else◌,
}
use robot_core.Prelude.Results.{
  Result, ok, err, Error, value_error, ◌>>=◌, ◌>>◌, raise_if, or_raise,
}
use robot_core.Python.{Value, dict_value, str_value, get, has_key, as_dict, as_list}
use robot_core.Python.Texts.{strip}

pub record PolicyManifest (F : Type 0) : Type 0 where
  pub name : String
  pub role : String
  pub runner : String
  pub model_path : String
  pub input_schema : List String
  pub output_schema : List (Value F × Value F)
  pub isaac_contract : List (Value F × Value F)
  pub deployment_validation : List (Value F × Value F)

abbrev pub required_fields : List String
required_fields = "name" ∷ "role" ∷ "runner" ∷ "model_path" ∷ "input_schema" ∷ "output_schema" ∷ []

module _ {F : Type 0} where
  pub missing_fields : List String → List (Value F × Value F) → List String
  missing_fields [] data_ = []
  missing_fields (field ∷ fields) data_ =
      let rest = missing_fields fields data_ in if has_key field data_ then rest else field ∷ rest

  -- `all(isinstance(value, str) and value for value in schema)`, with the texts.
  pub schema_texts : List (Value F) → Option (List String)
  schema_texts [] = some []
  schema_texts (str_value s ∷ values) = elim (schema_texts values) [
    | none ↦ none
    | some texts ↦ if str_eq s "" then none else some (s ∷ texts)
  ]
  schema_texts (_ ∷ values) = none

  pub input_schema_of : Value F → Option (List String)
  input_schema_of v = elim (as_list v) [ none ↦ none | some values ↦ schema_texts values ]

  pub optional_mapping : String → List (Value F × Value F) → Result (List (Value F × Value F))
  optional_mapping field data_ =
      if has_key field data_
      then or_raise (as_dict (get field data_))
          (value_error (concat ("policy " ∷ field ∷ " must be a mapping" ∷ [])))
      else ok []

  pub load_policy_manifest : (Value F → String) → String → Value F → Result (PolicyManifest F)
  load_policy_manifest str_of role document = do
    fields ← or_raise (as_dict document) (value_error "policy manifest must contain a mapping")
    raise_if (not (is_empty (missing_fields required_fields fields)))
        "policy manifest is missing required fields"
    let name = strip (str_of (get "name" fields))
    let manifest_role = strip (str_of (get "role" fields))
    let runner = strip (str_of (get "runner" fields))
    let model_path = strip (str_of (get "model_path" fields))
    raise_if (str_eq name "" || str_eq manifest_role "" || str_eq runner "" || str_eq model_path "")
        "policy manifest identity, runner, and model_path must be non-empty"
    raise_if (not (str_eq manifest_role role)) "policy role does not match requested role"
    input_schema ←
        or_raise (input_schema_of (get "input_schema" fields))
          (value_error "policy input_schema must be a list of non-empty strings")
    output_schema ←
        or_raise (as_dict (get "output_schema" fields))
          (value_error "policy output_schema must be a mapping")
    isaac_contract ← optional_mapping "isaac_contract" fields
    deployment_validation ← optional_mapping "deployment_validation" fields
    ok (record {
      name = name;
      role = manifest_role;
      runner = runner;
      model_path = model_path;
      input_schema = input_schema;
      output_schema = output_schema;
      isaac_contract = isaac_contract;
      deployment_validation = deployment_validation;
    })
