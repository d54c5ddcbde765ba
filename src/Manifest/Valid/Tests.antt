-- ===== src/Manifest/Valid/Tests.antt =====
-- A concrete policy manifest that loads, and the theorems at it.
use robot_core.Prelude.{String, ◌≡◌, refl, true, [], ◌∷◌, str_eq, some}
use robot_core.Prelude.Results.{ok}
use robot_core.Floats.Model.{Num}
use robot_core.Python.{
  Value, str_value, list_value, dict_value, nil, cons, end, entry, get, has_key,
}
use robot_core.Python.Texts.{strip}
use robot_core.Manifest.{
  PolicyManifest, missing_fields, schema_texts, input_schema_of, optional_mapping,
  load_policy_manifest,
}
use robot_core.Manifest.Valid.{IsNonEmpty, load_policy_manifest-IsValid}

abbrev text_of_value : Value Num → String
text_of_value (str_value s) = s
text_of_value _ = "other"

abbrev body_manifest : PolicyManifest Num
body_manifest = record {
  name = "t60";
  role = "body";
  runner = "onnx";
  model_path = "t60.onnx";
  input_schema = "depth" ∷ "yaw" ∷ [];
  output_schema = [];
  isaac_contract = [];
  deployment_validation = [];
}

abbrev schema_value : Value Num
schema_value = list_value (cons (str_value "depth") (cons (str_value "yaw") nil))

abbrev body_document : Value Num
body_document = dict_value (
    entry (str_value "name") (str_value " t60 ") (
      entry (str_value "role") (str_value "body") (
        entry (str_value "runner") (str_value "onnx") (
          entry (str_value "model_path") (str_value "t60.onnx") (
            entry (str_value "input_schema") schema_value
              (entry (str_value "output_schema") (dict_value end) end))))))

schema_is_read : input_schema_of schema_value ≡ some ("depth" ∷ "yaw" ∷ [])
unfolding input_schema_of schema_texts
schema_is_read = refl

body_loads : load_policy_manifest text_of_value "body" body_document ≡ ok body_manifest
unfolding load_policy_manifest missing_fields optional_mapping input_schema_of schema_texts has_key
    get strip
body_loads = refl

load_policy_manifest-IsValid_example :
    (str_eq body_manifest.role "body" ≡ true)
    × IsNonEmpty body_manifest.name
    × IsNonEmpty body_manifest.runner
    × IsNonEmpty body_manifest.model_path
load_policy_manifest-IsValid_example =
    load_policy_manifest-IsValid text_of_value "body" body_document body_loads
