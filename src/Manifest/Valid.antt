-- ===== src/Manifest/Valid.antt =====
-- What a policy manifest that loads satisfies.
mod Tests
use mathlib.Core.Path.{subst}
use robot_core.Prelude.{
  String, ◌≡◌, Bool, true, false, some, List, [], ◌∷◌, All, str_eq, str_eq_iff, arith, inl, inr,
  Bool-cases, Option-cases,
}
use robot_core.Prelude.Results.{ok}
use robot_core.Python.{
  Value, none_value, bool_value, int_value, float_value, str_value, list_value, dict_value,
  other_value, get, as_dict,
}
use robot_core.Manifest.{
  PolicyManifest, schema_texts, input_schema_of, optional_mapping, load_policy_manifest,
}

abbrev pub IsNonEmpty : String → Type 0
IsNonEmpty s = str_eq s "" ≡ false

module _ {F : Type 0} where
  schema_texts-All :
      (values : List (Value F)) {texts : List String}
      → schema_texts values ≡ some texts
      → All IsNonEmpty texts
  unfolding schema_texts
  schema_texts-All [] {texts} h = let e : [] ≡ texts = ground arith in subst (All IsNonEmpty) e tt
  schema_texts-All (str_value s ∷ values) {texts} h = elim (Option-cases (schema_texts values)) [
    | inl bad ↦ ground arith
    | inr (rest, good) ↦ elim (Bool-cases (str_eq s "")) [
      | inl empty ↦ ground arith
      | inr full ↦
          let e : (s ∷ rest) ≡ texts = ground arith in
          subst (All IsNonEmpty) e (full, schema_texts-All values good)
    ]
  ]
  schema_texts-All (none_value ∷ values) h = ground arith
  schema_texts-All (bool_value b ∷ values) h = ground arith
  schema_texts-All (int_value n ∷ values) h = ground arith
  schema_texts-All (float_value x ∷ values) h = ground arith
  schema_texts-All (list_value l ∷ values) h = ground arith
  schema_texts-All (dict_value d ∷ values) h = ground arith
  schema_texts-All (other_value s ∷ values) h = ground arith

  -- An input schema that is accepted holds texts that are not empty, and nothing else.
  pub input_schema_of-All :
      (v : Value F) {texts : List String} → input_schema_of v ≡ some texts → All IsNonEmpty texts
  unfolding input_schema_of
  input_schema_of-All (list_value l) h = schema_texts-All _ h
  input_schema_of-All (str_value s) h = ground arith
  input_schema_of-All none_value h = ground arith
  input_schema_of-All (bool_value b) h = ground arith
  input_schema_of-All (int_value n) h = ground arith
  input_schema_of-All (float_value x) h = ground arith
  input_schema_of-All (dict_value d) h = ground arith
  input_schema_of-All (other_value s) h = ground arith

  -- A manifest that loads has the role that was asked for; its name, its runner and its model path are
  -- not empty.
  pub load_policy_manifest-IsValid :
      (str_of : Value F → String) (role : String) (document : Value F) {manifest : PolicyManifest F}
      → load_policy_manifest str_of role document ≡ ok manifest
      → (str_eq manifest.role role ≡ true)
        × IsNonEmpty manifest.name
        × IsNonEmpty manifest.runner
        × IsNonEmpty manifest.model_path
  unfolding load_policy_manifest
  load_policy_manifest-IsValid str_of role document {manifest} h =
      (ground arith, ground arith, ground arith, ground arith)
