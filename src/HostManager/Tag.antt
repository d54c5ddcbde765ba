-- ===== src/HostManager/Tag.antt =====
-- The validation of one tag: `_finite_vector`, `_validated_tag_id` and `_validated_tag`.
pub mod Valid
use robot_core.Prelude.{
  ℕ, String, Bool, true, false, not, ◌&&◌, ◌||◌, Option, none, some, List, [], ◌∷◌, length, leb,
  ◌==◌, str_eq, concat, if◌then◌else◌,
}
use robot_core.Prelude.Int.{ℤ, pos, negsuc}
use robot_core.Prelude.Results.{
  Result, ok, err, Error, value_error, type_error, overflow_error, ◌>>=◌, ◌>>◌, raise_if, or_raise,
}
use robot_core.Floats.{Floats, le, lit}
use robot_core.Python.{
  Value, Values, nil, cons, Entries, end, entry, none_value, bool_value, int_value, float_value,
  str_value, list_value, dict_value, other_value, get, as_dict,
}
use robot_core.Python.Decimal.{show, show_ℤ}
use robot_core.Python.Texts.{strip}
use robot_core.HostManager.{int_of_text, to_float, to_floats, iterated, rename_error}

pub record TagDefinition (F : Type 0) : Type 0 where
  pub position_m : List F
  pub rpy_deg : List F
  pub size_m : F

-- `not 0 <= tag_id <= 65535 or str(tag_id) != str(raw_id).strip()`
unfoldable pub in_tag_range : ℤ → Option ℕ
in_tag_range (pos n) = if leb n 65535 then some n else none
in_tag_range (negsuc n) = none

module _ {F : Type 0} ⦃fl : Floats F⦄ where
  -- `lower <= value <= upper`
  abbrev pub within : F → F → F → Bool
  within lower upper x = le lower x && le x upper

  abbrev pub all_within : F → F → List F → Bool
  all_within lower upper [] = true
  all_within lower upper (x ∷ xs) = within lower upper x && all_within lower upper xs

  unfoldable pub finite_vector : Value F → String → F → F → Result (List F)
  finite_vector raw label lower upper = do
    values ←
        rename_error (concat (label ∷ " must contain three numbers" ∷ []))
          (do elements ← iterated raw; to_floats elements)
    raise_if (not (length values == 3) || not (all_within lower upper values)) (
        concat (
          label
          ∷ " values must be finite and within ["
          ∷ fl.repr lower
          ∷ ", "
          ∷ fl.repr upper
          ∷ "]"
          ∷ []))
    ok values

  -- `int(value)`
  unfoldable pub to_int : Value F → Result ℤ
  to_int (bool_value b) = ok (pos (if b then 1 else 0))
  to_int (int_value n) = ok n
  to_int (float_value x) = elim (fl.truncate x) [
    | some n ↦ ok n
    | none ↦
        if le x x
        then err overflow_error
        else err (value_error "cannot convert float NaN to integer")
  ]
  to_int (str_value s) = or_raise (int_of_text s) (value_error "invalid literal for int()")
  to_int _ = err type_error

  -- `str(value)` of what `int` accepts.
  unfoldable pub text_of_scalar : Value F → String
  text_of_scalar (int_value n) = show_ℤ n
  text_of_scalar (float_value x) = fl.repr x
  text_of_scalar (str_value s) = s
  text_of_scalar _ = ""

  unfoldable pub checked_tag_id : Value F → Result ℕ
  checked_tag_id raw_id = do
    n ← rename_error "tag id must be an integer" (to_int raw_id)
    tag_id ←
        or_raise (in_tag_range n) (value_error "tag id must be an unsigned integer from 0 to 65535")
    raise_if (not (str_eq (show tag_id) (strip (text_of_scalar raw_id))))
        "tag id must be an unsigned integer from 0 to 65535"
    ok tag_id

  unfoldable pub validated_tag_id : Value F → Result ℕ
  unfolding checked_tag_id
  validated_tag_id (bool_value b) = err (value_error "tag id must be an integer")
  validated_tag_id raw_id = checked_tag_id raw_id

  unfoldable pub validated_tag : Value F → Result (ℕ × TagDefinition F)
  validated_tag tag = do
    fields ← or_raise (as_dict tag) (value_error "tag must be an object")
    tag_id ← validated_tag_id (get "id" fields)
    position_m ←
        finite_vector (get "position_m" fields) "position_m" (fl.neg (lit 100 0)) (lit 100 0)
    rpy_deg ← finite_vector (get "rpy_deg" fields) "rpy_deg" (fl.neg (lit 360 0)) (lit 360 0)
    size_m ← rename_error "size_m must be a number" (to_float (get "size_m" fields))
    raise_if (not (within (lit 1 2) (lit 2 0) size_m)) "size_m must be between 0.01 and 2.0 metres"
    ok (tag_id, record { position_m = position_m; rpy_deg = rpy_deg; size_m = size_m })

module _ {F : Type 0} where
  number_list : List F → Values F
  number_list [] = nil
  number_list (x ∷ xs) = cons (float_value x) (number_list xs)

  -- The definition as the map file has it.
  unfoldable pub definition_value : TagDefinition F → Value F
  unfolding number_list
  definition_value d = dict_value (
      entry (str_value "position_m") (list_value (number_list d.position_m)) (
        entry (str_value "rpy_deg") (list_value (number_list d.rpy_deg))
          (entry (str_value "size_m") (float_value d.size_m) end)))
