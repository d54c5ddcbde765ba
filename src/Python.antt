-- ===== src/Python.antt =====
-- Python values as JSON and YAML documents hold them, and the built-in functions that the source
-- calls on them.
pub mod Decimal
pub mod Texts
use robot_core.Prelude.{
  ℕ, String, ◌≡◌, Bool, true, false, ◌&&◌, Option, none, some, List, [], ◌∷◌, str_eq, if◌then◌else◌,
}
use robot_core.Prelude.Int.{ℤ}

-- `other_value` is any other scalar, such as a YAML date, with its `str()`.
mutual
  pub data Value (F : Type 0) : Type 0 where
    none_value : Value F
    bool_value : Bool → Value F
    int_value : ℤ → Value F
    float_value : F → Value F
    str_value : String → Value F
    list_value : Values F → Value F
    dict_value : Entries F → Value F
    other_value : String → Value F

  pub data Values (F : Type 0) : Type 0 where
    nil : Values F
    cons : Value F → Values F → Values F

  -- A dict in insertion order.
  pub data Entries (F : Type 0) : Type 0 where
    end : Entries F
    entry : Value F → Value F → Entries F → Entries F

module _ {F : Type 0} where
  abbrev pub items : Entries F → List (Value F × Value F)
  items end = []
  items (entry k v rest) = (k, v) ∷ items rest

  abbrev pub elements : Values F → List (Value F)
  elements nil = []
  elements (cons v rest) = v ∷ elements rest

  -- Whether a key is the given text.
  abbrev pub is_key : String → Value F → Bool
  is_key name (str_value s) = str_eq s name
  is_key name _ = false

  -- `d.get(name)`; Python answers `None` for a missing key, which code that tests the type of the
  -- answer does not tell from a `None` that is stored.
  unfoldable pub get : String → List (Value F × Value F) → Value F
  get name [] = none_value
  get name ((k, v) ∷ rest) = if is_key name k then v else get name rest

  -- `name in d`
  unfoldable pub has_key : String → List (Value F × Value F) → Bool
  has_key name [] = false
  has_key name ((k, v) ∷ rest) = if is_key name k then true else has_key name rest

  abbrev pub as_dict : Value F → Option (List (Value F × Value F))
  as_dict (dict_value d) = some (items d)
  as_dict _ = none

  abbrev pub as_bool : Value F → Option Bool
  as_bool (bool_value b) = some b
  as_bool _ = none

  abbrev pub as_str : Value F → Option String
  as_str (str_value s) = some s
  as_str _ = none

  abbrev pub as_list : Value F → Option (List (Value F))
  as_list (list_value l) = some (elements l)
  as_list _ = none

-- Membership of a text in a set of texts.
unfoldable pub one_of : String → List String → Bool
one_of s [] = false
one_of s (x ∷ xs) = if str_eq s x then true else one_of s xs
