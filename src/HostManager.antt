-- ===== src/HostManager.antt =====
-- host_manager/robotcore_host_manager/daemon.py: the managed AprilTag map. JSON is a text form of
-- `Value`; a dict keyed by texts is an association list. The section of the configuration is read
-- already: its `web_edit_enabled` is an argument.
pub mod Tag
pub mod Edit
pub mod Dispatch
use robot_core.Prelude.{
  ℕ, zero, suc, ◌+◌, ◌-◌, ◌*◌, String, Bool, true, false, not, ◌&&◌, ◌||◌, Option, none, some, List,
  [], ◌∷◌, map, length, leb, ◌==◌, str_eq, codes, concat, if◌then◌else◌,
}
use robot_core.Prelude.Int.{ℤ, pos, negsuc, ltb_ℤ}
use robot_core.Prelude.Results.{
  Result, ok, err, Error, value_error, type_error, overflow_error, ◌>>=◌,
}
use robot_core.Floats.{Floats, le, of_int, zero_float, one_float}
use robot_core.Python.{
  Value, none_value, bool_value, int_value, float_value, str_value, list_value, dict_value,
  other_value, items, elements,
}
use robot_core.Python.Decimal.{read_digits}
use robot_core.Python.Texts.{strip}

abbrev is_digit : ℕ → Bool
is_digit c = leb b'0' c && leb c b'9'

-- Digits with single underscores between them.
are_digits : List ℕ → Bool
are_digits [] = false
are_digits (c ∷ []) = is_digit c
are_digits (c ∷ d ∷ cs) =
    let rest = are_digits (d ∷ cs) in
    let after = are_digits cs in is_digit c && (if d == b'_' then after else rest)

without_underscores : List ℕ → List ℕ
without_underscores [] = []
without_underscores (c ∷ cs) =
    let rest = without_underscores cs in if c == b'_' then rest else c ∷ rest

abbrev minus : ℕ → ℤ
minus zero = pos 0
minus (suc n) = negsuc n

unsigned : List ℕ → Option ℕ
unfolding are_digits without_underscores
unsigned cs = if are_digits cs then some (read_digits 0 (without_underscores cs)) else none

signed : List ℕ → Option ℤ
unfolding unsigned
signed [] = none
signed (c ∷ cs) =
    if c == b'-'
    then elim (unsigned cs) [ none ↦ none | some n ↦ some (minus n) ]
    else elim (unsigned (if c == b'+' then cs else c ∷ cs)) [ none ↦ none | some n ↦ some (pos n) ]

-- `int(text)`; digits outside ASCII are not read.
pub int_of_text : String → Option ℤ
unfolding signed
int_of_text s = signed (codes (strip s))

module _ {F : Type 0} ⦃fl : Floats F⦄ where
  -- `float(value)`
  pub to_float : Value F → Result F
  to_float (bool_value b) = ok (if b then one_float else zero_float)
  to_float (int_value n) = if fl.is_finite (of_int n) then ok (of_int n) else err overflow_error
  to_float (float_value x) = ok x
  to_float (str_value s) = elim (fl.of_text s) [
    | none ↦ err (value_error "could not convert string to float")
    | some x ↦ ok x
  ]
  to_float _ = err type_error

  pub to_floats : List (Value F) → Result (List F)
  to_floats [] = ok []
  to_floats (v ∷ rest) = do x ← to_float v; xs ← to_floats rest; ok (x ∷ xs)

-- The characters of a text, as texts.
chars : {F : Type 0} → String → List (Value F)
chars String.[] = []
chars (String.◌∷◌ c s) = str_value (String.◌∷◌ c "") ∷ chars s

first_of : {A B : Type 0} → A × B → A
first_of (a, b) = a

-- `iter(value)`: a text gives its characters, a dict its keys.
pub iterated : {F : Type 0} → Value F → Result (List (Value F))
unfolding chars first_of
iterated (list_value l) = ok (elements l)
iterated (str_value s) = ok (chars s)
iterated (dict_value d) = ok (map first_of (items d))
iterated _ = err type_error

-- `except (TypeError, ValueError)`, raising a `ValueError` instead.
pub rename_error {ℓ} : {A : Type ℓ} → String → Result A → Result A
rename_error message (ok a) = ok a
rename_error message (err type_error) = err (value_error message)
rename_error message (err (value_error _)) = err (value_error message)
rename_error message (err e) = err e
