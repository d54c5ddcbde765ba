-- ===== src/Floats.antt =====
-- Python floats and the numpy calls on them. antt has no floats, so the type and its operations are
-- a parameter of the model: an instance of `Floats`. Its laws are facts of IEEE 754 comparisons and
-- of correctly rounded operations, a NaN included: every test on a NaN answers false.
pub mod Order
pub mod Model
pub mod Vectors
use robot_core.Prelude.{ℕ, ◌≡◌, String, Bool, true, false, not, Option, List, if◌then◌else◌}
use robot_core.Prelude.Int.{ℤ, pos, ◌≤ℤ◌}

pub record Floats (F : Type 0) : Type 0 where
  pub add : F → F → F
  pub sub : F → F → F
  pub mul : F → F → F
  pub div : F → F → F
  pub mod_float : F → F → F
  pub neg : F → F
  pub abs : F → F
  pub sqrt : F → F
  pub sin : F → F
  pub cos : F → F
  pub asin : F → F
  pub acos : F → F
  pub atan2 : F → F → F
  pub exp : F → F
  pub expm1 : F → F
  pub copysign : F → F → F
  pub pi : F
  pub inf : F
  -- `np.sum`, `np.mean`, `np.dot` and `np.linalg.norm` of vectors, in the order that numpy chooses
  pub np_sum : List F → F
  pub np_mean : List F → F
  pub np_dot : List F → List F → F
  pub np_norm : List F → F
  -- `<`, `<=` and `math.isfinite`
  pub lt : F → F → Bool
  pub le : F → F → Bool
  pub is_finite : F → Bool
  -- `float(n)`, and the double nearest to m / 10 ^ k
  pub of_int : ℤ → F
  pub lit : ℤ → ℕ → F
  -- `repr(x)`, `float(text)`, and `int(x)`, which raises on a NaN or an infinity
  pub repr : F → String
  pub of_text : String → Option F
  pub truncate : F → Option ℤ
  pub lt_le : (a b : F) → lt a b ≡ true → le a b ≡ true
  pub lt_not_le : (a b : F) → lt a b ≡ true → le b a ≡ false
  pub not_lt_le : (a b : F) → le a a ≡ true → le b b ≡ true → lt a b ≡ false → le b a ≡ true
  pub le_trans : (a b c : F) → le a b ≡ true → le b c ≡ true → le a c ≡ true
  pub le_left : (a b : F) → le a b ≡ true → le a a ≡ true
  pub le_right : (a b : F) → le a b ≡ true → le b b ≡ true
  pub finite_le : (a : F) → is_finite a ≡ true → le a a ≡ true
  pub neg_le : (a b : F) → le a b ≡ true → le (neg b) (neg a) ≡ true
  pub neg_zero : le (neg (of_int (pos 0))) (of_int (pos 0)) ≡ true
  pub abs_nonneg : (a : F) → le a a ≡ true → le (of_int (pos 0)) (abs a) ≡ true
  pub abs_number : (a : F) → le (abs a) (abs a) ≡ true → le a a ≡ true
  pub of_int_le : (m n : ℤ) → m ≤ℤ n → le (of_int m) (of_int n) ≡ true
  -- `1e-9`
  pub nano_finite : is_finite (lit (pos 1) 9) ≡ true
  pub nano_positive : lt (of_int (pos 0)) (lit (pos 1) 9) ≡ true
  pub mul_le :
      (c a b : F)
      → lt (of_int (pos 0)) c ≡ true
      → is_finite c ≡ true
      → le a b ≡ true
      → le (mul a c) (mul b c) ≡ true
  pub lit_nonneg : (m : ℕ) (k : ℕ) → le (of_int (pos 0)) (lit (pos m) k) ≡ true
  pub one_finite : is_finite (of_int (pos 1)) ≡ true
  pub neg_finite : (a : F) → is_finite a ≡ true → is_finite (neg a) ≡ true
  pub abs_finite : (a : F) → is_finite a ≡ true → is_finite (abs a) ≡ true
  pub copysign_finite : (a b : F) → is_finite a ≡ true → is_finite (copysign a b) ≡ true
  -- a finite number, plus or minus any number, is a number
  pub add_number : (a b : F) → is_finite a ≡ true → le b b ≡ true → le (add a b) (add a b) ≡ true
  pub sub_number :
      (a b : F) → is_finite a ≡ true → is_finite b ≡ true → le (sub a b) (sub a b) ≡ true
  pub mul_number :
      (a b : F) → is_finite a ≡ true → is_finite b ≡ true → le (mul a b) (mul a b) ≡ true
  pub mul_positive_number :
      (a b : F)
      → le a a ≡ true
      → is_finite b ≡ true
      → lt (of_int (pos 0)) b ≡ true
      → le (mul a b) (mul a b) ≡ true
  pub mul_nonneg :
      (a b : F)
      → le (of_int (pos 0)) a ≡ true
      → le (of_int (pos 0)) b ≡ true
      → is_finite a ≡ true
      → is_finite b ≡ true
      → le (of_int (pos 0)) (mul a b) ≡ true
  pub between_finite :
      (lo x hi : F)
      → le lo x ≡ true
      → le x hi ≡ true
      → is_finite lo ≡ true
      → is_finite hi ≡ true
      → is_finite x ≡ true
  pub add_nonneg : (a b : F) → le (of_int (pos 0)) b ≡ true → lt (add a b) a ≡ false
  pub add_nonpos : (a b : F) → le b (of_int (pos 0)) ≡ true → lt a (add a b) ≡ false
  pub add_nan : (a b : F) → le b b ≡ false → le (add a b) (add a b) ≡ false
  pub add_le : (p a b : F) → is_finite p ≡ true → le a b ≡ true → le (add p a) (add p b) ≡ true

module _ {F : Type 0} ⦃fl : Floats F⦄ where
  infixl 65 ◌⊕◌ ◌⊖◌
  infixl 70 ◌⊗◌ ◌⊘◌
  -- The rounded operations, `+`, `-`, `*` and `/`.
  abbrev pub ◌⊕◌ : F → F → F
  a ⊕ b = fl.add a b

  abbrev pub ◌⊖◌ : F → F → F
  a ⊖ b = fl.sub a b

  abbrev pub ◌⊗◌ : F → F → F
  a ⊗ b = fl.mul a b

  abbrev pub ◌⊘◌ : F → F → F
  a ⊘ b = fl.div a b

  abbrev pub lt : F → F → Bool
  lt a b = fl.lt a b

  abbrev pub le : F → F → Bool
  le a b = fl.le a b

  abbrev pub of_int : ℤ → F
  of_int n = fl.of_int n

  abbrev pub lit : ℕ → ℕ → F
  lit m k = fl.lit (pos m) k

  abbrev pub zero_float : F
  zero_float = fl.of_int (pos 0)

  abbrev pub one_float : F
  one_float = fl.of_int (pos 1)

  -- `x != x`
  abbrev pub is_nan : F → Bool
  is_nan a = not (fl.le a a)

  -- Python's `max(a, b)` and `min(a, b)`: the first argument unless the second compares past it.
  unfoldable pub py_max : F → F → F
  py_max a b = if fl.lt a b then b else a

  unfoldable pub py_min : F → F → F
  py_min a b = if fl.lt b a then b else a

  -- `np.maximum` and `np.minimum`, which pass a NaN on.
  unfoldable pub np_maximum : F → F → F
  np_maximum a b = if is_nan a then a else if is_nan b then b else if fl.lt a b then b else a

  unfoldable pub np_minimum : F → F → F
  np_minimum a b = if is_nan a then a else if is_nan b then b else if fl.lt b a then b else a

  -- `np.clip(x, lo, hi)` is `minimum(maximum(x, lo), hi)`.
  unfoldable pub clip : F → F → F → F
  unfolding np_maximum np_minimum
  clip x lo hi = np_minimum (np_maximum x lo) hi

  -- A difference of nanosecond stamps, in seconds: `(now - then) * 1e-9`.
  unfoldable pub seconds : ℤ → F
  seconds n = fl.of_int n ⊗ fl.lit (pos 1) 9
