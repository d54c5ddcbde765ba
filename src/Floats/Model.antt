-- ===== src/Floats/Model.antt =====
-- A concrete arithmetic that meets the laws, for tests and witnesses: decimal fixed point with nine
-- places and a NaN. Only what the laws speak of is meant to be close to the doubles.
mod Arithmetic
mod Laws
use robot_core.Prelude.{
  ℕ, zero, suc, ◌+◌, ◌-◌, ◌*◌, ◌/◌, ◌^◌, ◌≤◌, ◌≡◌, refl, Bool, true, false, Option, none, some,
  arith, leb, List, [], ◌∷◌, if◌then◌else◌,
}
use robot_core.Prelude.Int.{ℤ, pos, negsuc, pos_part, neg_part, ◌≤ℤ◌, ltb_ℤ, sub_ℕ}
use robot_core.Floats.{Floats}
use Laws.{
  lt_le_num, lt_not_le_num, not_lt_le_num, le_trans_num, le_left_num, le_right_num, finite_le_num,
  neg_le_num, abs_nonneg_num, of_int_le_num, mul_le_num, lit_nonneg_num, neg_finite_num,
  abs_finite_num, add_nonneg_num, add_nonpos_num, add_nan_num, abs_number_num, copysign_finite_num,
  add_number_num, sub_number_num, mul_number_num, mul_positive_number_num, mul_nonneg_num,
  between_finite_num, add_le_num,
}
pub use Arithmetic.{
  nan, num, Num, unit, leb_ℤ, lt_num, le_num, lift, product, div_num, neg_num, abs_num, of_int_num,
  lit_num, mul_num, truncate_num, is_num, add_num, sub_num, sum_num, dot_num, copysign_num,
}

instance abbrev pub num_floats : Floats Num
num_floats = record {
  add = add_num;
  sub = sub_num;
  mul = mul_num;
  div = lift div_num;
  mod_float = λ a b. nan;
  neg = neg_num;
  abs = abs_num;
  sqrt = λ a. a;
  sin = λ a. of_int_num (pos 0);
  cos = λ a. of_int_num (pos 1);
  asin = λ a. of_int_num (pos 0);
  acos = λ a. of_int_num (pos 0);
  atan2 = λ a b. of_int_num (pos 0);
  exp = λ a. of_int_num (pos 1);
  expm1 = λ a. a;
  copysign = copysign_num;
  pi = lit_num (pos 3141592654) 9;
  inf = nan;
  np_sum = sum_num;
  np_mean = λ xs. elim xs [ [] ↦ nan | x ∷ _ ↦ x ];
  np_dot = dot_num;
  np_norm = λ xs. dot_num xs xs;
  lt = lt_num;
  le = le_num;
  is_finite = is_num;
  of_int = of_int_num;
  lit = lit_num;
  repr = λ a. "0.0";
  of_text = λ s. none;
  truncate = truncate_num;
  lt_le = lt_le_num;
  lt_not_le = lt_not_le_num;
  not_lt_le = not_lt_le_num;
  le_trans = le_trans_num;
  le_left = le_left_num;
  le_right = le_right_num;
  finite_le = finite_le_num;
  neg_le = neg_le_num;
  neg_zero = refl;
  abs_nonneg = abs_nonneg_num;
  of_int_le = of_int_le_num;
  nano_finite = refl;
  nano_positive = refl;
  mul_le = mul_le_num;
  lit_nonneg = lit_nonneg_num;
  one_finite = refl;
  abs_number = abs_number_num;
  neg_finite = neg_finite_num;
  abs_finite = abs_finite_num;
  copysign_finite = copysign_finite_num;
  add_number = add_number_num;
  sub_number = sub_number_num;
  mul_number = mul_number_num;
  mul_positive_number = mul_positive_number_num;
  mul_nonneg = mul_nonneg_num;
  between_finite = between_finite_num;
  add_nonneg = add_nonneg_num;
  add_nonpos = add_nonpos_num;
  add_nan = add_nan_num;
  add_le = add_le_num;
}
