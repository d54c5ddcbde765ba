-- ===== src/Floats/Model/Laws.antt =====
-- The laws of `Floats` for the fixed-point arithmetic.
use robot_core.Prelude.{ℕ, ◌+◌, ◌*◌, ◌≤◌, ◌≡◌, refl, true, false, arith}
use robot_core.Prelude.Int.{ℤ, pos, negsuc, pos_part, neg_part, ◌≤ℤ◌, sub_ℕ}
use native.Mathlib.Nat.{mul-le-mul_right}
use robot_core.Floats.Model.Arithmetic.{
  div_ℤ, nan, num, Num, unit, leb_ℤ, lt_num, le_num, product, neg_num, abs_num, of_int_num, lit_num,
  mul_num, is_num, add_num, sub_num, copysign_num,
}

pub lt_le_num : (a b : Num) → lt_num a b ≡ true → le_num a b ≡ true
lt_le_num (num a) (num b) h = ground arith
lt_le_num _ _ h = ground arith

pub lt_not_le_num : (a b : Num) → lt_num a b ≡ true → le_num b a ≡ false
lt_not_le_num (num a) (num b) h = ground arith
lt_not_le_num _ _ h = ground arith

pub not_lt_le_num :
    (a b : Num) → le_num a a ≡ true → le_num b b ≡ true → lt_num a b ≡ false → le_num b a ≡ true
not_lt_le_num (num a) (num b) ha hb h = ground arith
not_lt_le_num _ _ ha hb h = ground arith

pub le_trans_num : (a b c : Num) → le_num a b ≡ true → le_num b c ≡ true → le_num a c ≡ true
le_trans_num (num a) (num b) (num c) h k = ground arith
le_trans_num _ _ _ h k = ground arith

pub le_left_num : (a b : Num) → le_num a b ≡ true → le_num a a ≡ true
le_left_num (num a) (num b) h = ground arith
le_left_num _ _ h = ground arith

pub le_right_num : (a b : Num) → le_num a b ≡ true → le_num b b ≡ true
le_right_num (num a) (num b) h = ground arith
le_right_num _ _ h = ground arith

pub finite_le_num : (a : Num) → is_num a ≡ true → le_num a a ≡ true
finite_le_num nan h = ground arith
finite_le_num (num a) h = ground arith

pub neg_le_num : (a b : Num) → le_num a b ≡ true → le_num (neg_num b) (neg_num a) ≡ true
neg_le_num (num a) (num b) h = ground arith
neg_le_num _ _ h = ground arith

pub abs_nonneg_num : (a : Num) → le_num a a ≡ true → le_num (of_int_num (pos 0)) (abs_num a) ≡ true
abs_nonneg_num nan h = ground arith
abs_nonneg_num (num a) h = ground arith

pub of_int_le_num : (m n : ℤ) → m ≤ℤ n → le_num (of_int_num m) (of_int_num n) ≡ true
of_int_le_num m n h = ground arith

sub_ℕ_le : (x y z w : ℕ) → x + w ≤ z + y → sub_ℕ x y ≤ℤ sub_ℕ z w
sub_ℕ_le x y z w h = ground arith

div_unit_le : (a b : ℤ) → a ≤ℤ b → div_ℤ a unit ≤ℤ div_ℤ b unit
div_unit_le (pos a) (pos b) h = ground arith
div_unit_le (pos a) (negsuc b) h = ground arith
div_unit_le (negsuc a) (pos b) h = ground arith
div_unit_le (negsuc a) (negsuc b) h = ground arith

scaled_le : (x y z w c : ℕ) → x + w ≤ z + y → x * c + w * c ≤ z * c + y * c
scaled_le x y z w c h = omega (arith, mul-le-mul_right c h)

leb_of_le_ℤ : (a b : ℤ) → a ≤ℤ b → leb_ℤ a b ≡ true
leb_of_le_ℤ a b h = ground arith

le_of_leb_ℤ : (a b : ℤ) → leb_ℤ a b ≡ true → a ≤ℤ b
le_of_leb_ℤ a b h = ground arith

pub mul_le_num :
    (c a b : Num)
    → lt_num (of_int_num (pos 0)) c ≡ true
    → is_num c ≡ true
    → le_num a b ≡ true
    → le_num (mul_num a c) (mul_num b c) ≡ true
mul_le_num (num (pos c)) (num a) (num b) hc fc h =
    leb_of_le_ℤ (div_ℤ (product a (pos c)) unit) (div_ℤ (product b (pos c)) unit) (
      div_unit_le (product a (pos c)) (product b (pos c)) (
        sub_ℕ_le (pos_part a * c + neg_part a * 0) (pos_part a * 0 + neg_part a * c)
          (pos_part b * c + neg_part b * 0) (pos_part b * 0 + neg_part b * c)
          (omega (
            arith,
            scaled_le (pos_part a) (neg_part a) (pos_part b) (neg_part b) c (le_of_leb_ℤ a b h),
          ))))
mul_le_num (num (negsuc c)) (num a) (num b) hc fc h = ground arith
mul_le_num _ _ _ hc fc h = ground arith

pub lit_nonneg_num : (m k : ℕ) → le_num (of_int_num (pos 0)) (lit_num (pos m) k) ≡ true
lit_nonneg_num m k = ground arith

pub neg_finite_num : (a : Num) → is_num a ≡ true → is_num (neg_num a) ≡ true
neg_finite_num nan h = ground arith
neg_finite_num (num a) h = refl

pub abs_finite_num : (a : Num) → is_num a ≡ true → is_num (abs_num a) ≡ true
abs_finite_num nan h = ground arith
abs_finite_num (num a) h = refl

pub abs_number_num : (a : Num) → le_num (abs_num a) (abs_num a) ≡ true → le_num a a ≡ true
abs_number_num nan h = ground arith
abs_number_num (num a) h = ground arith

pub copysign_finite_num : (a b : Num) → is_num a ≡ true → is_num (copysign_num a b) ≡ true
copysign_finite_num a b h = ground (arith, abs_finite_num a h, neg_finite_num (abs_num a))

pub add_number_num :
    (a b : Num) → is_num a ≡ true → le_num b b ≡ true → le_num (add_num a b) (add_num a b) ≡ true
add_number_num (num a) (num b) h k = finite_le_num (add_num (num a) (num b)) refl
add_number_num _ _ h k = ground arith

pub sub_number_num :
    (a b : Num) → is_num a ≡ true → is_num b ≡ true → le_num (sub_num a b) (sub_num a b) ≡ true
sub_number_num (num a) (num b) h k = finite_le_num (sub_num (num a) (num b)) refl
sub_number_num _ _ h k = ground arith

pub mul_number_num :
    (a b : Num) → is_num a ≡ true → is_num b ≡ true → le_num (mul_num a b) (mul_num a b) ≡ true
mul_number_num (num a) (num b) h k = finite_le_num (mul_num (num a) (num b)) refl
mul_number_num _ _ h k = ground arith

pub mul_positive_number_num :
    (a b : Num)
    → le_num a a ≡ true
    → is_num b ≡ true
    → lt_num (of_int_num (pos 0)) b ≡ true
    → le_num (mul_num a b) (mul_num a b) ≡ true
mul_positive_number_num (num a) (num b) h k _ = finite_le_num (mul_num (num a) (num b)) refl
mul_positive_number_num _ _ h k _ = ground arith

pub mul_nonneg_num :
    (a b : Num)
    → le_num (of_int_num (pos 0)) a ≡ true
    → le_num (of_int_num (pos 0)) b ≡ true
    → is_num a ≡ true
    → is_num b ≡ true
    → le_num (of_int_num (pos 0)) (mul_num a b) ≡ true
mul_nonneg_num (num (pos a)) (num (pos b)) ha hb _ _ =
    leb_of_le_ℤ (pos 0) (div_ℤ (product (pos a) (pos b)) unit)
      (div_unit_le (pos 0) (product (pos a) (pos b)) (ground arith))
mul_nonneg_num _ _ ha hb _ _ = ground arith

pub between_finite_num :
    (lo x hi : Num)
    → le_num lo x ≡ true
    → le_num x hi ≡ true
    → is_num lo ≡ true
    → is_num hi ≡ true
    → is_num x ≡ true
between_finite_num lo (num x) hi h k _ _ = refl
between_finite_num (num lo) nan hi h k _ _ = ground arith
between_finite_num nan nan hi h k _ _ = ground arith

pub add_nonneg_num :
    (a b : Num) → le_num (of_int_num (pos 0)) b ≡ true → lt_num (add_num a b) a ≡ false
add_nonneg_num (num a) (num b) h = ground arith
add_nonneg_num nan b h = refl
add_nonneg_num (num a) nan h = refl

pub add_nonpos_num :
    (a b : Num) → le_num b (of_int_num (pos 0)) ≡ true → lt_num a (add_num a b) ≡ false
add_nonpos_num (num a) (num b) h = ground arith
add_nonpos_num nan b h = refl
add_nonpos_num (num a) nan h = refl

pub add_nan_num : (a b : Num) → le_num b b ≡ false → le_num (add_num a b) (add_num a b) ≡ false
add_nan_num a (num b) h = ground (arith, finite_le_num (num b))
add_nan_num nan nan h = refl
add_nan_num (num a) nan h = refl

pub add_le_num :
    (p a b : Num) → is_num p ≡ true → le_num a b ≡ true → le_num (add_num p a) (add_num p b) ≡ true
add_le_num (num p) (num a) (num b) f h = ground arith
add_le_num _ _ _ f h = ground arith
