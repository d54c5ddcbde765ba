-- ===== src/Floats/Model/Arithmetic.antt =====
-- Decimal fixed point with nine places and a NaN.
use robot_core.Prelude.{
  ℕ, zero, suc, ◌+◌, ◌-◌, ◌*◌, ◌/◌, ◌^◌, Bool, true, false, Option, none, some, leb, List, [], ◌∷◌,
  if◌then◌else◌,
}
use robot_core.Prelude.Int.{ℤ, pos, negsuc, pos_part, neg_part, ltb_ℤ, sub_ℕ}

pub data Num : Type 0 where
  nan : Num
  num : ℤ → Num

abbrev pub unit : ℕ
unit = 10 ^ 9

-- Division that rounds towards zero.
abbrev pub div_ℤ : ℤ → ℕ → ℤ
div_ℤ a k = sub_ℕ (pos_part a / k) (neg_part a / k)

abbrev pub leb_ℤ : ℤ → ℤ → Bool
leb_ℤ a b = leb (pos_part a + neg_part b) (pos_part b + neg_part a)

abbrev pub lt_num : Num → Num → Bool
lt_num (num a) (num b) = ltb_ℤ a b
lt_num _ _ = false

abbrev pub le_num : Num → Num → Bool
le_num (num a) (num b) = leb_ℤ a b
le_num _ _ = false

abbrev pub lift : (ℤ → ℤ → Num) → Num → Num → Num
lift f (num a) (num b) = f a b
lift f _ _ = nan

abbrev pub product : ℤ → ℤ → ℤ
product a b =
    sub_ℕ (pos_part a * pos_part b + neg_part a * neg_part b)
      (pos_part a * neg_part b + neg_part a * pos_part b)

abbrev pub div_num : ℤ → ℤ → Num
div_num a (pos zero) = nan
div_num a (pos (suc n)) = num (div_ℤ (product a (pos unit)) (suc n))
div_num a (negsuc n) = num (div_ℤ (product a (negsuc (unit - 1))) (suc n))

abbrev pub neg_num : Num → Num
neg_num nan = nan
neg_num (num a) = num (sub_ℕ (neg_part a) (pos_part a))

abbrev pub abs_num : Num → Num
abs_num nan = nan
abs_num (num a) = num (pos (pos_part a + neg_part a))

abbrev pub of_int_num : ℤ → Num
of_int_num n = num (sub_ℕ (pos_part n * unit) (neg_part n * unit))

abbrev pub lit_num : ℤ → ℕ → Num
lit_num m k = num (div_ℤ (sub_ℕ (pos_part m * unit) (neg_part m * unit)) (10 ^ k))

abbrev pub mul_num : Num → Num → Num
mul_num = lift (λ a b. num (div_ℤ (product a b) unit))

abbrev pub truncate_num : Num → Option ℤ
truncate_num nan = none
truncate_num (num a) = some (div_ℤ a unit)

abbrev pub is_num : Num → Bool
is_num nan = false
is_num (num _) = true

abbrev pub add_num : Num → Num → Num
add_num = lift (λ a b. num (sub_ℕ (pos_part a + pos_part b) (neg_part a + neg_part b)))

abbrev pub sub_num : Num → Num → Num
sub_num = lift (λ a b. num (sub_ℕ (pos_part a + neg_part b) (neg_part a + pos_part b)))

abbrev pub sum_num : List Num → Num
sum_num [] = of_int_num (pos 0)
sum_num (x ∷ xs) = add_num x (sum_num xs)

abbrev pub dot_num : List Num → List Num → Num
dot_num (x ∷ xs) (y ∷ ys) = add_num (mul_num x y) (dot_num xs ys)
dot_num _ _ = of_int_num (pos 0)

abbrev pub copysign_num : Num → Num → Num
copysign_num a b = if lt_num b (of_int_num (pos 0)) then neg_num (abs_num a) else abs_num a
