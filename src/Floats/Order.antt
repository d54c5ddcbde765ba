-- ===== src/Floats/Order.antt =====
-- What the comparison laws give for `clip` and for ages in seconds.
use robot_core.Prelude.{◌≡◌, true, false, ◌⊎◌, inl, inr, arith, Bool-cases}
use robot_core.Prelude.Int.{ℤ, pos, ◌≤ℤ◌}
use robot_core.Floats.{Floats, clip, seconds, py_max, zero_float, is_nan}

module _ {F : Type 0} ⦃fl : Floats F⦄ where
  -- A clipped number lies in its interval, when neither it nor the bounds are NaN.
  pub clip_bounds :
      (x lo hi : F)
      → fl.le x x ≡ true
      → fl.le lo hi ≡ true
      → (fl.le lo (clip x lo hi) ≡ true) × (fl.le (clip x lo hi) hi ≡ true)
  unfolding clip
  clip_bounds x lo hi hx h = ground (
    arith,
    fl.le_left lo hi h,
    fl.le_right lo hi h,
    fl.lt_le x lo,
    fl.not_lt_le x lo,
    fl.lt_le hi x,
    fl.not_lt_le hi x,
    fl.lt_le hi lo,
    fl.not_lt_le hi lo,
    fl.lt_not_le hi lo,
  )

  -- Past a limit at one moment, past it at every later one.
  pub lt_le_trans : (a b c : F) → fl.lt a b ≡ true → fl.le b c ≡ true → fl.lt a c ≡ true
  lt_le_trans a b c h k = ground (
    arith,
    fl.lt_le a b h,
    fl.lt_not_le a b h,
    fl.le_left a b,
    fl.le_right b c k,
    fl.not_lt_le a c,
    fl.le_trans b c a k,
  )

  pub py_max_zero_nonneg : (x : F) → fl.le zero_float (py_max zero_float x) ≡ true
  unfolding py_max
  py_max_zero_nonneg x =
      ground (arith, fl.lt_le zero_float x, fl.of_int_le (pos 0) (pos 0) (omega arith))

-- A later moment is at least as old.
pub seconds_le :
    (F : Type 0) ⦃fl : Floats F⦄ (m n : ℤ) → m ≤ℤ n → fl.le (seconds m) (seconds n) ≡ true
unfolding seconds
seconds_le F ⦃fl⦄ m n h = fl.mul_le _ _ _ fl.nano_positive fl.nano_finite (fl.of_int_le m n h)

-- `-limit <= x <= limit`, which no NaN satisfies.
abbrev pub IsWithin : {F : Type 0} ⦃fl : Floats F⦄ → F → F → Type 0
IsWithin ⦃fl⦄ limit x = (fl.le (fl.neg limit) x ≡ true) × (fl.le x limit ≡ true)

-- The same of any float that is not a NaN.
abbrev pub IsBounded : {F : Type 0} ⦃fl : Floats F⦄ → F → F → Type 0
IsBounded ⦃fl⦄ limit x = (is_nan x ≡ true) ⊎ IsWithin limit x

module _ {F : Type 0} ⦃fl : Floats F⦄ where
  pub nonneg_of_tests :
      (x : F) → fl.is_finite x ≡ true → fl.lt x zero_float ≡ false → fl.le zero_float x ≡ true
  nonneg_of_tests x finite test =
      fl.not_lt_le x zero_float (fl.finite_le x finite) (fl.of_int_le (pos 0) (pos 0) (omega arith))
        test

  pub positive_of_tests :
      (x : F)
      → fl.is_finite x ≡ true
      → fl.le x zero_float ≡ false
      → (fl.lt zero_float x ≡ true) × (fl.le zero_float x ≡ true)
  positive_of_tests x finite test = ground (
    arith,
    fl.finite_le x finite,
    fl.of_int_le (pos 0) (pos 0) (omega arith),
    fl.not_lt_le zero_float x,
    fl.lt_le zero_float x,
  )

  pub abs_nonneg_of_finite : (x : F) → fl.is_finite x ≡ true → fl.le zero_float (fl.abs x) ≡ true
  abs_nonneg_of_finite x finite = fl.abs_nonneg x (fl.finite_le x finite)

  -- The limits of the controllers are absolute values that are tested to be finite.
  pub abs_limit_nonneg :
      (x : F) → fl.is_finite (fl.abs x) ≡ true → fl.le zero_float (fl.abs x) ≡ true
  abs_limit_nonneg x finite = fl.abs_nonneg x (fl.abs_number x (fl.finite_le (fl.abs x) finite))

  pub neg-le_self : (x : F) → fl.le zero_float x ≡ true → fl.le (fl.neg x) x ≡ true
  neg-le_self x h =
      fl.le_trans (fl.neg x) (fl.neg zero_float) x (fl.neg_le zero_float x h)
        (fl.le_trans (fl.neg zero_float) zero_float x fl.neg_zero h)

  pub zero-IsWithin : (limit : F) → fl.le zero_float limit ≡ true → IsWithin limit zero_float
  zero-IsWithin limit h = (
    fl.le_trans (fl.neg limit) (fl.neg zero_float) zero_float (fl.neg_le zero_float limit h)
        fl.neg_zero,
    h,
  )

  pub clip-IsWithin :
      (x limit : F)
      → fl.le x x ≡ true
      → fl.le zero_float limit ≡ true
      → IsWithin limit (clip x (fl.neg limit) limit)
  clip-IsWithin x limit number h = clip_bounds x (fl.neg limit) limit number (neg-le_self limit h)

  pub clip_above : (x lo hi : F) → fl.le lo hi ≡ true → fl.lt hi x ≡ true → clip x lo hi ≡ hi
  unfolding clip
  clip_above x lo hi h above = ground (
    arith,
    fl.le_left lo hi h,
    fl.le_right lo hi h,
    fl.lt_le hi x above,
    fl.le_right hi x,
    fl.le_trans lo hi x,
    fl.lt_not_le x lo,
  )

  pub clip_below : (x lo hi : F) → fl.le lo hi ≡ true → fl.lt x lo ≡ true → clip x lo hi ≡ lo
  unfolding clip
  clip_below x lo hi h below = ground (
    arith,
    fl.le_left lo hi h,
    fl.le_right lo hi h,
    fl.lt_le x lo below,
    fl.le_left x lo,
    fl.lt_not_le hi lo,
  )

  pub clip-nan : (x lo hi : F) → fl.le x x ≡ false → is_nan (clip x lo hi) ≡ true
  unfolding clip
  clip-nan x lo hi h = ground arith

  pub clip-IsBounded :
      (x limit : F) → fl.le zero_float limit ≡ true → IsBounded limit (clip x (fl.neg limit) limit)
  clip-IsBounded x limit h = elim (Bool-cases (fl.le x x)) [
    | inl number ↦ inr (clip-IsWithin x limit number h)
    | inr bad ↦ inl (clip-nan x (fl.neg limit) limit bad)
  ]

  pub neg-mul_number :
      (a b : F)
      → fl.is_finite a ≡ true
      → fl.is_finite b ≡ true
      → fl.le (fl.mul (fl.neg a) b) (fl.mul (fl.neg a) b) ≡ true
  neg-mul_number a b h k = fl.mul_number (fl.neg a) b (fl.neg_finite a h) k
