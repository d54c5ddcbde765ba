-- ===== src/Control/Rates.antt =====
-- The two estimators of control_math.py that read recent gyro samples.
pub mod Bounds
use robot_core.Prelude.{
  ℕ, ◌==◌, ◌^◌, ◌-◌, ◌+◌, Bool, true, false, not, ◌&&◌, ◌||◌, Option, none, some, List, [], ◌∷◌,
  ◌++◌, map, length, ltb, leb, is_empty, if◌then◌else◌,
}
use robot_core.Prelude.Int.{ℤ, pos, negsuc, pos_part, neg_part, sub_ℕ, sub_ℤ, ltb_ℤ}
use robot_core.Prelude.Results.{
  Result, ok, err, value_error, overflow_error, ◌>>=◌, ◌>>◌, raise_if, or_raise,
}
use robot_core.Floats.{
  Floats, ◌⊕◌, ◌⊖◌, ◌⊗◌, ◌⊘◌, lt, le, lit, clip, seconds, of_int, zero_float, py_min, py_max,
}
use robot_core.Floats.Vectors.{
  all, all_finite, any, zip_with, zip_with3, is_negative, add_vectors, sub_vectors, mul_vectors,
  scale, clip_all,
}
use robot_core.Control.{vec}

-- A 64-bit integer, from the true sum or difference of two: numpy wraps around.
abbrev pub wrap64 : ℤ → ℤ
wrap64 n =
    if leb (2 ^ 63) (pos_part n)
    then sub_ℤ n (pos (2 ^ 64))
    else if ltb (2 ^ 63) (neg_part n)
    then sub_ℤ n (negsuc (2 ^ 64 - 1))
    else n

abbrev pub fits_int64 : ℤ → Bool
fits_int64 n = ltb (pos_part n) (2 ^ 63) && leb (neg_part n) (2 ^ 63)

-- `a - b` of 64-bit integers.
abbrev pub sub_int64 : ℤ → ℤ → ℤ
sub_int64 a b = wrap64 (sub_ℤ a b)

-- `np.any(np.diff(times) <= 0)`
abbrev pub is_unordered : List ℤ → Bool
is_unordered [] = false
is_unordered (a ∷ []) = false
is_unordered (a ∷ b ∷ rest) = not (ltb_ℤ (pos 0) (sub_int64 b a)) || is_unordered (b ∷ rest)

abbrev pub last_time : List ℤ → Option ℤ
last_time [] = none
last_time (t ∷ []) = some t
last_time (t ∷ next ∷ rest) = last_time (next ∷ rest)

module _ {F : Type 0} ⦃fl : Floats F⦄ where
  -- numpy refuses rows of different lengths.
  abbrev pub is_ragged : List (List F) → Bool
  is_ragged [] = false
  is_ragged (row ∷ rows) = any (λ other. not (length other == length row)) rows

  abbrev pub are_finite_rows : List (List F) → ℕ → Bool
  are_finite_rows rows size = all (λ row. length row == size && all_finite row) rows

  abbrev pub last_two : List (List F) → Option (List F × List F)
  last_two [] = none
  last_two (row ∷ []) = none
  last_two (row ∷ next ∷ []) = some (row, next)
  last_two (row ∷ next ∷ other ∷ rows) = last_two (next ∷ other ∷ rows)

  abbrev pub median3 : F → F → F → F
  median3 a b c = py_max (py_min a b) (py_min (py_max a b) c)

  -- `np.where(np.abs(current - median) > limit, median, current)`
  abbrev pub replace_outlier : F → F → F → F
  replace_outlier limit x median = if lt limit (fl.abs (x ⊖ median)) then median else x

  abbrev pub medians : List F → List F → List F → List F
  medians = zip_with3 median3

  pub reject_vector_outlier : List (List F) → List F → F → Result (List F)
  reject_vector_outlier recent_samples sample limit = do
    current ← vec sample 3
    raise_if (not (fl.is_finite limit) || is_negative limit)
        "outlier threshold must be finite and non-negative"
    raise_if (is_ragged recent_samples) "setting an array element with a sequence"
    elim (last_two recent_samples) [
      | none ↦ ok current
      | some (older, newer) ↦
          if all is_empty recent_samples || le limit zero_float
          then ok current
          else if not (are_finite_rows recent_samples 3)
          then err (value_error "recent vector samples must be finite three-vectors")
          else ok (zip_with (replace_outlier limit) current (medians older newer current))
    ]

  abbrev pub last_row : List (List F) → Option (List F)
  last_row [] = none
  last_row (row ∷ []) = some row
  last_row (row ∷ next ∷ rows) = last_row (next ∷ rows)

  -- A sum of rows, in order.
  abbrev pub sum_rows : List F → List (List F) → List F
  sum_rows total [] = total
  sum_rows total (row ∷ rows) = sum_rows (add_vectors total row) rows

  abbrev pub zero_row : List F
  zero_row = zero_float ∷ zero_float ∷ zero_float ∷ []

  abbrev pub mean_rows : List (List F) → List F
  mean_rows rows = map (λ x. x ⊘ of_int (pos (length rows))) (sum_rows zero_row rows)

  -- `np.sum(centered_time[:, np.newaxis] * (rates - mean_rate), axis=0)`
  abbrev pub weighted_deviations : List F → List (List F) → List F → List F
  weighted_deviations weights rows mean =
      sum_rows zero_row (zip_with (λ w row. map (λ x. w ⊗ x) (sub_vectors row mean)) weights rows)

  -- The rate expected after the horizon, by the line fitted to the samples. `relative_time` ends at
  -- the newest sample.
  unfoldable pub predicted_rate : List F → List F → F → List (List F) → F → F → List F
  predicted_rate relative_time centered_time denominator rates horizon acceleration_limit =
      let mean_rate = mean_rows rates in
      let slope =
        clip_all (map (λ x. x ⊘ denominator) (weighted_deviations centered_time rates mean_rate))
          acceleration_limit in
      let mean_time = fl.np_mean relative_time in
      let fitted_latest = sub_vectors mean_rate (scale mean_time slope) in
      add_vectors fitted_latest (scale horizon slope)

  unfoldable pub corrected_rate : List ℤ → ℤ → List (List F) → List F → F → F → F → List F
  corrected_rate times newest rates latest horizon acceleration_limit correction_limit =
      let relative_time = map (λ t. seconds (sub_int64 t newest)) times in
      let centered_time = map (λ t. t ⊖ fl.np_mean relative_time) relative_time in
      let denominator = fl.np_dot centered_time centered_time in
      let predicted =
        predicted_rate relative_time centered_time denominator rates horizon acceleration_limit in
      if le denominator (lit 1 12)
      then latest
      else add_vectors latest (clip_all (sub_vectors predicted latest) correction_limit)

  abbrev is_limit : F → Bool
  is_limit v = fl.is_finite v && le zero_float v

  unfoldable pub timestamped_rate_prediction : List ℤ → List (List F) → F → F → F → Result (List F)
  timestamped_rate_prediction times rates horizon acceleration_limit correction_limit = do
    elim (all fits_int64 times) [ true ↦ ok tt | false ↦ err overflow_error ]
    raise_if (is_ragged rates) "setting an array element with a sequence"
    raise_if (not (length rates == length times) || is_empty times || not (are_finite_rows rates 3))
        "timestamped rates must be a non-empty sequence of three-vectors"
    raise_if (is_unordered times) "rate sample timestamps must be strictly increasing"
    raise_if (not (all is_limit (horizon ∷ acceleration_limit ∷ correction_limit ∷ [])))
        "rate prediction limits must be finite and non-negative"
    latest ← or_raise (last_row rates) (value_error "no rates")
    newest ← or_raise (last_time times) (value_error "no times")
    ok (
        if ltb (length times) 3
          || le horizon zero_float
          || le acceleration_limit zero_float
          || le correction_limit zero_float
        then latest
        else corrected_rate times newest rates latest horizon acceleration_limit correction_limit)
