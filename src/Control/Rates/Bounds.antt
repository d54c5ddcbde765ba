-- ===== src/Control/Rates/Bounds.antt =====
-- The predicted rate stays close to the newest sample.
use mathlib.Core.Path.{subst}
use robot_core.Prelude.{
  ◌≡◌, refl, true, false, Bool, some, ◌||◌, ◌&&◌, ◌==◌, ltb, length, Option-cases, if◌then◌else◌,
  if_keeps, inl, inr, List, [], ◌∷◌, arith,
}
use robot_core.Prelude.Int.{ℤ}
use robot_core.Prelude.Results.{ok}
use robot_core.Floats.{Floats, le, lt, clip, zero_float, ◌⊕◌}
use robot_core.Floats.Vectors.{add_vectors, clip_all, all_finite, all}
use robot_core.Floats.Order.{clip-IsBounded}
use robot_core.Control.Rates.{timestamped_rate_prediction, corrected_rate, last_row, last_time}

module _ {F : Type 0} ⦃fl : Floats F⦄ where
  -- y does not lie outside the interval from x - limit to x + limit.
  abbrev pub IsNear : F → F → F → Type 0
  IsNear limit x y = (lt y (x ⊕ fl.neg limit) ≡ false) × (lt (x ⊕ limit) y ≡ false)

  -- Component by component, for the components of the second vector.
  abbrev pub AreNear : F → List F → List F → Type 0
  AreNear limit (x ∷ xs) (y ∷ ys) = IsNear limit x y × AreNear limit xs ys
  AreNear limit [] ys = ys ≡ []
  AreNear limit (x ∷ xs) [] = Unit

  not_outside :
      (lo y hi : F) → le lo y ≡ true → le y hi ≡ true → (lt y lo ≡ false) × (lt hi y ≡ false)
  not_outside lo y hi h k = (ground (arith, fl.lt_not_le y lo), ground (arith, fl.lt_not_le hi y))

  nan_not_outside : (lo y hi : F) → le y y ≡ false → (lt y lo ≡ false) × (lt hi y ≡ false)
  nan_not_outside lo y hi h = (
    ground (arith, fl.lt_le y lo, fl.le_left y lo),
    ground (arith, fl.lt_le hi y, fl.le_right hi y),
  )

  corrected-IsNear :
      (x d limit : F)
      → fl.is_finite x ≡ true
      → le zero_float limit ≡ true
      → IsNear limit x (x ⊕ clip d (fl.neg limit) limit)
  corrected-IsNear x d limit finite h =
      let c = clip d (fl.neg limit) limit in
      elim (clip-IsBounded d limit h) [
        | inl bad ↦
            nan_not_outside (x ⊕ fl.neg limit) (x ⊕ c) (x ⊕ limit) (fl.add_nan x c (ground arith))
        | inr (low, high) ↦
            not_outside (x ⊕ fl.neg limit) (x ⊕ c) (x ⊕ limit)
              (fl.add_le x (fl.neg limit) c finite low) (fl.add_le x c limit finite high)
      ]

  same-IsNear : (x limit : F) → le zero_float limit ≡ true → IsNear limit x x
  same-IsNear x limit h = (
    fl.add_nonpos x (fl.neg limit) (
        fl.le_trans (fl.neg limit) (fl.neg zero_float) zero_float (fl.neg_le zero_float limit h)
          fl.neg_zero),
    fl.add_nonneg x limit h,
  )

  corrected-AreNear :
      (latest ds : List F) (limit : F)
      → all_finite latest ≡ true
      → le zero_float limit ≡ true
      → AreNear limit latest (add_vectors latest (clip_all ds limit))
  corrected-AreNear [] ds limit f h = refl
  corrected-AreNear (x ∷ xs) [] limit f h = tt
  corrected-AreNear (x ∷ xs) (d ∷ ds) limit f h =
      (corrected-IsNear x d limit (ground arith) h, corrected-AreNear xs ds limit (ground arith) h)

  same-AreNear : (xs : List F) (limit : F) → le zero_float limit ≡ true → AreNear limit xs xs
  same-AreNear [] limit h = refl
  same-AreNear (x ∷ xs) limit h = (same-IsNear x limit h, same-AreNear xs limit h)

  last_row-all :
      (p : List F → Bool) (rows : List (List F)) (row : List F)
      → all p rows ≡ true
      → last_row rows ≡ some row
      → p row ≡ true
  last_row-all p [] found h e = ground arith
  last_row-all p (row ∷ []) found h e = ground arith
  last_row-all p (row ∷ next ∷ rows) found h e = last_row-all p (next ∷ rows) found (ground arith) e

  corrected_rate-AreNear :
      (times : List ℤ) (newest : ℤ) (rates : List (List F)) (latest : List F) (horizon a limit : F)
      → all_finite latest ≡ true
      → le zero_float limit ≡ true
      → AreNear limit latest (corrected_rate times newest rates latest horizon a limit)
  unfolding corrected_rate
  corrected_rate-AreNear times newest rates latest horizon a limit f h =
      if_keeps (AreNear limit latest) _ _ _ (same-AreNear latest limit h)
        (corrected-AreNear latest _ limit f h)

  -- Each component of a predicted rate lies no further than the correction limit from that of the
  -- newest sample, whatever the timestamps, unless it is a NaN.
  pub timestamped_rate_prediction-AreNear :
      (times : List ℤ) (rates : List (List F)) (horizon acceleration_limit correction_limit : F)
      (latest : List F) {rate : List F}
      → last_row rates ≡ some latest
      → timestamped_rate_prediction times rates horizon acceleration_limit correction_limit
        ≡ ok rate
      → AreNear correction_limit latest rate
  unfolding timestamped_rate_prediction
  timestamped_rate_prediction-AreNear times rates horizon a limit latest {rate} last h =
      elim (Option-cases (last_time times)) [
        | inl bad ↦ ground arith
        | inr (newest, e) ↦
            let small =
              ltb (length times) 3
              || le horizon zero_float
              || le a zero_float
              || le limit zero_float in
            let corrected = corrected_rate times newest rates latest horizon a limit in
            let equal : (if small then latest else corrected) ≡ rate = ground arith in
            let nonneg : le zero_float limit ≡ true = ground arith in
            let finite : all_finite latest ≡ true =
              ground
                (arith, last_row-all (λ row. length row == 3 && all_finite row) rates latest) in
            subst (AreNear limit latest) equal (
              if_keeps (AreNear limit latest) small latest corrected
                (same-AreNear latest limit nonneg)
                (corrected_rate-AreNear times newest rates latest horizon a limit finite nonneg))
      ]
