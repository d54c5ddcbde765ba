-- ===== src/Floats/Vectors.antt =====
-- numpy vectors of floats as lists, and the elementwise operations that the controllers call.
use robot_core.Prelude.{◌≡◌, Bool, true, false, not, ◌&&◌, ◌||◌, List, [], ◌∷◌, map, All, arith}
use robot_core.Prelude.Results.{Result, ok, err, value_error}
use robot_core.Floats.{Floats, ◌⊖◌, ◌⊗◌, lt, le, clip, zero_float, np_maximum, np_minimum}

module _ {ℓ} {A B C : Type ℓ} where
  abbrev pub zip_with : (A → B → C) → List A → List B → List C
  zip_with f (x ∷ xs) (y ∷ ys) = f x y ∷ zip_with f xs ys
  zip_with f _ _ = []

abbrev pub zip_with3 {ℓ} : {A : Type ℓ} → (A → A → A → A) → List A → List A → List A → List A
zip_with3 f (x ∷ xs) (y ∷ ys) (z ∷ zs) = f x y z ∷ zip_with3 f xs ys zs
zip_with3 f _ _ _ = []

module _ {ℓ} {A : Type ℓ} where
  -- `np.any` and `np.all` of a test of the components.
  abbrev pub any : (A → Bool) → List A → Bool
  any p [] = false
  any p (x ∷ xs) = p x || any p xs

  abbrev pub all : (A → Bool) → List A → Bool
  all p [] = true
  all p (x ∷ xs) = p x && all p xs

  pub all-All : (p : A → Bool) (xs : List A) → all p xs ≡ true → All (λ x. p x ≡ true) xs
  all-All p [] h = tt
  all-All p (x ∷ xs) h = ground (arith, all-All p xs)

  pub any-All : (p : A → Bool) (xs : List A) → any p xs ≡ false → All (λ x. p x ≡ false) xs
  any-All p [] h = tt
  any-All p (x ∷ xs) h = ground (arith, any-All p xs)

module _ {F : Type 0} ⦃fl : Floats F⦄ where
  abbrev pub all_finite : List F → Bool
  all_finite = all fl.is_finite

  abbrev pub is_negative : F → Bool
  is_negative x = lt x zero_float

  abbrev pub is_zero : F → Bool
  is_zero x = le x zero_float && le zero_float x

  abbrev pub add_vectors : List F → List F → List F
  add_vectors = zip_with fl.add

  abbrev pub sub_vectors : List F → List F → List F
  sub_vectors = zip_with fl.sub

  abbrev pub mul_vectors : List F → List F → List F
  mul_vectors = zip_with fl.mul

  abbrev pub scale : F → List F → List F
  scale k = map (λ x. x ⊗ k)

  -- `np.clip(xs, -limits, limits)`, and with one limit for all components.
  abbrev pub clip_each : List F → List F → List F
  clip_each = zip_with (λ x limit. clip x (fl.neg limit) limit)

  abbrev pub clip_all : List F → F → List F
  clip_all xs limit = map (λ x. clip x (fl.neg limit) limit) xs

  -- `np.max` and `np.min`, which raise on an empty array.
  abbrev pub max_from : F → List F → F
  max_from x [] = x
  max_from x (y ∷ ys) = max_from (np_maximum x y) ys

  abbrev pub min_from : F → List F → F
  min_from x [] = x
  min_from x (y ∷ ys) = min_from (np_minimum x y) ys

  unfoldable pub np_max : List F → Result F
  np_max [] = err (value_error "zero-size array to reduction operation maximum")
  np_max (x ∷ xs) = ok (max_from x xs)

  unfoldable pub np_min : List F → Result F
  np_min [] = err (value_error "zero-size array to reduction operation minimum")
  np_min (x ∷ xs) = ok (min_from x xs)

  abbrev is_infinite : F → Bool
  is_infinite x = le x x && not (fl.is_finite x)

  -- `math.isclose(a, b, rel_tol=rel, abs_tol=tol)`
  unfoldable pub is_close : F → F → F → F → Bool
  is_close rel tol a b =
      let distance = fl.abs (b ⊖ a) in
      le a b && le b a
      || not (is_infinite a)
        && not (is_infinite b)
        && (le distance (fl.abs (rel ⊗ b)) || le distance (fl.abs (rel ⊗ a)) || le distance tol)
