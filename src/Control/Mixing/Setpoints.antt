-- ===== src/Control/Mixing/Setpoints.antt =====
-- The planar speed setpoints lie within the speed limits.
use robot_core.Prelude.{◌≡◌, true, false, inl, inr, List, [], ◌∷◌, arith}
use robot_core.Prelude.Results.{ok, Result-cases}
use robot_core.Floats.{Floats, clip, ◌⊕◌, ◌⊗◌}
use robot_core.Floats.Vectors.{any, is_negative, add_vectors, mul_vectors, clip_each}
use robot_core.Floats.Order.{IsWithin, clip-IsWithin, nonneg_of_tests}
use robot_core.Control.{vec}
use robot_core.Control.Mixing.{station_velocity_setpoints}

module _ {F : Type 0} ⦃fl : Floats F⦄ where
  pub vec-pair :
      (values : List F) {answer : List F}
      → vec values 2 ≡ ok answer
      → (a : F) × (b : F) × (answer ≡ a ∷ b ∷ [])
        × (fl.is_finite a ≡ true)
        × (fl.is_finite b ≡ true)
  unfolding vec
  vec-pair [] h = ground arith
  vec-pair (a ∷ []) h = ground arith
  vec-pair (a ∷ b ∷ []) h = (a, b, ground arith, ground arith, ground arith)
  vec-pair (a ∷ b ∷ c ∷ rest) h = ground arith

  vec-limits :
      (a b : F) {limits : List F}
      → vec (a ∷ b ∷ []) 2 ≡ ok limits
      → (limits ≡ a ∷ b ∷ []) × (fl.is_finite a ≡ true) × (fl.is_finite b ≡ true)
  unfolding vec
  vec-limits a b h = ground arith

  abbrev IsPair : List F → Type 0
  IsPair xs =
      (a : F) × (b : F) × (xs ≡ a ∷ b ∷ []) × (fl.is_finite a ≡ true) × (fl.is_finite b ≡ true)

  setpoint-IsWithin :
      (t e g limit : F)
      → fl.is_finite t ≡ true
      → fl.is_finite e ≡ true
      → fl.is_finite g ≡ true
      → fl.is_finite limit ≡ true
      → is_negative limit ≡ false
      → IsWithin limit (clip (t ⊕ g ⊗ e) (fl.neg limit) limit)
  setpoint-IsWithin t e g limit ft fe fg fl' h =
      clip-IsWithin (t ⊕ g ⊗ e) limit (fl.add_number t (g ⊗ e) ft (fl.mul_number g e fg fe))
        (nonneg_of_tests limit fl' h)

  pair_IsWithin :
      (surge_limit sway_limit : F) {ts es gs ls answer : List F}
      → IsPair ts
      → IsPair es
      → IsPair gs
      → (ls ≡ surge_limit ∷ sway_limit ∷ [])
        × (fl.is_finite surge_limit ≡ true)
        × (fl.is_finite sway_limit ≡ true)
      → any is_negative ls ≡ false
      → answer ≡ clip_each (add_vectors ts (mul_vectors gs es)) ls
      → (surge : F) × (sway : F) × (answer ≡ surge ∷ sway ∷ [])
        × IsWithin surge_limit surge
        × IsWithin sway_limit sway
  pair_IsWithin surge_limit sway_limit {ts} {es} {gs} {ls} {answer} (t1, t2, et, f1, f2)
        (e1, e2, ee, f3, f4) (g1, g2, eg, f5, f6) (el, f7, f8) tests e =
      (
        clip (t1 ⊕ g1 ⊗ e1) (fl.neg surge_limit) surge_limit,
        clip (t2 ⊕ g2 ⊗ e2) (fl.neg sway_limit) sway_limit,
        ground arith,
        setpoint-IsWithin t1 e1 g1 surge_limit f1 f3 f5 f7 (ground arith),
        setpoint-IsWithin t2 e2 g2 sway_limit f2 f4 f6 f8 (ground arith),
      )

  -- Away from the center approach, the setpoints that are returned are a surge and a sway within their
  -- speed limits.
  pub station_velocity_setpoints-IsWithin :
      (target error gains : List F) (surge_limit sway_limit : F) {answer : List F}
      → station_velocity_setpoints target error gains surge_limit sway_limit false ≡ ok answer
      → (surge : F) × (sway : F) × (answer ≡ surge ∷ sway ∷ [])
        × IsWithin surge_limit surge
        × IsWithin sway_limit sway
  unfolding station_velocity_setpoints
  station_velocity_setpoints-IsWithin target error gains surge_limit sway_limit {answer} h =
      elim (Result-cases (vec target 2)) [
        | inl bad ↦ ground arith
        | inr (ts, e1) ↦ elim (Result-cases (vec error 2)) [
          | inl bad ↦ ground arith
          | inr (es, e2) ↦ elim (Result-cases (vec gains 2)) [
            | inl bad ↦ ground arith
            | inr (gs, e3) ↦ elim (Result-cases (vec (surge_limit ∷ sway_limit ∷ []) 2)) [
              | inl bad ↦ ground arith
              | inr (ls, e4) ↦
                  pair_IsWithin surge_limit sway_limit (vec-pair target e1) (vec-pair error e2)
                    (vec-pair gains e3) (vec-limits surge_limit sway_limit e4) (ground arith)
                    (ground arith)
            ]
          ]
        ]
      ]
