-- ===== src/Trajectory/Gate.antt =====
-- When a trajectory may start, and what its clock shows before.
use robot_core.Prelude.{
  ℕ, String, ◌≡◌, ◌⊎◌, inl, inr, Bool-cases, Option-cases, refl, Bool, true, false, none, some,
  List, [], ◌∷◌, All, arith,
}
use robot_core.Floats.{Floats, zero_float}
use robot_core.Tracking.Rotation.{Vector3, Quaternion}
use robot_core.Trajectory.{
  Parameters, TrajectoryCommand, control_mode_is_compatible, trajectory_time_s, on_reset_scenario,
  on_stop_scenario, latch_targets, Event, reset_event, stop_event, validate_event, position_event,
  attitude_event, on_event, on_events,
}

-- No pose is latched and nothing has started.
abbrev pub IsStopped : {F : Type 0} → TrajectoryCommand F → Type 0
IsStopped s = (s.tracking_started ≡ false) × (s.motion_start_position ≡ none)

-- The event is no validation.
abbrev pub IsUnvalidated : {F : Type 0} → Event F → Type 0
IsUnvalidated (reset_event p now_ns) = Unit
IsUnvalidated (stop_event now_ns) = Unit
IsUnvalidated (validate_event p) = ⊥
IsUnvalidated (position_event position) = Unit
IsUnvalidated (attitude_event quaternion) = Unit

module _ {F : Type 0} ⦃fl : Floats F⦄ (envelope : TrajectoryCommand F → Bool × String) where
  on_event-IsStopped :
      (e : Event F) (s : TrajectoryCommand F)
      → IsUnvalidated e
      → IsStopped s
      → IsStopped (on_event envelope e s)
  unfolding on_event on_reset_scenario on_stop_scenario
  on_event-IsStopped (reset_event p now_ns) s k h = ground arith
  on_event-IsStopped (stop_event now_ns) s k h = (refl, refl)
  on_event-IsStopped (validate_event p) s k h = absurd k
  on_event-IsStopped (position_event position) s k h = h
  on_event-IsStopped (attitude_event quaternion) s k h = h

  on_events-IsStopped :
      (es : List (Event F)) (s : TrajectoryCommand F)
      → All IsUnvalidated es
      → IsStopped s
      → IsStopped (on_events envelope es s)
  unfolding on_events
  on_events-IsStopped [] s k h = h
  on_events-IsStopped (e ∷ es) s k h =
      on_events-IsStopped es (on_event envelope e s) k.1 (on_event-IsStopped e s k.0 h)

  stop-IsStopped :
      (stop_ns : ℕ) (s : TrajectoryCommand F) → IsStopped (on_stop_scenario stop_ns s).0
  unfolding on_stop_scenario
  stop-IsStopped stop_ns s = (refl, refl)

  -- After a stop, whatever resets, stops and poses follow, as long as nothing is validated no reset
  -- succeeds and the trajectory's clock shows zero.
  pub stop_holds :
      (es : List (Event F)) (s : TrajectoryCommand F) (stop_ns now_ns : ℕ) (p : Parameters F)
      → All IsUnvalidated es
      → let s' = on_events envelope es (on_stop_scenario stop_ns s).0 in
        ((on_reset_scenario p now_ns s').1.success ≡ false)
        × (trajectory_time_s now_ns s' ≡ zero_float)
  unfolding on_reset_scenario trajectory_time_s
  stop_holds es s stop_ns now_ns p k =
      let stopped =
        on_events-IsStopped es (on_stop_scenario stop_ns s).0 k (stop-IsStopped stop_ns s) in
      (ground arith, ground arith)

module _ {F : Type 0} ⦃fl : Floats F⦄ where
  -- A reset starts the trajectory exactly when it is answered with success: then the type and the mode
  -- fit, a start pose is latched and is kept, and the clock counts from that moment. Otherwise nothing
  -- changes.
  pub on_reset_scenario_cases :
      (p : Parameters F) (now_ns : ℕ) (s : TrajectoryCommand F)
      → let (s', response) = on_reset_scenario p now_ns s in
        ((response.success ≡ true)
          × (control_mode_is_compatible p.trajectory_type p.control_mode ≡ true)
          × ((position : Vector3 F) × (s.motion_start_position ≡ some position)
              × (s'.motion_start_position ≡ some position))
          × ((quaternion : Quaternion F) × (s.motion_start_quaternion ≡ some quaternion)
              × (s'.motion_start_quaternion ≡ some quaternion))
          × (s'.tracking_started ≡ true)
          × (s'.started_ns ≡ now_ns))
        ⊎ ((response.success ≡ false) × (s' ≡ s))
  unfolding on_reset_scenario latch_targets
  on_reset_scenario_cases p now_ns s =
      elim (Bool-cases (control_mode_is_compatible p.trajectory_type p.control_mode)) [
        | inr unfit ↦ inr (ground arith)
        | inl fit ↦ elim (Option-cases s.motion_start_position) [
          | inl missing ↦ inr (ground arith)
          | inr (position, has_position) ↦ elim (Option-cases s.motion_start_quaternion) [
            | inl missing ↦ inr (ground arith)
            | inr (quaternion, has_quaternion) ↦ inl (
              ground arith,
              fit,
              (position, has_position, ground arith),
              (quaternion, has_quaternion, ground arith),
              ground arith,
              ground arith,
            )
          ]
        ]
      ]
