-- ===== src/Catalog/Load/Valid.antt =====
-- What every task of a loaded catalog satisfies.
use robot_core.Prelude.{
  String, ◌≡◌, inl, inr, Bool-cases, true, false, not, ◌&&◌, some, List, [], ◌∷◌, All, codes,
  str_eq, str_eq_iff, arith, if◌then◌else◌,
}
use mathlib.Core.Path.{subst}
use robot_core.Prelude.Results.{ok, >>=-eq-ok}
use robot_core.Prelude.Int.{pos}
use robot_core.Floats.{Floats, lt, le, zero_float}
use robot_core.Python
use robot_core.Python.{Value, one_of}
use robot_core.Catalog.{
  Task, Scenario, control_modes, find, insert, matches_identifier, identifier, finite_number,
  text_of, has_field,
}
use robot_core.Catalog.Load.{
  validate_scenario, validate_scenarios, resolve_task, resolve_tasks, document_parts, load,
}

-- A scenario that the loader accepts.
pub record IsValidScenario {F : Type 0} (fields : Scenario F) : Type 0 where
  pub declares_type : has_field "trajectory_type" fields ≡ true
  pub declares_attitude : has_field "attitude_mode" fields ≡ true

-- A task that the loader resolves.
pub record IsValidTask {F : Type 0} ⦃fl : Floats F⦄ (t : Task F) : Type 0 where
  pub names_itself : matches_identifier (codes t.name) ≡ true
  pub mode_known : one_of t.control_mode control_modes ≡ true
  pub controller_fits : t.controller ≡ (if str_eq t.control_mode "rl_policy" then "rl" else "pid")
  pub duration_finite : fl.is_finite t.duration_s ≡ true
  pub duration_positive : lt zero_float t.duration_s ≡ true
  pub scenario_valid : IsValidScenario t.trajectory
  pub altitude_holds :
      (str_eq t.control_mode "altitude_hold"
        && not (str_eq (text_of "trajectory_type" t.trajectory) "hold"))
      ≡ false

module _ {ℓ κ} {V : Type ℓ} (P : String × V → Type κ) where
  pub find-All :
      (k : String) (d : List (String × V)) {v : V} → All P d → find k d ≡ some v → P (k, v)
  unfolding find
  find-All k [] h e = cc
  find-All k ((j, w) ∷ d) {v} h e = elim (Bool-cases (str_eq j k)) [
    | inl found ↦ subst P (ground (arith, str_eq_iff j k)) h.0
    | inr other ↦ find-All k d h.1 (ground arith)
  ]

  pub insert-All :
      (k : String) (v : V) (d : List (String × V)) → All P d → P (k, v) → All P (insert k v d)
  unfolding insert
  insert-All k v [] h p = (p, tt)
  insert-All k v ((j, w) ∷ d) h p = elim (Bool-cases (str_eq j k)) [
    | inl found ↦ rw found (subst P (ground (arith, str_eq_iff j k)) p, h.1)
    | inr other ↦ rw other (h.0, insert-All k v d h.1 p)
  ]

module _ {F : Type 0} ⦃fl : Floats F⦄ where
  validate_scenario-IsValid :
      (raw_name raw : Value F) {name : String} {fields : Scenario F}
      → validate_scenario raw_name raw ≡ ok (name, fields)
      → IsValidScenario fields
  unfolding validate_scenario
  validate_scenario-IsValid raw_name raw h = ground arith

  finite_number-IsFinite :
      (v : Value F) (label : String) {x : F} → finite_number v label ≡ ok x → fl.is_finite x ≡ true
  unfolding finite_number
  finite_number-IsFinite v label h = ground arith

  positive : (x : F) → fl.is_finite x ≡ true → le x zero_float ≡ false → lt zero_float x ≡ true
  positive x h k =
      ground (arith, fl.not_lt_le zero_float x, fl.finite_le x, fl.of_int_le (pos 0) (pos 0))

  resolve_task-IsFinite :
      (scenarios : List (String × Scenario F)) (d r raw_id raw : Value F) {id : String} {t : Task F}
      → resolve_task scenarios d r raw_id raw ≡ ok (id, t)
      → (fl.is_finite t.duration_s ≡ true) × (le t.duration_s zero_float ≡ false)
  unfolding resolve_task finite_number
  resolve_task-IsFinite scenarios d r raw_id raw h = ground arith

  resolve_task-finds :
      (scenarios : List (String × Scenario F)) (d r raw_id raw : Value F) {id : String} {t : Task F}
      → resolve_task scenarios d r raw_id raw ≡ ok (id, t)
      → find t.scenario scenarios ≡ some t.trajectory
  unfolding resolve_task
  resolve_task-finds scenarios d r raw_id raw h = ground arith

  resolve_task-IsValid :
      (scenarios : List (String × Scenario F)) (d r raw_id raw : Value F) {id : String} {t : Task F}
      → All (λ named. IsValidScenario named.1) scenarios
      → resolve_task scenarios d r raw_id raw ≡ ok (id, t)
      → (t.name ≡ id) × IsValidTask t
  unfolding resolve_task identifier
  resolve_task-IsValid scenarios d r raw_id raw {id} {t} valid h = (
    ground arith,
    record {
      names_itself = ground arith;
      mode_known = ground arith;
      controller_fits = ground arith;
      duration_finite = (resolve_task-IsFinite scenarios d r raw_id raw h).0;
      duration_positive =
          let (finite, above) = resolve_task-IsFinite scenarios d r raw_id raw h in
          positive t.duration_s finite above;
      scenario_valid =
          find-All (λ named. IsValidScenario named.1) t.scenario scenarios valid
            (resolve_task-finds scenarios d r raw_id raw h);
      altitude_holds = ground arith;
    },
  )

  -- A task stored under its own name.
  abbrev pub IsStored : String × Task F → Type 0
  IsStored named = (named.1.name ≡ named.0) × IsValidTask named.1

  validate_scenarios-All :
      (raws : List (Value F × Value F)) (before : List (String × Scenario F))
      {after : List (String × Scenario F)}
      → All (λ named. IsValidScenario named.1) before
      → validate_scenarios raws before ≡ ok after
      → All (λ named. IsValidScenario named.1) after
  unfolding validate_scenarios
  validate_scenarios-All [] before valid h =
      subst (All (λ named. IsValidScenario named.1)) (ground arith) valid
  validate_scenarios-All ((raw_name, raw) ∷ rest) before valid h =
      let (named, validated, more) = >>=-eq-ok (validate_scenario raw_name raw) _ h in
      validate_scenarios-All rest (insert named.0 named.1 before)
        (insert-All (λ named. IsValidScenario named.1) named.0 named.1 before valid
          (validate_scenario-IsValid raw_name raw validated))
        more

  resolve_tasks-All :
      (scenarios : List (String × Scenario F)) (d r : Value F) (raws : List (Value F × Value F))
      (before : List (String × Task F)) {after : List (String × Task F)}
      → All (λ named. IsValidScenario named.1) scenarios
      → All IsStored before
      → resolve_tasks scenarios d r raws before ≡ ok after
      → All IsStored after
  unfolding resolve_tasks
  resolve_tasks-All scenarios d r [] before valid stored h =
      subst (All IsStored) (ground arith) stored
  resolve_tasks-All scenarios d r ((raw_id, raw) ∷ rest) before valid stored h =
      let (named, resolved, more) = >>=-eq-ok (resolve_task scenarios d r raw_id raw) _ h in
      resolve_tasks-All scenarios d r rest (insert named.0 named.1 before) valid
        (insert-All IsStored named.0 named.1 before stored
          (resolve_task-IsValid scenarios d r raw_id raw valid resolved))
        more

  -- Every task of a catalog that loads is stored under its own name, which is a valid identifier;
  -- its control mode is a known one, its controller is rl exactly for rl_policy, its duration is
  -- finite and positive, its scenario declares a type and an attitude, and altitude hold only
  -- comes with a hold scenario.
  pub load-IsValid :
      (document : List (Value F × Value F)) {tasks : List (String × Task F)}
      → load document ≡ ok tasks
      → All IsStored tasks
  unfolding load
  load-IsValid document h =
      let (parts, checked, rest) = >>=-eq-ok (document_parts document) _ h in
      let (scenarios, validated, resolved) = >>=-eq-ok (validate_scenarios parts.0 []) _ rest in
      resolve_tasks-All scenarios (Python.float_value parts.2) (Python.bool_value parts.3) parts.1
        [] (validate_scenarios-All parts.0 [] tt validated) tt resolved
