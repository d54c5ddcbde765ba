-- ===== src/Catalog/Load/Lookup.antt =====
-- What a loaded catalog answers: `task` and `summaries` agree.
use robot_core.Prelude.{
  String, ◌≡◌, ◌≢◌, refl, none, some, List, [], ◌∷◌, All, All-map, All-map_of_both, str_eq_iff,
  arith,
}
use mathlib.Core.Path.{subst}
use robot_core.Prelude.Results.{ok, >>=-eq-ok}
use robot_core.Floats.{Floats}
use robot_core.Python
use robot_core.Python.{Value}
use robot_core.Catalog.{Task, Scenario, find, insert, identifier}
use robot_core.Catalog.Load.{
  resolve_task, resolve_tasks, validate_scenarios, document_parts, load, task, summaries,
}
use robot_core.Catalog.Load.Valid.{IsValidTask, IsStored, find-All, load-IsValid}

module _ {ℓ} {V : Type ℓ} where
  -- No key occurs twice.
  abbrev pub IsDistinct : List (String × V) → Type ℓ
  IsDistinct [] = Unit
  IsDistinct ((k, v) ∷ d) = (find k d ≡ none) × IsDistinct d

  find-insert_ne :
      (j k : String) (v : V) (d : List (String × V)) → j ≢ k → find j (insert k v d) ≡ find j d
  unfolding find insert
  find-insert_ne j k v [] h = ground (arith, str_eq_iff k j)
  find-insert_ne j k v ((i, w) ∷ d) h =
      ground (arith, str_eq_iff i k, str_eq_iff i j, str_eq_iff k j, find-insert_ne j k v d h)

  insert-IsDistinct :
      (k : String) (v : V) (d : List (String × V)) → IsDistinct d → IsDistinct (insert k v d)
  unfolding find insert
  insert-IsDistinct k v [] h = (refl, tt)
  insert-IsDistinct k v ((j, w) ∷ d) h =
      ground (arith, str_eq_iff j k, insert-IsDistinct k v d h.1, find-insert_ne j k v d)

  -- With distinct keys every entry is found under its key.
  finds_entries :
      (d : List (String × V)) → IsDistinct d → All (λ named. find named.0 d ≡ some named.1) d
  unfolding find
  finds_entries [] h = tt
  finds_entries ((k, v) ∷ d) h = (
    ground (arith, str_eq_iff k k),
    All-map (λ named. find named.0 d ≡ some named.1) _ d
        (λ named found. ground (arith, str_eq_iff k named.0)) (finds_entries d h.1),
  )

module _ {F : Type 0} ⦃fl : Floats F⦄ where
  resolve_tasks-IsDistinct :
      (scenarios : List (String × Scenario F)) (d r : Value F) (raws : List (Value F × Value F))
      (before : List (String × Task F)) {after : List (String × Task F)}
      → IsDistinct before
      → resolve_tasks scenarios d r raws before ≡ ok after
      → IsDistinct after
  unfolding resolve_tasks
  resolve_tasks-IsDistinct scenarios d r [] before distinct h =
      subst IsDistinct (ground arith) distinct
  resolve_tasks-IsDistinct scenarios d r ((raw_id, raw) ∷ rest) before distinct h =
      let (named, resolved, more) = >>=-eq-ok (resolve_task scenarios d r raw_id raw) _ h in
      resolve_tasks-IsDistinct scenarios d r rest (insert named.0 named.1 before)
        (insert-IsDistinct named.0 named.1 before distinct) more

  load-IsDistinct :
      (document : List (Value F × Value F)) {tasks : List (String × Task F)}
      → load document ≡ ok tasks
      → IsDistinct tasks
  unfolding load
  load-IsDistinct document h =
      let (parts, checked, rest) = >>=-eq-ok (document_parts document) _ h in
      let (scenarios, validated, resolved) = >>=-eq-ok (validate_scenarios parts.0 []) _ rest in
      resolve_tasks-IsDistinct scenarios (Python.float_value parts.2) (Python.bool_value parts.3)
        parts.1 [] tt resolved

  -- A task that a loaded catalog hands out carries the id that was asked for, and is valid.
  pub load-task :
      (document : List (Value F × Value F)) {tasks : List (String × Task F)} (task_id : String)
      {t : Task F}
      → load document ≡ ok tasks
      → task tasks task_id ≡ ok t
      → (t.name ≡ task_id) × IsValidTask t
  unfolding task identifier
  load-task document {tasks} task_id {t} loaded h =
      find-All IsStored task_id tasks (load-IsValid document loaded) (ground arith)

  task-found :
      (tasks : List (String × Task F)) (named : String × Task F)
      → IsStored named
      → find named.0 tasks ≡ some named.1
      → task tasks named.0 ≡ ok named.1
  unfolding task identifier
  task-found tasks named stored found = ground (arith, stored.1.names_itself)

  -- Every id that the catalog lists can be asked for: the answer is a task with the label listed.
  pub load-summaries :
      (document : List (Value F × Value F)) {tasks : List (String × Task F)}
      → load document ≡ ok tasks
      → All
          (λ listed. (t : Task F) × (task tasks listed.0 ≡ ok t) × (t.label ≡ listed.1))
          (summaries tasks)
  unfolding summaries
  load-summaries document {tasks} loaded =
      All-map_of_both IsStored (λ named. find named.0 tasks ≡ some named.1)
        (λ listed. (t : Task F) × (task tasks listed.0 ≡ ok t) × (t.label ≡ listed.1))
        (λ named. (named.0, named.1.label)) tasks
        (λ named stored found. (named.1, task-found tasks named stored found, refl))
        (load-IsValid document loaded) (finds_entries tasks (load-IsDistinct document loaded))
