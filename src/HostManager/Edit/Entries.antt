-- ===== src/HostManager/Edit/Entries.antt =====
-- Lookups in a dict after a write and after a removal.
use robot_core.Prelude.{String, ◌≡◌, ◌≢◌, none, some, List, [], ◌∷◌, str_eq_iff, arith}
use robot_core.Python.{Value}
use robot_core.Catalog.{find, insert}
use robot_core.HostManager.Edit.{remove}

module _ {F : Type 0} where
  pub find-insert :
      (k : String) (v : Value F) (d : List (String × Value F)) → find k (insert k v d) ≡ some v
  unfolding find insert
  find-insert k v [] = ground (arith, str_eq_iff k k)
  find-insert k v ((j, w) ∷ d) = ground (arith, find-insert k v d)

  pub find-insert_ne :
      (k j : String) (v : Value F) (d : List (String × Value F))
      → k ≢ j
      → find k (insert j v d) ≡ find k d
  unfolding find insert
  find-insert_ne k j v [] ne = ground (arith, str_eq_iff j k, ne)
  find-insert_ne k j v ((i, w) ∷ d) ne =
      ground (arith, find-insert_ne k j v d ne, str_eq_iff i j, str_eq_iff i k)

  pub find-remove : (k : String) (d : List (String × Value F)) → find k (remove k d) ≡ none
  unfolding find remove
  find-remove k [] = ground arith
  find-remove k ((j, w) ∷ d) = ground (arith, find-remove k d)

  pub find-remove_ne :
      (k j : String) (d : List (String × Value F)) → k ≢ j → find k (remove j d) ≡ find k d
  unfolding find remove
  find-remove_ne k j [] ne = ground arith
  find-remove_ne k j ((i, w) ∷ d) ne =
      ground (arith, find-remove_ne k j d ne, str_eq_iff i j, str_eq_iff i k)
