-- ===== src/HostManager/Edit/Tests.antt =====
-- Edits of a small map, and the theorems at concrete inputs.
use robot_core.Prelude.{
  ◌≡◌, ◌≢◌, ◌⊎◌, refl, true, false, none, some, List, [], ◌∷◌, arith, ne_of_str_eq,
}
use robot_core.Prelude.Int.{pos}
use robot_core.Prelude.Results.{Error, ok, err, value_error}
use robot_core.Floats.{lit}
use robot_core.Floats.Model.{Num, num_floats}
use robot_core.Python.{
  Value, Values, nil, cons, end, entry, int_value, float_value, str_value, list_value, dict_value,
  get, as_dict,
}
use robot_core.Python.Decimal.{show, show_ℤ, read_digits}
use robot_core.Python.Texts.{strip}
use robot_core.Catalog.{find, insert}
use robot_core.HostManager.{to_float, to_floats, iterated, rename_error, int_of_text}
use robot_core.HostManager.Tag.{
  TagDefinition, finite_vector, to_int, text_of_scalar, in_tag_range, checked_tag_id,
  validated_tag_id, validated_tag, definition_value,
}
use robot_core.HostManager.Tag.Valid.{IsValidTag, validated_tag-IsValid}
use robot_core.HostManager.Edit.{
  Document, stored, Disk, no_fault, replace_fails, write_and_unlink_fail, replace_and_unlink_fail,
  unlink_fails, has_tag, remove, tag_map_document, write_apriltag_map, sorted_tags, tag_list,
  Listed, Upserted, upserted, upsert_apriltag, deleted, delete_apriltag,
}
use robot_core.HostManager.Edit.Upsert.{upsert_apriltag_keeps, upsert_apriltag_renames}
use robot_core.HostManager.Edit.Atomic.{upsert_apriltag_atomic}
use robot_core.HostManager.Edit.Deletion.{delete_apriltag_removes, delete_apriltag_keeps}

abbrev numbers : Values Num
numbers = cons (int_value (pos 1)) (cons (int_value (pos 2)) (cons (int_value (pos 3)) nil))

abbrev tag : Value Num
tag = dict_value (
    entry (str_value "id") (str_value " 5 ") (
      entry (str_value "position_m") (list_value numbers) (
        entry (str_value "rpy_deg") (list_value numbers)
          (entry (str_value "size_m") (float_value (lit 5 1)) end))))

abbrev definition : TagDefinition Num
definition = record {
  position_m = lit 1 0 ∷ lit 2 0 ∷ lit 3 0 ∷ [];
  rpy_deg = lit 1 0 ∷ lit 2 0 ∷ lit 3 0 ∷ [];
  size_m = lit 5 1;
}

abbrev document : Document Num
document = record { tags = ("3", dict_value end) ∷ ("7", dict_value end) ∷ []; others = [] }

abbrev disk : Disk Num
disk = record { map_file = stored document; has_temporary = false }

abbrev answered : Upserted Num
answered = record {
  tag_id = 5;
  definition = definition;
  previous_tag_id = 3;
  document = record {
    tags = ("7", dict_value end) ∷ ("5", definition_value definition) ∷ [];
    others = [];
  };
}

abbrev fields_of : Value Num → List (Value Num × Value Num)
fields_of v = elim (as_dict v) [ none ↦ [] | some fields ↦ fields ]

abbrev listed : List (Listed Num)
listed = (pos 5, fields_of (definition_value definition)) ∷ (pos 7, []) ∷ []

abbrev upserted_disk : Disk Num
upserted_disk = record { map_file = stored answered.document; has_temporary = false }

seven_ne_five : "7" ≢ show 5
unfolding show
seven_ne_five = ne_of_str_eq "7" (show 5) refl

seven_ne_three : "7" ≢ show 3
unfolding show
seven_ne_three = ne_of_str_eq "7" (show 3) refl

validated_tag_accepts : validated_tag tag ≡ ok (5, definition)
unfolding validated_tag validated_tag_id checked_tag_id in_tag_range to_int text_of_scalar
    finite_vector rename_error to_float to_floats iterated int_of_text strip show get read_digits
validated_tag_accepts = refl

upsert-answers :
    upsert_apriltag true no_fault tag (int_value (pos 3)) disk
    ≡ (upserted_disk, ok (answered, listed))
unfolding upsert_apriltag upserted write_apriltag_map tag_list sorted_tags has_tag remove
    tag_map_document validated_tag validated_tag_id checked_tag_id in_tag_range to_int
    text_of_scalar finite_vector rename_error to_float to_floats iterated int_of_text strip show
    show_ℤ get find insert definition_value read_digits
upsert-answers = refl

abbrev deleted_disk : Disk Num
deleted_disk = record {
  map_file = stored (record { tags = ("7", dict_value end) ∷ []; others = [] });
  has_temporary = false;
}

delete-answers :
    delete_apriltag true no_fault (int_value (pos 3)) disk
    ≡ (deleted_disk, ok (3, (pos 7, []) ∷ []))
unfolding delete_apriltag deleted write_apriltag_map tag_list sorted_tags has_tag remove
    tag_map_document validated_tag_id checked_tag_id in_tag_range to_int text_of_scalar rename_error
    int_of_text strip show show_ℤ get find read_digits
delete-answers = refl

-- A map with a key that is no integer: the edit is written, and then answered with an error.
abbrev odd_disk : Disk Num
odd_disk = record {
  map_file =
      stored (record { tags = ("7", dict_value end) ∷ ("x", dict_value end) ∷ []; others = [] });
  has_temporary = false;
}

delete-writes_then_raises : delete_apriltag true no_fault (int_value (pos 7)) odd_disk ≡ (
  record {
    map_file = stored (record { tags = ("x", dict_value end) ∷ []; others = [] });
    has_temporary = false;
  },
  err (value_error "invalid literal for int()"),
)
unfolding delete_apriltag deleted write_apriltag_map tag_list sorted_tags has_tag remove
    tag_map_document validated_tag_id checked_tag_id in_tag_range to_int text_of_scalar rename_error
    int_of_text strip show show_ℤ get find read_digits
delete-writes_then_raises = refl

validated_tag-IsValid_example :
    (fields : List (Value Num × Value Num)) × (as_dict tag ≡ some fields)
    × (show 5 ≡ strip (text_of_scalar (get "id" fields)))
    × IsValidTag 5 definition
validated_tag-IsValid_example = validated_tag-IsValid tag validated_tag_accepts

upsert_apriltag_keeps_example :
    (before after : Document Num) × (disk.map_file ≡ stored before)
    × (upserted_disk.map_file ≡ stored after)
    × (find "7" after.tags ≡ find "7" before.tags)
upsert_apriltag_keeps_example =
    upsert_apriltag_keeps true no_fault tag (int_value (pos 3)) disk {disk' = upserted_disk}
      {u = answered} {tags = listed} "7" upsert-answers seven_ne_five seven_ne_three

upsert_apriltag_renames_example :
    (before after : Document Num) × (disk.map_file ≡ stored before)
    × (upserted_disk.map_file ≡ stored after)
    × (has_tag (show 3) before.tags ≡ true)
    × (has_tag (show 5) before.tags ≡ false)
    × (find (show 3) after.tags ≡ none)
upsert_apriltag_renames_example =
    upsert_apriltag_renames true no_fault tag (int_value (pos 3)) disk {disk' = upserted_disk}
      {u = answered} {tags = listed} upsert-answers (λ e. omega arith)

upsert_apriltag_atomic_example :
    let (disk', answer) = upsert_apriltag true replace_fails tag (int_value (pos 3)) disk in
    ((disk'.has_temporary ≡ false)
      ⊎ (replace_fails ≡ write_and_unlink_fail)
      ⊎ (replace_fails ≡ replace_and_unlink_fail))
    × (((disk'.map_file ≡ disk.map_file) × ((e : Error) × (answer ≡ err e)))
        ⊎ ((u : Upserted Num) × (upserted true tag (int_value (pos 3)) disk.map_file ≡ ok u)
            × (replace_fails ≡ no_fault)
            × (disk'.map_file ≡ stored u.document)))
upsert_apriltag_atomic_example =
    upsert_apriltag_atomic true replace_fails tag (int_value (pos 3)) disk refl

-- The temporary file stays where its removal fails.
upsert-leaves_temporary :
    (upsert_apriltag true replace_and_unlink_fail tag (int_value (pos 3)) disk).0
    ≡ record disk { has_temporary = true }
unfolding upsert_apriltag upserted write_apriltag_map tag_list sorted_tags has_tag remove
    tag_map_document validated_tag validated_tag_id checked_tag_id in_tag_range to_int
    text_of_scalar finite_vector rename_error to_float to_floats iterated int_of_text strip show
    show_ℤ get find insert definition_value read_digits unlink_fails
upsert-leaves_temporary = refl

delete_apriltag_removes_example :
    (before after : Document Num) × (disk.map_file ≡ stored before)
    × (deleted_disk.map_file ≡ stored after)
    × (has_tag (show 3) before.tags ≡ true)
    × (find (show 3) after.tags ≡ none)
    × (after.others ≡ before.others)
delete_apriltag_removes_example =
    delete_apriltag_removes true no_fault (int_value (pos 3)) disk {disk' = deleted_disk} {n = 3}
      {tags = (pos 7, []) ∷ []} delete-answers

delete_apriltag_keeps_example :
    (before after : Document Num) × (disk.map_file ≡ stored before)
    × (deleted_disk.map_file ≡ stored after)
    × (find "7" after.tags ≡ find "7" before.tags)
delete_apriltag_keeps_example =
    delete_apriltag_keeps true no_fault (int_value (pos 3)) disk {disk' = deleted_disk} {n = 3}
      {tags = (pos 7, []) ∷ []} "7" delete-answers seven_ne_three
