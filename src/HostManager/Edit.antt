-- ===== src/HostManager/Edit.antt =====
-- The edits of the managed map: `upsert_apriltag`, `delete_apriltag`, `_write_apriltag_map` and
-- `_tag_list`. The disk holds the map file and the temporary file beside it.
pub mod Entries
pub mod Upsert
pub mod Atomic
pub mod Deletion
mod Tests
use robot_core.Prelude.{
  ℕ, ◌+◌, String, Bool, true, false, not, ◌&&◌, Option, none, some, List, [], ◌∷◌, str_eq, ◌==◌,
  concat, if◌then◌else◌,
}
use robot_core.Prelude.Int.{ℤ, ltb_ℤ}
use robot_core.Prelude.Results.{
  Result, ok, err, Error, value_error, type_error, os_error, ◌>>=◌, ◌>>◌, raise_if, or_raise,
}
use robot_core.Floats.{Floats}
use robot_core.Python.{Value, none_value, as_dict}
use robot_core.Python.Decimal.{show}
use robot_core.Catalog.{find, insert}
use robot_core.HostManager.{int_of_text}
use robot_core.HostManager.Tag.{TagDefinition, validated_tag_id, validated_tag, definition_value}

-- The map document: its tags by their ids, and its other fields.
pub record Document (F : Type 0) : Type 0 where
  pub tags : List (String × Value F)
  pub others : List (String × Value F)

-- What is read from the path: no readable file, no JSON object with tags, or a document.
pub data Stored (F : Type 0) : Type 0 where
  unreadable : Stored F
  malformed : Stored F
  stored : Document F → Stored F

pub record Disk (F : Type 0) : Type 0 where
  pub map_file : Stored F
  pub has_temporary : Bool

-- Where the write raises an `OSError`, if anywhere, and whether the clean-up then raises one as well.
pub data Fault : Type 0 where
  no_fault mkdir_fails open_fails write_fails replace_fails : Fault
  open_and_unlink_fail write_and_unlink_fail replace_and_unlink_fail : Fault

-- `temporary.unlink()` raises. After a write without a fault the temporary file is not there.
pub unlink_fails : Fault → Bool
unlink_fails open_and_unlink_fail = true
unlink_fails write_and_unlink_fail = true
unlink_fails replace_and_unlink_fail = true
unlink_fails _ = false

-- One listed tag: its id, and the fields of its definition, which `**definition` adds.
abbrev pub Listed : Type 0 → Type 0
Listed F = ℤ × List (Value F × Value F)

module _ {F : Type 0} where
  pub has_tag : String → List (String × Value F) → Bool
  has_tag k tags = elim (find k tags) [ none ↦ false | some v ↦ true ]

  -- `del tags[k]`
  pub remove : String → List (String × Value F) → List (String × Value F)
  remove k [] = []
  remove k ((j, v) ∷ tags) = let rest = remove k tags in if str_eq j k then rest else (j, v) ∷ rest

  pub tag_map_document : Stored F → Result (Document F)
  tag_map_document unreadable = err os_error
  tag_map_document malformed =
      err (value_error "managed AprilTag map must be a JSON object with tags")
  tag_map_document (stored document) = ok document

  -- The body of the `try`: open and write the temporary file, then put it in place of the map.
  replace_map : Fault → Document F → Disk F → Disk F × Result (Unit {0})
  replace_map no_fault document disk =
      (record { map_file = stored document; has_temporary = false }, ok tt)
  replace_map mkdir_fails document disk = (disk, err os_error)
  replace_map open_fails document disk = (disk, err os_error)
  replace_map write_fails document disk = (record disk { has_temporary = true }, err os_error)
  replace_map replace_fails document disk = (record disk { has_temporary = true }, err os_error)
  replace_map open_and_unlink_fail document disk = (disk, err os_error)
  replace_map write_and_unlink_fail document disk =
      (record disk { has_temporary = true }, err os_error)
  replace_map replace_and_unlink_fail document disk =
      (record disk { has_temporary = true }, err os_error)

  -- The directory is made before the `try`; the `finally` removes the temporary file that is there, or
  -- raises an `OSError` of its own.
  pub write_apriltag_map : Fault → Document F → Disk F → Disk F × Result (Unit {0})
  unfolding replace_map unlink_fails
  write_apriltag_map mkdir_fails document disk = (disk, err os_error)
  write_apriltag_map fault document disk =
      let (disk', written) = replace_map fault document disk in
      (if unlink_fails fault then disk' else record disk' { has_temporary = false }, written)

  -- In front of the tags with larger or equal numbers, which stand after it in the document.
  insert_sorted : ℤ → Value F → List (ℤ × Value F) → List (ℤ × Value F)
  insert_sorted n definition [] = (n, definition) ∷ []
  insert_sorted n definition ((m, other) ∷ rest) =
      let later = insert_sorted n definition rest in
      if ltb_ℤ m n then (m, other) ∷ later else (n, definition) ∷ (m, other) ∷ rest

  -- `sorted(tags, key=int)`: every key is read before any definition is.
  pub sorted_tags : List (String × Value F) → Result (List (ℤ × Value F))
  unfolding insert_sorted
  sorted_tags [] = ok []
  sorted_tags ((k, v) ∷ tags) = do
    n ← or_raise (int_of_text k) (value_error "invalid literal for int()")
    rest ← sorted_tags tags
    ok (insert_sorted n v rest)

  list_tags : List (ℤ × Value F) → Result (List (Listed F))
  list_tags [] = ok []
  list_tags ((n, definition) ∷ tags) = do
    fields ← or_raise (as_dict definition) type_error
    rest ← list_tags tags
    ok ((n, fields) ∷ rest)

  pub tag_list : Document F → Result (List (Listed F))
  unfolding list_tags
  tag_list document = do sorted ← sorted_tags document.tags; list_tags sorted

pub record Upserted (F : Type 0) : Type 0 where
  pub tag_id : ℕ
  pub definition : TagDefinition F
  pub previous_tag_id : ℕ
  pub document : Document F

disabled : Error
disabled = value_error "AprilTag web editing is disabled by host-manager policy"

missing : ℕ → Error
missing n =
    value_error (concat ("tag " ∷ show n ∷ " does not exist in the managed AprilTag map" ∷ []))

module _ {F : Type 0} ⦃fl : Floats F⦄ where
  previous_id : Value F → ℕ → Result ℕ
  previous_id none_value tag_id = ok tag_id
  previous_id replace_tag_id tag_id = validated_tag_id replace_tag_id

  -- The document with the tag under its new id.
  renamed : ℕ → ℕ → Document F → Result (Document F)
  unfolding missing
  renamed previous tag_id document = if previous == tag_id then ok document else do
    or_raise (if has_tag (show previous) document.tags then some tt else none) (missing previous)
    raise_if (has_tag (show tag_id) document.tags)
        (concat ("tag " ∷ show tag_id ∷ " already exists in the managed AprilTag map" ∷ []))
    ok (record document { tags = remove (show previous) document.tags })

  -- `upsert_apriltag` up to the write.
  pub upserted : Bool → Value F → Value F → Stored F → Result (Upserted F)
  unfolding previous_id renamed disabled
  upserted web_edit_enabled tag replace_tag_id map_file = do
    or_raise (if web_edit_enabled then some tt else none) disabled
    named ← validated_tag tag
    previous ← previous_id replace_tag_id named.0
    document ← tag_map_document map_file
    moved ← renamed previous named.0 document
    ok (record {
      tag_id = named.0;
      definition = named.1;
      previous_tag_id = previous;
      document = record moved {
        tags = insert (show named.0) (definition_value named.1) moved.tags;
      };
    })

  pub upsert_apriltag :
      Bool → Fault → Value F → Value F → Disk F → Disk F × Result (Upserted F × List (Listed F))
  upsert_apriltag web_edit_enabled fault tag replace_tag_id disk =
      elim (upserted web_edit_enabled tag replace_tag_id disk.map_file) [
        | err e ↦ (disk, err e)
        | ok u ↦
            let (disk', written) = write_apriltag_map fault u.document disk in
            (disk', do written; tags ← tag_list u.document; ok (u, tags))
      ]

  -- `delete_apriltag` up to the write.
  pub deleted : Bool → Value F → Stored F → Result (ℕ × Document F)
  unfolding disabled missing
  deleted web_edit_enabled raw_tag_id map_file = do
    or_raise (if web_edit_enabled then some tt else none) disabled
    tag_id ← validated_tag_id raw_tag_id
    document ← tag_map_document map_file
    or_raise (if has_tag (show tag_id) document.tags then some tt else none) (missing tag_id)
    ok (tag_id, record document { tags = remove (show tag_id) document.tags })

  pub delete_apriltag : Bool → Fault → Value F → Disk F → Disk F × Result (ℕ × List (Listed F))
  delete_apriltag web_edit_enabled fault raw_tag_id disk =
      elim (deleted web_edit_enabled raw_tag_id disk.map_file) [
        | err e ↦ (disk, err e)
        | ok d ↦
            let (disk', written) = write_apriltag_map fault d.1 disk in
            (disk', do written; tags ← tag_list d.1; ok (d.0, tags))
      ]
