-- ===== src/HostManager/Edit/Deletion.antt =====
-- What a deletion of a tag leaves in the managed map.
use robot_core.Prelude.{
  ℕ, String, ◌≡◌, ◌≢◌, ◌∙◌, ap, Bool, true, some, inl, inr, List, arith, if◌then◌else◌, none,
}
use robot_core.Prelude.Results.{ok, or_raise, >>=-eq-ok, Result-cases}
use robot_core.Floats.{Floats}
use robot_core.Python.{Value}
use robot_core.Python.Decimal.{show}
use robot_core.Catalog.{find}
use robot_core.HostManager.Tag.{validated_tag_id}
use robot_core.HostManager.Edit.{
  Document, Stored, stored, Disk, Fault, no_fault, mkdir_fails, open_fails, write_fails,
  replace_fails, open_and_unlink_fail, write_and_unlink_fail, replace_and_unlink_fail, has_tag,
  remove, tag_map_document, write_apriltag_map, Listed, deleted, delete_apriltag,
}
use robot_core.HostManager.Edit.Entries.{find-remove, find-remove_ne}

module _ {F : Type 0} ⦃fl : Floats F⦄ where
  delete_apriltag-eq-ok :
      (enabled : Bool) (fault : Fault) (raw_tag_id : Value F) (disk : Disk F) {disk' : Disk F}
      {n : ℕ} {tags : List (Listed F)}
      → delete_apriltag enabled fault raw_tag_id disk ≡ (disk', ok (n, tags))
      → (after : Document F) × (deleted enabled raw_tag_id disk.map_file ≡ ok (n, after))
        × (disk'.map_file ≡ stored after)
  unfolding delete_apriltag write_apriltag_map
  delete_apriltag-eq-ok enabled no_fault raw_tag_id disk {n = n} h =
      elim (Result-cases (deleted enabled raw_tag_id disk.map_file)) [
        | inl (e, refused) ↦ ground arith
        | inr (d, edited) ↦ (d.1, ground arith, ground arith)
      ]
  delete_apriltag-eq-ok enabled mkdir_fails raw_tag_id disk h = ground arith
  delete_apriltag-eq-ok enabled open_fails raw_tag_id disk h = ground arith
  delete_apriltag-eq-ok enabled write_fails raw_tag_id disk h = ground arith
  delete_apriltag-eq-ok enabled replace_fails raw_tag_id disk h = ground arith
  delete_apriltag-eq-ok enabled open_and_unlink_fail raw_tag_id disk h = ground arith
  delete_apriltag-eq-ok enabled write_and_unlink_fail raw_tag_id disk h = ground arith
  delete_apriltag-eq-ok enabled replace_and_unlink_fail raw_tag_id disk h = ground arith

  -- The steps that a deletion has come through.
  deleted-eq-ok :
      (enabled : Bool) (raw_tag_id : Value F) (map_file : Stored F) {n : ℕ} {after : Document F}
      → deleted enabled raw_tag_id map_file ≡ ok (n, after)
      → (before : Document F) × (map_file ≡ stored before)
        × (has_tag (show n) before.tags ≡ true)
        × (after.tags ≡ remove (show n) before.tags)
        × (after.others ≡ before.others)
  unfolding deleted tag_map_document
  deleted-eq-ok enabled raw_tag_id map_file {n} {after} h =
      let (_, is_enabled, h0) = >>=-eq-ok (or_raise (if enabled then some tt else none) _) _ h in
      let (m, valid, h1) = >>=-eq-ok (validated_tag_id raw_tag_id) _ h0 in
      let (before, read, h2) = >>=-eq-ok (tag_map_document map_file) _ h1 in
      (before, ground arith, ground arith, ground arith, ground arith)

  -- A deletion that is answered has replaced the map file by a document without the tag, which the
  -- stored document had; the other fields are kept.
  pub delete_apriltag_removes :
      (enabled : Bool) (fault : Fault) (raw_tag_id : Value F) (disk : Disk F) {disk' : Disk F}
      {n : ℕ} {tags : List (Listed F)}
      → delete_apriltag enabled fault raw_tag_id disk ≡ (disk', ok (n, tags))
      → (before after : Document F) × (disk.map_file ≡ stored before)
        × (disk'.map_file ≡ stored after)
        × (has_tag (show n) before.tags ≡ true)
        × (find (show n) after.tags ≡ none)
        × (after.others ≡ before.others)
  delete_apriltag_removes enabled fault raw_tag_id disk {n = n} h =
      let (after, edited, written) = delete_apriltag-eq-ok enabled fault raw_tag_id disk h in
      let (before, was, had, tags, others) =
        deleted-eq-ok enabled raw_tag_id disk.map_file edited in
      (
        before,
        after,
        was,
        written,
        had,
        ap (find (show n)) tags ∙ find-remove (show n) before.tags,
        others,
      )

  -- A deletion that is answered changes no other tag.
  pub delete_apriltag_keeps :
      (enabled : Bool) (fault : Fault) (raw_tag_id : Value F) (disk : Disk F) {disk' : Disk F}
      {n : ℕ} {tags : List (Listed F)} (key : String)
      → delete_apriltag enabled fault raw_tag_id disk ≡ (disk', ok (n, tags))
      → key ≢ show n
      → (before after : Document F) × (disk.map_file ≡ stored before)
        × (disk'.map_file ≡ stored after)
        × (find key after.tags ≡ find key before.tags)
  delete_apriltag_keeps enabled fault raw_tag_id disk {n = n} key h ne =
      let (after, edited, written) = delete_apriltag-eq-ok enabled fault raw_tag_id disk h in
      let (before, was, had, tags, others) =
        deleted-eq-ok enabled raw_tag_id disk.map_file edited in
      (before, after, was, written, ap (find key) tags ∙ find-remove_ne key (show n) before.tags ne)
