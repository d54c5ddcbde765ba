-- ===== src/HostManager/Edit/Upsert.antt =====
-- What an upsert that is answered leaves in the managed map.
use robot_core.Prelude.{
  ℕ, String, ◌≡◌, ◌≢◌, ◌⊎◌, inl, inr, ◌∙◌, ap, Bool-cases, Bool, true, false, none, some, List,
  ◌==◌, ==_iff, arith, if◌then◌else◌,
}
use robot_core.Prelude.Results.{ok, or_raise, >>=-eq-ok}
use robot_core.Floats.{Floats}
use robot_core.Python.{Value}
use robot_core.Python.Decimal.{show, show-injective}
use robot_core.Catalog.{find, insert}
use robot_core.HostManager.Tag.{validated_tag, definition_value}
use robot_core.HostManager.Edit.{
  Document, Stored, stored, Disk, Fault, no_fault, mkdir_fails, open_fails, write_fails,
  replace_fails, open_and_unlink_fail, write_and_unlink_fail, replace_and_unlink_fail, has_tag,
  remove, tag_map_document, write_apriltag_map, Listed, Upserted, previous_id, renamed, upserted,
  upsert_apriltag,
}
use robot_core.HostManager.Edit.Entries.{find-insert_ne, find-remove, find-remove_ne}

module _ {F : Type 0} ⦃fl : Floats F⦄ where
  -- The steps that an edit has come through.
  record Edited (map_file : Stored F) (tag : Value F) (u : Upserted F) : Type 0 where
    before : Document F
    moved : Document F
    was_stored : map_file ≡ stored before
    tag_valid : validated_tag tag ≡ ok (u.tag_id, u.definition)
    was_renamed : renamed u.previous_tag_id u.tag_id before ≡ ok moved
    tags_written :
        u.document.tags ≡ insert (show u.tag_id) (definition_value u.definition) moved.tags
    others_kept : u.document.others ≡ moved.others

  upserted-Edited :
      (enabled : Bool) (tag replace_tag_id : Value F) (map_file : Stored F) {u : Upserted F}
      → upserted enabled tag replace_tag_id map_file ≡ ok u
      → Edited map_file tag u
  unfolding upserted tag_map_document
  upserted-Edited enabled tag replace_tag_id map_file {u} h =
      let (_, is_enabled, h0) = >>=-eq-ok (or_raise (if enabled then some tt else none) _) _ h in
      let (named, valid, h1) = >>=-eq-ok (validated_tag tag) _ h0 in
      let (previous, same, h2) = >>=-eq-ok (previous_id replace_tag_id named.0) _ h1 in
      let (before, read, h3) = >>=-eq-ok (tag_map_document map_file) _ h2 in
      let (moved, was, h4) = >>=-eq-ok (renamed previous named.0 before) _ h3 in
      record {
        before = before;
        moved = moved;
        was_stored = ground arith;
        tag_valid = ground arith;
        was_renamed = ground arith;
        tags_written = ground arith;
        others_kept = ground arith;
      }

  upsert_apriltag-eq-ok :
      (enabled : Bool) (fault : Fault) (tag replace_tag_id : Value F) (disk : Disk F)
      {disk' : Disk F} {u : Upserted F} {tags : List (Listed F)}
      → upsert_apriltag enabled fault tag replace_tag_id disk ≡ (disk', ok (u, tags))
      → (upserted enabled tag replace_tag_id disk.map_file ≡ ok u)
        × (disk'.map_file ≡ stored u.document)
  unfolding upsert_apriltag write_apriltag_map
  upsert_apriltag-eq-ok enabled no_fault tag replace_tag_id disk h = ground arith
  upsert_apriltag-eq-ok enabled mkdir_fails tag replace_tag_id disk h = ground arith
  upsert_apriltag-eq-ok enabled open_fails tag replace_tag_id disk h = ground arith
  upsert_apriltag-eq-ok enabled write_fails tag replace_tag_id disk h = ground arith
  upsert_apriltag-eq-ok enabled replace_fails tag replace_tag_id disk h = ground arith
  upsert_apriltag-eq-ok enabled open_and_unlink_fail tag replace_tag_id disk h = ground arith
  upsert_apriltag-eq-ok enabled write_and_unlink_fail tag replace_tag_id disk h = ground arith
  upsert_apriltag-eq-ok enabled replace_and_unlink_fail tag replace_tag_id disk h = ground arith

  renamed_tags :
      (previous tag_id : ℕ) (before moved : Document F)
      → renamed previous tag_id before ≡ ok moved
      → (((previous ≡ tag_id) × (moved.tags ≡ before.tags))
          ⊎ ((has_tag (show previous) before.tags ≡ true)
              × (has_tag (show tag_id) before.tags ≡ false)
              × (moved.tags ≡ remove (show previous) before.tags)))
        × (moved.others ≡ before.others)
  unfolding renamed
  renamed_tags previous tag_id before moved h = elim (Bool-cases (previous == tag_id)) [
    | inl same ↦ (inl (ground (arith, ==_iff previous tag_id)), ground arith)
    | inr other ↦ (inr (ground arith), ground arith)
  ]

  renamed_keeps :
      (key : String) (previous : ℕ) {tag_id : ℕ} (before moved : Document F)
      → (((previous ≡ tag_id) × (moved.tags ≡ before.tags))
          ⊎ ((has_tag (show previous) before.tags ≡ true)
              × (has_tag (show tag_id) before.tags ≡ false)
              × (moved.tags ≡ remove (show previous) before.tags)))
      → key ≢ show previous
      → find key moved.tags ≡ find key before.tags
  renamed_keeps key previous before moved (inl (_, same)) ne = ap (find key) same
  renamed_keeps key previous before moved (inr (_, _, same)) ne =
      ap (find key) same ∙ find-remove_ne key (show previous) before.tags ne

  -- An upsert that is answered changes no other tag: a text that is neither the tag's id nor the id
  -- that it replaces finds in the new map file what it found in the old one.
  pub upsert_apriltag_keeps :
      (enabled : Bool) (fault : Fault) (tag replace_tag_id : Value F) (disk : Disk F)
      {disk' : Disk F} {u : Upserted F} {tags : List (Listed F)} (key : String)
      → upsert_apriltag enabled fault tag replace_tag_id disk ≡ (disk', ok (u, tags))
      → key ≢ show u.tag_id
      → key ≢ show u.previous_tag_id
      → (before after : Document F) × (disk.map_file ≡ stored before)
        × (disk'.map_file ≡ stored after)
        × (find key after.tags ≡ find key before.tags)
  upsert_apriltag_keeps enabled fault tag replace_tag_id disk {u = u} key h ne ne' =
      let (edited_ok, written) = upsert_apriltag-eq-ok enabled fault tag replace_tag_id disk h in
      let edited : Edited disk.map_file tag u =
        upserted-Edited enabled tag replace_tag_id disk.map_file edited_ok in
      let (moved, _) =
        renamed_tags u.previous_tag_id u.tag_id edited.before edited.moved edited.was_renamed in
      (
        edited.before,
        u.document,
        edited.was_stored,
        written,
        ap (find key) edited.tags_written
            ∙ find-insert_ne key (show u.tag_id) (definition_value u.definition) edited.moved.tags
                ne
            ∙ renamed_keeps key u.previous_tag_id edited.before edited.moved moved ne',
      )

  -- An upsert under a new id that is answered moves the tag: the stored document had the old id and
  -- not the new one, and the new map file does not have the old id.
  pub upsert_apriltag_renames :
      (enabled : Bool) (fault : Fault) (tag replace_tag_id : Value F) (disk : Disk F)
      {disk' : Disk F} {u : Upserted F} {tags : List (Listed F)}
      → upsert_apriltag enabled fault tag replace_tag_id disk ≡ (disk', ok (u, tags))
      → u.previous_tag_id ≢ u.tag_id
      → (before after : Document F) × (disk.map_file ≡ stored before)
        × (disk'.map_file ≡ stored after)
        × (has_tag (show u.previous_tag_id) before.tags ≡ true)
        × (has_tag (show u.tag_id) before.tags ≡ false)
        × (find (show u.previous_tag_id) after.tags ≡ none)
  upsert_apriltag_renames enabled fault tag replace_tag_id disk {u = u} h ne =
      let (edited_ok, written) = upsert_apriltag-eq-ok enabled fault tag replace_tag_id disk h in
      let edited : Edited disk.map_file tag u =
        upserted-Edited enabled tag replace_tag_id disk.map_file edited_ok in
      elim (renamed_tags u.previous_tag_id u.tag_id edited.before edited.moved
        edited.was_renamed).0 [
          | inl (same, _) ↦ absurd (ne same)
          | inr (had, fresh, moved) ↦ (
            edited.before,
            u.document,
            edited.was_stored,
            written,
            had,
            fresh,
            ap (find (show u.previous_tag_id)) edited.tags_written
                ∙ find-insert_ne (show u.previous_tag_id) (show u.tag_id)
                    (definition_value u.definition) edited.moved.tags
                    (λ e. ne (show-injective u.previous_tag_id u.tag_id e))
                ∙ ap (find (show u.previous_tag_id)) moved
                ∙ find-remove (show u.previous_tag_id) edited.before.tags,
          )
        ]
