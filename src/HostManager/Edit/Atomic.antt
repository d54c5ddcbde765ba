-- ===== src/HostManager/Edit/Atomic.antt =====
-- Whatever fails, the map file is what it was or the whole edited document.
use robot_core.Prelude.{◌≡◌, ◌⊎◌, inl, inr, refl, Bool, false, arith}
use robot_core.Prelude.Results.{Error, ok, err, os_error, Result-cases}
use robot_core.Floats.{Floats}
use robot_core.Python.{Value}
use robot_core.HostManager.Edit.{
  Document, stored, Disk, Fault, no_fault, mkdir_fails, open_fails, write_fails, replace_fails,
  open_and_unlink_fail, write_and_unlink_fail, replace_and_unlink_fail, write_apriltag_map,
  Upserted, upserted, upsert_apriltag,
}

module _ {F : Type 0} where
  -- The write is atomic: the map file is afterwards what it was or the new document.
  write_apriltag_map_cases :
      (fault : Fault) (document : Document F) (disk : Disk F)
      → let (disk', written) = write_apriltag_map fault document disk in
        ((fault ≡ no_fault) × (disk'.map_file ≡ stored document) × (disk'.has_temporary ≡ false))
        ⊎ ((written ≡ err os_error)
            × (disk'.map_file ≡ disk.map_file)
            × ((disk'.has_temporary ≡ false)
                ⊎ (disk'.has_temporary ≡ disk.has_temporary)
                ⊎ (fault ≡ write_and_unlink_fail)
                ⊎ (fault ≡ replace_and_unlink_fail)))
  unfolding write_apriltag_map
  write_apriltag_map_cases no_fault document disk = inl (refl, refl, refl)
  write_apriltag_map_cases mkdir_fails document disk = inr (refl, refl, inr (inl refl))
  write_apriltag_map_cases open_fails document disk = inr (refl, refl, inl refl)
  write_apriltag_map_cases write_fails document disk = inr (refl, refl, inl refl)
  write_apriltag_map_cases replace_fails document disk = inr (refl, refl, inl refl)
  write_apriltag_map_cases open_and_unlink_fail document disk = inr (refl, refl, inr (inl refl))
  write_apriltag_map_cases write_and_unlink_fail document disk =
      inr (refl, refl, inr (inr (inl refl)))
  write_apriltag_map_cases replace_and_unlink_fail document disk =
      inr (refl, refl, inr (inr (inr refl)))

module _ {F : Type 0} ⦃fl : Floats F⦄ where
  -- Wherever an upsert is refused or the write fails, and whether or not it is answered, the map file
  -- is afterwards exactly what it was and the answer an exception, or it is exactly the edited document
  -- of a write without a fault. Where no temporary file was there, one is left only when the write or
  -- the replacement fails and the removal of the temporary file fails as well.
  pub upsert_apriltag_atomic :
      (enabled : Bool) (fault : Fault) (tag replace_tag_id : Value F) (disk : Disk F)
      → disk.has_temporary ≡ false
      → let (disk', answer) = upsert_apriltag enabled fault tag replace_tag_id disk in
        ((disk'.has_temporary ≡ false)
          ⊎ (fault ≡ write_and_unlink_fail)
          ⊎ (fault ≡ replace_and_unlink_fail))
        × (((disk'.map_file ≡ disk.map_file) × ((e : Error) × (answer ≡ err e)))
            ⊎ ((u : Upserted F) × (upserted enabled tag replace_tag_id disk.map_file ≡ ok u)
                × (fault ≡ no_fault)
                × (disk'.map_file ≡ stored u.document)))
  unfolding upsert_apriltag
  upsert_apriltag_atomic enabled fault tag replace_tag_id disk clean =
      elim (Result-cases (upserted enabled tag replace_tag_id disk.map_file)) [
        | inl (e, refused) ↦ (inl (ground arith), inl (ground arith, (e, ground arith)))
        | inr (u, edited) ↦ elim (write_apriltag_map_cases fault u.document disk) [
          | inl (fine, file, gone) ↦
              (inl (ground arith), inr (u, edited, ground arith, ground arith))
          | inr (failed, file, gone) ↦ (ground arith, inl (ground arith, (os_error, ground arith)))
        ]
      ]
