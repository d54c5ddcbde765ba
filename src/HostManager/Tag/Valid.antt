-- ===== src/HostManager/Tag/Valid.antt =====
-- What a tag that the host manager accepts satisfies.
use robot_core.Prelude.{ℕ, ◌≤◌, ◌≡◌, String, true, some, List, length, str_eq_iff, arith}
use robot_core.Prelude.Results.{ok, or_raise, >>=-eq-ok}
use robot_core.HostManager.{rename_error, to_float}
use robot_core.Floats.{Floats, lit}
use robot_core.Python.{Value, get, as_dict}
use robot_core.Python.Decimal.{show}
use robot_core.Python.Texts.{strip}
use robot_core.HostManager.Tag.{
  TagDefinition, within, all_within, finite_vector, text_of_scalar, in_tag_range, checked_tag_id,
  validated_tag_id, validated_tag,
}

module _ {F : Type 0} ⦃fl : Floats F⦄ where
  abbrev pub IsVector : F → F → List F → Type 0
  IsVector lower upper xs = (length xs ≡ 3) × (all_within lower upper xs ≡ true)

  finite_vector-IsVector :
      (raw : Value F) (label : String) (lower upper : F) {xs : List F}
      → finite_vector raw label lower upper ≡ ok xs
      → IsVector lower upper xs
  unfolding finite_vector
  finite_vector-IsVector raw label lower upper {xs} h = ground arith

  -- An accepted id is at most 65535, and the value that was sent reads as its decimal.
  validated_tag_id-eq-ok :
      (raw_id : Value F) {n : ℕ}
      → validated_tag_id raw_id ≡ ok n
      → (n ≤ 65535) × (show n ≡ strip (text_of_scalar raw_id))
  unfolding validated_tag_id checked_tag_id in_tag_range
  validated_tag_id-eq-ok raw_id {n} h =
      ground (arith, str_eq_iff (show n) (strip (text_of_scalar raw_id)))

  -- A tag fit for the map: its id, its three coordinates, its three angles and its size are in range.
  pub record IsValidTag (n : ℕ) (d : TagDefinition F) : Type 0 where
    pub id_bound : n ≤ 65535
    pub position_valid : IsVector (fl.neg (lit 100 0)) (lit 100 0) d.position_m
    pub rpy_valid : IsVector (fl.neg (lit 360 0)) (lit 360 0) d.rpy_deg
    pub size_valid : within (lit 1 2) (lit 2 0) d.size_m ≡ true

  -- A tag that validates has an id of at most 65535 that is sent as its own decimal, possibly between
  -- spaces; exactly three coordinates within 100 m and three angles within 360 degrees, none of them
  -- NaN; and a size from 0.01 to 2 m.
  pub validated_tag-IsValid :
      (tag : Value F) {n : ℕ} {d : TagDefinition F}
      → validated_tag tag ≡ ok (n, d)
      → (fields : List (Value F × Value F)) × (as_dict tag ≡ some fields)
        × (show n ≡ strip (text_of_scalar (get "id" fields)))
        × IsValidTag n d
  unfolding validated_tag
  validated_tag-IsValid tag {n} {d} h =
      let (fields, is_dict, h1) = >>=-eq-ok (or_raise (as_dict tag) _) _ h in
      let (tag_id, id_ok, h2) = >>=-eq-ok (validated_tag_id (get "id" fields)) _ h1 in
      let (position, position_ok, h3) =
        >>=-eq-ok (finite_vector (get "position_m" fields) _ _ _) _ h2 in
      let (rpy, rpy_ok, h4) = >>=-eq-ok (finite_vector (get "rpy_deg" fields) _ _ _) _ h3 in
      let (size, size_ok, h5) = >>=-eq-ok (rename_error _ (to_float (get "size_m" fields))) _ h4 in
      let (id_bound, id_text) = validated_tag_id-eq-ok (get "id" fields) id_ok in
      let position_valid = finite_vector-IsVector (get "position_m" fields) _ _ _ position_ok in
      let rpy_valid = finite_vector-IsVector (get "rpy_deg" fields) _ _ _ rpy_ok in
      (
        fields,
        ground arith,
        ground arith,
        record {
          id_bound = ground arith;
          position_valid = ground arith;
          rpy_valid = ground arith;
          size_valid = ground arith;
        },
      )
