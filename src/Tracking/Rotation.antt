-- ===== src/Tracking/Rotation.antt =====
-- The vector and quaternion functions of `TrackingMonitorNode`, in the code's order of operations.
use robot_core.Prelude.{not, ◌&&◌, if◌then◌else◌}
use robot_core.Prelude.Results.{Result, ok, err, value_error, overflow_error, ◌>>=◌}
use robot_core.Floats.{
  Floats, lt, le, lit, ◌⊕◌, ◌⊖◌, ◌⊗◌, ◌⊘◌, zero_float, one_float, py_max, py_min,
}

pub record Vector3 (F : Type 0) : Type 0 where
  pub x : F
  pub y : F
  pub z : F

pub record Quaternion (F : Type 0) : Type 0 where
  pub w : F
  pub x : F
  pub y : F
  pub z : F

module _ {F : Type 0} ⦃fl : Floats F⦄ where
  abbrev two : F
  two = lit 2 0

  -- `value ** 2` raises where a finite value's square is not finite.
  unfoldable pub square : F → Result F
  square v = if fl.is_finite v && not (fl.is_finite (v ⊗ v)) then err overflow_error else ok (v ⊗ v)

  -- `sum` starts from zero.
  unfoldable pub vector_norm : Vector3 F → Result F
  unfolding square
  vector_norm v = do
    xx ← square v.x
    yy ← square v.y
    zz ← square v.z
    ok (fl.sqrt (zero_float ⊕ xx ⊕ yy ⊕ zz))

  unfoldable pub quaternion_norm : Quaternion F → F
  quaternion_norm q = fl.sqrt (zero_float ⊕ q.w ⊗ q.w ⊕ q.x ⊗ q.x ⊕ q.y ⊗ q.y ⊕ q.z ⊗ q.z)

  unfoldable pub quat_conjugate_wxyz : Quaternion F → Quaternion F
  quat_conjugate_wxyz q = record { w = q.w; x = fl.neg q.x; y = fl.neg q.y; z = fl.neg q.z }

  unfoldable pub quat_apply_wxyz : Quaternion F → Vector3 F → Vector3 F
  quat_apply_wxyz q v =
      let tx = two ⊗ (q.y ⊗ v.z ⊖ q.z ⊗ v.y) in
      let ty = two ⊗ (q.z ⊗ v.x ⊖ q.x ⊗ v.z) in
      let tz = two ⊗ (q.x ⊗ v.y ⊖ q.y ⊗ v.x) in
      record {
        x = v.x ⊕ q.w ⊗ tx ⊕ (q.y ⊗ tz ⊖ q.z ⊗ ty);
        y = v.y ⊕ q.w ⊗ ty ⊕ (q.z ⊗ tx ⊖ q.x ⊗ tz);
        z = v.z ⊕ q.w ⊗ tz ⊕ (q.x ⊗ ty ⊖ q.y ⊗ tx);
      }

  abbrev pub normalized : Quaternion F → F → Quaternion F
  normalized q norm = record { w = q.w ⊘ norm; x = q.x ⊘ norm; y = q.y ⊘ norm; z = q.z ⊘ norm }

  abbrev rpy_of_unit : Quaternion F → Vector3 F
  rpy_of_unit q = record {
    x = fl.atan2 (two ⊗ (q.w ⊗ q.x ⊕ q.y ⊗ q.z)) (one_float ⊖ two ⊗ (q.x ⊗ q.x ⊕ q.y ⊗ q.y));
    y = fl.asin (py_max (fl.neg one_float) (py_min one_float (two ⊗ (q.w ⊗ q.y ⊖ q.z ⊗ q.x))));
    z = fl.atan2 (two ⊗ (q.w ⊗ q.z ⊕ q.x ⊗ q.y)) (one_float ⊖ two ⊗ (q.y ⊗ q.y ⊕ q.z ⊗ q.z));
  }

  -- The norm that `quaternion_to_rpy` computes, without the zero that `sum` starts from.
  abbrev pub rpy_norm : Quaternion F → F
  rpy_norm q = fl.sqrt (q.w ⊗ q.w ⊕ q.x ⊗ q.x ⊕ q.y ⊗ q.y ⊕ q.z ⊗ q.z)

  unfoldable pub quaternion_to_rpy : Quaternion F → Result (Vector3 F)
  quaternion_to_rpy q =
      let norm = rpy_norm q in
      if le norm (lit 1 9)
      then err (value_error "quaternion norm is zero")
      else ok (rpy_of_unit (normalized q norm))

  unfoldable pub rpy_quaternion : F → F → F → Quaternion F
  rpy_quaternion roll pitch yaw =
      let cr = fl.cos (roll ⊘ two) in
      let sr = fl.sin (roll ⊘ two) in
      let cp = fl.cos (pitch ⊘ two) in
      let sp = fl.sin (pitch ⊘ two) in
      let cy = fl.cos (yaw ⊘ two) in
      let sy = fl.sin (yaw ⊘ two) in
      record {
        w = cr ⊗ cp ⊗ cy ⊕ sr ⊗ sp ⊗ sy;
        x = sr ⊗ cp ⊗ cy ⊖ cr ⊗ sp ⊗ sy;
        y = cr ⊗ sp ⊗ cy ⊕ sr ⊗ cp ⊗ sy;
        z = cr ⊗ cp ⊗ sy ⊖ sr ⊗ sp ⊗ cy;
      }

  abbrev relative_rotation : Quaternion F → Quaternion F → Quaternion F
  relative_rotation c t = record {
    w = c.w ⊗ t.w ⊖ c.x ⊗ t.x ⊖ c.y ⊗ t.y ⊖ c.z ⊗ t.z;
    x = c.w ⊗ t.x ⊕ c.x ⊗ t.w ⊕ c.y ⊗ t.z ⊖ c.z ⊗ t.y;
    y = c.w ⊗ t.y ⊖ c.x ⊗ t.z ⊕ c.y ⊗ t.w ⊕ c.z ⊗ t.x;
    z = c.w ⊗ t.z ⊕ c.x ⊗ t.y ⊖ c.y ⊗ t.x ⊕ c.z ⊗ t.w;
  }

  -- Of the two quaternions of a rotation, the one with the shorter angle.
  unfoldable pub shortest : Quaternion F → Quaternion F
  shortest q =
      if lt q.w zero_float
      then record { w = fl.neg q.w; x = fl.neg q.x; y = fl.neg q.y; z = fl.neg q.z }
      else q

  rotation_vector : Quaternion F → Vector3 F
  rotation_vector q =
      let vector_norm = fl.sqrt (zero_float ⊕ q.x ⊗ q.x ⊕ q.y ⊗ q.y ⊕ q.z ⊗ q.z) in
      let angle = two ⊗ fl.atan2 vector_norm (py_max zero_float q.w) in
      if le vector_norm (lit 1 10)
      then record { x = two ⊗ q.x; y = two ⊗ q.y; z = two ⊗ q.z }
      else record {
        x = q.x ⊗ angle ⊘ vector_norm;
        y = q.y ⊗ angle ⊘ vector_norm;
        z = q.z ⊗ angle ⊘ vector_norm;
      }

  unfoldable pub quaternion_error_body : Quaternion F → Quaternion F → Vector3 F
  unfolding quat_conjugate_wxyz quaternion_norm rotation_vector shortest
  quaternion_error_body current target =
      let relative = relative_rotation (quat_conjugate_wxyz current) target in
      let norm = quaternion_norm relative in
      if le norm (lit 1 9)
      then record { x = zero_float; y = zero_float; z = zero_float }
      else rotation_vector (shortest (normalized relative norm))
