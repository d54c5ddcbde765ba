-- ===== src/Control/Quaternions.antt =====
-- The quaternions of control_math.py, in the code's order of operations. Four components are a record,
-- so that of `vec`'s checks the finiteness is left.
use robot_core.Prelude.{Bool, not, List, [], ◌∷◌, if◌then◌else◌}
use robot_core.Prelude.Results.{Result, ok, err, value_error, ◌>>=◌, ◌>>◌, raise_if}
use robot_core.Floats.{Floats, ◌⊕◌, ◌⊖◌, ◌⊗◌, ◌⊘◌, lt, le, lit, clip, zero_float, one_float, py_max}
use robot_core.Floats.Vectors.{all_finite}
use robot_core.Tracking.Rotation.{Quaternion, Vector3}

module _ {F : Type 0} ⦃fl : Floats F⦄ where
  abbrev two : F
  two = lit 2 0

  abbrev half : F
  half = lit 5 1

  abbrev pub components : Quaternion F → List F
  components q = q.w ∷ q.x ∷ q.y ∷ q.z ∷ []

  abbrev pub map_quaternion : (F → F) → Quaternion F → Quaternion F
  map_quaternion f q = record { w = f q.w; x = f q.x; y = f q.y; z = f q.z }

  abbrev pub map_vector : (F → F) → Vector3 F → Vector3 F
  map_vector f v = record { x = f v.x; y = f v.y; z = f v.z }

  abbrev pub add_vector3 : Vector3 F → Vector3 F → Vector3 F
  add_vector3 a b = record { x = a.x ⊕ b.x; y = a.y ⊕ b.y; z = a.z ⊕ b.z }

  -- The vector part, `q[1:4]`.
  abbrev pub xyz : Quaternion F → Vector3 F
  xyz q = record { x = q.x; y = q.y; z = q.z }

  -- `np.cross`
  abbrev pub cross : Vector3 F → Vector3 F → Vector3 F
  cross a b = record {
    x = a.y ⊗ b.z ⊖ a.z ⊗ b.y;
    y = a.z ⊗ b.x ⊖ a.x ⊗ b.z;
    z = a.x ⊗ b.y ⊖ a.y ⊗ b.x;
  }

  unfoldable pub normalize_quaternion : Quaternion F → Result (Quaternion F)
  normalize_quaternion q =
      let norm = fl.np_norm (components q) in
      if not (all_finite (components q))
      then err (value_error "expected 4 finite values")
      else if le norm (lit 1 9)
      then err (value_error "quaternion norm is zero")
      else ok (map_quaternion (λ c. c ⊘ norm) q)

  abbrev pub add_quaternion : Quaternion F → Quaternion F → Quaternion F
  add_quaternion a b = record { w = a.w ⊕ b.w; x = a.x ⊕ b.x; y = a.y ⊕ b.y; z = a.z ⊕ b.z }

  abbrev pub sub_quaternion : Quaternion F → Quaternion F → Quaternion F
  sub_quaternion a b = record { w = a.w ⊖ b.w; x = a.x ⊖ b.x; y = a.y ⊖ b.y; z = a.z ⊖ b.z }

  -- The arc between two unit quaternions, `dot` being their product.
  pub slerp_unit : Quaternion F → Quaternion F → F → F → Result (Quaternion F)
  slerp_unit start end amount dot =
      let angle = fl.acos dot in
      let sine = fl.sin angle in
      if lt (lit 9995 4) dot
      then normalize_quaternion
          (add_quaternion start (map_quaternion (λ c. amount ⊗ c) (sub_quaternion end start)))
      else normalize_quaternion (
          add_quaternion
            (map_quaternion (λ c. fl.sin ((one_float ⊖ amount) ⊗ angle) ⊘ sine ⊗ c) start)
            (map_quaternion (λ c. fl.sin (amount ⊗ angle) ⊘ sine ⊗ c) end))

  pub quaternion_slerp : Quaternion F → Quaternion F → F → Result (Quaternion F)
  quaternion_slerp current target weight = do
    start ← normalize_quaternion current
    end ← normalize_quaternion target
    let amount = clip weight zero_float one_float
    let dot = fl.np_dot (components start) (components end)
    let is_opposite = lt dot zero_float
    let product = clip (if is_opposite then fl.neg dot else dot) (fl.neg one_float) one_float
    slerp_unit start (if is_opposite then map_quaternion fl.neg end else end) amount product

  unfoldable pub quaternion_conjugate : Quaternion F → Result (Quaternion F)
  quaternion_conjugate quaternion = do
    q ← normalize_quaternion quaternion
    ok (record { w = q.w; x = fl.neg q.x; y = fl.neg q.y; z = fl.neg q.z })

  unfoldable pub quaternion_multiply : Quaternion F → Quaternion F → Result (Quaternion F)
  quaternion_multiply left right = do
    l ← normalize_quaternion left
    r ← normalize_quaternion right
    normalize_quaternion (record {
      w = l.w ⊗ r.w ⊖ l.x ⊗ r.x ⊖ l.y ⊗ r.y ⊖ l.z ⊗ r.z;
      x = l.w ⊗ r.x ⊕ l.x ⊗ r.w ⊕ l.y ⊗ r.z ⊖ l.z ⊗ r.y;
      y = l.w ⊗ r.y ⊖ l.x ⊗ r.z ⊕ l.y ⊗ r.w ⊕ l.z ⊗ r.x;
      z = l.w ⊗ r.z ⊕ l.x ⊗ r.y ⊖ l.y ⊗ r.x ⊕ l.z ⊗ r.w;
    })

  abbrev is_finite_vector : Vector3 F → Bool
  is_finite_vector v = all_finite (v.x ∷ v.y ∷ v.z ∷ [])

  unfoldable pub quaternion_apply : Quaternion F → Vector3 F → Result (Vector3 F)
  quaternion_apply quaternion vector = do
    q ← normalize_quaternion quaternion
    raise_if (not (is_finite_vector vector)) "expected 3 finite values"
    let twice_cross = map_vector (λ c. two ⊗ c) (cross (xyz q) vector)
    ok (
        add_vector3 (add_vector3 vector (map_vector (λ c. q.w ⊗ c) twice_cross))
          (cross (xyz q) twice_cross))

  -- The rotation vector of a unit quaternion with a non-negative real part.
  abbrev pub rotation_vector : Quaternion F → Vector3 F
  rotation_vector relative =
      let vector = xyz relative in
      let norm = fl.np_norm (vector.x ∷ vector.y ∷ vector.z ∷ []) in
      let angle = two ⊗ fl.atan2 norm (py_max zero_float relative.w) in
      if le norm (lit 1 10)
      then map_vector (λ c. two ⊗ c) vector
      else map_vector (λ c. c ⊗ (angle ⊘ norm)) vector

  unfoldable pub quaternion_error_body : Quaternion F → Quaternion F → Result (Vector3 F)
  quaternion_error_body current target = do
    inverse ← quaternion_conjugate current
    relative ← quaternion_multiply inverse target
    ok (
        rotation_vector
          (if lt relative.w zero_float then map_quaternion fl.neg relative else relative))

  unfoldable pub rpy_to_quaternion : F → F → F → Result (Quaternion F)
  rpy_to_quaternion roll pitch yaw =
      let cr = fl.cos (roll ⊗ half) in
      let sr = fl.sin (roll ⊗ half) in
      let cp = fl.cos (pitch ⊗ half) in
      let sp = fl.sin (pitch ⊗ half) in
      let cy = fl.cos (yaw ⊗ half) in
      let sy = fl.sin (yaw ⊗ half) in
      normalize_quaternion (record {
        w = cr ⊗ cp ⊗ cy ⊕ sr ⊗ sp ⊗ sy;
        x = sr ⊗ cp ⊗ cy ⊖ cr ⊗ sp ⊗ sy;
        y = cr ⊗ sp ⊗ cy ⊕ sr ⊗ cp ⊗ sy;
        z = cr ⊗ cp ⊗ sy ⊖ sr ⊗ sp ⊗ cy;
      })

  unfoldable pub unit_to_rpy : Quaternion F → Vector3 F
  unit_to_rpy q = record {
    x = fl.atan2 (two ⊗ (q.w ⊗ q.x ⊕ q.y ⊗ q.z)) (one_float ⊖ two ⊗ (q.x ⊗ q.x ⊕ q.y ⊗ q.y));
    y = fl.asin (clip (two ⊗ (q.w ⊗ q.y ⊖ q.z ⊗ q.x)) (fl.neg one_float) one_float);
    z = fl.atan2 (two ⊗ (q.w ⊗ q.z ⊕ q.x ⊗ q.y)) (one_float ⊖ two ⊗ (q.y ⊗ q.y ⊕ q.z ⊗ q.z));
  }

  unfoldable pub quaternion_to_rpy : Quaternion F → Result (Vector3 F)
  quaternion_to_rpy quaternion = do q ← normalize_quaternion quaternion; ok (unit_to_rpy q)

  unfoldable pub attitude_with_heading : Quaternion F → Quaternion F → Result (Quaternion F)
  attitude_with_heading tilt heading = do
    tilt_rpy ← quaternion_to_rpy tilt
    heading_rpy ← quaternion_to_rpy heading
    rpy_to_quaternion tilt_rpy.x tilt_rpy.y heading_rpy.z
