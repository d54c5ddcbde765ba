-- ===== src/T60.antt =====
-- ros_ws/src/robotcore_policy/robotcore_policy/t60_observation.py. Floats are single precision here, and
-- the values of an observation are those that `np.asarray(..., dtype=np.float32)` makes of it, flattened.
pub mod History
mod Tests
use robot_core.Prelude.{
  ℕ, String, Bool, true, false, not, ◌&&◌, ◌||◌, ◌==◌, Option, none, some, List, [], ◌∷◌, ◌++◌,
  length, take, ◌-◌, zero, suc, if◌then◌else◌,
}
use robot_core.Prelude.Results.{
  Result, ok, err, runtime_error, key_error, value_error, or_raise, ◌>>=◌, ◌>>◌,
}
use robot_core.Floats.{Floats, lt, le, lit, clip, zero_float, one_float, ◌⊗◌, ◌⊘◌, ◌⊕◌, ◌⊖◌}
use robot_core.Floats.Vectors.{all_finite}
use robot_core.Tracking.Rotation.{Vector3, Quaternion}
use robot_core.Control.Quaternions.{components, map_quaternion, map_vector, add_vector3, xyz, cross}

-- The parts of an observation that are read; `none` is a key that is missing, or an empty message.
pub record BodyPart (F : Type 0) : Type 0 where
  pub position : Option (List F)
  pub orientation : Option (List F)
  pub linear_velocity : Option (List F)

pub record ImuPart (F : Type 0) : Type 0 where
  pub orientation : Option (List F)
  pub angular_velocity : Option (List F)

pub record TargetPart (F : Type 0) : Type 0 where
  pub valid : Bool
  pub position : Option (List F)
  pub orientation : Option (List F)
  pub linear_velocity : Option (List F)
  pub angular_velocity : Option (List F)
  pub linear_acceleration : Option (List F)

pub record Observation (F : Type 0) : Type 0 where
  pub body : Option (BodyPart F)
  pub imu : ImuPart F
  pub action : Option (List F)
  pub target : Option (TargetPart F)

-- The eight frames are newest first.
pub record ObservationState (F : Type 0) : Type 0 where
  pub history : List (List F)
  pub pending_history_frame : Option (List F)

pub data Call (F : Type 0) : Type 0 where
  reset_call : Call F
  build_call : Observation F → Call F
  commit_call : Call F

pub repeat {ℓ} : {A : Type ℓ} → ℕ → A → List A
repeat zero x = []
repeat (suc n) x = x ∷ repeat n x

pub flatten {ℓ} : {A : Type ℓ} → List (List A) → List A
flatten [] = []
flatten (xs ∷ xss) = xs ++ flatten xss

module _ {F : Type 0} ⦃fl : Floats F⦄ where
  abbrev two : F
  two = lit 2 0

  abbrev half : F
  half = lit 5 1

  pub observation_scale : List F
  observation_scale =
      lit 25 2
      ∷ lit 25 2
      ∷ lit 25 2
      ∷ lit 40 2
      ∷ lit 40 2
      ∷ lit 40 2
      ∷ lit 20 2
      ∷ lit 20 2
      ∷ lit 20 2
      ∷ lit 1 0
      ∷ lit 1 0
      ∷ lit 1 0
      ∷ lit 1 0
      ∷ lit 80 2
      ∷ lit 80 2
      ∷ lit 80 2
      ∷ lit 80 2
      ∷ lit 80 2
      ∷ lit 80 2
      ∷ lit 45 2
      ∷ lit 45 2
      ∷ lit 45 2
      ∷ lit 1 0
      ∷ lit 1 0
      ∷ lit 1 0
      ∷ lit 1 0
      ∷ lit 1 0
      ∷ lit 1 0
      ∷ lit 1 0
      ∷ lit 1 0
      ∷ []

  pub history_scale : List F
  history_scale =
      lit 25 2
      ∷ lit 25 2
      ∷ lit 25 2
      ∷ lit 20 2
      ∷ lit 20 2
      ∷ lit 20 2
      ∷ lit 1 0
      ∷ lit 1 0
      ∷ lit 1 0
      ∷ lit 1 0
      ∷ lit 80 2
      ∷ lit 80 2
      ∷ lit 80 2
      ∷ lit 1 0
      ∷ lit 1 0
      ∷ lit 1 0
      ∷ lit 1 0
      ∷ lit 1 0
      ∷ lit 1 0
      ∷ lit 1 0
      ∷ lit 1 0
      ∷ []

  pub scaled : List F → List F → List F
  scaled (x ∷ xs) (y ∷ ys) = (x ⊘ y) ∷ scaled xs ys
  scaled _ _ = []

  pub vec3 : Option (List F) → String → Result (Vector3 F)
  vec3 (some (x ∷ y ∷ z ∷ [])) message =
      if all_finite (x ∷ y ∷ z ∷ [])
      then ok (record { x = x; y = y; z = z })
      else err (runtime_error message)
  vec3 _ message = err (runtime_error message)

  -- `norm < 1.0e-6` of a single: the single nearest to 1e-6 is below it, and the next one above.
  pub unit_quaternion : Option (List F) → String → Result (Quaternion F)
  unit_quaternion (some (w ∷ x ∷ y ∷ z ∷ [])) message =
      let norm = fl.np_norm (w ∷ x ∷ y ∷ z ∷ []) in
      if not (all_finite (w ∷ x ∷ y ∷ z ∷ [])) || le norm (lit 1 6)
      then err (runtime_error message)
      else ok (record { w = w ⊘ norm; x = x ⊘ norm; y = y ⊘ norm; z = z ⊘ norm })
  unit_quaternion _ message = err (runtime_error message)

  pub quat_conjugate : Quaternion F → Quaternion F
  quat_conjugate q = record {
    w = q.w ⊗ one_float;
    x = q.x ⊗ fl.neg one_float;
    y = q.y ⊗ fl.neg one_float;
    z = q.z ⊗ fl.neg one_float;
  }

  pub quat_multiply : Quaternion F → Quaternion F → Quaternion F
  quat_multiply l r = record {
    w = l.w ⊗ r.w ⊖ l.x ⊗ r.x ⊖ l.y ⊗ r.y ⊖ l.z ⊗ r.z;
    x = l.w ⊗ r.x ⊕ l.x ⊗ r.w ⊕ l.y ⊗ r.z ⊖ l.z ⊗ r.y;
    y = l.w ⊗ r.y ⊖ l.x ⊗ r.z ⊕ l.y ⊗ r.w ⊕ l.z ⊗ r.x;
    z = l.w ⊗ r.z ⊕ l.x ⊗ r.y ⊖ l.y ⊗ r.x ⊕ l.z ⊗ r.w;
  }

  pub quat_unique : Quaternion F → Quaternion F
  quat_unique q = if lt q.w zero_float then map_quaternion fl.neg q else q

  pub quat_apply : Quaternion F → Vector3 F → Vector3 F
  quat_apply q vector =
      let twice = map_vector (λ c. two ⊗ c) (cross (xyz q) vector) in
      add_vector3 (add_vector3 vector (map_vector (λ c. q.w ⊗ c) twice)) (cross (xyz q) twice)

  pub rpy_of : Quaternion F → Vector3 F
  rpy_of q = record {
    x = fl.atan2 (two ⊗ (q.w ⊗ q.x ⊕ q.y ⊗ q.z)) (one_float ⊖ two ⊗ (q.x ⊗ q.x ⊕ q.y ⊗ q.y));
    y = fl.asin (clip (two ⊗ (q.w ⊗ q.y ⊖ q.z ⊗ q.x)) (fl.neg one_float) one_float);
    z = fl.atan2 (two ⊗ (q.w ⊗ q.z ⊕ q.x ⊗ q.y)) (one_float ⊖ two ⊗ (q.y ⊗ q.y ⊕ q.z ⊗ q.z));
  }

  pub quaternion_of_rpy : (roll pitch yaw : F) → Quaternion F
  quaternion_of_rpy roll pitch yaw =
      let cr = fl.cos (roll ⊗ half) in
      let sr = fl.sin (roll ⊗ half) in
      let cp = fl.cos (pitch ⊗ half) in
      let sp = fl.sin (pitch ⊗ half) in
      let cy = fl.cos (yaw ⊗ half) in
      let sy = fl.sin (yaw ⊗ half) in
      let q : Quaternion F = record {
        w = cr ⊗ cp ⊗ cy ⊕ sr ⊗ sp ⊗ sy;
        x = sr ⊗ cp ⊗ cy ⊖ cr ⊗ sp ⊗ sy;
        y = cr ⊗ sp ⊗ cy ⊕ sr ⊗ cp ⊗ sy;
        z = cr ⊗ cp ⊗ sy ⊖ sr ⊗ sp ⊗ cy;
      } in
      map_quaternion (λ c. c ⊘ fl.np_norm (components q)) q

  abbrev pub coordinates : Vector3 F → List F
  coordinates v = v.x ∷ v.y ∷ v.z ∷ []

  abbrev difference : Vector3 F → Vector3 F → Vector3 F
  difference a b = record { x = a.x ⊖ b.x; y = a.y ⊖ b.y; z = a.z ⊖ b.z }

  -- `np.asarray(thruster_command["action"], ...).reshape(self.action_dim)`
  pub previous_command : Option (List F) → Result (List F)
  previous_command none = err (key_error "action")
  previous_command (some action) =
      if length action == 8
      then ok action
      else err (value_error "cannot reshape array into shape (8,)")

  pub present_body : Option (BodyPart F) → Result (BodyPart F)
  present_body none = err (runtime_error "t60 observation is missing /robot/body_state")
  present_body (some body) = ok body

  pub valid_target : Option (TargetPart F) → Result (TargetPart F)
  valid_target none = err (runtime_error "t60 observation requires a valid trajectory target")
  valid_target (some target) =
      if target.valid
      then ok target
      else err (runtime_error "t60 observation requires a valid trajectory target")

  pub require_shape : ℕ → List F → String → Result (List F)
  require_shape size xs message = if length xs == size then ok xs else err (runtime_error message)

  -- The scaled observation of 30 numbers, and the frame of 21 for the history.
  pub build_frames : Observation F → Result (List F × List F)
  unfolding vec3 unit_quaternion previous_command present_body valid_target require_shape
      observation_scale history_scale
  build_frames observation = do
    body ← present_body observation.body
    target ← valid_target observation.target
    measured_position ← vec3 body.position "body position must contain three finite values"
    localization ← unit_quaternion body.orientation "body orientation"
    imu ← unit_quaternion observation.imu.orientation "external IMU orientation"
    let measured = quaternion_of_rpy (rpy_of imu).x (rpy_of imu).y (rpy_of localization).z
    measured_linear ←
        vec3 body.linear_velocity "body linear velocity must contain three finite values"
    measured_angular ←
        vec3 observation.imu.angular_velocity
          "external IMU angular velocity must contain three finite values"
    command ← previous_command observation.action
    target_position ← vec3 target.position "target position must contain three finite values"
    target_orientation ← unit_quaternion target.orientation "target orientation"
    target_linear ←
        vec3 target.linear_velocity "target linear velocity must contain three finite values"
    target_angular ←
        vec3 target.angular_velocity "target angular velocity must contain three finite values"
    target_acceleration ←
        vec3 target.linear_acceleration
          "target linear acceleration must contain three finite values"
    let q_bw = quat_conjugate measured
    let position_error = quat_apply q_bw (difference target_position measured_position)
    let target_linear_b = quat_apply q_bw target_linear
    let linear_error = difference target_linear_b measured_linear
    let attitude_error = quat_unique (quat_multiply q_bw target_orientation)
    let target_angular_b = quat_apply q_bw target_angular
    let angular_error = difference target_angular_b measured_angular
    let target_acceleration_b = quat_apply q_bw target_acceleration
    raw ←
        require_shape 30
          (coordinates position_error
            ++ (coordinates target_linear_b
                ++ (coordinates linear_error
                    ++ (components attitude_error
                        ++ (coordinates measured_angular
                            ++ (coordinates target_angular_b
                                ++ (coordinates target_acceleration_b ++ command)))))))
          "t60 current observation has another shape"
    raw_frame ←
        require_shape 21
          (coordinates position_error
            ++ (coordinates linear_error
                ++ (components attitude_error ++ (coordinates angular_error ++ command))))
          "t60 history frame has another shape"
    ok (scaled raw observation_scale, scaled raw_frame history_scale)

  pub zero_frame : List F
  unfolding repeat
  zero_frame = repeat 21 zero_float

  pub initial : ObservationState F
  unfolding repeat zero_frame
  initial = record { history = repeat 8 zero_frame; pending_history_frame = none }

  pub reset : ObservationState F → ObservationState F
  unfolding initial
  reset s = initial

  pub build : Observation F → ObservationState F → Result (List F × ObservationState F)
  unfolding flatten require_shape
  build observation s = do
    (current, frame) ← build_frames observation
    policy_input ←
        require_shape 198 (current ++ flatten s.history) "t60 observation has another shape"
    if all_finite policy_input
        then ok (policy_input, record s { pending_history_frame = some frame })
        else err (runtime_error "t60 observation contains a non-finite value")

  -- The frames move on by one, and the pending frame becomes the first.
  pub commit : ObservationState F → Result (ObservationState F)
  commit s = elim s.pending_history_frame [
    | none ↦ err (runtime_error "cannot commit t60 history before building an observation")
    | some frame ↦ ok (record {
      history = frame ∷ take (length s.history - 1) s.history;
      pending_history_frame = none;
    })
  ]

  -- A call that raises leaves the object as it was.
  pub call : Call F → ObservationState F → ObservationState F
  call reset_call s = reset s
  call (build_call observation) s = elim (build observation s) [ err _ ↦ s | ok (_, s') ↦ s' ]
  call commit_call s = elim (commit s) [ err _ ↦ s | ok s' ↦ s' ]

  pub run : List (Call F) → ObservationState F → ObservationState F
  unfolding call
  run [] s = s
  run (c ∷ cs) s = run cs (call c s)
