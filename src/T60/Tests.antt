-- ===== src/T60/Tests.antt =====
-- Two observations, one of them committed, and the theorem there.
use robot_core.Prelude.{◌≡◌, refl, true, none, some, Option, List, [], ◌∷◌}
use robot_core.Prelude.Results.{err, runtime_error}
use robot_core.Floats.{lit, zero_float, one_float}
use robot_core.Floats.Model.{Num, num_floats}
use robot_core.T60.{Observation, Call, build_call, commit_call, commit, initial, run}
use robot_core.T60.History.{nothing_committed, window, note_all, run_keeps_history}

abbrev still : Option (List Num)
still = some (zero_float ∷ zero_float ∷ zero_float ∷ [])

abbrev upright : Option (List Num)
upright = some (one_float ∷ zero_float ∷ zero_float ∷ zero_float ∷ [])

abbrev observed : Observation Num
observed = record {
  body = some (record { position = still; orientation = upright; linear_velocity = still });
  imu = record { orientation = upright; angular_velocity = still };
  action = some (
      zero_float ∷ zero_float ∷ zero_float ∷ zero_float ∷ zero_float ∷ zero_float ∷ zero_float
      ∷ zero_float ∷ []);
  target = some (record {
    valid = true;
    position = some (one_float ∷ zero_float ∷ lit 5 1 ∷ []);
    orientation = upright;
    linear_velocity = still;
    angular_velocity = still;
    linear_acceleration = still;
  });
}

abbrev calls : List (Call Num)
calls =
    commit_call
    ∷ build_call observed
    ∷ commit_call
    ∷ build_call (record observed { action = none })
    ∷ commit_call
    ∷ build_call observed
    ∷ []

early_commit :
    commit (initial {F = Num})
    ≡ err (runtime_error "cannot commit t60 history before building an observation")
unfolding commit initial
early_commit = refl

run_keeps_history_example :
    ((run calls initial).history ≡ window (note_all calls initial nothing_committed).frames)
    × ((run calls initial).pending_history_frame
        ≡ (note_all calls initial nothing_committed).pending)
run_keeps_history_example = run_keeps_history calls
