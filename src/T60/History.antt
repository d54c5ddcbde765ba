-- ===== src/T60/History.antt =====
-- The history of the observation is the frames that were committed last.
use mathlib.Core.Path.{subst}
use robot_core.Prelude.{
  ◌≡◌, refl, ap, ◌∙◌, inl, inr, ℕ, zero, suc, Option, none, some, Option-cases, List, [], ◌∷◌, ◌++◌,
  length, take, ◌-◌, arith,
}
use robot_core.Prelude.Results.{Error, ok, err, Result-cases}
use robot_core.Floats.{Floats}
use robot_core.T60.{
  Call, reset_call, build_call, commit_call, Observation, ObservationState, build_frames, build,
  commit, reset, initial, zero_frame, repeat, call, run,
}

-- What the object stands for: the frames committed since the last reset, newest first, and the frame
-- of the observation that was built last, when it is not committed.
pub record Committed (F : Type 0) : Type 0 where
  pub frames : List (List F)
  pub pending : Option (List F)

abbrev pub nothing_committed : {F : Type 0} → Committed F
nothing_committed = record { frames = []; pending = none }

take-take : {A : Type 0} (n : ℕ) (xs : List A) → take n (take (suc n) xs) ≡ take n xs
take-take zero xs = refl
take-take (suc n) [] = refl
take-take (suc n) (x ∷ xs) = ap (λ ys. x ∷ ys) (take-take n xs)

module _ {F : Type 0} ⦃fl : Floats F⦄ where
  -- The last eight committed frames, with zeros before them.
  pub window : List (List F) → List (List F)
  window frames = take 8 (frames ++ repeat 8 zero_frame)

  abbrev shift : Committed F → Committed F
  shift spec = elim spec.pending [
    | none ↦ spec
    | some frame ↦ record { frames = frame ∷ spec.frames; pending = none }
  ]

  frame_of : Observation F → Option (List F)
  frame_of observation = elim (build_frames observation) [
    | err _ ↦ none
    | ok (_, frame) ↦ some frame
  ]

  -- What a call does; of `build` it is used only whether it returns.
  pub note : Call F → ObservationState F → Committed F → Committed F
  note reset_call s spec = nothing_committed
  note (build_call observation) s spec = elim (build observation s) [
    | err _ ↦ spec
    | ok _ ↦ record spec { pending = frame_of observation }
  ]
  note commit_call s spec = shift spec

  pub note_all : List (Call F) → ObservationState F → Committed F → Committed F
  unfolding note
  note_all [] s spec = spec
  note_all (c ∷ cs) s spec = note_all cs (call c s) (note c s spec)

-- The history is the window on the committed frames.
pub IsRefined : {F : Type 0} ⦃fl : Floats F⦄ → ObservationState F → Committed F → Type 0
IsRefined s spec =
    (s.history ≡ window spec.frames)
    × (s.pending_history_frame ≡ spec.pending)
    × (length s.history ≡ 8)

length-take : {A : Type 0} (n : ℕ) (xs : List A) → length xs ≡ suc n → length (take n xs) ≡ n
length-take zero xs h = refl
length-take (suc n) [] h = ground arith
length-take (suc n) (x ∷ xs) h = ap (λ k. suc k) (length-take n xs (ground arith))

initial-IsRefined : (F : Type 0) ⦃fl : Floats F⦄ → IsRefined (initial {F = F}) nothing_committed
unfolding initial IsRefined window repeat
initial-IsRefined F = (refl, refl, refl)

module _ {F : Type 0} ⦃fl : Floats F⦄ where
  shifted-window :
      (frame : List F) (frames history : List (List F))
      → history ≡ window frames
      → length history ≡ 8
      → (frame ∷ take (length history - 1) history) ≡ window (frame ∷ frames)
  unfolding window
  shifted-window frame frames history h eight =
      ap (λ k. frame ∷ take (k - 1) history) eight
      ∙ ap (λ xs. frame ∷ take 7 xs) h
      ∙ ap (λ xs. frame ∷ xs) (take-take 7 (frames ++ repeat 8 zero_frame))

  commit-IsRefined :
      (s s' : ObservationState F) (spec : Committed F)
      → IsRefined s spec
      → commit s ≡ ok s'
      → IsRefined s' (note commit_call s spec)
  unfolding commit note IsRefined
  commit-IsRefined s s' spec (h, same, eight) e = elim (Option-cases s.pending_history_frame) [
    | inl gone ↦ ground arith
    | inr (frame, has_frame) ↦
        let moved : ObservationState F = record {
          history = frame ∷ take (length s.history - 1) s.history;
          pending_history_frame = none;
        } in
        let noted : Committed F = record { frames = frame ∷ spec.frames; pending = none } in
        let is_moved : moved ≡ s' = ground arith in
        let is_noted : noted ≡ shift spec = ground arith in
        subst (λ x. IsRefined x (shift spec)) is_moved
          (subst (λ x. IsRefined moved x) is_noted
            (
              shifted-window frame spec.frames s.history h eight,
              refl,
              ap (λ k. suc k)
                  (ap (λ k. length (take (k - 1) s.history)) eight ∙ length-take 7 s.history eight),
            ))
  ]

  build-pending :
      (observation : Observation F) (s s' : ObservationState F) (input : List F)
      → build observation s ≡ ok (input, s')
      → (s'.history ≡ s.history) × (s'.pending_history_frame ≡ frame_of observation)
  unfolding build frame_of
  build-pending observation s s' input e = elim (Result-cases (build_frames observation)) [
    | inl bad ↦ ground arith
    | inr ((current, frame), built) ↦ ground arith
  ]

  commit-none :
      (s : ObservationState F) (exception : Error)
      → commit s ≡ err exception
      → s.pending_history_frame ≡ none
  unfolding commit
  commit-none s exception e = elim (Option-cases s.pending_history_frame) [
    | inl gone ↦ gone
    | inr (frame, has_frame) ↦ ground arith
  ]

  subst-IsRefined :
      (s s' : ObservationState F) (spec spec' : Committed F)
      → s ≡ s'
      → spec ≡ spec'
      → IsRefined s spec
      → IsRefined s' spec'
  subst-IsRefined s s' spec spec' e e' h =
      subst (λ x. IsRefined x spec') e (subst (λ x. IsRefined s x) e' h)

  call-IsRefined :
      (c : Call F) (s : ObservationState F) (spec : Committed F)
      → IsRefined s spec
      → IsRefined (call c s) (note c s spec)
  unfolding call note IsRefined reset
  call-IsRefined reset_call s spec h = initial-IsRefined F
  call-IsRefined (build_call observation) s spec (h, same, eight) =
      elim (Result-cases (build observation s)) [
        | inl bad ↦
            subst-IsRefined s (call (build_call observation) s) spec
              (note (build_call observation) s spec) (ground arith) (ground arith) (h, same, eight)
        | inr ((input, s'), built) ↦
            let (kept, pending) = build-pending observation s s' input built in
            let noted : Committed F = record spec { pending = frame_of observation } in
            subst-IsRefined s' (call (build_call observation) s) noted
              (note (build_call observation) s spec) (ground arith) (ground arith)
              (kept ∙ h, pending, ap length kept ∙ eight)
      ]
  call-IsRefined commit_call s spec (h, same, eight) = elim (Result-cases (commit s)) [
    | inl (exception, bad) ↦
        let empty = commit-none s exception bad in
        let unshifted : spec ≡ shift spec = ground arith in
        subst-IsRefined s (call commit_call s) spec (shift spec) (ground arith) unshifted
          (h, same, eight)
    | inr (s', moved) ↦
        subst-IsRefined s' (call commit_call s) (note commit_call s spec) (note commit_call s spec)
          (ground arith) refl (commit-IsRefined s s' spec (h, same, eight) moved)
  ]

  run-IsRefined :
      (cs : List (Call F)) (s : ObservationState F) (spec : Committed F)
      → IsRefined s spec
      → IsRefined (run cs s) (note_all cs s spec)
  unfolding run note_all
  run-IsRefined [] s spec h = h
  run-IsRefined (c ∷ cs) s spec h =
      run-IsRefined cs (call c s) (note c s spec) (call-IsRefined c s spec h)

  -- After any calls from construction on, builds and commits that raise among them, the history is the
  -- last eight frames committed since the last reset, newest first and with zeros before them, and the
  -- pending frame is that of the last observation that was built, if it is not committed yet.
  pub run_keeps_history :
      (cs : List (Call F))
      → ((run cs initial).history ≡ window (note_all cs initial nothing_committed).frames)
        × ((run cs initial).pending_history_frame ≡ (note_all cs initial nothing_committed).pending)
  unfolding IsRefined
  run_keeps_history cs =
      let (h, same, _) = run-IsRefined cs initial nothing_committed (initial-IsRefined F) in
      (h, same)
