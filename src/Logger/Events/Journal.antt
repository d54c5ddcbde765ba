-- ===== src/Logger/Events/Journal.antt =====
-- A node that has not raised is idle or records one run, and every closed log is the log of a whole run.
use mathlib.Core.Path.{subst}
use robot_core.Prelude.{
  ℕ, String, ◌≡◌, ◌∙◌, append-nil, refl, sym, false, inl, inr, List, [], ◌∷◌, arith, if_keeps,
}
use robot_core.Prelude.Results.{Result, ok, err, Result-cases}
use robot_core.Floats.{Floats}
use robot_core.Logger.{RunLogger, init, stream_log_due}
use robot_core.Logger.Messages.{Payload, SafetyMessage, LocalizationMessage}
use robot_core.Logger.Run.{RunConfig, on_start_run, on_stop_run}
use robot_core.Logger.Events.Folders.{
  folders, started, spin-folders, stream_log_due-cases, record_stream-cases,
}
use robot_core.Logger.Run.Log.{
  IsOrdinary, IsSound, write_event-IsSound, flush_event_log-IsSound, on_start_run-IsSound,
  on_stop_run-IsSound,
}
use robot_core.Logger.Events.{
  Callback, start, stop, safety, policy, localization, thruster, target, tracking, authority, pid,
  flush_timer, handle, spin, answered, record_stream, on_safety_event, on_policy_status,
  on_localization_status, on_thruster_cmd, on_trajectory_target, on_tracking_status,
  on_authority_status, on_pid_status,
}

module _ {F : Type 0} ⦃fl : Floats F⦄ where
  on_safety_event-IsSound :
      (now_ns : ℕ) (m : SafetyMessage) (s : RunLogger F)
      → IsSound s
      → IsSound (on_safety_event now_ns m s)
  unfolding on_safety_event
  on_safety_event-IsSound now_ns m s h =
      if_keeps IsSound _ _ _ h (write_event-IsSound now_ns "safety_event" _ _ _ (refl, refl) h)

  on_localization_status-IsSound :
      (now_ns : ℕ) (m : LocalizationMessage F) (s : RunLogger F)
      → IsSound s
      → IsSound (on_localization_status now_ns m s)
  unfolding on_localization_status
  on_localization_status-IsSound now_ns m s h =
      if_keeps IsSound _ _ _ h
        (write_event-IsSound now_ns "localization_status" _ _ _ (refl, refl) h)

  stream_log_due-IsSound :
      (rates : List (String × F)) (event_type : String) (mono_ns : ℕ) (s : RunLogger F)
      → IsSound s
      → IsSound (stream_log_due rates event_type mono_ns s).0
  stream_log_due-IsSound rates event_type mono_ns s h =
      elim (stream_log_due-cases rates event_type mono_ns s) [
        | inl same ↦ subst IsSound (sym same) h
        | inr new ↦ subst IsSound (sym new) h
      ]

  record_stream-IsSound :
      (rates : List (String × F)) (event_type : String) (payload : Payload F) (now_ns mono_ns : ℕ)
      (s : RunLogger F)
      → IsOrdinary event_type
      → IsSound s
      → IsSound (record_stream rates event_type payload now_ns mono_ns s).0
  record_stream-IsSound rates event_type payload now_ns mono_ns s o h =
      let h' = stream_log_due-IsSound rates event_type mono_ns s h in
      elim (record_stream-cases rates event_type payload now_ns mono_ns s) [
        | inl same ↦ subst IsSound (sym same) h'
        | inr new ↦
            subst IsSound (sym new) (write_event-IsSound now_ns event_type payload false _ o h')
      ]

answered-IsSound :
    {F X : Type 0} (p : RunLogger F × Result X)
    → (answered p).1 ≡ ok tt
    → ((x : X) → p.1 ≡ ok x → IsSound p.0)
    → IsSound (answered p).0
answered-IsSound (s, ok x) e h = h x refl
answered-IsSound (s, err x) e h = cc

module _ {F : Type 0} ⦃fl : Floats F⦄ (config : RunConfig) (rates : List (String × F)) where
  handle-IsSound :
      (callback : Callback F) (s : RunLogger F)
      → (handle config rates callback s).1 ≡ ok tt
      → IsSound s
      → IsSound (handle config rates callback s).0
  unfolding handle on_thruster_cmd on_trajectory_target on_tracking_status on_authority_status
      on_pid_status on_policy_status
  handle-IsSound (start env request) s e h =
      answered-IsSound (on_start_run config env request s) e
        (λ answer returned. on_start_run-IsSound config env request s returned h)
  handle-IsSound (stop now_ns wait_expires request) s e h =
      answered-IsSound (on_stop_run now_ns wait_expires request s) e
        (λ answer returned. on_stop_run-IsSound now_ns wait_expires request s returned h)
  handle-IsSound (safety now_ns m) s e h = on_safety_event-IsSound now_ns m s h
  handle-IsSound (policy now_ns m) s e h =
      write_event-IsSound now_ns "policy_status" _ false s (refl, refl) h
  handle-IsSound (localization now_ns m) s e h = on_localization_status-IsSound now_ns m s h
  handle-IsSound (thruster now_ns mono_ns m) s e h =
      record_stream-IsSound rates "thruster_cmd" _ now_ns mono_ns s (refl, refl) h
  handle-IsSound (target now_ns mono_ns m) s e h =
      record_stream-IsSound rates "trajectory_target" _ now_ns mono_ns s (refl, refl) h
  handle-IsSound (tracking now_ns mono_ns m) s e h =
      record_stream-IsSound rates "tracking_status" _ now_ns mono_ns s (refl, refl) h
  handle-IsSound (authority now_ns mono_ns m) s e h =
      record_stream-IsSound rates "control_authority_status" _ now_ns mono_ns s (refl, refl) h
  handle-IsSound (pid now_ns mono_ns m) s e h =
      record_stream-IsSound rates "pid_status" _ now_ns mono_ns s (refl, refl) h
  handle-IsSound flush_timer s e h = flush_event_log-IsSound s h

  spin-IsSound :
      (callbacks : List (Callback F)) (s : RunLogger F)
      → (spin config rates callbacks s).1 ≡ ok tt
      → IsSound s
      → IsSound (spin config rates callbacks s).0
  unfolding spin
  spin-IsSound [] s e h = h
  spin-IsSound (callback ∷ callbacks) s e h =
      elim (Result-cases (handle config rates callback s).1) [
        | inl raised ↦ ground arith
        | inr (done', returned) ↦
            let next = (handle config rates callback s).0 in
            let same : spin config rates (callback ∷ callbacks) s
                ≡ spin config rates callbacks next =
              ground arith in
            subst (λ p. IsSound p.0) (sym same)
              (spin-IsSound callbacks next (ground arith)
                (handle-IsSound callback s (ground arith) h))
      ]

  -- After any callbacks none of which raises, either no log is open and no recorder runs, or one log is
  -- open in the folder that is announced, a recorder runs, and the log holds the two events of its
  -- start and then none that marks a start or an end. Every closed log is whole: the events of its
  -- start first, the one event of its end last, and every line flushed. The folders of the log that is
  -- open and of the closed ones are, in order, those that the starts reporting success announced, so
  -- that no run that was started is lost.
  pub spin_keeps_journal :
      (callbacks : List (Callback F))
      → (spin config rates callbacks init).1 ≡ ok tt
      → IsSound (spin config rates callbacks init).0
        × (folders (spin config rates callbacks init).0 ≡ started config rates callbacks init)
  spin_keeps_journal callbacks returned = (
    spin-IsSound callbacks init returned ((refl, refl, refl), tt),
    spin-folders config rates callbacks init returned
        ∙ append-nil (started config rates callbacks init),
  )
