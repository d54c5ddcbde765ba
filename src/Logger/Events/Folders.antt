-- ===== src/Logger/Events/Folders.antt =====
-- The folders of the logs are those of the runs that were started.
use robot_core.Prelude.{
  ℕ, String, ◌≡◌, ◌∙◌, refl, sym, ap, Bool, false, ◌⊎◌, inl, inr, Option, none, some, Option-cases,
  List, [], ◌∷◌, ◌++◌, map, append_assoc, arith, if_keeps, if◌then◌else◌,
}
use robot_core.Prelude.Results.{Result, ok, err, Result-cases}
use robot_core.Floats.{Floats}
use robot_core.Experiment.{StartResponse}
use robot_core.Logger.{
  RunLogger, EventLog, stream_log_due, write_event, append_line, flush_event_log, put,
}
use robot_core.Logger.Messages.{Payload, SafetyMessage, LocalizationMessage}
use robot_core.Logger.Run.{
  RunConfig, StartEnv, StartRequest, StopRequest, StopResponse, on_start_run, on_stop_run,
  start_answer, start_run, start_rosbag, open_log, announce,
}
use robot_core.Logger.Run.Log.{on_stop_run-cases, ended_log}
use robot_core.Logger.Events.{
  Callback, start, stop, safety, policy, localization, thruster, target, tracking, authority, pid,
  flush_timer, handle, spin, answered, record_stream, on_safety_event, on_policy_status,
  on_localization_status, on_thruster_cmd, on_trajectory_target, on_tracking_status,
  on_authority_status, on_pid_status,
}

-- The folder that an answer to a start announces, if it reports success.
abbrev pub announced : Result StartResponse → List String
announced (err _) = []
announced (ok answer) = if answer.success then answer.run_dir ∷ [] else []

module _ {F : Type 0} where
  abbrev pub open_folder : Option (EventLog F) → List String
  open_folder none = []
  open_folder (some log) = log.folder ∷ []

  -- The folder of the log that is open, and then those of the closed ones, the last one first.
  abbrev pub folders : RunLogger F → List String
  folders s = open_folder s.event_log_handle ++ map (λ log. log.folder) s.closed

  write_event-folders :
      (now_ns : ℕ) (event_type : String) (payload : Payload F) (flush : Bool) (s : RunLogger F)
      → folders (write_event now_ns event_type payload flush s) ≡ folders s
  unfolding write_event append_line
  write_event-folders now_ns event_type payload flush s = ground arith

  flush_event_log-folders : (s : RunLogger F) → folders (flush_event_log s) ≡ folders s
  unfolding flush_event_log
  flush_event_log-folders s = ground arith

  on_start_run-folders :
      (config : RunConfig) (env : StartEnv) (request : StartRequest F) (s : RunLogger F)
      {answer : StartResponse}
      → (on_start_run config env request s).1 ≡ ok answer
      → folders (on_start_run config env request s).0
        ≡ announced (on_start_run config env request s).1 ++ folders s
  unfolding on_start_run start_answer start_run start_rosbag open_log announce write_event
      append_line
  on_start_run-folders config env request s {answer} h = elim (Option-cases s.event_log_handle) [
    | inl e ↦ ground arith
    | inr (log, e) ↦ ground arith
  ]

  on_stop_run-folders :
      (now_ns : ℕ) (wait_expires : Bool) (request : StopRequest) (s : RunLogger F)
      {answer : StopResponse}
      → (on_stop_run now_ns wait_expires request s).1 ≡ ok answer
      → folders (on_stop_run now_ns wait_expires request s).0 ≡ folders s
  unfolding ended_log
  on_stop_run-folders now_ns wait_expires request s h =
      let (log, open', e) = on_stop_run-cases now_ns wait_expires request s h in
      ap folders e ∙ ap (λ x. open_folder x ++ map (λ log. log.folder) s.closed) (sym open')

module _ {F : Type 0} ⦃fl : Floats F⦄ where
  pub stream_log_due-cases :
      (rates : List (String × F)) (event_type : String) (mono_ns : ℕ) (s : RunLogger F)
      → ((stream_log_due rates event_type mono_ns s).0 ≡ s)
        ⊎ ((stream_log_due rates event_type mono_ns s).0
            ≡ record s { last_stream_log_ns = put event_type mono_ns s.last_stream_log_ns })
  unfolding stream_log_due
  stream_log_due-cases rates event_type mono_ns s = ground arith

  pub record_stream-cases :
      (rates : List (String × F)) (event_type : String) (payload : Payload F) (now_ns mono_ns : ℕ)
      (s : RunLogger F)
      → let s' = (stream_log_due rates event_type mono_ns s).0 in
        ((record_stream rates event_type payload now_ns mono_ns s).0 ≡ s')
        ⊎ ((record_stream rates event_type payload now_ns mono_ns s).0
            ≡ write_event now_ns event_type payload false s')
  unfolding record_stream
  record_stream-cases rates event_type payload now_ns mono_ns s = ground arith

  record_stream-folders :
      (rates : List (String × F)) (event_type : String) (payload : Payload F) (now_ns mono_ns : ℕ)
      (s : RunLogger F)
      → folders (record_stream rates event_type payload now_ns mono_ns s).0 ≡ folders s
  record_stream-folders rates event_type payload now_ns mono_ns s =
      let s' = (stream_log_due rates event_type mono_ns s).0 in
      let kept : folders s' ≡ folders s = elim (stream_log_due-cases rates event_type mono_ns s) [
        | inl same ↦ ap folders same
        | inr new ↦ ap folders new
      ] in
      elim (record_stream-cases rates event_type payload now_ns mono_ns s) [
        | inl same ↦ ap folders same ∙ kept
        | inr new ↦ ap folders new ∙ write_event-folders now_ns event_type payload false s' ∙ kept
      ]

  on_safety_event-folders :
      (now_ns : ℕ) (m : SafetyMessage) (s : RunLogger F)
      → folders (on_safety_event now_ns m s) ≡ folders s
  unfolding on_safety_event
  on_safety_event-folders now_ns m s =
      if_keeps (λ (x : RunLogger F). folders x ≡ folders s) _ _ _ refl
        (write_event-folders now_ns "safety_event" _ _ _)

  on_localization_status-folders :
      (now_ns : ℕ) (m : LocalizationMessage F) (s : RunLogger F)
      → folders (on_localization_status now_ns m s) ≡ folders s
  unfolding on_localization_status
  on_localization_status-folders now_ns m s =
      if_keeps (λ (x : RunLogger F). folders x ≡ folders s) _ _ _ refl
        (write_event-folders now_ns "localization_status" _ _ _)

module _ {F : Type 0} ⦃fl : Floats F⦄ (config : RunConfig) (rates : List (String × F)) where
  -- The folders that a callback announces.
  pub started_by : Callback F → RunLogger F → List String
  started_by (start env request) s = announced (on_start_run config env request s).1
  started_by _ s = []

  -- The folders of the runs that were started, the last one first.
  pub started : List (Callback F) → RunLogger F → List String
  unfolding started_by
  started [] s = []
  started (callback ∷ callbacks) s =
      started callbacks (handle config rates callback s).0 ++ started_by callback s

  answered-folders :
      {X : Type 0} (p : RunLogger F × Result X) (names : List String)
      → (answered p).1 ≡ ok tt
      → ((x : X) → p.1 ≡ ok x → folders p.0 ≡ names)
      → folders (answered p).0 ≡ names
  answered-folders (s, ok x) names e h = h x refl
  answered-folders (s, err x) names e h = cc

  handle-folders :
      (callback : Callback F) (s : RunLogger F)
      → (handle config rates callback s).1 ≡ ok tt
      → folders (handle config rates callback s).0 ≡ started_by callback s ++ folders s
  unfolding handle on_thruster_cmd on_trajectory_target on_tracking_status on_authority_status
      on_pid_status on_policy_status started_by
  handle-folders (start env request) s e =
      answered-folders (on_start_run config env request s) _ e
        (λ answer returned. on_start_run-folders config env request s returned)
  handle-folders (stop now_ns wait_expires request) s e =
      answered-folders (on_stop_run now_ns wait_expires request s) _ e
        (λ answer returned. on_stop_run-folders now_ns wait_expires request s returned)
  handle-folders (safety now_ns m) s e = on_safety_event-folders now_ns m s
  handle-folders (policy now_ns m) s e = write_event-folders now_ns "policy_status" _ false s
  handle-folders (localization now_ns m) s e = on_localization_status-folders now_ns m s
  handle-folders (thruster now_ns mono_ns m) s e =
      record_stream-folders rates "thruster_cmd" _ now_ns mono_ns s
  handle-folders (target now_ns mono_ns m) s e =
      record_stream-folders rates "trajectory_target" _ now_ns mono_ns s
  handle-folders (tracking now_ns mono_ns m) s e =
      record_stream-folders rates "tracking_status" _ now_ns mono_ns s
  handle-folders (authority now_ns mono_ns m) s e =
      record_stream-folders rates "control_authority_status" _ now_ns mono_ns s
  handle-folders (pid now_ns mono_ns m) s e =
      record_stream-folders rates "pid_status" _ now_ns mono_ns s
  handle-folders flush_timer s e = flush_event_log-folders s

  pub spin-folders :
      (callbacks : List (Callback F)) (s : RunLogger F)
      → (spin config rates callbacks s).1 ≡ ok tt
      → folders (spin config rates callbacks s).0 ≡ started callbacks s ++ folders s
  unfolding spin started
  spin-folders [] s e = refl
  spin-folders (callback ∷ callbacks) s e = elim (Result-cases (handle config rates callback s).1) [
    | inl raised ↦ ground arith
    | inr (done', returned) ↦
        let next = (handle config rates callback s).0 in
        let same : spin config rates (callback ∷ callbacks) s ≡ spin config rates callbacks next =
          ground arith in
        ap (λ p. folders p.0) same
        ∙ spin-folders callbacks next (ground arith)
        ∙ ap (λ names. started callbacks next ++ names) (handle-folders callback s (ground arith))
        ∙ sym (append_assoc (started callbacks next) (started_by callback s) (folders s))
  ]
