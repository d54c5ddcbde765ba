-- ===== src/Logger/Run/Log.antt =====
-- What a log and a node hold between callbacks, and that writing, starting and stopping keep it.
use mathlib.Core.Path.{subst}
use robot_core.Prelude.{
  ℕ, String, ◌≡◌, refl, sym, ap, Bool, true, false, ◌⊎◌, inl, inr, Option, none, some, List, [],
  ◌∷◌, ◌++◌, length, All, All-append, arith, str_eq, Option-cases,
}
use robot_core.Prelude.Results.{ok}
use robot_core.Python.{str_value}
use robot_core.Experiment.{StartResponse}
use robot_core.Logger.{
  RunLogger, Event, EventLog, lookup, write_event, append_line, flush_event_log,
}
use robot_core.Logger.Messages.{Payload}
use robot_core.Logger.Run.{
  RunConfig, StartEnv, StartRequest, StopRequest, StopResponse, on_start_run, on_stop_run,
  start_run, start_rosbag, stop_rosbag, announce, open_log, close_log, end_payload, start_payload,
  started_payload, run_dir_of, rosbag_command,
}

-- neither of the two types that mark a run's start and end
abbrev pub IsOrdinary : String → Type 0
IsOrdinary event_type =
    (str_eq event_type "run_started" ≡ false) × (str_eq event_type "tracking_experiment" ≡ false)

module _ {F : Type 0} where
  abbrev pub HasPhase : String → Event F → Type 0
  HasPhase phase e =
      (e.type ≡ "tracking_experiment") × (lookup "phase" e.payload ≡ some (str_value phase))

  -- The two events of the start, and then none that marks a start or an end.
  abbrev pub IsRecording : EventLog F → Type 0
  IsRecording log =
      (a : Event F) × (b : Event F) × (middle : List (Event F)) × (log.lines ≡ a ∷ b ∷ middle)
      × (a.type ≡ "run_started")
      × HasPhase "start" b
      × All (λ e. IsOrdinary e.type) middle

  -- The same with the one event of the end as its last, and all of it written out.
  abbrev pub IsWhole : EventLog F → Type 0
  IsWhole log =
      (a : Event F) × (b : Event F) × (middle : List (Event F)) × (e : Event F) × (log.lines
        ≡ a ∷ b ∷ (middle ++ e ∷ []))
      × (a.type ≡ "run_started")
      × HasPhase "start" b
      × All (λ x. IsOrdinary x.type) middle
      × HasPhase "end" e
      × (log.flushed ≡ length log.lines)

  -- With no log open there is no folder and no recorder; with one open there are both.
  abbrev pub IsConsistent :
      Option (EventLog F) → Option String → Option (List String) → Bool → Type 0
  IsConsistent none run_dir process output = (run_dir ≡ none) × (process ≡ none) × (output ≡ false)
  IsConsistent (some log) run_dir process output =
      (run_dir ≡ some log.folder)
      × ((command : List String) × (process ≡ some command))
      × (output ≡ true)
      × IsRecording log

  abbrev pub IsSound : RunLogger F → Type 0
  IsSound s =
      IsConsistent s.event_log_handle s.run_dir s.rosbag_process s.rosbag_output_handle
      × All IsWhole s.closed

  abbrev append_to : Event F → Bool → Option (EventLog F) → Option (EventLog F)
  append_to line flush none = none
  append_to line flush (some log) = some (append_line line flush log)

  write_event_lem :
      (now_ns : ℕ) (event_type : String) (payload : Payload F) (flush : Bool) (s : RunLogger F)
      → write_event now_ns event_type payload flush s ≡ record s {
        event_log_handle =
            append_to
              (record { time = now_ns; type = event_type; payload = payload })
              flush
              s.event_log_handle;
      }
  unfolding write_event
  write_event_lem now_ns event_type payload flush s = ground arith

  append_to-IsConsistent :
      (line : Event F) (flush : Bool) (log : Option (EventLog F)) (run_dir : Option String)
      (process : Option (List String)) (output : Bool)
      → IsOrdinary line.type
      → IsConsistent log run_dir process output
      → IsConsistent (append_to line flush log) run_dir process output
  unfolding append_line
  append_to-IsConsistent line flush none run_dir process output o h = h
  append_to-IsConsistent line flush (some log) run_dir process output o
        (h1, h2, h3, (a, b, middle, e, ha, hb, hm)) =
      (
        h1,
        h2,
        h3,
        (
          a,
          b,
          middle ++ line ∷ [],
          ground arith,
          ha,
          hb,
          All-append (λ e. IsOrdinary e.type) middle (line ∷ []) hm (o, tt),
        ),
      )

  pub write_event-IsSound :
      (now_ns : ℕ) (event_type : String) (payload : Payload F) (flush : Bool) (s : RunLogger F)
      → IsOrdinary event_type
      → IsSound s
      → IsSound (write_event now_ns event_type payload flush s)
  write_event-IsSound now_ns event_type payload flush s o h =
      subst IsSound (sym (write_event_lem now_ns event_type payload flush s)) (
        append_to-IsConsistent _ flush s.event_log_handle s.run_dir s.rosbag_process
            s.rosbag_output_handle o h.0,
        h.1,
      )

  abbrev flushed_to : Option (EventLog F) → Option (EventLog F)
  flushed_to none = none
  flushed_to (some log) = some (record log { flushed = length log.lines })

  flush_event_log_lem :
      (s : RunLogger F)
      → flush_event_log s ≡ record s { event_log_handle = flushed_to s.event_log_handle }
  unfolding flush_event_log
  flush_event_log_lem s = ground arith

  flushed_to-IsConsistent :
      (log : Option (EventLog F)) (run_dir : Option String) (process : Option (List String))
      (output : Bool)
      → IsConsistent log run_dir process output
      → IsConsistent (flushed_to log) run_dir process output
  flushed_to-IsConsistent none run_dir process output h = h
  flushed_to-IsConsistent (some log) run_dir process output h = h

  pub flush_event_log-IsSound : (s : RunLogger F) → IsSound s → IsSound (flush_event_log s)
  flush_event_log-IsSound s h = subst IsSound (sym (flush_event_log_lem s)) (
    flushed_to-IsConsistent s.event_log_handle s.run_dir s.rosbag_process s.rosbag_output_handle
        h.0,
    h.1,
  )

  abbrev opened_log : StartEnv → StartRequest F → String → EventLog F
  opened_log env request run_dir = record {
    folder = run_dir;
    lines =
        record { time = env.started_ns; type = "run_started"; payload = started_payload run_dir }
        ∷ record {
          time = env.announced_ns;
          type = "tracking_experiment";
          payload = start_payload request;
        }
        ∷ [];
    flushed = 2;
  }

  abbrev recording : RunConfig → StartEnv → StartRequest F → RunLogger F → RunLogger F
  recording config env request s =
      let run_dir = run_dir_of config env request.task_name in
      record s {
        run_dir = some run_dir;
        event_log_handle = some (opened_log env request run_dir);
        rosbag_process = some (rosbag_command config run_dir);
        rosbag_output_handle = true;
      }

  -- A start that returns an answer refused, or opened a log with its two events.
  on_start_run-cases :
      (config : RunConfig) (env : StartEnv) (request : StartRequest F) (s : RunLogger F)
      {answer : StartResponse}
      → (on_start_run config env request s).1 ≡ ok answer
      → ((on_start_run config env request s).0 ≡ s)
        ⊎ ((on_start_run config env request s).0 ≡ recording config env request s)
  unfolding on_start_run start_run start_rosbag open_log announce write_event append_line
  on_start_run-cases config env request s {answer} h = ground arith

  opened_log-IsRecording :
      (env : StartEnv) (request : StartRequest F) (run_dir : String)
      → IsRecording (opened_log env request run_dir)
  unfolding start_payload lookup
  opened_log-IsRecording env request run_dir = (_, _, [], refl, refl, (refl, refl), tt)

  pub on_start_run-IsSound :
      (config : RunConfig) (env : StartEnv) (request : StartRequest F) (s : RunLogger F)
      {answer : StartResponse}
      → (on_start_run config env request s).1 ≡ ok answer
      → IsSound s
      → IsSound (on_start_run config env request s).0
  on_start_run-IsSound config env request s h sound =
      elim (on_start_run-cases config env request s h) [
        | inl same ↦ subst IsSound (sym same) sound
        | inr new ↦
            let run_dir = run_dir_of config env request.task_name in
            subst IsSound (sym new) (
              (
                refl,
                (rosbag_command config run_dir, refl),
                refl,
                opened_log-IsRecording env request run_dir,
              ),
              sound.1,
            )
      ]

  abbrev end_event : ℕ → StopRequest → Event F
  end_event now_ns request = record {
    time = now_ns;
    type = "tracking_experiment";
    payload = end_payload request;
  }

  unfoldable pub ended_log : ℕ → StopRequest → EventLog F → EventLog F
  ended_log now_ns request log =
      let lines = log.lines ++ end_event now_ns request ∷ [] in
      record { folder = log.folder; lines = lines; flushed = length lines }

  -- A stop that returns an answer closed the log that was open.
  pub on_stop_run-cases :
      (now_ns : ℕ) (wait_expires : Bool) (request : StopRequest) (s : RunLogger F)
      {answer : StopResponse}
      → (on_stop_run now_ns wait_expires request s).1 ≡ ok answer
      → (log : EventLog F) × (s.event_log_handle ≡ some log)
        × ((on_stop_run now_ns wait_expires request s).0 ≡ record s {
          run_dir = none;
          event_log_handle = none;
          rosbag_process = none;
          rosbag_output_handle = false;
          closed = ended_log now_ns request log ∷ s.closed;
        })
  unfolding on_stop_run stop_rosbag close_log write_event append_line ended_log
  on_stop_run-cases now_ns wait_expires request s {answer} h =
      elim (Option-cases s.event_log_handle) [
        | inl e ↦ ground arith
        | inr (log, e) ↦ (log, e, ground arith)
      ]

  ended_log-IsWhole :
      (now_ns : ℕ) (request : StopRequest) (log : EventLog F)
      → IsRecording log
      → IsWhole (ended_log now_ns request log)
  unfolding ended_log end_payload lookup
  ended_log-IsWhole now_ns request log (a, b, middle, e, ha, hb, hm) = (
    a,
    b,
    middle,
    end_event now_ns request,
    ap (λ lines. lines ++ end_event now_ns request ∷ []) e,
    ha,
    hb,
    hm,
    (refl, refl),
    refl,
  )

  IsConsistent-some :
      (handle : Option (EventLog F)) (run_dir : Option String) (process : Option (List String))
      (output : Bool) (log : EventLog F)
      → handle ≡ some log
      → IsConsistent handle run_dir process output
      → IsConsistent (some log) run_dir process output
  IsConsistent-some handle run_dir process output log e h =
      subst (λ x. IsConsistent x run_dir process output) e h

  pub on_stop_run-IsSound :
      (now_ns : ℕ) (wait_expires : Bool) (request : StopRequest) (s : RunLogger F)
      {answer : StopResponse}
      → (on_stop_run now_ns wait_expires request s).1 ≡ ok answer
      → IsSound s
      → IsSound (on_stop_run now_ns wait_expires request s).0
  on_stop_run-IsSound now_ns wait_expires request s h sound =
      let (log, open', e) = on_stop_run-cases now_ns wait_expires request s h in
      let (_, _, _, recording') =
        IsConsistent-some s.event_log_handle s.run_dir s.rosbag_process s.rosbag_output_handle log
          open' sound.0 in
      subst IsSound (sym e)
        ((refl, refl, refl), (ended_log-IsWhole now_ns request log recording', sound.1))
