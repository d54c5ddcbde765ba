-- ===== src/Catalog/Recording.antt =====
-- `load_recording_config` of task_catalog.py: which topics a run records, and how often the event
-- log samples its streams. The digest of the file is the caller's.
pub mod Valid
mod Tests
use robot_core.Prelude.{
  ℕ, String, ◌≡◌, ◌≢◌, refl, Bool, true, false, not, ◌&&◌, ◌||◌, Option, none, some, List, [], ◌∷◌,
  ◌++◌, map, All, All-append, codes, concat, str_eq, str_eq_iff, ◌==◌, arith, if◌then◌else◌, ap,
}
use robot_core.Prelude.Results.{
  Result, ok, err, value_error, ◌>>=◌, ◌>>◌, raise_if, or_raise, >>=-eq-ok,
}
use robot_core.Floats.{Floats, lt, le, of_int, lit, zero_float}
use robot_core.Python.{Value, str_value, get, has_key, as_dict, as_list, one_of}
use robot_core.Catalog.{exact_keys, finite_number, equals_one}

-- `_EVENT_LOG_STREAMS`, sorted.
abbrev pub event_log_streams : List String
event_log_streams =
    "control_authority_status" ∷ "pid_status" ∷ "thruster_cmd" ∷ "tracking_status"
    ∷ "trajectory_target" ∷ []

pub record Recording (F : Type 0) : Type 0 where
  pub topics : List String
  pub stream_rates_hz : List (String × F)
  pub flush_interval_s : F

-- `value.startswith("/") and value != "/"`
pub is_absolute : List ℕ → Bool
is_absolute [] = false
is_absolute (c ∷ []) = false
is_absolute (c ∷ d ∷ cs) = c == b'/'

module _ {F : Type 0} ⦃fl : Floats F⦄ where
  pub in_rate_range : F → Bool
  in_rate_range rate = lt zero_float rate && le rate (lit 1000 0)

  pub in_flush_range : F → Bool
  in_flush_range x = le (lit 5 2) x && le x (lit 10 0)

  has_all : List String → List (Value F × Value F) → Bool
  has_all [] d = true
  has_all (s ∷ ss) d = has_key s d && has_all ss d

  read_rates : List String → List (Value F × Value F) → Result (List (String × F))
  unfolding in_rate_range
  read_rates [] raw = ok []
  read_rates (stream ∷ streams) raw = do
    rate ←
        finite_number (get stream raw)
          (concat ("recording event_log.stream_rates_hz." ∷ stream ∷ []))
    raise_if (not (in_rate_range rate)) (
        concat ("recording event_log.stream_rates_hz." ∷ stream ∷ " must be within (0, 1000]" ∷ []))
    rates ← read_rates streams raw
    ok ((stream, rate) ∷ rates)

  read_topic : Value F → List String → Result String
  unfolding is_absolute
  read_topic (str_value s) topics =
      if not (is_absolute (codes s))
      then err (value_error "every recording topic must be an absolute ROS topic name")
      else if one_of s topics
      then err (value_error (concat ("duplicate recording topic: " ∷ s ∷ [])))
      else ok s
  read_topic _ topics = err (value_error "every recording topic must be an absolute ROS topic name")

  pub read_topics : List (Value F) → List String → Result (List String)
  unfolding read_topic
  read_topics [] topics = ok topics
  read_topics (v ∷ rest) topics = do
    topic ← read_topic v topics
    read_topics rest (topics ++ topic ∷ [])

  raw_topics : Value F → Result (List (Value F))
  raw_topics v = elim (as_list v) [
    | some (x ∷ xs) ↦ ok (x ∷ xs)
    | _ ↦ err (value_error "recording topics must be a non-empty list")
  ]

  -- The checks on the document's own fields: the flush interval, the rates and the topics as read.
  pub recording_parts : List (Value F × Value F) → Result (F × List (Value F × Value F) × Value F)
  unfolding in_flush_range has_all
  recording_parts document = do
    exact_keys document ("schema_version" ∷ "event_log" ∷ "topics" ∷ []) "recording configuration"
    raise_if (not (equals_one (get "schema_version" document))) "recording schema_version must be 1"
    event_log ←
        or_raise (as_dict (get "event_log" document))
          (value_error "recording event_log must be a mapping")
    exact_keys event_log ("flush_interval_s" ∷ "stream_rates_hz" ∷ []) "recording event_log"
    flush ← finite_number (get "flush_interval_s" event_log) "recording event_log.flush_interval_s"
    raise_if (not (in_flush_range flush))
        "recording event_log.flush_interval_s must be within [0.05, 10]"
    raw_rates ←
        or_raise (as_dict (get "stream_rates_hz" event_log))
          (value_error "recording event_log.stream_rates_hz must be a mapping")
    exact_keys raw_rates event_log_streams "recording event_log.stream_rates_hz"
    raise_if (not (has_all event_log_streams raw_rates))
        "recording event_log.stream_rates_hz is missing names"
    ok (flush, raw_rates, get "topics" document)

  pub load_recording_config : List (Value F × Value F) → Result (Recording F)
  load_recording_config document = do
    parts ← recording_parts document
    rates ← read_rates event_log_streams parts.1
    raw ← raw_topics parts.2
    topics ← read_topics raw []
    ok (record { topics = topics; stream_rates_hz = rates; flush_interval_s = parts.0 })
