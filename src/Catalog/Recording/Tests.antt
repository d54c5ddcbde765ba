-- ===== src/Catalog/Recording/Tests.antt =====
-- A recording configuration, and the theorem at it.
use robot_core.Prelude.{◌≡◌, ◌≢◌, refl, true, some, List, [], ◌∷◌, map, All, codes}
use robot_core.Prelude.Int.{pos}
use robot_core.Prelude.Results.{ok}
use robot_core.Floats.{lit, le}
use robot_core.Floats.Model.{Num, num_floats}
use robot_core.Python.{
  Value, int_value, float_value, str_value, list_value, dict_value, nil, cons, end, entry, get,
  as_list, has_key, one_of,
}
use robot_core.Catalog.{exact_keys, has_unknown, has_texts, finite_number}
use robot_core.Catalog.Recording.{
  Recording, event_log_streams, is_absolute, in_rate_range, in_flush_range, has_all, read_rates,
  read_topics, read_topic, raw_topics, recording_parts, load_recording_config,
}
use robot_core.Catalog.Recording.Valid.{IsNodup, HasRates, load_recording_config-IsValid}

abbrev document : List (Value Num × Value Num)
document =
    (str_value "schema_version", int_value (pos 1))
    ∷ (
      str_value "event_log",
      dict_value (
          entry (str_value "flush_interval_s") (float_value (lit 5 1)) (
            entry (str_value "stream_rates_hz")
              (dict_value (
                entry (str_value "thruster_cmd") (int_value (pos 20)) (
                  entry (str_value "trajectory_target") (int_value (pos 10)) (
                    entry (str_value "tracking_status") (int_value (pos 10)) (
                      entry (str_value "control_authority_status") (int_value (pos 5))
                        (entry (str_value "pid_status") (int_value (pos 1000)) end))))))
              end)),
    )
    ∷ (
      str_value "topics",
      list_value (cons (str_value "/robot/body_state") (cons (str_value "/safety/events") nil)),
    )
    ∷ []

abbrev config : Recording Num
config = record {
  topics = "/robot/body_state" ∷ "/safety/events" ∷ [];
  stream_rates_hz =
      ("control_authority_status", lit 5 0)
      ∷ ("pid_status", lit 1000 0)
      ∷ ("thruster_cmd", lit 20 0)
      ∷ ("tracking_status", lit 10 0)
      ∷ ("trajectory_target", lit 10 0)
      ∷ [];
  flush_interval_s = lit 5 1;
}

load-document : load_recording_config document ≡ ok config
unfolding load_recording_config recording_parts exact_keys has_unknown has_texts one_of has_key get
    finite_number in_flush_range has_all read_rates in_rate_range raw_topics read_topics read_topic
    is_absolute
load-document = refl

load_recording_config-IsValid_example :
    (config.topics ≢ [])
    × IsNodup config.topics
    × All (λ s. is_absolute (codes s) ≡ true) config.topics
    × (as_list (get "topics" document) ≡ some (map str_value config.topics))
    × HasRates event_log_streams config.stream_rates_hz
    × (le (lit 5 2) config.flush_interval_s ≡ true)
    × (le config.flush_interval_s (lit 10 0) ≡ true)
load_recording_config-IsValid_example = load_recording_config-IsValid document load-document
