-- ===== src/Catalog/Recording/Valid.antt =====
-- What a recording configuration that loads satisfies.
use robot_core.Prelude.{
  String, ◌≡◌, ◌≢◌, refl, true, false, ◌||◌, some, List, [], ◌∷◌, ◌++◌, map, All, All-append, codes,
  str_eq, str_eq_iff, arith,
}
use mathlib.Core.List.{append-nil, append_assoc, map-append}
use mathlib.Core.Path.{◌∙◌, ap, sym}
use robot_core.Prelude.Results.{ok, >>=-eq-ok}
use robot_core.Floats.{Floats, le, lit}
use robot_core.Python.{Value, str_value, one_of, get, as_list}
use robot_core.Catalog.Recording.{
  Recording, event_log_streams, is_absolute, in_rate_range, read_rates, read_topic, read_topics,
  raw_topics, recording_parts, load_recording_config,
}

-- No text occurs twice.
abbrev pub IsNodup : List String → Type 0
IsNodup [] = Unit
IsNodup (x ∷ xs) = (one_of x xs ≡ false) × IsNodup xs

one_of-append :
    (x y : String) (xs : List String) → one_of x (xs ++ y ∷ []) ≡ (one_of x xs || str_eq x y)
unfolding one_of
one_of-append x y [] = ground arith
one_of-append x y (z ∷ xs) = ground (arith, one_of-append x y xs)

append-IsNodup :
    (y : String) (xs : List String) → IsNodup xs → one_of y xs ≡ false → IsNodup (xs ++ y ∷ [])
unfolding one_of
append-IsNodup y [] h k = (refl, tt)
append-IsNodup y (x ∷ xs) h k =
    ground (arith, append-IsNodup y xs h.1, one_of-append x y xs, str_eq_iff x y, str_eq_iff y x)

-- Every stream has a rate within (0, 1000].
abbrev pub HasRates : {F : Type 0} ⦃fl : Floats F⦄ → List String → List (String × F) → Type 0
HasRates [] [] = Unit
HasRates (s ∷ ss) ((t, rate) ∷ rates) = (t ≡ s) × (in_rate_range rate ≡ true) × HasRates ss rates
HasRates _ _ = ⊥

module _ {F : Type 0} ⦃fl : Floats F⦄ where
  read_rates-HasRates :
      (streams : List String) (raw : List (Value F × Value F)) (rates : List (String × F))
      → read_rates streams raw ≡ ok rates
      → HasRates streams rates
  unfolding read_rates
  read_rates-HasRates [] raw [] h = tt
  read_rates-HasRates [] raw (r ∷ rs) h = ground arith
  read_rates-HasRates (s ∷ ss) raw [] h = ground arith
  read_rates-HasRates (s ∷ ss) raw ((t, rate) ∷ rates) h =
      (ground arith, ground arith, read_rates-HasRates ss raw rates (ground arith))

  read_topic_parts :
      (v : Value F) (topics : List String) {topic : String}
      → read_topic v topics ≡ ok topic
      → (v ≡ str_value topic) × (is_absolute (codes topic) ≡ true) × (one_of topic topics ≡ false)
  unfolding read_topic
  read_topic_parts v topics h = ground arith

  -- What `read_topics` adds to the topics read so far.
  read_topics_parts :
      (raw : List (Value F)) (before : List String) {after : List String}
      → IsNodup before
      → All (λ s. is_absolute (codes s) ≡ true) before
      → read_topics raw before ≡ ok after
      → IsNodup after
        × All (λ s. is_absolute (codes s) ≡ true) after
        × (map str_value after ≡ map str_value before ++ raw)
  unfolding read_topics
  read_topics_parts [] before {after} nodup absolute h =
      let same : before ≡ after = ground arith in rw (← same) (nodup, absolute, simp append-nil)
  read_topics_parts (v ∷ rest) before {after} nodup absolute h =
      let (topic, accepted, more) = >>=-eq-ok (read_topic v before) _ h in
      let (is_topic, slash, fresh) = read_topic_parts v before accepted in
      let (nodup', absolute', listed) =
        read_topics_parts rest (before ++ topic ∷ []) (append-IsNodup topic before nodup fresh)
          (All-append (λ s. is_absolute (codes s) ≡ true) before (topic ∷ []) absolute (slash, tt))
          more in
      (nodup', absolute', listed ∙ rw is_topic (simp (map-append, append_assoc)))

  recording_parts-eq-ok :
      (document : List (Value F × Value F)) {flush : F} {rates : List (Value F × Value F)}
      {topics : Value F}
      → recording_parts document ≡ ok (flush, rates, topics)
      → (topics ≡ get "topics" document)
        × (le (lit 5 2) flush ≡ true)
        × (le flush (lit 10 0) ≡ true)
  unfolding recording_parts
  recording_parts-eq-ok document h = ground arith

  raw_topics-eq-ok :
      (v : Value F) {raw : List (Value F)}
      → raw_topics v ≡ ok raw
      → (as_list v ≡ some raw) × (raw ≢ [])
  unfolding raw_topics
  raw_topics-eq-ok v h = ground arith

  built_parts :
      (topics : List String) (rates : List (String × F)) (flush : F) (config : Recording F)
      → ok (record { topics = topics; stream_rates_hz = rates; flush_interval_s = flush })
        ≡ ok config
      → (config.flush_interval_s ≡ flush)
        × (config.stream_rates_hz ≡ rates)
        × (config.topics ≡ topics)
  built_parts topics rates flush config h = ground arith

  load_recording_config-eq-ok :
      (document : List (Value F × Value F)) {config : Recording F}
      → load_recording_config document ≡ ok config
      → (parts : F × List (Value F × Value F) × Value F) × (recording_parts document ≡ ok parts)
        × (config.flush_interval_s ≡ parts.0)
        × (read_rates event_log_streams parts.1 ≡ ok config.stream_rates_hz)
        × (raw : List (Value F)) × (raw_topics parts.2 ≡ ok raw)
        × (read_topics raw [] ≡ ok config.topics)
  unfolding load_recording_config
  load_recording_config-eq-ok document {config} h =
      let (parts, checked, rest) = >>=-eq-ok (recording_parts document) _ h in
      let (rates, read, rest') = >>=-eq-ok (read_rates event_log_streams parts.1) _ rest in
      let (raw, some_raw, rest'') = >>=-eq-ok (raw_topics parts.2) _ rest' in
      let (topics, listed, built) = >>=-eq-ok (read_topics raw []) _ rest'' in
      let (flush, same_rates, same_topics) = built_parts topics rates parts.0 config built in
      (
        parts,
        checked,
        flush,
        read ∙ ap ok (sym same_rates),
        raw,
        some_raw,
        listed ∙ ap ok (sym same_topics),
      )

  -- A recording configuration that loads lists at least one topic, each once, in the document's
  -- order, and every topic is absolute; each of the five event streams has a rate within (0, 1000]
  -- Hz, and the flush interval is within [0.05, 10] s.
  pub load_recording_config-IsValid :
      (document : List (Value F × Value F)) {config : Recording F}
      → load_recording_config document ≡ ok config
      → (config.topics ≢ [])
        × IsNodup config.topics
        × All (λ s. is_absolute (codes s) ≡ true) config.topics
        × (as_list (get "topics" document) ≡ some (map str_value config.topics))
        × HasRates event_log_streams config.stream_rates_hz
        × (le (lit 5 2) config.flush_interval_s ≡ true)
        × (le config.flush_interval_s (lit 10 0) ≡ true)
  load_recording_config-IsValid document {config} h =
      let (parts, checked, flush, rates, raw, some_raw, listed) =
        load_recording_config-eq-ok document h in
      let (source, low, high) = recording_parts-eq-ok document checked in
      let (is_list, non_empty) = raw_topics-eq-ok parts.2 some_raw in
      let (nodup, absolute, same) = read_topics_parts raw [] tt tt listed in
      (
        λ e. non_empty (sym same ∙ ap (map str_value) e),
        nodup,
        absolute,
        rw (← source) (is_list ∙ ap some (sym same)),
        read_rates-HasRates event_log_streams parts.1 config.stream_rates_hz rates,
        rw flush low,
        rw flush high,
      )
