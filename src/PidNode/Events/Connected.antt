-- ===== src/PidNode/Events/Connected.antt =====
-- The inputs of the node follow the selection of the PID source.
use mathlib.Core.Path.{subst}
use robot_core.Prelude.{
  ◌≡◌, ◌⊎◌, refl, sym, ◌∙◌, Bool-cases, inl, inr, Bool, true, Option, none, List, [], ◌∷◌,
  if◌then◌else◌, arith,
}
use robot_core.Prelude.Results.{ok, Result-cases}
use robot_core.Floats.{Floats}
use robot_core.Python.Texts.{eq_lowered, strip}
use robot_core.PidNode.{
  disconnect_pid_inputs, PidConfig, PidNode, AuthorityStatus, IsKept, on_body, on_target,
  on_authority_status, select, limit_pwm, reset_controllers,
}
use robot_core.PidNode.Imu.{on_imu}
use robot_core.PidNode.Imu.Kept.{on_imu-IsKept}
use robot_core.PidNode.Publish.{Published}
use robot_core.PidNode.Tick.Kept.{tick-IsKept, tick-unselected}
use robot_core.PidNode.Events.{
  Callback, authority, body, imu, target, timer, initial, callback, run,
}

-- The node holds no input, nothing made of one, and neither the moment of one nor of a tick.
pub IsCleared : {F : Type 0} → PidNode F → Type 0
IsCleared s =
    (s.body ≡ none)
    × (s.body_ns ≡ none)
    × (s.imu_angular_velocity ≡ none)
    × (s.imu_orientation ≡ none)
    × (s.imu_ns ≡ none)
    × (s.imu_angular_velocity_filtered ≡ none)
    × (s.imu_orientation_filtered ≡ none)
    × (s.imu_filter_ns ≡ none)
    × (s.imu_rate_samples ≡ [])
    × (s.target ≡ none)
    × (s.target_ns ≡ none)
    × (s.last_tick_ns ≡ none)

-- The inputs are subscribed to exactly while the PID source is selected; while it is not, none is held.
pub IsConnected : {F : Type 0} → PidNode F → Type 0
IsConnected s = (s.is_connected ≡ s.pid_selected) × ((s.pid_selected ≡ true) ⊎ IsCleared s)

module _ {F : Type 0} ⦃fl : Floats F⦄ where
  kept-IsConnected :
      (s s' : PidNode F) → s.pid_selected ≡ true → IsConnected s → IsKept s s' → IsConnected s'
  unfolding IsConnected IsKept
  kept-IsConnected s s' selected (h, _) (e, e') = (e' ∙ h ∙ sym e, inl (e ∙ selected))

  is_selected : (s : PidNode F) → IsConnected s → s.is_connected ≡ true → s.pid_selected ≡ true
  unfolding IsConnected
  is_selected s (h, _) connected = sym h ∙ connected

  initial-IsConnected : (limit : F) → IsConnected (initial limit)
  unfolding initial IsConnected IsCleared
  initial-IsConnected limit =
      (refl, inr (refl, refl, refl, refl, refl, refl, refl, refl, refl, refl, refl, refl))

  reset-IsConnected : (s : PidNode F) → IsConnected s → IsConnected (reset_controllers s)
  unfolding reset_controllers IsConnected IsCleared
  reset-IsConnected s h = h

  select-IsConnected :
      (selected : Bool) (s : PidNode F) → IsConnected s → IsConnected (select selected s)
  unfolding select disconnect_pid_inputs reset_controllers IsConnected IsCleared
  select-IsConnected selected s (h, k) = ground arith

  limit_pwm-IsConnected :
      (limit : F) (s : PidNode F) → IsConnected s → IsConnected (limit_pwm limit s)
  unfolding limit_pwm reset_controllers IsConnected IsCleared
  limit_pwm-IsConnected limit s (h, k) = ground arith

  on_authority_status-IsConnected :
      (message : AuthorityStatus F) (s : PidNode F)
      → IsConnected s
      → IsConnected (on_authority_status message s)
  unfolding on_authority_status
  on_authority_status-IsConnected message s h =
      let selected = eq_lowered (strip message.selected_source) "pid" in
      ground (
        arith,
        select-IsConnected selected s h,
        limit_pwm-IsConnected message.action_limit (select selected s),
      )

  heard-IsConnected :
      (s s' answer : PidNode F)
      → IsConnected s
      → IsKept s answer
      → (if s.is_connected then answer else s) ≡ s'
      → IsConnected s'
  heard-IsConnected s s' answer h k e = elim (Bool-cases s.is_connected) [
    | inl connected ↦
        let same : answer ≡ s' = ground arith in
        subst IsConnected same (kept-IsConnected s answer (is_selected s h connected) h k)
    | inr silent ↦ let same : s ≡ s' = ground arith in subst IsConnected same h
  ]

  callback-IsConnected :
      (config : PidConfig F) (c : Callback F) (s s' : PidNode F) (p : Option (Published F))
      → IsConnected s
      → callback config c s ≡ ok (s', p)
      → IsConnected s'
  unfolding callback on_body on_target IsKept
  callback-IsConnected config (authority message) s s' p h e =
      let same : on_authority_status message s ≡ s' = ground arith in
      subst IsConnected same (on_authority_status-IsConnected message s h)
  callback-IsConnected config (body now_ns message) s s' p h e =
      heard-IsConnected s s' (on_body message now_ns s) h (refl, refl) (ground arith)
  callback-IsConnected config (imu sample_ns now_ns message) s s' p h e =
      elim (Bool-cases s.is_connected) [
        | inl connected ↦ elim (Result-cases (on_imu config message sample_ns now_ns s)) [
          | inl bad ↦ ground arith
          | inr (sensed, e2) ↦
              let same : sensed ≡ s' = ground arith in
              subst IsConnected same (
                kept-IsConnected s sensed (is_selected s h connected) h
                  (on_imu-IsKept config message sample_ns now_ns s sensed e2))
        ]
        | inr silent ↦ let same : s ≡ s' = ground arith in subst IsConnected same h
      ]
  callback-IsConnected config (target now_ns message) s s' p h e =
      heard-IsConnected s s' (on_target message now_ns s) h (refl, refl) (ground arith)
  callback-IsConnected config (timer now_ns) s s' p h e = elim (Bool-cases s.pid_selected) [
    | inl selected ↦ kept-IsConnected s s' selected h (tick-IsKept config now_ns s s' p e)
    | inr idle ↦
        let same : s ≡ s' = ground (arith, tick-unselected config now_ns s idle) in
        subst IsConnected same h
  ]

  run-IsConnected :
      (config : PidConfig F) (cs : List (Callback F)) (s s' : PidNode F) (ps : List (Published F))
      → IsConnected s
      → run config cs s ≡ ok (s', ps)
      → IsConnected s'
  unfolding run
  run-IsConnected config [] s s' ps h e =
      let same : s ≡ s' = ground arith in subst IsConnected same h
  run-IsConnected config (c ∷ cs) s s' ps h e = elim (Result-cases (callback config c s)) [
    | inl bad ↦ ground arith
    | inr ((next, p), e1) ↦ elim (Result-cases (run config cs next)) [
      | inl bad ↦ ground arith
      | inr ((last, rest), e2) ↦
          let same : last ≡ s' = ground arith in
          subst IsConnected same (
            run-IsConnected config cs next last rest (callback-IsConnected config c s next p h e1)
              e2)
    ]
  ]

  -- After any callbacks from construction on the inputs are subscribed to exactly while the PID source
  -- is selected, and while it is not the node holds no body state, target, attitude, rate or rate
  -- sample, raw or filtered, none of their timestamps and no moment of a last tick. So each selection
  -- starts without the inputs of an earlier one.
  pub run-initial-IsConnected :
      (config : PidConfig F) (limit : F) (cs : List (Callback F)) (s : PidNode F)
      (ps : List (Published F))
      → run config cs (initial limit) ≡ ok (s, ps)
      → IsConnected s
  run-initial-IsConnected config limit cs s ps =
      run-IsConnected config cs (initial limit) s ps (initial-IsConnected limit)
