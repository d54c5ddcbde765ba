-- ===== src/Logger/Sampling.antt =====
-- What `stream_log_due` lets through: messages at least a period apart, and none further than a period
-- behind one that was let through.
use mathlib.Core.Path.{subst}
use robot_core.Prelude.{
  ℕ, ◌+◌, ◌≤◌, ◌<◌, String, ◌≡◌, refl, true, false, ◌⊎◌, inl, inr, Option, none, some, List, [],
  ◌∷◌, All, All-map, arith, str_eq_iff, if◌then◌else◌, Bool-cases,
}
use robot_core.Prelude.Results.{ok, err}
use robot_core.Floats.{Floats, le, zero_float}
use robot_core.Logger.{RunLogger, lookup, put, period_ns, is_within_period, stream_log_due}

lookup-put_self {ℓ} :
    {V : Type ℓ} (key : String) (value : V) (d : List (String × V))
    → lookup key (put key value d) ≡ some value
unfolding lookup put
lookup-put_self key value [] = ground (arith, str_eq_iff key key)
lookup-put_self key value ((k, v) ∷ d) =
    ground (arith, str_eq_iff k key, lookup-put_self key value d)

-- The calls that a limiter with this period lets through, by their times.
sampled : ℕ → Option ℕ → List ℕ → List ℕ
sampled period previous [] = []
sampled period previous (t ∷ times) =
    let skipped = sampled period previous times in
    let taken = t ∷ sampled period (some t) times in
    if is_within_period previous period t then skipped else taken

-- In order, and not before an earlier time.
abbrev pub IsAscending : Option ℕ → List ℕ → Type 0
IsAscending previous [] = Unit
IsAscending none (t ∷ times) = IsAscending (some t) times
IsAscending (some p) (t ∷ times) = (p ≤ t) × IsAscending (some t) times

abbrev pub IsSpaced : ℕ → Option ℕ → List ℕ → Type 0
IsSpaced period previous [] = Unit
IsSpaced period none (t ∷ times) = IsSpaced period (some t) times
IsSpaced period (some p) (t ∷ times) = (p + period ≤ t) × IsSpaced period (some t) times

abbrev pub Occurs : ℕ → List ℕ → Type 0
Occurs a [] = ⊥
Occurs a (x ∷ xs) = (a ≡ x) ⊎ Occurs a xs

-- Some time among these, or the earlier one, is at most the period before t.
abbrev pub IsCovered : ℕ → Option ℕ → List ℕ → ℕ → Type 0
IsCovered period previous taken t =
    (a : ℕ) × ((previous ≡ some a) ⊎ Occurs a taken) × (a ≤ t) × (t < a + period)

IsAscending-later :
    (p t : ℕ) (times : List ℕ) → p ≤ t → IsAscending (some t) times → IsAscending (some p) times
IsAscending-later p t [] h a = tt
IsAscending-later p t (u ∷ times) h a = (omega arith, a.1)

sampled-IsSpaced :
    (period : ℕ) (previous : Option ℕ) (times : List ℕ)
    → IsAscending previous times
    → IsSpaced period previous (sampled period previous times)
unfolding sampled is_within_period
sampled-IsSpaced period previous [] a = tt
sampled-IsSpaced period none (t ∷ times) a = sampled-IsSpaced period (some t) times a
sampled-IsSpaced period (some p) (t ∷ times) (h, a) =
    elim (Bool-cases (is_within_period (some p) period t)) [
      | inl close ↦
          rw close (sampled-IsSpaced period (some p) times (IsAscending-later p t times h a))
      | inr far ↦ rw far (ground arith, sampled-IsSpaced period (some t) times a)
    ]

taken-IsCovered :
    (period t : ℕ) (previous : Option ℕ) (taken : List ℕ) (u : ℕ)
    → IsCovered period (some t) taken u
    → IsCovered period previous (t ∷ taken) u
taken-IsCovered period t previous taken u (a, inl e, h, k) = (a, inr (inl (cc)), h, k)
taken-IsCovered period t previous taken u (a, inr o, h, k) = (a, inr (inr o), h, k)

within-IsCovered :
    (period t : ℕ) (previous : Option ℕ) (taken : List ℕ)
    → is_within_period previous period t ≡ true
    → IsCovered period previous taken t
unfolding is_within_period
within-IsCovered period t none taken h = cc
within-IsCovered period t (some p) taken h = (p, inl refl, ground arith, ground arith)

sampled-skip :
    (period t : ℕ) (previous : Option ℕ) (times : List ℕ)
    → is_within_period previous period t ≡ true
    → sampled period previous times ≡ sampled period previous (t ∷ times)
unfolding sampled
sampled-skip period t previous times close = rw close

sampled-take :
    (period t : ℕ) (previous : Option ℕ) (times : List ℕ)
    → is_within_period previous period t ≡ false
    → (t ∷ sampled period (some t) times) ≡ sampled period previous (t ∷ times)
unfolding sampled
sampled-take period t previous times far = rw far

sampled-IsCovered :
    (period : ℕ) (previous : Option ℕ) (times : List ℕ)
    → 0 < period
    → All (IsCovered period previous (sampled period previous times)) times
sampled-IsCovered period previous [] h = tt
sampled-IsCovered period previous (t ∷ times) h =
    let P = λ (taken : List ℕ). All (IsCovered period previous taken) (t ∷ times) in
    elim (Bool-cases (is_within_period previous period t)) [
      | inl close ↦ subst P (sampled-skip period t previous times close) (
        within-IsCovered period t previous (sampled period previous times) close,
        sampled-IsCovered period previous times h,
      )
      | inr far ↦
          let taken = sampled period (some t) times in
          subst P (sampled-take period t previous times far) (
            (t, inr (inl refl), omega arith, omega arith),
            All-map (IsCovered period (some t) taken) (IsCovered period previous (t ∷ taken)) times
                (taken-IsCovered period t previous taken)
                (sampled-IsCovered period (some t) times h),
          )
    ]

module _ {F : Type 0} ⦃fl : Floats F⦄ (rates : List (String × F)) (stream : String) where
  -- The times of a stream's messages that `stream_log_due` answers true.
  unfoldable pub due_times : List ℕ → RunLogger F → List ℕ
  due_times [] s = []
  due_times (t ∷ times) s =
      let (s', due) = stream_log_due rates stream t s in
      let rest = due_times times s' in
      elim due [ err e ↦ rest | ok is_due ↦ if is_due then t ∷ rest else rest ]

  module _ (rate : F) (period : ℕ) (found : lookup stream rates ≡ some rate)
      (positive : le rate zero_float ≡ false) (at_rate : period_ns rate ≡ ok period) where
    due_times-eq-sampled :
        (times : List ℕ) (s : RunLogger F)
        → due_times times s ≡ sampled period (lookup stream s.last_stream_log_ns) times
    unfolding due_times sampled stream_log_due
    due_times-eq-sampled [] s = refl
    due_times-eq-sampled (t ∷ times) s =
        let s' = record s { last_stream_log_ns = put stream t s.last_stream_log_ns } in
        ground (
          arith,
          due_times-eq-sampled times s,
          due_times-eq-sampled times s',
          lookup-put_self stream t s.last_stream_log_ns,
        )

    period_pos : 0 < period
    unfolding period_ns
    period_pos = ground arith

    -- For a stream with a positive rate, whose messages arrive at times of the monotonic clock in
    -- order: those that are let through are at least a period apart, also from the one before them, and
    -- each message is less than a period after one that was let through.
    pub due_times_sample :
        (times : List ℕ) (s : RunLogger F)
        → IsAscending (lookup stream s.last_stream_log_ns) times
        → IsSpaced period (lookup stream s.last_stream_log_ns) (due_times times s)
          × All (IsCovered period (lookup stream s.last_stream_log_ns) (due_times times s)) times
    due_times_sample times s a = rw (due_times-eq-sampled times s) (
      sampled-IsSpaced period (lookup stream s.last_stream_log_ns) times a,
      sampled-IsCovered period (lookup stream s.last_stream_log_ns) times period_pos,
    )
