-- ===== src/Health/Streak.antt =====
-- What a streak of evaluations makes of the verdict.
use go_service_template_rest.Base.{
  ℕ, ◌+◌, ◌≡◌, refl, Bool, false, ◌||◌, ◌&&◌, List, [], ◌∷◌, Option, none, some, arith,
  if◌then◌else◌, ◌==◌, is_none, Option-cases, inl, inr,
}
use go_service_template_rest.Base.Int.{ℤ, pos, ltb_ℤ}
use go_service_template_rest.Health.{
  Probe, Check, Service, ReadinessState, next_readiness, evaluate, refresh, value_of,
}

-- Evaluations one after the other, the newest first.
unfoldable pub refresh_all : Service → List (Check × ℕ) → Service
refresh_all s [] = s
refresh_all s ((check, now) ∷ older) = (refresh (refresh_all s older) check now).0

-- How many of the newest evaluations failed without a success among them.
unfoldable pub streak : List Probe → List (Check × ℕ) → ℕ
streak probes [] = 0
streak probes ((check, now) ∷ older) =
    if is_none (evaluate check probes) then 0 else streak probes older + 1

-- Some evaluation passed.
unfoldable pub has_passed : List Probe → List (Check × ℕ) → Bool
has_passed probes [] = false
has_passed probes ((check, now) ∷ older) =
    is_none (evaluate check probes) || has_passed probes older

-- The verdict that the policy promises: ready when some evaluation passed and the failures since
-- are fewer than the threshold.
abbrev pub promised : List Probe → ℤ → List (Check × ℕ) → Bool
promised probes threshold runs =
    has_passed probes runs
    && (streak probes runs == 0 || ltb_ℤ (pos (streak probes runs)) threshold)

-- The cached state after some evaluations.
abbrev Matches : List Probe → ℤ → List (Check × ℕ) → Option ReadinessState → Type 0
Matches probes threshold [] o = o ≡ none
Matches probes threshold ((check, now) ∷ older) o =
    (st : ReadinessState) × (o ≡ some st)
    × (st.consecutive_failures ≡ streak probes ((check, now) ∷ older))
    × (st.verdict_err ≡ (
        if promised probes threshold ((check, now) ∷ older) then none else evaluate check probes))
    × (st.evaluated_at ≡ now)

next_readiness-first :
    (probes : List Probe) (threshold : ℤ) (check : Check) (now : ℕ)
    → Matches probes threshold
        ((check, now) ∷ [])
        (some (next_readiness none (evaluate check probes) threshold now))
unfolding next_readiness streak has_passed
next_readiness-first probes threshold check now = elim (Option-cases (evaluate check probes)) [
  | inl e ↦ (_, refl, rw (e, next_readiness), rw (e, next_readiness), rw (e, next_readiness))
  | inr (d, e) ↦ (_, refl, rw (e, next_readiness), rw (e, next_readiness), rw (e, next_readiness))
]

next_readiness-later :
    (probes : List Probe) (threshold : ℤ) (check prior : Check) (now before : ℕ)
    (older : List (Check × ℕ)) (st : ReadinessState)
    → st.consecutive_failures ≡ streak probes ((prior, before) ∷ older)
    → st.verdict_err ≡ (
        if promised probes threshold ((prior, before) ∷ older) then none else evaluate prior probes)
    → Matches probes threshold
        ((check, now) ∷ (prior, before) ∷ older)
        (some (next_readiness (some st) (evaluate check probes) threshold now))
unfolding next_readiness streak has_passed
next_readiness-later probes threshold check prior now before older st failures verdict =
    (_, refl, ground arith, ground arith, ground arith)

refresh_all-keeps :
    (s : Service) (runs : List (Check × ℕ))
    → ((refresh_all s runs).probes ≡ s.probes) × ((refresh_all s runs).policy ≡ s.policy)
unfolding refresh_all refresh
refresh_all-keeps s [] = (refl, refl)
refresh_all-keeps s ((check, now) ∷ older) = refresh_all-keeps s older

Matches-next :
    (probes : List Probe) (threshold : ℤ) (check : Check) (now : ℕ) (older : List (Check × ℕ))
    (o : Option ReadinessState)
    → Matches probes threshold older o
    → Matches probes threshold
        ((check, now) ∷ older)
        (some (next_readiness o (evaluate check probes) threshold now))
Matches-next probes threshold check now [] o m =
    rw m (next_readiness-first probes threshold check now)
Matches-next probes threshold check now ((prior, before) ∷ older) o (st, e, failures, verdict, at) =
    rw e (next_readiness-later probes threshold check prior now before older st failures verdict)

refresh_all-Matches :
    (s : Service) (runs : List (Check × ℕ))
    → s.state ≡ none
    → Matches s.probes s.policy.failure_threshold runs (value_of (refresh_all s runs).state)
unfolding refresh_all refresh
refresh_all-Matches s [] h = rw h
refresh_all-Matches s ((check, now) ∷ older) h =
    let (same_probes, same_policy) = refresh_all-keeps s older in
    rw (same_probes, same_policy)
      (Matches-next s.probes s.policy.failure_threshold check now older
        (value_of (refresh_all s older).state) (refresh_all-Matches s older h))

-- After any evaluations of a service that starts without a verdict, the cached state counts the
-- failures since the last success and dates from the newest evaluation; its verdict is healthy when
-- some evaluation passed and fewer than the threshold failed since, and is otherwise the failure of
-- the newest evaluation.
pub refresh_all_lem :
    (s : Service) (check : Check) (now : ℕ) (older : List (Check × ℕ))
    → s.state ≡ none
    → let runs = (check, now) ∷ older in
      (st : ReadinessState) × (value_of (refresh_all s runs).state ≡ some st)
      × (st.consecutive_failures ≡ streak s.probes runs)
      × (st.verdict_err ≡ (
          if promised s.probes s.policy.failure_threshold runs
          then none
          else evaluate check s.probes))
      × (st.evaluated_at ≡ now)
refresh_all_lem s check now older h = refresh_all-Matches s ((check, now) ∷ older) h
