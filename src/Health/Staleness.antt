-- ===== src/Health/Staleness.antt =====
-- When the cached verdict is served, and for how long.
use go_service_template_rest.Base.{
  ℕ, ◌+◌, ◌-◌, ◌*◌, ◌^◌, ◌≤◌, ◌<◌, max, ◌≡◌, refl, ◌⊎◌, inl, inr, ◌↔◌, true, false, Option, none,
  some, arith,
}
use go_service_template_rest.Base.Int.{
  pos, leb_ℤ, time_sub, time_sub-pos, add64-pos, scale64-pos, max_ℤ-pos,
}
use go_service_template_rest.Base.GoError.{errorf}
use go_service_template_rest.Health.{
  Service, Snapshot, ReadinessState, cached, cached_state, staleness, stale_budget, err_stale,
  err_draining, start_drain,
}

-- The guard is not armed, or the verdict has no time, or it is not older than the guard allows.
abbrev pub IsFresh : Service → ReadinessState → ℕ → Type 0
IsFresh s st now =
    (leb_ℤ s.stale_after (pos 0) ≡ true)
    ⊎ ((st.evaluated_at ≡ 0) ⊎ (leb_ℤ (time_sub now st.evaluated_at) s.stale_after ≡ true))

-- A verdict is there, it is healthy, and it is fresh.
abbrev pub IsReady : Service → ℕ → Type 0
IsReady s now =
    (s.draining ≡ false)
    × ((snap : Snapshot) × (s.state ≡ some snap)
        × (snap.value.verdict_err ≡ none)
        × IsFresh s snap.value now)

staleness→IsFresh :
    (s : Service) (st : ReadinessState) (now : ℕ) → staleness s st now ≡ none → IsFresh s st now
unfolding staleness
staleness→IsFresh s st now h = ground arith

IsFresh→staleness :
    (s : Service) (st : ReadinessState) (now : ℕ) → IsFresh s st now → staleness s st now ≡ none
unfolding staleness
IsFresh→staleness s st now (inl h) = ground arith
IsFresh→staleness s st now (inr (inl h)) = ground arith
IsFresh→staleness s st now (inr (inr h)) = ground arith

cached→IsReady :
    (s : Service) (o : Option Snapshot) (now : ℕ)
    → s.state ≡ o
    → cached s now ≡ none
    → IsReady s now
unfolding cached cached_state
cached→IsReady s none now e h = ground arith
cached→IsReady s (some snap) now e h =
    (ground arith, (snap, e, ground arith, staleness→IsFresh s snap.value now (ground arith)))

-- `Cached` reports ready exactly when the service is not draining and holds a healthy verdict that
-- is fresh. It fails closed on everything else, and during a drain the failure is `ErrDraining`.
pub cached_lem :
    (s : Service) (now : ℕ)
    → ((cached s now ≡ none) ↔ IsReady s now) × (cached (start_drain s) now ≡ some err_draining)
unfolding cached start_drain
cached_lem s now = (
  (
    cached→IsReady s s.state now refl,
    λ r.
        let (serving, (snap, e, healthy, fresh)) = r in
        ground (arith, serving, e, healthy, IsFresh→staleness s snap.value now fresh),
  ),
  refl,
)

-- The budget of a refresher, where it fits an int64.
pub stale_budget-pos :
    (interval budget : ℕ)
    → budget + 3 * max interval budget < 2 ^ 63
    → stale_budget (pos interval) (pos budget) ≡ pos (budget + 3 * max interval budget)
unfolding stale_budget
stale_budget-pos interval budget h = rw (
  max_ℤ-pos interval budget,
  scale64-pos 3 (max interval budget) (omega arith),
  add64-pos budget (3 * max interval budget) h,
)

pub staleness_within :
    (s : Service) (st : ReadinessState) (now allowed : ℕ)
    → s.stale_after ≡ pos allowed
    → allowed < 2 ^ 63
    → st.evaluated_at ≤ now
    → now ≤ st.evaluated_at + allowed
    → staleness s st now ≡ none
unfolding staleness
staleness_within s st now allowed e fits before within =
    ground (arith, time_sub-pos now st.evaluated_at before)

pub staleness_beyond :
    (s : Service) (st : ReadinessState) (now allowed : ℕ)
    → s.stale_after ≡ pos allowed
    → 0 < allowed
    → now - st.evaluated_at < 2 ^ 63
    → 0 < st.evaluated_at
    → st.evaluated_at + allowed < now
    → staleness s st now ≡ some (errorf err_stale)
unfolding staleness
staleness_beyond s st now allowed e armed fits set beyond =
    ground (arith, time_sub-pos now st.evaluated_at)
