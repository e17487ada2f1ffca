-- ===== src/Health/Watch.antt =====
-- `Watch`: the refresh loop, its transition callback and the timer that reports a verdict which
-- nothing refreshes any more. An iteration of the loop has two steps, up to its look at the drain and
-- from its report on, and so has the timer's function; the drain may start between them.
use go_service_template_rest.Base.{
  ℕ, ◌+◌, Bool, true, false, ◌||◌, ◌&&◌, not, List, [], ◌∷◌, Option, none, some, if◌then◌else◌,
  ◌==◌, leb, is_none, is_some, differ,
}
use go_service_template_rest.Base.Int.{ℤ, pos, pos_part, neg_part, leb_ℤ, max_ℤ, add64, sub_ℕ}
use go_service_template_rest.Base.GoError.{Err, Result, ok, err, sentinel, is}
use go_service_template_rest.Health.{
  Check, Service, Snapshot, refresh, refreshed, staleness, stale_budget, start_drain, err_draining,
  stale_id,
}

-- `due` is the time from which the timer's function may run.
pub record Timer : Type 0 where
  pub snapshot : Snapshot
  pub due : ℕ

-- The variables of one call of `Watch`: `notify` says whether a callback was given, `sent` lists
-- what the callback received, the newest first. `loaded` is what the loop has read and not published
-- yet, `expiring` what the timer's function has found and is about to report, with the mutex of the
-- transitions held.
pub record Watcher : Type 0 where
  pub service : Service
  pub running : Bool
  pub notify : Bool
  pub previous_err : Option Err
  pub timer : Option Timer
  pub sent : List (Option Err)
  pub loaded : Option (Option Err × Snapshot)
  pub expiring : Option Err

-- `publish`.
unfoldable pub publish : Watcher → Option Err → Watcher
publish w current =
    if w.notify && differ (is_none w.previous_err) (is_none current)
    then record w { previous_err = current; sent = current ∷ w.sent }
    else record w { previous_err = current }

-- What `publishStale` takes of the answer of `staleness`.
unfoldable pub found_stale : Option Err → Option Err
found_stale none = none
found_stale (some e) = if is e stale_id then some e else none

abbrev same_pointer : Option Snapshot → Snapshot → Bool
same_pointer none armed = false
same_pointer (some current) armed = current.version == armed.version

-- `publishStale` up to its report.
unfoldable pub publish_stale : Watcher → Snapshot → ℕ → Watcher
unfolding found_stale
publish_stale w armed now =
    if w.service.draining || not (same_pointer w.service.state armed) || is_some w.previous_err
    then w
    else record w { expiring = found_stale (staleness w.service armed.value now) }

-- The report of `publishStale`.
unfoldable pub report_stale : Watcher → Option Err → Watcher
report_stale w none = w
report_stale w (some e) = record w {
  previous_err = some e;
  sent = some e ∷ w.sent;
  expiring = none;
}

-- The time from `now` until the verdict is older than the guard allows, at least a nanosecond.
unfoldable pub stale_delay : Service → Snapshot → ℕ → ℤ
stale_delay s snap now =
    let until =
      sub_ℕ (snap.value.evaluated_at + pos_part s.stale_after) (now + neg_part s.stale_after) in
    max_ℤ (add64 until (pos 1)) (pos 1)

-- `armStaleness`.
unfoldable pub arm_staleness : Service → Bool → Snapshot → ℕ → Option Timer
unfolding stale_delay
arm_staleness s notify snap now =
    if not notify || is_some snap.value.verdict_err || s.draining
    then none
    else some (record { snapshot = snap; due = now + pos_part (stale_delay s snap now) })

-- The service and its verdict when the loop begins, evaluated at once where there is none.
unfoldable pub seed : Service → Check → ℕ → Option Snapshot → Service × Snapshot
seed s check now none = ((refresh s check now).0, refreshed s check now)
seed s check now (some snap) = (s, snap)

unfoldable pub begin : Service × Snapshot → Bool → ℕ → Watcher
unfolding arm_staleness
begin (s, snap) notify now = record {
  service = s;
  running = true;
  notify = notify;
  previous_err = snap.value.verdict_err;
  timer = arm_staleness s notify snap now;
  sent = [];
  loaded = none;
  expiring = none;
}

-- `Watch` up to its loop; `none` where the context is done already and it returns nil.
unfoldable pub watch : Service → ℤ → Bool → Bool → Check → ℕ → Result (Option Watcher)
unfolding seed begin refresh
watch s interval canceled notify check now =
    if leb_ℤ interval (pos 0)
    then err (sentinel 106)
    else if canceled
    then ok none
    else let armed = record s { stale_after = stale_budget interval s.policy.probe_budget } in
      ok (some (begin (seed armed check now armed.state) notify now))

-- What happens to a watcher: the ticker fires, a refresh ends and the loop looks at the drain; it
-- reports and arms the timer; the timer's function runs up to its report; it reports; the drain
-- starts; or the loop finds its context done.
pub data Event : Type 0 where
  tick : Check → ℕ → Event
  report : ℕ → Event
  fire : ℕ → Event
  report_expiry : Event
  drain : Event
  done : Event

unfoldable pub tick_loop : Watcher → Check → ℕ → Watcher
unfolding refresh
tick_loop w check now =
    let snap = refreshed w.service check now in
    let s = (refresh w.service check now).0 in
    let current = if s.draining then some err_draining else snap.value.verdict_err in
    record w { service = s; timer = none; loaded = some (current, snap) }

-- The rest of the iteration.
unfoldable pub report_loop : Watcher → Option (Option Err × Snapshot) → ℕ → Watcher
unfolding publish arm_staleness
report_loop w none now = w
report_loop w (some (current, snap)) now =
    let w' = publish (record w { loaded = none }) current in
    record w' { timer = arm_staleness w.service w.notify snap now }

unfoldable pub fire_timer : Watcher → Option Timer → ℕ → Watcher
unfolding publish_stale
fire_timer w none now = w
fire_timer w (some t) now =
    if leb t.due now then publish_stale (record w { timer = none }) t.snapshot now else w

unfoldable pub step : Watcher → Event → Watcher
unfolding tick_loop report_loop fire_timer report_stale start_drain
step w (tick check now) = if w.running && is_none w.loaded then tick_loop w check now else w
step w (report now) = if is_some w.expiring then w else report_loop w w.loaded now
step w (fire now) = if is_some w.expiring then w else fire_timer w w.timer now
step w report_expiry = report_stale w w.expiring
step w drain = record w { service = start_drain w.service }
step w done =
    if w.running && is_none w.loaded
    then record w { running = false; timer = if w.service.draining then none else w.timer }
    else w

unfoldable pub run : Watcher → List Event → Watcher
unfolding step
run w [] = w
run w (e ∷ es) = run (step w e) es
