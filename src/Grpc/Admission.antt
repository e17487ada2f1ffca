-- ===== src/Grpc/Admission.antt =====
-- internal/infra/grpc/interceptor_admission.go: the two budgets of concurrent calls, and the drain
-- that waits for the calls that began before it. A call is checked for draining and takes its slot in
-- two steps, between which the server may do anything else.
pub mod Limits
pub mod Drained
pub mod Closed
pub mod Quiet
mod Tests
use go_service_template_rest.Base.{
  ℕ, zero, suc, ◌+◌, ◌≡◌, Bool, true, false, ◌&&◌, List, [], ◌∷◌, ◌++◌, Option, none, some, Bytes,
  codes, if◌then◌else◌,
}
use go_service_template_rest.Base.Int.{ℤ, pos, negsuc}
use go_service_template_rest.Base.GoError.{Err}
use go_service_template_rest.Base.Semaphore.{Semaphore}
use go_service_template_rest.Failure.{at_capacity_detail}
use go_service_template_rest.Grpc.{
  is_health_check, is_health_method, unavailable, resource_exhausted, owned_status,
}

-- `++` and `--` on an int that counts goroutines.
unfoldable pub inc : ℤ → ℤ
inc (pos n) = pos (suc n)
inc (negsuc zero) = pos 0
inc (negsuc (suc n)) = negsuc n

unfoldable pub dec : ℤ → ℤ
dec (pos zero) = negsuc 0
dec (pos (suc n)) = pos n
dec (negsuc n) = negsuc (suc n)

abbrev pub is_zero : ℤ → Bool
is_zero (pos zero) = true
is_zero (pos (suc n)) = false
is_zero (negsuc n) = false

-- `rpcDrain`. `closed` counts the calls of close(d.done), of which a second would panic.
pub record Drain : Type 0 where
  pub active : ℤ
  pub draining : Bool
  pub closed : ℕ

abbrev pub new_rpc_drain : Drain
new_rpc_drain = record { active = pos 0; draining = false; closed = 0 }

-- `track`: whether there is a release.
unfoldable pub track : Drain → Drain × Bool
unfolding inc
track d = if d.draining then (d, false) else (record d { active = inc d.active }, true)

-- Both ends of the drain close the channel when it is empty.
abbrev pub close_if : Bool → Drain → Drain
close_if true d = record d { closed = suc d.closed }
close_if false d = d

-- What `track` returns.
unfoldable pub release : Drain → Drain
unfolding dec
release d = close_if (d.draining && is_zero (dec d.active)) (record d { active = dec d.active })

unfoldable pub start : Drain → Drain
start d = if d.draining then d else close_if (is_zero d.active) (record d { draining = true })

-- `TagRPC`, and `HandleRPC` on the end of a call.
unfoldable pub tag_rpc : Drain → Bytes → Drain × Bool
unfolding track is_health_method
tag_rpc d full_method = if is_health_method full_method then (d, false) else track d

unfoldable pub handle_end : Drain → Bool → Drain
unfolding release
handle_end d tracked = if tracked then release d else d

-- `serverLoad`: what the instruments show. One that failed to build is `none`.
pub record ServerLoad : Type 0 where
  pub active : Option ℤ
  pub shed : Option ℕ
  pub health_shed : Option ℕ

abbrev pub record_shed : Option ℕ → Option ℕ
record_shed none = none
record_shed (some n) = some (suc n)

abbrev pub record_active : (ℤ → ℤ) → Option ℤ → Option ℤ
record_active change none = none
record_active change (some n) = some (change n)

-- `admissionLimiter`; `drains` says that it has a drain.
pub record Limiter (Sem : Type 0) : Type 0 where
  pub sem : Sem
  pub shed : Option ℕ
  pub active : Option ℤ
  pub drains : Bool

-- The budgets of `admissionPolicy.around`.
pub data Budget : Type 0 where
  unlimited health business : Budget

unfoldable pub route : Bytes → Budget
unfolding is_health_check is_health_method
route full_method =
    if is_health_check full_method
    then unlimited
    else if is_health_method full_method
    then health
    else business

-- Where a call is: tagged by the transport, past the test for draining, in its handler, or returned
-- with an error or none.
pub data Stage : Type 0 where
  tagged checked running : Stage
  returned : Option Err → Stage

pub record Call : Type 0 where
  pub method : Bytes
  pub tracked : Bool
  pub stage : Stage

pub record Server (Sem : Type 0) : Type 0 where
  pub drain : Drain
  pub business : Limiter Sem
  pub health : Limiter Sem
  pub calls : List Call

unfoldable pub check_draining : Bool → Bool → Stage
check_draining drains draining =
    if drains && draining
    then returned (some (owned_status unavailable (codes "server is draining")))
    else checked

module _ {Sem : Type 0} where
  -- `around` up to its first test.
  unfoldable pub enter_at : Server Sem → Budget → Stage
  unfolding check_draining
  enter_at s unlimited = running
  enter_at s health = check_draining s.health.drains s.drain.draining
  enter_at s business = check_draining s.business.drains s.drain.draining

  unfoldable pub enter : Server Sem → List Call → Call → List Call → Server Sem
  unfolding enter_at route
  enter s before c after = record s {
    calls = before ++ record c { stage = enter_at s (route c.method) } ∷ after;
  }

  unfoldable pub begin : Server Sem → Bytes → Server Sem
  unfolding tag_rpc
  begin s method = record s {
    drain = (tag_rpc s.drain method).0;
    calls =
        record { method = method; tracked = (tag_rpc s.drain method).1; stage = tagged } ∷ s.calls;
  }

  unfoldable pub end_call : Server Sem → List Call → Call → List Call → Server Sem
  unfolding handle_end
  end_call s before c after = record s {
    drain = handle_end s.drain c.tracked;
    calls = before ++ after;
  }

module _ {Sem : Type 0} (sems : Semaphore Sem) where
  -- `newAdmissionPolicy`.
  unfoldable pub new_server : ℕ → ℕ → ServerLoad → Server Sem
  new_server business_limit health_limit load = record {
    drain = new_rpc_drain;
    business = record {
      sem = sems.new_weighted business_limit;
      shed = load.shed;
      active = load.active;
      drains = true;
    };
    health = record {
      sem = sems.new_weighted health_limit;
      shed = load.health_shed;
      active = none;
      drains = false;
    };
    calls = [];
  }

  unfoldable pub acquired_with : Limiter Sem → Option Sem → Limiter Sem × Stage
  unfolding inc
  acquired_with l none = (
    record l { shed = record_shed l.shed },
    returned (some (owned_status resource_exhausted at_capacity_detail)),
  )
  acquired_with l (some sem) =
      (record l { sem = sem; active = record_active inc l.active }, running)

  -- `admissionLimiter.around` from `TryAcquire` to its handler, and behind its handler.
  unfoldable pub acquire : Limiter Sem → Limiter Sem × Stage
  unfolding acquired_with
  acquire l = acquired_with l (sems.try_acquire l.sem)

  unfoldable pub leave : Limiter Sem → Limiter Sem
  unfolding dec
  leave l = record l { sem = sems.release l.sem; active = record_active dec l.active }

  unfoldable pub acquire_at : Server Sem → Budget → Server Sem × Stage
  unfolding acquire
  acquire_at s unlimited = (s, running)
  acquire_at s health = (record s { health = (acquire s.health).0 }, (acquire s.health).1)
  acquire_at s business = (record s { business = (acquire s.business).0 }, (acquire s.business).1)

  unfoldable pub take_slot : Server Sem → List Call → Call → List Call → Server Sem
  unfolding acquire_at route
  take_slot s before c after = record (acquire_at s (route c.method)).0 {
    calls = before ++ record c { stage = (acquire_at s (route c.method)).1 } ∷ after;
  }

  unfoldable pub leave_at : Server Sem → Budget → Server Sem
  unfolding leave
  leave_at s unlimited = s
  leave_at s health = record s { health = leave s.health }
  leave_at s business = record s { business = leave s.business }

  unfoldable pub finish : Server Sem → List Call → Call → List Call → Option Err → Server Sem
  unfolding leave_at route
  finish s before c after e = record (leave_at s (route c.method)) {
    calls = before ++ record c { stage = returned e } ∷ after;
  }

  -- One call of the list goes on, a call begins, or the server starts to drain. The transport ends a
  -- call once, and not while `around` runs.
  pub data Step : Server Sem → Server Sem → Type 0 where
    begins : (s : Server Sem) (method : Bytes) → Step s (begin s method)
    enters :
        (s : Server Sem) (before : List Call) (c : Call) (after : List Call)
        → s.calls ≡ before ++ c ∷ after
        → c.stage ≡ tagged
        → Step s (enter s before c after)
    acquires :
        (s : Server Sem) (before : List Call) (c : Call) (after : List Call)
        → s.calls ≡ before ++ c ∷ after
        → c.stage ≡ checked
        → Step s (take_slot s before c after)
    returns :
        (s : Server Sem) (before : List Call) (c : Call) (after : List Call) (e : Option Err)
        → s.calls ≡ before ++ c ∷ after
        → c.stage ≡ running
        → Step s (finish s before c after e)
    ends_early :
        (s : Server Sem) (before : List Call) (c : Call) (after : List Call)
        → s.calls ≡ before ++ c ∷ after
        → c.stage ≡ tagged
        → Step s (end_call s before c after)
    ends :
        (s : Server Sem) (before : List Call) (c : Call) (after : List Call) (e : Option Err)
        → s.calls ≡ before ++ c ∷ after
        → c.stage ≡ returned e
        → Step s (end_call s before c after)
    shuts_down : (s : Server Sem) → Step s (record s { drain = start s.drain })

  pub data Reach (s : Server Sem) : Server Sem → Type 0 where
    here : Reach s s
    next : {t u : Server Sem} → Reach s t → Step t u → Reach s u
