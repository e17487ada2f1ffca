-- ===== src/Grpc/Admission/Tests.antt =====
-- The theorems about admission and the drain at concrete runs: a business call that takes the only
-- slot, passes the shutdown and ends, beside a watch of the health service.
use go_service_template_rest.Base.{
  ℕ, zero, suc, ◌+◌, ◌≤◌, ◌<◌, ◌≡◌, ◌≢◌, refl, Bool, true, false, [], ◌∷◌, Option, none, some,
  Bytes, codes, All, arith,
}
use go_service_template_rest.Base.Int.{pos}
use go_service_template_rest.Base.Semaphore.{Semaphore}
use go_service_template_rest.Grpc.{is_health_method}
use go_service_template_rest.Grpc.Admission.{
  Server, ServerLoad, Call, Stage, tagged, checked, running, returned, business, health, begin,
  enter, take_slot, finish, end_call, new_server, start, acquire, begins, enters, acquires, returns,
  ends, shuts_down, Reach, here, next,
}
use go_service_template_rest.Grpc.Admission.Limits.{Shows, Reach-slots}
use go_service_template_rest.Grpc.Admission.Limits.Slots.{slots}
use go_service_template_rest.Grpc.Admission.Drained.{live, closed_times}
use go_service_template_rest.Grpc.Admission.Closed.{Reach-closed_times}
use go_service_template_rest.Grpc.Admission.Quiet.{is_busy, Reach-quiet}

-- A semaphore as what is held and what is free.
abbrev Pair : Type 0
Pair = ℕ × ℕ

abbrev acquire_pair : Pair → Option Pair
acquire_pair (held, zero) = none
acquire_pair (held, suc free) = some (suc held, free)

abbrev release_pair : Pair → Pair
release_pair (zero, free) = (zero, free)
release_pair (suc held, free) = (held, suc free)

pair_acquired :
    (s t : Pair)
    → acquire_pair s ≡ some t
    → (s.0 < s.0 + s.1) × (t.0 ≡ suc s.0) × (t.0 + t.1 ≡ s.0 + s.1)
pair_acquired (held, zero) t h = cc
pair_acquired (held, suc free) (a, b) h = ground arith

pair_refused : (s : Pair) → acquire_pair s ≡ none → s.0 ≡ s.0 + s.1
pair_refused (held, zero) h = omega arith
pair_refused (held, suc free) h = cc

pair_released :
    (s : Pair)
    → 0 < s.0
    → (suc (release_pair s).0 ≡ s.0) × ((release_pair s).0 + (release_pair s).1 ≡ s.0 + s.1)
pair_released (zero, free) h = absurd (omega arith)
pair_released (suc held, free) h = (refl, omega arith)

abbrev pairs : Semaphore Pair
pairs = record {
  new_weighted = λ n. (0, n);
  try_acquire = acquire_pair;
  release = release_pair;
  weight = λ s. s.0;
  limit = λ s. s.0 + s.1;
  weight-new_weighted = λ n. refl;
  limit-new_weighted = λ n. omega arith;
  acquired = pair_acquired;
  refused = pair_refused;
  released = pair_released;
}

abbrev load : ServerLoad
load = record { active = some (pos 0); shed = some 0; health_shed = none }

abbrev s0 : Server Pair
s0 = new_server pairs 1 1 load

abbrev call : Bytes → Bool → Stage → Call
call method tracked stage = record { method = method; tracked = tracked; stage = stage }

abbrev get : Bytes
get = codes "/a/Get"

abbrev watch : Bytes
watch = codes "/grpc.health.v1.Health/Watch"

abbrev s1 : Server Pair
s1 = begin s0 get

abbrev s2 : Server Pair
s2 = enter s1 [] (call get true tagged) []

abbrev s3 : Server Pair
s3 = take_slot pairs s2 [] (call get true checked) []

run_to_3 : Reach pairs s0 s3
unfolding new_server begin enter take_slot
run_to_3 =
    next (next (next here (begins s0 get)) (enters s1 [] (call get true tagged) [] refl refl))
      (acquires s2 [] (call get true checked) [] refl refl)

-- With the only slot taken, the call shows in the gauge and the next one is turned away.
Reach-slots_example :
    (slots business s3.calls ≤ 1)
    × (slots health s3.calls ≤ 1)
    × ((acquire pairs s3.business).1 ≢ running → slots business s3.calls ≡ 1)
    × ((acquire pairs s3.health).1 ≢ running → slots health s3.calls ≡ 1)
    × Shows s3.business.active (slots business s3.calls)
Reach-slots_example = Reach-slots pairs 1 1 load refl run_to_3

abbrev s4 : Server Pair
s4 = begin s3 watch

abbrev s5 : Server Pair
s5 = enter s4 [] (call watch false tagged) (call get true running ∷ [])

abbrev s6 : Server Pair
s6 = take_slot pairs s5 [] (call watch false checked) (call get true running ∷ [])

abbrev s7 : Server Pair
s7 = record s6 { drain = start s6.drain }

abbrev s8 : Server Pair
s8 = finish pairs s7 (call watch false running ∷ []) (call get true running) [] none

abbrev s9 : Server Pair
s9 = end_call s8 (call watch false running ∷ []) (call get true (returned none)) []

run_to_6 : Reach pairs s0 s6
unfolding new_server begin enter take_slot
run_to_6 =
    next
      (next (next run_to_3 (begins s3 watch))
        (enters s4 [] (call watch false tagged) (call get true running ∷ []) refl refl))
      (acquires s5 [] (call watch false checked) (call get true running ∷ []) refl refl)

run_to_9 : Reach pairs s0 s9
unfolding new_server begin enter take_slot finish end_call
run_to_9 =
    next
      (next (next run_to_6 (shuts_down s6))
        (returns s7 (call watch false running ∷ []) (call get true running) [] none refl refl))
      (ends s8 (call watch false running ∷ []) (call get true (returned none)) [] none refl refl)

closed_once : s9.drain.closed ≡ 1
unfolding new_server begin enter take_slot finish end_call start
closed_once = refl

Reach-closed_times_example : s9.drain.closed ≡ closed_times s9.drain.draining (live s9.calls)
Reach-closed_times_example = Reach-closed_times pairs 1 1 load run_to_9

closed_ne_0 : s9.drain.closed ≢ 0
closed_ne_0 h = absurd (omega (arith, closed_once, h))

Reach-quiet_example : All (λ c. is_busy c.stage ≡ true → is_health_method c.method ≡ true) s9.calls
Reach-quiet_example = Reach-quiet pairs 1 1 load run_to_9 closed_ne_0
