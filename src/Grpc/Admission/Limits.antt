-- ===== src/Grpc/Admission/Limits.antt =====
-- The calls in their handlers and the slots of the budgets agree. Limits/Slots counts the calls.
pub mod Slots
use go_service_template_rest.Base.{
  ℕ, suc, ◌≤◌, ◌≡◌, ◌≢◌, refl, sym, ap, ◌∙◌, subst, List, [], ◌∷◌, ◌++◌, Option, none, some, arith,
}
use go_service_template_rest.Base.Int.{ℤ, pos}
use go_service_template_rest.Base.Semaphore.{Semaphore}
use go_service_template_rest.Grpc.Admission.{
  Limiter, Server, ServerLoad, Call, Stage, tagged, checked, running, returned, Budget, unlimited,
  health, business, route, inc, dec, record_active, acquired_with, acquire, acquire_at, take_slot,
  leave, leave_at, finish, enter_at, enter, begin, end_call, new_server, Step, begins, enters,
  acquires, returns, ends_early, ends, shuts_down, Reach, here, next,
}
use go_service_template_rest.Grpc.Admission.Limits.Slots.{
  with_running, with_slot, slots, slots-split, IsIdle, with_slot-idle, check_draining-IsIdle,
}

-- The gauge shows the number, if there is a gauge.
abbrev pub Shows : Option ℤ → ℕ → Type 0
Shows none n = Unit
Shows (some z) n = z ≡ pos n

Shows-inc : (o : Option ℤ) (n : ℕ) → Shows o n → Shows (record_active inc o) (suc n)
unfolding inc
Shows-inc none n h = tt
Shows-inc (some z) n h = rw h refl

Shows-dec : (o : Option ℤ) (n : ℕ) → Shows o (suc n) → Shows (record_active dec o) n
unfolding dec
Shows-dec none n h = tt
Shows-dec (some z) n h = rw h refl

module _ {Sem : Type 0} (sems : Semaphore Sem) where
  -- The limiter holds `n` slots of `top`.
  abbrev Holds : Limiter Sem → ℕ → ℕ → Type 0
  Holds l n top = (sems.weight l.sem ≡ n) × (sems.limit l.sem ≡ top) × (n ≤ top) × Shows l.active n

  acquired_with-Holds :
      (l : Limiter Sem) (n top : ℕ) (o : Option Sem)
      → sems.try_acquire l.sem ≡ o
      → Holds l n top
      → Holds (acquired_with sems l o).0 (with_running (acquired_with sems l o).1 n) top
  unfolding acquired_with
  acquired_with-Holds l n top none e h = h
  acquired_with-Holds l n top (some sem) e (held, most, le, shown) =
      let (room, more, same) = sems.acquired l.sem sem e in
      (more ∙ ap suc held, same ∙ most, omega arith, Shows-inc l.active n shown)

  acquire-Holds :
      (l : Limiter Sem) (n top : ℕ)
      → Holds l n top
      → Holds (acquire sems l).0 (with_running (acquire sems l).1 n) top
  unfolding acquire
  acquire-Holds l n top h = acquired_with-Holds l n top (sems.try_acquire l.sem) refl h

  leave-Holds : (l : Limiter Sem) (n top : ℕ) → Holds l (suc n) top → Holds (leave sems l) n top
  unfolding leave
  leave-Holds l n top (held, most, le, shown) =
      let (less, same) = sems.released l.sem (omega arith) in
      (omega arith, same ∙ most, omega arith, Shows-dec l.active n shown)

  abbrev Within : ℕ → ℕ → Server Sem → (Budget → ℕ) → Type 0
  Within business_limit health_limit s n =
      Holds s.business (n business) business_limit × Holds s.health (n health) health_limit

  acquire_at-Within :
      (bl hl : ℕ) (s : Server Sem) (r : Budget) (n : Budget → ℕ)
      → Within bl hl s n
      → Within bl hl (acquire_at sems s r).0 (λ b. with_slot b r (acquire_at sems s r).1 (n b))
  unfolding acquire_at
  acquire_at-Within bl hl s unlimited n h = h
  acquire_at-Within bl hl s health n (b, h) = (b, acquire-Holds s.health (n health) hl h)
  acquire_at-Within bl hl s business n (b, h) = (acquire-Holds s.business (n business) bl b, h)

  leave_at-Within :
      (bl hl : ℕ) (s : Server Sem) (r : Budget) (n : Budget → ℕ)
      → Within bl hl s (λ b. with_slot b r running (n b))
      → Within bl hl (leave_at sems s r) n
  unfolding leave_at
  leave_at-Within bl hl s unlimited n h = h
  leave_at-Within bl hl s health n (b, h) = (b, leave-Holds s.health (n health) hl h)
  leave_at-Within bl hl s business n (b, h) = (leave-Holds s.business (n business) bl b, h)

  enter_at-idle : (s : Server Sem) (b r : Budget) (n : ℕ) → with_slot b r (enter_at s r) n ≡ n
  unfolding enter_at
  enter_at-idle s unlimited r n = refl
  enter_at-idle s health unlimited n = refl
  enter_at-idle s health health n = check_draining-IsIdle s.health.drains s.drain.draining n
  enter_at-idle s health business n = refl
  enter_at-idle s business unlimited n = refl
  enter_at-idle s business health n = refl
  enter_at-idle s business business n = check_draining-IsIdle s.business.drains s.drain.draining n

  Within-same :
      (bl hl : ℕ) (s : Server Sem) (n m : Budget → ℕ)
      → ((b : Budget) → n b ≡ m b)
      → Within bl hl s n
      → Within bl hl s m
  Within-same bl hl s n m e (b, h) = (
    subst (λ k. Holds s.business k bl) (e business) b,
    subst (λ k. Holds s.health k hl) (e health) h,
  )

  -- What the slots of the list are with one call of it in a stage.
  split :
      (s : Server Sem) (before : List Call) (c : Call) (after : List Call) (stage : Stage)
      (b : Budget)
      → s.calls ≡ before ++ c ∷ after
      → c.stage ≡ stage
      → slots b s.calls ≡ with_slot b (route c.method) stage (slots b (before ++ after))
  split s before c after stage b e at = rw (e, slots-split b before c after, at) refl

  idle-split :
      (s : Server Sem) (before : List Call) (c : Call) (after : List Call) (stage : Stage)
      (b : Budget)
      → s.calls ≡ before ++ c ∷ after
      → c.stage ≡ stage
      → IsIdle stage
      → slots b s.calls ≡ slots b (before ++ after)
  idle-split s before c after stage b e at idle =
      split s before c after stage b e at ∙ with_slot-idle b (route c.method) stage _ idle

  entered :
      (s : Server Sem) (before : List Call) (c : Call) (after : List Call) (b : Budget)
      → slots b (before ++ record c { stage = enter_at s (route c.method) } ∷ after)
        ≡ slots b (before ++ after)
  entered s before c after b =
      slots-split b before (record c { stage = enter_at s (route c.method) }) after
      ∙ enter_at-idle s b (route c.method) _

  Step-Within :
      (bl hl : ℕ) {s t : Server Sem}
      → Step sems s t
      → Within bl hl s (λ b. slots b s.calls)
      → Within bl hl t (λ b. slots b t.calls)
  unfolding begin enter take_slot finish end_call slots
  Step-Within bl hl (begins s method) h =
      Within-same bl hl s (λ b. slots b s.calls)
        (λ b. with_slot b (route method) tagged (slots b s.calls))
        (λ b. sym (with_slot-idle b (route method) tagged _ (λ n. refl))) h
  Step-Within bl hl (enters s before c after e at) h =
      Within-same bl hl s (λ b. slots b s.calls) (λ b. slots b (enter s before c after).calls)
        (λ b.
          idle-split s before c after tagged b e at (λ n. refl) ∙ sym (entered s before c after b))
        h
  Step-Within bl hl (acquires s before c after e at) h =
      Within-same bl hl (acquire_at sems s (route c.method)).0
        (λ b.
          with_slot b (route c.method) (acquire_at sems s (route c.method)).1
            (slots b (before ++ after)))
        (λ b. slots b (take_slot sems s before c after).calls)
        (λ b. sym (
          slots-split b before (record c { stage = (acquire_at sems s (route c.method)).1 }) after))
        (acquire_at-Within bl hl s (route c.method) (λ b. slots b (before ++ after))
          (Within-same bl hl s (λ b. slots b s.calls) (λ b. slots b (before ++ after))
            (λ b. idle-split s before c after checked b e at (λ n. refl)) h))
  Step-Within bl hl (returns s before c after e same at) h =
      Within-same bl hl (leave_at sems s (route c.method)) (λ b. slots b (before ++ after))
        (λ b. slots b (finish sems s before c after e).calls)
        (λ b. sym (
          slots-split b before (record c { stage = returned e }) after
          ∙ with_slot-idle b (route c.method) (returned e) _ (λ n. refl)))
        (leave_at-Within bl hl s (route c.method) (λ b. slots b (before ++ after))
          (Within-same bl hl s (λ b. slots b s.calls)
            (λ b. with_slot b (route c.method) running (slots b (before ++ after)))
            (λ b. split s before c after running b same at) h))
  Step-Within bl hl (ends_early s before c after e at) h =
      Within-same bl hl s (λ b. slots b s.calls) (λ b. slots b (before ++ after))
        (λ b. idle-split s before c after tagged b e at (λ n. refl)) h
  Step-Within bl hl (ends s before c after e same at) h =
      Within-same bl hl s (λ b. slots b s.calls) (λ b. slots b (before ++ after))
        (λ b. idle-split s before c after (returned e) b same at (λ n. refl)) h
  Step-Within bl hl (shuts_down s) h = h

  Reach-Within :
      (bl hl : ℕ) {s t : Server Sem}
      → Reach sems s t
      → Within bl hl s (λ b. slots b s.calls)
      → Within bl hl t (λ b. slots b t.calls)
  Reach-Within bl hl here h = h
  Reach-Within bl hl (next r step) h = Step-Within bl hl step (Reach-Within bl hl r h)

  new-Within :
      (bl hl : ℕ) (load : ServerLoad)
      → Shows load.active 0
      → Within bl hl (new_server sems bl hl load) (λ b. slots b (new_server sems bl hl load).calls)
  unfolding new_server slots
  new-Within bl hl load shown = (
    (sems.weight-new_weighted bl, sems.limit-new_weighted bl, omega arith, shown),
    (sems.weight-new_weighted hl, sems.limit-new_weighted hl, omega arith, tt),
  )

  Holds-le : (l : Limiter Sem) (n top : ℕ) → Holds l n top → n ≤ top
  Holds-le l n top (held, most, le, shown) = le

  Holds-Shows : (l : Limiter Sem) (n top : ℕ) → Holds l n top → Shows l.active n
  Holds-Shows l n top (held, most, le, shown) = shown

  full :
      (l : Limiter Sem) (n top : ℕ) (o : Option Sem)
      → sems.try_acquire l.sem ≡ o
      → Holds l n top
      → (acquired_with sems l o).1 ≢ running
      → n ≡ top
  unfolding acquired_with
  full l n top none e (held, most, le, shown) h = sym held ∙ sems.refused l.sem e ∙ most
  full l n top (some sem) e held h = absurd (h refl)

  -- Whatever the order of the calls and the moment of the shutdown: at most the limit of each budget
  -- are in their handlers at a time, a call is turned away for want of a slot only when its budget is
  -- full, and the gauge of active calls, if it began at zero, shows how many of the business budget
  -- are in their handlers.
  pub Reach-slots :
      (business_limit health_limit : ℕ) (load : ServerLoad) {s : Server Sem}
      → Shows load.active 0
      → Reach sems (new_server sems business_limit health_limit load) s
      → (slots business s.calls ≤ business_limit)
        × (slots health s.calls ≤ health_limit)
        × ((acquire sems s.business).1 ≢ running → slots business s.calls ≡ business_limit)
        × ((acquire sems s.health).1 ≢ running → slots health s.calls ≡ health_limit)
        × Shows s.business.active (slots business s.calls)
  unfolding acquire
  Reach-slots bl hl load {s} shown r =
      let (b, h) = Reach-Within bl hl r (new-Within bl hl load shown) in
      (
        Holds-le s.business _ bl b,
        Holds-le s.health _ hl h,
        full s.business _ bl _ refl b,
        full s.health _ hl _ refl h,
        Holds-Shows s.business _ bl b,
      )
