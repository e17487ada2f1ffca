-- ===== src/Grpc/Admission/Closed.antt =====
-- The state of the drain in every state of the server.
use go_service_template_rest.Base.{ℕ, ◌≡◌, refl, sym, ap, ◌∙◌, subst, List, ◌∷◌, ◌++◌}
use go_service_template_rest.Base.Semaphore.{Semaphore}
use go_service_template_rest.Grpc.Admission.{
  Drain, handle_end, Server, ServerLoad, Call, Stage, returned, Budget, unlimited, health, business,
  route, acquire_at, take_slot, leave_at, finish, enter_at, enter, begin, end_call, new_server,
  Step, begins, enters, acquires, returns, ends_early, ends, shuts_down, Reach, here, next,
}
use go_service_template_rest.Grpc.Admission.Drained.{
  live, live-split, closed_times, Settled, tag_rpc-Settled, handle_end-Settled, start-Settled,
}

module _ {Sem : Type 0} (sems : Semaphore Sem) where
  relive :
      (before : List Call) (c : Call) (after : List Call) (stage : Stage) (s : Server Sem)
      → s.calls ≡ before ++ c ∷ after
      → live s.calls ≡ live (before ++ record c { stage = stage } ∷ after)
  relive before c after stage s e =
      ap live e
      ∙ live-split before c after
      ∙ sym (live-split before (record c { stage = stage }) after)

  acquire_at-drain : (s : Server Sem) (r : Budget) → (acquire_at sems s r).0.drain ≡ s.drain
  unfolding acquire_at
  acquire_at-drain s unlimited = refl
  acquire_at-drain s health = refl
  acquire_at-drain s business = refl

  leave_at-drain : (s : Server Sem) (r : Budget) → (leave_at sems s r).drain ≡ s.drain
  unfolding leave_at
  leave_at-drain s unlimited = refl
  leave_at-drain s health = refl
  leave_at-drain s business = refl

  Settled-same : (d e : Drain) (n m : ℕ) → e ≡ d → n ≡ m → Settled d n → Settled e m
  Settled-same d e n m p q h = subst (λ x. Settled x m) (sym p) (subst (Settled d) q h)

  ended :
      (s : Server Sem) (before : List Call) (c : Call) (after : List Call)
      → s.calls ≡ before ++ c ∷ after
      → Settled s.drain (live s.calls)
      → Settled (handle_end s.drain c.tracked) (live (before ++ after))
  ended s before c after e h =
      handle_end-Settled s.drain c.tracked (live (before ++ after))
        (subst (Settled s.drain) (ap live e ∙ live-split before c after) h)

  Step-Settled :
      {s t : Server Sem}
      → Step sems s t
      → Settled s.drain (live s.calls)
      → Settled t.drain (live t.calls)
  unfolding begin enter take_slot finish end_call live
  Step-Settled (begins s method) h = tag_rpc-Settled s.drain method (live s.calls) h
  Step-Settled (enters s before c after e at) h =
      Settled-same s.drain s.drain _ _ refl
        (relive before c after (enter_at s (route c.method)) s e) h
  Step-Settled (acquires s before c after e at) h =
      Settled-same s.drain _ _ _ (acquire_at-drain s (route c.method))
        (relive before c after (acquire_at sems s (route c.method)).1 s e) h
  Step-Settled (returns s before c after e same at) h =
      Settled-same s.drain _ _ _ (leave_at-drain s (route c.method))
        (relive before c after (returned e) s same) h
  Step-Settled (ends_early s before c after e at) h = ended s before c after e h
  Step-Settled (ends s before c after e same at) h = ended s before c after same h
  Step-Settled (shuts_down s) h = start-Settled s.drain (live s.calls) h

  pub Reach-Settled :
      {s t : Server Sem}
      → Reach sems s t
      → Settled s.drain (live s.calls)
      → Settled t.drain (live t.calls)
  Reach-Settled here h = h
  Reach-Settled (next r step) h = Step-Settled step (Reach-Settled r h)

  -- In every state that the server reaches, in whatever order calls begin, go on and end, the channel
  -- was closed once, if the server drains and no call that it tracked is left, and otherwise not at
  -- all: `Shutdown` never waits for calls that are gone, and the channel is never closed twice.
  pub Reach-closed_times :
      (business_limit health_limit : ℕ) (load : ServerLoad) {s : Server Sem}
      → Reach sems (new_server sems business_limit health_limit load) s
      → s.drain.closed ≡ closed_times s.drain.draining (live s.calls)
  unfolding new_server live
  Reach-closed_times bl hl load r = (Reach-Settled r (refl, refl)).1
