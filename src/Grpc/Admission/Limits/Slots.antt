-- ===== src/Grpc/Admission/Limits/Slots.antt =====
-- How many calls of a budget are in their handlers, in a list of calls.
use go_service_template_rest.Base.{
  ℕ, suc, ◌≡◌, refl, ap, ◌∙◌, Bool, true, false, List, [], ◌∷◌, ◌++◌,
}
use go_service_template_rest.Grpc.Admission.{
  Call, Stage, tagged, checked, running, returned, Budget, unlimited, health, business, route,
  check_draining,
}

-- `n`, and one more for a call in its handler.
abbrev pub with_running : Stage → ℕ → ℕ
with_running tagged n = n
with_running checked n = n
with_running running n = suc n
with_running (returned e) n = n

-- `n`, and one more if a call of the second budget in this stage holds a slot of the first.
abbrev pub with_slot : Budget → Budget → Stage → ℕ → ℕ
with_slot unlimited b stage n = n
with_slot health unlimited stage n = n
with_slot health health stage n = with_running stage n
with_slot health business stage n = n
with_slot business unlimited stage n = n
with_slot business health stage n = n
with_slot business business stage n = with_running stage n

-- The calls of a budget that are in their handlers.
unfoldable pub slots : Budget → List Call → ℕ
slots b [] = 0
slots b (c ∷ calls) = with_slot b (route c.method) c.stage (slots b calls)

with_running-suc : (stage : Stage) (n : ℕ) → with_running stage (suc n) ≡ suc (with_running stage n)
with_running-suc tagged n = refl
with_running-suc checked n = refl
with_running-suc running n = refl
with_running-suc (returned e) n = refl

with_slot-running :
    (b r : Budget) (stage first : Stage) (n : ℕ)
    → with_slot b r stage (with_running first n) ≡ with_running first (with_slot b r stage n)
with_slot-running b r stage tagged n = refl
with_slot-running b r stage checked n = refl
with_slot-running b r stage (returned e) n = refl
with_slot-running unlimited r stage running n = refl
with_slot-running health unlimited stage running n = refl
with_slot-running health health stage running n = with_running-suc stage n
with_slot-running health business stage running n = refl
with_slot-running business unlimited stage running n = refl
with_slot-running business health stage running n = refl
with_slot-running business business stage running n = with_running-suc stage n

with_slot-swap :
    (b r q : Budget) (stage first : Stage) (n : ℕ)
    → with_slot b r stage (with_slot b q first n) ≡ with_slot b q first (with_slot b r stage n)
with_slot-swap unlimited r q stage first n = refl
with_slot-swap health r unlimited stage first n = refl
with_slot-swap health r health stage first n = with_slot-running health r stage first n
with_slot-swap health r business stage first n = refl
with_slot-swap business r unlimited stage first n = refl
with_slot-swap business r health stage first n = refl
with_slot-swap business r business stage first n = with_slot-running business r stage first n

pub slots-split :
    (b : Budget) (before : List Call) (c : Call) (after : List Call)
    → slots b (before ++ c ∷ after)
      ≡ with_slot b (route c.method) c.stage (slots b (before ++ after))
unfolding slots
slots-split b [] c after = refl
slots-split b (d ∷ before) c after =
    ap (with_slot b (route d.method) d.stage) (slots-split b before c after)
    ∙ with_slot-swap b (route d.method) (route c.method) d.stage c.stage _

abbrev pub IsIdle : Stage → Type 0
IsIdle stage = (n : ℕ) → with_running stage n ≡ n

pub with_slot-idle :
    (b r : Budget) (stage : Stage) (n : ℕ) → IsIdle stage → with_slot b r stage n ≡ n
with_slot-idle unlimited r stage n h = refl
with_slot-idle health unlimited stage n h = refl
with_slot-idle health health stage n h = h n
with_slot-idle health business stage n h = refl
with_slot-idle business unlimited stage n h = refl
with_slot-idle business health stage n h = refl
with_slot-idle business business stage n h = h n

pub check_draining-IsIdle : (drains draining : Bool) → IsIdle (check_draining drains draining)
unfolding check_draining
check_draining-IsIdle true true n = refl
check_draining-IsIdle true false n = refl
check_draining-IsIdle false draining n = refl
