-- ===== src/Background/Causes.antt =====
-- When a task's error counts as the cancellation that it was asked for.
use go_service_template_rest.Base.{
  ℕ, zero, suc, ◌≤◌, ◌≡◌, ◌↔◌, refl, Bool, true, false, ◌&&◌, Option, none, some, ◌==◌, arith,
  if◌then◌else◌, Option-cases, inl, inr,
}
use go_service_template_rest.Base.GoError.{
  Err, Errs, leaf, wrapped, joined, op_error, permanent, status, nil, cons, is, is_any, unwrap,
}
use go_service_template_rest.Background.{
  Outcome, returned, panicked, run_task, stop_cause, matches_only, match_causes, find_multi,
  all_errs, height, height_all,
}

-- Every error at the bottom of the tree is the target, and there is one.
unfoldable mutual
  pub only : Err → ℕ → Bool
  only (leaf ty i) t = i == t
  only (wrapped ty e) t = only e t
  only (joined ty es) t = only_some es t && only_all es t
  only (op_error name e) t = only e t
  only (permanent e) t = only e t
  only (status owned s) t = false

  pub only_all : Errs → ℕ → Bool
  only_all nil t = true
  only_all (cons e es) t = only e t && only_all es t

  pub only_some : Errs → ℕ → Bool
  only_some nil t = false
  only_some (cons e es) t = true

-- What is only the target matches it.
mutual
  unfolding only is

  only→is : (e : Err) (t : ℕ) → only e t ≡ true → is e t ≡ true
  only→is (leaf ty i) t h = h
  only→is (wrapped ty e) t h = only→is e t h
  only→is (joined ty es) t h = only_all→is_any es t h
  only→is (op_error name e) t h = only→is e t h
  only→is (permanent e) t h = only→is e t h
  only→is (status owned s) t h = h

  only_all→is_any :
      (es : Errs) (t : ℕ) → (only_some es t && only_all es t) ≡ true → is_any es t ≡ true
  only_all→is_any nil t h = h
  only_all→is_any (cons e es) t h = ground (arith, only→is e t)

is_any→only_some : (es : Errs) (t : ℕ) → is_any es t ≡ true → only_some es t ≡ true
unfolding is only
is_any→only_some nil t h = h
is_any→only_some (cons e es) t h = refl

find_multi-some :
    (e : Err) (es : Errs) (t : ℕ)
    → find_multi e ≡ some es
    → (only e t ≡ (only_some es t && only_all es t))
      × (is e t ≡ is_any es t)
      × (suc (height_all es) ≤ height e)
unfolding find_multi only is height
find_multi-some (leaf ty i) es t h = ground arith
find_multi-some (wrapped ty e) es t h = ground (arith, find_multi-some e es t h)
find_multi-some (joined ty xs) es t h = ground arith
find_multi-some (op_error name e) es t h = ground (arith, find_multi-some e es t h)
find_multi-some (permanent e) es t h = ground (arith, find_multi-some e es t h)
find_multi-some (status owned s) es t h = ground arith

all_errs-only :
    (f : ℕ) (t : ℕ) (es : Errs)
    → ((c : Err) → height c ≤ f → matches_only f c t ≡ only c t)
    → height_all es ≤ f
    → all_errs (λ c. matches_only f c t) es ≡ only_all es t
unfolding all_errs only height
all_errs-only f t nil ih h = refl
all_errs-only f t (cons e es) ih h = rw (ih e (omega arith), all_errs-only f t es ih (omega arith))

if-only_all :
    (es : Errs) (t : ℕ)
    → (if is_any es t then only_all es t else false) ≡ (only_some es t && only_all es t)
if-only_all es t = ground (arith, only_all→is_any es t, is_any→only_some es t)

if-only : (e : Err) (t : ℕ) → (if is e t then only e t else false) ≡ only e t
if-only e t = ground (arith, only→is e t)

matches_only-join :
    (f : ℕ) (e : Err) (es : Errs) (t : ℕ)
    → ((c : Err) → height c ≤ f → matches_only f c t ≡ only c t)
    → height e ≤ suc f
    → find_multi e ≡ some es
    → matches_only (suc f) e t ≡ only e t
unfolding matches_only
matches_only-join f e es t ih h m =
    let (same_only, same_is, lower) = find_multi-some e es t m in
    rw (m, match_causes, all_errs-only f t es ih (omega arith), same_is, same_only)
      (if-only_all es t)

matches_only-single :
    (f : ℕ) (e c : Err) (t : ℕ)
    → ((d : Err) → height d ≤ f → matches_only f d t ≡ only d t)
    → height c ≤ f
    → find_multi e ≡ none
    → unwrap e ≡ some c
    → is e t ≡ is c t
    → matches_only (suc f) e t ≡ only c t
unfolding matches_only
matches_only-single f e c t ih h m u same = rw (m, u, match_causes, same, ih c h) (if-only c t)

matches_only-none :
    (f : ℕ) (e : Err) (t : ℕ)
    → ((c : Err) → height c ≤ f → matches_only f c t ≡ only c t)
    → height e ≤ suc f
    → find_multi e ≡ none
    → matches_only (suc f) e t ≡ only e t
matches_only-none f (leaf ty i) t ih h m = unfold matches_only only in ground arith
matches_only-none f (wrapped ty e) t ih h m =
    unfold only in
    matches_only-single f (wrapped ty e) e t ih (unfold height in omega arith) m
      (unfold unwrap in refl) (unfold is in refl)
matches_only-none f (joined ty es) t ih h m = unfold find_multi in cc
matches_only-none f (op_error name e) t ih h m =
    unfold only in
    matches_only-single f (op_error name e) e t ih (unfold height in omega arith) m
      (unfold unwrap in refl) (unfold is in refl)
matches_only-none f (permanent e) t ih h m =
    unfold only in
    matches_only-single f (permanent e) e t ih (unfold height in omega arith) m
      (unfold unwrap in refl) (unfold is in refl)
matches_only-none f (status owned s) t ih h m = unfold matches_only only in refl

height-pos : (e : Err) → 1 ≤ height e
unfolding height
height-pos (leaf ty i) = omega arith
height-pos (wrapped ty e) = omega arith
height-pos (joined ty es) = omega arith
height-pos (op_error name e) = omega arith
height-pos (permanent e) = omega arith
height-pos (status owned s) = omega arith

-- With fuel for the height of the error, `matchesOnly` says whether the error has a cause at the
-- bottom and every such cause is the target: a join with one other cause, or with none, is refused.
pub matches_only-only :
    (fuel : ℕ) (e : Err) (target : ℕ) → height e ≤ fuel → matches_only fuel e target ≡ only e target
matches_only-only zero e target h = absurd (omega (arith, height-pos e))
matches_only-only (suc f) e target h = elim (Option-cases (find_multi e)) [
  | inl m ↦ matches_only-none f e target (λ c k. matches_only-only f c target k) h m
  | inr (es, m) ↦ matches_only-join f e es target (λ c k. matches_only-only f c target k) h m
]

-- The task stopped because it was asked to: its context is done, and it returned nil or nothing
-- but the context's error.
abbrev pub StoppedAsAsked : Option ℕ → Outcome → Type 0
StoppedAsAsked none o = ⊥
StoppedAsAsked (some reason) panicked = ⊥
StoppedAsAsked (some reason) (returned none) = Unit {0}
StoppedAsAsked (some reason) (returned (some e)) = only e reason ≡ true

stop_cause-none :
    (reason : ℕ) (e : Err) → (stop_cause (some reason) e ≡ none) ↔ (only e reason ≡ true)
unfolding stop_cause
stop_cause-none reason e = (
  λ h. ground (arith, matches_only-only (height e) e reason (omega arith)),
  λ h. ground (arith, matches_only-only (height e) e reason (omega arith)),
)

-- `runTask` answers nil exactly when the task stopped because it was asked to. A panic, a return
-- while the context lives, and an error that carries any other cause are failures.
pub run_task_lem :
    (ctx_err : Option ℕ) (o : Outcome) → (run_task ctx_err o ≡ none) ↔ StoppedAsAsked ctx_err o
unfolding run_task
run_task_lem none panicked = (λ h. cc, λ h. absurd h)
run_task_lem none (returned none) = (λ h. cc, λ h. absurd h)
run_task_lem none (returned (some e)) = unfold stop_cause in (λ h. cc, λ h. absurd h)
run_task_lem (some reason) panicked = (λ h. cc, λ h. absurd h)
run_task_lem (some reason) (returned none) = (λ h. tt, λ h. refl)
run_task_lem (some reason) (returned (some e)) = stop_cause-none reason e
