-- ===== src/Grpc/Admission/Drained.antt =====
-- When the channel of the drain is closed, and what still runs then.
use go_service_template_rest.Base.{
  ℕ, zero, suc, ◌≡◌, refl, ap, ◌∙◌, Bool, true, false, ◌&&◌, List, [], ◌∷◌, ◌++◌, Bytes, inl, inr,
  Bool-cases,
}
use go_service_template_rest.Base.Int.{pos}
use go_service_template_rest.Grpc.{is_health_method}
use go_service_template_rest.Grpc.Admission.{
  Drain, track, release, start, tag_rpc, handle_end, close_if, is_zero, Call, inc, dec,
}

abbrev pub counted : Bool → ℕ → ℕ
counted true n = suc n
counted false n = n

counted-swap : (a b : Bool) (n : ℕ) → counted a (counted b n) ≡ counted b (counted a n)
counted-swap true true n = refl
counted-swap true false n = refl
counted-swap false b n = refl

-- The calls that the drain waits for.
unfoldable pub live : List Call → ℕ
live [] = 0
live (c ∷ calls) = counted c.tracked (live calls)

pub live-split :
    (before : List Call) (c : Call) (after : List Call)
    → live (before ++ c ∷ after) ≡ counted c.tracked (live (before ++ after))
unfolding live
live-split [] c after = refl
live-split (d ∷ before) c after =
    ap (counted d.tracked) (live-split before c after) ∙ counted-swap d.tracked c.tracked _

-- How often the channel was closed, with `n` calls to wait for.
abbrev pub closed_times : Bool → ℕ → ℕ
closed_times false n = 0
closed_times true zero = 1
closed_times true (suc n) = 0

abbrev pub Settled : Drain → ℕ → Type 0
Settled d n = (d.active ≡ pos n) × (d.closed ≡ closed_times d.draining n)

track-Settled : (d : Drain) (n : ℕ) → Settled d n → Settled (track d).0 (counted (track d).1 n)
unfolding track inc
track-Settled d n (count, closed) = elim (Bool-cases d.draining) [
  | inl e ↦ rw e (count, rw e at closed)
  | inr e ↦ rw (e, count) (refl, rw e at closed)
]

pub tag_rpc-Settled :
    (d : Drain) (method : Bytes) (n : ℕ)
    → Settled d n
    → Settled (tag_rpc d method).0 (counted (tag_rpc d method).1 n)
unfolding tag_rpc
tag_rpc-Settled d method n h = elim (Bool-cases (is_health_method method)) [
  | inl e ↦ rw e h
  | inr e ↦ rw e (track-Settled d n h)
]

close_if-Settled :
    (d : Drain) (draining : Bool) (n : ℕ)
    → d.draining ≡ draining
    → d.active ≡ pos n
    → d.closed ≡ 0
    → Settled (close_if (draining && is_zero (pos n)) d) n
close_if-Settled d true zero e count closed = (count, rw (e, closed) refl)
close_if-Settled d true (suc n) e count closed = (count, rw (e, closed) refl)
close_if-Settled d false n e count closed = (count, rw (e, closed) refl)

closed_times-suc : (draining : Bool) (n : ℕ) → closed_times draining (suc n) ≡ 0
closed_times-suc true n = refl
closed_times-suc false n = refl

release-Settled : (d : Drain) (n : ℕ) → Settled d (suc n) → Settled (release d) n
unfolding release dec
release-Settled d n (count, closed) = rw count (
    close_if-Settled (record d { active = pos n }) d.draining n refl refl
      (closed ∙ closed_times-suc d.draining n))

pub handle_end-Settled :
    (d : Drain) (tracked : Bool) (n : ℕ)
    → Settled d (counted tracked n)
    → Settled (handle_end d tracked) n
unfolding handle_end
handle_end-Settled d true n h = release-Settled d n h
handle_end-Settled d false n h = h

pub start-Settled : (d : Drain) (n : ℕ) → Settled d n → Settled (start d) n
unfolding start
start-Settled d n (count, closed) = elim (Bool-cases d.draining) [
  | inl e ↦ rw e (count, rw e at closed)
  | inr e ↦
      rw (e, count)
        (close_if-Settled (record d { draining = true; active = pos n }) true n refl refl
          (rw e at closed))
]

pub start-draining : (d : Drain) → (start d).draining ≡ true
unfolding start
start-draining d = elim (Bool-cases d.draining) [
  | inl e ↦ rw e refl
  | inr e ↦ rw e (close_if-draining (is_zero d.active) (record d { draining = true }))
]
  where
    close_if-draining : (b : Bool) (d : Drain) → (close_if b d).draining ≡ d.draining
    close_if-draining true d = refl
    close_if-draining false d = refl
