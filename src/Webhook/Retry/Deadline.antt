-- ===== src/Webhook/Retry/Deadline.antt =====
-- When the next attempt of a delivery is due.
use go_service_template_rest.Base.{
  ℕ, zero, suc, ◌+◌, ◌-◌, ◌*◌, ◌/◌, ◌%◌, ◌^◌, ◌≤◌, ◌<◌, ◌≡◌, ◌∙◌, min, Option, none, some, Bytes,
  arith, ltb, Bool-cases, inl, inr, ltb→lt, ◌++◌,
}
use go_service_template_rest.Base.Int.{
  ℤ, pos, negsuc, add64, add64-pos, mul64, quot64, min_ℤ, wrap64-pos, wrap64-negsuc, sub_ℕ,
}
use go_service_template_rest.Webhook.Retry.{
  Job, Clockwork, second, initial_backoff, max_backoff, max_elapsed, doubled, backoff,
  attempt_number, within_deadline, or_later, time_add, next_retry, stored_hint, word_bytes,
}

doubled_bounds :
    (rounds delay : ℕ)
    → initial_backoff ≤ delay
    → delay ≤ max_backoff
    → (initial_backoff ≤ doubled rounds delay) × (doubled rounds delay ≤ max_backoff)
unfolding doubled
doubled_bounds zero delay low high = (low, high)
doubled_bounds (suc rounds) delay low high = elim (Bool-cases (ltb delay max_backoff)) [
  | inl e ↦ rw e (doubled_bounds rounds (min (2 * delay) max_backoff) (omega arith) (omega arith))
  | inr e ↦ rw e (low, high)
]

-- The jitter lies between -100 and 100.
jitter_up : (r : ℕ) → r < 201 → 100 ≤ r → add64 (pos r) (negsuc 99) ≡ pos (r - 100)
unfolding add64
jitter_up r h up = ground (arith, wrap64-pos (r - 100))

jitter_down : (r : ℕ) → r < 100 → add64 (pos r) (negsuc 99) ≡ negsuc (99 - r)
unfolding add64
jitter_down r h = ground (arith, wrap64-negsuc (99 - r))

mul64-pos : (a b : ℕ) → a * b < 2 ^ 63 → mul64 (pos a) (pos b) ≡ pos (a * b)
unfolding mul64
mul64-pos a b h = ground (arith, wrap64-pos (a * b))

mul64-negsuc :
    (a b : ℕ)
    → 0 < a * suc b
    → a * suc b < 2 ^ 63
    → mul64 (pos a) (negsuc b) ≡ negsuc (a * suc b - 1)
unfolding mul64
mul64-negsuc a b p h = ground (arith, wrap64-negsuc (a * suc b - 1))

-- A tenth more or less.
abbrev Near : ℕ → ℤ → Type 0
Near d z = (n : ℕ) × (z ≡ pos n) × (10 * n ≤ 11 * d) × (9 * d ≤ 10 * n)

jittered_up :
    (d m : ℕ)
    → d ≤ max_backoff
    → m ≤ 100
    → Near d (add64 (pos d) (quot64 (mul64 (pos d) (pos m)) 1000))
unfolding quot64
jittered_up d m high small =
    let bound : d * m ≤ d * 100 = grind arith in
    let small_product : d * m < 2 ^ 63 = omega arith in
    (
      d + d * m / 1000,
      rw (mul64-pos d m small_product) (add64-pos d (d * m / 1000) (omega arith)),
      omega arith,
      omega arith,
    )

add64-sub_ℕ : (d q : ℕ) → q ≤ d → d < 2 ^ 63 → add64 (pos d) (sub_ℕ 0 q) ≡ pos (d - q)
unfolding add64
add64-sub_ℕ d q le h = ground (arith, wrap64-pos (d - q))

jittered_down :
    (d k : ℕ)
    → 0 < d
    → d ≤ max_backoff
    → k ≤ 99
    → Near d (add64 (pos d) (quot64 (mul64 (pos d) (negsuc k)) 1000))
unfolding quot64
jittered_down d k low high small =
    let bound : d * suc k ≤ d * 100 = grind arith in
    let positive : 0 < d * suc k = grind arith in
    let back : suc (d * suc k - 1) ≡ d * suc k = omega arith in
    (
      d - d * suc k / 1000,
      rw (mul64-negsuc d k positive (omega arith), back)
          (add64-sub_ℕ d (d * suc k / 1000) (omega arith) (omega arith)),
      omega arith,
      omega arith,
    )

jittered :
    (d r : ℕ)
    → 0 < d
    → d ≤ max_backoff
    → r < 201
    → Near d (add64 (pos d) (quot64 (mul64 (pos d) (add64 (pos r) (negsuc 99))) 1000))
jittered d r low high small = elim (Bool-cases (ltb r 100)) [
  | inl e ↦
      let lt = ltb→lt r 100 e in
      rw (jitter_down r lt) (jittered_down d (99 - r) low high (omega arith))
  | inr e ↦
      let le : 100 ≤ r = ground arith in
      rw (jitter_up r small le) (jittered_up d (r - 100) high (omega arith))
]

expired_lem :
    (now due created : ℕ)
    → created + max_elapsed ≤ now
    → within_deadline now due (some created) ≡ now + second
unfolding within_deadline
expired_lem now due created h = ground arith

due_lem :
    (now due created : ℕ)
    → now < created + max_elapsed
    → within_deadline now due (some created) ≡ min due (created + max_elapsed)
unfolding within_deadline
due_lem now due created h = ground arith

or_later-le : (due : ℕ) (hint : Option ℕ) → due ≤ or_later due hint
or_later-le due none = omega arith
or_later-le due (some hint) = ground arith

hint-le : (due hint : ℕ) (o : Option ℕ) → o ≡ some hint → hint ≤ or_later due o
hint-le due hint none e = cc
hint-le due hint (some h) e = ground arith

module _ (clock : Clockwork) where
  -- A delay of four and a half seconds to a day.
  abbrev Delay : ℤ → Type 0
  Delay z = (n : ℕ) × (z ≡ pos n) × (4 * second + second / 2 ≤ n) × (n ≤ max_backoff)

  capped : (d : ℕ) (z : ℤ) → initial_backoff ≤ d → Near d z → Delay (min_ℤ z (pos max_backoff))
  capped d z low (n, e, high, near) =
      (min n max_backoff, rw e (ground arith), omega arith, omega arith)

  backoff-Delay : (delivery_id : Bytes) (attempt : ℤ) → Delay (backoff clock delivery_id attempt)
  unfolding backoff
  backoff-Delay id attempt =
      let n = attempt_number attempt in
      let (low, high) = doubled_bounds (n - 1) initial_backoff (omega arith) (omega arith) in
      capped (doubled (n - 1) initial_backoff) _ low (
        jittered (doubled (n - 1) initial_backoff) (clock.digest_word (id ++ word_bytes 8 n) % 201)
          (omega arith) high (omega arith))

  -- A delivery that has not expired is tried again later than now and within four days of its creation:
  -- not before four and a half seconds have passed and not before the moment that Retry-After named,
  -- unless the four days end first. One that has expired comes back in a second, to be given up.
  pub next_retry_lem :
      (job : Job) (now created : ℕ)
      → job.created_at ≡ some created
      → (created + max_elapsed ≤ now → next_retry clock job now ≡ now + second)
        × (now < created + max_elapsed
            → (now < next_retry clock job now)
              × (next_retry clock job now ≤ created + max_elapsed)
              × (min (now + 4 * second + second / 2) (created + max_elapsed)
                  ≤ next_retry clock job now)
              × ((hint : ℕ)
                  → stored_hint clock job.metadata ≡ some hint
                  → min hint (created + max_elapsed) ≤ next_retry clock job now))
  unfolding next_retry
  next_retry_lem job now created e =
      let (n, same, low, high) = backoff-Delay job.delivery_id job.attempt in
      let hint = stored_hint clock job.metadata in
      let due = or_later (now + n) hint in
      let whole : next_retry clock job now ≡ within_deadline now due (some created) =
        λ i. within_deadline now (or_later (time_add now (same i)) hint) (e i) in
      (
        (λ over. whole ∙ expired_lem now due created over),
        (λ before.
            let value : next_retry clock job now ≡ min due (created + max_elapsed) =
              whole ∙ due_lem now due created before in
            let later = or_later-le (now + n) hint in
            (
              omega arith,
              omega arith,
              omega arith,
              (λ h asked. omega (arith, hint-le (now + n) h hint asked)),
            )),
      )
