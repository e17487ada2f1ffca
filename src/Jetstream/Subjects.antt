-- ===== src/Jetstream/Subjects.antt =====
-- What a filter covers, and what a valid configuration of a worker guarantees.
use go_service_template_rest.Base.{
  ||-right, ||-true, ℕ, ◌+◌, ◌*◌, ◌^◌, ◌≤◌, ◌<◌, ◌≡◌, ◌≢◌, ◌↔◌, inl, inr, refl, sym, ap, ◌∙◌, subst,
  Bool, true, false, ◌||◌, not, List, [], ◌∷◌, ◌⊎◌, none, Bytes, length, eq_bytes, eq_bytes→eq,
  eq_bytes_refl, arith, &&-true, All,
}
use go_service_template_rest.Base.Int.{ℤ, pos, negsuc, pos_part, ltb_ℤ, leb_ℤ, add64-pos}
use go_service_template_rest.Jetstream.{
  split, any_token, all_tokens, tokens_match, subject_matches, WorkerConfig, validate_worker_config,
  all_positive, resident_delivery_limit, max_retry_delays, header_limit_bytes, config_faults,
  first_fault,
}
use native.Mathlib.Nat.{le-div_iff_mul-le}

-- The wildcards of NATS: "*" stands for one token, and ">" at the end for one or more.
pub data Covers : List Bytes → List Bytes → Type 0 where
  end : Covers [] []
  rest : (s : Bytes) (subject : List Bytes) → Covers (all_tokens ∷ []) (s ∷ subject)
  one :
      (s : Bytes) (filter subject : List Bytes)
      → Covers filter subject
      → Covers (any_token ∷ filter) (s ∷ subject)
  same :
      (s : Bytes) (filter subject : List Bytes)
      → Covers filter subject
      → Covers (s ∷ filter) (s ∷ subject)

-- The filter without its last token, which is ">", covers the subject: no token is left for ">".
pub data CoversFront : List Bytes → List Bytes → Type 0 where
  rest : CoversFront (all_tokens ∷ []) []
  one :
      (s : Bytes) (filter subject : List Bytes)
      → CoversFront filter subject
      → CoversFront (any_token ∷ filter) (s ∷ subject)
  same :
      (s : Bytes) (filter subject : List Bytes)
      → CoversFront filter subject
      → CoversFront (s ∷ filter) (s ∷ subject)

-- No token but the last one is ">".
abbrev pub IsRestLast : List Bytes → Type 0
IsRestLast [] = Unit
IsRestLast (part ∷ []) = Unit
IsRestLast (part ∷ next ∷ filter) = (part ≢ all_tokens) × IsRestLast (next ∷ filter)

IsRestLast-tail :
    (part : Bytes) (filter : List Bytes) → IsRestLast (part ∷ filter) → IsRestLast filter
IsRestLast-tail part [] h = tt
IsRestLast-tail part (next ∷ filter) h = h.1

nothing_behind :
    (part : Bytes) (filter : List Bytes)
    → IsRestLast (part ∷ filter)
    → part ≡ all_tokens
    → filter ≡ []
nothing_behind part [] h e = refl
nothing_behind part (next ∷ filter) h e = absurd (h.0 e)

Matched : List Bytes → List Bytes → Type 0
Matched filter subject = Covers filter subject ⊎ CoversFront filter subject

Matched-one :
    (s : Bytes) (filter subject : List Bytes)
    → Matched filter subject
    → Matched (any_token ∷ filter) (s ∷ subject)
unfolding Matched
Matched-one s filter subject (inl c) = inl (Covers.one s filter subject c)
Matched-one s filter subject (inr c) = inr (CoversFront.one s filter subject c)

Matched-same :
    (s : Bytes) (filter subject : List Bytes)
    → Matched filter subject
    → Matched (s ∷ filter) (s ∷ subject)
unfolding Matched
Matched-same s filter subject (inl c) = inl (Covers.same s filter subject c)
Matched-same s filter subject (inr c) = inr (CoversFront.same s filter subject c)

rest-Covers :
    (part s : Bytes) (filter subject : List Bytes)
    → part ≡ all_tokens
    → filter ≡ []
    → Covers (part ∷ filter) (s ∷ subject)
rest-Covers part s filter subject p f =
    subst (λ l. Covers (part ∷ l) (s ∷ subject)) (sym f)
      (subst (λ q. Covers (q ∷ []) (s ∷ subject)) (sym p) (Covers.rest s subject))

rest-CoversFront :
    (part : Bytes) (filter : List Bytes)
    → part ≡ all_tokens
    → filter ≡ []
    → CoversFront (part ∷ filter) []
rest-CoversFront part filter p f =
    subst (λ l. CoversFront (part ∷ l) []) (sym f)
      (subst (λ q. CoversFront (q ∷ []) []) (sym p) CoversFront.rest)

tokens_match-Matched :
    (filter subject : List Bytes)
    → IsRestLast filter
    → tokens_match filter subject ≡ true
    → Matched filter subject
unfolding tokens_match Matched
tokens_match-Matched [] [] last h = inl Covers.end
tokens_match-Matched [] (s ∷ subject) last h = cc
tokens_match-Matched (part ∷ filter) [] last h =
    let p = eq_bytes→eq part all_tokens h in
    inr (rest-CoversFront part filter p (nothing_behind part filter last p))
tokens_match-Matched (part ∷ filter) (s ∷ subject) last h =
    elim (||-true (eq_bytes part all_tokens) _ h) [
      | inl e ↦
          let p = eq_bytes→eq part all_tokens e in
          inl (rest-Covers part s filter subject p (nothing_behind part filter last p))
      | inr both ↦
          let (token, more) =
            &&-true (eq_bytes part any_token || eq_bytes part s) (tokens_match filter subject)
              both in
          let matched =
            tokens_match-Matched filter subject (IsRestLast-tail part filter last) more in
          elim (||-true (eq_bytes part any_token) (eq_bytes part s) token) [
            | inl e ↦
                subst (λ p. Matched (p ∷ filter) (s ∷ subject)) (sym (eq_bytes→eq part any_token e))
                  (Matched-one s filter subject matched)
            | inr e ↦
                subst (λ p. Matched (p ∷ filter) (s ∷ subject)) (sym (eq_bytes→eq part s e))
                  (Matched-same s filter subject matched)
          ]
    ]

step-match :
    (part s : Bytes) (filter subject : List Bytes)
    → (eq_bytes part any_token || eq_bytes part s) ≡ true
    → tokens_match filter subject ≡ true
    → tokens_match (part ∷ filter) (s ∷ subject) ≡ true
unfolding tokens_match
step-match part s filter subject token more = ||-right (eq_bytes part all_tokens) _ (rw token more)

any-match :
    (s : Bytes) (filter subject : List Bytes)
    → tokens_match filter subject ≡ true
    → tokens_match (any_token ∷ filter) (s ∷ subject) ≡ true
any-match s filter subject more =
    step-match any_token s filter subject (rw (eq_bytes_refl any_token) refl) more

same-match :
    (s : Bytes) (filter subject : List Bytes)
    → tokens_match filter subject ≡ true
    → tokens_match (s ∷ filter) (s ∷ subject) ≡ true
same-match s filter subject more =
    step-match s s filter subject (||-right (eq_bytes s any_token) _ (eq_bytes_refl s)) more

Covers→tokens_match :
    {filter subject : List Bytes} → Covers filter subject → tokens_match filter subject ≡ true
unfolding tokens_match
Covers→tokens_match Covers.end = refl
Covers→tokens_match (Covers.rest s subject) = rw (eq_bytes_refl all_tokens) refl
Covers→tokens_match (Covers.one s filter subject c) =
    any-match s filter subject (Covers→tokens_match c)
Covers→tokens_match (Covers.same s filter subject c) =
    same-match s filter subject (Covers→tokens_match c)

CoversFront→tokens_match :
    {filter subject : List Bytes} → CoversFront filter subject → tokens_match filter subject ≡ true
unfolding tokens_match
CoversFront→tokens_match CoversFront.rest = eq_bytes_refl all_tokens
CoversFront→tokens_match (CoversFront.one s filter subject c) =
    any-match s filter subject (CoversFront→tokens_match c)
CoversFront→tokens_match (CoversFront.same s filter subject c) =
    same-match s filter subject (CoversFront→tokens_match c)

-- On a filter in which only the last token may be ">", `subjectMatches` says yes exactly where
-- NATS lets the filter cover the subject, and in one case more: where the filter ends in ">" and
-- the subject ends in front of it, so that ">" would stand for no token.
pub subject_matches-Covers :
    (filter subject : Bytes)
    → IsRestLast (split filter)
    → (subject_matches filter subject ≡ true)
      ↔ (Covers (split filter) (split subject) ⊎ CoversFront (split filter) (split subject))
unfolding subject_matches Matched
subject_matches-Covers filter subject last = (
  tokens_match-Matched (split filter) (split subject) last,
  λ m. elim m [ inl c ↦ Covers→tokens_match c | inr c ↦ CoversFront→tokens_match c ],
)

not-true : (b : Bool) → not b ≡ true → b ≡ false
not-true true h = cc
not-true false h = refl

not-false : (b : Bool) → not b ≡ false → b ≡ true
not-false true h = refl
not-false false h = cc

true-ne-false : {b : Bool} → b ≡ true → b ≢ false
true-ne-false {b} p q = cc

first_fault-none : (faults : List Bool) → first_fault faults ≡ none → All (λ b. b ≡ false) faults
unfolding first_fault
first_fault-none [] h = tt
first_fault-none (true ∷ faults) h = cc
first_fault-none (false ∷ faults) h = (refl, first_fault-none faults h)

-- What a valid configuration promises.
pub record IsValid (cfg : WorkerConfig) (max_payload_bytes : ℕ) : Type 0 where
  -- A dead-lettered message is no delivery to the worker itself.
  pub apart : ¬ (Covers (split cfg.filter_subject) (split cfg.dead_letter_subject))
  pub apart_front : ¬ (CoversFront (split cfg.filter_subject) (split cfg.dead_letter_subject))
  pub some_handler : 0 < pos_part cfg.max_concurrency
  pub envelope_fits : max_payload_bytes + header_limit_bytes ≤ pos_part cfg.max_delivery_bytes
  -- All handlers together hold at most the resident limit.
  pub resident :
      pos_part cfg.max_concurrency * pos_part cfg.max_delivery_bytes ≤ resident_delivery_limit
  pub some_delay : 1 ≤ length cfg.retry_delays
  pub few_delays : length cfg.retry_delays ≤ max_retry_delays
  pub delays_positive : All (λ delay. 0 < pos_part delay) cfg.retry_delays

positive_part : (z : ℤ) → leb_ℤ z (pos 0) ≡ false → 0 < pos_part z
positive_part (pos n) h = ground arith
positive_part (negsuc n) h = ground arith

all_positive-All :
    (delays : List ℤ) → all_positive delays ≡ true → All (λ delay. 0 < pos_part delay) delays
unfolding all_positive
all_positive-All [] h = tt
all_positive-All (delay ∷ delays) h =
    let (here, others) = &&-true (not (leb_ℤ delay (pos 0))) (all_positive delays) h in
    (positive_part delay (not-true _ here), all_positive-All delays others)

envelope_fits_lem : (z : ℤ) (n : ℕ) → ltb_ℤ z (pos n) ≡ false → n ≤ pos_part z
envelope_fits_lem (pos m) n h = ground arith
envelope_fits_lem (negsuc m) n h = ground arith

quotient_bound : (z : ℤ) (q : ℕ) → ltb_ℤ (pos q) z ≡ false → pos_part z ≤ q
quotient_bound (pos m) q h = ground arith
quotient_bound (negsuc m) q h = ground arith

-- A valid configuration keeps the dead-letter subject out of the filter, holds the envelope in the
-- delivery bound, keeps what all handlers hold together within the resident limit, and has one to
-- nine positive delays, where the payload bound leaves room in an int64.
pub validate_worker_config-IsValid :
    (cfg : WorkerConfig) (max_payload_bytes : ℕ)
    → max_payload_bytes + header_limit_bytes < 2 ^ 63
    → validate_worker_config cfg (pos max_payload_bytes) ≡ none
    → IsValid cfg max_payload_bytes
unfolding validate_worker_config config_faults subject_matches
validate_worker_config-IsValid cfg max_payload_bytes fits h =
    let (
      _,
      (
        _,
        (_, (apart, (concurrent, (positive, (envelope, (resident, (_, (number, (delays, _))))))))),
      ),
    ) =
      first_fault-none (config_faults cfg (pos max_payload_bytes)) h in
    record {
      apart = λ covers. true-ne-false (Covers→tokens_match covers) apart;
      apart_front = λ covers. true-ne-false (CoversFront→tokens_match covers) apart;
      some_handler = positive_part cfg.max_concurrency concurrent;
      envelope_fits = envelope_fits_lem cfg.max_delivery_bytes _ (
          sym (
            ap (ltb_ℤ cfg.max_delivery_bytes) (add64-pos max_payload_bytes header_limit_bytes fits))
          ∙ envelope);
      resident =
          (le-div_iff_mul-le (positive_part cfg.max_delivery_bytes positive)).0
            (quotient_bound cfg.max_concurrency _ resident);
      some_delay = ground arith;
      few_delays = ground arith;
      delays_positive = all_positive-All cfg.retry_delays (not-false _ delays);
    }
