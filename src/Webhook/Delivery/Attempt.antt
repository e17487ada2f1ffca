-- ===== src/Webhook/Delivery/Attempt.antt =====
-- Where an attempt sends the delivery, and what a success stands for.
use go_service_template_rest.Base.{
  ℕ, ◌+◌, ◌≤◌, ◌≡◌, refl, sym, ap, ◌∙◌, subst, Bool, true, false, List, [], ◌∷◌, Option, none, some,
  Bytes, Bool-cases, Option-cases, inl, inr, arith, All,
}
use go_service_template_rest.Base.GoError.{Err, Result, ok, err, >>=-ok}
use go_service_template_rest.Outbound.{Addr}
use go_service_template_rest.Outbound.Public.{Reachable}
use go_service_template_rest.Webhook.{
  DeliveryArgs, Library, Url, validate_args, parse_webhook_url, err_config,
}
use go_service_template_rest.Webhook.Secrets.{Signing, SecretManifest, resolve_secret, sign_v1}
use go_service_template_rest.Webhook.Retry.{
  Job, Clockwork, parse_retry_after, remember_retry_after, delivery_expired, max_backoff,
}
use go_service_template_rest.Webhook.Transport.{
  World, Trip, answered, failed, SendResult, definitely_not_sent, admit_destination_addresses,
  attempt_context_bounded, sent_with, send, falls_back, try_prepared_addresses, no_response,
}
use go_service_template_rest.Webhook.Transport.Addresses.{
  AllButLast, last_of, From, Unsent, try_from_lem, admitted-Reachable,
}
use go_service_template_rest.Webhook.Delivery.{
  classify_delivery, retryable_webhook_status, Outcome, settled, attempted, prepare_send,
  predecessor_key, work, gave_up, cancel_job, remembered, prepare_failure, wrap_lookup,
}

-- A trip that is followed by another one, and one that ends the delivery.
unsent_trip :
    (t : Trip)
    → falls_back (sent_with t) ≡ true
    → (e : Err) × (too_long : Bool) × (tls : Bool) × (t ≡ failed e false too_long tls)
unfolding falls_back sent_with
unsent_trip (answered status retry_after date) h = cc
unsent_trip (failed e true too_long tls) h = cc
unsent_trip (failed e false too_long tls) h = (e, too_long, tls, refl)

success_trip :
    (t : Trip)
    → classify_delivery (sent_with t).0 (sent_with t).1 ≡ none
    → (status : ℕ) × (retry_after : Bytes) × (date : Bytes) × (t ≡ answered status retry_after date)
      × (200 ≤ status)
      × (status ≤ 299)
unfolding sent_with classify_delivery retryable_webhook_status
success_trip (answered status retry_after date) h =
    (status, retry_after, date, refl, ground arith, ground arith)
success_trip (failed e wrote too_long tls) h = absurd (ground arith)

module _ (w : World) (deadline : ℕ) (bounded : attempt_context_bounded w deadline ≡ true) where
  -- A fall back to the next address comes only after a request that was not sent.
  fell_back-Unsent : (a : Addr) → falls_back (send w deadline a) ≡ true → Unsent w a
  unfolding send
  fell_back-Unsent a h = elim (Option-cases w.request_error) [
    | inl e ↦ inr (unsent_trip (w.trip a) (rw (bounded, e) at h))
    | inr (e, same) ↦ inl (e, same)
  ]

  -- An answer of nil is a response with a status of success.
  success :
      (a : Addr)
      → classify_delivery (send w deadline a).0 (send w deadline a).1 ≡ none
      → (status : ℕ) × (retry_after : Bytes) × (date : Bytes) × (w.trip a
          ≡ answered status retry_after date)
        × (200 ≤ status)
        × (status ≤ 299)
  unfolding send classify_delivery
  success a h = elim (Option-cases w.request_error) [
    | inl e ↦ success_trip (w.trip a) (rw (bounded, e) at h)
    | inr (e, same) ↦ let broken = rw (bounded, same) at h in cc broken
  ]

found-lookup :
    (looked : Result (List Addr)) (found : List Addr)
    → wrap_lookup looked ≡ ok found
    → looked ≡ ok found
unfolding wrap_lookup
found-lookup (ok addresses) found h = h
found-lookup (err e) found h = cc

All-map : (P Q : Addr → Type 0) (l : List Addr) → ((a : Addr) → P a → Q a) → All P l → All Q l
All-map P Q [] f h = tt
All-map P Q (a ∷ l) f (first, rest) = (f a first, All-map P Q l f rest)

AllButLast-map :
    (P Q : Addr → Type 0) (l : List Addr)
    → ((a : Addr) → P a → Q a)
    → AllButLast P l
    → AllButLast Q l
AllButLast-map P Q [] f h = tt
AllButLast-map P Q (a ∷ []) f h = tt
AllButLast-map P Q (a ∷ b ∷ rest) f (first, others) =
    (f a first, AllButLast-map P Q (b ∷ rest) f others)

-- The last address answered with a status of success.
abbrev pub Accepted : World → List Addr → Type 0
Accepted w tried =
    (a : Addr) × (status : ℕ) × (retry_after : Bytes) × (date : Bytes) × (last_of tried ≡ some a)
    × (w.trip a ≡ answered status retry_after date)
    × (200 ≤ status)
    × (status ≤ 299)

-- A public address that the resolver gave for the host of the delivery's URL.
abbrev pub Destination : Library → World → DeliveryArgs → Addr → Type 0
Destination lib w args a =
    Reachable a
    × ((url : Url) × (found : List Addr) × (parse_webhook_url lib args.url ≡ ok url)
        × (w.lookup url.hostname ≡ ok found)
        × From found a)

abbrev pub IsSafe : Library → World → DeliveryArgs → Outcome → Type 0
IsSafe lib w args o =
    All (Destination lib w args) o.tried
    × AllButLast (Unsent w) o.tried
    × (o.answer ≡ none → Accepted w o.tried)

gave_up-IsSafe :
    (lib : Library) (w : World) (args : DeliveryArgs) (job : Job) (e : Err)
    → IsSafe lib w args (gave_up job e)
gave_up-IsSafe lib w args job e = (tt, tt, λ h. cc)

tried-IsSafe :
    (P : Addr → Type 0) (w : World) (deadline : ℕ) (addresses : List Addr)
    → attempt_context_bounded w deadline ≡ true
    → All P addresses
    → let run = try_prepared_addresses (send w deadline) addresses in
      All P run.1
      × AllButLast (Unsent w) run.1
      × (classify_delivery run.0.0 run.0.1 ≡ none → Accepted w run.1)
unfolding try_prepared_addresses
tried-IsSafe P w deadline [] bounded h = (tt, tt, λ e. absurd (no_success e))
  where
    no_success :
        classify_delivery (no_response definitely_not_sent true) (some err_config) ≡ none → ⊥
    no_success e = unfold classify_delivery in cc e
tried-IsSafe P w deadline (a ∷ rest) bounded h =
    let (all, order, end) = try_from_lem P (send w deadline) a rest h in
    let (last, is_last, same) = end in
    (
      all,
      AllButLast-map _ (Unsent w) _ (fell_back-Unsent w deadline bounded) order,
      λ e.
          let done : classify_delivery (send w deadline last).0 (send w deadline last).1 ≡ none =
            ap (λ r. classify_delivery r.0 r.1) (sym same) ∙ e in
          let (status, retry_after, date, trip, low, high) = success w deadline bounded last done in
          (last, status, retry_after, date, is_last, trip, low, high),
    )

at_deadline :
    (w : World) (deadline : ℕ)
    → w.deadline ≡ some deadline
    → attempt_context_bounded w deadline ≡ true
unfolding attempt_context_bounded
at_deadline w deadline d = rw d (ground arith)

module _ (lib : Library) (signing : Signing) (clock : Clockwork) (secrets : SecretManifest) where
  remembered_lem :
      (result : SendResult) (e : Option Err) (tried : List Addr) (job : Job) (r : Result Job)
      → ((remembered result e tried job r).tried ≡ tried)
        × ((remembered result e tried job r).answer ≡ none → classify_delivery result e ≡ none)
  remembered_lem result e tried job (ok changed) = (refl, λ h. h)
  remembered_lem result e tried job (err problem) = (refl, λ h. cc)

  settled_lem :
      (w : World) (job : Job) (result : SendResult) (e : Option Err) (tried : List Addr)
      → let o = settled lib signing clock secrets w job ((result, e), tried) in
        (o.tried ≡ tried) × (o.answer ≡ none → classify_delivery result e ≡ none)
  unfolding settled
  settled_lem w job result e tried =
      elim (Bool-cases (retryable_webhook_status result.evidence.status_code)) [
        | inl r ↦
            elim (Option-cases
              (parse_retry_after clock result.retry_after result.response_date w.now max_backoff)) [
                | inl p ↦ rw (r, p) (refl, λ h. h)
                | inr (hint, p) ↦
                    rw (r, p)
                      (remembered_lem result e tried job
                        (remember_retry_after clock w.set_metadata_error job (w.now + hint)))
              ]
        | inr r ↦ rw r (refl, λ h. h)
      ]

  prepared-Reachable :
      (w : World) (args : DeliveryArgs) (deadline : ℕ) (addresses : List Addr) (signature : Bytes)
      → prepare_send lib signing clock secrets w args deadline ≡ ok (addresses, signature)
      → All (Destination lib w args) addresses
  unfolding prepare_send
  prepared-Reachable w args deadline addresses signature h =
      elim (Bool-cases (attempt_context_bounded w deadline)) [
        | inl b ↦
            let (url, parsed, with_url) = >>=-ok (parse_webhook_url lib args.url) _ (rw b at h) in
            let (found, looked_up, with_found) =
              >>=-ok (wrap_lookup (w.lookup url.hostname)) _ with_url in
            let (admitted, e, with_admitted) =
              >>=-ok (admit_destination_addresses found) _ with_found in
            let (active, _, with_active) =
              >>=-ok
                (resolve_secret secrets args.owner_scope args.receiver_id args.active_key_reference)
                _ with_admitted in
            let (predecessor, _, with_predecessor) =
              >>=-ok (predecessor_key lib signing clock secrets args args.predecessor_key_reference)
                _ with_active in
            let (s, _, last) =
              >>=-ok (sign_v1 signing args.delivery_id w.now args.body active predecessor) _
                with_predecessor in
            let same : admitted ≡ addresses = cc in
            subst (All (Destination lib w args)) same (
              All-map _ (Destination lib w args) admitted
                (λ a (reachable, from). (
                  reachable,
                  (url, found, parsed, found-lookup (w.lookup url.hostname) found looked_up, from),
                ))
                (admitted-Reachable found admitted e))
        | inr b ↦ let broken = rw b at h in cc broken
      ]

  attempted-IsSafe :
      (w : World) (job : Job) (deadline : ℕ) (args : DeliveryArgs) (r : Result (List Addr × Bytes))
      → attempt_context_bounded w deadline ≡ true
      → prepare_send lib signing clock secrets w args deadline ≡ r
      → IsSafe lib w args (attempted lib signing clock secrets w job deadline r)
  unfolding attempted
  attempted-IsSafe w job deadline args (err e) bounded same =
      gave_up-IsSafe lib w args job (prepare_failure w.context_error e)
  attempted-IsSafe w job deadline args (ok (addresses, signature)) bounded same =
      let run = try_prepared_addresses (send w deadline) addresses in
      let (all, order, accepted) =
        tried-IsSafe (Destination lib w args) w deadline addresses bounded
          (prepared-Reachable w args deadline addresses signature same) in
      let (tried, answer) = settled_lem w job run.0.0 run.0.1 run.1 in
      (
        subst (All (Destination lib w args)) (sym tried) all,
        subst (AllButLast (Unsent w)) (sym tried) order,
        λ h. subst (Accepted w) (sym tried) (accepted (answer h)),
      )

  -- Whatever the resolver and the network do in an attempt: the delivery is sent to no address
  -- but those that the resolver gave for the host of its URL and that are public, being outside
  -- the ranges that `IsRouted` and `IsAllocated` list; a further address is tried only after a
  -- request that was not sent, so that at most one receiver may have got it, at the last address;
  -- and the job is done only if that address answered with a status of 200 to 299.
  pub work-IsSafe :
      (w : World) (args : DeliveryArgs) (job : Job)
      → IsSafe lib w args (work lib signing clock secrets w args job)
  unfolding work
  work-IsSafe w args job = elim (Option-cases (validate_args lib args)) [
    | inr (e, v) ↦ rw (v, work) (gave_up-IsSafe lib w args job cancel_job)
    | inl v ↦ elim (Option-cases w.deadline) [
      | inl d ↦ rw (v, d, work) (gave_up-IsSafe lib w args job cancel_job)
      | inr (deadline, d) ↦ elim (Bool-cases (delivery_expired job w.now)) [
        | inl x ↦ rw (v, d, x, work) (gave_up-IsSafe lib w args job cancel_job)
        | inr x ↦
            rw (v, d, x, work)
              (attempted-IsSafe w job deadline args _ (at_deadline w deadline d) refl)
      ]
    ]
  ]
