-- ===== src/Grpc/Status/Owned.antt =====
-- What a caller of a business method may read of an error.
use go_service_template_rest.Base.{
  ℕ, ◌≡◌, ◌⊎◌, inl, inr, refl, subst, Bool, true, false, List, [], Option, none, some, Bytes, codes,
  if◌then◌else◌, Bool-cases, arith,
}
use go_service_template_rest.Base.GoError.{
  Err, Errs, leaf, wrapped, joined, op_error, permanent, status, nil, cons, is, GrpcStatus,
  StatusDetail,
}
use go_service_template_rest.Failure.{
  Classification, Mapper, classify, contains, all_codes, sanitized_detail,
}
use go_service_template_rest.Failure.Chain.{trim_space, class_chain}
use go_service_template_rest.Failure.Laws.{FirstAnswer, classify_lem}
use go_service_template_rest.Grpc.{
  is_health_method, canceled, deadline_exceeded, unimplemented, internal, owned_status,
}
use go_service_template_rest.Grpc.Status.{
  map_context_error, context_canceled, context_deadline_exceeded, or_owned, find_owned,
  find_owned_any, direct_status, is_unimplemented, method_domain, grpc_code, classified_details,
  or_sanitized, mapped_status, classified_or_sanitized, map_handler_error_rest, or_else, as_err,
  map_handler_error, record_if, handler_error_boundary,
}

-- The error has the repository's own status in its tree.
mutual
  pub data Owns (s : GrpcStatus) : Err → Type 0 where
    itself : Owns s (status true s)
    in_wrapped : {ty : Bytes} {e : Err} → Owns s e → Owns s (wrapped ty e)
    in_joined : {ty : Bytes} {es : Errs} → OwnsAny s es → Owns s (joined ty es)
    in_op_error : {name : Bytes} {e : Err} → Owns s e → Owns s (op_error name e)
    in_permanent : {e : Err} → Owns s e → Owns s (permanent e)

  pub data OwnsAny (s : GrpcStatus) : Errs → Type 0 where
    first : {e : Err} {es : Errs} → Owns s e → OwnsAny s (cons e es)
    later : {e : Err} {es : Errs} → OwnsAny s es → OwnsAny s (cons e es)

or_owned-cases :
    (a b : Option GrpcStatus) (s : GrpcStatus) → or_owned a b ≡ some s → (a ≡ some s) ⊎ (b ≡ some s)
or_owned-cases none b s h = inr h
or_owned-cases (some t) b s h = inl h

mutual
  unfolding find_owned

  find_owned-Owns : (e : Err) (s : GrpcStatus) → find_owned e ≡ some s → Owns s e
  find_owned-Owns (leaf ty i) s h = cc
  find_owned-Owns (wrapped ty e) s h = in_wrapped (find_owned-Owns e s h)
  find_owned-Owns (joined ty es) s h = in_joined (find_owned_any-OwnsAny es s h)
  find_owned-Owns (op_error name e) s h = in_op_error (find_owned-Owns e s h)
  find_owned-Owns (permanent e) s h = in_permanent (find_owned-Owns e s h)
  find_owned-Owns (status true t) s h =
      let e : s ≡ t = cc in subst (λ r. Owns s (status true r)) e itself
  find_owned-Owns (status false t) s h = cc

  find_owned_any-OwnsAny : (es : Errs) (s : GrpcStatus) → find_owned_any es ≡ some s → OwnsAny s es
  find_owned_any-OwnsAny nil s h = cc
  find_owned_any-OwnsAny (cons e es) s h =
      elim (or_owned-cases (find_owned e) (find_owned_any es) s h) [
        | inl here ↦ first (find_owned-Owns e s here)
        | inr there ↦ later (find_owned_any-OwnsAny es s there)
      ]

-- The fixed answers.
abbrev pub plain : ℕ → Bytes → GrpcStatus
plain code detail = record { code = code; message = detail; details = [] }

-- What the status of an answer may be: the text of a context's end, a status of the repository from
-- the error, a fixed one, or the first answer of the mappers, translated.
pub data Vouched (err : Err) (mappers : List (Option Mapper)) : GrpcStatus → Bool → Type 0 where
  by_context :
      is err context_canceled ≡ true
      → Vouched err mappers (plain canceled (codes "request canceled")) false
  by_deadline :
      is err context_deadline_exceeded ≡ true
      → Vouched err mappers (plain deadline_exceeded (codes "request deadline exceeded")) false
  by_owner : (s : GrpcStatus) → Owns s err → Vouched err mappers s false
  by_stub :
      (s : GrpcStatus) (owned : Bool)
      → err ≡ status owned s
      → s.code ≡ unimplemented
      → Vouched err mappers (plain unimplemented (codes "method not implemented")) false
  by_mapper :
      (c : Classification) (domain : Bytes) (details : List StatusDetail)
      → FirstAnswer err mappers c
      → contains all_codes c.code ≡ true
      → (details ≡ classified_details c domain) ⊎ (details ≡ [])
      → Vouched err mappers
          (record {
            code = grpc_code c.code;
            message = or_sanitized (trim_space c.detail);
            details = details;
          })
          false
  by_nobody :
      classify err mappers ≡ none → Vouched err mappers (plain internal sanitized_detail) true

-- A direct status with the code of a method that is not implemented.
direct-unimplemented :
    (e : Err)
    → is_unimplemented (direct_status e) ≡ true
    → (s : GrpcStatus) × (owned : Bool) × (e ≡ status owned s) × (s.code ≡ unimplemented)
unfolding direct_status is_unimplemented
direct-unimplemented (leaf ty i) h = cc
direct-unimplemented (status owned s) h = (s, owned, refl, ground arith)
direct-unimplemented _ h = cc

module _ (err : Err) (mappers : List (Option Mapper)) where
  abbrev Decided : Option Err × Bool → Type 0
  Decided o =
      (s : GrpcStatus) × (sanitized : Bool) × (o ≡ (some (status true s), sanitized))
      × Vouched err mappers s sanitized

  or_else-Decided :
      (o : Option Err) (other : Option Err × Bool)
      → ((e : Err) → o ≡ some e → Decided (some e, false))
      → Decided other
      → Decided (or_else o other)
  or_else-Decided none other f h = h
  or_else-Decided (some e) other f h = f e refl

  context-Decided :
      (canceled_is deadline_is : Bool) (e : Err)
      → is err context_canceled ≡ canceled_is
      → is err context_deadline_exceeded ≡ deadline_is
      → (if canceled_is
          then some (owned_status canceled (codes "request canceled"))
          else if deadline_is
          then some (owned_status deadline_exceeded (codes "request deadline exceeded"))
          else none)
        ≡ some e
      → Decided (some e, false)
  context-Decided true d e p q h = subst (λ x. Decided (x, false)) h (_, false, refl, by_context p)
  context-Decided false true e p q h =
      subst (λ x. Decided (x, false)) h (_, false, refl, by_deadline q)
  context-Decided false false e p q h = cc

  owner-Decided :
      (o : Option GrpcStatus) (e : Err)
      → ((s : GrpcStatus) → o ≡ some s → Owns s err)
      → as_err o ≡ some e
      → Decided (some e, false)
  owner-Decided none e f h = cc
  owner-Decided (some s) e f h =
      subst (λ x. Decided (x, false)) h (s, false, refl, by_owner s (f s refl))

  details-cases :
      (b : Bool) (details : List StatusDetail)
      → ((if b then details else []) ≡ details) ⊎ ((if b then details else []) ≡ [])
  details-cases true details = inl refl
  details-cases false details = inr refl

  module _ (attaches : ℕ → List StatusDetail → Bool) where
    classified-Decided :
        (o : Option Classification) (domain : Bytes)
        → classify err mappers ≡ o
        → Decided (classified_or_sanitized attaches o domain)
    unfolding classified_or_sanitized mapped_status
    classified-Decided none domain h = (_, true, refl, by_nobody h)
    classified-Decided (some c) domain h =
        let (answer, published) = (classify_lem err mappers c).0 h in
        (
          _,
          false,
          refl,
          by_mapper c domain _ answer published (details-cases _ (classified_details c domain)),
        )

    rest-Decided : (domain : Bytes) → Decided (map_handler_error_rest attaches err mappers domain)
    unfolding map_handler_error_rest
    rest-Decided domain = elim (Bool-cases (is_unimplemented (direct_status err))) [
      | inl e ↦
          let (s, owned, same, code) = direct-unimplemented err e in
          rw e (_, false, refl, by_stub s owned same code)
      | inr e ↦ rw e (classified-Decided (classify err mappers) domain refl)
    ]

    handler-Decided :
        (domain : Bytes) → Decided (map_handler_error attaches (some err) mappers domain)
    unfolding map_handler_error map_context_error
    handler-Decided domain =
        or_else-Decided (map_context_error err) _
          (λ e h.
            context-Decided (is err context_canceled) (is err context_deadline_exceeded) e refl refl
              h)
          (or_else-Decided (as_err (find_owned err)) _
            (λ e h. owner-Decided (find_owned err) e (λ s. find_owned-Owns err s) h)
            (rest-Decided domain))

    -- For a method that is not of the health service, the caller of a handler that failed gets an
    -- error of the repository's own, whose status is one of these: the end of a context that the error
    -- is, a status of the repository that it wraps, the answer to a method that is not implemented, the
    -- first answer of the mappers with a published code, or "request failed". The chain of the error is
    -- logged in the last case and in no other.
    pub handler_error_boundary-Vouched :
        (full_method : Bytes)
        → is_health_method full_method ≡ false
        → (s : GrpcStatus) × (sanitized : Bool) × ((handler_error_boundary attaches full_method
              mappers
              (some err)).0
            ≡ some (status true s))
          × ((handler_error_boundary attaches full_method mappers (some err)).1
              ≡ (if sanitized then some (class_chain (some err)) else none))
          × Vouched err mappers s sanitized
    unfolding handler_error_boundary record_if
    handler_error_boundary-Vouched full_method h =
        let (s, sanitized, answer, vouched) = handler-Decided (method_domain full_method) in
        (s, sanitized, rw (h, answer) refl, rw (h, answer) refl, vouched)
