-- ===== src/Webhook/Transport.antt =====
-- internal/infra/postgreswebhook/transport.go: the addresses of a receiver, and what sending to them
-- gives. What the resolver and net/http answer to an attempt is its environment.
pub mod Addresses
use go_service_template_rest.Base.{
  ℕ, zero, suc, ◌+◌, ◌*◌, ◌^◌, ◌≡◌, Bool, true, false, ◌||◌, ◌&&◌, not, List, [], ◌∷◌, ◌++◌, map,
  Option, none, some, Bytes, codes, if◌then◌else◌, ◌==◌, leb, ltb, length,
}
use go_service_template_rest.Base.Int.{ℤ}
use go_service_template_rest.Base.GoError.{
  Err, Errs, joined, nil, cons, Result, ok, err, ◌>>=◌, sentinel, errorf, wrapped, is,
}
use go_service_template_rest.Outbound.{Addr, v4, v6, unmap, public_address}
use go_service_template_rest.Grpc.Status.{context_canceled, context_deadline_exceeded}
use go_service_template_rest.Webhook.{
  DeliveryArgs, Library, Url, unless, validate_args, parse_webhook_url, err_config,
  err_destination_denied, destination_denied_id,
}
use go_service_template_rest.Webhook.Secrets.{Signing, SecretManifest, resolve_secret, sign_v1}
use go_service_template_rest.Webhook.Retry.{
  Job, Clockwork, parse_retry_after, remember_retry_after, delivery_expired, max_backoff,
}

-- `sendCertainty`, of which the zero value is never compared with.
pub data Certainty : Type 0 where
  unspecified definitely_not_sent may_have_sent : Certainty

-- `transportEvidence` and `sendResult`. The status code is 0 where there was no response.
pub record Evidence : Type 0 where
  pub status_code : ℕ
  pub certainty : Certainty
  pub local_permanent : Bool

pub record SendResult : Type 0 where
  pub evidence : Evidence
  pub retry_after : Bytes
  pub response_date : Bytes

-- What client.Do gives: a response, or an error with whether the request had been written, whether the
-- headers of the response were too long and whether the error is one of the validation of TLS.
pub data Trip : Type 0 where
  answered : ℕ → Bytes → Bytes → Trip
  failed : Err → Bool → Bool → Bool → Trip

pub record World : Type 0 where
  pub deadline : Option ℕ
  pub context_error : Option Err
  pub now : ℕ
  pub lookup : Bytes → Result (List Addr)
  pub request_error : Option Err
  pub trip : Addr → Trip
  pub set_metadata_error : Option Err

abbrev pub err_response_limit : Err
err_response_limit = sentinel 606

-- bytes.Compare of two unmapped addresses: an address of four bytes goes by its bytes, and in front of
-- one of sixteen with the same beginning.
unfoldable pub addr_le : Addr → Addr → Bool
addr_le (v4 m) (v4 n) = leb m n
addr_le (v4 m) (v6 n zone) = leb (m * 2 ^ 96) n
addr_le (v6 m zone) (v4 n) = ltb m (n * 2 ^ 96)
addr_le (v6 m zone) (v6 n other) = leb m n

unfoldable pub insert_addr : Addr → List Addr → List Addr
unfolding addr_le
insert_addr a [] = a ∷ []
insert_addr a (b ∷ rest) = if addr_le a b then a ∷ b ∷ rest else b ∷ insert_addr a rest

unfoldable pub sort_addrs : List Addr → List Addr
unfolding insert_addr
sort_addrs [] = []
sort_addrs (a ∷ rest) = insert_addr a (sort_addrs rest)

abbrev pub same_bool : Bool → Bool → Bool
same_bool true b = b
same_bool false b = not b

unfoldable pub same_addr : Addr → Addr → Bool
same_addr (v4 m) (v4 n) = m == n
same_addr (v4 m) (v6 n zone) = false
same_addr (v6 m zone) (v4 n) = false
same_addr (v6 m zone) (v6 n other) = m == n && same_bool zone other

-- slices.Compact: what differs from its left neighbour.
unfoldable pub compact_from : Addr → List Addr → List Addr
unfolding same_addr
compact_from a [] = []
compact_from a (b ∷ rest) =
    let others = compact_from b rest in if same_addr a b then others else b ∷ others

unfoldable pub compact : List Addr → List Addr
unfolding compact_from
compact [] = []
compact (a ∷ rest) = a ∷ compact_from a rest

unfoldable pub all_public : List Addr → Bool
unfolding public_address
all_public [] = true
all_public (a ∷ rest) = public_address (unmap a) && all_public rest

-- `admitDestinationAddresses`.
unfoldable pub admit_destination_addresses : List Addr → Result (List Addr)
unfolding all_public sort_addrs compact unmap
admit_destination_addresses addresses =
    if length addresses == 0 || ltb 64 (length addresses)
    then err (errorf err_destination_denied)
    else if not (all_public addresses)
    then err (errorf err_destination_denied)
    else ok (compact (sort_addrs (map unmap addresses)))

-- `attemptContextBounded`, of an attempt with a deadline.
unfoldable pub attempt_context_bounded : World → ℕ → Bool
attempt_context_bounded w deadline = elim w.deadline [ none ↦ false | some d ↦ leb d deadline ]

abbrev pub no_response : Certainty → Bool → SendResult
no_response certainty permanent = record {
  evidence = record { status_code = 0; certainty = certainty; local_permanent = permanent };
  retry_after = [];
  response_date = [];
}

-- `certaintyForWrite`.
unfoldable pub certainty_for_write : Bool → Certainty
certainty_for_write wrote = if wrote then may_have_sent else definitely_not_sent

abbrev pub Sent : Type 0
Sent = SendResult × Option Err

-- `sendWithTransport` behind `client.Do`.
unfoldable pub sent_with : Trip → Sent
unfolding certainty_for_write
sent_with (answered status retry_after date) = (
  record {
    evidence = record { status_code = status; certainty = may_have_sent; local_permanent = false };
    retry_after = retry_after;
    response_date = date;
  },
  none,
)
sent_with (failed e wrote too_long tls) = (
  no_response (certainty_for_write wrote) (not wrote && tls && not too_long),
  some (errorf (if too_long then err_response_limit else e)),
)

-- `send`.
unfoldable pub send : World → ℕ → Addr → Sent
unfolding attempt_context_bounded sent_with
send w deadline address =
    if not (attempt_context_bounded w deadline)
    then (no_response definitely_not_sent true, some (errorf err_config))
    else elim w.request_error [
      | some e ↦ (no_response definitely_not_sent true, some (errorf e))
      | none ↦ sent_with (w.trip address)
    ]

-- An error that left the request unsent for sure.
unfoldable pub falls_back : Sent → Bool
falls_back (result, none) = false
falls_back (result, some e) = elim result.evidence.certainty [
  | definitely_not_sent ↦ true
  | _ ↦ false
]

-- The loop of `tryPreparedAddresses`, with what it tried.
unfoldable pub try_from : (Addr → Sent) → Addr → List Addr → Sent × List Addr
unfolding falls_back
try_from send a [] = (send a, a ∷ [])
try_from send a (b ∷ rest) =
    let further = try_from send b rest in
    if falls_back (send a) then (further.0, a ∷ further.1) else (send a, a ∷ [])

unfoldable pub try_prepared_addresses : (Addr → Sent) → List Addr → Sent × List Addr
unfolding try_from
try_prepared_addresses send [] = ((no_response definitely_not_sent true, some err_config), [])
try_prepared_addresses send (a ∷ rest) = try_from send a rest
