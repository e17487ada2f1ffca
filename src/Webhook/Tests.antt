-- ===== src/Webhook/Tests.antt =====
-- The theorems about outbound webhooks at concrete runs, with stand-ins for the digest, the encodings,
-- River and the network.
use go_service_template_rest.Base.{
  ℕ, ◌+◌, ◌*◌, ◌%◌, ◌^◌, ◌≤◌, ◌<◌, ◌/◌, ◌≡◌, ◌≢◌, refl, sym, ap, min, true, false, List, [], ◌∷◌,
  map, Option, none, some, Bytes, codes, if◌then◌else◌, eq_bytes, All, arith, ◌⊎◌, length,
}
use go_service_template_rest.Base.Int.{pos, wrap64}
use go_service_template_rest.Base.Decimal.{format_uint}
use go_service_template_rest.Base.GoError.{Result, ok, err, sentinel, errorf}
use go_service_template_rest.Base.Utf8.{utf8_from}
use go_service_template_rest.Outbound.{Addr, v4, quad}
use go_service_template_rest.Webhook.{
  Event, Endpoint, DeliveryArgs, Library, Url, valid_token, validate_args,
}
use go_service_template_rest.Webhook.Manifest.{EndpointManifest}
use go_service_template_rest.Webhook.Dispatcher.{Jobs, Inserted, fresh, duplicate, prepare, stage}
use go_service_template_rest.Webhook.Order.{prepare-perm}
use go_service_template_rest.Webhook.Staging.{StagedNew, FoundWhole, stage_whole}
use go_service_template_rest.Webhook.Identity.{
  IsListed, Collision, described, fingerprint_fanout_lem,
}
use go_service_template_rest.Webhook.Retry.{
  Job, Clockwork, second, max_elapsed, next_retry, stored_hint, retry_after_key, delivery_expired,
}
use go_service_template_rest.Webhook.Retry.Deadline.{next_retry_lem}
use go_service_template_rest.Webhook.Secrets.{Signing, SecretManifest, resolve_secret, sign_v1}
use go_service_template_rest.Webhook.Transport.{
  World, Trip, answered, failed, attempt_context_bounded, admit_destination_addresses,
  try_prepared_addresses, send,
}
use go_service_template_rest.Webhook.Delivery.{
  work, prepare_send, attempted, settled, classify_delivery,
}
use go_service_template_rest.Webhook.Delivery.Attempt.{IsSafe, work-IsSafe}
use mathlib.Core.List.{Permᴰ}

checksum : ℕ → Bytes → ℕ
checksum n [] = n
checksum n (c ∷ s) = checksum ((31 * n + c) % 2 ^ 61) s

abbrev https : Url
https = record {
  scheme = codes "https";
  has_user = false;
  hostname = codes "a.example";
  port = [];
  raw_query = [];
  force_query = false;
  fragment = [];
  path = codes "/in";
}

digest : Bytes → Bytes
unfolding checksum
digest b = format_uint (checksum 7 b)

abbrev blank : DeliveryArgs
blank = record {
  acceptance_id = [];
  delivery_id = [];
  owner_scope = [];
  receiver_id = [];
  receiver_generation = pos 0;
  url = [];
  active_key_reference = [];
  predecessor_key_reference = [];
  fanout_fingerprint = [];
  body = [];
}

abbrev lib : Library
lib = record {
  sha256_hex = digest;
  valid_json = λ b. true;
  encode_event = λ e. ok e.payload;
  decode_manifest = λ b. none;
  decode_args = λ b. some (record blank { delivery_id = b });
  parse_url = λ b. some https;
  url_string = λ u. u.path;
}

abbrev endpoint : Bytes → Endpoint
endpoint receiver = record {
  owner_scope = codes "acme";
  receiver_id = receiver;
  generation = pos 3;
  url = codes "https://a.example:443/in";
  active_key_reference = codes "k1";
  predecessor_key_reference = [];
}

abbrev manifest : EndpointManifest
manifest = endpoint (codes "left") ∷ endpoint (codes "right") ∷ []

abbrev event : Event
event = record {
  owner_scope = codes "acme";
  id = codes "e1";
  type = codes "order.paid";
  occurred_at = some 5;
  payload = codes "{}";
}

abbrev left_right : List Bytes
left_right = codes "left" ∷ codes "right" ∷ []

abbrev right_left : List Bytes
right_left = codes "right" ∷ codes "left" ∷ []

prepare-perm_example :
    prepare lib (some manifest) event right_left ≡ prepare lib (some manifest) event left_right
prepare-perm_example =
    prepare-perm lib (some manifest) event right_left left_right ∣ Permᴰ.swap refl refl ∣₁

abbrev count_of : Result (List DeliveryArgs) → ℕ
count_of (err e) = 0
count_of (ok ds) = length ds

prepared_two : count_of (prepare lib (some manifest) event right_left) ≡ 2
unfolding prepare valid_token utf8_from eq_bytes digest
prepared_two = refl

-- A table of jobs as a list.
abbrev Table : Type 0
Table = List (Bytes × Bytes)

abbrev job_of : Table → Bytes → Option Bytes
job_of [] key = none
job_of ((k, job) ∷ t) key = if eq_bytes key k then some job else job_of t key

abbrev added : Table → DeliveryArgs → Option Bytes → Result (Table × Inserted)
added t a none = ok ((a.acceptance_id, a.delivery_id) ∷ t, fresh)
added t a (some job) = ok (t, duplicate (some job))

added_fresh :
    (t u : Table) (a : DeliveryArgs) (o : Option Bytes)
    → added t a o ≡ ok (u, fresh)
    → (o ≡ none) × ((a.acceptance_id, a.delivery_id) ∷ t ≡ u)
added_fresh t u a none h = (refl, cc)
added_fresh t u a (some job) h = cc

added_duplicate :
    (t u : Table) (a : DeliveryArgs) (o job : Option Bytes)
    → added t a o ≡ ok (u, duplicate job)
    → (u ≡ t) × (job ≡ o)
added_duplicate t u a none job h = cc
added_duplicate t u a (some j) job h = (cc, cc)

table_inserts :
    (t u : Table) (a : DeliveryArgs)
    → added t a (job_of t a.acceptance_id) ≡ ok (u, fresh)
    → (job_of t a.acceptance_id ≡ none)
      × ((key : Bytes)
          → job_of u key
            ≡ (if eq_bytes key a.acceptance_id then some a.delivery_id else job_of t key))
table_inserts t u a h =
    let (absent, same) = added_fresh t u a (job_of t a.acceptance_id) h in
    (absent, λ key. ap (λ x. job_of x key) (sym same))

abbrev river : Jobs Table
river = record {
  encode = λ a. a.delivery_id;
  stored = job_of;
  insert_tx = λ t a. added t a (job_of t a.acceptance_id);
  inserts = table_inserts;
  skips = λ t u a job h. added_duplicate t u a (job_of t a.acceptance_id) job h;
}

abbrev delivery : Bytes → DeliveryArgs
delivery id = record blank { acceptance_id = id; delivery_id = id }

abbrev fanout : List DeliveryArgs
fanout = delivery (codes "d1") ∷ delivery (codes "d2") ∷ []

abbrev both_there : Table
both_there = (codes "d2", codes "d2") ∷ (codes "d1", codes "d1") ∷ []

staged_new : stage lib river fanout [] ≡ ok (both_there, true)
unfolding stage eq_bytes
staged_new = refl

stage_whole_example :
    ((true ≡ true) × StagedNew lib river fanout [] both_there)
    ⊎ ((true ≡ false) × FoundWhole lib river fanout [] both_there)
stage_whole_example = stage_whole lib river fanout [] both_there true staged_new

-- A part of a fan-out, one delivery of which is there already.
partly_there : stage lib river fanout ((codes "d1", codes "d1") ∷ []) ≡ err (errorf (sentinel 602))
unfolding stage eq_bytes
partly_there = refl

listed : (receiver : Bytes) → All (λ c. c ≢ 0) receiver → IsListed (endpoint receiver)
listed receiver h = record {
  number = 3;
  generation = refl;
  fits = omega arith;
  receiver = h;
  address = omega arith;
  active = omega arith;
  predecessor = tt;
}

acme_is_token : valid_token (codes "acme") ≡ true
unfolding valid_token
acme_is_token = refl

e1_is_token : valid_token (codes "e1") ≡ true
unfolding valid_token
e1_is_token = refl

abbrev left : List Endpoint
left = endpoint (codes "left") ∷ []

fingerprint_fanout_lem_example :
    ((codes "acme" ≡ codes "acme")
      × (codes "e1" ≡ codes "e1")
      × (codes "{}" ≡ codes "{}")
      × (map described left ≡ map described left))
    ⊎ Collision digest
fingerprint_fanout_lem_example =
    fingerprint_fanout_lem lib (codes "acme") (codes "e1") (codes "{}") (codes "acme") (codes "e1")
      (codes "{}") left left acme_is_token e1_is_token (omega arith) acme_is_token e1_is_token
      (omega arith) (listed (codes "left") (omega arith), tt)
      (listed (codes "left") (omega arith), tt) refl

abbrev clock : Clockwork
clock = record {
  digest_word = λ b. length b;
  parse_time = λ b. none;
  decode_metadata = λ b. ok ((retry_after_key, b) ∷ []);
  encode_metadata = λ m. ok [];
  decode_time = λ b. some (900 * second);
  encode_time = λ t. ok [];
}

abbrev job : Job
job = record {
  delivery_id = codes "d1";
  attempt = pos 2;
  created_at = some (100 * second);
  metadata = codes "x";
}

next_retry_lem_example :
    (100 * second + max_elapsed ≤ 200 * second
      → next_retry clock job (200 * second) ≡ 200 * second + second)
    × (200 * second < 100 * second + max_elapsed
        → (200 * second < next_retry clock job (200 * second))
          × (next_retry clock job (200 * second) ≤ 100 * second + max_elapsed)
          × (min (200 * second + 4 * second + second / 2) (100 * second + max_elapsed)
              ≤ next_retry clock job (200 * second))
          × ((hint : ℕ)
              → stored_hint clock job.metadata ≡ some hint
              → min hint (100 * second + max_elapsed) ≤ next_retry clock job (200 * second)))
next_retry_lem_example = next_retry_lem clock job (200 * second) (100 * second) refl

-- The hint of Retry-After is taken.
hinted : next_retry clock job (200 * second) ≡ 900 * second
unfolding next_retry eq_bytes wrap64
hinted = refl

-- Without one, the second attempt waits for ten seconds, less nine per cent of jitter.
abbrev unhinted : Clockwork
unhinted = record clock { decode_time = λ b. none }

jittered : next_retry unhinted job (200 * second) ≡ 209 * second + 100_000_000
unfolding next_retry eq_bytes wrap64
jittered = refl

abbrev signing : Signing
signing = record {
  sha256 = digest;
  decode_base64 = λ b. some b;
  decode_secrets = λ b. none;
  sign = λ key id t body. some (codes "v1,sig");
}

abbrev key : Bytes
key = codes "0123456789abcdef0123456789abcdef"

abbrev secrets : SecretManifest
secrets =
    record {
      owner_scope = codes "acme";
      receiver_id = codes "left";
      key_reference = codes "k1";
      secret = key;
    }
    ∷ []

-- The first of two addresses cannot be reached, the second answers.
abbrev first_fails : Addr → Trip
first_fails (v4 n) =
    if eq_bytes (n ∷ []) (quad 1 1 1 1 ∷ [])
    then failed (sentinel 900) false false false
    else answered 204 [] []
first_fails _ = answered 500 [] []

abbrev world : World
world = record {
  deadline = some (230 * second);
  context_error = none;
  now = 200 * second;
  lookup = λ host. ok (v4 (quad 8 8 8 8) ∷ v4 (quad 1 1 1 1) ∷ []);
  request_error = none;
  trip = first_fails;
  set_metadata_error = none;
}

abbrev args : DeliveryArgs
args = record {
  acceptance_id = codes "d1";
  delivery_id = codes "d1";
  owner_scope = codes "acme";
  receiver_id = codes "left";
  receiver_generation = pos 3;
  url = codes "https://a.example:443/in";
  active_key_reference = codes "k1";
  predecessor_key_reference = [];
  fanout_fingerprint = codes "f";
  body = codes "{}";
}

work-IsSafe_example : IsSafe lib world args (work lib signing clock secrets world args job)
work-IsSafe_example = work-IsSafe lib signing clock secrets world args job

-- Both addresses are tried, the lower one first, and the answer of the second ends the job.
delivered : (work lib signing clock secrets world args job).answer ≡ none
unfolding work prepare_send attempted settled validate_args delivery_expired attempt_context_bounded
    admit_destination_addresses resolve_secret sign_v1 try_prepared_addresses send classify_delivery
    eq_bytes utf8_from
delivered = refl

both_tried :
    (work lib signing clock secrets world args job).tried
    ≡ v4 (quad 1 1 1 1) ∷ v4 (quad 8 8 8 8) ∷ []
unfolding work prepare_send attempted settled validate_args delivery_expired attempt_context_bounded
    admit_destination_addresses resolve_secret sign_v1 try_prepared_addresses send classify_delivery
    eq_bytes utf8_from
both_tried = refl
