-- ===== src/Webhook/Dispatcher.antt =====
-- internal/infra/postgreswebhook/dispatcher.go: the fan-out of an event, and how it is staged in a
-- transaction. The jobs of River are a parameter: what a table of jobs holds and how an insertion of
-- unique arguments changes it.
use go_service_template_rest.Base.{
  ℕ, suc, ◌≡◌, Bool, true, false, ◌||◌, ◌&&◌, not, List, [], ◌∷◌, Option, none, some, Bytes, codes,
  if◌then◌else◌, ◌==◌, ltb, length, eq_bytes,
}
use go_service_template_rest.Base.GoError.{Err, Result, ok, err, ◌>>=◌, errorf, errorf_two}
use go_service_template_rest.Webhook.{
  Event, Endpoint, DeliveryArgs, Library, unless, first_error, validate_token, validate_event,
  validate_args, fingerprint_fanout, derive_stable_id, derive_delivery_id, max_receivers,
  err_config, err_conflict,
}
use go_service_template_rest.Webhook.Manifest.{EndpointManifest, resolve}

-- slices.Sort of strings.
unfoldable pub leb_bytes : Bytes → Bytes → Bool
leb_bytes [] t = true
leb_bytes (c ∷ s) [] = false
leb_bytes (c ∷ s) (d ∷ t) = ltb c d || (c == d && leb_bytes s t)

unfoldable pub insert_sorted : Bytes → List Bytes → List Bytes
unfolding leb_bytes
insert_sorted r [] = r ∷ []
insert_sorted r (s ∷ rest) = if leb_bytes r s then r ∷ s ∷ rest else s ∷ insert_sorted r rest

unfoldable pub sort : List Bytes → List Bytes
unfolding insert_sorted
sort [] = []
sort (r ∷ receivers) = insert_sorted r (sort receivers)

abbrev pub is_last : Option Bytes → Bytes → Bool
is_last none r = false
is_last (some last) r = eq_bytes r last

-- The loop of `Prepare` over the sorted receivers, behind the one before.
unfoldable pub check_receivers : Option Bytes → List Bytes → Option Err
unfolding validate_token eq_bytes
check_receivers last [] = none
check_receivers last (r ∷ receivers) =
    first_error (validate_token r)
      (if is_last last r then some (errorf err_conflict) else check_receivers (some r) receivers)

unfoldable pub resolve_all : EndpointManifest → Bytes → List Bytes → Result (List Endpoint)
unfolding resolve
resolve_all manifest owner [] = ok []
resolve_all manifest owner (r ∷ receivers) =
    resolve manifest owner r >>= λ e. resolve_all manifest owner receivers >>= λ es. ok (e ∷ es)

abbrev pub or_anchor : Option Bytes → Bytes → Bytes
or_anchor none delivery_id = delivery_id
or_anchor (some anchor) delivery_id = anchor

abbrev pub count_fault : List Bytes → Option Err
count_fault receivers =
    if length receivers == 0 || ltb max_receivers (length receivers)
    then some (errorf err_config)
    else none

-- `matchesFanout`.
unfoldable pub matches_fanout : DeliveryArgs → DeliveryArgs → Bool
unfolding eq_bytes
matches_fanout got want =
    eq_bytes got.delivery_id want.delivery_id
    && eq_bytes got.fanout_fingerprint want.fanout_fingerprint

-- What an insertion answers: `UniqueSkippedAsDuplicate` with the job that is there, if it is at hand.
pub data Inserted : Type 0 where
  fresh : Inserted
  duplicate : Option Bytes → Inserted

-- River's table of jobs as far as the dispatcher relies on it. `stored` is the encoded arguments of
-- the job with an acceptance id, in any state; `encode` is json.Marshal of arguments.
pub record Jobs (Table : Type 0) : Type 0 where
  pub encode : DeliveryArgs → Bytes
  pub stored : Table → Bytes → Option Bytes
  pub insert_tx : Table → DeliveryArgs → Result (Table × Inserted)
  pub inserts :
      (t u : Table) (a : DeliveryArgs)
      → insert_tx t a ≡ ok (u, fresh)
      → (stored t a.acceptance_id ≡ none)
        × ((key : Bytes)
            → stored u key
              ≡ (if eq_bytes key a.acceptance_id then some (encode a) else stored t key))
  pub skips :
      (t u : Table) (a : DeliveryArgs) (job : Option Bytes)
      → insert_tx t a ≡ ok (u, duplicate job)
      → (u ≡ t) × (job ≡ stored t a.acceptance_id)

-- What readback of `ResolveCurrent` gives: rows, and a failure of the query, of a scan or of the end.
pub data Rows : Type 0 where
  row : Bytes → Rows → Rows
  fails : Err → Rows
  end : Rows

-- `found[id] = args`.
unfoldable pub found_put : DeliveryArgs → List DeliveryArgs → List DeliveryArgs
unfolding eq_bytes
found_put a [] = a ∷ []
found_put a (b ∷ found) =
    if eq_bytes b.delivery_id a.delivery_id then a ∷ found else b ∷ found_put a found

unfoldable pub found_get : Bytes → List DeliveryArgs → Option DeliveryArgs
unfolding eq_bytes
found_get id [] = none
found_get id (b ∷ found) = if eq_bytes b.delivery_id id then some b else found_get id found

unfoldable pub all_found : List DeliveryArgs → List DeliveryArgs → Bool
unfolding found_get matches_fanout
all_found found [] = true
all_found found (d ∷ deliveries) = elim (found_get d.delivery_id found) [
  | none ↦ false
  | some stored ↦ matches_fanout stored d && all_found found deliveries
]

module _ (lib : Library) where
  open lib use {encode_event, decode_args}

  abbrev pub delivery_args : Event → Bytes → Bytes → Option Bytes → Endpoint → DeliveryArgs
  delivery_args event body fingerprint anchor e =
      let id = derive_delivery_id lib event.owner_scope event.id e.receiver_id e.generation in
      record {
        acceptance_id = or_anchor anchor id;
        delivery_id = id;
        owner_scope = event.owner_scope;
        receiver_id = e.receiver_id;
        receiver_generation = e.generation;
        url = e.url;
        active_key_reference = e.active_key_reference;
        predecessor_key_reference = e.predecessor_key_reference;
        fanout_fingerprint = fingerprint;
        body = body;
      }

  abbrev pub wrap_fault : Option Err → Option Err
  wrap_fault none = none
  wrap_fault (some e) = some (errorf e)

  -- The loop of `Prepare` over the resolved endpoints: the first has the anchor of the event.
  unfoldable pub deliveries_of :
      Event → Bytes → Bytes → Option Bytes → List Endpoint → Result (List DeliveryArgs)
  unfolding derive_delivery_id validate_args
  deliveries_of event body fingerprint anchor [] = ok []
  deliveries_of event body fingerprint anchor (e ∷ es) =
      let args = delivery_args event body fingerprint anchor e in
      unless (wrap_fault (validate_args lib args))
        (deliveries_of event body fingerprint none es >>= λ rest. ok (args ∷ rest))

  unfoldable pub encoded_body : Event → Result Bytes
  encoded_body event = elim (encode_event event) [
    | err e ↦ err (errorf_two err_config e)
    | ok b ↦ ok b
  ]

  abbrev pub prepare_resolved : Event → Bytes → List Endpoint → Result (List DeliveryArgs)
  prepare_resolved event body resolved =
      deliveries_of event body (fingerprint_fanout lib event.owner_scope event.id body resolved)
        (some (derive_stable_id lib (codes "whe_") (event.owner_scope ∷ event.id ∷ []))) resolved

  unfoldable pub prepare_sorted : EndpointManifest → Event → List Bytes → Result (List DeliveryArgs)
  unfolding check_receivers encoded_body resolve_all fingerprint_fanout derive_stable_id
      deliveries_of
  prepare_sorted manifest event ordered = unless (check_receivers none ordered) (
      encoded_body event >>= λ body. resolve_all manifest event.owner_scope ordered >>= λ resolved.
      prepare_resolved event body resolved)

  -- `Dispatcher.Prepare`, without the client of the result; a dispatcher that is not there is `none`.
  unfoldable pub prepare : Option EndpointManifest → Event → List Bytes → Result (List DeliveryArgs)
  unfolding validate_event prepare_sorted sort
  prepare none event receivers = err (errorf err_config)
  prepare (some manifest) event receivers =
      unless (validate_event lib event)
        (unless (count_fault receivers) (prepare_sorted manifest event (sort receivers)))

  -- `encodedMatchesFanout`, on the job of a duplicate.
  unfoldable pub encoded_matches_fanout : Option Bytes → DeliveryArgs → Bool
  unfolding matches_fanout
  encoded_matches_fanout none want = false
  encoded_matches_fanout (some encoded) want = elim (decode_args encoded) [
    | none ↦ false
    | some got ↦ matches_fanout got want
  ]

  -- `ResolveCurrent` without the query: what is read back, by delivery id.
  unfoldable pub read_back : List DeliveryArgs → Rows → Result (List DeliveryArgs)
  unfolding found_put
  read_back found end = ok found
  read_back found (fails e) = err (errorf e)
  read_back found (row encoded rows) = elim (decode_args encoded) [
    | none ↦ err (errorf err_conflict)
    | some args ↦ read_back (found_put args found) rows
  ]

  abbrev pub resolved_as : List DeliveryArgs → List DeliveryArgs → Result Bool
  resolved_as deliveries found =
      if length found == 0
      then ok false
      else if not (length found == length deliveries)
      then err (errorf err_conflict)
      else if all_found found deliveries
      then ok true
      else err err_conflict

  unfoldable pub resolve_current : List DeliveryArgs → Rows → Result Bool
  unfolding read_back all_found
  resolve_current deliveries rows =
      if length deliveries == 0
      then err (errorf err_config)
      else (read_back [] rows >>= resolved_as deliveries)

  module _ {Table : Type 0} (jobs : Jobs Table) where
    open jobs use {insert_tx}

    abbrev pub counted_insert :
        DeliveryArgs
        → (Table → ℕ → ℕ → Result (Table × ℕ × ℕ))
        → ℕ
        → ℕ
        → Table × Inserted
        → Result (Table × ℕ × ℕ)
    counted_insert d continue added found (t, fresh) = continue t (suc added) found
    counted_insert d continue added found (t, duplicate job) =
        if encoded_matches_fanout job d then continue t added (suc found) else err err_conflict

    abbrev pub wrap_insert : Result (Table × Inserted) → Result (Table × Inserted)
    wrap_insert (err e) = err (errorf e)
    wrap_insert (ok r) = ok r

    -- The loop of `Stage`, with what was inserted and what was found so far.
    unfoldable pub stage_all : List DeliveryArgs → Table → ℕ → ℕ → Result (Table × ℕ × ℕ)
    unfolding encoded_matches_fanout
    stage_all [] t added found = ok (t, added, found)
    stage_all (d ∷ deliveries) t added found =
        wrap_insert (insert_tx t d) >>= counted_insert d (stage_all deliveries) added found

    abbrev pub staged : Table × ℕ × ℕ → Result (Table × Bool)
    staged (t, added, found) =
        if not (added == 0) && not (found == 0)
        then err (errorf err_conflict)
        else ok (t, not (added == 0))

    -- `Prepared.Stage`. Of a table that an error leaves behind the caller rolls back.
    unfoldable pub stage : List DeliveryArgs → Table → Result (Table × Bool)
    unfolding stage_all
    stage [] t = err (errorf err_config)
    stage (d ∷ deliveries) t = stage_all (d ∷ deliveries) t 0 0 >>= staged
