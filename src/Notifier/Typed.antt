-- ===== src/Notifier/Typed.antt =====
-- What the webhook is told about a transaction of each kind, from the plan of the publisher to the
-- response of the notifier.
use account_service.Common.{
  ℕ, ◌≡◌, refl, ap, ◌∙◌, sym, String, true, Option, none, some, List, [], ◌∷◌, arith, subst,
  string_eq,
}
use account_service.Js.{Outcome, resolved}
use account_service.Redis.{Keyspace}
use account_service.Redis.WatchList.{WatchList}
use account_service.Scheduler.{Scheduler}
use account_service.Types.{
  TransactionType, change_handle, create_handle, siwf_signup, siwf_signin, add_key, TransactionData,
  publish_handle_opts, siwf_opts, publish_keys_opts, TxWebhookRsp, TxWebhookOpts, type_of,
  EventName, PublishRequest, create_handle_request, change_handle_request, siwf_signup_request,
  add_key_request, invalid,
}
use account_service.Chain.{
  Event, EventRecord, msa_created, handle_claimed, capacity_withdrawn, extrinsic_failed,
  msa_created, delegation_granted, public_key_added, other_event, SiwfTxnValues, siwf_event,
  siwf_events, handle_siwf_txn_result, handle_publish_handle_tx_result,
  handle_publish_key_tx_result, decode_handle, name_of,
}
use account_service.Notifier.Report.{Reporter, webhook_response, has_name}
use account_service.Publisher.{status_of}
use account_service.Publisher.Planning.{Plan, Builder, plan, plan_request, plan-plan_request}

-- polkadot decodes the two events that the service waits for: none of the others has their names.
abbrev pub IsDecoded : Event → Type 0
IsDecoded (other_event name) =
    (name.section ≡ "handles" → name.method ≡ "HandleClaimed" → ⊥)
    × (name.section ≡ "msa" → name.method ≡ "PublicKeyAdded" → ⊥)
IsDecoded event = Unit

-- What the last event of its kind says, and `start` without one.
abbrev pub latest : (Event → Option String) → List EventRecord → Option String → Option String
latest says [] start = start
latest says (r ∷ own) start =
    latest says own (elim (says r.event) [ some x ↦ some x | none ↦ start ])

abbrev pub created_msa_id : Event → Option String
created_msa_id event = elim event [ msa_created id key ↦ some id | _ ↦ none ]

abbrev pub created_for : Event → Option String
created_for event = elim event [ msa_created id key ↦ some key | _ ↦ none ]

abbrev pub claimed_handle : (String → String) → Event → Option String
claimed_handle utf8_of_hex event = elim event [
  | handle_claimed id handle ↦ some (decode_handle utf8_of_hex handle)
  | _ ↦ none
]

abbrev with_options : TransactionType → String → String → String → TxWebhookOpts → TxWebhookRsp
with_options type provider_id reference_id msa_id options = record {
  transaction_type = some type;
  provider_id = some provider_id;
  reference_id = reference_id;
  msa_id = some msa_id;
  options = some options;
}

-- The response of a kind, with all that its type in transaction.request.dto.ts promises: for a handle or
-- a key from the event of its own, for a sign-up from the last events that create an MSA and claim a
-- handle. What no event says stays undefined there.
abbrev pub IsResponse :
    (String → String)
    → TransactionType
    → String
    → String
    → List EventRecord
    → Event
    → TxWebhookRsp
    → Type 0
IsResponse utf8_of_hex create_handle provider_id reference_id own event response =
    (msa_id : String) × (handle : String) × (event ≡ handle_claimed msa_id handle)
    × (response
        ≡ with_options create_handle provider_id reference_id msa_id
            (publish_handle_opts (some (decode_handle utf8_of_hex handle))))
IsResponse utf8_of_hex change_handle provider_id reference_id own event response =
    (msa_id : String) × (handle : String) × (event ≡ handle_claimed msa_id handle)
    × (response
        ≡ with_options change_handle provider_id reference_id msa_id
            (publish_handle_opts (some (decode_handle utf8_of_hex handle))))
IsResponse utf8_of_hex add_key provider_id reference_id own event response =
    (msa_id : String) × (key : String) × (event ≡ public_key_added msa_id key)
    × (response
        ≡ with_options add_key provider_id reference_id msa_id (publish_keys_opts (some key)))
IsResponse utf8_of_hex siwf_signup provider_id reference_id own event response = response ≡ record {
  transaction_type = some siwf_signup;
  provider_id = some provider_id;
  reference_id = reference_id;
  msa_id = latest created_msa_id own none;
  options =
      some (siwf_opts (latest (claimed_handle utf8_of_hex) own none) (latest created_for own none));
}
IsResponse utf8_of_hex siwf_signin provider_id reference_id own event response = ⊥

abbrev said : Option String → Option String → Option String
said new start = elim new [ some x ↦ some x | none ↦ start ]

siwf_event-says :
    (utf8_of_hex : String → String) (event : Event) (v : SiwfTxnValues)
    → let values = siwf_event utf8_of_hex v event in
      (values.msa_id ≡ said (created_msa_id event) v.msa_id)
      × (values.address ≡ said (created_for event) v.address)
      × (values.handle ≡ said (claimed_handle utf8_of_hex event) v.handle)
unfolding siwf_event
siwf_event-says utf8_of_hex (msa_created id key) v = (refl, refl, refl)
siwf_event-says utf8_of_hex (handle_claimed id handle) v = (refl, refl, refl)
siwf_event-says utf8_of_hex (delegation_granted provider delegator) v = (refl, refl, refl)
siwf_event-says utf8_of_hex (capacity_withdrawn amount) v = (refl, refl, refl)
siwf_event-says utf8_of_hex (extrinsic_failed e) v = (refl, refl, refl)
siwf_event-says utf8_of_hex (public_key_added id key) v = (refl, refl, refl)
siwf_event-says utf8_of_hex (other_event name) v = (refl, refl, refl)

siwf_events-latest :
    (utf8_of_hex : String → String) (own : List EventRecord) (v : SiwfTxnValues)
    → let values = siwf_events utf8_of_hex v own in
      (values.msa_id ≡ latest created_msa_id own v.msa_id)
      × (values.address ≡ latest created_for own v.address)
      × (values.handle ≡ latest (claimed_handle utf8_of_hex) own v.handle)
unfolding siwf_events
siwf_events-latest utf8_of_hex [] v = (refl, refl, refl)
siwf_events-latest utf8_of_hex (r ∷ own) v =
    let (id, address, handle) = siwf_event-says utf8_of_hex r.event v in
    let (ids, addresses, handles) =
      siwf_events-latest utf8_of_hex own (siwf_event utf8_of_hex v r.event) in
    (
      ids ∙ ap (latest created_msa_id own) id,
      addresses ∙ ap (latest created_for own) address,
      handles ∙ ap (latest (claimed_handle utf8_of_hex) own) handle,
    )

abbrev handle_event : EventName
handle_event = record { section = "handles"; method = "HandleClaimed" }

abbrev key_event : EventName
key_event = record { section = "msa"; method = "PublicKeyAdded" }

claimed_by_name :
    (event : Event) (phase : Option ℕ)
    → has_name
        (record { section = "handles"; method = "HandleClaimed" })
        (record { phase = phase; event = event })
      ≡ true
    → IsDecoded event
    → (msa_id : String) × (handle : String) × (event ≡ handle_claimed msa_id handle)
unfolding has_name name_of string_eq
claimed_by_name (handle_claimed msa_id handle) phase named decoded = (msa_id, handle, refl)
claimed_by_name (other_event name) phase named decoded = absurd (ground (arith, decoded))
claimed_by_name _ phase named decoded = absurd (ground arith)

key_by_name :
    (event : Event) (phase : Option ℕ)
    → has_name
        (record { section = "msa"; method = "PublicKeyAdded" })
        (record { phase = phase; event = event })
      ≡ true
    → IsDecoded event
    → (msa_id : String) × (key : String) × (event ≡ public_key_added msa_id key)
unfolding has_name name_of string_eq
key_by_name (public_key_added msa_id key) phase named decoded = (msa_id, key, refl)
key_by_name (other_event name) phase named decoded = absurd (ground (arith, decoded))
key_by_name _ phase named decoded = absurd (ground arith)

module _ (K : Keyspace) (H : WatchList) (S : Scheduler) (p : Reporter) where
  abbrev data_of : PublishRequest → String → String → TransactionData
  data_of request provider_id reference_id = record {
    request = request;
    provider_id = provider_id;
    reference_id = reference_id;
  }

  -- The response, for an event in its place.
  abbrev ResponseTo : TransactionData → Plan → String → ℕ × ℕ → List EventRecord → Event → Type 0
  ResponseTo d planned tx_hash era own event =
      let status = status_of K H S d planned tx_hash era in
      IsResponse p.utf8_of_hex (type_of d.request) d.provider_id d.reference_id own event
        (webhook_response p (type_of d.request) status event own)

  by_request :
      (decode_address : String → Outcome String) (request : PublishRequest)
      (provider_id reference_id : String) (planned : Plan) (tx_hash : String) (era : ℕ × ℕ)
      (r : EventRecord) (own : List EventRecord)
      → plan_request decode_address request ≡ resolved planned
      → has_name planned.target_event r ≡ true
      → IsDecoded r.event
      → ResponseTo (data_of request provider_id reference_id) planned tx_hash era own r.event
  unfolding webhook_response status_of plan_request handle_siwf_txn_result
      handle_publish_handle_tx_result handle_publish_key_tx_result
  by_request decode (create_handle_request q) provider ref planned tx_hash era r own e named
        decoded =
      let target : planned.target_event ≡ handle_event = ground arith in
      let (msa_id, handle, same) = claimed_by_name r.event r.phase (rw target at named) decoded in
      subst (ResponseTo (data_of (create_handle_request q) provider ref) planned tx_hash era own)
        (sym same) (msa_id, handle, refl, refl)
  by_request decode (change_handle_request q) provider ref planned tx_hash era r own e named
        decoded =
      let target : planned.target_event ≡ handle_event = ground arith in
      let (msa_id, handle, same) = claimed_by_name r.event r.phase (rw target at named) decoded in
      subst (ResponseTo (data_of (change_handle_request q) provider ref) planned tx_hash era own)
        (sym same) (msa_id, handle, refl, refl)
  by_request decode (add_key_request q) provider ref planned tx_hash era r own e named decoded =
      let target : planned.target_event ≡ key_event = ground arith in
      let (msa_id, key, same) = key_by_name r.event r.phase (rw target at named) decoded in
      subst (ResponseTo (data_of (add_key_request q) provider ref) planned tx_hash era own)
        (sym same) (msa_id, key, refl, refl)
  by_request decode (siwf_signup_request q) provider ref planned tx_hash era r own e named decoded =
      let nothing : SiwfTxnValues = record {
        msa_id = none;
        address = none;
        handle = none;
        new_provider = none;
      } in
      let (id, address, handle) = siwf_events-latest p.utf8_of_hex own nothing in
      rw (id, address, handle) refl
  by_request decode invalid provider ref planned tx_hash era r own e named decoded =
      absurd (ground arith)

  -- Where an event has the name that the publisher planned for a request, and polkadot decodes the
  -- events of these names, the response to it is of the kind of the request: it names the request, and
  -- for a handle or a key it has the msaId and the handle or key of that event; for a sign-up the msaId
  -- and the accountId are those of the last event of the transaction that creates an MSA, and the
  -- handle is that of the last one that claims a handle, each undefined where there is no such event.
  pub webhook_response-IsResponse :
      (builder : Builder) (d : TransactionData) (planned : Plan) (tx_hash : String) (era : ℕ × ℕ)
      (r : EventRecord) (own : List EventRecord)
      → plan builder d.request ≡ resolved planned
      → has_name planned.target_event r ≡ true
      → IsDecoded r.event
      → let status = status_of K H S d planned tx_hash era in
        IsResponse p.utf8_of_hex
          (type_of d.request)
          d.provider_id
          d.reference_id
          own
          r.event
          (webhook_response p status.type status r.event own)
  unfolding status_of
  webhook_response-IsResponse builder d planned tx_hash era r own e named decoded =
      by_request builder.decode_address d.request d.provider_id d.reference_id planned tx_hash era r
        own (plan-plan_request builder d.request planned e) named decoded
