-- ===== src/Publisher/Planning.antt =====
-- The `switch` of `process` in apps/worker/src/transaction_publisher/publisher.service.ts, with the
-- calls of libs/common/src/blockchain/blockchain.service.ts: which extrinsic a request becomes.
use account_service.Common.{◌≡◌, inl, inr, ◌∷◌, arith, ℕ, String, Option, none, some, List, [], map}
use account_service.Js.{Outcome, resolved, rejected, error, ◌>>=◌, ◌>>◌, Outcome-cases}
use account_service.Types.{
  PublishRequest, create_handle_request, change_handle_request, siwf_signup_request,
  add_key_request, invalid, KeysRequest, EncodedExtrinsic, EventName,
}

-- The extrinsics that the blockchain service builds, and the two that pay for them with capacity.
pub data Call : Type 0 where
  -- accountId, proof, baseHandle and expiration
  claim_handle : String → String → String → ℕ → Call
  change_handle : String → String → String → ℕ → Call
  -- owner, the two signatures, the decoded new key, msaId and expiration
  add_public_key_to_msa : String → String → String → String → String → ℕ → Call
  -- `api.tx(encodedExtrinsic)`
  encoded : String → Call

pub data Extrinsic : Type 0 where
  pay_with_capacity : Call → Extrinsic
  pay_with_capacity_batch_all : List Call → Extrinsic

-- The transaction whose mortal era dates the status: the inner one, or the batch.
pub data EraOf : Type 0 where
  inner : Call → EraOf
  outer : Extrinsic → EraOf

-- What a branch of the `switch` prepares.
pub record Plan : Type 0 where
  pub extrinsic : Extrinsic
  pub era_of : EraOf
  pub target_event : EventName

-- `blockchainService.publishHandle` and `addPublicKeyToMsa`, and the `switch` of `process`.
unfoldable pub plan_handle : Call → Outcome Plan
plan_handle tx = resolved (record {
  extrinsic = pay_with_capacity tx;
  era_of = inner tx;
  target_event = record { section = "handles"; method = "HandleClaimed" };
})

unfoldable pub plan_batch : List EncodedExtrinsic → Outcome Plan
plan_batch calls =
    let batch = pay_with_capacity_batch_all (map (λ x. encoded x.encoded_extrinsic) calls) in
    resolved (record {
      extrinsic = batch;
      era_of = outer batch;
      target_event = record { section = "utility"; method = "BatchCompleted" };
    })

unfoldable pub add_public_key_call : KeysRequest → String → Call
add_public_key_call r new_public_key =
    add_public_key_to_msa r.msa_owner_address r.msa_owner_signature r.new_key_owner_signature
      new_public_key r.payload.msa_id r.payload.expiration

unfoldable pub plan_add_key : KeysRequest → Outcome String → Outcome Plan
unfolding add_public_key_call
plan_add_key r decoded = do
  new_public_key ← decoded
  let tx = add_public_key_call r new_public_key
  resolved (record {
    extrinsic = pay_with_capacity tx;
    era_of = inner tx;
    target_event = record { section = "msa"; method = "PublicKeyAdded" };
  })

-- An absent `calls` is an empty vector for `createType`.
unfoldable pub calls_of : Option (List EncodedExtrinsic) → List EncodedExtrinsic
calls_of none = []
calls_of (some calls) = calls

unfoldable pub plan_request : (String → Outcome String) → PublishRequest → Outcome Plan
unfolding plan_handle plan_batch plan_add_key calls_of
plan_request decode_address (create_handle_request r) =
    plan_handle (claim_handle r.account_id r.proof r.payload.base_handle r.payload.expiration)
plan_request decode_address (change_handle_request r) =
    plan_handle (change_handle r.account_id r.proof r.payload.base_handle r.payload.expiration)
plan_request decode_address (siwf_signup_request r) = plan_batch (calls_of r.calls)
plan_request decode_address (add_key_request r) =
    plan_add_key r (decode_address r.payload.new_public_key)
plan_request decode_address invalid = rejected (error "Invalid job type.")

-- What polkadot makes of the values of a request; each call throws on values that it does not take.
pub record Builder : Type 0 where
  -- `decodeAddress`
  pub decode_address : String → Outcome String
  -- the call with its types, or `api.tx(encodedExtrinsic)`
  pub tx : Call → Outcome (Unit {0})
  -- `createType('Vec<Call>', txns)`
  pub create_type : List Call → Outcome (Unit {0})

unfoldable pub build_all : (Call → Outcome (Unit {0})) → List Call → Outcome (Unit {0})
build_all tx [] = resolved tt
build_all tx (call ∷ calls) = tx call >> build_all tx calls

unfoldable pub build_calls : Builder → Extrinsic → Outcome (Unit {0})
unfolding build_all
build_calls builder (pay_with_capacity call) = builder.tx call
build_calls builder (pay_with_capacity_batch_all calls) =
    build_all builder.tx calls >> builder.create_type calls

unfoldable pub built : Builder → Plan → Outcome Plan
unfolding build_calls
built builder planned = do build_calls builder planned.extrinsic; resolved planned

unfoldable pub plan : Builder → PublishRequest → Outcome Plan
unfolding plan_request built
plan builder request = do
  planned ← plan_request builder.decode_address request
  built builder planned

-- What is built is what the request asks for.
pub plan-plan_request :
    (builder : Builder) (request : PublishRequest) (planned : Plan)
    → plan builder request ≡ resolved planned
    → plan_request builder.decode_address request ≡ resolved planned
unfolding plan built
plan-plan_request builder request planned e =
    elim (Outcome-cases (plan_request builder.decode_address request)) [
      | inr (t, q) ↦ ground arith
      | inl (p, q) ↦ elim (Outcome-cases (build_calls builder p.extrinsic)) [
        | inr (t, r) ↦ ground arith
        | inl (u, r) ↦ ground arith
      ]
    ]
