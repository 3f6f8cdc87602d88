-- ===== src/Types.antt =====
-- The data that the parts of the service exchange: libs/common/src/types and
-- libs/common/src/interfaces. A field that can be `undefined` is an `Option`.
use account_service.Common.{ℕ, String, Option, List}

pub data TransactionType : Type 0 where
  change_handle create_handle siwf_signup siwf_signin add_key : TransactionType

pub record HandlePayload : Type 0 where
  pub base_handle : String
  pub expiration : ℕ

pub record HandleRequest : Type 0 where
  pub account_id : String
  pub payload : HandlePayload
  pub proof : String

pub record KeysRequestPayload : Type 0 where
  pub msa_id : String
  pub expiration : ℕ
  pub new_public_key : String

pub record KeysRequest : Type 0 where
  pub msa_owner_address : String
  pub msa_owner_signature : String
  pub new_key_owner_signature : String
  pub payload : KeysRequestPayload

pub record EncodedExtrinsic : Type 0 where
  pub pallet : String
  pub extrinsic_name : String
  pub encoded_extrinsic : String

-- What `validateSignup` of @amplica-labs/siwf returns, as far as the code reads it.
pub record ValidSignUpPayloads : Type 0 where
  pub calls : Option (List EncodedExtrinsic)

-- The requests that are enqueued, told apart by their field `type`. The publisher has a branch for
-- any other type too: `invalid`.
pub data PublishRequest : Type 0 where
  create_handle_request : HandleRequest → PublishRequest
  change_handle_request : HandleRequest → PublishRequest
  siwf_signup_request : ValidSignUpPayloads → PublishRequest
  add_key_request : KeysRequest → PublishRequest
  invalid : PublishRequest

-- `job.data.type`
abbrev pub type_of : PublishRequest → TransactionType
type_of (create_handle_request r) = create_handle
type_of (change_handle_request r) = change_handle
type_of (siwf_signup_request r) = siwf_signup
type_of (add_key_request r) = add_key
type_of invalid = siwf_signin

-- `TransactionData`: the request with what `enqueueRequest` adds.
pub record TransactionData : Type 0 where
  pub request : PublishRequest
  pub provider_id : String
  pub reference_id : String

pub record EventName : Type 0 where
  pub section : String
  pub method : String

-- `ITxStatus`
pub record TxStatus : Type 0 where
  pub type : TransactionType
  pub reference_id : String
  pub provider_id : String
  pub tx_hash : String
  pub success_event : EventName
  pub birth : ℕ
  pub death : ℕ

-- `TxWebhookOpts`
pub data TxWebhookOpts : Type 0 where
  publish_handle_opts : Option String → TxWebhookOpts
  siwf_opts : Option String → Option String → TxWebhookOpts
  publish_keys_opts : Option String → TxWebhookOpts

-- `Partial<TxWebhookRsp>`; the handle, account or key stand in `options`.
pub record TxWebhookRsp : Type 0 where
  pub transaction_type : Option TransactionType
  pub provider_id : Option String
  pub reference_id : String
  pub msa_id : Option String
  pub options : Option TxWebhookOpts
