-- ===== src/Api.antt =====
-- apps/api/src/services and apps/api/src/controllers/v1, with the queries of
-- libs/common/src/blockchain/blockchain.service.ts that they use.
pub mod Controllers
pub mod Lookups
pub mod Handles
pub mod Requests
pub mod SiwfConfig
mod Tests
use account_service.Common.{
  ℕ, String, ◌<>◌, Bool, true, false, ◌&&◌, Option, none, some, List, ltb, leb, if◌then◌else◌,
}
use account_service.Js.{Outcome, resolved, rejected, error, catch, ◌>>=◌}
use account_service.Types.{PublishRequest, siwf_signup_request, ValidSignUpPayloads}
use account_service.Enqueue.{JobQueue, enqueue_request}

-- A `bigint`: not negative, or negative.
pub data ℤ : Type 0 where
  pos : ℕ → ℤ
  negsuc : ℕ → ℤ

-- What a query of the chain answers, or the message with which it fails.
pub data Answer {ℓ} (A : Type ℓ) : Type ℓ where
  answered : A → Answer A
  failed : String → Answer A

pub ask {ℓ} : {A : Type ℓ} → Answer A → Outcome A
ask (answered a) = resolved a
ask (failed message) = rejected (error message)

-- polkadot's types, as far as they are passed on.
pub record HandleResponse : Type 0 where
  pub base_handle : String
  pub canonical_base : String
  pub suffix : ℕ

pub record Delegation : Type 0 where
  pub revoked_at : ℕ
  pub schema_permissions : List (ℕ × ℕ)

-- The chain, and `BigInt` of a text, which throws on one that is no number.
pub record Queries : Type 0 where
  pub big_int : String → Answer ℤ
  pub current_msa_identifier_maximum : Answer ℕ
  pub handle_for_msa : String → Answer (Option HandleResponse)
  pub keys_by_msa_id : String → Answer (Option (List String))
  pub delegator_and_provider_to_delegation : String → String → Answer (Option Delegation)

pub record AccountResponse : Type 0 where
  pub msa_id : String
  pub handle : Option HandleResponse

pub record DelegationResponse : Type 0 where
  pub provider_id : String
  pub schema_permissions : List (ℕ × ℕ)
  pub revoked_at : ℕ

-- `id > 0n && id <= max`
pub in_range : ℤ → ℕ → Bool
in_range (pos n) max = ltb 0 n && leb n max
in_range (negsuc n) max = false

module _ (q : Queries) where
  -- The blockchain service.
  abbrev pub get_msa_id_max : Outcome ℕ
  get_msa_id_max = ask q.current_msa_identifier_maximum

  pub is_valid_msa_id : String → Outcome Bool
  unfolding ask in_range
  is_valid_msa_id msa_id = do
    max ← get_msa_id_max
    id ← ask (q.big_int msa_id)
    resolved (in_range id max)

  pub get_handle_for_msa : String → Outcome (Option HandleResponse)
  unfolding ask
  get_handle_for_msa msa_id = ask (q.handle_for_msa msa_id)

  pub unwrap_keys : String → Option (List String) → Outcome (List String)
  unwrap_keys msa_id (some keys) = resolved keys
  unwrap_keys msa_id none = rejected (error ("No keys found for msaId: " <> msa_id))

  abbrev pub get_common_primitives_msa_delegation : String → String → Outcome (Option Delegation)
  get_common_primitives_msa_delegation msa_id provider_id =
      ask (q.delegator_and_provider_to_delegation msa_id provider_id)

  pub get_keys_by_msa : String → Outcome (List String)
  unfolding ask unwrap_keys
  get_keys_by_msa msa_id = ask (q.keys_by_msa_id msa_id) >>= unwrap_keys msa_id

  -- A lookup of a service, behind the test of the id.
  pub if_valid {ℓ} : {A : Type ℓ} → String → String → Outcome A → Outcome A
  unfolding is_valid_msa_id
  if_valid msa_id message lookup = do
    valid ← is_valid_msa_id msa_id
    if valid then lookup else rejected (error message)

  -- `AccountsService.getAccount`
  pub get_account : String → Outcome AccountResponse
  unfolding if_valid get_handle_for_msa
  get_account msa_id =
      catch
        (if_valid msa_id ("Invalid msaId: " <> msa_id) (
          get_handle_for_msa msa_id >>= λ handle.
          resolved (record { msa_id = msa_id; handle = handle })))
        (λ e. rejected (error "Failed to get account"))

  -- `HandlesService.getHandle`
  pub get_handle : String → Outcome (Option HandleResponse)
  unfolding if_valid get_handle_for_msa
  get_handle msa_id = if_valid msa_id "Invalid msaId." (get_handle_for_msa msa_id)

  -- `KeysService.getKeysByMsa`
  pub get_keys : String → Outcome (List String)
  unfolding if_valid get_keys_by_msa
  get_keys msa_id = if_valid msa_id "Invalid msaId." (get_keys_by_msa msa_id)

  pub delegation_response : String → Option Delegation → Outcome DelegationResponse
  delegation_response provider_id none = rejected (error "Failed to find the delegation.")
  delegation_response provider_id (some d) = resolved (record {
    provider_id = provider_id;
    schema_permissions = d.schema_permissions;
    revoked_at = d.revoked_at;
  })

  -- `DelegationService.getDelegation`
  pub get_delegation : String → String → Outcome DelegationResponse
  unfolding if_valid ask delegation_response
  get_delegation provider_id msa_id =
      if_valid msa_id "Invalid msaId." (
        get_common_primitives_msa_delegation msa_id provider_id >>= delegation_response provider_id)

-- `WalletLoginRequestDto`, with what @amplica-labs/siwf validates, and its answers.
pub record WalletLoginRequest : Type 0 where
  pub sign_in : Option String
  pub sign_up : Option String

pub record WalletLoginResponse : Type 0 where
  pub reference_id : String
  pub msa_id : Option String
  pub public_key : Option String

pub record Siwf : Type 0 where
  pub api_ready : Outcome (Unit {0})
  -- the validated payload of a sign-up
  pub validate_signup : String → Outcome ValidSignUpPayloads
  -- the msaId and the public key of a sign-in
  pub validate_signin : String → Outcome (String × String)

module _ (Q : JobQueue) (calculate_job_id : PublishRequest → String) (provider_id : String) where
  -- A call that enqueues: the handler of its errors sees those of the queue too.
  pub enqueue_or {ℓ} :
      {A : Type ℓ} → String → (String → A) → PublishRequest → Q.State → Outcome A × Q.State
  unfolding enqueue_request
  enqueue_or message response request s =
      let (out, s') = enqueue_request Q calculate_job_id provider_id request s in
      (catch (out >>= λ id. resolved (response id)) (λ e. rejected (error message)), s')

  pub sign_up_response : String → WalletLoginResponse
  sign_up_response id = record { reference_id = id; msa_id = none; public_key = none }

  pub sign_up : Outcome ValidSignUpPayloads → Q.State → Outcome WalletLoginResponse × Q.State
  unfolding enqueue_or sign_up_response
  sign_up (rejected e) s = (rejected (error "Failed to sign up"), s)
  sign_up (resolved payload) s =
      enqueue_or "Failed to sign up" sign_up_response (siwf_signup_request payload) s

  pub sign_in : Outcome (String × String) → Outcome WalletLoginResponse
  sign_in (rejected e) = rejected (error "Failed to Sign-In With Frequency")
  sign_in (resolved (msa_id, public_key)) =
      resolved (record { reference_id = "0"; msa_id = some msa_id; public_key = some public_key })

  pub login : Siwf → WalletLoginRequest → Q.State → Outcome WalletLoginResponse × Q.State
  unfolding sign_up sign_in
  login siwf request s = elim request.sign_up [
    | some response ↦ sign_up (siwf.validate_signup response) s
    | none ↦ elim request.sign_in [
      | some response ↦ (sign_in (siwf.validate_signin response), s)
      | none ↦ (rejected (error "Invalid Sign-In With Frequency Request"), s)
    ]
  ]

  -- `AccountsService.signInWithFrequency`
  pub sign_in_with_frequency :
      Siwf → WalletLoginRequest → Q.State → Outcome WalletLoginResponse × Q.State
  unfolding login
  sign_in_with_frequency siwf request s = elim siwf.api_ready [
    | rejected e ↦ (rejected e, s)
    | resolved u ↦ login siwf request s
  ]
