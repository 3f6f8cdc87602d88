-- ===== src/Api/Controllers.antt =====
-- apps/api/src/controllers/v1: the status of each answer. An error that is no `HttpException` is
-- answered with 500 by the framework.
use account_service.Common.{ℕ, String, Bool, Option, none, some, List, if◌then◌else◌}
use account_service.Js.{
  Throwable, Outcome, resolved, rejected, error, http_exception, delayed_error, end_of_chain_error,
  null_scan_error, catch, ◌>>=◌,
}
use account_service.Types.{
  PublishRequest, create_handle_request, change_handle_request, add_key_request, HandleRequest,
  KeysRequest,
}
use account_service.Enqueue.{JobQueue, enqueue_request}
use account_service.Api.{
  Queries, HandleResponse, AccountResponse, DelegationResponse, get_account, get_handle, get_keys,
  get_delegation, enqueue_or, sign_in_with_frequency, Siwf, WalletLoginRequest, WalletLoginResponse,
}

-- @nestjs/common `HttpStatus`
abbrev pub bad_request : ℕ
bad_request = 400

abbrev pub not_found : ℕ
not_found = 404

abbrev pub internal_server_error : ℕ
internal_server_error = 500

-- `/invalid msa.*/i.test(text)` is JavaScript's: a parameter.
-- An error without a message is tested as "undefined".
module _ (is_invalid_msa : String → Bool) where
  unfoldable pub http_or {ℓ} : {A : Type ℓ} → Throwable → Outcome A
  http_or (http_exception message status) = rejected (http_exception message status)
  http_or (error message) =
      if is_invalid_msa message
      then rejected (http_exception message bad_request)
      else rejected (http_exception "Internal error" internal_server_error)
  http_or delayed_error = rejected (http_exception "Internal error" internal_server_error)
  http_or (end_of_chain_error m) = rejected (http_exception "Internal error" internal_server_error)
  http_or (null_scan_error m) = rejected (http_exception "Internal error" internal_server_error)

  unfoldable pub found : Option HandleResponse → Outcome HandleResponse
  found none = rejected (http_exception "No handle found for MSA" not_found)
  found (some handle) = resolved handle

  -- `HandlesControllerV1.getHandle`
  unfoldable pub handles_get_handle : Queries → String → Outcome HandleResponse
  unfolding http_or found
  handles_get_handle q msa_id = catch (get_handle q msa_id >>= found) http_or

unfoldable pub or_bad_request {ℓ} : {A : Type ℓ} → String → Outcome A → Outcome A
or_bad_request message r = catch r (λ e. rejected (http_exception message bad_request))

-- `AccountsControllerV1.getAccount`
unfoldable pub accounts_get_account : Queries → String → Outcome AccountResponse
unfolding or_bad_request
accounts_get_account q msa_id = or_bad_request "Failed to find the account" (get_account q msa_id)

-- `KeysControllerV1.getKeys`
unfoldable pub keys_get_keys : Queries → String → Outcome (List String)
unfolding or_bad_request
keys_get_keys q msa_id =
    or_bad_request "Failed to find public keys for the given msaId" (get_keys q msa_id)

-- `DelegationControllerV1.getDelegation`
unfoldable pub delegation_get_delegation : Queries → String → String → Outcome DelegationResponse
unfolding or_bad_request
delegation_get_delegation q provider_id msa_id =
    or_bad_request "Failed to find the delegation" (get_delegation q provider_id msa_id)

module _ (Q : JobQueue) (calculate_job_id : PublishRequest → String) (provider_id : String) where
  -- `HandlesControllerV1.createHandle` and `changeHandle`
  unfoldable pub create_handle : HandleRequest → Q.State → Outcome String × Q.State
  create_handle r s =
      enqueue_or Q calculate_job_id provider_id "Failed to create handle" (λ id. id)
        (create_handle_request r) s

  unfoldable pub change_handle : HandleRequest → Q.State → Outcome String × Q.State
  change_handle r s =
      enqueue_or Q calculate_job_id provider_id "Failed to change handle" (λ id. id)
        (change_handle_request r) s

  -- `KeysControllerV1.addKey`
  unfoldable pub add_key : KeysRequest → Q.State → Outcome String × Q.State
  unfolding or_bad_request
  add_key r s =
      let (out, s') = enqueue_request Q calculate_job_id provider_id (add_key_request r) s in
      (or_bad_request "Failed to find public keys for the given msaId" out, s')

  -- `AccountsControllerV1.postSignInWithFrequency`
  unfoldable pub post_sign_in_with_frequency :
      Siwf → WalletLoginRequest → Q.State → Outcome WalletLoginResponse × Q.State
  unfolding or_bad_request
  post_sign_in_with_frequency siwf request s =
      let (out, s') = sign_in_with_frequency Q calculate_job_id provider_id siwf request s in
      (or_bad_request "Failed to Sign In With Frequency" out, s')
