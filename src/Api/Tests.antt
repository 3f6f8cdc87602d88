-- ===== src/Api/Tests.antt =====
-- The theorems on the API at one chain and one queue.
use account_service.Common.{◌≢◌}
use account_service.Config.Tests.{reading, environment, settings, starts}
use account_service.Api.SiwfConfig.{
  WalletLoginConfigResponse, accounts_get_siwf_config, accounts_get_siwf_config-validate,
}
use account_service.Common.{ℕ, ◌≡◌, ◌≢◌, refl, ◌↔◌, String, Bool, none, some, ◌==◌, string_eq}
use account_service.Js.{resolved, rejected, error, http_exception}
use account_service.Types.{PublishRequest, create_handle_request, HandleRequest, KeysRequest}
use account_service.Enqueue.{JobQueue}
use account_service.Enqueue.Memory.{memory, memory-IsJobQueue, empty}
use account_service.Enqueue.Jobs.{IsKeyed, NoCollision}
use account_service.Api.{
  pos, answered, failed, Queries, HandleResponse, enqueue_or, sign_in_with_frequency, Siwf,
  WalletLoginRequest, WalletLoginResponse,
}
use account_service.Api.Controllers.{create_handle, post_sign_in_with_frequency}

abbrev bob : HandleResponse
bob = record { base_handle = "bob"; canonical_base = "b0b"; suffix = 12 }

-- A chain of ten msaIds.
abbrev chain : Queries
chain = record {
  big_int = λ msa_id. answered (pos 7);
  current_msa_identifier_maximum = answered 10;
  handle_for_msa = λ msa_id. answered (some bob);
  keys_by_msa_id = λ msa_id. answered none;
  delegator_and_provider_to_delegation = λ msa_id provider_id. failed "disconnected";
}

abbrev is_invalid_msa : String → Bool
is_invalid_msa message = message == "Invalid msaId."

-- A queue whose connection is lost.
abbrev lost : JobQueue
lost = record memory { add = λ s id d. rejected (error "Connection is closed.") }

abbrev job_id : PublishRequest → String
job_id (create_handle_request r) = r.payload.base_handle
job_id _ = "other"

abbrev request : HandleRequest
request = record {
  account_id = "5Grw";
  payload = record { base_handle = "bob"; expiration = 50 };
  proof = "0x01";
}

abbrev key_request : KeysRequest
key_request = record {
  msa_owner_address = "5Grw";
  msa_owner_signature = "0x01";
  new_key_owner_signature = "0x02";
  payload = record { msa_id = "7"; expiration = 50; new_public_key = "5Fev" };
}

abbrev siwf : Siwf
siwf = record {
  api_ready = resolved tt;
  validate_signup = λ response. resolved (record { calls = none });
  validate_signin = λ response. rejected (error "bad signature");
}

abbrev login_request : WalletLoginRequest
login_request = record { sign_in = none; sign_up = some "calls" }

empty-IsKeyed : IsKeyed memory memory-IsJobQueue job_id "1" empty
empty-IsKeyed id d e = cc

empty-NoCollision : (r : PublishRequest) → NoCollision memory memory-IsJobQueue job_id "1" r empty
empty-NoCollision r d e = cc

answers_bob : (create_handle memory job_id "1" request empty).0 ≡ resolved "bob"
unfolding create_handle enqueue_or
answers_bob = refl

abbrev signed_up : WalletLoginResponse
signed_up = record { reference_id = "other"; msa_id = none; public_key = none }

signs_up :
    (post_sign_in_with_frequency memory job_id "1" siwf login_request empty).0 ≡ resolved signed_up
unfolding post_sign_in_with_frequency sign_in_with_frequency
signs_up = refl

accounts_get_siwf_config-validate_example :
    ((accounts_get_siwf_config settings ≡ rejected (error "Failed to get SIWF config"))
      ↔ (environment.siwf_url ≡ none))
    × ((message : String) (status : ℕ)
        → accounts_get_siwf_config settings ≢ rejected (http_exception message status))
    × ((out : WalletLoginConfigResponse)
        → (accounts_get_siwf_config settings ≡ resolved out) ↔ (
            (none ≡ some out.siwf_url)
            × ("1" ≡ out.provider_id)
            × ("http://localhost:9944" ≡ out.frequency_rpc_url)))
accounts_get_siwf_config-validate_example =
    accounts_get_siwf_config-validate reading environment settings starts
