-- ===== src/Api/SiwfConfig.antt =====
-- GET v1/accounts/siwf: AccountsService.getSIWFConfig and its route, from the settings of the service.
use account_service.Common.{◌≡◌, ◌≢◌, String, none, some, ◌↔◌, ℕ, arith, inl, inr, Option-cases}
use account_service.Js.{Outcome, resolved, rejected, error, http_exception}
use account_service.Config.{Reading, Environment, Settings, accepted}
use account_service.Config.Schema.{validate}
use account_service.Config.Bounds.{validate-IsSettings}

pub record WalletLoginConfigResponse : Type 0 where
  pub provider_id : String
  pub siwf_url : String
  pub frequency_rpc_url : String

-- `siwfUrl.toString()` throws where the variable is not set.
unfoldable pub get_siwf_config : Settings → Outcome WalletLoginConfigResponse
get_siwf_config s = elim s.siwf_url [
  | none ↦ rejected (error "Failed to get SIWF config")
  | some url ↦ resolved (record {
    provider_id = s.provider_id;
    siwf_url = url;
    frequency_rpc_url = s.frequency_http_url;
  })
]

-- `AccountsControllerV1.getSIWFConfig`: the promise is returned without `await`, so the `catch` of the
-- route does not see its rejection.
unfoldable pub accounts_get_siwf_config : Settings → Outcome WalletLoginConfigResponse
unfolding get_siwf_config
accounts_get_siwf_config s = get_siwf_config s

-- The schema does not ask for SIWF_URL: a service that starts without it answers each request for the
-- configuration with an error that is no `HttpException`, so that the 400 of the route is never sent;
-- with it, it answers the three settings.
pub accounts_get_siwf_config-validate :
    (r : Reading) (e : Environment) (s : Settings)
    → validate r e ≡ accepted s
    → ((accounts_get_siwf_config s ≡ rejected (error "Failed to get SIWF config"))
        ↔ (e.siwf_url ≡ none))
      × ((message : String) (status : ℕ)
          → accounts_get_siwf_config s ≢ rejected (http_exception message status))
      × ((out : WalletLoginConfigResponse)
          → (accounts_get_siwf_config s ≡ resolved out) ↔ (
              (e.siwf_url ≡ some out.siwf_url)
              × (s.provider_id ≡ out.provider_id)
              × (s.frequency_http_url ≡ out.frequency_rpc_url)))
unfolding accounts_get_siwf_config
accounts_get_siwf_config-validate r e s started =
    let same = (validate-IsSettings r e s started).siwf_url in
    elim (Option-cases s.siwf_url) [
      | inl absent ↦ (ground arith, λ message status x. ground arith, λ out. ground arith)
      | inr (url, present) ↦ (ground arith, λ message status x. ground arith, λ out. ground arith)
    ]
