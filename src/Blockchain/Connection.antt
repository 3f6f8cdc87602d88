-- ===== src/Blockchain/Connection.antt =====
-- The life of the connection to the chain.
use account_service.Common.{◌≡◌, refl, inl, inr, String, true, none, some, [], ◌∷◌, ◌++◌, arith}
use account_service.Js.{Throwable, Outcome, resolved, rejected, error, Outcome-cases}
use account_service.Blockchain.{
  Provider, ws_provider, http_provider, Service, provider_of, on_application_bootstrap,
  on_application_shutdown, is_ready, get_api,
}

-- The provider takes the text of the URL as it is.
abbrev pub url_of : Provider → String
url_of (ws_provider url) = url
url_of (http_provider url) = url

provider_of-url : (url : String) (p : Provider) → provider_of url ≡ resolved p → url_of p ≡ url
unfolding provider_of
provider_of-url url p e = ground arith

module _ {Api : Type 0} (create : Provider → Outcome Api) where
  -- What a start of the service leads to: it is rejected and has changed nothing, or it has one
  -- connection, to the URL of the settings, and the shutdown ends that one.
  abbrev pub Started : String → Service Api → Outcome (Unit {0}) × Service Api → Type 0
  Started url s (rejected t, after) = after ≡ s
  Started url s (resolved u, after) =
      (p : Provider) × (api : Api) × (url_of p ≡ url)
      × (create p ≡ resolved api)
      × (after.api ≡ some api)
      × ((on_application_shutdown create after).disconnected ≡ s.disconnected ++ (api ∷ []))

  -- Whatever the URL is and whatever polkadot answers, the start is of one of the two kinds.
  pub on_application_bootstrap-Started :
      (url : String) (s : Service Api) → Started url s (on_application_bootstrap create url s)
  unfolding on_application_bootstrap on_application_shutdown
  on_application_bootstrap-Started url s = elim (Outcome-cases (provider_of url)) [
    | inr (t, e) ↦ rw (e, on_application_bootstrap) refl
    | inl (p, e) ↦ elim (Outcome-cases (create p)) [
      | inr (t, e') ↦ rw (e, on_application_bootstrap) (rw e' refl)
      | inl (api, e') ↦
          rw (e, on_application_bootstrap) (rw e' (p, api, provider_of-url url p e, e', refl, refl))
    ]
  ]

  -- Before the start `isReady` answers true, and `getApi` is rejected.
  pub is_ready_early :
      (ready : Api → Outcome (Unit {0})) (s : Service Api)
      → s.api ≡ none
      → (is_ready ready s ≡ resolved true) × (t : Throwable) × (get_api ready s ≡ rejected t)
  unfolding is_ready get_api
  is_ready_early ready s e =
      (rw e refl, error "Cannot read properties of undefined (reading 'isReady')", rw e refl)

  -- After a start whose connection is ready both are resolved, with that connection.
  pub get_api-started :
      (ready : Api → Outcome (Unit {0})) (url : String) (s : Service Api)
      → (on_application_bootstrap create url s).0 ≡ resolved tt
      → ((api : Api) → ready api ≡ resolved tt)
      → let after = (on_application_bootstrap create url s).1 in
        (is_ready ready after ≡ resolved true)
        × (api : Api) × (get_api ready after ≡ resolved api)
        × (after.api ≡ some api)
  unfolding on_application_bootstrap is_ready get_api
  get_api-started ready url s ok all = elim (Outcome-cases (provider_of url)) [
    | inr (t, e) ↦ cc (ok, e)
    | inl (p, e) ↦ elim (Outcome-cases (create p)) [
      | inr (t, e') ↦ cc (ok, e, e')
      | inl (api, e') ↦
          rw (e, on_application_bootstrap) (rw e' (rw (all api) refl, api, rw (all api) refl, refl))
    ]
  ]
