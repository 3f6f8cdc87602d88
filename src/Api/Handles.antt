-- ===== src/Api/Handles.antt =====
-- `GET /v1/handles/:msaId`: which answer has which status.
use account_service.Common.{
  ℕ, ◌≡◌, refl, ◌∙◌, ap, ◌≢◌, ◌↔◌, ◌⊎◌, inl, inr, String, Bool, true, false, Option, none, some,
  arith, Bool-cases,
}
use account_service.Js.{
  Throwable, Outcome, resolved, rejected, error, http_exception, delayed_error, end_of_chain_error,
  null_scan_error, Outcome-cases,
}
use account_service.Api.{
  answered, failed, ask, Queries, HandleResponse, is_valid_msa_id, if_valid, get_handle,
  get_handle_for_msa,
}
use account_service.Api.Controllers.{
  handles_get_handle, http_or, found, bad_request, not_found, internal_server_error,
}
use account_service.Api.Lookups.{Answer-cases, IsValid}

module _ (q : Queries) where
  -- What the service finds behind the test of the id.
  get_handle-cases :
      (msa_id : String)
      → (IsValid q msa_id
          × (((o : Option HandleResponse) × (q.handle_for_msa msa_id ≡ answered o)
                × (get_handle q msa_id ≡ resolved o))
              ⊎ ((m : String) × (q.handle_for_msa msa_id ≡ failed m)
                  × (get_handle q msa_id ≡ rejected (error m)))))
        ⊎ (((is_valid_msa_id q msa_id ≡ resolved false)
              × (get_handle q msa_id ≡ rejected (error "Invalid msaId.")))
            ⊎ ((e : Throwable) × (is_valid_msa_id q msa_id ≡ rejected e)
                × (get_handle q msa_id ≡ rejected e)))
  unfolding get_handle if_valid get_handle_for_msa ask
  get_handle-cases msa_id = elim (Outcome-cases (is_valid_msa_id q msa_id)) [
    | inr (e, p) ↦ inr (inr (e, p, rw (p, if_valid)))
    | inl (false, p) ↦ inr (inl (p, rw (p, if_valid)))
    | inl (true, p) ↦ elim (Answer-cases (q.handle_for_msa msa_id)) [
      | inl (o, h) ↦ inl (p, inl (o, h, rw (p, if_valid) (rw (h, ask))))
      | inr (m, h) ↦ inl (p, inr (m, h, rw (p, if_valid) (rw (h, ask))))
    ]
  ]

  http_or_rejected :
      {A : Type 0} (is_invalid_msa : String → Bool) (e : Throwable)
      → (t : Throwable) × (◌≡◌ {A = Outcome A} (http_or is_invalid_msa e) (rejected t))
  unfolding http_or
  http_or_rejected is_invalid_msa (error m) = elim (Bool-cases (is_invalid_msa m)) [
    | inl b ↦ (http_exception m bad_request, rw b)
    | inr b ↦ (http_exception "Internal error" internal_server_error, rw b)
  ]
  http_or_rejected is_invalid_msa (http_exception m status) = (http_exception m status, refl)
  http_or_rejected is_invalid_msa delayed_error =
      (http_exception "Internal error" internal_server_error, refl)
  http_or_rejected is_invalid_msa (end_of_chain_error m) =
      (http_exception "Internal error" internal_server_error, refl)
  http_or_rejected is_invalid_msa (null_scan_error m) =
      (http_exception "Internal error" internal_server_error, refl)

  is_valid_msa_id-error :
      (msa_id : String) (e : Throwable)
      → is_valid_msa_id q msa_id ≡ rejected e
      → (m : String) × (e ≡ error m)
  unfolding is_valid_msa_id ask
  is_valid_msa_id-error msa_id e h = elim (Answer-cases q.current_msa_identifier_maximum) [
    | inr (m, p) ↦ (m, ground arith)
    | inl (max, p) ↦ elim (Answer-cases (q.big_int msa_id)) [
      | inr (m, p') ↦ (m, ground arith)
      | inl (n, p') ↦ ground arith
    ]
  ]

  http_or_error :
      (is_invalid_msa : String → Bool) (m : String)
      → (x : String) × (status : ℕ) × (status ≢ not_found)
        × (◌≡◌ {A = Outcome HandleResponse}
            (http_or is_invalid_msa (error m))
            (rejected (http_exception x status)))
  unfolding http_or
  http_or_error is_invalid_msa m = elim (Bool-cases (is_invalid_msa m)) [
    | inl b ↦ (m, bad_request, λ e. absurd (omega (arith, e)), rw b)
    | inr b ↦ ("Internal error", internal_server_error, λ e. absurd (omega (arith, e)), rw b)
  ]

  abbrev pub HandleAnswers : (String → Bool) → String → Type 0
  HandleAnswers is_invalid_msa msa_id =
      ((h : HandleResponse)
        → (handles_get_handle is_invalid_msa q msa_id ≡ resolved h)
          ↔ (IsValid q msa_id × (q.handle_for_msa msa_id ≡ answered (some h))))
      × (((message : String) × (handles_get_handle is_invalid_msa q msa_id
              ≡ rejected (http_exception message not_found)))
          ↔ (IsValid q msa_id × (q.handle_for_msa msa_id ≡ answered none)))

  handles_get_handle-other :
      (is_invalid_msa : String → Bool) (msa_id m : String)
      → get_handle q msa_id ≡ rejected (error m)
      → ((o : Option HandleResponse) → IsValid q msa_id → q.handle_for_msa msa_id ≡ answered o → ⊥)
      → HandleAnswers is_invalid_msa msa_id
  unfolding handles_get_handle
  handles_get_handle-other is_invalid_msa msa_id m r unheld =
      let (x, status, ne, e) = http_or_error is_invalid_msa m in
      let out : handles_get_handle is_invalid_msa q msa_id ≡ rejected (http_exception x status) =
        ground arith in
      (
        λ h. (λ p. cc (p, out), λ both. absurd (unheld (some h) both.0 both.1)),
        (λ p. absurd (ne (same_status out p.1)), λ both. absurd (unheld none both.0 both.1)),
      )
    where
      same_status :
          {x y : String} {a b : ℕ} {o : Outcome HandleResponse}
          → o ≡ rejected (http_exception x a)
          → o ≡ rejected (http_exception y b)
          → a ≡ b
      same_status p p' = cc

  -- The answer of `GET /v1/handles/:msaId`: a handle if, and only if, the id is valid and the chain
  -- holds that handle for it; 404 if, and only if, the id is valid and the chain holds none.
  pub handles_get_handle_iff :
      (is_invalid_msa : String → Bool) (msa_id : String)
      → ((h : HandleResponse)
          → (handles_get_handle is_invalid_msa q msa_id ≡ resolved h)
            ↔ (IsValid q msa_id × (q.handle_for_msa msa_id ≡ answered (some h))))
        × (((message : String) × (handles_get_handle is_invalid_msa q msa_id
                ≡ rejected (http_exception message not_found)))
            ↔ (IsValid q msa_id × (q.handle_for_msa msa_id ≡ answered none)))
  unfolding handles_get_handle found
  handles_get_handle_iff is_invalid_msa msa_id = elim (get_handle-cases msa_id) [
    | inl (p, inl (none, h, r)) ↦ (
      λ x. ground arith,
      (λ e. (p, h), λ both. ("No handle found for MSA", ground (arith, found))),
    )
    | inl (p, inl (some y, h, r)) ↦ (λ x. ground arith, (λ e. ground arith, λ both. ground arith))
    | inl (p, inr (m, h, r)) ↦
        handles_get_handle-other is_invalid_msa msa_id m r (λ o v a. cc (h, a))
    | inr (inl (p, r)) ↦
        handles_get_handle-other is_invalid_msa msa_id "Invalid msaId." r (λ o v a. cc (p, v))
    | inr (inr (e, p, r)) ↦
        let (m, shape) = is_valid_msa_id-error msa_id e p in
        handles_get_handle-other is_invalid_msa msa_id m (r ∙ ap rejected shape)
          (λ o v a. cc (p, v))
  ]

  -- Where the pattern matches the service's own message: an id that is not in the range is answered
  -- with 400.
  pub handles_get_handle-bad_request :
      (is_invalid_msa : String → Bool) (msa_id : String)
      → is_invalid_msa "Invalid msaId." ≡ true
      → is_valid_msa_id q msa_id ≡ resolved false
      → handles_get_handle is_invalid_msa q msa_id
        ≡ rejected (http_exception "Invalid msaId." bad_request)
  unfolding handles_get_handle get_handle if_valid http_or
  handles_get_handle-bad_request is_invalid_msa msa_id matches e =
      rw (e, if_valid) (rw matches refl)
