-- ===== src/Api/Lookups.antt =====
-- What the lookups answer, and with which status they fail.
use account_service.Common.{
  ℕ, ◌<◌, ◌≤◌, ◌≡◌, refl, ◌↔◌, ◌⊎◌, inl, inr, String, true, false, Option, none, some, List, arith,
}
use account_service.Js.{Throwable, Outcome, resolved, rejected, http_exception, Outcome-cases}
use account_service.Api.{
  pos, negsuc, Answer, answered, failed, ask, Queries, HandleResponse, DelegationResponse, in_range,
  is_valid_msa_id, if_valid, get_account, get_keys, get_delegation, get_handle_for_msa,
  get_keys_by_msa, unwrap_keys, delegation_response,
}
use account_service.Api.Controllers.{
  accounts_get_account, keys_get_keys, delegation_get_delegation, or_bad_request, bad_request,
}

pub Answer-cases {ℓ} :
    {A : Type ℓ} (x : Answer A) → ((a : A) × (x ≡ answered a)) ⊎ ((m : String) × (x ≡ failed m))
Answer-cases (answered a) = inl (a, refl)
Answer-cases (failed m) = inr (m, refl)

-- If the answer is an error, it is this one.
abbrev pub OnlyRefuses {ℓ} : {A : Type ℓ} → Outcome A → Throwable → Type 0
OnlyRefuses (resolved a) t = Unit
OnlyRefuses (rejected e) t = e ≡ t

module _ (q : Queries) where
  -- An msaId is valid if, and only if, it is the text of a number from 1 to the largest msaId of the
  -- chain.
  pub is_valid_msa_id_iff :
      (msa_id : String)
      → (is_valid_msa_id q msa_id ≡ resolved true) ↔ (
          (max : ℕ) × (n : ℕ) × (q.current_msa_identifier_maximum ≡ answered max)
          × (q.big_int msa_id ≡ answered (pos n))
          × (0 < n)
          × (n ≤ max))
  unfolding is_valid_msa_id ask in_range
  is_valid_msa_id_iff msa_id = (
    λ e. elim (Answer-cases q.current_msa_identifier_maximum) [
      | inr (m, p) ↦ ground arith
      | inl (max, p) ↦ elim (Answer-cases (q.big_int msa_id)) [
        | inr (m, p') ↦ ground arith
        | inl (pos n, p') ↦ (max, n, p, p', ground arith, ground arith)
        | inl (negsuc n, p') ↦ ground arith
      ]
    ],
    λ (max, n, p, p', lo, hi). ground arith,
  )

  abbrev pub IsValid : String → Type 0
  IsValid msa_id = is_valid_msa_id q msa_id ≡ resolved true

  -- The answer of `GET /v1/accounts/:msaId`: the account if, and only if, the id is valid and the
  -- chain answers, with the handle or without one; every other answer is 400.
  pub accounts_get_account_iff :
      (msa_id : String)
      → ((o : Option HandleResponse)
          → (accounts_get_account q msa_id ≡ resolved (record { msa_id = msa_id; handle = o }))
            ↔ (IsValid msa_id × (q.handle_for_msa msa_id ≡ answered o)))
        × OnlyRefuses
            (accounts_get_account q msa_id)
            (http_exception "Failed to find the account" bad_request)
  unfolding accounts_get_account get_account if_valid get_handle_for_msa ask or_bad_request
  accounts_get_account_iff msa_id = elim (Outcome-cases (is_valid_msa_id q msa_id)) [
    | inr (t, p) ↦ (λ o. ground arith, ground arith)
    | inl (false, p) ↦ (λ o. ground arith, ground arith)
    | inl (true, p) ↦ elim (Answer-cases (q.handle_for_msa msa_id)) [
      | inl (y, h) ↦ (λ o. ground arith, ground arith)
      | inr (m, h) ↦ (λ o. ground arith, ground arith)
    ]
  ]

  -- The answer of `GET /v1/keys/:msaId`: the keys if, and only if, the id is valid and the chain holds
  -- them; every other answer is 400.
  pub keys_get_keys_iff :
      (msa_id : String)
      → ((keys : List String)
          → (keys_get_keys q msa_id ≡ resolved keys)
            ↔ (IsValid msa_id × (q.keys_by_msa_id msa_id ≡ answered (some keys))))
        × OnlyRefuses
            (keys_get_keys q msa_id)
            (http_exception "Failed to find public keys for the given msaId" bad_request)
  unfolding keys_get_keys get_keys if_valid get_keys_by_msa ask unwrap_keys or_bad_request
  keys_get_keys_iff msa_id = elim (Outcome-cases (is_valid_msa_id q msa_id)) [
    | inr (t, p) ↦ (λ o. ground arith, ground arith)
    | inl (false, p) ↦ (λ o. ground arith, ground arith)
    | inl (true, p) ↦ elim (Answer-cases (q.keys_by_msa_id msa_id)) [
      | inl (some y, h) ↦ (λ o. ground arith, ground arith)
      | inl (none, h) ↦ (λ o. ground arith, ground arith)
      | inr (m, h) ↦ (λ o. ground arith, ground arith)
    ]
  ]

  -- The answer of `GET /v1/delegation/:msaId`: the delegation to this provider if, and only if, the id
  -- is valid and the chain holds one; every other answer is 400.
  pub delegation_get_delegation_iff :
      (provider_id msa_id : String)
      → ((d : DelegationResponse)
          → (delegation_get_delegation q provider_id msa_id ≡ resolved d) ↔ (
              IsValid msa_id
              × (q.delegator_and_provider_to_delegation msa_id provider_id
                  ≡ answered (
                      some (record {
                        revoked_at = d.revoked_at;
                        schema_permissions = d.schema_permissions;
                      })))
              × (d.provider_id ≡ provider_id)))
        × OnlyRefuses
            (delegation_get_delegation q provider_id msa_id)
            (http_exception "Failed to find the delegation" bad_request)
  unfolding delegation_get_delegation get_delegation if_valid ask delegation_response or_bad_request
  delegation_get_delegation_iff provider_id msa_id =
      elim (Outcome-cases (is_valid_msa_id q msa_id)) [
        | inr (t, p) ↦ (λ o. ground arith, ground arith)
        | inl (false, p) ↦ (λ o. ground arith, ground arith)
        | inl (true, p) ↦
            elim (Answer-cases (q.delegator_and_provider_to_delegation msa_id provider_id)) [
              | inl (some y, h) ↦ (λ o. ground arith, ground arith)
              | inl (none, h) ↦ (λ o. ground arith, ground arith)
              | inr (m, h) ↦ (λ o. ground arith, ground arith)
            ]
      ]
