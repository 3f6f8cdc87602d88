-- ===== src/Notifier/Send.antt =====
-- The webhook: createWebhookRsp, and the loop that posts a response until it is accepted.
use mathlib.Core.List.{append-nil, append_assoc}
use account_service.Common.{
  ℕ, zero, suc, ◌+◌, ◌≤◌, ◌<◌, ◌≡◌, ◌⊎◌, inl, inr, refl, ◌∙◌, sym, Option, some, String, List, [],
  ◌∷◌, ◌++◌, length, length-append, arith,
}
use account_service.Js.{Throwable, Outcome, resolved, rejected, Outcome-cases}
use account_service.Types.{TxStatus, TxWebhookOpts, TxWebhookRsp}

unfoldable pub create_webhook_rsp : TxStatus → Option String → TxWebhookOpts → TxWebhookRsp
create_webhook_rsp status msa_id options = record {
  transaction_type = some status.type;
  provider_id = some status.provider_id;
  reference_id = status.reference_id;
  msa_id = msa_id;
  options = some options;
}

-- One attempt: what was posted, and whether the provider accepted it.
pub record Post : Type 0 where
  pub response : TxWebhookRsp
  pub accepted : Outcome (Unit {0})

-- The answer of the provider to a post, after the posts that were made before it.
abbrev pub Provider : Type 0
Provider = List Post → TxWebhookRsp → Outcome (Unit {0})

module _ (provider : Provider) where
  -- `while (retries < healthCheckMaxRetries)`, by the retries that are left.
  unfoldable pub send_loop : ℕ → TxWebhookRsp → List Post → List Post
  send_loop zero response posts = posts
  send_loop (suc left) response posts = elim (provider posts response) [
    | resolved u ↦ posts ++ (record { response = response; accepted = resolved u } ∷ [])
    | rejected e ↦
        send_loop left response
          (posts ++ (record { response = response; accepted = rejected e } ∷ []))
  ]

  abbrev pub refused : TxWebhookRsp → List Throwable → List Post
  refused response [] = []
  refused response (e ∷ es) =
      record { response = response; accepted = rejected e } ∷ refused response es

  -- The response is posted again and again until it is accepted or `max_retries` attempts were
  -- refused: the attempts are refusals only, `max_retries` of them, or fewer with one acceptance
  -- behind them. With `max_retries` 0 nothing is posted.
  pub send_loop-posts :
      (max_retries : ℕ) (response : TxWebhookRsp) (posts : List Post)
      → (es : List Throwable) × (((length es ≡ max_retries)
            × (send_loop max_retries response posts ≡ posts ++ refused response es))
          ⊎ ((length es < max_retries)
              × (send_loop max_retries response posts
                  ≡ posts
                    ++ (refused response es
                        ++ (record { response = response; accepted = resolved tt } ∷ [])))))
  unfolding send_loop
  send_loop-posts zero response posts = ([], inl (refl, sym (append-nil posts)))
  send_loop-posts (suc left) response posts = elim (Outcome-cases (provider posts response)) [
    | inl (u, e) ↦ ([], inr (omega arith, rw (e, send_loop)))
    | inr (t, e) ↦
        let post : Post = record { response = response; accepted = rejected t } in
        let (es, rest) = send_loop-posts left response (posts ++ (post ∷ [])) in
        (t ∷ es, after t e es rest)
  ]
    where
      tried : Throwable → List Post
      tried t = posts ++ (record { response = response; accepted = rejected t } ∷ [])

      after :
          (t : Throwable)
          → provider posts response ≡ rejected t
          → (es : List Throwable)
          → (((length es ≡ left)
                × (send_loop left response (tried t) ≡ tried t ++ refused response es))
              ⊎ ((length es < left)
                  × (send_loop left response (tried t)
                      ≡ tried t
                        ++ (refused response es
                            ++ (record { response = response; accepted = resolved tt } ∷ [])))))
          → ((length (t ∷ es) ≡ suc left)
              × (send_loop (suc left) response posts ≡ posts ++ refused response (t ∷ es)))
            ⊎ ((length (t ∷ es) < suc left)
                × (send_loop (suc left) response posts
                    ≡ posts
                      ++ (refused response (t ∷ es)
                          ++ (record { response = response; accepted = resolved tt } ∷ []))))
      after t e es (inl (n, p)) = inl (omega arith, rw (e, send_loop) (p ∙ append_assoc posts _ _))
      after t e es (inr (n, p)) = inr (omega arith, rw (e, send_loop) (p ∙ append_assoc posts _ _))

  pub length-send_loop :
      (max_retries : ℕ) (response : TxWebhookRsp) (posts : List Post)
      → length (send_loop max_retries response posts) ≤ length posts + max_retries
  unfolding send_loop
  length-send_loop zero response posts = omega arith
  length-send_loop (suc left) response posts = elim (Outcome-cases (provider posts response)) [
    | inl (u, e) ↦
        rw (e, send_loop)
          (omega (
            arith,
            length-append posts (record { response = response; accepted = resolved u } ∷ []),
          ))
    | inr (t, e) ↦
        let post : Post = record { response = response; accepted = rejected t } in
        rw (e, send_loop)
          (omega (
            arith,
            length-append posts (post ∷ []),
            length-send_loop left response (posts ++ (post ∷ [])),
          ))
  ]
