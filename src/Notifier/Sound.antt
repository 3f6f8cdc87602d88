-- ===== src/Notifier/Sound.antt =====
-- What the webhook is told: only of transactions that were watched, and that a block holds.
use account_service.Common.{
  ℕ, zero, suc, ◌≡◌, refl, ap, ◌∙◌, inl, inr, String, Option, none, some, List, [], ◌∷◌, ◌++◌, any,
  ◌==◌, ==_refl, string_eq, arith, Bool-cases, ◌+◌, All, All-append, In, keep, find, Option-cases,
  true,
}
use account_service.Js.{resolved, rejected, Outcome-cases}
use account_service.Types.{
  TxStatus, TxWebhookRsp, TransactionType, change_handle, create_handle, siwf_signup, siwf_signin,
  add_key,
}
use account_service.Js.Action.{continue}
use account_service.Redis.{Keyspace}
use account_service.Redis.WatchList.{WatchList}
use account_service.Scanner.{BlockHash}
use account_service.Notifier.{
  Notifier, Chain, extrinsic_indices, is_relevant, process_found, found_in_block,
  process_current_block,
}
use account_service.Notifier.Watch.{elem}
use account_service.Chain.{Event, EventRecord}
use account_service.Notifier.Send.{Post, Provider, send_loop, create_webhook_rsp}
use account_service.Notifier.Report.{
  Reporter, applies_to, find_failure, has_name, report_success, report_watched, report,
  handle_extrinsics, webhook_response,
}

pub webhook_response-reference_id :
    (p : Reporter) (type : TransactionType) (status : TxStatus) (event : Event)
    (own : List EventRecord)
    → (webhook_response p type status event own).reference_id ≡ status.reference_id
unfolding webhook_response create_webhook_rsp
webhook_response-reference_id p change_handle status event own = refl
webhook_response-reference_id p create_handle status event own = refl
webhook_response-reference_id p siwf_signup status event own = refl
webhook_response-reference_id p add_key status event own = refl
webhook_response-reference_id p siwf_signin status event own = refl

module _ (P : Post → Type 0) where
  send_loop-All :
      (provider : Provider) (retries : ℕ) (response : TxWebhookRsp) (posts : List Post)
      → ((post : Post) → post.response ≡ response → P post)
      → All P posts
      → All P (send_loop provider retries response posts)
  unfolding send_loop
  send_loop-All provider zero response posts ok all = all
  send_loop-All provider (suc left) response posts ok all =
      elim (Outcome-cases (provider posts response)) [
        | inl (u, e) ↦
            let post : Post = record { response = response; accepted = resolved u } in
            rw (e, send_loop) (All-append P posts (post ∷ []) all (ok post refl, tt))
        | inr (t, e) ↦
            let post : Post = record { response = response; accepted = rejected t } in
            rw (e, send_loop)
              (send_loop-All provider left response (posts ++ (post ∷ [])) ok
                (All-append P posts (post ∷ []) all (ok post refl, tt)))
      ]

  -- A report on a status makes posts with its reference only, and one on no status makes none.
  report-All :
      (p : Reporter) (found : Option TxStatus) (own : List EventRecord) (posts : List Post)
      → ((status : TxStatus)
          → found ≡ some status
          → (post : Post) → post.response.reference_id ≡ status.reference_id
          → P post)
      → All P posts
      → All P (report p found own posts).1
  unfolding report
  report-All p none [] posts ok all = all
  report-All p none (r ∷ rs) posts ok all = all
  report-All p (some status) own posts ok all = elim (Option-cases (find_failure own)) [
    | inr (e, failed) ↦ rw (failed, report_watched) all
    | inl fine ↦
        rw (fine, report_watched)
          (elim (Option-cases (find (has_name status.success_event) own)) [
            | inl absent ↦ rw (absent, report_success) all
            | inr (event, found) ↦
                rw (found, report_success)
                  (send_loop-All p.provider p.health_check_max_retries
                    (webhook_response p status.type status event.event own) posts
                    (λ post same. ok status refl post (
                      ap (λ r. r.reference_id) same
                      ∙ webhook_response-reference_id p status.type status event.event own))
                    all)
          ])
  ]

  pub handle_extrinsics-All :
      (p : Reporter) (hget : String → Option TxStatus) (events : List EventRecord)
      (indices : List (String × ℕ)) (posts : List Post)
      → ((pair : String × ℕ)
          → In pair indices
          → (status : TxStatus) → hget pair.0 ≡ some status
          → (post : Post) → post.response.reference_id ≡ status.reference_id
          → P post)
      → All P posts
      → All P (handle_extrinsics p hget events indices posts).1
  unfolding handle_extrinsics
  handle_extrinsics-All p hget events [] posts ok all = all
  handle_extrinsics-All p hget events ((hash, index) ∷ rest) posts ok all =
      let own = keep (applies_to index) events in
      let out = report p (hget hash) own posts in
      let mine = report-All p (hget hash) own posts (ok (hash, index) (inl refl)) all in
      elim (Outcome-cases out.0) [
        | inr (t, e) ↦ rw (e, handle_extrinsics) mine
        | inl (u, e) ↦
            rw (e, handle_extrinsics)
              (handle_extrinsics-All p hget events rest out.1 (λ pair there. ok pair (inr there))
                mine)
      ]

extrinsic_indices-elem :
    (pending : List TxStatus) (index : ℕ) (hashes : List String) (pair : String × ℕ)
    → In pair (extrinsic_indices pending index hashes)
    → elem pair.0 hashes ≡ true
unfolding extrinsic_indices
extrinsic_indices-elem pending index [] pair i = absurd i
extrinsic_indices-elem pending index (hash ∷ hashes) pair i =
    elim (Bool-cases (any (λ status. status.tx_hash == hash) pending)) [
      | inl watched ↦ elim (rw watched at i) [
        | inl same ↦ ground (arith, ==_refl hash)
        | inr later ↦ ground (arith, extrinsic_indices-elem pending (index + 1) hashes pair later)
      ]
      | inr other ↦
          ground (arith, extrinsic_indices-elem pending (index + 1) hashes pair (rw other at i))
    ]

module _ (K : Keyspace) (H : WatchList) (chain : Chain) (P : Post → Type 0) where
  process_found-All :
      (hash : BlockHash) (indices : List (String × ℕ)) (w : Notifier K H)
      → ((pair : String × ℕ)
          → In pair indices
          → (status : TxStatus) → H.hget w.watch_list pair.0 ≡ some status
          → (post : Post) → post.response.reference_id ≡ status.reference_id
          → P post)
      → All P w.posts
      → All P (process_found K H chain hash indices w).1.posts
  unfolding process_found
  process_found-All hash indices w ok all = elim (Outcome-cases (chain.current_epoch hash)) [
    | inr (t, e) ↦ rw (e, continue) all
    | inl (epoch, e) ↦ elim (Outcome-cases (chain.events hash)) [
      | inr (t, q) ↦ rw (e, q, continue) all
      | inl (events, q) ↦
          let own = keep (is_relevant chain.eq_pair indices) events in
          let told =
            handle_extrinsics-All P chain.reporter (H.hget w.watch_list) own indices w.posts ok
              all in
          elim (Outcome-cases
            (handle_extrinsics chain.reporter (H.hget w.watch_list) own indices w.posts).0) [
              | inr (t, r) ↦ rw (e, q, r, continue) told
              | inl (u, r) ↦ rw (e, q, r, continue) told
            ]
    ]
  ]

  found_in_block-All :
      (hash : BlockHash) (indices : List (String × ℕ)) (w : Notifier K H)
      → ((pair : String × ℕ)
          → In pair indices
          → (status : TxStatus) → H.hget w.watch_list pair.0 ≡ some status
          → (post : Post) → post.response.reference_id ≡ status.reference_id
          → P post)
      → All P w.posts
      → All P (found_in_block K H chain hash indices w).1.posts
  unfolding found_in_block
  found_in_block-All hash [] w ok all = all
  found_in_block-All hash (pair ∷ indices) w ok all =
      process_found-All hash (pair ∷ indices) w ok all

  pub process_current_block-All :
      (hash : BlockHash) (number : ℕ) (w : Notifier K H)
      → ((hashes : List String) (k : String) (v : TxStatus)
          → chain.get_block hash ≡ resolved hashes
          → elem k hashes ≡ true
          → H.hget w.watch_list k ≡ some v
          → (post : Post) → post.response.reference_id ≡ v.reference_id
          → P post)
      → All P w.posts
      → All P (process_current_block K H chain hash number w).1.posts
  unfolding process_current_block
  process_current_block-All hash number w ok all = elim (Outcome-cases (chain.get_block hash)) [
    | inr (t, e) ↦ rw (e, continue) all
    | inl (hashes, e) ↦
        let indices = extrinsic_indices (H.hvals w.watch_list) 0 hashes in
        let told =
          found_in_block-All hash indices w
            (λ pair there status.
              ok hashes pair.0 status e
                (extrinsic_indices-elem (H.hvals w.watch_list) 0 hashes pair there))
            all in
        elim (Outcome-cases (found_in_block K H chain hash indices w).0) [
          | inr (t, q) ↦ rw (e, q, continue) told
          | inl (ks, q) ↦ rw (e, q, continue) told
        ]
  ]
