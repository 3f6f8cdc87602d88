-- ===== src/Notifier/Report.antt =====
-- What `processCurrentBlock` makes of the events of one watched transaction.
use account_service.Common.{
  ℕ, ◌+◌, String, Bool, false, ◌&&◌, Option, none, some, List, [], ◌∷◌, find, keep, ◌==◌, nat_eq,
  string_eq,
}
use account_service.Js.{Outcome, resolved, rejected, error, ◌>>=◌}
use account_service.Types.{
  TransactionType, change_handle, create_handle, siwf_signup, siwf_signin, add_key, TxStatus,
  EventName, publish_handle_opts, siwf_opts, publish_keys_opts, TxWebhookRsp,
}
use account_service.Chain.{
  DispatchError, Event, capacity_withdrawn, extrinsic_failed, name_of, EventRecord,
  handle_siwf_txn_result, handle_publish_handle_tx_result, handle_publish_key_tx_result,
}
pub use account_service.Notifier.Send.{Post}
use account_service.Notifier.Send.{Provider, send_loop, create_webhook_rsp}

-- What the code relies on outside the repository, and the retry limit from the configuration.
pub record Reporter : Type 0 where
  -- `dispatchError.asModule` and `findMetaError` of polkadot
  pub as_module : DispatchError → Outcome String
  -- `Buffer.from(hex, 'hex').toString('utf-8')` of Node
  pub utf8_of_hex : String → String
  pub provider : Provider
  pub health_check_max_retries : ℕ

-- `phase.isApplyExtrinsic && phase.asApplyExtrinsic.eq(txIndex)`
unfoldable pub applies_to : ℕ → EventRecord → Bool
applies_to index r = elim r.phase [ none ↦ false | some n ↦ n == index ]

unfoldable pub failure_of : Event → Option DispatchError
failure_of (extrinsic_failed e) = some e
failure_of _ = none

unfoldable pub find_failure : List EventRecord → Option DispatchError
unfolding failure_of
find_failure [] = none
find_failure (r ∷ rs) = elim (failure_of r.event) [ some e ↦ some e | none ↦ find_failure rs ]

unfoldable pub has_name : EventName → EventRecord → Bool
unfolding name_of
has_name name r = let n = name_of r.event in n.section == name.section && n.method == name.method

unfoldable pub withdrawn : Event → ℕ
withdrawn (capacity_withdrawn amount) = amount
withdrawn _ = 0

-- The sum over the `CapacityWithdrawn` events.
unfoldable pub total_withdrawn : List EventRecord → ℕ
unfolding withdrawn
total_withdrawn [] = 0
total_withdrawn (r ∷ rs) = withdrawn r.event + total_withdrawn rs

module _ (p : Reporter) where
  -- The `switch (txStatus.type)`.
  unfoldable pub webhook_response :
      TransactionType → TxStatus → Event → List EventRecord → TxWebhookRsp
  unfolding create_webhook_rsp
  webhook_response change_handle status event own =
      let v = handle_publish_handle_tx_result p.utf8_of_hex event in
      create_webhook_rsp status v.msa_id (publish_handle_opts v.handle)
  webhook_response create_handle status event own =
      let v = handle_publish_handle_tx_result p.utf8_of_hex event in
      create_webhook_rsp status v.msa_id (publish_handle_opts v.handle)
  webhook_response siwf_signup status event own =
      let v = handle_siwf_txn_result p.utf8_of_hex own in
      create_webhook_rsp status v.msa_id (siwf_opts v.handle v.address)
  webhook_response add_key status event own =
      let v = handle_publish_key_tx_result event in
      create_webhook_rsp status v.msa_id (publish_keys_opts v.new_public_key)
  webhook_response siwf_signin status event own = record {
    transaction_type = none;
    provider_id = none;
    reference_id = status.reference_id;
    msa_id = none;
    options = none;
  }

  unfoldable pub report_success :
      TxStatus → Option EventRecord → List EventRecord → List Post → List Post
  unfolding webhook_response
  report_success status none own posts = posts
  report_success status (some r) own posts =
      send_loop p.provider p.health_check_max_retries
        (webhook_response status.type status r.event own) posts

  -- A failure is logged, with the error of its pallet; a success is posted; neither is logged.
  unfoldable pub report_watched :
      TxStatus → List EventRecord → List Post → Outcome (Unit {0}) × List Post
  unfolding report_success find_failure has_name
  report_watched status own posts = elim (find_failure own) [
    | some e ↦ (p.as_module e >>= λ name. resolved tt, posts)
    | none ↦
        (resolved tt, report_success status (find (has_name status.success_event) own) own posts)
  ]

  -- `hget` answers null for a hash that is not watched: `txStatus.successEvent` is then read only if
  -- there is an event to test.
  unfoldable pub report :
      Option TxStatus → List EventRecord → List Post → Outcome (Unit {0}) × List Post
  unfolding report_watched
  report none [] posts = (resolved tt, posts)
  report none (r ∷ rs) posts =
      (rejected (error "Cannot read properties of null (reading 'successEvent')"), posts)
  report (some status) own posts = report_watched status own posts

  -- The loop over the watched transactions of the block; `hget` reads the watch list, which the loop
  -- does not change. The posts are kept when a transaction is rejected.
  unfoldable pub handle_extrinsics :
      (String → Option TxStatus)
      → List EventRecord
      → List (String × ℕ)
      → List Post
      → Outcome (Unit {0}) × List Post
  unfolding report applies_to
  handle_extrinsics hget events [] posts = (resolved tt, posts)
  handle_extrinsics hget events ((hash, index) ∷ rest) posts =
      let (outcome, posts') = report (hget hash) (keep (applies_to index) events) posts in
      elim outcome [
        | rejected e ↦ (rejected e, posts')
        | resolved u ↦ handle_extrinsics hget events rest posts'
      ]
