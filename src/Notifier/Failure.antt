-- ===== src/Notifier/Failure.antt =====
-- Blocks that are not processed, and how often the webhook is called for one that is.
use account_service.Common.{
  ℕ, ◌+◌, ◌*◌, ◌≤◌, ◌≡◌, inl, inr, String, Option, none, some, List, [], ◌∷◌, keep, length, arith,
}
use account_service.Js.{Throwable, resolved, rejected, Outcome-cases}
use account_service.Js.Action.{continue}
use account_service.Redis.{Keyspace}
use account_service.Redis.WatchList.{WatchList}
use account_service.Types.{TxStatus}
use account_service.Chain.{DispatchError, EventRecord}
use account_service.Scanner.{BlockHash}
use account_service.Notifier.{
  Notifier, Chain, extrinsic_indices, is_relevant, process_found, found_in_block,
  process_current_block,
}
use account_service.Notifier.Watch.{found_in_block_lem}
use account_service.Notifier.Send.{Post, length-send_loop}
use account_service.Notifier.Report.{
  Reporter, applies_to, find_failure, report_success, report, handle_extrinsics, webhook_response,
}

module _ (p : Reporter) where
  report_success-length :
      (status : TxStatus) (o : Option EventRecord) (own : List EventRecord) (posts : List Post)
      → length (report_success p status o own posts) ≤ length posts + p.health_check_max_retries
  unfolding report_success
  report_success-length status none own posts = omega arith
  report_success-length status (some r) own posts =
      length-send_loop p.provider p.health_check_max_retries
        (webhook_response p status.type status r.event own) posts

  report-length :
      (found : Option TxStatus) (own : List EventRecord) (posts : List Post)
      → length (report p found own posts).1 ≤ length posts + p.health_check_max_retries
  unfolding report
  report-length none [] posts = omega arith
  report-length none (r ∷ rs) posts = omega arith
  report-length (some status) own posts = grind (arith, report_success-length)

  -- The webhook is called at most `health_check_max_retries` times for each watched transaction of
  -- a block, whether the block is processed to its end or not.
  pub handle_extrinsics-length :
      (hget : String → Option TxStatus) (events : List EventRecord) (indices : List (String × ℕ))
      (posts : List Post)
      → length (handle_extrinsics p hget events indices posts).1
        ≤ length posts + p.health_check_max_retries * length indices
  unfolding handle_extrinsics
  handle_extrinsics-length hget events [] posts = omega arith
  handle_extrinsics-length hget events ((hash, index) ∷ rest) posts =
      let own = keep (applies_to index) events in
      let out = report p (hget hash) own posts in
      elim (Outcome-cases out.0) [
        | inr (t, e) ↦
            rw (e, handle_extrinsics) (omega (arith, report-length (hget hash) own posts))
        | inl (u, e) ↦
            rw (e, handle_extrinsics)
              (omega (
                arith,
                report-length (hget hash) own posts,
                handle_extrinsics-length hget events rest out.1,
              ))
      ]

  -- A watched transaction that failed with an error which `asModule` refuses, rejects the loop; the
  -- transactions behind it are not looked at.
  pub handle_extrinsics-refused :
      (hget : String → Option TxStatus) (events : List EventRecord) (hash : String) (index : ℕ)
      (rest : List (String × ℕ)) (posts : List Post) (status : TxStatus) (d : DispatchError)
      (t : Throwable)
      → hget hash ≡ some status
      → find_failure (keep (applies_to index) events) ≡ some d
      → p.as_module d ≡ rejected t
      → handle_extrinsics p hget events ((hash, index) ∷ rest) posts ≡ (rejected t, posts)
  unfolding handle_extrinsics
  handle_extrinsics-refused hget events hash index rest posts status d t found failed refused =
      ground arith

module _ (K : Keyspace) (H : WatchList) (chain : Chain) where
  -- A block whose processing is rejected, for whatever reason, leaves the watch list as it was.
  pub process_current_block-rejected :
      (hash : BlockHash) (number : ℕ) (w w' : Notifier K H) (t : Throwable)
      → process_current_block K H chain hash number w ≡ (rejected t, w')
      → w'.watch_list ≡ w.watch_list
  unfolding process_current_block
  process_current_block-rejected hash number w w' t e =
      elim (Outcome-cases (chain.get_block hash)) [
        | inr (t', q) ↦ ground arith
        | inl (hashes, q) ↦
            let indices = extrinsic_indices (H.hvals w.watch_list) 0 hashes in
            elim (Outcome-cases (found_in_block K H chain hash indices w).0) [
              | inl (ks, r) ↦ ground arith
              | inr (t', r) ↦ ground (arith, (found_in_block_lem K H chain hash indices w).0)
            ]
      ]

  -- What a scan meets at a block whose first watched transaction failed with an error that `asModule`
  -- refuses with `t`.
  pub record IsPoisoned (hash : BlockHash) (t : Throwable) (s : H.State) : Type 0 where
    pub hashes : List String
    pub block_read : chain.get_block hash ≡ resolved hashes
    pub tx_hash : String
    pub index : ℕ
    pub rest : List (String × ℕ)
    pub found : extrinsic_indices (H.hvals s) 0 hashes ≡ (tx_hash, index) ∷ rest
    pub epoch : ℕ
    pub epoch_read : chain.current_epoch hash ≡ resolved epoch
    pub events : List EventRecord
    pub events_read : chain.events hash ≡ resolved events
    pub status : TxStatus
    pub watched : H.hget s tx_hash ≡ some status
    pub dispatch_error : DispatchError
    pub failed :
        find_failure (
          keep
            (applies_to index)
            (keep (is_relevant chain.eq_pair ((tx_hash, index) ∷ rest)) events))
        ≡ some dispatch_error
    pub refused : chain.reporter.as_module dispatch_error ≡ rejected t

  process_found-poisoned :
      (hash : BlockHash) (t : Throwable) (w : Notifier K H) (b : IsPoisoned hash t w.watch_list)
      → (process_found K H chain hash ((b.tx_hash, b.index) ∷ b.rest) w).0 ≡ rejected t
  unfolding process_found
  process_found-poisoned hash t w b = ground (
    arith,
    b.epoch_read,
    b.events_read,
    handle_extrinsics-refused chain.reporter (H.hget w.watch_list)
        (keep (is_relevant chain.eq_pair ((b.tx_hash, b.index) ∷ b.rest)) b.events) b.tx_hash
        b.index b.rest w.posts b.status b.dispatch_error t b.watched b.failed b.refused,
  )

  pub poisoned-rejected :
      (hash : BlockHash) (number : ℕ) (t : Throwable) (w : Notifier K H)
      → IsPoisoned hash t w.watch_list
      → (process_current_block K H chain hash number w).0 ≡ rejected t
  unfolding process_current_block found_in_block
  poisoned-rejected hash number t w b =
      rw (b.block_read, continue)
        (rw (b.found, found_in_block) (ground (arith, process_found-poisoned hash t w b)))
