-- ===== src/Journey.antt =====
-- The way of one request through the services: from apps/api, over the queue, to
-- apps/worker/src/transaction_publisher, and from there to the webhook that
-- apps/worker/src/transaction_notifier posts to.
mod Tests
use account_service.Common.{
  subst, ℕ, suc, ◌+◌, ◌<◌, ◌≡◌, refl, sym, ap, ◌∙◌, inl, inr, String, Option, none, some, List, [],
  ◌∷◌, ◌++◌, find, All, All-append, length, length-append, ◌==◌, ==_refl, string_eq, if◌then◌else◌,
  arith,
}
use account_service.Js.{Throwable, Outcome, resolved, resolved-injective}
use account_service.Redis.{Keyspace}
use account_service.Redis.WatchList.{WatchList, IsWatchList}
use account_service.Scheduler.{Scheduler}
use account_service.Types.{PublishRequest, TransactionData, TransactionType, TxStatus, TxWebhookRsp}
use account_service.Types.{change_handle, create_handle, siwf_signup, siwf_signin, add_key}
use account_service.Chain.{EventRecord, Event}
use account_service.Enqueue.{JobQueue, IsJobQueue, enqueue_request, job_data}
use account_service.Enqueue.Jobs.{IsKeyed, NoCollision, enqueue_request-job}
use account_service.Notifier.Send.{
  Post, Provider, send_loop, refused, send_loop-posts, create_webhook_rsp,
}
use account_service.Notifier.Sound.{webhook_response-reference_id}
use account_service.Notifier.Report.{
  Reporter, report, report_watched, report_success, webhook_response, find_failure, has_name,
}
use account_service.Publisher.{Publisher, World, process, status_of}
use account_service.Publisher.Planning.{Plan, plan}
use account_service.Publisher.Process.{process-submits}

-- New posts, one or more, that all carry the reference of a request.
abbrev pub Reported : String → List Post → List Post → Type 0
Reported reference_id before after =
    (posts : List Post) × (after ≡ before ++ posts)
    × (0 < length posts)
    × All (λ post. post.response.reference_id ≡ reference_id) posts

refused-All :
    (provider : Provider) (response : TxWebhookRsp) (reference_id : String) (es : List Throwable)
    → response.reference_id ≡ reference_id
    → All (λ post. post.response.reference_id ≡ reference_id) (refused provider response es)
refused-All provider response reference_id [] e = tt
refused-All provider response reference_id (t ∷ es) e =
    (e, refused-All provider response reference_id es e)

length-refused :
    (provider : Provider) (response : TxWebhookRsp) (es : List Throwable)
    → length (refused provider response es) ≡ length es
length-refused provider response [] = refl
length-refused provider response (t ∷ es) = ap suc (length-refused provider response es)

send_loop-Reported :
    (provider : Provider) (max_retries : ℕ) (response : TxWebhookRsp) (reference_id : String)
    (before : List Post)
    → 0 < max_retries
    → response.reference_id ≡ reference_id
    → Reported reference_id before (send_loop provider max_retries response before)
send_loop-Reported provider max_retries response reference_id before some_try e =
    let (es, out) = send_loop-posts provider max_retries response before in
    elim out [
      | inl (full, sent) ↦ (
        refused provider response es,
        sent,
        omega (arith, length-refused provider response es),
        refused-All provider response reference_id es e,
      )
      | inr (fewer, sent) ↦ (
        refused provider response es
            ++ (record { response = response; accepted = resolved tt } ∷ []),
        sent,
        omega (
          arith,
          length-append (refused provider response es)
              (record { response = response; accepted = resolved tt } ∷ []),
        ),
        All-append (λ post. post.response.reference_id ≡ reference_id)
            (refused provider response es)
            (record { response = response; accepted = resolved tt } ∷ [])
            (refused-All provider response reference_id es e) (e, tt),
      )
    ]

report-Reported :
    (p : Reporter) (status : TxStatus) (event : EventRecord) (own : List EventRecord)
    (before : List Post)
    → 0 < p.health_check_max_retries
    → find_failure own ≡ none
    → find (has_name status.success_event) own ≡ some event
    → Reported status.reference_id before (report p (some status) own before).1
unfolding report
report-Reported p status event own before some_try fine found =
    rw (fine, report_watched)
      (rw (found, report_success)
        (send_loop-Reported p.provider p.health_check_max_retries
          (webhook_response p status.type status event.event own) status.reference_id before
          some_try (webhook_response-reference_id p status.type status event.event own)))

some-injective : {A : Type 0} {a b : A} → Path (Option A) (some a) (some b) → a ≡ b
some-injective e = cc

module _ (Q : JobQueue) (L : IsJobQueue Q) (calculate_job_id : PublishRequest → String)
    (provider_id : String) where
  module _ (K : Keyspace) (H : WatchList) (S : Scheduler) (M : IsWatchList H) where
    -- The reference of the answer is the reference of the report. Take a request that the API has
    -- answered, where the jobs stand under the ids of their requests and no other request has this
    -- id: if the worker resolves the job that stands under the reference, and the events of its
    -- transaction hold no failure and the event that was planned for it, then the notifier, reading
    -- the status under the hash of the transaction, posts to the webhook at least once, if it may try
    -- at all, and each of these posts carries the reference.
    pub answered-Reported :
        (r : PublishRequest) (q : Q.State) (reference_id : String) (d : TransactionData)
        (world : World) (w : Publisher K H S) (planned : Plan) (p : Reporter) (event : EventRecord)
        (own : List EventRecord) (before : List Post)
        → IsKeyed Q L calculate_job_id provider_id q
        → NoCollision Q L calculate_job_id provider_id r q
        → (enqueue_request Q calculate_job_id provider_id r q).0 ≡ resolved reference_id
        → Q.job (enqueue_request Q calculate_job_id provider_id r q).1 reference_id ≡ some d
        → (process K H S world reference_id d w).0 ≡ resolved tt
        → plan world.builder d.request ≡ resolved planned
        → 0 < p.health_check_max_retries
        → find_failure own ≡ none
        → find (has_name planned.target_event) own ≡ some event
        → let watched = (process K H S world reference_id d w).1.watch_list in
          (tx_hash : String) × (nonce : ℕ) × (world.sign_and_send planned.extrinsic nonce
            ≡ resolved tx_hash)
          × Reported reference_id before (report p (H.hget watched tx_hash) own before).1
    unfolding job_data status_of
    answered-Reported r q reference_id d world w planned p event own before keyed alone answered job
          done built some_try fine found =
        let (id, there, others) =
          enqueue_request-job Q L calculate_job_id provider_id r q reference_id keyed alone
            answered in
        let reference : reference_id ≡ d.reference_id =
          id ∙ ap (λ x. x.reference_id) (some-injective (sym there ∙ job)) in
        let (a, sent, seen) = process-submits K H S world M reference_id d w done in
        let same : a.planned ≡ planned = resolved-injective (sym a.built ∙ built) in
        let status = status_of K H S d a.planned a.tx_hash a.era in
        let at : H.hget (process K H S world reference_id d w).1.watch_list a.tx_hash
            ≡ some status =
          seen a.tx_hash ∙ rw (==_refl a.tx_hash) in
        let found' =
          subst (λ (x : Plan). find (has_name x.target_event) own ≡ some event) (sym same) found in
        (
          a.tx_hash,
          a.nonce,
          subst (λ (x : Plan). world.sign_and_send x.extrinsic a.nonce ≡ resolved a.tx_hash) same
              a.sent,
          rw at (
              subst (λ (x : String). Reported x before (report p (some status) own before).1)
                (sym reference) (report-Reported p status event own before some_try fine found')),
        )
