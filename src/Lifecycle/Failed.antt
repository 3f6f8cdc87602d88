-- ===== src/Lifecycle/Failed.antt =====
-- A job that has failed, and the same request posted again.
use account_service.Common.{
  ◌≡◌, sym, ◌∙◌, ◌⊎◌, inl, inr, String, false, Option, some, List, [], map, string_eq, All,
}
use account_service.Js.{resolved-injective, Outcome-cases, Throwable, resolved, rejected}
use account_service.Redis.{Keyspace}
use account_service.Redis.WatchList.{WatchList}
use account_service.Scheduler.{Scheduler}
use account_service.Types.{PublishRequest, TransactionData}
use account_service.Enqueue.{enqueue_request, job_data}
use account_service.Publisher.{Publisher, World, retry, process, check_capacity}
use account_service.Publisher.Calls.{check_capacity-calls, process-calls}
use account_service.Publisher.Decide.{FailedJob, retried, failed_for_capacity}
use account_service.Lifecycle.{
  Jobs, IsJobs, waiting, delayed, failed, by_calls, Pipeline, after_work, after_check, Agrees, Step,
  post, work, check, promoted, Reaches, here, next,
}
use account_service.Lifecycle.Spared.{
  Fails, Spares, by_calls-Fails, settle-Fails, retries-Spare, apart, post-Fails,
}

module _ (Q : Jobs) (L : IsJobs Q) (n : String) (reason : Option String)
    (other_reason : failed_for_capacity (record { id = n; failed_reason = reason }) ≡ false) where
  module _ (K : Keyspace) (H : WatchList) (S : Scheduler) where
    asked-Spare :
        (world : World) (t : Q.queue.State)
        → Fails Q L n reason t
        → Agrees Q world t
        → (jobs : List FailedJob) → world.failed_jobs ≡ resolved jobs
        → All (Spares Q L n reason) (map retry (retried jobs))
    asked-Spare world t e (inl answer) jobs got =
        let same : Q.get_failed t ≡ jobs = resolved-injective (sym answer ∙ got) in
        retries-Spare Q L n reason other_reason t e (retried jobs) (λ id there. rw same there)
    asked-Spare world t e (inr (wrong, answer)) jobs got = cc

    work-Fails :
        (world : World) (p : Publisher K H S) (id : String) (d : TransactionData)
        (t : Q.queue.State) (s : Pipeline Q)
        → Q.take s.jobs ≡ some (id, t)
        → Agrees Q world t
        → Fails Q L n reason s.jobs
        → Fails Q L n reason (after_work K H S Q world p id d t s).jobs
    unfolding after_work
    work-Fails world p id d t s took agrees e =
        let (waited, at) = L.take_waiting s.jobs t id took in
        let other =
          apart Q L n reason other_reason s.jobs id (some waiting) e waited (λ wrong. cc) in
        let fails : Fails Q L n reason t = at n ∙ rw other e in
        let empty = record p { calls = [] } in
        let out = process K H S world id d empty in
        settle-Fails Q L n reason out.0 id (by_calls Q out.1.calls t) other (
          by_calls-Fails Q L n reason out.1.calls t
            (process-calls K H S world (Spares Q L n reason) tt tt
              (asked-Spare world t fails agrees) id d empty other tt)
            fails)

    check-Fails :
        (world : World) (p : Publisher K H S) (s : Pipeline Q)
        → Agrees Q world s.jobs
        → Fails Q L n reason s.jobs
        → Fails Q L n reason (after_check K H S Q world p s).jobs
    unfolding after_check
    check-Fails world p s agrees e =
        let empty = record p { calls = [] } in
        by_calls-Fails Q L n reason (check_capacity K H S world empty).1.calls s.jobs
          (check_capacity-calls K H S world (Spares Q L n reason) tt tt
            (asked-Spare world s.jobs e agrees) empty tt)
          e

    module _ (calculate_job_id : PublishRequest → String) (provider_id : String) where
      Step-Fails :
          {s u : Pipeline Q}
          → Step K H S Q calculate_job_id provider_id s u
          → Fails Q L n reason s.jobs
          → Fails Q L n reason u.jobs
      Step-Fails (post request) e =
          post-Fails Q L n reason other_reason calculate_job_id provider_id request _ e
      Step-Fails (work world p id d t took at agrees) e = work-Fails world p id d t _ took agrees e
      Step-Fails (check world p agrees) e = check-Fails world p _ agrees e
      Step-Fails {s} (promoted id postponed) e =
          L.promote_other s.jobs id n
            (apart Q L n reason other_reason s.jobs id (some delayed) e postponed (λ wrong. cc))
          ∙ e

      Reaches-Fails :
          {s u : Pipeline Q}
          → Reaches K H S Q calculate_job_id provider_id s u
          → Fails Q L n reason s.jobs
          → Fails Q L n reason u.jobs
      Reaches-Fails here e = e
      Reaches-Fails (next run step) e = Step-Fails step (Reaches-Fails run e)

-- A request whose job has failed is never processed again: where its id is the id of a job that failed
-- with a reason other than the fees, the job is failed with that reason ever after, however often the
-- same request is posted again, and whatever else is posted, processed, retried or checked; and each
-- of these posts that the queue takes is answered with the reference of that job.
pub failed-again :
    (K : Keyspace) (H : WatchList) (S : Scheduler) (Q : Jobs) (L : IsJobs Q)
    (calculate_job_id : PublishRequest → String) (provider_id : String) (request : PublishRequest)
    (reason : Option String) {s u : Pipeline Q}
    → let id = calculate_job_id request in
      failed_for_capacity (record { id = id; failed_reason = reason }) ≡ false
      → Q.status s.jobs id ≡ some (failed reason)
      → Reaches K H S Q calculate_job_id provider_id s u
      → let (answer, after) = enqueue_request Q.queue calculate_job_id provider_id request u.jobs in
        (Q.status u.jobs id ≡ some (failed reason))
        × (Q.status after id ≡ some (failed reason))
        × ((answer ≡ resolved id) ⊎ ((e : Throwable) × (answer ≡ rejected e)))
unfolding enqueue_request job_data
failed-again K H S Q L calculate_job_id provider_id request reason {s} {u} other fails run =
    let id = calculate_job_id request in
    let still = Reaches-Fails Q L id reason other K H S calculate_job_id provider_id run fails in
    (
      still,
      post-Fails Q L id reason other calculate_job_id provider_id request u.jobs still,
      elim (Outcome-cases
          (Q.queue.add u.jobs id (job_data Q.queue calculate_job_id provider_id request))) [
            | inl (t, q) ↦ inl (rw (q, enqueue_request))
            | inr (e, q) ↦ inr (e, rw (q, enqueue_request))
          ],
    )
