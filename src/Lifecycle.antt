-- ===== src/Lifecycle.antt =====
-- The life of a job between the API and the publisher: apps/worker/src/worker.module.ts and
-- apps/api/src/api.module.ts (the options of the queue), the worker's calls of `process`, its retries,
-- and the tracking of running jobs in apps/worker/src/BaseConsumer.ts.
pub mod Memory
pub mod Failed
pub mod Spared
pub mod Delayed
pub mod Tests
use account_service.Common.{
  ℕ, ◌≡◌, ◌⊎◌, String, Bool, true, false, Option, none, some, List, [], ◌∷◌, ◌++◌, ◌==◌, string_eq,
  if◌then◌else◌, In,
}
use account_service.Js.{
  Throwable, Outcome, resolved, rejected, error, http_exception, delayed_error, end_of_chain_error,
  null_scan_error,
}
use account_service.Redis.{Keyspace}
use account_service.Redis.WatchList.{WatchList}
use account_service.Scheduler.{Scheduler}
use account_service.Types.{PublishRequest, TransactionData}
use account_service.Enqueue.{JobQueue, enqueue_request}
use account_service.Publisher.{
  Publisher, World, QueueCall, pause, resume, retry, move_to_delayed, process, check_capacity,
}
use account_service.Publisher.Decide.{FailedJob}
use account_service.Consumer.{JobEvent, on_events}

pub data Status : Type 0 where
  waiting active delayed completed : Status
  -- with the message of the error
  failed : Option String → Status

-- The queue of bullmq with the options of the modules: one attempt, failed jobs are kept, and of the
-- completed ones the last 20. bullmq is not in the repository: an interface.
pub record Jobs : Type 1 where
  pub queue : JobQueue
  pub status : queue.State → String → Option Status
  pub get_failed : queue.State → List FailedJob
  -- the next job for the worker
  pub take : queue.State → Option (String × queue.State)
  pub complete : queue.State → String → queue.State
  pub fail : queue.State → String → Option String → queue.State
  pub delay : queue.State → String → queue.State
  -- the delay of a job is over
  pub promote : queue.State → String → queue.State
  pub retry : queue.State → String → queue.State

-- The documented behaviour, for the jobs that fail.
pub record IsJobs (Q : Jobs) : Type 0 where
  pub add_fresh :
      (s t : Q.queue.State) (id : String) (d : TransactionData)
      → Q.status s id ≡ none
      → Q.queue.add s id d ≡ resolved t
      → (n : String) → Q.status t n ≡ (if n == id then some waiting else Q.status s n)
  pub add_taken :
      (s t : Q.queue.State) (id : String) (d : TransactionData) (old : Status)
      → Q.status s id ≡ some old
      → Q.queue.add s id d ≡ resolved t
      → (n : String) → Q.status t n ≡ Q.status s n
  pub take_waiting :
      (s t : Q.queue.State) (id : String)
      → Q.take s ≡ some (id, t)
      → (Q.status s id ≡ some waiting)
        × ((n : String) → Q.status t n ≡ (if n == id then some active else Q.status s n))
  -- completed jobs may be removed
  pub complete_other :
      (s : Q.queue.State) (id n : String)
      → (n == id) ≡ false
      → (Q.status (Q.complete s id) n ≡ Q.status s n) ⊎ (Q.status s n ≡ some completed)
  pub fail_status :
      (s : Q.queue.State) (id : String) (reason : Option String) (n : String)
      → Q.status (Q.fail s id reason) n ≡ (if n == id then some (failed reason) else Q.status s n)
  pub delay_other :
      (s : Q.queue.State) (id n : String)
      → (n == id) ≡ false
      → Q.status (Q.delay s id) n ≡ Q.status s n
  pub delay_active :
      (s : Q.queue.State) (id : String)
      → Q.status s id ≡ some active
      → Q.status (Q.delay s id) id ≡ some delayed
  pub promote_other :
      (s : Q.queue.State) (id n : String)
      → (n == id) ≡ false
      → Q.status (Q.promote s id) n ≡ Q.status s n
  pub retry_other :
      (s : Q.queue.State) (id n : String)
      → (n == id) ≡ false
      → Q.status (Q.retry s id) n ≡ Q.status s n
  pub retry_failed :
      (s : Q.queue.State) (id : String) (reason : Option String)
      → Q.status s id ≡ some (failed reason)
      → Q.status (Q.retry s id) id ≡ some waiting
  pub get_failed_status :
      (s : Q.queue.State) (job : FailedJob)
      → In job (Q.get_failed s)
      → Q.status s job.id ≡ some (failed job.failed_reason)

module _ (Q : Jobs) where
  -- What the publisher asks of the queue. That a paused queue gives no jobs is in Publisher/Checks.
  pub by_call : QueueCall → Q.queue.State → Q.queue.State
  by_call pause s = s
  by_call resume s = s
  by_call (retry id) s = Q.retry s id
  by_call (move_to_delayed id) s = Q.delay s id

  pub by_calls : List QueueCall → Q.queue.State → Q.queue.State
  unfolding by_call
  by_calls [] s = s
  by_calls (call ∷ calls) s = by_calls calls (by_call call s)

  -- What bullmq's worker makes of the outcome of `process`, and the event that it emits. A
  -- `DelayedError` says that the job was moved already: neither event is job_events.
  pub settle : Outcome (Unit {0}) → String → Q.queue.State → Q.queue.State
  settle (resolved u) id s = Q.complete s id
  settle (rejected (error m)) id s = Q.fail s id (some m)
  settle (rejected (http_exception m code)) id s = Q.fail s id (some m)
  settle (rejected delayed_error) id s = s
  settle (rejected (end_of_chain_error m)) id s = Q.fail s id (some m)
  settle (rejected (null_scan_error m)) id s = Q.fail s id (some m)

  -- The jobs, and the set of running ones that the consumer keeps.
  pub record Pipeline : Type 0 where
    pub jobs : Q.queue.State
    pub actives : List String

  -- What `getFailed` answers is what the queue holds, or an error.
  abbrev pub Agrees : World → Q.queue.State → Type 0
  Agrees world s =
      (world.failed_jobs ≡ resolved (Q.get_failed s))
      ⊎ ((e : Throwable) × (world.failed_jobs ≡ rejected e))

pub job_events : Outcome (Unit {0}) → String → List JobEvent
job_events (resolved u) id = JobEvent.completed id ∷ []
job_events (rejected (error m)) id = JobEvent.failed id ∷ []
job_events (rejected (http_exception m code)) id = JobEvent.failed id ∷ []
job_events (rejected delayed_error) id = []
job_events (rejected (end_of_chain_error m)) id = JobEvent.failed id ∷ []
job_events (rejected (null_scan_error m)) id = JobEvent.failed id ∷ []

module _ (K : Keyspace) (H : WatchList) (S : Scheduler) (Q : Jobs) where
  -- The job is taken, processed and settled. `t` are the jobs once it is taken.
  pub after_work :
      World → Publisher K H S → String → TransactionData → Q.queue.State → Pipeline Q → Pipeline Q
  unfolding by_calls settle job_events
  after_work world p id d t s =
      let (out, q) = process K H S world id d (record p { calls = [] }) in
      record {
        jobs = settle Q out id (by_calls Q q.calls t);
        actives = on_events (JobEvent.active id ∷ job_events out id) s.actives;
      }

  -- `checkCapacity` by the timer.
  pub after_check : World → Publisher K H S → Pipeline Q → Pipeline Q
  unfolding by_calls
  after_check world p s = record s {
    jobs = by_calls Q (check_capacity K H S world (record p { calls = [] })).1.calls s.jobs;
  }

  module _ (calculate_job_id : PublishRequest → String) (provider_id : String) where
    -- The answers of the outside, and what else the publisher's state holds, may differ from step to
    -- step.
    pub data Step (s : Pipeline Q) : Pipeline Q → Type 0 where
      post :
          (request : PublishRequest)
          → Step s (record s {
            jobs = (enqueue_request Q.queue calculate_job_id provider_id request s.jobs).1;
          })
      work :
          (world : World) (p : Publisher K H S) (id : String) (d : TransactionData)
          (t : Q.queue.State)
          → Q.take s.jobs ≡ some (id, t)
          → Q.queue.job t id ≡ some d
          → Agrees Q world t
          → Step s (after_work world p id d t s)
      check :
          (world : World) (p : Publisher K H S)
          → Agrees Q world s.jobs
          → Step s (after_check world p s)
      promoted :
          (id : String)
          → Q.status s.jobs id ≡ some delayed
          → Step s (record s { jobs = Q.promote s.jobs id })

    pub data Reaches (s : Pipeline Q) : Pipeline Q → Type 0 where
      here : Reaches s s
      next : {t u : Pipeline Q} → Reaches s t → Step t u → Reaches s u
