-- ===== src/Lifecycle/Tests.antt =====
-- The theorems on the life of a job, at one request for a handle.
use account_service.Common.{
  ℕ, ◌==◌, if◌then◌else◌, ◌≡◌, refl, ◌*◌, ◌⊎◌, String, Option, none, some, List, [], ◌∷◌, string_eq,
}
use account_service.Js.{Throwable, resolved, rejected}
use account_service.Redis.Memory as Keys
use account_service.Redis.WatchList
use account_service.Scheduler.Memory as Timers
use account_service.Types.{PublishRequest}
use account_service.Enqueue.{enqueue_request}
use account_service.Publisher.Decide.{failed_for_capacity}
use account_service.Publisher.Tests.{job, fresh, exhausted_world, no_capacity}
use account_service.Consumer.{
  on_events, JobEvent, on_module_destroy, max_wait_for_grace_full_shutdown_ms,
  delay_to_check_for_shutdown_ms,
}
use account_service.Consumer.Shutdown.{running}
use account_service.Consumer.Tracking.{Tracked}
use account_service.Lifecycle.{
  Status, waiting, delayed, failed, Pipeline, post, Reaches, here, next, after_work,
}
use account_service.Lifecycle.Memory.{memory, memory-IsJobs, with_status}
use account_service.Lifecycle.Failed.{failed-again}
use account_service.Lifecycle.Delayed.{delayed-waits}

abbrev job_id : PublishRequest → String
job_id request = "ref-1"

-- One job, in the given status.
abbrev one_job : Status → Pipeline memory
one_job status = record {
  jobs = record {
    jobs = λ id. if id == "ref-1" then some job else none;
    status = λ id. if id == "ref-1" then some status else none;
    ids = "ref-1" ∷ [];
  };
  actives = [];
}

abbrev reason : Option String
reason = some "1014: Priority is too low"

-- The same request is posted twice more.
abbrev twice_more :
    (u : Pipeline memory) × Reaches Keys.memory WatchList.memory Timers.memory memory job_id "1"
      (one_job (failed reason))
      u
twice_more = (_, next (next here (post job.request)) (post job.request))

failed-again_example :
    let (answer, after) = enqueue_request memory.queue job_id "1" job.request twice_more.0.jobs in
    (memory.status twice_more.0.jobs "ref-1" ≡ some (failed reason))
    × (memory.status after "ref-1" ≡ some (failed reason))
    × ((answer ≡ resolved "ref-1") ⊎ ((e : Throwable) × (answer ≡ rejected e)))
unfolding failed_for_capacity string_eq
failed-again_example =
    failed-again Keys.memory WatchList.memory Timers.memory memory memory-IsJobs job_id "1"
      job.request reason refl refl twice_more.1

-- No event comes while the consumer waits.
abbrev quiet : ℕ → List JobEvent
quiet round = []

abbrev taken : memory.queue.State
taken = with_status Status.active (one_job waiting).jobs "ref-1"

abbrev sent_back : Pipeline memory
sent_back =
    after_work Keys.memory WatchList.memory Timers.memory memory exhausted_world fresh "ref-1" job
      taken (one_job waiting)

delayed-waits_example :
    (memory.status sent_back.jobs "ref-1" ≡ some delayed)
    × ((delays : ℕ) × (on_module_destroy 21 (some []) quiet sent_back.actives
          ≡ some (delays, running 0 delays quiet (on_events [] sent_back.actives)))
        × (delays * delay_to_check_for_shutdown_ms ≡ max_wait_for_grace_full_shutdown_ms)
        × Tracked "ref-1" (running 0 delays quiet (on_events [] sent_back.actives)))
unfolding string_eq
delayed-waits_example =
    delayed-waits Keys.memory WatchList.memory Timers.memory memory memory-IsJobs exhausted_world
      fresh "ref-1" job taken (one_job waiting) [] quiet refl no_capacity tt (λ round. tt)
