-- ===== src/Enqueue.antt =====
-- libs/common/src/services/enqueue-request.service.ts: a request becomes a job of the publish queue.
pub mod Memory
pub mod Jobs
pub mod Tests
use account_service.Common.{◌≡◌, String, Option, none, some, ◌==◌, string_eq, if◌then◌else◌}
use account_service.Js.{Outcome, resolved, rejected}
use account_service.Types.{PublishRequest, TransactionData}

-- The queue of bullmq, by the ids of its jobs. It is not in the repository: an interface. `add` is
-- rejected where the connection to Redis is lost.
pub record JobQueue : Type 1 where
  pub State : Type 0
  pub job : State → String → Option TransactionData
  pub add : State → String → TransactionData → Outcome State

-- The documented behaviour of `add` with a `jobId`: a job is added unless there is one with that id.
pub record IsJobQueue (Q : JobQueue) : Type 0 where
  pub add_fresh :
      (s t : Q.State) (id : String) (d : TransactionData)
      → Q.job s id ≡ none
      → Q.add s id d ≡ resolved t
      → (n : String) → Q.job t n ≡ (if n == id then some d else Q.job s n)
  pub add_taken :
      (s t : Q.State) (id : String) (d old : TransactionData)
      → Q.job s id ≡ some old
      → Q.add s id d ≡ resolved t
      → (n : String) → Q.job t n ≡ Q.job s n

-- `calculateJobId` is the SHA-1 of the request's JSON, both of Node: a parameter. The provider's id is
-- a setting.
module _ (Q : JobQueue) (calculate_job_id : PublishRequest → String) (provider_id : String) where
  unfoldable pub job_data : PublishRequest → TransactionData
  job_data request = record {
    request = request;
    provider_id = provider_id;
    reference_id = calculate_job_id request;
  }

  -- The result is the `referenceId` of the response.
  unfoldable pub enqueue_request : PublishRequest → Q.State → Outcome String × Q.State
  unfolding job_data
  enqueue_request request q =
      let d = job_data request in
      elim (Q.add q d.reference_id d) [
        | rejected e ↦ (rejected e, q)
        | resolved q' ↦ (resolved d.reference_id, q')
      ]
