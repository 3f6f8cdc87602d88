-- ===== src/Journey/Tests.antt =====
-- The way of a request for a handle.
use account_service.Common.{ℕ, ◌≡◌, refl, String, [], ◌∷◌, string_eq, ℕ_discrete, arith}
use account_service.Js.{resolved}
use account_service.Redis.Memory
use account_service.Redis.WatchList
use account_service.Scheduler.Memory as Timers
use account_service.Types.{TransactionData, create_handle_request}
use account_service.Enqueue.{job_data}
use account_service.Enqueue.Memory as Queue
use account_service.Enqueue.Tests.{
  job_id, request, empty-IsKeyed, empty-NoCollision, answers_bob, holds_bob,
}
use account_service.Nonce.{get_next_nonce}
use account_service.Notifier.Report.{report, has_name, find_failure}
use account_service.Notifier.Tests.{reporter}
use account_service.Notifier.Scenarios.{handle_record}
use account_service.Publisher.{process}
use account_service.Publisher.Decide.{decide, retried}
use account_service.Publisher.Planning.{Plan, plan, pay_with_capacity, claim_handle, inner}
use account_service.Publisher.Tests as Jobs
use account_service.Journey.{Reported, answered-Reported}

abbrev data_of_bob : TransactionData
data_of_bob = record {
  request = create_handle_request request;
  provider_id = "1";
  reference_id = "bob";
}

abbrev planned : Plan
planned = record {
  extrinsic = pay_with_capacity (claim_handle "5Grw" "0x01" "bob" 50);
  era_of = inner (claim_handle "5Grw" "0x01" "bob" 50);
  target_event = record { section = "handles"; method = "HandleClaimed" };
}

submits_bob :
    (process Memory.memory WatchList.memory Timers.memory Jobs.world "bob" data_of_bob Jobs.fresh).0
    ≡ resolved tt
unfolding process plan decide retried ℕ_discrete string_eq get_next_nonce
submits_bob = refl

answered-Reported_example :
    let watched =
      (process Memory.memory WatchList.memory Timers.memory Jobs.world "bob" data_of_bob
        Jobs.fresh).1.watch_list in
    (tx_hash : String) × (nonce : ℕ) × (Jobs.world.sign_and_send planned.extrinsic nonce
      ≡ resolved tx_hash)
    × Reported "bob" []
        (report reporter (WatchList.memory.hget watched tx_hash) (handle_record ∷ []) []).1
unfolding job_data plan find_failure has_name string_eq
answered-Reported_example =
    answered-Reported Queue.memory Queue.memory-IsJobQueue job_id "1" Memory.memory WatchList.memory
      Timers.memory WatchList.memory-IsWatchList (create_handle_request request) Queue.empty "bob"
      data_of_bob Jobs.world Jobs.fresh planned reporter handle_record (handle_record ∷ []) []
      empty-IsKeyed (empty-NoCollision (create_handle_request request)) answers_bob holds_bob
      submits_bob refl (omega arith) refl refl
