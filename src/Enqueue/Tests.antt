-- ===== src/Enqueue/Tests.antt =====
-- The theorems on the queue at one request.
use account_service.Common.{◌≡◌, ◌≢◌, refl, String, none, some, string_eq}
use account_service.Js.{resolved}
use account_service.Types.{PublishRequest, create_handle_request, HandleRequest}
use account_service.Enqueue.{enqueue_request, job_data}
use account_service.Enqueue.Memory.{memory, memory-IsJobQueue, empty}
use account_service.Enqueue.Jobs.{IsKeyed, NoCollision, enqueue_request-job}

-- An id by the handle that is asked for.
abbrev pub job_id : PublishRequest → String
job_id (create_handle_request r) = r.payload.base_handle
job_id _ = "other"

abbrev pub request : HandleRequest
request = record {
  account_id = "5Grw";
  payload = record { base_handle = "bob"; expiration = 50 };
  proof = "0x01";
}

pub empty-IsKeyed : IsKeyed memory memory-IsJobQueue job_id "1" empty
empty-IsKeyed id d e = cc

pub empty-NoCollision :
    (r : PublishRequest) → NoCollision memory memory-IsJobQueue job_id "1" r empty
empty-NoCollision r d e = cc

pub holds_bob :
    (enqueue_request memory job_id "1" (create_handle_request request) empty).1 "bob"
    ≡ some (job_data memory job_id "1" (create_handle_request request))
unfolding enqueue_request string_eq job_data
holds_bob = refl

pub answers_bob :
    (enqueue_request memory job_id "1" (create_handle_request request) empty).0 ≡ resolved "bob"
unfolding enqueue_request
answers_bob = refl

enqueue_request-job_example :
    let q' = (enqueue_request memory job_id "1" (create_handle_request request) empty).1 in
    (◌≡◌ {A = String} "bob" "bob")
    × (memory.job q' "bob" ≡ some (job_data memory job_id "1" (create_handle_request request)))
    × ((n : String) → n ≢ "bob" → memory.job q' n ≡ none)
enqueue_request-job_example =
    enqueue_request-job memory memory-IsJobQueue job_id "1" (create_handle_request request) empty
      "bob" empty-IsKeyed (empty-NoCollision (create_handle_request request)) answers_bob

answers_again :
    (enqueue_request memory job_id "1"
      (create_handle_request request)
      (enqueue_request memory job_id "1" (create_handle_request request) empty).1).0
    ≡ resolved "bob"
unfolding enqueue_request
answers_again = refl
