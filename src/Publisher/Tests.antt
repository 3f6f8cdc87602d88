-- ===== src/Publisher/Tests.antt =====
-- The theorems on the publisher at one request for a handle.
use account_service.Common.{
  ◌+◌, ◌<◌, ◌≡◌, refl, ◌↔◌, String, true, false, none, some, List, [], ◌∷◌, ◌++◌, ◌==◌, string_eq,
  ℕ_discrete, arith, if◌then◌else◌,
}
use account_service.Js.{Outcome, resolved, rejected, error}
use account_service.Redis.Memory
use account_service.Redis.WatchList
use account_service.Scheduler.Memory as Timers
use account_service.Nonce.{get_next_nonce}
use account_service.Nonce.Repeats.{index_of}
use account_service.Types.{TransactionData, create_handle_request}
use account_service.Publisher.{
  Publisher, World, pause, check_capacity, process, status_of, epoch_timeout,
}
use account_service.Publisher.Planning.{plan}
use account_service.Publisher.Decide.{Number, percentage, CapacityInfo, FailedJob, decide, retried}
use account_service.Publisher.Submit.{Accepted, AtMostOne}
use account_service.Publisher.Process.{process-resolved_iff, process-submits, process-rejected}
use account_service.Publisher.Capacity.{check_capacity_iff, check_capacity_fraction}
use account_service.Publisher.Wakes.{Timer, check_capacity-decided}

abbrev pub job : TransactionData
job = record {
  request = create_handle_request (record {
    account_id = "5Grw";
    payload = record { base_handle = "bob"; expiration = 50 };
    proof = "0x01";
  });
  provider_id = "1";
  reference_id = "ref-1";
}

abbrev pub info : CapacityInfo
info = record {
  current_epoch = 5;
  current_block_number = 480;
  next_epoch_start = 500;
  remaining_capacity = 90;
  total_capacity_issued = 200;
}

abbrev failed_jobs : List FailedJob
failed_jobs =
    record { id = "j1"; failed_reason = none }
    ∷ record {
      id = "j2";
      failed_reason =
          some
            "1010: Invalid Transaction: Inability to pay some fees (e.g. account balance too low)";
    }
    ∷ []

-- The service may use half of what is issued, or as many percent as `limit` says.
abbrev pub world_with : Number → CapacityInfo → Outcome String → World
world_with limit capacity answer = record {
  capacity_limit = record { type = percentage; value = limit };
  capacity_info = resolved capacity;
  paused = resolved tt;
  failed_jobs = resolved failed_jobs;
  latest_finalized = resolved 470;
  provider_keys = resolved tt;
  chain_nonce = resolved (index_of 7);
  builder = record {
    decode_address = λ address. resolved address;
    tx = λ call. resolved tt;
    create_type = λ calls. resolved tt;
  };
  create_extrinsic = λ extrinsic. resolved tt;
  sign_and_send = λ extrinsic nonce. answer;
  mortal_era = λ era last. resolved (last, last + 64);
}

abbrev pub half : Number
half = record { whole = 50; has_fraction = false }

abbrev half_percent : Number
half_percent = record { whole = 0; has_fraction = true }

abbrev pub world : World
world = world_with half info (resolved "0xaa")

abbrev pub exhausted_world : World
exhausted_world = world_with half (record info { remaining_capacity = 0 }) (resolved "0xaa")

abbrev pub refusing_world : World
refusing_world = world_with half info (rejected (error "1014: Priority is too low"))

abbrev pub fresh : Publisher Memory.memory WatchList.memory Timers.memory
fresh = record {
  cache = Memory.empty;
  watch_list = WatchList.nothing;
  registry = Timers.empty;
  calls = [];
  submitted = [];
}

pub no_capacity :
    (check_capacity Memory.memory WatchList.memory Timers.memory exhausted_world fresh).0 ≡ false
unfolding check_capacity decide
no_capacity = refl

resolves :
    (process Memory.memory WatchList.memory Timers.memory world "j3" job fresh).0 ≡ resolved tt
unfolding process plan decide retried ℕ_discrete string_eq get_next_nonce
resolves = refl

process-resolved_iff_example :
    ((process Memory.memory WatchList.memory Timers.memory world "j3" job fresh).0 ≡ resolved tt)
    ↔ (((check_capacity Memory.memory WatchList.memory Timers.memory world fresh).0 ≡ true)
        × Accepted Memory.memory WatchList.memory Timers.memory world job Memory.empty)
process-resolved_iff_example =
    process-resolved_iff Memory.memory WatchList.memory Timers.memory world "j3" job fresh

process-submits_example :
    let out = process Memory.memory WatchList.memory Timers.memory world "j3" job fresh in
    (a : Accepted Memory.memory WatchList.memory Timers.memory world job Memory.empty)
    × (out.1.submitted ≡ [] ++ ((a.planned.extrinsic, a.nonce) ∷ []))
    × ((k : String)
        → WatchList.memory.hget out.1.watch_list k ≡ (
            if k == a.tx_hash
            then some (
                status_of Memory.memory WatchList.memory Timers.memory job a.planned a.tx_hash
                  a.era)
            else none))
process-submits_example =
    process-submits Memory.memory WatchList.memory Timers.memory world WatchList.memory-IsWatchList
      "j3" job fresh resolves

refuses :
    (process Memory.memory WatchList.memory Timers.memory refusing_world "j3" job fresh).0
    ≡ rejected (error "1014: Priority is too low")
unfolding process plan decide retried ℕ_discrete string_eq get_next_nonce
refuses = refl

process-rejected_example :
    let out = process Memory.memory WatchList.memory Timers.memory refusing_world "j3" job fresh in
    (out.1.watch_list ≡ WatchList.nothing) × AtMostOne [] out.1.submitted
process-rejected_example =
    process-rejected Memory.memory WatchList.memory Timers.memory refusing_world "j3" job fresh
      (error "1014: Priority is too low") refuses

check_capacity_iff_example :
    ((check_capacity Memory.memory WatchList.memory Timers.memory world fresh).0 ≡ true)
    ↔ ((0 < 90) × (0 < 100))
check_capacity_iff_example =
    check_capacity_iff Memory.memory WatchList.memory Timers.memory world fresh info 0 refl refl
      refl

-- Capacity remains, none of the half percent that is allowed would.
check_capacity_fraction_example :
    check_capacity Memory.memory WatchList.memory Timers.memory
      (world_with half_percent info (resolved "0xaa"))
      fresh
    ≡ (true, fresh)
check_capacity_fraction_example =
    check_capacity_fraction Memory.memory WatchList.memory Timers.memory
      (world_with half_percent info (resolved "0xaa")) fresh info 0 refl refl refl refl
      (omega arith)

used_up :
    decide exhausted_world.capacity_limit (record info { remaining_capacity = 0 }) 0 ≡ resolved true
unfolding decide
used_up = refl

check_capacity-decided_example :
    let (available, q) =
      check_capacity Memory.memory WatchList.memory Timers.memory exhausted_world fresh in
    (available ≡ false)
    × (q.calls ≡ [] ++ (pause ∷ []))
    × Timer Memory.memory WatchList.memory Timers.memory exhausted_world q.registry (some 240000)
unfolding epoch_timeout
check_capacity-decided_example =
    check_capacity-decided Memory.memory WatchList.memory Timers.memory exhausted_world
      Timers.memory-IsScheduler fresh (record info { remaining_capacity = 0 }) 0 failed_jobs true
      refl refl used_up refl refl

-- The second job is retried.
one_retried : retried failed_jobs ≡ "j2" ∷ []
unfolding retried
one_retried = refl
