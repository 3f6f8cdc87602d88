-- ===== src/Notifier/Scenarios.antt =====
-- The theorems on the responses, on an interrupted block and on a scan, at one watched transaction or
-- two.
use account_service.Common.{
  ℕ, All, In, ◌⊎◌, ◌≡◌, refl, String, some, [], ◌∷◌, nat_eq, true, string_eq, ℕ_discrete, arith,
}
use account_service.Js.{Throwable, resolved, end_of_chain_error}
use account_service.Redis.Memory
use account_service.Redis.WatchList
use account_service.Scheduler.Memory as Timers
use account_service.Types.{TxStatus, TransactionData, create_handle, create_handle_request}
use account_service.Decimal.{to_string}
use account_service.Scanner.{
  BlockHash, scan_loop, scan_block, base_check_scan_parameters, set_scan_parameters,
}
use account_service.Notifier.{
  methods, exec, expired, scan_parameters, check_scan_parameters, set_last_seen_block_number,
}
use account_service.Notifier.Reported.{IsReport, visited, scan_loop-AllReports}
use account_service.Scanner.Loop.{Follows}
use account_service.Notifier.Settled.{Settled, scan_loop-Settled}
use account_service.Chain.{EventRecord, handle_claimed}
use account_service.Publisher.{status_of}
use account_service.Publisher.Planning.{Plan, Builder, plan, pay_with_capacity, claim_handle, inner}
use account_service.Notifier.Interrupted.{interrupted_block, interrupted_block-hget}
use account_service.Notifier.Typed.{IsResponse, webhook_response-IsResponse}
use account_service.Notifier.{Chain}
use account_service.Notifier.Report.{webhook_response, has_name}
use account_service.Notifier.{
  Notifier, process_current_block, extrinsic_indices, found_in_block, process_found, is_relevant,
}
use account_service.Notifier.Report.{handle_extrinsics}
use account_service.Notifier.Tests.{claimed, good_block, chain, waiting, waiting-IsKeyed, reporter}

abbrev request_of_bob : TransactionData
request_of_bob = record {
  request = create_handle_request (record {
    account_id = "5Grw";
    payload = record { base_handle = "ab"; expiration = 50 };
    proof = "0x01";
  });
  provider_id = "1";
  reference_id = "ref-1";
}

abbrev planned : Plan
planned = record {
  extrinsic = pay_with_capacity (claim_handle "5Grw" "0x01" "ab" 50);
  era_of = inner (claim_handle "5Grw" "0x01" "ab" 50);
  target_event = record { section = "handles"; method = "HandleClaimed" };
}

abbrev pub handle_record : EventRecord
handle_record = record { phase = some 1; event = handle_claimed "7" "0x6162" }

abbrev builder : Builder
builder = record {
  decode_address = λ address. resolved address;
  tx = λ call. resolved tt;
  create_type = λ calls. resolved tt;
}

webhook_response-IsResponse_example :
    let status =
      status_of Memory.memory WatchList.memory Timers.memory request_of_bob planned "0xaa"
        (10, 74) in
    IsResponse reporter.utf8_of_hex create_handle "1" "ref-1"
      (handle_record ∷ [])
      handle_record.event
      (webhook_response reporter status.type status handle_record.event (handle_record ∷ []))
unfolding plan has_name string_eq
webhook_response-IsResponse_example =
    webhook_response-IsResponse Memory.memory WatchList.memory Timers.memory reporter builder
      request_of_bob planned "0xaa" (10, 74) handle_record (handle_record ∷ []) refl refl tt

-- A job watches another transaction while the block is reported.
abbrev watch_another : WatchList.memory.State → WatchList.memory.State
watch_another s = WatchList.memory.hset s "0xdd" (record claimed { tx_hash = "0xdd" })

abbrev interrupted : Notifier Memory.memory WatchList.memory
interrupted =
    (interrupted_block Memory.memory WatchList.memory chain (λ s. s) watch_another good_block 12
      waiting).1

processes_interrupted :
    interrupted_block Memory.memory WatchList.memory chain
      (λ s. s)
      watch_another
      good_block
      12
      waiting
    ≡ (resolved tt, interrupted)
unfolding interrupted_block found_in_block process_found handle_extrinsics extrinsic_indices
    string_eq is_relevant ℕ_discrete
processes_interrupted = refl

interrupted_block-hget_example :
    (WatchList.memory.hget interrupted.watch_list "0xdd"
      ≡ some (record claimed { tx_hash = "0xdd" }))
    × (interrupted_block Memory.memory WatchList.memory chain
          (λ s. s)
          (λ s. s)
          good_block
          12
          waiting
        ≡ process_current_block Memory.memory WatchList.memory chain good_block 12 waiting)
unfolding string_eq
interrupted_block-hget_example =
    interrupted_block-hget Memory.memory WatchList.memory chain WatchList.memory-IsWatchList
      (λ s. s) watch_another good_block 12 waiting interrupted ("0xbb" ∷ "0xaa" ∷ []) "0xdd"
      waiting-IsKeyed refl processes_interrupted

-- Beside the transaction of the good block, one that the block does not hold is watched.
abbrev elsewhere : TxStatus
elsewhere = record claimed { tx_hash = "0xcc" }

abbrev both_waiting : Notifier Memory.memory WatchList.memory
both_waiting = record waiting {
  watch_list = WatchList.memory.hset waiting.watch_list "0xcc" elsewhere;
}

-- The chain is finalized up to block 12, and the scan asks for finalized blocks only.
abbrev finalized : Chain
finalized = record chain { latest_finalized = resolved 12; trust_unfinalized_blocks = true }

abbrev end_of_finalized : Throwable
end_of_finalized = end_of_chain_error "Latest finalized block (12) encountered"

abbrev scanned : Notifier Memory.memory WatchList.memory
scanned =
    (scan_block (methods Memory.memory WatchList.memory finalized) 12 good_block both_waiting).1

ends_behind_12 :
    scan_loop (methods Memory.memory WatchList.memory finalized) 2 12 good_block both_waiting
    ≡ some (end_of_finalized, scanned)
unfolding scan_loop scan_block process_current_block found_in_block process_found handle_extrinsics
    extrinsic_indices string_eq is_relevant ℕ_discrete check_scan_parameters
    base_check_scan_parameters set_scan_parameters scan_parameters set_last_seen_block_number exec
    expired to_string
ends_behind_12 = refl

both_waiting-IsKeyed :
    (k : String) (v : TxStatus)
    → WatchList.memory.hget both_waiting.watch_list k ≡ some v
    → v.tx_hash ≡ k
both_waiting-IsKeyed k v e = ground arith

scan_loop-Settled_example :
    Settled Memory.memory WatchList.memory finalized Memory.memory-IsKeyspace
      WatchList.memory-IsWatchList 12 good_block both_waiting scanned end_of_finalized
scan_loop-Settled_example =
    scan_loop-Settled Memory.memory WatchList.memory finalized Memory.memory-IsKeyspace
      WatchList.memory-IsWatchList 2 12 good_block both_waiting scanned end_of_finalized
      both_waiting-IsKeyed ends_behind_12

scan_loop-AllReports_example :
    (j : ℕ) × (h' : BlockHash) × (w₁ : Notifier Memory.memory WatchList.memory) × (path : Follows
      (methods Memory.memory WatchList.memory finalized)
      12
      good_block
      both_waiting
      j
      h'
      w₁)
    × All
        (λ post.
          In post both_waiting.posts
          ⊎ IsReport Memory.memory WatchList.memory finalized Memory.memory-IsKeyspace
              WatchList.memory-IsWatchList both_waiting
              (visited Memory.memory WatchList.memory finalized Memory.memory-IsKeyspace
                WatchList.memory-IsWatchList path)
              post)
        scanned.posts
scan_loop-AllReports_example =
    scan_loop-AllReports Memory.memory WatchList.memory finalized Memory.memory-IsKeyspace
      WatchList.memory-IsWatchList 2 12 good_block both_waiting scanned end_of_finalized
      both_waiting-IsKeyed ends_behind_12
