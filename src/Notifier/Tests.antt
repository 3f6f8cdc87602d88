-- ===== src/Notifier/Tests.antt =====
-- The theorems on the notifier at one watched transaction.
use account_service.Common.{
  max, ℕ, ◌+◌, ◌≤◌, ◌≡◌, ◌≢◌, refl, ◌⊎◌, String, false, none, some, List, [], ◌∷◌, In, ◌==◌, nat_eq,
  string_eq, ℕ_discrete, arith,
}
use account_service.Js.{Throwable, Outcome, resolved, rejected, error}
use account_service.Redis.Memory
use account_service.Redis.WatchList
use account_service.Types.{TxStatus, TxWebhookRsp, create_handle}
use account_service.Chain.{
  EventRecord, handle_claimed, extrinsic_failed, DispatchError, module_error, other_error,
}
use account_service.Scanner.{BlockHash}
use account_service.Notifier.{
  Notifier, Chain, get_last_seen_block_number, process_current_block, base_last_seen,
  extrinsic_indices, after_births, min_birth, found_in_block, process_found, is_relevant,
}
use account_service.Notifier.Send.{Provider}
use account_service.Notifier.Report.{Reporter, handle_extrinsics}
use account_service.Notifier.Watch.{process_current_block-hget}
use account_service.Notifier.Capacity.{used_in, set_all, set_all-used, sum}
use account_service.Notifier.Progress.{get_last_seen_block_number-births}

abbrev pub claimed : TxStatus
claimed = record {
  type = create_handle;
  reference_id = "ref-1";
  provider_id = "1";
  tx_hash = "0xaa";
  success_event = record { section = "handles"; method = "HandleClaimed" };
  birth = 10;
  death = 74;
}

abbrev disconnected : Throwable
disconnected = error "disconnected"

abbrev not_a_module : Throwable
not_a_module = error "Cannot convert to Module"

abbrev module_of : DispatchError → Outcome String
module_of (module_error name) = resolved name
module_of (other_error name) = rejected not_a_module

-- The provider accepts the second attempt.
abbrev second_attempt : Provider
second_attempt [] response = rejected disconnected
second_attempt (post ∷ posts) response = resolved tt

abbrev pub reporter : Reporter
reporter = record {
  as_module = module_of;
  utf8_of_hex = λ hex. hex;
  provider = second_attempt;
  health_check_max_retries = 3;
}

abbrev pub good_block : BlockHash
good_block = record { bytes = 1 ∷ []; is_empty = false }

abbrev bad_block : BlockHash
bad_block = record { bytes = 2 ∷ 2 ∷ []; is_empty = false }

-- The bad block, of two bytes, holds a transaction that failed with an error of no pallet.
abbrev events_of : List ℕ → Outcome (List EventRecord)
events_of (m ∷ n ∷ bytes) =
    resolved (record { phase = some 1; event = extrinsic_failed (other_error "BadOrigin") } ∷ [])
events_of _ = resolved (record { phase = some 1; event = handle_claimed "7" "0x6162" } ∷ [])

abbrev pub chain : Chain
chain = record {
  get_block = λ hash. resolved ("0xbb" ∷ "0xaa" ∷ []);
  current_epoch = λ hash. resolved 5;
  events = λ hash. events_of hash.bytes;
  current_epoch_length = resolved 100;
  latest_finalized = resolved 80;
  block_hash = λ n. resolved good_block;
  eq_pair = λ n pair. n == pair.1;
  reporter = reporter;
  trust_unfinalized_blocks = false;
}

abbrev offline : Chain
offline = record chain { get_block = λ hash. rejected disconnected }

abbrev pub waiting : Notifier Memory.memory WatchList.memory
waiting = record {
  cache = Memory.empty;
  watch_list = WatchList.watching "0xaa" claimed;
  posts = [];
}

abbrev response : TxWebhookRsp
response = record {
  transaction_type = some create_handle;
  provider_id = some "1";
  reference_id = "ref-1";
  msa_id = none;
  options = none;
}

set_all-used_example :
    (used_in Memory.memory WatchList.memory
        (set_all Memory.memory WatchList.memory 100 5 (3 ∷ 4 ∷ []) Memory.empty)
        5
      ≡ some (0 + sum (3 ∷ 4 ∷ [])))
    × ((other : ℕ)
        → other ≢ 5
        → used_in Memory.memory WatchList.memory
            (set_all Memory.memory WatchList.memory 100 5 (3 ∷ 4 ∷ []) Memory.empty)
            other
          ≡ used_in Memory.memory WatchList.memory Memory.empty other)
set_all-used_example =
    set_all-used Memory.memory WatchList.memory Memory.memory-IsKeyspace 100 5 0 (3 ∷ 4 ∷ [])
      Memory.empty (omega arith) refl

begins_at_10 :
    (get_last_seen_block_number Memory.memory WatchList.memory chain waiting).0 ≡ resolved 10
unfolding get_last_seen_block_number after_births base_last_seen min_birth
begins_at_10 = refl

get_last_seen_block_number-births_example :
    let base = base_last_seen Memory.memory WatchList.memory chain Memory.empty in
    (◌≡◌ {A = List TxStatus} (claimed ∷ []) [] × (10 ≡ base))
    ⊎ ((v : TxStatus) × In v (claimed ∷ [])
        × ((u : TxStatus) → In u (claimed ∷ []) → v.birth ≤ u.birth)
        × (10 ≡ max base v.birth))
get_last_seen_block_number-births_example =
    get_last_seen_block_number-births Memory.memory WatchList.memory chain waiting 10 begins_at_10

refuses_offline :
    process_current_block Memory.memory WatchList.memory offline good_block 12 waiting
    ≡ (rejected disconnected, waiting)
unfolding process_current_block
refuses_offline = refl

-- The block is processed, and its transaction is no longer watched.
abbrev processed : Notifier Memory.memory WatchList.memory
processed = (process_current_block Memory.memory WatchList.memory chain good_block 12 waiting).1

processes_good_block :
    process_current_block Memory.memory WatchList.memory chain good_block 12 waiting
    ≡ (resolved tt, processed)
unfolding process_current_block found_in_block process_found handle_extrinsics extrinsic_indices
    string_eq is_relevant ℕ_discrete
processes_good_block = refl

pub waiting-IsKeyed :
    (k : String) (v : TxStatus)
    → WatchList.memory.hget (WatchList.watching "0xaa" claimed) k ≡ some v
    → v.tx_hash ≡ k
waiting-IsKeyed k v e = ground arith

process_current_block-hget_example : WatchList.memory.hget processed.watch_list "0xaa" ≡ none
unfolding string_eq
process_current_block-hget_example =
    process_current_block-hget Memory.memory WatchList.memory chain WatchList.memory-IsWatchList
      good_block 12 waiting processed ("0xbb" ∷ "0xaa" ∷ []) "0xaa" waiting-IsKeyed refl
      processes_good_block
