-- ===== src/Blockchain/Tests.antt =====
-- The theorems on the blockchain service at one node.
use account_service.Common.{◌+◌, ◌*◌, ◌<◌, ◌≤◌, ◌≡◌, refl, false, none, [], ◌∷◌, arith}
use account_service.Js.{resolved, rejected, error, ◌>>=◌}
use account_service.Redis.Memory
use account_service.Redis.WatchList
use account_service.Scheduler.Memory as Timers
use account_service.Scanner.{BlockHash}
use account_service.Publisher.{World, epoch_timeout}
use account_service.Publisher.Decide.{CapacityInfo}
use account_service.Publisher.Tests as Jobs
use account_service.Blockchain.{
  Node, Provider, public_key_to_msa_id, capacity_info, on_application_bootstrap,
}
use account_service.Blockchain.Signing.{module_source, event_error, event_error_to_string, join}
use account_service.Blockchain.Epoch.{epoch_timeout-capacity_info}

abbrev hash : BlockHash
hash = record { bytes = 1 ∷ []; is_empty = false }

-- Block 480 of the epoch from 400 to 499; no provider has staked.
abbrev node : Node
node = record {
  get_finalized_head = resolved hash;
  get_block_hash = λ n. resolved hash;
  get_block = λ h. resolved 470;
  find_block = λ h. resolved none;
  current_epoch_info = resolved 400;
  epoch_length = resolved 100;
  capacity_ledger = λ id. resolved none;
  current_epoch = resolved 5;
  number = resolved 480;
  msa_id_of_public_key = λ key. resolved none;
  unwrap_error = error "Option: unwrapping a None value";
}

abbrev info : CapacityInfo
info = record {
  current_epoch = 5;
  current_block_number = 480;
  next_epoch_start = 500;
  remaining_capacity = 0;
  total_capacity_issued = 0;
}

answers : capacity_info node "1" ≡ resolved info
unfolding capacity_info
answers = refl

epoch_timeout-capacity_info_example :
    (0 < epoch_timeout Memory.memory WatchList.memory Timers.memory info)
    × (epoch_timeout Memory.memory WatchList.memory Timers.memory info ≤ 2147483647)
    × (480 * 12000 + epoch_timeout Memory.memory WatchList.memory Timers.memory info
        ≡ (400 + 100) * 12000)
epoch_timeout-capacity_info_example =
    epoch_timeout-capacity_info node Memory.memory WatchList.memory Timers.memory "1" info 400 100
      answers refl refl (omega arith) (omega arith) (omega arith)

abbrev unstaked_world : World
unstaked_world = record Jobs.world { capacity_info = capacity_info node "1" }

-- A key that the chain does not know.
unknown_key : public_key_to_msa_id node "0x01" ≡ rejected node.unwrap_error
unfolding public_key_to_msa_id
unknown_key = refl

-- The start of the service at an URL of a third kind.
refuses_ftp :
    on_application_bootstrap
      (λ (p : Provider). resolved p)
      "ftp://node"
      (record { api = none; disconnected = [] })
    ≡ (rejected (error "Unrecognized chain URL type"), record { api = none; disconnected = [] })
unfolding on_application_bootstrap
refuses_ftp = refl

-- A pallet's error, as it is logged.
handle_exists :
    event_error
        (λ index. resolved (record {
          name = "MSAHandleAlreadyExists";
          docs = "The MSA" ∷ "already has a handle." ∷ [];
          section = "handles";
        }))
        (module_source "0x42")
      >>= (λ e. resolved (event_error_to_string e))
    ≡ resolved "handles.MSAHandleAlreadyExists: The MSA already has a handle."
unfolding event_error event_error_to_string join
handle_exists = refl
