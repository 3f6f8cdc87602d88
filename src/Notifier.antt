-- ===== src/Notifier.antt =====
-- apps/worker/src/transaction_notifier/notifier.service.ts, and createWebhookRsp beside it: finds the
-- watched transactions in the blocks, tells the provider's webhook, and ends the watch.
pub mod Send
pub mod Report
pub mod Watch
pub mod Capacity
pub mod Cache
pub mod Progress
pub mod Failure
pub mod Blocked
pub mod Interrupted
pub mod Settled
pub mod Sound
pub mod Reported
pub mod Interval
pub mod Typed
pub mod Tests
pub mod Scenarios
use account_service.Common.{
  ℕ, suc, ◌+◌, ◌*◌, min, max, String, ◌<>◌, Bool, false, ◌&&◌, Option, none, some, List, [], ◌∷◌,
  ◌++◌, map, any, find, keep, length, ◌==◌, nat_eq, string_eq, leb, if◌then◌else◌,
}
use account_service.Js.{Outcome, resolved, rejected, null_scan_error}
use account_service.Js.Action.{Action, pure, throw, lift, gets, modify, ◌>>=◌, ◌>>◌}
use account_service.Decimal.{to_string, read}
use account_service.Redis.{Keyspace}
use account_service.Redis.WatchList.{WatchList}
use account_service.Types.{TxStatus}
use account_service.Chain.{EventRecord, Event}
use account_service.Scanner.{
  BlockHash, ScanParameters, Methods, base_check_scan_parameters, set_scan_parameters,
}
use Report.{Post, Reporter, handle_extrinsics, total_withdrawn}

-- libs/common/src/constants.ts and `time-constants`
abbrev pub seconds_per_block : ℕ
seconds_per_block = 12

abbrev pub milliseconds_per_second : ℕ
milliseconds_per_second = 1000

-- What the chain answers while a scan runs, and the settings that the service reads.
pub record Chain : Type 0 where
  -- the hashes of a block's extrinsics, in order
  pub get_block : BlockHash → Outcome (List String)
  pub current_epoch : BlockHash → Outcome ℕ
  pub events : BlockHash → Outcome (List EventRecord)
  pub current_epoch_length : Outcome ℕ
  pub latest_finalized : Outcome ℕ
  pub block_hash : ℕ → Outcome BlockHash
  -- `phase.asApplyExtrinsic.eq(index)`, where `index` is a pair of a hash and an index
  pub eq_pair : ℕ → String × ℕ → Bool
  pub reporter : Reporter
  pub trust_unfinalized_blocks : Bool

abbrev pub epoch_capacity_key : ℕ → String
epoch_capacity_key epoch = "epochCapacity:" <> to_string epoch

abbrev pub last_seen_block_number_key : String
last_seen_block_number_key = "TxnNotifierService:lastSeenBlockNumber"

-- `BigInt(text ?? 0)` and `Number(text ?? 0)`, on a text that the service wrote.
abbrev pub number_or_zero : Option String → Option ℕ
number_or_zero none = some 0
number_or_zero (some text) = read 0 text

-- The watched transactions among the extrinsics, with their indices.
unfoldable pub extrinsic_indices : List TxStatus → ℕ → List String → List (String × ℕ)
extrinsic_indices pending index [] = []
extrinsic_indices pending index (hash ∷ hashes) =
    let rest = extrinsic_indices pending (index + 1) hashes in
    if any (λ status. status.tx_hash == hash) pending then (hash, index) ∷ rest else rest

unfoldable pub is_relevant : (ℕ → String × ℕ → Bool) → List (String × ℕ) → EventRecord → Bool
is_relevant eq_pair indices r = elim r.phase [ none ↦ false | some n ↦ any (eq_pair n) indices ]

-- `Math.min(...births)` of a list that is not empty.
pub min_birth : TxStatus → List TxStatus → ℕ
min_birth status [] = status.birth
min_birth status (next ∷ rest) = min status.birth (min_birth next rest)

unfoldable pub expired : ℕ → List TxStatus → List String
expired number [] = []
expired number (status ∷ pending) =
    let rest = expired number pending in
    if leb status.death number then status.tx_hash ∷ rest else rest

module _ (K : Keyspace) (H : WatchList) where
  pub record Notifier : Type 0 where
    pub cache : K.State
    pub watch_list : H.State
    pub posts : List Post

  -- `setEpochCapacity`; an error, of the query or of the text, is logged and no more.
  unfoldable pub set_epoch_capacity : Outcome ℕ → ℕ → ℕ → K.State → K.State
  set_epoch_capacity epoch_length epoch withdrawn cache =
      elim (number_or_zero (K.get cache (epoch_capacity_key epoch))) [
        | none ↦ cache
        | some saved ↦ elim epoch_length [
          | rejected e ↦ cache
          | resolved blocks ↦
              K.setex cache (epoch_capacity_key epoch)
                (blocks * seconds_per_block * milliseconds_per_second)
                (to_string (saved + withdrawn))
        ]
      ]

  -- `pipeline.exec()`: the `hdel` commands in the order in which they were added.
  unfoldable pub exec : List String → H.State → H.State
  exec [] watch_list = watch_list
  exec (hash ∷ hashes) watch_list = exec hashes (H.hdel watch_list hash)

  module _ (chain : Chain) where
    -- The part for a block that holds watched transactions; the result are the hashes to remove.
    unfoldable pub process_found : BlockHash → List (String × ℕ) → Action Notifier (List String)
    process_found hash indices = do
      epoch ← lift (chain.current_epoch hash)
      all_events ← lift (chain.events hash)
      let events = keep (is_relevant chain.eq_pair indices) all_events
      watch_list ← gets (λ w. w.watch_list)
      posts ← gets (λ w. w.posts)
      let (outcome, posts') =
          handle_extrinsics chain.reporter (H.hget watch_list) events indices posts
      modify (λ w. record w { posts = posts' })
      lift outcome
      modify (λ w. record w {
        cache =
            set_epoch_capacity chain.current_epoch_length epoch (total_withdrawn events) w.cache;
      })
      pure (map (λ pair. pair.0) indices)

    unfoldable pub found_in_block : BlockHash → List (String × ℕ) → Action Notifier (List String)
    unfolding process_found
    found_in_block hash [] = pure []
    found_in_block hash (pair ∷ indices) = process_found hash (pair ∷ indices)

    -- `pendingTxns.slice(idx, 1)` changes nothing: a transaction that was found is tested for
    -- expiry like the others.
    unfoldable pub process_current_block : BlockHash → ℕ → Action Notifier (Unit {0})
    process_current_block hash number = do
      pending ← gets (λ w. H.hvals w.watch_list)
      hashes ← lift (chain.get_block hash)
      found ← found_in_block hash (extrinsic_indices pending 0 hashes)
      modify (λ w. record w { watch_list = exec (found ++ expired number pending) w.watch_list })

    -- A text that is no number would be NaN; the service writes digits only.
    unfoldable pub base_last_seen : K.State → ℕ
    base_last_seen cache = elim (number_or_zero (K.get cache last_seen_block_number_key)) [
      | none ↦ 0
      | some n ↦ n
    ]

    pub after_births : ℕ → List TxStatus → ℕ
    after_births block_number [] = block_number
    after_births block_number (status ∷ pending) = max block_number (min_birth status pending)

    pub get_last_seen_block_number : Action Notifier ℕ
    unfolding base_last_seen after_births min_birth
    get_last_seen_block_number =
        gets (λ w. after_births (base_last_seen w.cache) (H.hvals w.watch_list))

    unfoldable pub set_last_seen_block_number : ℕ → Action Notifier (Unit {0})
    set_last_seen_block_number n =
        modify (λ w. record w { cache = K.set w.cache last_seen_block_number_key (to_string n) })

    pub check_initial_scan_parameters : Action Notifier (Unit {0})
    check_initial_scan_parameters w =
        if H.hlen w.watch_list == 0
        then throw (null_scan_error "No pending extrinsics; no scan will be performed") w
        else pure tt w

    -- The constructor's `this.scanParameters = { onlyFinalized: trustUnfinalizedBlocks }`.
    unfoldable pub scan_parameters : ScanParameters
    scan_parameters =
        set_scan_parameters (record { only_finalized = none })
          (record { only_finalized = some chain.trust_unfinalized_blocks })

    pub check_scan_parameters : ℕ → BlockHash → Action Notifier (Unit {0})
    check_scan_parameters number hash w =
        if H.hlen w.watch_list == 0
        then throw (null_scan_error "No pending extrinsics; terminating current scan iteration") w
        else base_check_scan_parameters scan_parameters (lift chain.latest_finalized) number hash w

    abbrev pub methods : Methods Notifier
    methods = record {
      check_initial_scan_parameters = check_initial_scan_parameters;
      check_scan_parameters = check_scan_parameters;
      process_current_block = process_current_block;
      get_last_seen_block_number = get_last_seen_block_number;
      set_last_seen_block_number = set_last_seen_block_number;
      get_block_hash = λ n. lift (chain.block_hash n);
    }

    -- `onApplicationBootstrap`, up to the interval: with nothing to watch, skip to the end of the
    -- chain.
    unfoldable pub on_application_bootstrap : Action Notifier (Unit {0})
    on_application_bootstrap w =
        if length (H.hkeys w.watch_list) == 0
        then (lift chain.latest_finalized >>= set_last_seen_block_number) w
        else pure tt w
