-- ===== src/Publisher.antt =====
-- apps/worker/src/transaction_publisher/publisher.service.ts: submits the queued transactions, and
-- pauses the queue while the capacity is used up.
pub mod Calls
pub mod Capacity
pub mod Wakes
pub mod Checks
pub mod Decide
pub mod Submit
pub mod Nonces
pub mod Process
pub mod Planning
pub mod Tests
use account_service.Common.{
  ℕ, ◌+◌, ◌-◌, ◌*◌, ◌/◌, String, Bool, true, false, not, Option, none, some, List, [], ◌∷◌, ◌++◌,
  map, ◌==◌, string_eq, leb, ltb, if◌then◌else◌,
}
use account_service.Js.{Throwable, Outcome, resolved, rejected, error, delayed_error, ◌>>=◌, ◌>>◌}
use account_service.Redis.{Keyspace}
use account_service.Redis.WatchList.{WatchList}
use account_service.Scheduler.{Scheduler}
use account_service.Nonce.{get_next_nonce, Index}
use account_service.Notifier.{
  epoch_capacity_key, number_or_zero, seconds_per_block, milliseconds_per_second,
}
use account_service.Types.{
  TransactionType, TransactionData, PublishRequest, create_handle_request, change_handle_request,
  siwf_signup_request, add_key_request, invalid, type_of, HandleRequest, KeysRequest,
  KeysRequestPayload, EncodedExtrinsic, ValidSignUpPayloads, EventName, TxStatus,
}
use Planning.{Call, Extrinsic, EraOf, Plan, Builder, plan}
use Decide.{CapacityInfo, CapacityLimit, decide, FailedJob, retried}

-- The calls on the queue and on its jobs, in order.
pub data QueueCall : Type 0 where
  pause resume : QueueCall
  retry move_to_delayed : String → QueueCall

-- The answers of the chain, of bullmq and of polkadot during one call, and the settings.
pub record World : Type 0 where
  pub capacity_limit : CapacityLimit
  pub capacity_info : Outcome CapacityInfo
  pub paused : Outcome (Unit {0})
  pub failed_jobs : Outcome (List FailedJob)
  pub latest_finalized : Outcome ℕ
  pub chain_nonce : Outcome Index
  -- `createKeys(seed phrase)`: whether the keyring takes the phrase
  pub provider_keys : Outcome (Unit {0})
  -- what builds the calls of an extrinsic
  pub builder : Builder
  -- `createExtrinsic` of the extrinsic that pays with capacity
  pub create_extrinsic : Extrinsic → Outcome (Unit {0})
  -- `signAndSend` with a nonce: the hash in hexadecimal
  pub sign_and_send : Extrinsic → ℕ → Outcome String
  -- `era.asMortalEra.birth(n)` and `.death(n)`
  pub mortal_era : EraOf → ℕ → Outcome (ℕ × ℕ)

abbrev pub capacity_epoch_timeout_name : String
capacity_epoch_timeout_name = "capacity_check"

module _ (K : Keyspace) (H : WatchList) (S : Scheduler) where
  pub record Publisher : Type 0 where
    pub cache : K.State
    pub watch_list : H.State
    pub registry : S.State
    pub calls : List QueueCall
    pub submitted : List (Extrinsic × ℕ)

  pub called : QueueCall → Publisher → Publisher
  called call p = record p { calls = p.calls ++ (call ∷ []) }

  -- `setTimeout(() => checkCapacity(), epochTimeout)`; a negative delay is 0 here, and the timer
  -- takes both alike.
  unfoldable pub epoch_timeout : CapacityInfo → ℕ
  epoch_timeout info =
      (info.next_epoch_start - info.current_block_number)
      * seconds_per_block
      * milliseconds_per_second

  pub delete_timeout_or_ignore : S.State → S.State
  delete_timeout_or_ignore r = elim (S.delete_timeout r capacity_epoch_timeout_name) [
    | rejected e ↦ r
    | resolved r' ↦ r'
  ]

  pub add_timeout_or_ignore : ℕ → S.State → S.State
  add_timeout_or_ignore delay r = elim (S.add_timeout r capacity_epoch_timeout_name delay) [
    | rejected e ↦ r
    | resolved r' ↦ r'
  ]

  -- The inner `try`: a refusal of `deleteTimeout` skips `addTimeout`.
  pub replace_timeout : ℕ → S.State → S.State
  unfolding add_timeout_or_ignore
  replace_timeout delay r =
      if S.does_exist r capacity_epoch_timeout_name
      then (elim (S.delete_timeout r capacity_epoch_timeout_name) [
        | rejected e ↦ r
        | resolved r' ↦ add_timeout_or_ignore delay r'
      ])
      else add_timeout_or_ignore delay r

  pub exhausted : World → CapacityInfo → Publisher → Publisher
  unfolding called replace_timeout epoch_timeout
  exhausted world info p = elim world.paused [
    | rejected e ↦ called pause p
    | resolved u ↦
        let q = called pause p in
        record q { registry = replace_timeout (epoch_timeout info) q.registry }
  ]

  pub retry_all : List String → Publisher → Publisher
  unfolding called
  retry_all [] p = p
  retry_all (id ∷ ids) p = retry_all ids (called (retry id) p)

  -- `resume` may be refused, and is called all the same.
  pub available : World → Publisher → Publisher
  unfolding called retry_all delete_timeout_or_ignore
  available world p = elim world.failed_jobs [
    | rejected e ↦ p
    | resolved jobs ↦
        let q = retry_all (retried jobs) p in
        called resume (record q { registry = delete_timeout_or_ignore q.registry })
  ]

  -- An error leaves `outOfCapacity` false.
  pub after_decision : World → CapacityInfo → Outcome Bool → Publisher → Bool × Publisher
  unfolding exhausted available
  after_decision world info (rejected e) p = (true, p)
  after_decision world info (resolved true) p = (false, exhausted world info p)
  after_decision world info (resolved false) p = (true, available world p)

  pub with_info : World → CapacityInfo → Option ℕ → Publisher → Bool × Publisher
  unfolding after_decision
  with_info world info none p = (true, p)
  with_info world info (some used) p =
      after_decision world info (decide world.capacity_limit info used) p

  unfoldable pub check_capacity : World → Publisher → Bool × Publisher
  unfolding with_info
  check_capacity world p = elim world.capacity_info [
    | rejected e ↦ (true, p)
    | resolved info ↦
        with_info world info
          (number_or_zero (K.get p.cache (epoch_capacity_key info.current_epoch))) p
  ]

  -- `processSingleTxn` and `processBatchTxn`, after the extrinsic is built.
  pub not_empty : String → Outcome String
  not_empty tx_hash =
      if tx_hash == "" then rejected (error "Tx hash is undefined") else resolved tx_hash

  pub send : World → Extrinsic → Outcome ℕ → Publisher → Outcome String × Publisher
  unfolding not_empty
  send world ext (rejected e) p = (rejected e, p)
  send world ext (resolved nonce) p = (
    world.sign_and_send ext nonce >>= not_empty,
    record p { submitted = p.submitted ++ ((ext, nonce) ∷ []) },
  )

  pub process_txn : World → Extrinsic → Publisher → Outcome String × Publisher
  unfolding send
  process_txn world ext p = elim (world.create_extrinsic ext) [
    | rejected e ↦ (rejected e, p)
    | resolved u ↦
        let (nonce, cache) = get_next_nonce K world.chain_nonce p.cache in
        send world ext nonce (record p { cache = cache })
  ]

  unfoldable pub status_of : TransactionData → Plan → String → ℕ × ℕ → TxStatus
  status_of job_data planned tx_hash era = record {
    type = type_of job_data.request;
    reference_id = job_data.reference_id;
    provider_id = job_data.provider_id;
    tx_hash = tx_hash;
    success_event = planned.target_event;
    birth = era.0;
    death = era.1;
  }

  -- From the submission on.
  pub watch :
      World
      → TransactionData
      → Plan
      → ℕ
      → Outcome String × Publisher
      → Outcome (Unit {0}) × Publisher
  unfolding status_of
  watch world job_data planned last (rejected e, p) = (rejected e, p)
  watch world job_data planned last (resolved tx_hash, p) =
      elim (world.mortal_era planned.era_of last) [
        | rejected e ↦ (rejected e, p)
        | resolved era ↦ (
          resolved tt,
          record p {
            watch_list = H.hset p.watch_list tx_hash (status_of job_data planned tx_hash era);
          },
        )
      ]

  pub submit :
      World → TransactionData → Outcome (ℕ × Plan) → Publisher → Outcome (Unit {0}) × Publisher
  unfolding watch process_txn
  submit world job_data (rejected e) p = (rejected e, p)
  submit world job_data (resolved (last, planned)) p =
      watch world job_data planned last (process_txn world planned.extrinsic p)

  pub prepare : World → TransactionData → Outcome (ℕ × Plan)
  unfolding plan
  prepare world job_data = do
    last ← world.latest_finalized
    world.provider_keys
    planned ← plan world.builder job_data.request
    resolved (last, planned)

  pub with_capacity :
      World → String → TransactionData → Bool × Publisher → Outcome (Unit {0}) × Publisher
  unfolding submit prepare called
  with_capacity world job_id job_data (false, p) =
      (rejected delayed_error, called (move_to_delayed job_id) p)
  with_capacity world job_id job_data (true, p) = submit world job_data (prepare world job_data) p

  unfoldable pub process :
      World → String → TransactionData → Publisher → Outcome (Unit {0}) × Publisher
  unfolding with_capacity check_capacity
  process world job_id job_data p = with_capacity world job_id job_data (check_capacity world p)

  unfoldable pub on_application_bootstrap : World → Publisher → Publisher
  on_application_bootstrap world p = (check_capacity world p).1

  unfoldable pub on_application_shutdown : Publisher → Publisher
  on_application_shutdown p = record p { registry = delete_timeout_or_ignore p.registry }
