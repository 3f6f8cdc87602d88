-- ===== src/Blockchain.antt =====
-- libs/common/src/blockchain/blockchain.service.ts on the state of the chain: the connection, the
-- blocks, the epochs of capacity, and the owner of a key.
pub mod Epoch
pub mod Connection
pub mod Signing
mod Tests
use text.Mathlib.Text.{starts_with}
use account_service.Common.{
  ℕ, zero, ◌+◌, String, Option, none, some, List, [], ◌∷◌, ◌++◌, if◌then◌else◌, Bool, true,
}
use account_service.Js.{Throwable, Outcome, resolved, rejected, error, ◌>>=◌, ◌>>◌}
use account_service.Scanner.{BlockHash}
use account_service.Publisher.Decide.{CapacityInfo}

-- `PalletCapacityCapacityDetails`, as far as it is read.
pub record CapacityDetails : Type 0 where
  pub remaining_capacity : ℕ
  pub total_capacity_issued : ℕ

-- What the node answers, by the names under which polkadot asks it.
pub record Node : Type 0 where
  pub get_finalized_head : Outcome BlockHash
  pub get_block_hash : ℕ → Outcome BlockHash
  -- the number in the header of `getBlock(hash)`
  pub get_block : BlockHash → Outcome ℕ
  -- the same for the text of a hash, where the node may answer nothing
  pub find_block : String → Outcome (Option ℕ)
  -- `epochStart` of `currentEpochInfo`
  pub current_epoch_info : Outcome ℕ
  pub epoch_length : Outcome ℕ
  pub capacity_ledger : String → Outcome (Option CapacityDetails)
  pub current_epoch : Outcome ℕ
  pub number : Outcome ℕ
  pub msa_id_of_public_key : String → Outcome (Option String)
  -- what `unwrap()` of polkadot throws on an option with nothing in it
  pub unwrap_error : Throwable

module _ (node : Node) where
  pub unwrap {ℓ} : {A : Type ℓ} → Option A → Outcome A
  unwrap (some a) = resolved a
  unwrap none = rejected node.unwrap_error

  pub get_block_hash : ℕ → Outcome BlockHash
  get_block_hash block = node.get_block_hash block

  -- as far as the number in its header goes
  pub get_block : BlockHash → Outcome ℕ
  get_block block = node.get_block block

  pub get_latest_finalized_block_hash : Outcome BlockHash
  get_latest_finalized_block_hash = node.get_finalized_head

  pub get_latest_finalized_block_number : Outcome ℕ
  unfolding get_latest_finalized_block_hash
  get_latest_finalized_block_number = do
    block_hash ← get_latest_finalized_block_hash
    node.get_block block_hash

  pub get_block_by_number : ℕ → Outcome ℕ
  get_block_by_number block_number = do
    block_hash ← node.get_block_hash block_number
    node.get_block block_hash

  pub get_block_number_for_hash : String → Outcome (Option ℕ)
  get_block_number_for_hash hash = do block ← node.find_block hash; resolved block

  -- The log line unwraps the answer before `isSome` is asked.
  pub public_key_to_msa_id : String → Outcome (Option String)
  unfolding unwrap
  public_key_to_msa_id public_key = do
    handle_response ← node.msa_id_of_public_key public_key
    logged ← unwrap handle_response
    elim handle_response [ some msa_id ↦ resolved (some msa_id) | none ↦ resolved none ]

  -- `unwrapOr` of `capacityInfo`.
  pub details_or_zero : Option CapacityDetails → CapacityDetails
  details_or_zero (some details) = details
  details_or_zero none = record { remaining_capacity = 0; total_capacity_issued = 0 }

  pub get_current_capacity_epoch : Outcome ℕ
  get_current_capacity_epoch = node.current_epoch

  pub get_current_capacity_epoch_start : Outcome ℕ
  get_current_capacity_epoch_start = node.current_epoch_info

  pub get_current_epoch_length : Outcome ℕ
  get_current_epoch_length = node.epoch_length

  pub capacity_info : String → Outcome CapacityInfo
  unfolding details_or_zero get_current_capacity_epoch
  capacity_info provider_id = do
    epoch_start ← node.current_epoch_info
    epoch_block_length ← node.epoch_length
    ledger ← node.capacity_ledger provider_id
    let details = details_or_zero ledger
    current_block ← node.number
    epoch ← get_current_capacity_epoch
    resolved (record {
      current_epoch = epoch;
      current_block_number = current_block;
      next_epoch_start = epoch_start + epoch_block_length;
      remaining_capacity = details.remaining_capacity;
      total_capacity_issued = details.total_capacity_issued;
    })

-- The connection: `ApiPromise.create` and `disconnect` are polkadot's.
pub data Provider : Type 0 where
  ws_provider http_provider : String → Provider

-- The service: its `api` is not defined before the start; the connections that were ended.
pub record Service (Api : Type 0) : Type 0 where
  pub api : Option Api
  pub disconnected : List Api

-- `/^ws/.test(url)` and `/^http/.test(url)`
pub provider_of : String → Outcome Provider
provider_of url =
    if starts_with url "ws"
    then resolved (ws_provider url)
    else if starts_with url "http"
    then resolved (http_provider url)
    else rejected (error "Unrecognized chain URL type")

module _ {Api : Type 0} (create : Provider → Outcome Api) where
  pub on_application_bootstrap : String → Service Api → Outcome (Unit {0}) × Service Api
  unfolding provider_of
  on_application_bootstrap url s = elim (provider_of url >>= create) [
    | rejected e ↦ (rejected e, s)
    | resolved api ↦ (resolved tt, record s { api = some api })
  ]

  pub on_application_shutdown : Service Api → Service Api
  on_application_shutdown s = elim s.api [
    | none ↦ s
    | some api ↦ record s { disconnected = s.disconnected ++ (api ∷ []) }
  ]

-- `api.isReady` of a connection is polkadot's.
module _ {Api : Type 0} (ready : Api → Outcome (Unit {0})) where
  -- `await this.api?.isReady`
  pub is_ready : Service Api → Outcome Bool
  is_ready s = elim s.api [ none ↦ resolved true | some api ↦ ready api >> resolved true ]

  pub get_api : Service Api → Outcome Api
  get_api s = elim s.api [
    | none ↦ rejected (error "Cannot read properties of undefined (reading 'isReady')")
    | some api ↦ ready api >> resolved api
  ]
