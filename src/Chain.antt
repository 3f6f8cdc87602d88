-- ===== src/Chain.antt =====
-- libs/common/src/blockchain/blockchain.service.ts on the events of a finalised transaction. An event
-- is its decoded data; polkadot's `api.events.X.Y.is(event)` tells the cases apart.
use account_service.Common.{ℕ, zero, suc, String, Option, none, some, List, [], ◌∷◌, ◌<>◌}
use account_service.Types.{EventName}

-- The error of a failed extrinsic; only some are errors of a pallet.
pub data DispatchError : Type 0 where
  module_error : String → DispatchError
  other_error : String → DispatchError

pub data Event : Type 0 where
  capacity_withdrawn : ℕ → Event
  extrinsic_failed : DispatchError → Event
  -- msaId and key
  msa_created : String → String → Event
  -- msaId and the handle as hexadecimal text
  handle_claimed : String → String → Event
  -- providerId and delegatorId
  delegation_granted : String → String → Event
  -- msaId and key
  public_key_added : String → String → Event
  other_event : EventName → Event

-- `event.section` and `event.method`, by the paths under which the code finds the events.
unfoldable pub name_of : Event → EventName
name_of (capacity_withdrawn amount) = record { section = "capacity"; method = "CapacityWithdrawn" }
name_of (extrinsic_failed e) = record { section = "system"; method = "ExtrinsicFailed" }
name_of (msa_created msa_id key) = record { section = "msa"; method = "MsaCreated" }
name_of (handle_claimed msa_id handle) = record { section = "handles"; method = "HandleClaimed" }
name_of (delegation_granted provider delegator) = record {
  section = "msa";
  method = "DelegationGranted";
}
name_of (public_key_added msa_id key) = record { section = "msa"; method = "PublicKeyAdded" }
name_of (other_event name) = name

-- `FrameSystemEventRecord`; `phase` is the extrinsic's index for `ApplyExtrinsic`, `none` otherwise.
pub record EventRecord : Type 0 where
  pub phase : Option ℕ
  pub event : Event

-- `text.slice(n)` on a text of hexadecimal digits.
abbrev pub slice_from : ℕ → String → String
slice_from zero s = s
slice_from (suc n) String.[] = ""
slice_from (suc n) (String.◌∷◌ c s) = slice_from n s

pub record SiwfTxnValues : Type 0 where
  pub msa_id : Option String
  pub address : Option String
  pub handle : Option String
  pub new_provider : Option String

pub record HandleTxnValues : Type 0 where
  pub msa_id : Option String
  pub handle : Option String
  pub debug_msg : Option String

pub record PublicKeyValues : Type 0 where
  pub msa_id : Option String
  pub new_public_key : Option String
  pub debug_msg : Option String

-- `Buffer.from(hex, 'hex').toString('utf-8')` is Node's: a parameter.
module _ (utf8_of_hex : String → String) where
  pub decode_handle : String → String
  decode_handle handle_hex = utf8_of_hex (slice_from 2 handle_hex)

  -- The body of the `forEach`.
  unfoldable pub siwf_event : SiwfTxnValues → Event → SiwfTxnValues
  unfolding decode_handle
  siwf_event v (msa_created msa_id key) = record v { msa_id = some msa_id; address = some key }
  siwf_event v (handle_claimed msa_id handle) = record v { handle = some (decode_handle handle) }
  siwf_event v (delegation_granted provider delegator) = record v { new_provider = some provider }
  siwf_event v (capacity_withdrawn amount) = v
  siwf_event v (extrinsic_failed e) = v
  siwf_event v (public_key_added msa_id key) = v
  siwf_event v (other_event name) = v

  unfoldable pub siwf_events : SiwfTxnValues → List EventRecord → SiwfTxnValues
  unfolding siwf_event
  siwf_events v [] = v
  siwf_events v (r ∷ records) = siwf_events (siwf_event v r.event) records

  unfoldable pub handle_siwf_txn_result : List EventRecord → SiwfTxnValues
  unfolding siwf_events
  handle_siwf_txn_result records =
      siwf_events (record { msa_id = none; address = none; handle = none; new_provider = none })
        records

  unfoldable pub handle_publish_handle_tx_result : Event → HandleTxnValues
  unfolding decode_handle
  handle_publish_handle_tx_result (handle_claimed msa_id handle) = record {
    msa_id = some msa_id;
    handle = some (decode_handle handle);
    debug_msg = some ("Handle created: " <> (decode_handle handle <> (" for msaId: " <> msa_id)));
  }
  handle_publish_handle_tx_result _ = record { msa_id = none; handle = none; debug_msg = none }

unfoldable pub handle_publish_key_tx_result : Event → PublicKeyValues
handle_publish_key_tx_result (public_key_added msa_id key) = record {
  msa_id = some msa_id;
  new_public_key = some key;
  debug_msg = some ("Public Key: " <> (key <> (" Added for msaId: " <> msa_id)));
}
handle_publish_key_tx_result _ = record { msa_id = none; new_public_key = none; debug_msg = none }
