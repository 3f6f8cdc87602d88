-- ===== src/Blockchain/Signing.antt =====
-- libs/common/src/blockchain: create-keys.ts, extrinsic.ts and event-error.ts, and the calls of polkadot
-- by their names in blockchain.service.ts.
use account_service.Common.{ℕ, ◌≡◌, sym, ◌∙◌, String, ◌<>◌, Option, none, some, List, [], ◌∷◌}
use account_service.Js.{Outcome, resolved, ◌>>=◌}

-- The module's `keyring`, made by the first call; `new Keyring` and `addFromUri` are polkadot's.
module _ {Keyring KeyringPair : Type 0} (new_keyring : Keyring)
    (add_from_uri : Keyring → String → Outcome KeyringPair × Keyring) where
  abbrev existing_or_new : Option Keyring → Keyring
  existing_or_new none = new_keyring
  existing_or_new (some keyring) = keyring

  pub create_keys : String → Option Keyring → Outcome KeyringPair × Option Keyring
  create_keys uri keyring =
      let (keys, used) = add_from_uri (existing_or_new keyring) uri in (keys, some used)

  -- The calls of the process, by their phrases.
  abbrev pub after_calls : List String → Option Keyring → Option Keyring
  after_calls [] keyring = keyring
  after_calls (uri ∷ uris) keyring = after_calls uris (create_keys uri keyring).1

  -- The account whose nonces the nonce service counts is the one that the publisher signs for: where
  -- a pair depends on its phrase alone, a call gives the same keys before and after any other calls.
  pub create_keys_again :
      (pair_of : String → Outcome KeyringPair)
      → ((keyring : Keyring) (uri : String) → (add_from_uri keyring uri).0 ≡ pair_of uri)
      → (uri : String) (between : List String) (keyring : Option Keyring)
      → let (first, after) = create_keys uri keyring in
        (create_keys uri (after_calls between after)).0 ≡ first
  unfolding create_keys
  create_keys_again pair_of same uri between keyring =
      same (existing_or_new (after_calls between (create_keys uri keyring).1)) uri
      ∙ sym (same (existing_or_new keyring) uri)

-- What polkadot offers by name: `api.tx[pallet][extrinsic](...args)`, and likewise `rpc` and `query`; a
-- name that it does not know throws.
pub record Named (Arg Codec Submittable : Type 0) : Type 0 where
  pub tx : String → String → List Arg → Outcome Submittable
  pub rpc : String → String → List Arg → Outcome Codec
  pub query : String → String → List Arg → Outcome Codec
  -- `api.at(blockHash)`, then its `query`
  pub at : String → Outcome (String → String → List Arg → Outcome Codec)
  pub create_type : String → List Arg → Outcome Codec

-- libs/common/src/blockchain/extrinsic.ts
pub record Extrinsic (Submittable KeyringPair : Type 0) : Type 0 where
  pub extrinsic : Submittable
  pub keys : KeyringPair

module _ {Submittable KeyringPair Hash : Type 0}
    (send : Submittable → KeyringPair → Option ℕ → Outcome Hash) where
  pub sign_and_send : Extrinsic Submittable KeyringPair → Option ℕ → Outcome Hash
  sign_and_send e nonce = send e.extrinsic e.keys nonce

module _ {Arg Codec Submittable : Type 0} (api : Named Arg Codec Submittable) where
  pub create_extrinsic_call : String × String → List Arg → Outcome Submittable
  create_extrinsic_call (pallet, extrinsic) args = api.tx pallet extrinsic args

  pub create_extrinsic :
      {KeyringPair : Type 0}
      → String × String
      → KeyringPair
      → List Arg
      → Outcome (Extrinsic Submittable KeyringPair)
  create_extrinsic (pallet, extrinsic) keys args = do
    tx ← api.tx pallet extrinsic args
    resolved (record { extrinsic = tx; keys = keys })

  pub create_type : String → List Arg → Outcome Codec
  create_type type args = api.create_type type args

  pub rpc : String → String → List Arg → Outcome Codec
  rpc pallet method args = api.rpc pallet method args

  pub query : String → String → List Arg → Outcome Codec
  query pallet extrinsic args = api.query pallet extrinsic args

  pub query_at : String → String → String → List Arg → Outcome Codec
  query_at block_hash pallet extrinsic args = do
    query_then ← api.at block_hash
    query_then pallet extrinsic args

  pub get_nonce : Arg → Outcome Codec
  unfolding rpc
  get_nonce account = rpc "system" "accountNextIndex" (account ∷ [])

  pub get_schema : Arg → Outcome Codec
  unfolding query
  get_schema schema_id = query "schemas" "schemas" (schema_id ∷ [])

-- A `DispatchError`, and what the registry of the chain knows of an error of a pallet.
pub record MetaError : Type 0 where
  pub name : String
  pub docs : List String
  pub section : String

pub data Source : Type 0 where
  -- `isModule`, with `asModule`
  module_source : String → Source
  -- another error, with its `type`
  typed_source : String → Source

pub record EventError : Type 0 where
  pub name : String
  pub message : String
  pub section : String
  pub raw_error : Source

-- `docs.join(' ')`
unfoldable pub join : List String → String
join [] = ""
join (text ∷ []) = text
join (text ∷ (next ∷ texts)) = text <> " " <> join (next ∷ texts)

module _ (find_meta_error : String → Outcome MetaError) where
  unfoldable pub event_error : Source → Outcome EventError
  event_error (module_source index) = do
    decoded ← find_meta_error index
    resolved (record {
      name = decoded.name;
      message = join decoded.docs;
      section = decoded.section;
      raw_error = module_source index;
    })
  event_error (typed_source type) =
      resolved (record { name = type; message = type; section = ""; raw_error = typed_source type })

unfoldable pub event_error_to_string : EventError → String
event_error_to_string e = e.section <> "." <> e.name <> ": " <> e.message
