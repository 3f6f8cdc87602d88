-- ===== src/Scanner.antt =====
-- libs/common/src/utils/blockchain-scanner.service.ts: the loop that follows the chain block by block.
pub mod Loop
pub mod Scan
pub mod Overlap
mod Tests
use account_service.Common.{
  ℕ, zero, suc, ◌+◌, String, ◌<>◌, Bool, true, false, not, Option, none, some, List, any, ◌==◌,
  nat_eq, ltb, if◌then◌else◌,
}
use account_service.Js.{
  Throwable, Outcome, resolved, rejected, error, http_exception, delayed_error, end_of_chain_error,
  null_scan_error,
}
use account_service.Js.Action.{Action, pure, throw, modify, ◌>>=◌, ◌>>◌}
use account_service.Decimal.{to_string}

-- A polkadot `BlockHash`: its bytes, and what its `isEmpty` says.
pub record BlockHash : Type 0 where
  pub bytes : List ℕ
  pub is_empty : Bool

-- `IBlockchainScanParameters`; `none` is an absent field.
pub record ScanParameters : Type 0 where
  pub only_finalized : Option Bool

-- The setter of `scanParameters` merges the given fields into the old ones.
unfoldable pub set_scan_parameters : ScanParameters → ScanParameters → ScanParameters
set_scan_parameters old params = elim params.only_finalized [
  | none ↦ old
  | some b ↦ record { only_finalized = some b }
]

-- `this.scanParameters?.onlyFinalized` as a condition.
abbrev pub is_set : Option Bool → Bool
is_set none = false
is_set (some b) = b

-- The methods that `scan` calls on `this` and on the blockchain service, over the state `W` of the
-- service: a subclass overrides some of them.
pub record Methods (W : Type 0) : Type 0 where
  pub check_initial_scan_parameters : Action W (Unit {0})
  pub check_scan_parameters : ℕ → BlockHash → Action W (Unit {0})
  pub process_current_block : BlockHash → ℕ → Action W (Unit {0})
  pub get_last_seen_block_number : Action W ℕ
  pub set_last_seen_block_number : ℕ → Action W (Unit {0})
  pub get_block_hash : ℕ → Action W BlockHash

pub has_nonzero_byte : BlockHash → Bool
has_nonzero_byte hash = any (λ byte. not (byte == 0)) hash.bytes

-- The base class's `checkScanParameters`; the argument is `getLatestFinalizedBlockNumber`.
unfoldable pub base_check_scan_parameters :
    {W : Type 0} → ScanParameters → Action W ℕ → ℕ → BlockHash → Action W (Unit {0})
base_check_scan_parameters params latest_finalized block_number block_hash =
    if block_hash.is_empty
    then throw (
        end_of_chain_error
          ("Empty block hash encountered; end of chain at block " <> to_string block_number))
    else if is_set params.only_finalized
    then (latest_finalized >>= λ last.
        if ltb last block_number
        then throw
            (end_of_chain_error ("Latest finalized block (" <> (to_string last <> ") encountered")))
        else pure tt)
    else pure tt

module _ {W : Type 0} (m : Methods W) where
  -- The body of the loop, for one block; the result is the next block's hash.
  unfoldable pub scan_block : ℕ → BlockHash → Action W BlockHash
  scan_block number hash = do
    m.check_scan_parameters number hash
    m.process_current_block hash number
    m.set_last_seen_block_number number
    m.get_block_hash (number + 1)

  -- `while (true)`, on fuel; `none` means that the fuel ran out. Only a rejection ends the loop.
  unfoldable pub scan_loop : ℕ → ℕ → BlockHash → W → Option (Throwable × W)
  scan_loop zero number hash w = none
  scan_loop (suc fuel) number hash w = elim (scan_block number hash w).0 [
    | rejected e ↦ some (e, (scan_block number hash w).1)
    | resolved next ↦ scan_loop fuel (number + 1) next (scan_block number hash w).1
  ]

-- The service: the flag of a scan in progress, beside the rest.
pub record Scanner (W : Type 0) : Type 0 where
  pub scan_in_progress : Bool
  pub world : W

-- What `catch` makes of a rejection.
pub caught : Throwable → Outcome (Unit {0})
caught (end_of_chain_error message) = resolved tt
caught (null_scan_error message) = resolved tt
caught (error message) = rejected (error message)
caught (http_exception message status) = rejected (http_exception message status)
caught delayed_error = rejected delayed_error

-- Why the body of `try` was left: a `return`, or a rejection.
pub data Exit : Type 0 where
  returned : Exit
  threw : Throwable → Exit

pub exit_outcome : Exit → Outcome (Unit {0})
unfolding caught
exit_outcome returned = resolved tt
exit_outcome (threw e) = caught e

module _ {W : Type 0} (m : Methods W) where
  -- The part of the body before the loop: where the scan begins, and `none` if that block is not
  -- there yet.
  pub scan_start : Action W (Option (ℕ × BlockHash))
  scan_start = do
    last_seen ← m.get_last_seen_block_number
    hash ← m.get_block_hash (last_seen + 1)
    if has_nonzero_byte hash then pure (some (last_seen + 1, hash)) else pure none

  pub run_loop : ℕ → Option (ℕ × BlockHash) → W → Option (Exit × W)
  run_loop fuel none w = some (returned, w)
  run_loop fuel (some (number, hash)) w = elim (scan_loop m fuel number hash w) [
    | none ↦ none
    | some (e, w') ↦ some (threw e, w')
  ]

  -- The body of `try`.
  pub scan_body : ℕ → W → Option (Exit × W)
  unfolding scan_start run_loop
  scan_body fuel w =
      let (start, w') = (m.check_initial_scan_parameters >> scan_start) w in
      elim start [ rejected e ↦ some (threw e, w') | resolved first ↦ run_loop fuel first w' ]

  -- One call with no other call between its steps. `finally` clears the flag; a call that finds the
  -- flag set returns before `try`.
  pub scan : ℕ → Scanner W → Option (Outcome (Unit {0}) × Scanner W)
  unfolding scan_body exit_outcome
  scan fuel s =
      if s.scan_in_progress then some (resolved tt, s) else (elim (scan_body fuel s.world) [
        | none ↦ none
        | some (exit, w) ↦ some (exit_outcome exit, record { scan_in_progress = false; world = w })
      ])
