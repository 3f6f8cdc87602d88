-- ===== src/Publisher/Decide.antt =====
-- The decision of `checkCapacity`, and the failed jobs that it retries.
use text.Mathlib.Text.{find?}
use account_service.Common.{
  ℕ, ◌*◌, ◌/◌, String, Bool, true, false, Option, none, some, List, [], ◌∷◌, leb, ltb,
  if◌then◌else◌,
}
use account_service.Js.{Outcome, resolved, rejected, error}

-- A number of the configuration that is not negative: its whole part, and whether there is more.
pub record Number : Type 0 where
  pub whole : ℕ
  pub has_fraction : Bool

pub data LimitType : Type 0 where
  percentage amount : LimitType

-- libs/common/src/interfaces/capacity-limit.interface.ts
pub record CapacityLimit : Type 0 where
  pub type : LimitType
  pub value : Number

-- What `blockchainService.capacityInfo` returns, as far as it is read here.
pub record CapacityInfo : Type 0 where
  pub current_epoch : ℕ
  pub current_block_number : ℕ
  pub next_epoch_start : ℕ
  pub remaining_capacity : ℕ
  pub total_capacity_issued : ℕ

-- `BigInt(value)` of a number.
unfoldable pub big_int : Number → Outcome ℕ
big_int n =
    if n.has_fraction
    then rejected (error "The number cannot be converted to a BigInt because it is not an integer")
    else resolved n.whole

-- `used >= value` for a bigint and a number.
unfoldable pub at_least : ℕ → Number → Bool
at_least used n = if n.has_fraction then ltb n.whole used else leb n.whole used

unfoldable pub limit_reached : LimitType → Number → CapacityInfo → ℕ → Outcome Bool
unfolding big_int at_least
limit_reached amount value info used = resolved (at_least used value)
limit_reached percentage value info used = elim (big_int value) [
  | rejected e ↦ rejected e
  | resolved percent ↦ resolved (leb (info.total_capacity_issued * percent / 100) used)
]

-- `outOfCapacity`, or the error that leaves the decision open.
unfoldable pub decide : CapacityLimit → CapacityInfo → ℕ → Outcome Bool
unfolding limit_reached
decide limit info used =
    if leb info.remaining_capacity 0
    then resolved true
    else limit_reached limit.type limit.value info used

pub record FailedJob : Type 0 where
  pub id : String
  pub failed_reason : Option String

-- `text.includes(part)`
unfoldable pub includes : String → String → Bool
includes text part = elim (find? text part) [ none ↦ false | some i ↦ true ]

unfoldable pub failed_for_capacity : FailedJob → Bool
unfolding includes
failed_for_capacity job = elim job.failed_reason [
  | none ↦ false
  | some reason ↦ includes reason "1010: Invalid Transaction: Inability to pay some fees"
]

-- The jobs that are retried.
unfoldable pub retried : List FailedJob → List String
unfolding failed_for_capacity
retried [] = []
retried (job ∷ jobs) =
    let rest = retried jobs in if failed_for_capacity job then job.id ∷ rest else rest
