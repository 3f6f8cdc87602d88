-- ===== src/Nonce.antt =====
-- libs/common/src/services/nonce.service.ts with lua/incrementNonce.lua and the names of
-- libs/common/src/utils/redis.ts: which nonce the next transaction gets.
pub mod Search
pub mod Unique
pub mod Repeats
mod Tests
use account_service.Common.{
  ℕ, zero, suc, ◌+◌, ◌-◌, String, ◌<>◌, Option, none, some, List, [], ◌∷◌, ◌==◌, nat_eq, ltb,
  length, if◌then◌else◌,
}
use account_service.Js.{Outcome, resolved, rejected}
use account_service.Decimal.{to_string}
use account_service.Redis.{Keyspace}

abbrev pub number_of_nonce_keys_to_check : ℕ
number_of_nonce_keys_to_check = 50

abbrev pub nonce_key_expire_seconds : ℕ
nonce_key_expire_seconds = 2

abbrev pub chain_nonce_key : String
chain_nonce_key = "chain:nonce"

unfoldable pub get_nonce_key : String → String
get_nonce_key suffix = chain_nonce_key <> (":" <> suffix)

-- What an object of polkadot becomes for `+`: a number, or its text.
pub data Primitive : Type 0 where
  number_value : ℕ → Primitive
  text_value : String → Primitive

-- What `blockchainService.getNonce` answers is a codec of polkadot: `Number(nonce)`, and what it is for
-- `+`. An integer of polkadot has no value as a primitive but its decimal text.
pub record Index : Type 0 where
  pub number : ℕ
  pub primitive : Primitive

-- `${currentNonce + i}`: a sum of numbers, or the text with that of `i` behind it.
unfoldable pub plus : Primitive → ℕ → String
plus (number_value n) i = to_string (n + i)
plus (text_value text) i = text <> to_string i

-- The rounds left and `i`, of the loop over the keys.
possible_keys_loop : ℕ → ℕ → Index → List String
possible_keys_loop zero i current_nonce = []
possible_keys_loop (suc rounds) i current_nonce =
    get_nonce_key (plus current_nonce.primitive i) ∷ possible_keys_loop rounds (i + 1) current_nonce

pub get_next_possible_keys : Index → List String
get_next_possible_keys current_nonce =
    possible_keys_loop number_of_nonce_keys_to_check 0 current_nonce

module _ (K : Keyspace) where
  -- `repeat ... until i > keysSize` over KEYS[i], KEYS[i + 1], ...; -1 is `none`. Lua indices
  -- start at 1. The caller's key list is as long as `keysSize`, so KEYS[i] is never missing.
  increment_nonce_loop : K.State → ℕ → ℕ → ℕ → List String → K.State × Option ℕ
  increment_nonce_loop s keys_size expire_in_seconds i [] = (s, none)
  increment_nonce_loop s keys_size expire_in_seconds i (next_key ∷ keys) =
      let rest = increment_nonce_loop s keys_size expire_in_seconds (i + 1) keys in
      if K.exists s next_key == 0
      then (K.setex s next_key expire_in_seconds "1", some i)
      else if ltb keys_size (i + 1)
      then (s, none)
      else rest

  -- A script runs as one command of Redis: nothing comes between its reads and its write.
  pub increment_nonce : K.State → List String → ℕ → ℕ → K.State × Option ℕ
  increment_nonce s keys keys_size expire_in_seconds =
      increment_nonce_loop s keys_size expire_in_seconds 1 keys

  next_of_index : Index → Option ℕ → ℕ
  next_of_index nonce none = nonce.number + number_of_nonce_keys_to_check
  next_of_index nonce (some next_nonce_index) = nonce.number + next_nonce_index - 1

  -- The first argument is what `blockchainService.getNonce` answers.
  unfoldable pub get_next_nonce : Outcome Index → K.State → Outcome ℕ × K.State
  unfolding increment_nonce increment_nonce_loop next_of_index get_next_possible_keys
      possible_keys_loop get_nonce_key plus to_string
  get_next_nonce (rejected e) s = (rejected e, s)
  get_next_nonce (resolved nonce) s =
      let keys = get_next_possible_keys nonce in
      let (s', index) = increment_nonce s keys (length keys) nonce_key_expire_seconds in
      (resolved (next_of_index nonce index), s')

  -- `onApplicationBootstrap` takes a nonce too, to log it.
  unfoldable pub on_application_bootstrap : Outcome Index → K.State → Outcome ℕ × K.State
  on_application_bootstrap chain_nonce s = get_next_nonce chain_nonce s
