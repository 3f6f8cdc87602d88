-- ===== src/Config.antt =====
-- libs/common/src/config/env.config.ts and config.service.ts: which environments are accepted, and
-- what the services read from them. Joi's readings of a text are parameters.
pub mod Schema
pub mod Bounds
pub mod Tests
use account_service.Common.{
  ℕ, String, Bool, true, false, not, ◌&&◌, ◌||◌, Option, none, some, ◌==◌, string_eq, nat_eq, leb,
  if◌then◌else◌,
}
use account_service.Api.{ℤ, pos, negsuc}
use account_service.Publisher.Decide.{Number, CapacityLimit, LimitType, percentage, amount}

-- What a text or a JSON value is as a number.
pub data JsNumber : Type 0 where
  not_negative : Number → JsNumber
  below_zero : JsNumber

-- The value of a capacity limit in JSON.
pub data LimitValue : Type 0 where
  json_number : JsNumber → LimitValue
  json_text : String → LimitValue
  json_other : LimitValue

-- An object of JSON, as the inner schema reads it.
pub record LimitObject : Type 0 where
  pub type : Option String
  pub value : Option LimitValue
  pub has_other_keys : Bool

-- Joi's conversions, `BigInt` and `JSON.parse`; `none` where they refuse a text.
pub record Reading : Type 0 where
  pub number : String → Option JsNumber
  pub bool : String → Option Bool
  pub is_uri : String → Bool
  pub big_int : String → Option ℤ
  pub json : String → Option LimitObject

-- The variables of the process.
pub record Environment : Type 0 where
  pub blockchain_scan_interval_seconds : Option String
  pub trust_unfinalized_blocks : Option String
  pub redis_url : Option String
  pub frequency_url : Option String
  pub frequency_http_url : Option String
  pub api_port : Option String
  pub provider_account_seed_phrase : Option String
  pub provider_id : Option String
  pub provider_base_url : Option String
  pub provider_access_token : Option String
  pub webhook_failure_threshold : Option String
  pub webhook_retry_interval_seconds : Option String
  pub health_check_success_threshold : Option String
  pub health_check_max_retry_interval_seconds : Option String
  pub health_check_max_retries : Option String
  pub capacity_limit : Option String
  -- not in the schema
  pub siwf_url : Option String
  pub siwf_domain : Option String

-- The environment with its conversions and defaults: what the getters of ConfigService read.
pub record Settings : Type 0 where
  pub blockchain_scan_interval_seconds : Number
  pub trust_unfinalized_blocks : Bool
  pub redis_url : String
  pub frequency_url : String
  pub frequency_http_url : String
  pub api_port : Number
  pub provider_account_seed_phrase : String
  pub provider_id : String
  pub provider_base_url : String
  pub provider_access_token : String
  pub webhook_failure_threshold : Number
  pub webhook_retry_interval_seconds : Number
  pub health_check_success_threshold : Number
  pub health_check_max_retry_interval_seconds : Number
  pub health_check_max_retries : Number
  pub capacity_limit : String
  pub siwf_url : Option String
  pub siwf_domain : Option String

abbrev pub whole_number : ℕ → Number
whole_number n = record { whole = n; has_fraction = false }

-- What a part of the schema says of a variable; a refusal ends the start of the service.
pub data Verdict {ℓ} (A : Type ℓ) : Type ℓ where
  accepted : A → Verdict A
  refused : Verdict A

infixl 5 ◌>>=◌
abbrev pub ◌>>=◌ {ℓ κ} : {A : Type ℓ} {B : Type κ} → Verdict A → (A → Verdict B) → Verdict B
accepted a >>= f = f a
refused >>= f = refused

module _ (r : Reading) where
  -- `Joi.number().min(min)`
  pub at_least_min : ℕ → Option JsNumber → Verdict Number
  at_least_min min none = refused
  at_least_min min (some below_zero) = refused
  at_least_min min (some (not_negative n)) = if leb min n.whole then accepted n else refused

  -- with `.default(n)`
  pub number_setting : ℕ → ℕ → Option String → Verdict Number
  unfolding at_least_min
  number_setting min default_value none = accepted (whole_number default_value)
  number_setting min default_value (some text) = at_least_min min (r.number text)

  -- `Joi.bool().default(false)`
  pub bool_setting : Option String → Verdict Bool
  bool_setting none = accepted false
  bool_setting (some text) = elim (r.bool text) [ none ↦ refused | some b ↦ accepted b ]

  -- `Joi.string()` refuses the empty text.
  pub not_empty : String → Verdict String
  not_empty text = if text == "" then refused else accepted text

  pub required_string : Option String → Verdict String
  unfolding not_empty
  required_string none = refused
  required_string (some text) = not_empty text

  pub required_uri : Option String → Verdict String
  unfolding required_string
  required_uri variable = do
    text ← required_string variable
    if r.is_uri text then accepted text else refused

  -- `Joi.string().default('')`
  pub token_setting : Option String → Verdict String
  unfolding not_empty
  token_setting none = accepted ""
  token_setting (some text) = not_empty text

  -- The `custom` of PROVIDER_ID.
  pub provider_id_setting : Option String → Verdict String
  provider_id_setting none = refused
  provider_id_setting (some text) = elim (r.big_int text) [
    | none ↦ refused
    | some (negsuc n) ↦ refused
    | some (pos n) ↦ accepted text
  ]

  -- Joi converts the value of the limit for its test.
  pub number_of : LimitValue → Option JsNumber
  number_of (json_number n) = some n
  number_of (json_text text) = r.number text
  number_of json_other = none

  pub at_most_100 : Number → Bool
  at_most_100 n = leb n.whole 99 || (n.whole == 100 && not n.has_fraction)

  pub limit_value : String → Option JsNumber → Verdict CapacityLimit
  unfolding at_most_100
  limit_value type none = refused
  limit_value type (some below_zero) = refused
  limit_value type (some (not_negative n)) =
      if type == "percentage"
      then (if at_most_100 n then accepted (record { type = percentage; value = n }) else refused)
      else if type == "amount"
      then accepted (record { type = amount; value = n })
      else refused

  -- The inner schema, with the value that Joi reads.
  pub limit_object : LimitObject → Verdict CapacityLimit
  unfolding limit_value number_of
  limit_object o = elim o.type [
    | none ↦ refused
    | some type ↦ elim o.value [
      | none ↦ refused
      | some value ↦ if o.has_other_keys then refused else limit_value type (number_of value)
    ]
  ]

  pub parsed_limit : String → Verdict CapacityLimit
  unfolding limit_object
  parsed_limit text = elim (r.json text) [ none ↦ refused | some o ↦ limit_object o ]

  -- The `custom` of CAPACITY_LIMIT.
  pub capacity_limit_setting : Option String → Verdict String
  unfolding required_string parsed_limit
  capacity_limit_setting variable = do
    text ← required_string variable
    limit ← parsed_limit text
    accepted text
