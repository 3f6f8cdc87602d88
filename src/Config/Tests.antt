-- ===== src/Config/Tests.antt =====
-- The theorems on the settings at one environment.
use account_service.Common.{
  ℕ, ◌≡◌, refl, true, false, Option, none, some, ◌==◌, string_eq, ℕ_discrete,
}
use account_service.Decimal.{read}
use account_service.Api.{ℤ, pos}
use account_service.Config.{
  JsNumber, not_negative, json_number, Reading, Environment, Settings, accepted, whole_number,
  number_setting, bool_setting, required_uri, provider_id_setting, token_setting,
  capacity_limit_setting,
}
use account_service.Config.Schema.{validate}
use account_service.Config.Bounds.{IsSettings, validate-IsSettings}

abbrev number_of_text : Option ℕ → Option JsNumber
number_of_text none = none
number_of_text (some n) = some (not_negative (whole_number n))

abbrev big_int_of_text : Option ℕ → Option ℤ
big_int_of_text none = none
big_int_of_text (some n) = some (pos n)

-- One limit is known, and every text is a URI.
abbrev pub reading : Reading
reading = record {
  number = λ text. number_of_text (read 0 text);
  bool = λ text. some (text == "true");
  is_uri = λ text. true;
  big_int = λ text. big_int_of_text (read 0 text);
  json = λ text. some (record {
    type = some "percentage";
    value = some (json_number (not_negative (whole_number 50)));
    has_other_keys = false;
  });
}

abbrev pub environment : Environment
environment = record {
  blockchain_scan_interval_seconds = none;
  trust_unfinalized_blocks = none;
  redis_url = some "redis://localhost:6379";
  frequency_url = some "ws://localhost:9944";
  frequency_http_url = some "http://localhost:9944";
  api_port = some "3013";
  provider_account_seed_phrase = some "//Alice";
  provider_id = some "1";
  provider_base_url = some "http://localhost:3014";
  provider_access_token = none;
  webhook_failure_threshold = some "3";
  webhook_retry_interval_seconds = none;
  health_check_success_threshold = none;
  health_check_max_retry_interval_seconds = none;
  health_check_max_retries = none;
  capacity_limit = some "50 percent";
  siwf_url = none;
  siwf_domain = none;
}

abbrev pub settings : Settings
settings = record {
  blockchain_scan_interval_seconds = whole_number 12;
  trust_unfinalized_blocks = false;
  redis_url = "redis://localhost:6379";
  frequency_url = "ws://localhost:9944";
  frequency_http_url = "http://localhost:9944";
  api_port = whole_number 3013;
  provider_account_seed_phrase = "//Alice";
  provider_id = "1";
  provider_base_url = "http://localhost:3014";
  provider_access_token = "";
  webhook_failure_threshold = whole_number 3;
  webhook_retry_interval_seconds = whole_number 10;
  health_check_success_threshold = whole_number 10;
  health_check_max_retry_interval_seconds = whole_number 64;
  health_check_max_retries = whole_number 20;
  capacity_limit = "50 percent";
  siwf_url = none;
  siwf_domain = none;
}

pub starts : validate reading environment ≡ accepted settings
unfolding validate string_eq ℕ_discrete read number_setting bool_setting required_uri
    provider_id_setting token_setting capacity_limit_setting
starts = refl

validate-IsSettings_example : IsSettings reading environment settings
validate-IsSettings_example = validate-IsSettings reading environment settings starts
