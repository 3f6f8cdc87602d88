-- ===== src/Config/Schema.antt =====
-- The whole schema of libs/common/src/config/env.config.ts, and the constructor of ConfigService.
use account_service.Common.{String, Option, none, some, Bool}
use account_service.Publisher.Decide.{Number}
use account_service.Config.{
  LimitObject, Reading, Environment, Settings, Verdict, accepted, refused, ◌>>=◌, number_setting,
  bool_setting, required_string, required_uri, token_setting, provider_id_setting,
  capacity_limit_setting,
}

-- The getters of ConfigService.
pub record ConfigService : Type 0 where
  pub blockchain_scan_interval_seconds : Number
  pub trust_unfinalized_blocks : Bool
  pub provider_base_url : String
  pub provider_api_token : String
  pub provider_id : String
  pub siwf_url : Option String
  pub siwf_domain : Option String
  pub api_port : Number
  pub provider_account_seed_phrase : String
  pub redis_url : String
  pub frequency_url : String
  pub frequency_http_url : String
  pub health_check_max_retries : Number
  pub health_check_max_retry_interval_seconds : Number
  pub health_check_success_threshold : Number
  pub webhook_failure_threshold : Number
  pub webhook_retry_interval_seconds : Number
  pub capacity_limit : LimitObject

module _ (r : Reading) where
  -- `configModuleOptions.validationSchema`
  unfoldable pub validate : Environment → Verdict Settings
  validate e = do
    interval ← number_setting r 1 12 e.blockchain_scan_interval_seconds
    trust ← bool_setting r e.trust_unfinalized_blocks
    redis_url ← required_uri r e.redis_url
    frequency_url ← required_uri r e.frequency_url
    frequency_http_url ← required_uri r e.frequency_http_url
    api_port ← number_setting r 0 3000 e.api_port
    seed_phrase ← required_string r e.provider_account_seed_phrase
    provider_id ← provider_id_setting r e.provider_id
    provider_base_url ← required_uri r e.provider_base_url
    token ← token_setting r e.provider_access_token
    failure_threshold ← number_setting r 1 3 e.webhook_failure_threshold
    retry_interval ← number_setting r 1 10 e.webhook_retry_interval_seconds
    success_threshold ← number_setting r 1 10 e.health_check_success_threshold
    max_retry_interval ← number_setting r 1 64 e.health_check_max_retry_interval_seconds
    max_retries ← number_setting r 0 20 e.health_check_max_retries
    capacity_limit ← capacity_limit_setting r e.capacity_limit
    accepted (record {
      blockchain_scan_interval_seconds = interval;
      trust_unfinalized_blocks = trust;
      redis_url = redis_url;
      frequency_url = frequency_url;
      frequency_http_url = frequency_http_url;
      api_port = api_port;
      provider_account_seed_phrase = seed_phrase;
      provider_id = provider_id;
      provider_base_url = provider_base_url;
      provider_access_token = token;
      webhook_failure_threshold = failure_threshold;
      webhook_retry_interval_seconds = retry_interval;
      health_check_success_threshold = success_threshold;
      health_check_max_retry_interval_seconds = max_retry_interval;
      health_check_max_retries = max_retries;
      capacity_limit = capacity_limit;
      siwf_url = e.siwf_url;
      siwf_domain = e.siwf_domain;
    })

  pub config_of : Settings → Option LimitObject → Verdict ConfigService
  config_of s none = refused
  config_of s (some capacity_limit_obj) = accepted (record {
    blockchain_scan_interval_seconds = s.blockchain_scan_interval_seconds;
    trust_unfinalized_blocks = s.trust_unfinalized_blocks;
    provider_base_url = s.provider_base_url;
    provider_api_token = s.provider_access_token;
    provider_id = s.provider_id;
    siwf_url = s.siwf_url;
    siwf_domain = s.siwf_domain;
    api_port = s.api_port;
    provider_account_seed_phrase = s.provider_account_seed_phrase;
    redis_url = s.redis_url;
    frequency_url = s.frequency_url;
    frequency_http_url = s.frequency_http_url;
    health_check_max_retries = s.health_check_max_retries;
    health_check_max_retry_interval_seconds = s.health_check_max_retry_interval_seconds;
    health_check_success_threshold = s.health_check_success_threshold;
    webhook_failure_threshold = s.webhook_failure_threshold;
    webhook_retry_interval_seconds = s.webhook_retry_interval_seconds;
    capacity_limit = capacity_limit_obj;
  })

  -- The constructor and the getters: the texts as they are, and the limit as `JSON.parse` has it; what
  -- Joi made of its value for the test is lost.
  unfoldable pub config_service : Settings → Verdict ConfigService
  unfolding config_of
  config_service s = config_of s (r.json s.capacity_limit)
