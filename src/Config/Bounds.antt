-- ===== src/Config/Bounds.antt =====
-- What holds of the settings of a service that has started.
use account_service.Common.{
  ℕ, ◌<◌, ◌⊎◌, ◌==◌, ==→eq, string_eq, Bool-cases, false, ◌≤◌, ◌≡◌, refl, inl, inr, String, subst,
  Option, none, some, arith, Option-cases,
}
use account_service.Api.{pos, negsuc}
use account_service.Publisher.Decide.{Number, CapacityLimit, percentage}
use account_service.Config.{
  JsNumber, Reading, Environment, Settings, Verdict, accepted, refused, ◌>>=◌, number_setting,
  bool_setting, required_string, required_uri, token_setting, provider_id_setting,
  capacity_limit_setting, parsed_limit, limit_object, limit_value, LimitObject, number_of,
  at_most_100,
}
use account_service.Config.Schema.{validate, ConfigService, config_service}

-- The fraction included.
abbrev pub AtMost100 : Number → Type 0
AtMost100 n = (n.whole < 100) ⊎ ((n.whole ≡ 100) × (n.has_fraction ≡ false))

bind-accepted :
    {A B : Type 0} (m : Verdict A) (f : A → Verdict B) {b : B}
    → (m >>= f) ≡ accepted b
    → (a : A) × (m ≡ accepted a) × (f a ≡ accepted b)
bind-accepted (accepted a) f e = (a, refl, e)
bind-accepted refused f e = cc

accepted-injective : {A : Type 0} {a b : A} → Path (Verdict A) (accepted a) (accepted b) → a ≡ b
accepted-injective e = cc

module _ (r : Reading) where
  number_setting-min :
      (min default_value : ℕ) (variable : Option String) (n : Number)
      → min ≤ default_value
      → number_setting r min default_value variable ≡ accepted n
      → min ≤ n.whole
  unfolding number_setting
  number_setting-min min default_value variable n h e = ground arith

  limit_value-bound :
      (type : String) (value : Option JsNumber) (limit : CapacityLimit)
      → limit_value r type value ≡ accepted limit
      → limit.type ≡ percentage
      → AtMost100 limit.value
  unfolding limit_value at_most_100
  limit_value-bound type value limit e percent = ground arith

  limit_value-type :
      (type : String) (value : Option JsNumber) (limit : CapacityLimit)
      → limit_value r type value ≡ accepted limit
      → (type ≡ "percentage") ⊎ (type ≡ "amount")
  unfolding limit_value
  limit_value-type type value limit e = elim (Bool-cases (type == "percentage")) [
    | inl same ↦ inl (==→eq type "percentage" same)
    | inr other ↦ elim (Bool-cases (type == "amount")) [
      | inl same ↦ inr (==→eq type "amount" same)
      | inr neither ↦ ground arith
    ]
  ]

  -- What the inner schema has said of the object of JSON.
  pub record IsLimit (o : LimitObject) : Type 0 where
    pub type : String
    pub typed : o.type ≡ some type
    pub known : (type ≡ "percentage") ⊎ (type ≡ "amount")
    pub limit : CapacityLimit
    pub read : limit_object r o ≡ accepted limit
    pub bound : limit.type ≡ percentage → AtMost100 limit.value

  limit_object-IsLimit :
      (o : LimitObject) (limit : CapacityLimit) → limit_object r o ≡ accepted limit → IsLimit o
  unfolding limit_object
  limit_object-IsLimit o limit e = elim (Option-cases o.type) [
    | inl missing ↦ ground arith
    | inr (type, at) ↦ elim (Option-cases o.value) [
      | inl missing ↦ ground arith
      | inr (value, is) ↦ elim (Bool-cases o.has_other_keys) [
        | inl more ↦ ground arith
        | inr only ↦
            let tested : limit_value r type (number_of r value) ≡ accepted limit =
              rw (at, is, only, limit_object) at e in
            record {
              type = type;
              typed = at;
              known = limit_value-type type (number_of r value) limit tested;
              limit = limit;
              read = e;
              bound = limit_value-bound type (number_of r value) limit tested;
            }
      ]
    ]
  ]

  parsed_limit-IsLimit :
      (text : String) (limit : CapacityLimit)
      → parsed_limit r text ≡ accepted limit
      → (o : LimitObject) × (r.json text ≡ some o) × IsLimit o
  unfolding parsed_limit
  parsed_limit-IsLimit text limit e = elim (Option-cases (r.json text)) [
    | inl none_read ↦ ground arith
    | inr (o, q) ↦ (o, q, limit_object-IsLimit o limit (rw (q, parsed_limit) at e))
  ]

  provider_id_setting-pos :
      (variable : Option String) (text : String)
      → provider_id_setting r variable ≡ accepted text
      → (n : ℕ) × (r.big_int text ≡ some (pos n))
  unfolding provider_id_setting
  provider_id_setting-pos none text e = ground arith
  provider_id_setting-pos (some written) text e = elim (Option-cases (r.big_int written)) [
    | inl e₁ ↦ ground arith
    | inr (pos n, e₁) ↦ (n, ground arith)
    | inr (negsuc n, e₁) ↦ ground arith
  ]

  capacity_limit_setting-parsed :
      (variable : Option String) (text : String)
      → capacity_limit_setting r variable ≡ accepted text
      → (limit : CapacityLimit) × (parsed_limit r text ≡ accepted limit)
  unfolding capacity_limit_setting
  capacity_limit_setting-parsed variable text e =
      let (written, e₁, h₁) = bind-accepted (required_string r variable) _ e in
      let (limit, e₂, h₂) = bind-accepted (parsed_limit r written) _ h₁ in (limit, ground arith)

  -- What an accepted environment has been read as, of the variables that are tested.
  record IsRead (e : Environment) (s : Settings) : Type 0 where
    interval :
        number_setting r 1 12 e.blockchain_scan_interval_seconds
        ≡ accepted s.blockchain_scan_interval_seconds
    provider_id : provider_id_setting r e.provider_id ≡ accepted s.provider_id
    failure_threshold :
        number_setting r 1 3 e.webhook_failure_threshold ≡ accepted s.webhook_failure_threshold
    retry_interval :
        number_setting r 1 10 e.webhook_retry_interval_seconds
        ≡ accepted s.webhook_retry_interval_seconds
    success_threshold :
        number_setting r 1 10 e.health_check_success_threshold
        ≡ accepted s.health_check_success_threshold
    max_retry_interval :
        number_setting r 1 64 e.health_check_max_retry_interval_seconds
        ≡ accepted s.health_check_max_retry_interval_seconds
    capacity_limit : capacity_limit_setting r e.capacity_limit ≡ accepted s.capacity_limit
    siwf_url : s.siwf_url ≡ e.siwf_url

  validate-IsRead : (e : Environment) (s : Settings) → validate r e ≡ accepted s → IsRead e s
  unfolding validate
  validate-IsRead e s h =
      let (x0, e0, h0) =
        bind-accepted (number_setting r 1 12 e.blockchain_scan_interval_seconds) _ h in
      let (x1, e1, h1) = bind-accepted (bool_setting r e.trust_unfinalized_blocks) _ h0 in
      let (x2, e2, h2) = bind-accepted (required_uri r e.redis_url) _ h1 in
      let (x3, e3, h3) = bind-accepted (required_uri r e.frequency_url) _ h2 in
      let (x4, e4, h4) = bind-accepted (required_uri r e.frequency_http_url) _ h3 in
      let (x5, e5, h5) = bind-accepted (number_setting r 0 3000 e.api_port) _ h4 in
      let (x6, e6, h6) = bind-accepted (required_string r e.provider_account_seed_phrase) _ h5 in
      let (x7, e7, h7) = bind-accepted (provider_id_setting r e.provider_id) _ h6 in
      let (x8, e8, h8) = bind-accepted (required_uri r e.provider_base_url) _ h7 in
      let (x9, e9, h9) = bind-accepted (token_setting r e.provider_access_token) _ h8 in
      let (x10, e10, h10) = bind-accepted (number_setting r 1 3 e.webhook_failure_threshold) _ h9 in
      let (x11, e11, h11) =
        bind-accepted (number_setting r 1 10 e.webhook_retry_interval_seconds) _ h10 in
      let (x12, e12, h12) =
        bind-accepted (number_setting r 1 10 e.health_check_success_threshold) _ h11 in
      let (x13, e13, h13) =
        bind-accepted (number_setting r 1 64 e.health_check_max_retry_interval_seconds) _ h12 in
      let (x14, e14, h14) =
        bind-accepted (number_setting r 0 20 e.health_check_max_retries) _ h13 in
      let (x15, e15, h15) = bind-accepted (capacity_limit_setting r e.capacity_limit) _ h14 in
      subst (IsRead e) (accepted-injective h15) (record {
        interval = e0;
        provider_id = e7;
        failure_threshold = e10;
        retry_interval = e11;
        success_threshold = e12;
        max_retry_interval = e13;
        capacity_limit = e15;
        siwf_url = refl;
      })

  -- The object that the constructor makes of its settings.
  abbrev service_of : Settings → LimitObject → ConfigService
  service_of s o = record {
    blockchain_scan_interval_seconds = s.blockchain_scan_interval_seconds;
    trust_unfinalized_blocks = s.trust_unfinalized_blocks;
    provider_base_url = s.provider_base_url;
    provider_api_token = s.provider_access_token;
    provider_id = s.provider_id;
    siwf_url = s.siwf_url;
    siwf_domain = s.siwf_domain;
    api_port = s.api_port;
    provider_account_seed_phrase = s.provider_account_seed_phrase;
    redis_url = s.redis_url;
    frequency_url = s.frequency_url;
    frequency_http_url = s.frequency_http_url;
    health_check_max_retries = s.health_check_max_retries;
    health_check_max_retry_interval_seconds = s.health_check_max_retry_interval_seconds;
    health_check_success_threshold = s.health_check_success_threshold;
    webhook_failure_threshold = s.webhook_failure_threshold;
    webhook_retry_interval_seconds = s.webhook_retry_interval_seconds;
    capacity_limit = o;
  }

  -- What holds of the getters.
  pub record IsSettings (e : Environment) (s : Settings) : Type 0 where
    pub service : ConfigService
    pub constructed : config_service r s ≡ accepted service
    pub interval : 1 ≤ service.blockchain_scan_interval_seconds.whole
    pub failure_threshold : 1 ≤ service.webhook_failure_threshold.whole
    pub retry_interval : 1 ≤ service.webhook_retry_interval_seconds.whole
    pub success_threshold : 1 ≤ service.health_check_success_threshold.whole
    pub max_retry_interval : 1 ≤ service.health_check_max_retry_interval_seconds.whole
    pub limit : IsLimit service.capacity_limit
    pub id_number : ℕ
    pub id_read : r.big_int service.provider_id ≡ some (pos id_number)
    pub siwf_url : s.siwf_url ≡ e.siwf_url

  -- A service whose environment is accepted starts: the constructor of ConfigService is not refused.
  -- Its interval, thresholds and retry intervals are 1 or more; the object of its capacity limit, as
  -- JSON has it, is a percentage or an amount, and the number that Joi reads its value as is at most
  -- 100 for a percentage, any fraction included; and the id of the provider is a whole number that is
  -- not negative; 0 is one. The URL of the sign-in page is passed on as it is, also where it is
  -- missing.
  pub validate-IsSettings :
      (e : Environment) (s : Settings) → validate r e ≡ accepted s → IsSettings e s
  unfolding config_service
  validate-IsSettings e s h =
      let i = validate-IsRead e s h in
      let (limit, read) =
        capacity_limit_setting-parsed e.capacity_limit s.capacity_limit i.capacity_limit in
      let (o, parsed, is_limit) = parsed_limit-IsLimit s.capacity_limit limit read in
      let (n, id) = provider_id_setting-pos e.provider_id s.provider_id i.provider_id in
      record {
        service = service_of s o;
        constructed = rw (parsed, config_service) refl;
        interval = number_setting-min 1 12 _ _ (omega arith) i.interval;
        failure_threshold = number_setting-min 1 3 _ _ (omega arith) i.failure_threshold;
        retry_interval = number_setting-min 1 10 _ _ (omega arith) i.retry_interval;
        success_threshold = number_setting-min 1 10 _ _ (omega arith) i.success_threshold;
        max_retry_interval = number_setting-min 1 64 _ _ (omega arith) i.max_retry_interval;
        limit = is_limit;
        id_number = n;
        id_read = id;
        siwf_url = i.siwf_url;
      }
