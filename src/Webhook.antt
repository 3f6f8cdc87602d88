-- ===== src/Webhook.antt =====
-- libs/common/src/services/provider-webhook.service.ts: the health checks of the provider's webhook.
pub mod Counters
pub mod Timers
mod Tests
use account_service.Common.{
  ℕ, ◌+◌, ◌-◌, ◌*◌, ◌^◌, min, String, Bool, true, false, List, [], ◌∷◌, ◌++◌, ltb, leb,
  if◌then◌else◌,
}
use account_service.Js.{Outcome, resolved, rejected, catch}
use account_service.Scheduler.{Scheduler}

abbrev pub health_check_timeout_name : String
health_check_timeout_name = "health_check"

-- The settings that the checks read from the config service.
pub record WebhookConfig : Type 0 where
  pub health_check_max_retries : ℕ
  pub health_check_max_retry_interval_seconds : ℕ
  pub health_check_success_threshold : ℕ
  pub webhook_retry_interval_seconds : ℕ

-- `time-constants`
abbrev pub milliseconds_per_second : ℕ
milliseconds_per_second = 1000

module _ (S : Scheduler) where
  -- The service, the registry that it shares, and the events that it has emitted, oldest first.
  pub record WebhookService : Type 0 where
    pub failed_health_checks : ℕ
    pub successful_health_checks : ℕ
    pub registry : S.State
    pub emitted : List String

  pub emit : String → WebhookService → WebhookService
  emit event w = record w { emitted = w.emitted ++ (event ∷ []) }

  -- The answer to `GET /health` is a parameter: any status that axios does not accept rejects.
  pub count_response : Outcome (Unit {0}) → WebhookService → WebhookService
  count_response (resolved u) w = record w {
    successful_health_checks = w.successful_health_checks + 1;
    failed_health_checks = 0;
  }
  count_response (rejected e) w = record w {
    successful_health_checks = 0;
    failed_health_checks = w.failed_health_checks + 1;
  }

  -- `addTimeout(HEALTH_CHECK_TIMEOUT_NAME, setTimeout(() => checkProviderWebhook(), delay))`
  pub add_check : ℕ → WebhookService → Outcome (Unit {0}) × WebhookService
  add_check delay w = elim (S.add_timeout w.registry health_check_timeout_name delay) [
    | rejected e ↦ (rejected e, w)
    | resolved registry ↦ (resolved tt, record w { registry = registry })
  ]

  -- `deleteTimeout` and `addTimeout` of a branch that goes on checking.
  pub reschedule : ℕ → WebhookService → Outcome (Unit {0}) × WebhookService
  unfolding add_check
  reschedule delay w = elim (S.delete_timeout w.registry health_check_timeout_name) [
    | rejected e ↦ (rejected e, w)
    | resolved registry ↦ add_check delay (record w { registry = registry })
  ]

  -- `2 ** (failed - 1)` seconds, capped, in milliseconds.
  pub backoff : WebhookConfig → ℕ → ℕ
  backoff c failed =
      min (2 ^ (failed - 1) * milliseconds_per_second)
        (c.health_check_max_retry_interval_seconds * milliseconds_per_second)

  pub after_response : WebhookConfig → WebhookService → Outcome (Unit {0}) × WebhookService
  after_response c w =
      if ltb 0 w.failed_health_checks
      then (if leb c.health_check_max_retries w.failed_health_checks
          then (resolved tt, emit "shutdown" w)
          else reschedule (backoff c w.failed_health_checks) w)
      else if ltb 0 w.successful_health_checks
      then (if leb c.health_check_success_threshold w.successful_health_checks
          then (resolved tt, emit "webhook.healthy" w)
          else reschedule c.webhook_retry_interval_seconds w)
      else (resolved tt, w)

  pub check_provider_webhook :
      WebhookConfig → Outcome (Unit {0}) → WebhookService → Outcome (Unit {0}) × WebhookService
  check_provider_webhook c answer w = after_response c (count_response answer w)

  -- The handler of `webhook.unhealthy`.
  pub start_webhook_health_check : WebhookService → Outcome (Unit {0}) × WebhookService
  start_webhook_health_check w =
      add_check 0 (record w { failed_health_checks = 0; successful_health_checks = 0 })

  pub delete_or_ignore : WebhookService → WebhookService
  delete_or_ignore w = elim (S.delete_timeout w.registry health_check_timeout_name) [
    | rejected e ↦ w
    | resolved registry ↦ record w { registry = registry }
  ]

  unfoldable pub on_module_destroy : WebhookService → WebhookService
  on_module_destroy w =
      if S.does_exist w.registry health_check_timeout_name then delete_or_ignore w else w
