-- ===== src/Webhook/Tests.antt =====
-- The theorems on health checks at concrete settings and answers.
use account_service.Common.{◌≡◌, refl, [], ◌∷◌, ◌++◌, map, some, replicate, string_eq}
use account_service.Js.{Throwable, resolved, rejected, error}
use account_service.Scheduler.Memory.{memory, memory-IsScheduler}
use account_service.Webhook.{WebhookConfig, WebhookService, start_webhook_health_check}
use account_service.Webhook.Counters.{checks, failures_shutdown, restart_after_healthy}

abbrev settings : WebhookConfig
settings = record {
  health_check_max_retries = 3;
  health_check_max_retry_interval_seconds = 64;
  health_check_success_threshold = 2;
  webhook_retry_interval_seconds = 10;
}

abbrev refused : Throwable
refused = error "connect ECONNREFUSED"

-- The state of a worker that has just begun to check.
abbrev checking : WebhookService memory
checking = record {
  failed_health_checks = 0;
  successful_health_checks = 0;
  registry = λ name. some 0;
  emitted = [];
}

failures_shutdown_example :
    ((checks memory settings (map rejected (refused ∷ refused ∷ [])) checking).emitted ≡ [])
    × ((checks memory settings
          (map rejected (refused ∷ refused ∷ []) ++ (rejected refused ∷ []))
          checking).emitted
        ≡ "shutdown" ∷ [])
failures_shutdown_example =
    failures_shutdown memory memory-IsScheduler settings (refused ∷ refused ∷ []) refused checking 0
      refl refl refl

restart_after_healthy_example :
    let w' = checks memory settings (replicate 1 (resolved tt) ++ (resolved tt ∷ [])) checking in
    (e : Throwable) × ((start_webhook_health_check memory w').0 ≡ rejected e)
    × ((start_webhook_health_check memory w').1.registry ≡ w'.registry)
restart_after_healthy_example =
    restart_after_healthy memory memory-IsScheduler settings 1 checking 0 refl refl refl
