-- ===== src/Webhook/Counters.antt =====
-- Runs of health checks: how many failures shut the worker down, how many successes resume it.
use account_service.Common.{
  ℕ, zero, suc, ◌+◌, ◌≤◌, ◌<◌, ◌≡◌, ◌*◌, ◌^◌, ◌-◌, min, replicate, refl, ap, ◌∙◌, List, [], ◌∷◌,
  ◌++◌, map, length, arith,
}
use account_service.Js.{Outcome, resolved, rejected, Throwable}
use account_service.Scheduler.{Scheduler, IsScheduler}
use account_service.Webhook.{
  WebhookConfig, WebhookService, emit, count_response, backoff, after_response,
  check_provider_webhook, start_webhook_health_check,
}
use account_service.Webhook.Timers.{Waits, reschedule_lem, add_check_taken}

-- The checks that the timeouts run, one for each answer of the provider.
pub checks :
    (S : Scheduler)
    → WebhookConfig
    → List (Outcome (Unit {0}))
    → WebhookService S
    → WebhookService S
checks S c [] w = w
checks S c (answer ∷ answers) w = checks S c answers (check_provider_webhook S c answer w).1

module _ (S : Scheduler) (L : IsScheduler S) (c : WebhookConfig) where
  -- What one check leaves when it goes on checking.
  abbrev GoesOn : ℕ → ℕ → ℕ → WebhookService S → Outcome (Unit {0}) × WebhookService S → Type 0
  GoesOn failed successful delay w out =
      (out.0 ≡ resolved tt)
      × (out.1.failed_health_checks ≡ failed)
      × (out.1.successful_health_checks ≡ successful)
      × (out.1.emitted ≡ w.emitted)
      × Waits S out.1.registry delay

  check-failure :
      (e : Throwable) (w : WebhookService S) (old : ℕ)
      → Waits S w.registry old
      → w.failed_health_checks + 1 < c.health_check_max_retries
      → GoesOn
          (w.failed_health_checks + 1)
          0
          (backoff S c (w.failed_health_checks + 1))
          w
          (check_provider_webhook S c (rejected e) w)
  unfolding check_provider_webhook after_response count_response
  check-failure e w old waits h =
      let w' = count_response S (rejected e) w in
      let (r, p, q) = reschedule_lem S L (backoff S c (w.failed_health_checks + 1)) old w' waits in
      ground (arith)

  check-success :
      (w : WebhookService S) (old : ℕ)
      → Waits S w.registry old
      → w.successful_health_checks + 1 < c.health_check_success_threshold
      → GoesOn 0
          (w.successful_health_checks + 1)
          c.webhook_retry_interval_seconds
          w
          (check_provider_webhook S c (resolved tt) w)
  unfolding check_provider_webhook after_response count_response
  check-success w old waits h =
      let w' = count_response S (resolved tt) w in
      let (r, p, q) = reschedule_lem S L c.webhook_retry_interval_seconds old w' waits in
      ground arith

  -- Failures in a row, fewer than the limit: the worker goes on, and says nothing.
  failures_below :
      (es : List Throwable) (w : WebhookService S) (old : ℕ)
      → Waits S w.registry old
      → w.failed_health_checks + length es < c.health_check_max_retries
      → let w' = checks S c (map rejected es) w in
        (w'.failed_health_checks ≡ w.failed_health_checks + length es)
        × (w'.emitted ≡ w.emitted)
        × ((delay : ℕ) × Waits S w'.registry delay)
  unfolding checks
  failures_below [] w old waits h = (omega arith, refl, (old, waits))
  failures_below (e ∷ es) w old waits h =
      let (_, failed, _, quiet, waits') = check-failure e w old waits (omega arith) in
      let (failed', quiet', later) =
        failures_below es (check_provider_webhook S c (rejected e) w).1 _ waits' (omega arith) in
      (omega arith, quiet' ∙ quiet, later)

  check-last_failure :
      (e : Throwable) (w : WebhookService S)
      → c.health_check_max_retries ≤ w.failed_health_checks + 1
      → check_provider_webhook S c (rejected e) w
        ≡ (resolved tt, emit S "shutdown" (count_response S (rejected e) w))
  unfolding check_provider_webhook after_response count_response
  check-last_failure e w h = ground arith

  checks-append :
      (xs ys : List (Outcome (Unit {0}))) (w : WebhookService S)
      → checks S c (xs ++ ys) w ≡ checks S c ys (checks S c xs w)
  unfolding checks
  checks-append [] ys w = refl
  checks-append (x ∷ xs) ys w = checks-append xs ys (check_provider_webhook S c x w).1

  -- While a check is registered and no failure is counted, `health_check_max_retries` failures in a
  -- row emit `shutdown`, and no event comes before it.
  pub failures_shutdown :
      (es : List Throwable) (e : Throwable) (w : WebhookService S) (old : ℕ)
      → w.failed_health_checks ≡ 0
      → Waits S w.registry old
      → length es + 1 ≡ c.health_check_max_retries
      → ((checks S c (map rejected es) w).emitted ≡ w.emitted)
        × ((checks S c (map rejected es ++ (rejected e ∷ [])) w).emitted
            ≡ w.emitted ++ ("shutdown" ∷ []))
  unfolding checks emit count_response
  failures_shutdown es e w old zeroed waits h =
      let (failed, quiet, _) = failures_below es w old waits (omega arith) in
      let w' = checks S c (map rejected es) w in
      (
        quiet,
        rw (checks-append (map rejected es) (rejected e ∷ []) w) (
            rw (check-last_failure e w' (omega arith), checks)
              (ap (λ xs. xs ++ ("shutdown" ∷ [])) quiet)),
      )

  successes_below :
      (n : ℕ) (w : WebhookService S) (old : ℕ)
      → Waits S w.registry old
      → w.successful_health_checks + n < c.health_check_success_threshold
      → let w' = checks S c (replicate n (resolved tt)) w in
        (w'.successful_health_checks ≡ w.successful_health_checks + n)
        × (w'.emitted ≡ w.emitted)
        × ((delay : ℕ) × Waits S w'.registry delay)
  unfolding checks
  successes_below zero w old waits h = (omega arith, refl, (old, waits))
  successes_below (suc n) w old waits h =
      let (_, _, successful, quiet, waits') = check-success w old waits (omega arith) in
      let (successful', quiet', later) =
        successes_below n (check_provider_webhook S c (resolved tt) w).1 _ waits' (omega arith) in
      (omega arith, quiet' ∙ quiet, later)

  check-last_success :
      (w : WebhookService S)
      → c.health_check_success_threshold ≤ w.successful_health_checks + 1
      → check_provider_webhook S c (resolved tt) w
        ≡ (resolved tt, emit S "webhook.healthy" (count_response S (resolved tt) w))
  unfolding check_provider_webhook after_response count_response
  check-last_success w h = ground arith

  -- While a check is registered and no success is counted, exactly
  -- `health_check_success_threshold` successes in a row are needed: one fewer emits nothing, the last
  -- one emits `webhook.healthy`. The check's timeout is then still registered.
  pub successes_healthy :
      (n : ℕ) (w : WebhookService S) (old : ℕ)
      → w.successful_health_checks ≡ 0
      → Waits S w.registry old
      → n + 1 ≡ c.health_check_success_threshold
      → let w' = checks S c (replicate n (resolved tt) ++ (resolved tt ∷ [])) w in
        ((checks S c (replicate n (resolved tt)) w).emitted ≡ w.emitted)
        × (w'.emitted ≡ w.emitted ++ ("webhook.healthy" ∷ []))
        × ((delay : ℕ) × Waits S w'.registry delay)
  unfolding checks emit count_response
  successes_healthy n w old zeroed waits h =
      let (successful, quiet, later) = successes_below n w old waits (omega arith) in
      let w' = checks S c (replicate n (resolved tt)) w in
      let joined = checks-append (replicate n (resolved tt)) (resolved tt ∷ []) w in
      let last = check-last_success w' (omega arith) in
      (
        quiet,
        rw joined (rw (last, checks) (ap (λ xs. xs ++ ("webhook.healthy" ∷ [])) quiet)),
        rw joined (rw (last, checks) later),
      )

  -- After the successes in a row that emit `webhook.healthy`, the next `webhook.unhealthy` is refused:
  -- its timeout has the name of the one before. The registry is as it was, so no check is scheduled.
  pub restart_after_healthy :
      (n : ℕ) (w : WebhookService S) (old : ℕ)
      → w.successful_health_checks ≡ 0
      → Waits S w.registry old
      → n + 1 ≡ c.health_check_success_threshold
      → let w' = checks S c (replicate n (resolved tt) ++ (resolved tt ∷ [])) w in
        (e : Throwable) × ((start_webhook_health_check S w').0 ≡ rejected e)
        × ((start_webhook_health_check S w').1.registry ≡ w'.registry)
  unfolding start_webhook_health_check
  restart_after_healthy n w old zeroed waits h =
      let (_, _, (delay, still)) = successes_healthy n w old zeroed waits h in
      let w' = checks S c (replicate n (resolved tt) ++ (resolved tt ∷ [])) w in
      let (e, p) =
        add_check_taken S L 0 delay
          (record w' { failed_health_checks = 0; successful_health_checks = 0 }) still in
      (e, rw p, rw p)

  -- While a check is registered and neither limit is reached by the next answer, a check is scheduled
  -- after a failure with the exponential delay, capped by the configured number of seconds, and after
  -- a success with a delay of as many milliseconds as the configuration names seconds.
  pub check_delay :
      (answer : Outcome (Unit {0})) (w : WebhookService S) (old : ℕ)
      → Waits S w.registry old
      → w.failed_health_checks + 1 < c.health_check_max_retries
      → w.successful_health_checks + 1 < c.health_check_success_threshold
      → Waits S (check_provider_webhook S c answer w).1.registry (elim answer [
        | resolved u ↦ c.webhook_retry_interval_seconds
        | rejected e ↦
            min
              (2 ^ w.failed_health_checks * 1000)
              (c.health_check_max_retry_interval_seconds * 1000)
      ])
  unfolding backoff
  check_delay (resolved tt) w old waits few few' = (check-success w old waits few').4
  check_delay (rejected e) w old waits few few' =
      let shift : w.failed_health_checks + 1 - 1 ≡ w.failed_health_checks = omega arith in
      rw shift at ((check-failure e w old waits few).4)
