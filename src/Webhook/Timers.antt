-- ===== src/Webhook/Timers.antt =====
-- The timeout under which the next health check waits.
use account_service.Common.{ℕ, ◌≡◌, ◌∙◌, none, some, string_eq, ==_refl}
use account_service.Js.{resolved, rejected, Throwable}
use account_service.Scheduler.{Scheduler, IsScheduler}
use account_service.Webhook.{WebhookService, health_check_timeout_name, add_check, reschedule}

module _ (S : Scheduler) where
  -- A check is registered under the timeout's name, with this delay.
  abbrev pub Waits : S.State → ℕ → Type 0
  Waits r delay = S.timeout r health_check_timeout_name ≡ some delay

  abbrev pub Idle : S.State → Type 0
  Idle r = S.timeout r health_check_timeout_name ≡ none

  module _ (L : IsScheduler S) where
    pub add_check_lem :
        (delay : ℕ) (w : WebhookService S)
        → Idle w.registry
        → (r : S.State) × (add_check S delay w ≡ (resolved tt, record w { registry = r }))
          × Waits r delay
    unfolding add_check
    add_check_lem delay w idle =
        let (r, e, at) = L.add_fresh w.registry health_check_timeout_name delay idle in
        (
          r,
          rw (e, add_check),
          at health_check_timeout_name ∙ rw (==_refl health_check_timeout_name),
        )

    pub reschedule_lem :
        (delay old : ℕ) (w : WebhookService S)
        → Waits w.registry old
        → (r : S.State) × (reschedule S delay w ≡ (resolved tt, record w { registry = r }))
          × Waits r delay
    unfolding reschedule
    reschedule_lem delay old w waits =
        let (r, e, at) = L.delete_present w.registry health_check_timeout_name old waits in
        let idle : Idle r = at health_check_timeout_name ∙ rw (==_refl health_check_timeout_name) in
        let (r', e', waits') = add_check_lem delay (record w { registry = r }) idle in
        (r', rw (e, reschedule) e', waits')

    -- A second `webhook.unhealthy` is refused while the name of the first is registered.
    pub add_check_taken :
        (delay old : ℕ) (w : WebhookService S)
        → Waits w.registry old
        → (e : Throwable) × (add_check S delay w ≡ (rejected e, w))
    unfolding add_check
    add_check_taken delay old w waits =
        let (e, p) = L.add_taken w.registry health_check_timeout_name delay old waits in
        (e, rw (p, add_check))
