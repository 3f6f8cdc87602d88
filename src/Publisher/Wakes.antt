-- ===== src/Publisher/Wakes.antt =====
-- `checkCapacity`: what pauses the queue, and what wakes it.
use mathlib.Core.List.{append-nil, append_assoc}
use account_service.Common.{
  ℕ, ◌≡◌, refl, sym, ap, ◌∙◌, inl, inr, String, Bool, true, false, if◌then◌else◌, Option, none,
  some, List, [], ◌∷◌, ◌++◌, map, string_eq, Option-cases, ==_refl,
}
use account_service.Js.{resolved}
use account_service.Redis.{Keyspace}
use account_service.Redis.WatchList.{WatchList}
use account_service.Scheduler.{Scheduler, IsScheduler}
use account_service.Publisher.{
  Publisher, World, pause, resume, retry, check_capacity, after_decision, available, exhausted,
  called, retry_all, epoch_timeout, capacity_epoch_timeout_name, delete_timeout_or_ignore,
  add_timeout_or_ignore, replace_timeout,
}
use account_service.Publisher.Decide.{CapacityInfo, decide, retried, FailedJob}
use account_service.Publisher.Capacity.{used_now, check_capacity-eq}

module _ (K : Keyspace) (H : WatchList) (S : Scheduler) (world : World) where
  abbrev pub Timer : S.State → Option ℕ → Type 0
  Timer r delay = S.timeout r capacity_epoch_timeout_name ≡ delay

  pub retry_all-calls :
      (ids : List String) (p : Publisher K H S)
      → ((retry_all K H S ids p).calls ≡ p.calls ++ map retry ids)
        × ((retry_all K H S ids p).registry ≡ p.registry)
  unfolding retry_all called
  retry_all-calls [] p = (sym (append-nil p.calls), refl)
  retry_all-calls (id ∷ ids) p =
      let (c, r) = retry_all-calls ids (called K H S (retry id) p) in
      (c ∙ append_assoc p.calls (retry id ∷ []) (map retry ids), r)

  module _ (L : IsScheduler S) where
    added :
        (r : S.State) (delay : ℕ)
        → Timer r none
        → Timer (add_timeout_or_ignore K H S delay r) (some delay)
    unfolding add_timeout_or_ignore
    added r delay idle =
        let (t, e, at) = L.add_fresh r capacity_epoch_timeout_name delay idle in
        rw (e, add_timeout_or_ignore)
          (at capacity_epoch_timeout_name ∙ rw (==_refl capacity_epoch_timeout_name))

    replaced : (r : S.State) (delay : ℕ) → Timer (replace_timeout K H S delay r) (some delay)
    unfolding replace_timeout
    replaced r delay = elim (Option-cases (S.timeout r capacity_epoch_timeout_name)) [
      | inl idle ↦
          rw (L.does_exist-timeout r capacity_epoch_timeout_name, idle, replace_timeout)
            (added r delay idle)
      | inr (old, waits) ↦
          let (t, e, at) = L.delete_present r capacity_epoch_timeout_name old waits in
          rw (L.does_exist-timeout r capacity_epoch_timeout_name, waits, replace_timeout)
            (rw (e, replace_timeout)
              (added t delay
                (at capacity_epoch_timeout_name ∙ rw (==_refl capacity_epoch_timeout_name))))
    ]

    deleted : (r : S.State) → Timer (delete_timeout_or_ignore K H S r) none
    unfolding delete_timeout_or_ignore
    deleted r = elim (Option-cases (S.timeout r capacity_epoch_timeout_name)) [
      | inl idle ↦
          let (t, e) = L.delete_absent r capacity_epoch_timeout_name idle in
          rw (e, delete_timeout_or_ignore) idle
      | inr (old, waits) ↦
          let (t, e, at) = L.delete_present r capacity_epoch_timeout_name old waits in
          rw (e, delete_timeout_or_ignore)
            (at capacity_epoch_timeout_name ∙ rw (==_refl capacity_epoch_timeout_name))
    ]

    -- When capacity is used up, the queue is paused, and if that succeeds exactly one timer waits for
    -- the next epoch: an older one is replaced.
    check_capacity_exhausted :
        (p : Publisher K H S) (info : CapacityInfo) (used : ℕ)
        → world.capacity_info ≡ resolved info
        → used_now K H S world p info ≡ some used
        → decide world.capacity_limit info used ≡ resolved true
        → world.paused ≡ resolved tt
        → let (available, q) = check_capacity K H S world p in
          (available ≡ false)
          × (q.calls ≡ p.calls ++ (pause ∷ []))
          × Timer q.registry (some (epoch_timeout K H S info))
    unfolding after_decision exhausted
    check_capacity_exhausted p info used e u d paused =
        rw (check_capacity-eq K H S world p info used e u) (
          rw (d, after_decision)
            (rw (paused, exhausted) (refl, refl, replaced p.registry (epoch_timeout K H S info))))

    -- When capacity is there and the failed jobs can be read, those that failed for want of capacity
    -- are retried in their order, the queue is resumed after that, and no timer is left.
    check_capacity-available :
        (p : Publisher K H S) (info : CapacityInfo) (used : ℕ) (jobs : List FailedJob)
        → world.capacity_info ≡ resolved info
        → used_now K H S world p info ≡ some used
        → decide world.capacity_limit info used ≡ resolved false
        → world.failed_jobs ≡ resolved jobs
        → let (available, q) = check_capacity K H S world p in
          (available ≡ true)
          × (q.calls ≡ p.calls ++ (map retry (retried jobs) ++ (resume ∷ [])))
          × Timer q.registry none
    unfolding after_decision available
    check_capacity-available p info used jobs e u d failed =
        let (c, r) = retry_all-calls (retried jobs) p in
        rw (check_capacity-eq K H S world p info used e u) (
          rw (d, after_decision)
            (rw (failed, available)
              (
                refl,
                ap (λ xs. xs ++ (resume ∷ [])) c
                    ∙ append_assoc p.calls (map retry (retried jobs)) (resume ∷ []),
                deleted (retry_all K H S (retried jobs) p).registry,
              )))

    -- What a decision for a known use does, where `pause` and `getFailed` are answered: without
    -- capacity the queue is paused and exactly one timer waits for the next epoch, an older one being
    -- replaced; with capacity the jobs that failed for want of it are retried in their order, the queue
    -- is resumed after that, and no timer is left.
    pub check_capacity-decided :
        (p : Publisher K H S) (info : CapacityInfo) (used : ℕ) (jobs : List FailedJob)
        (out_of_capacity : Bool)
        → world.capacity_info ≡ resolved info
        → used_now K H S world p info ≡ some used
        → decide world.capacity_limit info used ≡ resolved out_of_capacity
        → world.paused ≡ resolved tt
        → world.failed_jobs ≡ resolved jobs
        → let (available, q) = check_capacity K H S world p in
          (available ≡ (if out_of_capacity then false else true))
          × (q.calls
              ≡ p.calls
                ++ (if out_of_capacity
                    then pause ∷ []
                    else map retry (retried jobs) ++ (resume ∷ [])))
          × Timer q.registry (if out_of_capacity then some (epoch_timeout K H S info) else none)
    check_capacity-decided p info used jobs true e u d paused failed =
        check_capacity_exhausted p info used e u d paused
    check_capacity-decided p info used jobs false e u d paused failed =
        check_capacity-available p info used jobs e u d failed
