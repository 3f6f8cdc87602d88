-- ===== src/Publisher/Capacity.antt =====
-- `checkCapacity`: when capacity is reported.
use account_service.Common.{
  ℕ, ◌*◌, ◌/◌, ◌<◌, ◌≡◌, refl, ◌∙◌, ◌↔◌, ◌⊎◌, inl, inr, true, false, Option, some, string_eq, arith,
}
use account_service.Js.{Throwable, resolved, rejected, error}
use account_service.Redis.{Keyspace}
use account_service.Redis.WatchList.{WatchList}
use account_service.Scheduler.{Scheduler}
use account_service.Notifier.{epoch_capacity_key, number_or_zero}
use account_service.Publisher.{Publisher, World, check_capacity, with_info, after_decision}
use account_service.Publisher.Decide.{CapacityInfo, CapacityLimit, percentage, amount, decide}

-- The capacity, a whole number, that the service may use in an epoch.
abbrev pub allowed : CapacityLimit → CapacityInfo → ℕ
allowed limit info = elim limit.type [
  | amount ↦ limit.value.whole
  | percentage ↦ info.total_capacity_issued * limit.value.whole / 100
]

decide_whole :
    (limit : CapacityLimit) (info : CapacityInfo) (used : ℕ)
    → limit.value.has_fraction ≡ false
    → (decide limit info used ≡ resolved true) ⊎ (decide limit info used ≡ resolved false)
unfolding decide
decide_whole limit info used e = ground arith

decide-false_iff :
    (limit : CapacityLimit) (info : CapacityInfo) (used : ℕ)
    → limit.value.has_fraction ≡ false
    → (decide limit info used ≡ resolved false)
      ↔ ((0 < info.remaining_capacity) × (used < allowed limit info))
unfolding decide
decide-false_iff limit info used e = ground arith

decide_fraction :
    (limit : CapacityLimit) (info : CapacityInfo) (used : ℕ)
    → limit.type ≡ percentage
    → limit.value.has_fraction ≡ true
    → 0 < info.remaining_capacity
    → (t : Throwable) × (decide limit info used ≡ rejected t)
unfolding decide
decide_fraction limit info used e f pos =
    (error "The number cannot be converted to a BigInt because it is not an integer", ground arith)

decide_spent :
    (limit : CapacityLimit) (info : CapacityInfo) (used : ℕ)
    → info.remaining_capacity ≡ 0
    → decide limit info used ≡ resolved true
unfolding decide
decide_spent limit info used e = ground arith

module _ (K : Keyspace) (H : WatchList) (S : Scheduler) (world : World) where
  -- The capacity of the epoch that the notifier has recorded.
  abbrev pub used_now : Publisher K H S → CapacityInfo → Option ℕ
  used_now p info = number_or_zero (K.get p.cache (epoch_capacity_key info.current_epoch))

  pub check_capacity-eq :
      (p : Publisher K H S) (info : CapacityInfo) (used : ℕ)
      → world.capacity_info ≡ resolved info
      → used_now p info ≡ some used
      → check_capacity K H S world p
        ≡ after_decision K H S world info (decide world.capacity_limit info used) p
  unfolding check_capacity with_info
  check_capacity-eq p info used e u = rw (e, check_capacity) (rw (u, with_info))

  -- For a limit that is a whole number: capacity is reported if, and only if, some remains on the
  -- chain and the service has used less of it in this epoch than the limit, or than the limit's
  -- percentage of what is issued, rounded down.
  pub check_capacity_iff :
      (p : Publisher K H S) (info : CapacityInfo) (used : ℕ)
      → world.capacity_info ≡ resolved info
      → used_now p info ≡ some used
      → world.capacity_limit.value.has_fraction ≡ false
      → ((check_capacity K H S world p).0 ≡ true)
        ↔ ((0 < info.remaining_capacity) × (used < allowed world.capacity_limit info))
  unfolding after_decision
  check_capacity_iff p info used e u whole =
      let limit = world.capacity_limit in
      let eq = check_capacity-eq p info used e u in
      let iff = decide-false_iff limit info used whole in
      elim (decide_whole limit info used whole) [
        | inl d ↦ rw eq (rw (d, after_decision) (λ x. cc, λ both. cc (iff.1 both, d)))
        | inr d ↦ rw eq (rw (d, after_decision) (λ x. iff.0 d, λ both. refl))
      ]

  -- Without capacity on the chain none is reported, whatever the limit says.
  pub check_capacity-spent :
      (p : Publisher K H S) (info : CapacityInfo) (used : ℕ)
      → world.capacity_info ≡ resolved info
      → used_now p info ≡ some used
      → info.remaining_capacity ≡ 0
      → (check_capacity K H S world p).0 ≡ false
  unfolding after_decision
  check_capacity-spent p info used e u spent =
      rw (check_capacity-eq p info used e u)
        (rw (decide_spent world.capacity_limit info used spent, after_decision) refl)

  -- For a percentage that is not whole the limit is not kept: while capacity remains on the chain, it
  -- is reported however much was used, and the queue and the timers are left alone.
  pub check_capacity_fraction :
      (p : Publisher K H S) (info : CapacityInfo) (used : ℕ)
      → world.capacity_info ≡ resolved info
      → used_now p info ≡ some used
      → world.capacity_limit.type ≡ percentage
      → world.capacity_limit.value.has_fraction ≡ true
      → 0 < info.remaining_capacity
      → check_capacity K H S world p ≡ (true, p)
  unfolding after_decision
  check_capacity_fraction p info used e u kind fraction pos =
      let (t, d) = decide_fraction world.capacity_limit info used kind fraction pos in
      check_capacity-eq p info used e u ∙ rw (d, after_decision)
