-- ===== src/Publisher/Checks/Tests.antt =====
-- The theorems on overlapping calls of `checkCapacity`, with two calls that find no capacity.
use account_service.Common.{◌≡◌, refl, true, false, none, some, [], ◌∷◌, string_eq}
use account_service.Js.{resolved, error}
use account_service.Redis.Memory
use account_service.Redis.WatchList
use account_service.Scheduler.Memory as Registry
use account_service.Publisher.Decide.{CapacityLimit, CapacityInfo, amount, decide}
use account_service.Publisher.Tests.{info, world, fresh}
use account_service.Publisher.{check_capacity}
use account_service.Publisher.Checks.{
  reading, fetching, pausing, after_info, after_used, info_answered, used_answered, queue_paused,
  pause_answered, asked, replace_timer, Shared, Checks, job, move, Reaches, here, next, started,
}
use account_service.Publisher.Checks.Paused.{AllSucceed, paused-live}
use account_service.Publisher.Checks.Stuck.{IsStuck, info_rejected, info_rejected-IsStuck}
use account_service.Publisher.Checks.Answered.{Run, answer}
use account_service.Publisher.Checks.Alone.{check_capacity-Run}

abbrev limit : CapacityLimit
limit = record { type = amount; value = record { whole = 10; has_fraction = false } }

abbrev spent : CapacityInfo
spent = record info { remaining_capacity = 0 }

abbrev begun : Checks Registry.memory limit
begun = started Registry.memory limit false Registry.empty

-- A job begins while the call of the start awaits its answer; both find the capacity spent.
abbrev both_exhausted : (d : Checks Registry.memory limit) × Reaches Registry.memory limit begun d
unfolding started after_info after_used asked decide
both_exhausted = (
  _,
  next
      (next
        (next
          (next
            (next
              (next
                (next
                  (next (next here (job refl))
                    (move [] (reading ∷ []) reading _ _ refl (info_answered (resolved spent))))
                  (move [] (reading ∷ []) (fetching spent) _ _ refl
                    (used_answered spent (resolved none))))
                (move (pausing false spent ∷ []) [] reading _ _ refl
                  (info_answered (resolved spent))))
              (move (pausing false spent ∷ []) [] (fetching spent) _ _ refl
                (used_answered spent (resolved none))))
            (move [] (pausing false spent ∷ []) (pausing false spent) _ _ refl
              (queue_paused spent)))
          (move (pausing true spent ∷ []) [] (pausing false spent) _ _ refl (queue_paused spent)))
        (move [] (pausing true spent ∷ []) (pausing true spent) _ _ refl (pause_answered spent)))
      (move [] [] (pausing true spent) _ _ refl (pause_answered spent)),
)

both_exhausted-AllSucceed : AllSucceed Registry.memory limit both_exhausted.1
unfolding started after_info after_used asked decide
both_exhausted-AllSucceed = (
  (
    (
      (
        (
          ((((tt, tt), (spent, refl)), (pausing false spent, refl)), (spent, refl)),
          (pausing false spent, refl),
        ),
        tt,
      ),
      tt,
    ),
    tt,
  ),
  tt,
)

paused-live_example : both_exhausted.0.queue.timers.live ≡ true
unfolding started after_info after_used asked decide
paused-live_example =
    paused-live Registry.memory limit Registry.memory-IsScheduler false Registry.empty
      both_exhausted.1 both_exhausted-AllSucceed refl refl

info_rejected-IsStuck_example :
    Reaches Registry.memory limit both_exhausted.0
      (info_rejected Registry.memory limit both_exhausted.0)
    × ((d : Checks Registry.memory limit)
        → Reaches Registry.memory limit (info_rejected Registry.memory limit both_exhausted.0) d
        → IsStuck Registry.memory limit d)
unfolding started after_info after_used asked decide replace_timer string_eq
info_rejected-IsStuck_example =
    info_rejected-IsStuck Registry.memory limit Registry.memory-IsScheduler false Registry.empty
      (error "disconnected") both_exhausted.1 refl refl refl

-- The queue is paused, and an older timer waits.
abbrev held : Shared Registry.memory
held = record {
  paused = true;
  timers = record { registry = Registry.empty; live = true; orphans = 0 };
  calls = [];
}

check_capacity-Run_example :
    ((u : Shared Registry.memory) × Run Memory.memory WatchList.memory Registry.memory world
        Memory.empty held
        (some reading)
        u)
    × ((u : Shared Registry.memory)
          (run : Run Memory.memory WatchList.memory Registry.memory world Memory.empty held
            (some reading)
            u)
        → let (available, after) =
            check_capacity Memory.memory WatchList.memory Registry.memory world fresh in
          (answer Memory.memory WatchList.memory Registry.memory world Memory.empty run ≡ available)
          × (u.timers.registry ≡ after.registry)
          × (u.calls ≡ after.calls))
check_capacity-Run_example =
    check_capacity-Run Memory.memory WatchList.memory Registry.memory world fresh held refl refl
