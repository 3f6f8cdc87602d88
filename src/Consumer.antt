-- ===== src/Consumer.antt =====
-- apps/worker/src/BaseConsumer.ts, and its copy libs/common/src/utils/base-consumer.ts: the jobs that
-- run, and the wait for them when the worker stops.
pub mod Shutdown
pub mod Tracking
mod Tests
use account_service.Common.{
  ℕ, zero, suc, ◌+◌, ◌-◌, String, ◌&&◌, not, Option, none, some, List, [], ◌∷◌, ◌==◌, string_eq,
  any, keep, length, ltb, if◌then◌else◌,
}

-- libs/common/src/utils/processing.ts
abbrev pub max_wait_for_grace_full_shutdown_ms : ℕ
max_wait_for_grace_full_shutdown_ms = 6000

abbrev pub delay_to_check_for_shutdown_ms : ℕ
delay_to_check_for_shutdown_ms = 300

-- The events of the queue's worker, with the id of their job.
pub data JobEvent : Type 0 where
  active completed failed : String → JobEvent

-- `actives` is a set: a list without repeated ids.
pub track_job : String → List String → List String
track_job id actives = if any (λ j. j == id) actives then actives else id ∷ actives

pub un_track_job : String → List String → List String
un_track_job id actives = keep (λ j. not (j == id)) actives

-- `onActive`, `onCompleted` and `onFailed`
pub on_event : JobEvent → List String → List String
unfolding track_job un_track_job
on_event (active id) actives = track_job id actives
on_event (completed id) actives = un_track_job id actives
on_event (failed id) actives = un_track_job id actives

pub on_events : List JobEvent → List String → List String
unfolding on_event
on_events [] actives = actives
on_events (e ∷ es) actives = on_events es (on_event e actives)

-- The loop, on fuel; `none` means that the fuel ran out. The result are the delays that were waited,
-- and the jobs that still run. `events round` is what comes during a delay.
pub wait_loop : ℕ → ℕ → ℕ → (ℕ → List JobEvent) → List String → Option (ℕ × List String)
unfolding on_events
wait_loop zero max_wait_ms round events actives = none
wait_loop (suc fuel) max_wait_ms round events actives =
    let rest =
      wait_loop fuel (max_wait_ms - delay_to_check_for_shutdown_ms) (round + 1) events
        (on_events (events round) actives) in
    if ltb 0 (length actives) && ltb 0 max_wait_ms then rest else some (round, actives)

-- `onModuleDestroy`: `worker.close(false)` waits for the jobs without a bound. `some es` are the events
-- that come until it has closed; `none`, that it does not close, or is rejected, and then the loop is
-- not reached.
pub on_module_destroy :
    ℕ → Option (List JobEvent) → (ℕ → List JobEvent) → List String → Option (ℕ × List String)
unfolding wait_loop on_events
on_module_destroy fuel closing events actives = elim closing [
  | none ↦ none
  | some es ↦ wait_loop fuel max_wait_for_grace_full_shutdown_ms 0 events (on_events es actives)
]
