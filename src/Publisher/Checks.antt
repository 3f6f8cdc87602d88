-- ===== src/Publisher/Checks.antt =====
-- Calls of `checkCapacity` that overlap: a job, the timer of the next epoch and the start of the
-- service each make one, and every `await` of a call lets the others go on.
pub mod Paused
pub mod Stuck
pub mod Answered
pub mod Alone
pub mod Tests
use account_service.Common.{
  ℕ, suc, ◌-◌, ◌*◌, ◌≡◌, String, Bool, true, false, Option, none, some, List, [], ◌∷◌, ◌++◌, map,
  if◌then◌else◌,
}
use account_service.Js.{Throwable, Outcome, resolved, rejected}
use account_service.Scheduler.{Scheduler}
use account_service.Notifier.{number_or_zero, seconds_per_block, milliseconds_per_second}
use account_service.Publisher.{QueueCall, pause, resume, retry, capacity_epoch_timeout_name}
use account_service.Publisher.Decide.{CapacityInfo, CapacityLimit, FailedJob, decide, retried}

-- The `await` at which a call stands.
pub data Phase : Type 0 where
  -- `capacityInfo(providerId)`
  reading : Phase
  -- `cacheManager.get(epochCapacityKey)`
  fetching : CapacityInfo → Phase
  -- `pause()`, and whether Redis has paused the queue already
  pausing : Bool → CapacityInfo → Phase
  -- `getFailed()`
  listing : Phase
  -- `Promise.all` over the retries
  retrying : Phase
  -- `resume()`, and whether Redis has resumed the queue already
  resuming : Bool → Phase

-- What follows the answer of `capacityInfo`; `none` means that the call ends.
pub after_info : Outcome CapacityInfo → Option Phase
after_info (rejected e) = none
after_info (resolved info) = some (fetching info)

pub after_decided : CapacityInfo → Outcome Bool → Option Phase
after_decided info (rejected e) = none
after_decided info (resolved true) = some (pausing false info)
after_decided info (resolved false) = some listing

pub after_number : CapacityLimit → CapacityInfo → Option ℕ → Option Phase
unfolding after_decided
after_number limit info none = none
after_number limit info (some used) = after_decided info (decide limit info used)

pub after_used : CapacityLimit → CapacityInfo → Outcome (Option String) → Option Phase
unfolding after_number
after_used limit info (rejected e) = none
after_used limit info (resolved text) = after_number limit info (number_or_zero text)

-- The method of the queue that a call begins to await with the phase.
pub asked : Option Phase → List QueueCall
asked none = []
asked (some reading) = []
asked (some (fetching info)) = []
asked (some (pausing b info)) = pause ∷ []
asked (some listing) = []
asked (some retrying) = []
asked (some (resuming b)) = resume ∷ []

pub jobs_retried : Outcome (List FailedJob) → List QueueCall
jobs_retried (rejected e) = []
jobs_retried (resolved jobs) = map retry (retried jobs)

pub after_jobs : Outcome (List FailedJob) → Option Phase
after_jobs (rejected e) = none
after_jobs (resolved jobs) = some retrying

-- `blocksRemaining * SECONDS_PER_BLOCK * MILLISECONDS_PER_SECOND`
pub epoch_delay : CapacityInfo → ℕ
epoch_delay info =
    (info.next_epoch_start - info.current_block_number)
    * seconds_per_block
    * milliseconds_per_second

module _ (S : Scheduler) where
  -- The registry, and the timers of the process.
  pub record Timers : Type 0 where
    pub registry : S.State
    -- the timer that is registered has still to fire
    pub live : Bool
    -- timers that have still to fire, and that the registry refused
    pub orphans : ℕ

  -- `deleteTimeout` clears the timer.
  pub delete_timer : Timers → Outcome Timers
  delete_timer t = elim (S.delete_timeout t.registry capacity_epoch_timeout_name) [
    | rejected e ↦ rejected e
    | resolved r ↦ resolved (record t { registry = r; live = false })
  ]

  pub delete_timer_or_ignore : Timers → Timers
  unfolding delete_timer
  delete_timer_or_ignore t = elim (delete_timer t) [ rejected e ↦ t | resolved t' ↦ t' ]

  -- `setTimeout` comes before `addTimeout`, its argument.
  pub add_timer : ℕ → Timers → Timers
  add_timer delay t = elim (S.add_timeout t.registry capacity_epoch_timeout_name delay) [
    | rejected e ↦ record t { orphans = suc t.orphans }
    | resolved r ↦ record t { registry = r; live = true }
  ]

  pub replace_timer : ℕ → Timers → Timers
  unfolding delete_timer add_timer
  replace_timer delay t =
      if S.does_exist t.registry capacity_epoch_timeout_name
      then (elim (delete_timer t) [ rejected e ↦ t | resolved t' ↦ add_timer delay t' ])
      else add_timer delay t

  -- What the calls share: whether Redis holds the queue paused, the timers, and the calls on the
  -- queue so far.
  pub record Shared : Type 0 where
    pub paused : Bool
    pub timers : Timers
    pub calls : List QueueCall

  abbrev pub ask : List QueueCall → Shared → Shared
  ask calls q = record q { calls = q.calls ++ calls }

  module _ (limit : CapacityLimit) where
    -- One call goes from one `await` to the next, or ends.
    pub data Move (q : Shared) : Phase → Shared → Option Phase → Type 0 where
      info_answered : (reply : Outcome CapacityInfo) → Move q reading q (after_info reply)
      used_answered :
          (info : CapacityInfo) (reply : Outcome (Option String))
          → Move q
              (fetching info)
              (ask (asked (after_used limit info reply)) q)
              (after_used limit info reply)
      queue_paused :
          (info : CapacityInfo)
          → Move q (pausing false info) (record q { paused = true }) (some (pausing true info))
      pause_answered :
          (info : CapacityInfo)
          → Move q
              (pausing true info)
              (record q { timers = replace_timer (epoch_delay info) q.timers })
              none
      pause_refused :
          (done : Bool) (info : CapacityInfo) (e : Throwable) → Move q (pausing done info) q none
      jobs_answered :
          (reply : Outcome (List FailedJob))
          → Move q listing (ask (jobs_retried reply) q) (after_jobs reply)
      retries_answered :
          Move q retrying
            (ask (resume ∷ []) (record q { timers = delete_timer_or_ignore q.timers }))
            (some (resuming false))
      queue_resumed : Move q (resuming false) (record q { paused = false }) (some (resuming true))
      resume_answered : Move q (resuming true) q none
      resume_refused : (done : Bool) (e : Throwable) → Move q (resuming done) q none

    pub record Checks : Type 0 where
      pub queue : Shared
      pub running : List Phase

    abbrev pub then_rest : Option Phase → List Phase → List Phase
    then_rest none rest = rest
    then_rest (some phase) rest = phase ∷ rest

    pub data Step (c : Checks) : Checks → Type 0 where
      -- a job begins: bullmq takes none while the queue is paused
      job : c.queue.paused ≡ false → Step c (record c { running = reading ∷ c.running })
      -- the registered timer fires; it stays registered
      timer :
          c.queue.timers.live ≡ true
          → Step c (record {
            queue = record c.queue { timers = record c.queue.timers { live = false } };
            running = reading ∷ c.running;
          })
      orphan :
          (n : ℕ)
          → c.queue.timers.orphans ≡ suc n
          → Step c (record {
            queue = record c.queue { timers = record c.queue.timers { orphans = n } };
            running = reading ∷ c.running;
          })
      move :
          (before after : List Phase) (phase : Phase) (next : Option Phase) (q : Shared)
          → c.running ≡ before ++ (phase ∷ after)
          → Move c.queue phase q next
          → Step c (record { queue = q; running = before ++ then_rest next after })

    pub data Reaches (c : Checks) : Checks → Type 0 where
      here : Reaches c c
      next : {d e : Checks} → Reaches c d → Step d e → Reaches c e

    -- A process that has just started: `onApplicationBootstrap` calls `checkCapacity`; Redis may hold
    -- the queue paused from an earlier process.
    pub started : Bool → S.State → Checks
    started paused registry = record {
      queue = record {
        paused = paused;
        timers = record { registry = registry; live = false; orphans = 0 };
        calls = [];
      };
      running = reading ∷ [];
    }
