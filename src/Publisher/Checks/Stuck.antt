-- ===== src/Publisher/Checks/Stuck.antt =====
-- Calls of `checkCapacity`: a queue that stays paused for good.
use account_service.Common.{
  ◌≡◌, refl, sym, ap, ◌∙◌, subst, Bool, true, false, Option, none, List, [], ◌∷◌, ◌++◌, arith,
}
use account_service.Js.{Throwable, rejected}
use account_service.Scheduler.{Scheduler, IsScheduler}
use account_service.Publisher.Decide.{CapacityLimit}
use account_service.Publisher.Checks.{
  Phase, reading, after_info, delete_timer_or_ignore, Shared, Move, info_answered, used_answered,
  queue_paused, pause_answered, pause_refused, jobs_answered, retries_answered, queue_resumed,
  resume_answered, resume_refused, Checks, Step, job, timer, orphan, move, Reaches, here, next,
  started,
}
use account_service.Publisher.Checks.Paused.{replace_timer-live}

nil≢split :
    {C : Type 0} (before after : List Phase) (phase : Phase)
    → ◌≡◌ {A = List Phase} [] (before ++ (phase ∷ after))
    → C
nil≢split [] after phase e = cc
nil≢split (x ∷ before) after phase e = cc

module _ (S : Scheduler) (limit : CapacityLimit) where
  -- The queue is paused, and nothing is left that could resume it.
  pub record IsStuck (c : Checks S limit) : Type 0 where
    pub held : c.queue.paused ≡ true
    pub no_timer : c.queue.timers.live ≡ false
    pub no_orphan : c.queue.timers.orphans ≡ 0
    pub no_call : c.running ≡ []

  -- From a state at rest, with the queue paused and the timer still to fire: `capacityInfo` is rejected
  -- once, for the call of the timer.
  pub info_rejected : Checks S limit → Checks S limit
  info_rejected c = record {
    queue = record c.queue { timers = record c.queue.timers { live = false } };
    running = [];
  }

  IsStuck-Step : {C : Type 0} {c d : Checks S limit} → IsStuck c → Step S limit c d → C
  IsStuck-Step s (job free) = cc s.held
  IsStuck-Step s (timer waits) = cc s.no_timer
  IsStuck-Step s (orphan n waits) = cc s.no_orphan
  IsStuck-Step s (move before after phase then q at m) =
      nil≢split before after phase (sym s.no_call ∙ at)

  IsStuck-Reaches : {c d : Checks S limit} → IsStuck c → Reaches S limit c d → d ≡ c
  IsStuck-Reaches s here = refl
  IsStuck-Reaches s (next run step) =
      IsStuck-Step (subst IsStuck (sym (IsStuck-Reaches s run)) s) step

  module _ (C : IsScheduler S) where
    Move-orphans :
        {q q' : Shared S} {phase : Phase} {then : Option Phase}
        → Move S limit q phase q' then
        → q'.timers.orphans ≡ q.timers.orphans
    unfolding delete_timer_or_ignore
    Move-orphans (info_answered reply) = refl
    Move-orphans (used_answered info reply) = refl
    Move-orphans (queue_paused info) = refl
    Move-orphans (pause_answered info) = (replace_timer-live S limit C _ _).1
    Move-orphans (pause_refused done info e) = refl
    Move-orphans (jobs_answered reply) = refl
    Move-orphans retries_answered = ground arith
    Move-orphans queue_resumed = refl
    Move-orphans resume_answered = refl
    Move-orphans (resume_refused done e) = refl

    Reaches-orphans :
        {c d : Checks S limit}
        → Reaches S limit c d
        → c.queue.timers.orphans ≡ 0
        → d.queue.timers.orphans ≡ 0
    Reaches-orphans here e = e
    Reaches-orphans (next run (job free)) e = Reaches-orphans run e
    Reaches-orphans (next run (timer waits)) e = Reaches-orphans run e
    Reaches-orphans (next run (orphan n waits)) e = ground (arith, Reaches-orphans run e)
    Reaches-orphans (next run (move before after phase then q at m)) e =
        Move-orphans m ∙ Reaches-orphans run e

    -- One error loses the queue: where all calls are done, the queue is paused and its timer is still to
    -- fire, the process can come to a state in which the timer has fired and its call was rejected, and
    -- from which no step leads on: the queue stays paused.
    pub info_rejected-IsStuck :
        (paused : Bool) (registry : S.State) (e : Throwable) {c : Checks S limit}
        → (run : Reaches S limit (started S limit paused registry) c) → c.running ≡ []
        → c.queue.paused ≡ true
        → c.queue.timers.live ≡ true
        → Reaches S limit c (info_rejected c)
          × ((d : Checks S limit) → Reaches S limit (info_rejected c) d → IsStuck d)
    unfolding info_rejected after_info started
    info_rejected-IsStuck paused registry e {c} run done held waits =
        let stuck : IsStuck (info_rejected c) = record {
          held = held;
          no_timer = refl;
          no_orphan = Reaches-orphans run refl;
          no_call = refl;
        } in
        (
          next (next here (timer waits))
              (move [] [] reading none _ (ap (◌∷◌ reading) done) (info_answered (rejected e))),
          λ d more. subst IsStuck (sym (IsStuck-Reaches stuck more)) stuck,
        )
