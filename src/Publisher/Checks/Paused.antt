-- ===== src/Publisher/Checks/Paused.antt =====
-- Calls of `checkCapacity` that overlap: whether a queue that they paused is ever resumed.
use account_service.Common.{
  ℕ, ◌≡◌, refl, ap, ◌∙◌, ◌⊎◌, inl, inr, Bool, true, false, ◌||◌, Option, none, some, List, [], ◌∷◌,
  ◌++◌, String, any, arith, Option-cases, Bool-cases, ==_refl,
}
use account_service.Js.{Outcome, resolved}
use account_service.Scheduler.{Scheduler, IsScheduler}
use account_service.Publisher.{capacity_epoch_timeout_name}
use account_service.Publisher.Decide.{CapacityInfo, CapacityLimit, FailedJob}
use account_service.Publisher.Checks.{
  Phase, reading, fetching, pausing, listing, retrying, resuming, after_info, after_used, Timers,
  add_timer, replace_timer, Shared, Move, info_answered, used_answered, queue_paused,
  pause_answered, pause_refused, jobs_answered, retries_answered, queue_resumed, resume_answered,
  resume_refused, after_jobs, Checks, then_rest, Step, job, timer, orphan, move, Reaches, here,
  next, started,
}

-- A call at this `await` will still register a timer or resume the queue, unless it fails.
covers : Phase → Bool
covers reading = true
covers (fetching info) = true
covers (pausing done info) = true
covers listing = true
covers retrying = true
covers (resuming true) = false
covers (resuming false) = true

next_covers : Option Phase → Bool
unfolding covers
next_covers none = false
next_covers (some phase) = covers phase

any-append :
    (test : Phase → Bool) (xs ys : List Phase) → any test (xs ++ ys) ≡ (any test xs || any test ys)
any-append test [] ys = refl
any-append test (x ∷ xs) ys = ground (arith, any-append test xs ys)

after_used-covers :
    (limit : CapacityLimit) (info : CapacityInfo) (reply : Outcome (Option String)) (phase : Phase)
    → after_used limit info reply ≡ some phase
    → covers phase ≡ true
unfolding covers after_used
after_used-covers limit info reply phase e = ground arith

after_jobs-covers :
    (reply : Outcome (List FailedJob)) (phase : Phase)
    → after_jobs reply ≡ some phase
    → covers phase ≡ true
unfolding covers after_jobs
after_jobs-covers reply phase e = ground arith

module _ (S : Scheduler) (limit : CapacityLimit) where
  -- The answer that the call got is not an error, and the call goes on with it.
  abbrev pub Succeeds :
      {q q' : Shared S} {phase : Phase} {next : Option Phase}
      → Move S limit q phase q' next
      → Type 0
  Succeeds (info_answered reply) = (info : CapacityInfo) × (reply ≡ resolved info)
  Succeeds (used_answered info reply) = (phase : Phase) × (after_used limit info reply ≡ some phase)
  Succeeds (queue_paused info) = Unit
  Succeeds (pause_answered info) = Unit
  Succeeds (pause_refused done info e) = ⊥
  Succeeds (jobs_answered reply) = (phase : Phase) × (after_jobs reply ≡ some phase)
  Succeeds retries_answered = Unit
  Succeeds queue_resumed = Unit
  Succeeds resume_answered = Unit
  Succeeds (resume_refused done e) = ⊥

  abbrev pub StepSucceeds : {c d : Checks S limit} → Step S limit c d → Type 0
  StepSucceeds (job free) = Unit
  StepSucceeds (timer waits) = Unit
  StepSucceeds (orphan n waits) = Unit
  StepSucceeds (move before after phase then q at m) = Succeeds m

  abbrev pub AllSucceed : {c d : Checks S limit} → Reaches S limit c d → Type 0
  AllSucceed here = Unit
  AllSucceed (next run step) = AllSucceed run × StepSucceeds step

  -- If the queue is paused, a timer waits, or a call will see to it.
  abbrev Guarded : Shared S → Bool → Type 0
  Guarded q covered = (q.paused ≡ false) ⊎ ((q.timers.live ≡ true) ⊎ (covered ≡ true))

  rest-covered :
      (before after : List Phase) (then : Option Phase)
      → any covers (before ++ then_rest S limit then after)
        ≡ (any covers before || (next_covers then || any covers after))
  unfolding next_covers
  rest-covered before after none = ground (arith, any-append covers before after)
  rest-covered before after (some phase) = any-append covers before (phase ∷ after)

  module _ (C : IsScheduler S) where
    add_timer-live :
        (delay : ℕ) (t : Timers S)
        → S.timeout t.registry capacity_epoch_timeout_name ≡ none
        → ((add_timer S delay t).live ≡ true) × ((add_timer S delay t).orphans ≡ t.orphans)
    unfolding add_timer
    add_timer-live delay t idle =
        let (r, e, at) = C.add_fresh t.registry capacity_epoch_timeout_name delay idle in
        rw (e, add_timer) (refl, refl)

    -- The registry takes the new timer, whatever it held.
    pub replace_timer-live :
        (delay : ℕ) (t : Timers S)
        → ((replace_timer S delay t).live ≡ true) × ((replace_timer S delay t).orphans ≡ t.orphans)
    unfolding replace_timer
    replace_timer-live delay t =
        elim (Option-cases (S.timeout t.registry capacity_epoch_timeout_name)) [
          | inl idle ↦
              rw (C.does_exist-timeout t.registry capacity_epoch_timeout_name, idle, replace_timer)
                (add_timer-live delay t idle)
          | inr (old, waits) ↦
              let (r, e, at) = C.delete_present t.registry capacity_epoch_timeout_name old waits in
              rw (C.does_exist-timeout t.registry capacity_epoch_timeout_name, waits, replace_timer)
                (rw (e, replace_timer)
                  (add_timer-live delay (record t { registry = r; live = false })
                    (at capacity_epoch_timeout_name ∙ rw (==_refl capacity_epoch_timeout_name))))
        ]

    Move-Guarded :
        {q q' : Shared S} {phase : Phase} {next : Option Phase} (m : Move S limit q phase q' next)
        → Succeeds m
        → Guarded q (covers phase)
        → Guarded q' (next_covers next)
    unfolding next_covers after_info
    Move-Guarded (info_answered reply) (info, e) g = inr (inr (rw (e, after_info) refl))
    Move-Guarded (used_answered info reply) (phase, e) g =
        inr (inr (rw e (after_used-covers limit info reply phase e)))
    Move-Guarded (pause_refused done info e) ok g = elim ok [ ]
    Move-Guarded (queue_paused info) ok g = inr (inr refl)
    Move-Guarded (pause_answered info) ok g = inr (inl (replace_timer-live _ _).0)
    Move-Guarded (jobs_answered reply) (phase, e) g =
        inr (inr (rw e (after_jobs-covers reply phase e)))
    Move-Guarded retries_answered ok g = inr (inr refl)
    Move-Guarded queue_resumed ok g = inl refl
    Move-Guarded resume_answered ok g = ground arith
    Move-Guarded (resume_refused done e) ok g = elim ok [ ]

    Step-Guarded :
        {c d : Checks S limit} (s : Step S limit c d)
        → StepSucceeds s
        → Guarded c.queue (any covers c.running)
        → Guarded d.queue (any covers d.running)
    unfolding covers
    Step-Guarded (job free) ok g = inl free
    Step-Guarded (timer waits) ok g = inr (inr refl)
    Step-Guarded (orphan n waits) ok g = inr (inr refl)
    Step-Guarded {c} (move before after phase then q at m) ok g =
        elim (Bool-cases (any covers before || any covers after)) [
          | inl others ↦ inr (inr (ground (arith, rest-covered before after then)))
          | inr alone ↦
              let split = ap (any covers) at ∙ any-append covers before (phase ∷ after) in
              let mine : Guarded c.queue (covers phase) = ground arith in
              let kept = Move-Guarded m ok mine in ground (arith, rest-covered before after then)
        ]

    Reaches-Guarded :
        {c d : Checks S limit} (run : Reaches S limit c d)
        → AllSucceed run
        → Guarded c.queue (any covers c.running)
        → Guarded d.queue (any covers d.running)
    Reaches-Guarded here ok g = g
    Reaches-Guarded (next run s) (before, last) g =
        Step-Guarded s last (Reaches-Guarded run before g)

    -- However the calls of a process overlap, from its start on, and whether or not Redis held the queue
    -- paused: if no call of the run ends by an error, then whenever all calls are done and the queue is
    -- paused, the timer that tests the capacity again is still to fire.
    pub paused-live :
        (paused : Bool) (registry : S.State) {d : Checks S limit}
        → (run : Reaches S limit (started S limit paused registry) d) → AllSucceed run
        → d.running ≡ []
        → d.queue.paused ≡ true
        → d.queue.timers.live ≡ true
    unfolding started covers
    paused-live paused registry run ok done held =
        ground (arith, Reaches-Guarded run ok (inr (inr refl)), ap (any covers) done)
