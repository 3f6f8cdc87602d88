-- ===== src/Publisher/Checks/Answered.antt =====
-- Every run of one call of `checkCapacity` with the answers of a world.
use mathlib.Core.List.{append-nil}
use account_service.Common.{
  ℕ, ◌≡◌, refl, ap, ◌∙◌, inl, inr, String, Bool, true, false, Option, none, some, List, [], ◌∷◌,
  ◌++◌, map, arith, Option-cases,
}
use account_service.Js.{Outcome, resolved, rejected, Outcome-cases}
use account_service.Redis.{Keyspace}
use account_service.Redis.WatchList.{WatchList}
use account_service.Scheduler.{Scheduler}
use account_service.Notifier.{epoch_capacity_key, number_or_zero}
use account_service.Publisher.{
  World, QueueCall, resume, retry, delete_timeout_or_ignore, replace_timeout,
}
use account_service.Publisher.Decide.{CapacityInfo, decide, retried}
use account_service.Publisher.Checks.{
  Phase, reading, fetching, pausing, listing, retrying, after_info, after_used, after_number,
  after_decided, Timers, delete_timer_or_ignore, replace_timer, Shared, Move, info_answered,
  used_answered, queue_paused, pause_answered, pause_refused, jobs_answered, retries_answered,
  queue_resumed, resume_answered, resume_refused, after_jobs, jobs_retried, asked, ask, epoch_delay,
}

module _ (K : Keyspace) (H : WatchList) (S : Scheduler) where
  replace_timer-registry :
      (delay : ℕ) (t : Timers S)
      → (replace_timer S delay t).registry ≡ replace_timeout K H S delay t.registry
  unfolding replace_timer replace_timeout
  replace_timer-registry delay t = ground arith

  delete_timer-registry :
      (t : Timers S)
      → (delete_timer_or_ignore S t).registry ≡ delete_timeout_or_ignore K H S t.registry
  unfolding delete_timer_or_ignore delete_timeout_or_ignore
  delete_timer-registry t = ground arith

module _ (K : Keyspace) (H : WatchList) (S : Scheduler) (world : World) (cache : K.State) where
  abbrev pub recorded : CapacityInfo → Option String
  recorded info = K.get cache (epoch_capacity_key info.current_epoch)

  -- The answer that the move takes is that of the world, or what Redis has recorded.
  abbrev pub IsAnswer :
      {q r : Shared S} {phase : Phase} {next : Option Phase}
      → Move S world.capacity_limit q phase r next
      → Type 0
  IsAnswer (info_answered reply) = reply ≡ world.capacity_info
  IsAnswer (used_answered info reply) = reply ≡ resolved (recorded info)
  IsAnswer (queue_paused info) = Unit
  IsAnswer (pause_answered info) = world.paused ≡ resolved tt
  IsAnswer (pause_refused done info e) = world.paused ≡ rejected e
  IsAnswer (jobs_answered reply) = reply ≡ world.failed_jobs
  IsAnswer retries_answered = Unit
  IsAnswer queue_resumed = Unit
  IsAnswer resume_answered = Unit
  IsAnswer (resume_refused done e) = Unit

  -- The call goes on from its `await` to its end, with no other call in between.
  pub data Run : Shared S → Option Phase → Shared S → Type 0 where
    ended : {q : Shared S} → Run q none q
    moved :
        {q r u : Shared S} {phase : Phase} {next : Option Phase}
        (m : Move S world.capacity_limit q phase r next)
        → IsAnswer m
        → Run r next u
        → Run q (some phase) u

  abbrev pub left : Shared S → S.State × List QueueCall
  left q = (q.timers.registry, q.calls)

  -- What is left at the end, from an `await` behind the decision on.
  unfoldable pub later : Shared S → Option Phase → S.State × List QueueCall
  later q (some (pausing done info)) = elim world.paused [
    | rejected e ↦ left q
    | resolved u ↦ (replace_timeout K H S (epoch_delay info) q.timers.registry, q.calls)
  ]
  later q (some listing) = elim world.failed_jobs [
    | rejected e ↦ left q
    | resolved jobs ↦ (
      delete_timeout_or_ignore K H S q.timers.registry,
      (q.calls ++ map retry (retried jobs)) ++ (resume ∷ []),
    )
  ]
  later q (some retrying) =
      (delete_timeout_or_ignore K H S q.timers.registry, q.calls ++ (resume ∷ []))
  later q phase = left q

  abbrev pub fetched : Shared S → CapacityInfo → S.State × List QueueCall
  fetched q info =
      let next = after_used world.capacity_limit info (resolved (recorded info)) in
      later (ask S (asked next) q) next

  unfoldable pub expected : Shared S → Option Phase → S.State × List QueueCall
  unfolding later
  expected q (some reading) = elim world.capacity_info [
    | rejected e ↦ left q
    | resolved info ↦ fetched q info
  ]
  expected q (some (fetching info)) = fetched q info
  expected q phase = later q phase

  after_used-expected :
      (q : Shared S) (info : CapacityInfo) (reply : Outcome (Option String))
      → let next = after_used world.capacity_limit info reply in expected q next ≡ later q next
  unfolding after_used after_number after_decided expected
  after_used-expected q info (rejected e) = refl
  after_used-expected q info (resolved text) = elim (Option-cases (number_or_zero text)) [
    | inl wrong ↦ rw (wrong, after_number) refl
    | inr (n, number) ↦ elim (Outcome-cases (decide world.capacity_limit info n)) [
      | inr (e, d) ↦ rw (number, after_number) (rw (d, after_decided) refl)
      | inl (true, d) ↦ rw (number, after_number) (rw (d, after_decided) refl)
      | inl (false, d) ↦ rw (number, after_number) (rw (d, after_decided) refl)
    ]
  ]

  Move-expected :
      {q r : Shared S} {phase : Phase} {next : Option Phase}
      (m : Move S world.capacity_limit q phase r next)
      → IsAnswer m
      → expected r next ≡ expected q (some phase)
  unfolding expected later after_info after_jobs jobs_retried
  Move-expected (info_answered (rejected e)) a = rw (← a) refl
  Move-expected (info_answered (resolved info)) a = rw (← a) refl
  Move-expected {q} (used_answered info reply) a =
      after_used-expected (ask S (asked (after_used world.capacity_limit info reply)) q) info reply
      ∙ ap
          (λ o.
            later (ask S (asked (after_used world.capacity_limit info o)) q)
              (after_used world.capacity_limit info o))
          a
  Move-expected (queue_paused info) a = refl
  Move-expected {q} (pause_answered info) a =
      rw a (ap (λ x. (x, q.calls)) (replace_timer-registry K H S (epoch_delay info) q.timers))
  Move-expected (pause_refused done info e) a = rw a refl
  Move-expected {q} (jobs_answered (rejected e)) a =
      rw (← a) (ap (λ x. (q.timers.registry, x)) (append-nil q.calls))
  Move-expected (jobs_answered (resolved jobs)) a = rw (← a) refl
  Move-expected {q} retries_answered a =
      ap (λ x. (x, q.calls ++ (resume ∷ []))) (delete_timer-registry K H S q.timers)
  Move-expected queue_resumed a = refl
  Move-expected resume_answered a = refl
  Move-expected (resume_refused done e) a = refl

  pub Run-expected :
      {q u : Shared S} {phase : Option Phase} → Run q phase u → left u ≡ expected q phase
  unfolding expected
  Run-expected ended = refl
  Run-expected (moved m a rest) = Run-expected rest ∙ Move-expected m a

  -- `!outOfCapacity` at the end: false for a call that comes to pause the queue.
  abbrev pub answer : {q u : Shared S} {phase : Option Phase} → Run q phase u → Bool
  answer ended = true
  answer (moved (info_answered reply) a rest) = answer rest
  answer (moved (used_answered info reply) a rest) = answer rest
  answer (moved (queue_paused info) a rest) = false
  answer (moved (pause_answered info) a rest) = false
  answer (moved (pause_refused done info e) a rest) = false
  answer (moved (jobs_answered reply) a rest) = answer rest
  answer (moved retries_answered a rest) = answer rest
  answer (moved queue_resumed a rest) = answer rest
  answer (moved resume_answered a rest) = answer rest
  answer (moved (resume_refused done e) a rest) = answer rest

  unfoldable pub later_answer : Option Phase → Bool
  later_answer (some (pausing done info)) = false
  later_answer phase = true

  abbrev pub fetched_answer : CapacityInfo → Bool
  fetched_answer info =
      later_answer (after_used world.capacity_limit info (resolved (recorded info)))

  unfoldable pub expected_answer : Option Phase → Bool
  unfolding later_answer
  expected_answer (some reading) = elim world.capacity_info [
    | rejected e ↦ true
    | resolved info ↦ fetched_answer info
  ]
  expected_answer (some (fetching info)) = fetched_answer info
  expected_answer phase = later_answer phase

  after_used-answer :
      (info : CapacityInfo) (reply : Outcome (Option String))
      → let next = after_used world.capacity_limit info reply in
        expected_answer next ≡ later_answer next
  unfolding after_used after_number after_decided expected_answer
  after_used-answer info (rejected e) = refl
  after_used-answer info (resolved text) = elim (Option-cases (number_or_zero text)) [
    | inl wrong ↦ rw (wrong, after_number) refl
    | inr (n, number) ↦ elim (Outcome-cases (decide world.capacity_limit info n)) [
      | inr (e, d) ↦ rw (number, after_number) (rw (d, after_decided) refl)
      | inl (true, d) ↦ rw (number, after_number) (rw (d, after_decided) refl)
      | inl (false, d) ↦ rw (number, after_number) (rw (d, after_decided) refl)
    ]
  ]

  pub Run-answer :
      {q u : Shared S} {phase : Option Phase} (run : Run q phase u)
      → answer run ≡ expected_answer phase
  unfolding expected_answer later_answer after_info after_jobs
  Run-answer ended = refl
  Run-answer (moved (info_answered (rejected e)) a rest) = Run-answer rest ∙ rw (← a) refl
  Run-answer (moved (info_answered (resolved info)) a rest) = Run-answer rest ∙ rw (← a) refl
  Run-answer (moved (used_answered info reply) a rest) =
      Run-answer rest
      ∙ after_used-answer info reply
      ∙ ap (λ o. later_answer (after_used world.capacity_limit info o)) a
  Run-answer (moved (queue_paused info) a rest) = refl
  Run-answer (moved (pause_answered info) a rest) = refl
  Run-answer (moved (pause_refused done info e) a rest) = refl
  Run-answer (moved (jobs_answered (rejected e)) a rest) = Run-answer rest
  Run-answer (moved (jobs_answered (resolved jobs)) a rest) = Run-answer rest
  Run-answer (moved retries_answered a rest) = Run-answer rest
  Run-answer (moved queue_resumed a rest) = Run-answer rest
  Run-answer (moved resume_answered a rest) = Run-answer rest
  Run-answer (moved (resume_refused done e) a rest) = Run-answer rest
