-- ===== src/Publisher/Checks/Alone.antt =====
-- A call of `checkCapacity` with no other call between its steps is `check_capacity`.
use mathlib.Core.List.{append-nil}
use account_service.Common.{
  ◌≡◌, refl, sym, ap, ◌∙◌, inl, inr, String, Bool, true, false, Option, none, some, List, [], ◌∷◌,
  ◌++◌, map, Option-cases,
}
use account_service.Js.{resolved, rejected, Outcome-cases}
use account_service.Redis.{Keyspace}
use account_service.Redis.WatchList.{WatchList}
use account_service.Scheduler.{Scheduler}
use account_service.Notifier.{epoch_capacity_key, number_or_zero}
use account_service.Publisher.{
  Publisher, World, QueueCall, pause, resume, retry, check_capacity, with_info, after_decision,
  available, exhausted, called, epoch_timeout, delete_timeout_or_ignore, replace_timeout,
}
use account_service.Publisher.Capacity.{check_capacity-eq}
use account_service.Publisher.Wakes.{retry_all-calls}
use account_service.Publisher.Decide.{CapacityInfo, decide, retried}
use account_service.Publisher.Checks.{
  Phase, reading, pausing, listing, after_info, after_used, after_number, after_decided, Shared,
  Move, info_answered, used_answered, queue_paused, pause_answered, pause_refused, jobs_answered,
  retries_answered, queue_resumed, resume_answered, after_jobs, asked, ask, epoch_delay,
}
use account_service.Publisher.Checks.Answered.{
  IsAnswer, Run, ended, moved, recorded, answer, later, expected, later_answer, expected_answer,
  Run-expected, Run-answer,
}

module _ (K : Keyspace) (H : WatchList) (S : Scheduler) (world : World) (cache : K.State) where
  Runs : Shared S → Option Phase → Type 0
  Runs q phase = (u : Shared S) × Run K H S world cache q phase u

  first :
      {q r : Shared S} {phase : Phase} {next : Option Phase}
      (m : Move S world.capacity_limit q phase r next)
      → IsAnswer K H S world cache m
      → Runs r next
      → Runs q (some phase)
  unfolding Runs
  first m a (u, rest) = (u, moved m a rest)

  runs_end : (q : Shared S) → Runs q none
  unfolding Runs
  runs_end q = (q, ended)

  runs_pausing : (q : Shared S) (info : CapacityInfo) → Runs q (some (pausing false info))
  runs_pausing q info = elim (Outcome-cases world.paused) [
    | inr (e, refused) ↦ first (pause_refused false info e) refused (runs_end _)
    | inl (tt, held) ↦ first (queue_paused info) tt (first (pause_answered info) held (runs_end _))
  ]

  runs_listing : (q : Shared S) → Runs q (some listing)
  unfolding after_jobs
  runs_listing q = elim (Outcome-cases world.failed_jobs) [
    | inr (e, failed) ↦ first (jobs_answered (rejected e)) (sym failed) (runs_end _)
    | inl (jobs, listed) ↦
        first (jobs_answered (resolved jobs)) (sym listed) (
          first retries_answered tt
            (first queue_resumed tt (first resume_answered tt (runs_end _))))
  ]

  runs_decided :
      (q : Shared S) (info : CapacityInfo) (text : Option String)
      → Runs q (after_used world.capacity_limit info (resolved text))
  unfolding after_used after_number after_decided
  runs_decided q info text = elim (Option-cases (number_or_zero text)) [
    | inl wrong ↦ rw (wrong, after_number) (runs_end q)
    | inr (n, number) ↦ elim (Outcome-cases (decide world.capacity_limit info n)) [
      | inr (e, d) ↦ rw (number, after_number) (rw (d, after_decided) (runs_end q))
      | inl (true, d) ↦ rw (number, after_number) (rw (d, after_decided) (runs_pausing q info))
      | inl (false, d) ↦ rw (number, after_number) (rw (d, after_decided) (runs_listing q))
    ]
  ]

  runs_reading : (q : Shared S) → Runs q (some reading)
  unfolding after_info
  runs_reading q = elim (Outcome-cases world.capacity_info) [
    | inr (e, failed) ↦ first (info_answered (rejected e)) (sym failed) (runs_end _)
    | inl (info, read) ↦ first (info_answered (resolved info)) (sym read) (
        first (used_answered info (resolved (recorded K H S world cache info))) refl
          (runs_decided _ info (recorded K H S world cache info)))
  ]

module _ (K : Keyspace) (H : WatchList) (S : Scheduler) (world : World) (p : Publisher K H S) where
  abbrev Leaves : S.State × List QueueCall → Bool × Publisher K H S → Type 0
  Leaves pair out = pair ≡ (out.1.registry, out.1.calls)

  pair_eq :
      {r r' : S.State} {c c' : List QueueCall}
      → r ≡ r'
      → c ≡ c'
      → ◌≡◌ {A = S.State × List QueueCall} (r, c) (r', c')
  pair_eq e e' = rw (e, e') refl

  paused-Leaves :
      (q : Shared S) (info : CapacityInfo)
      → q.timers.registry ≡ p.registry
      → q.calls ≡ p.calls
      → Leaves
          (later K H S world p.cache (ask S (pause ∷ []) q) (some (pausing false info)))
          (false, exhausted K H S world info p)
  unfolding later exhausted called epoch_timeout epoch_delay
  paused-Leaves q info same calls = elim (Outcome-cases world.paused) [
    | inr (e, refused) ↦ rw refused (pair_eq same (ap (λ xs. xs ++ (pause ∷ [])) calls))
    | inl (tt, held) ↦ rw held (
        pair_eq (ap (replace_timeout K H S (epoch_delay info)) same)
          (ap (λ xs. xs ++ (pause ∷ [])) calls))
  ]

  listed-Leaves :
      (q : Shared S)
      → q.timers.registry ≡ p.registry
      → q.calls ≡ p.calls
      → Leaves (later K H S world p.cache q (some listing)) (true, available K H S world p)
  unfolding later available called
  listed-Leaves q same calls = elim (Outcome-cases world.failed_jobs) [
    | inr (e, failed) ↦ rw failed (pair_eq same calls)
    | inl (jobs, listed) ↦
        let (cs, r) = retry_all-calls K H S world (retried jobs) p in
        rw listed (
          pair_eq (ap (delete_timeout_or_ignore K H S) (same ∙ sym r)) (
            ap (λ xs. xs ++ (resume ∷ []))
              (ap (λ xs. xs ++ map retry (retried jobs)) calls ∙ sym cs)))
  ]

  expected-check_capacity :
      (q : Shared S)
      → q.timers.registry ≡ p.registry
      → q.calls ≡ p.calls
      → Leaves (expected K H S world p.cache q (some reading)) (check_capacity K H S world p)
  unfolding expected later asked after_used after_number after_decided check_capacity with_info
      after_decision
  expected-check_capacity q same calls = elim (Outcome-cases world.capacity_info) [
    | inr (e, failed) ↦ rw failed (pair_eq same calls)
    | inl (info, read) ↦
        let text = K.get p.cache (epoch_capacity_key info.current_epoch) in
        let nothing = append-nil q.calls ∙ calls in
        elim (Option-cases (number_or_zero text)) [
          | inl wrong ↦ rw read (rw (wrong, after_number, with_info) (pair_eq same nothing))
          | inr (n, number) ↦
              let eq = check_capacity-eq K H S world p info n read number in
              elim (Outcome-cases (decide world.capacity_limit info n)) [
                | inr (e, d) ↦ rw eq (
                    rw (read, expected)
                      (rw (number, after_number)
                        (rw (d, after_decided, after_decision) (pair_eq same nothing))))
                | inl (true, d) ↦ rw eq (
                    rw (read, expected)
                      (rw (number, after_number)
                        (rw (d, after_decided, after_decision) (paused-Leaves q info same calls))))
                | inl (false, d) ↦ rw eq (
                    rw (read, expected)
                      (rw (number, after_number)
                        (rw (d, after_decided, after_decision)
                          (listed-Leaves (ask S [] q) same nothing))))
              ]
        ]
  ]

  answer-check_capacity :
      expected_answer K H S world p.cache (some reading) ≡ (check_capacity K H S world p).0
  unfolding expected_answer later_answer after_used after_number after_decided check_capacity
      with_info after_decision
  answer-check_capacity = elim (Outcome-cases world.capacity_info) [
    | inr (e, failed) ↦ rw failed refl
    | inl (info, read) ↦
        let text = K.get p.cache (epoch_capacity_key info.current_epoch) in
        elim (Option-cases (number_or_zero text)) [
          | inl wrong ↦ rw read (rw (wrong, after_number, with_info) refl)
          | inr (n, number) ↦
              let eq = check_capacity-eq K H S world p info n read number in
              elim (Outcome-cases (decide world.capacity_limit info n)) [
                | inr (e, d) ↦ rw eq (
                    rw (read, expected_answer)
                      (rw (number, after_number) (rw (d, after_decided, after_decision) refl)))
                | inl (true, d) ↦ rw eq (
                    rw (read, expected_answer)
                      (rw (number, after_number) (rw (d, after_decided, after_decision) refl)))
                | inl (false, d) ↦ rw eq (
                    rw (read, expected_answer)
                      (rw (number, after_number) (rw (d, after_decided, after_decision) refl)))
              ]
        ]
  ]

  -- Every run of a call with no other call between its steps, from the registry and the calls of `p`:
  -- it can take the answers of this world to its end, and however it takes them, it gives the answer
  -- of `check_capacity` and leaves the registry and the calls on the queue that that leaves.
  pub check_capacity-Run :
      (q : Shared S)
      → q.timers.registry ≡ p.registry
      → q.calls ≡ p.calls
      → ((u : Shared S) × Run K H S world p.cache q (some reading) u)
        × ((u : Shared S) (run : Run K H S world p.cache q (some reading) u)
            → let (available, after) = check_capacity K H S world p in
              (answer K H S world p.cache run ≡ available)
              × (u.timers.registry ≡ after.registry)
              × (u.calls ≡ after.calls))
  unfolding Runs
  check_capacity-Run q same calls = (
    runs_reading K H S world p.cache q,
    λ u run.
        let e = Run-expected K H S world p.cache run ∙ expected-check_capacity q same calls in
        (
          Run-answer K H S world p.cache run ∙ answer-check_capacity,
          ap (λ x. x.0) e,
          ap (λ x. x.1) e,
        ),
  )
