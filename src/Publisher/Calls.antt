-- ===== src/Publisher/Calls.antt =====
-- Which calls on the queue and its jobs the publisher makes.
use account_service.Common.{
  ℕ, ◌≡◌, refl, ap, ◌∙◌, inl, inr, String, Bool, true, false, List, [], ◌∷◌, ◌++◌, map, All,
  All-append, arith, Option-cases,
}
use account_service.Js.{delayed_error, Outcome, resolved, rejected, Outcome-cases}
use account_service.Redis.{Keyspace}
use account_service.Redis.WatchList.{WatchList}
use account_service.Scheduler.{Scheduler}
use account_service.Notifier.{epoch_capacity_key, number_or_zero}
use account_service.Types.{TransactionData}
use account_service.Publisher.{
  Publisher, World, QueueCall, pause, resume, retry, move_to_delayed, check_capacity, with_info,
  after_decision, available, exhausted, called, process, submit, prepare, with_capacity, send,
  process_txn, watch,
}
use account_service.Publisher.Planning.{Plan}
use account_service.Publisher.Decide.{CapacityInfo, FailedJob, decide, retried}
use account_service.Publisher.Wakes.{retry_all-calls}

module _ (K : Keyspace) (H : WatchList) (S : Scheduler) (world : World) where
  exhausted-calls :
      (info : CapacityInfo) (p : Publisher K H S)
      → (exhausted K H S world info p).calls ≡ p.calls ++ (pause ∷ [])
  unfolding exhausted called
  exhausted-calls info p = elim (Outcome-cases world.paused) [
    | inl (u, e) ↦ rw (e, exhausted)
    | inr (t, e) ↦ rw (e, exhausted)
  ]

  pub check_capacity-paused :
      (p : Publisher K H S)
      → (check_capacity K H S world p).0 ≡ false
      → (check_capacity K H S world p).1.calls ≡ p.calls ++ (pause ∷ [])
  unfolding check_capacity with_info after_decision
  check_capacity-paused p none_left = elim (Outcome-cases world.capacity_info) [
    | inr (t, e) ↦ cc (rw (e, check_capacity) at none_left)
    | inl (info, e) ↦
        let after_info = rw (e, check_capacity) at none_left in
        elim (Option-cases
          (number_or_zero (K.get p.cache (epoch_capacity_key info.current_epoch)))) [
            | inl q ↦ cc (rw (q, with_info) at after_info)
            | inr (used, q) ↦
                let after_used = rw (q, with_info) at after_info in
                elim (Outcome-cases (decide world.capacity_limit info used)) [
                  | inr (t, d) ↦ cc (rw (d, after_decision) at after_used)
                  | inl (true, d) ↦
                      rw (e, check_capacity)
                        (rw (q, with_info) (rw (d, after_decision) (exhausted-calls info p)))
                  | inl (false, d) ↦ cc (rw (d, after_decision) at after_used)
                ]
          ]
  ]

  checked-delayed :
      (job_id : String) (d : TransactionData) (checked : Bool × Publisher K H S)
      → checked.0 ≡ false
      → let out = with_capacity K H S world job_id d checked in
        (out.0 ≡ rejected delayed_error)
        × (out.1.calls ≡ checked.1.calls ++ (move_to_delayed job_id ∷ []))
  unfolding with_capacity called
  checked-delayed job_id d (false, p) none_left = (refl, refl)
  checked-delayed job_id d (true, p) none_left = cc

  pub process-paused :
      (job_id : String) (d : TransactionData) (p : Publisher K H S)
      → (check_capacity K H S world p).0 ≡ false
      → let out = process K H S world job_id d p in
        (out.0 ≡ rejected delayed_error)
        × (out.1.calls ≡ (p.calls ++ (pause ∷ [])) ++ (move_to_delayed job_id ∷ []))
  unfolding process
  process-paused job_id d p none_left =
      let (thrown, calls) = checked-delayed job_id d (check_capacity K H S world p) none_left in
      (
        thrown,
        calls ∙ ap (λ xs. xs ++ (move_to_delayed job_id ∷ [])) (check_capacity-paused p none_left),
      )

module _ (K : Keyspace) (H : WatchList) (S : Scheduler) (world : World) (P : QueueCall → Type 0)
    (paused : P pause) (resumed : P resume)
    (retries : (jobs : List FailedJob)
      → world.failed_jobs ≡ resolved jobs
      → All P (map retry (retried jobs))) where
  available-calls : (p : Publisher K H S) → All P p.calls → All P (available K H S world p).calls
  unfolding available called
  available-calls p all = elim (Outcome-cases world.failed_jobs) [
    | inr (t, e) ↦ rw e all
    | inl (jobs, e) ↦
        let (calls, same) = retry_all-calls K H S world (retried jobs) p in
        let more = All-append P p.calls (map retry (retried jobs)) all (retries jobs e) in
        rw (e, calls)
          (All-append P (p.calls ++ map retry (retried jobs)) (resume ∷ []) more (resumed, tt))
  ]

  pub check_capacity-calls :
      (p : Publisher K H S) → All P p.calls → All P (check_capacity K H S world p).1.calls
  unfolding check_capacity with_info after_decision
  check_capacity-calls p all = elim (Outcome-cases world.capacity_info) [
    | inr (t, e) ↦ rw (e, check_capacity) all
    | inl (info, e) ↦
        elim (Option-cases
          (number_or_zero (K.get p.cache (epoch_capacity_key info.current_epoch)))) [
            | inl q ↦ rw (e, check_capacity) (rw (q, with_info) all)
            | inr (used, q) ↦
                rw (e, check_capacity)
                  (rw (q, with_info)
                    (elim (Outcome-cases (decide world.capacity_limit info used)) [
                      | inr (t, d) ↦ rw (d, after_decision) all
                      | inl (true, d) ↦
                          rw (d, after_decision)
                            (rw (exhausted-calls K H S world info p)
                              (All-append P p.calls (pause ∷ []) all (paused, tt)))
                      | inl (false, d) ↦ rw (d, after_decision) (available-calls p all)
                    ]))
          ]
  ]

  submit-calls :
      (d : TransactionData) (ready : Outcome (ℕ × Plan)) (p : Publisher K H S)
      → (submit K H S world d ready p).1.calls ≡ p.calls
  unfolding submit watch process_txn send
  submit-calls d ready p = ground arith

  with_capacity-calls :
      (job_id : String) (d : TransactionData)
      → P (move_to_delayed job_id)
      → (checked : Bool × Publisher K H S) → All P checked.1.calls
      → All P (with_capacity K H S world job_id d checked).1.calls
  unfolding with_capacity called
  with_capacity-calls job_id d moved (false, p) all =
      All-append P p.calls (move_to_delayed job_id ∷ []) all (moved, tt)
  with_capacity-calls job_id d moved (true, p) all =
      rw (submit-calls d (prepare K H S world d) p) all

  -- Whatever holds for the calls of `checkCapacity`, and for the delay of the job at hand, holds for
  -- all calls of `process`.
  pub process-calls :
      (job_id : String) (d : TransactionData) (p : Publisher K H S)
      → P (move_to_delayed job_id)
      → All P p.calls
      → All P (process K H S world job_id d p).1.calls
  unfolding process
  process-calls job_id d p moved all =
      with_capacity-calls job_id d moved (check_capacity K H S world p) (check_capacity-calls p all)
