-- ===== src/Lifecycle/Delayed.antt =====
-- A job that the publisher sends back for want of capacity, and the wait of the consumer at shutdown.
use account_service.Common.{
  ℕ, ◌*◌, ◌≡◌, refl, ◌∙◌, inl, inr, String, false, some, List, [], ==_refl, string_eq, All, arith,
}
use account_service.Redis.{Keyspace}
use account_service.Redis.WatchList.{WatchList}
use account_service.Scheduler.{Scheduler}
use account_service.Types.{TransactionData}
use account_service.Publisher.{Publisher, World, check_capacity}
use account_service.Consumer.{
  JobEvent, on_events, on_module_destroy, max_wait_for_grace_full_shutdown_ms,
  delay_to_check_for_shutdown_ms,
}
use account_service.Consumer.Shutdown.{running, on_module_destroy-Ends}
use account_service.Consumer.Tracking.{
  on_events-Tracked, Tracked, Spares, active-Tracked, running-Tracked,
}
use account_service.Lifecycle.{Jobs, IsJobs, Status, delayed, Pipeline, after_work}
use account_service.Publisher.Calls.{process-paused}

module _ (K : Keyspace) (H : WatchList) (S : Scheduler) (Q : Jobs) (L : IsJobs Q) where
  -- A job that is taken while no capacity is left waits in the queue again, but its id stays in the set
  -- of running jobs: at a shutdown the consumer waits its whole 6 seconds once the worker has closed,
  -- although that job does not run, whatever events of other jobs come meanwhile.
  pub delayed-waits :
      (world : World) (p : Publisher K H S) (id : String) (d : TransactionData) (t : Q.queue.State)
      (s : Pipeline Q) (closing : List JobEvent) (events : ℕ → List JobEvent)
      → Q.take s.jobs ≡ some (id, t)
      → (check_capacity K H S world (record p { calls = [] })).0 ≡ false
      → All (Spares id) closing
      → ((round : ℕ) → All (Spares id) (events round))
      → let u = after_work K H S Q world p id d t s in
        let left = on_events closing u.actives in
        (Q.status u.jobs id ≡ some delayed)
        × ((delays : ℕ) × (on_module_destroy 21 (some closing) events u.actives
              ≡ some (delays, running 0 delays events left))
            × (delays * delay_to_check_for_shutdown_ms ≡ max_wait_for_grace_full_shutdown_ms)
            × Tracked id (running 0 delays events left))
  unfolding after_work
  delayed-waits world p id d t s closing events took none_left spared₀ spared =
      let empty = record p { calls = [] } in
      let (thrown, calls) = process-paused K H S world id d empty none_left in
      let u = after_work K H S Q world p id d t s in
      let (waited, at) = L.take_waiting s.jobs t id took in
      let active_at : Q.status t id ≡ some Status.active = at id ∙ rw (==_refl id) refl in
      let tracked : Tracked id u.actives = rw thrown (active-Tracked id s.actives) in
      let (delays, low, e, why) =
        on_module_destroy-Ends 21 (some closing) events u.actives (omega arith) in
      let later =
        running-Tracked id 0 delays events (on_events closing u.actives) spared
          (on_events-Tracked id closing u.actives spared₀ tracked) in
      (
        rw (thrown, calls) (L.delay_active t id active_at),
        (
          delays,
          e,
          elim why [ inl none_runs ↦ cc (rw none_runs at later) | inr whole ↦ whole ],
          later,
        ),
      )
