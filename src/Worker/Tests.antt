-- ===== src/Worker/Tests.antt =====
-- The theorems on the worker at two jobs with a block between them.
use account_service.Common.{
  ℕ, ◌≡◌, refl, sym, none, String, false, ◌==◌, length, List, [], ◌∷◌, In, string_eq, ℕ_discrete,
  arith,
}
use account_service.Js.{Outcome, resolved, resolved-injective}
use account_service.Redis.Memory
use account_service.Types.{TransactionData}
use account_service.Worker.Limit.{IsAcceptable, AllFree, run_jobs, run_jobs-submitted}
use account_service.Redis.WatchList
use account_service.Scheduler.Memory as Timers
use account_service.Nonce.{get_next_nonce, Index}
use account_service.Nonce.Repeats.{index_of}
use account_service.Notifier.{
  process_current_block, found_in_block, process_found, set_epoch_capacity, exec, expired,
  extrinsic_indices, is_relevant,
}
use account_service.Notifier.Report.{handle_extrinsics, total_withdrawn}
use account_service.Decimal.{read}
use account_service.Notifier.Tests.{claimed, good_block, chain}
use account_service.Publisher.{World, process, check_capacity}
use account_service.Publisher.Planning.{plan}
use account_service.Publisher.Decide.{decide, retried}
use account_service.Publisher.Tests as Jobs
use account_service.Worker.{
  Worker, publisher, Reaches, here, next, job, block, after_job, after_block,
}
use account_service.Worker.Nonces.{
  AllTimely, IsReserved, NoRepeats, nonces, HasRoom, submitted-NoRepeats,
}
use account_service.Worker.Watch.{Event, IsKeyed, AllRefine, view, apply_all, Reaches-AllRefine}
use account_service.Worker.Taken.{IsTaken, unwatched-IsTaken}

abbrev Workers : Type 0
Workers = Worker Memory.memory WatchList.memory Timers.memory

abbrev idle : Workers
idle = record {
  cache = Memory.empty;
  watch_list = WatchList.nothing;
  registry = Timers.empty;
  calls = [];
  submitted = [];
  posts = [];
}

abbrev one_job : Workers
one_job = after_job Memory.memory WatchList.memory Timers.memory Jobs.world "j3" Jobs.job idle

abbrev one_block : Workers
one_block = after_block Memory.memory WatchList.memory Timers.memory chain good_block 12 one_job

abbrev second_world : World
second_world = Jobs.world_with Jobs.half Jobs.info (resolved "0xcc")

abbrev two_jobs : Workers
two_jobs =
    after_job Memory.memory WatchList.memory Timers.memory second_world "j4" Jobs.job one_block

abbrev run : Reaches Memory.memory WatchList.memory Timers.memory idle two_jobs
run =
    next (next (next here (job Jobs.world "j3" Jobs.job)) (block chain good_block 12))
      (job second_world "j4" Jobs.job)

-- The second job finds the key of "70" and takes that of "71".
room_for_8 : HasRoom Memory.memory WatchList.memory Timers.memory one_block.cache (index_of 7)
unfolding process process_current_block found_in_block process_found set_epoch_capacity exec expired
    handle_extrinsics extrinsic_indices string_eq is_relevant ℕ_discrete plan decide retried
    get_next_nonce
room_for_8 = (1, omega arith, refl)

seven : {d : Index} → Path (Outcome Index) (resolved (index_of 7)) (resolved d) → d ≡ index_of 7
seven e = sym (resolved-injective e)

run-AllTimely : AllTimely Memory.memory WatchList.memory Timers.memory (index_of 7) run
run-AllTimely = (((tt, λ d e. (seven e, (0, omega arith, refl))), tt), λ d e. (seven e, room_for_8))

submitted-NoRepeats_example :
    NoRepeats (nonces two_jobs.submitted)
    × ((n : ℕ)
        → In n (nonces two_jobs.submitted)
        → IsReserved Memory.memory WatchList.memory Timers.memory (index_of 7) two_jobs.cache n)
submitted-NoRepeats_example =
    submitted-NoRepeats Memory.memory WatchList.memory Timers.memory (index_of 7)
      Memory.memory-IsKeyspace run run-AllTimely refl

-- The two nonces.
two_nonces : nonces two_jobs.submitted ≡ 7 ∷ 8 ∷ []
unfolding process process_current_block found_in_block process_found set_epoch_capacity exec expired
    handle_extrinsics extrinsic_indices string_eq is_relevant ℕ_discrete plan decide retried
    get_next_nonce read total_withdrawn
two_nonces = refl

Reaches-AllRefine_example :
    (events : List Event) × AllRefine Memory.memory WatchList.memory Timers.memory run events
    × (view Memory.memory WatchList.memory Timers.memory two_jobs
        ≡ apply_all events (view Memory.memory WatchList.memory Timers.memory idle))
    × IsKeyed Memory.memory WatchList.memory Timers.memory two_jobs
Reaches-AllRefine_example =
    Reaches-AllRefine Memory.memory WatchList.memory Timers.memory WatchList.memory-IsWatchList run
      (λ k v e. ground arith)

abbrev waiting : Workers
waiting = record idle { watch_list = WatchList.watching "0xaa" claimed }

abbrev settled : Workers
settled = after_block Memory.memory WatchList.memory Timers.memory chain good_block 12 waiting

abbrev settling : Reaches Memory.memory WatchList.memory Timers.memory waiting settled
settling = next here (block chain good_block 12)

gone : WatchList.memory.hget settled.watch_list "0xaa" ≡ none
unfolding process_current_block found_in_block process_found set_epoch_capacity exec expired
    handle_extrinsics extrinsic_indices string_eq is_relevant ℕ_discrete
gone = refl

unwatched-IsTaken_example :
    IsTaken Memory.memory WatchList.memory Timers.memory WatchList.memory-IsWatchList settling
      "0xaa"
unfolding string_eq
unwatched-IsTaken_example =
    unwatched-IsTaken Memory.memory WatchList.memory Timers.memory WatchList.memory-IsWatchList
      settling (λ k v e. ground arith) "0xaa" claimed refl gone

-- The service may use one percent of the 200 units that are issued.
abbrev tight : Outcome String → World
tight answer = Jobs.world_with (record { whole = 1; has_fraction = false }) Jobs.info answer

tight-IsAcceptable : (h : String) → (h == "") ≡ false → IsAcceptable (tight (resolved h)) Jobs.job
unfolding plan
tight-IsAcceptable h named = record {
  last = 470;
  planned = _;
  chain_nonce = index_of 7;
  era = (470, 534);
  finalized = refl;
  signed = refl;
  built = refl;
  counted = refl;
  wrapped = refl;
  sent = λ nonce. (h, refl, named);
  dated = refl;
}

abbrev three : List (World × String × TransactionData)
three =
    (tight (resolved "0xaa"), "j1", Jobs.job)
    ∷ (tight (resolved "0xbb"), "j2", Jobs.job)
    ∷ (tight (resolved "0xcc"), "j3", Jobs.job)
    ∷ []

three-AllFree : AllFree Memory.memory WatchList.memory Timers.memory three idle
unfolding check_capacity decide string_eq
three-AllFree = (
  tight-IsAcceptable "0xaa" refl,
  refl,
  (tight-IsAcceptable "0xbb" refl, refl, (tight-IsAcceptable "0xcc" refl, refl, tt)),
)

run_jobs-submitted_example :
    let u = run_jobs Memory.memory WatchList.memory Timers.memory three idle in
    (length u.submitted ≡ 3)
    × ((world : World)
        → (check_capacity Memory.memory WatchList.memory Timers.memory world
            (publisher Memory.memory WatchList.memory Timers.memory u)).0
          ≡ (check_capacity Memory.memory WatchList.memory Timers.memory world
              (publisher Memory.memory WatchList.memory Timers.memory idle)).0)
run_jobs-submitted_example =
    run_jobs-submitted Memory.memory WatchList.memory Timers.memory Memory.memory-IsKeyspace
      WatchList.memory-IsWatchList three idle three-AllFree
