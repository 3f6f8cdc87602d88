-- ===== src/Worker/Limit.antt =====
-- The limit on capacity against the jobs that run between two blocks: what `checkCapacity` reads is
-- what blocks have recorded, and no job adds to it.
use account_service.Common.{
  ℕ, ◌+◌, ◌≡◌, refl, ap, ◌∙◌, inl, inr, String, true, false, List, [], ◌∷◌, ◌==◌, length,
  length-append, string_eq, arith,
}
use account_service.Js.{resolved}
use account_service.Decimal.{to_string}
use account_service.Redis.{Keyspace, IsKeyspace}
use account_service.Redis.WatchList.{WatchList, IsWatchList}
use account_service.Scheduler.{Scheduler}
use account_service.Types.{TransactionData}
use account_service.Nonce.{get_next_nonce, Index}
use account_service.Nonce.Search.{get_next_nonce-Taken}
use account_service.Notifier.{
  epoch_capacity_key, last_seen_block_number_key, set_last_seen_block_number,
}
use account_service.Notifier.Cache.{last_seen_block_number_key-ne}
use account_service.Publisher.{World, check_capacity}
use account_service.Publisher.Planning.{Plan, plan}
use account_service.Publisher.Process.{process-resolved_iff, process-submits}
use account_service.Publisher.Submit.{Accepted, check_capacity-answer}
use account_service.Worker.{
  Worker, publisher, after_job, Step, job, check, block, record_block, outside, Reaches, here, next,
}
use account_service.Worker.Keys.{after_job-epoch, after_check-cache}

-- All that a job needs of the outside, whatever its nonce is.
pub record IsAcceptable (world : World) (d : TransactionData) : Type 0 where
  pub last : ℕ
  pub planned : Plan
  pub chain_nonce : Index
  pub era : ℕ × ℕ
  pub finalized : world.latest_finalized ≡ resolved last
  pub signed : world.provider_keys ≡ resolved tt
  pub built : plan world.builder d.request ≡ resolved planned
  pub counted : world.chain_nonce ≡ resolved chain_nonce
  pub wrapped : world.create_extrinsic planned.extrinsic ≡ resolved tt
  pub sent :
      (nonce : ℕ)
      → (tx_hash : String) × (world.sign_and_send planned.extrinsic nonce ≡ resolved tx_hash)
        × ((tx_hash == "") ≡ false)
  pub dated : world.mortal_era planned.era_of last ≡ resolved era

module _ (K : Keyspace) (H : WatchList) (S : Scheduler) where
  -- Both record the same use of each epoch.
  abbrev pub SameUse : K.State → K.State → Type 0
  SameUse s t =
      (epoch : ℕ) → K.get t (epoch_capacity_key epoch) ≡ K.get s (epoch_capacity_key epoch)

  -- The step processes no block, and nobody else writes the use of an epoch.
  abbrev pub IsQuiet : {w u : Worker K H S} → Step K H S w u → Type 0
  IsQuiet (job world job_id d) = Unit
  IsQuiet (check world) = Unit
  IsQuiet (block chain hash number) = ⊥
  IsQuiet (record_block chain number) = Unit
  IsQuiet {w} (outside cache) = SameUse w.cache cache

  abbrev pub AllQuiet : {w u : Worker K H S} → Reaches K H S w u → Type 0
  AllQuiet here = Unit
  AllQuiet (next run step) = AllQuiet run × IsQuiet step

  -- The worker after these jobs, one after the other.
  abbrev pub run_jobs : List (World × String × TransactionData) → Worker K H S → Worker K H S
  run_jobs [] w = w
  run_jobs ((world, job_id, d) ∷ jobs) w = run_jobs jobs (after_job K H S world job_id d w)

  -- Each of the jobs is acceptable, and would find capacity in `w`.
  abbrev pub AllFree : List (World × String × TransactionData) → Worker K H S → Type 0
  AllFree [] w = Unit
  AllFree ((world, job_id, d) ∷ jobs) w =
      IsAcceptable world d
      × ((check_capacity K H S world (publisher K H S w)).0 ≡ true)
      × AllFree jobs w

  run_jobs-quiet :
      (jobs : List (World × String × TransactionData)) {w u : Worker K H S}
      (run : Reaches K H S w u)
      → AllQuiet run
      → (more : Reaches K H S w (run_jobs jobs u)) × AllQuiet more
  run_jobs-quiet [] run quiet = (run, quiet)
  run_jobs-quiet ((world, job_id, d) ∷ jobs) run quiet =
      run_jobs-quiet jobs (next run (job world job_id d)) (quiet, tt)

  module _ (L : IsKeyspace K) where
    Step-SameUse :
        {w u : Worker K H S} (step : Step K H S w u) → IsQuiet step → SameUse w.cache u.cache
    unfolding set_last_seen_block_number
    Step-SameUse {w} (job world job_id d) quiet epoch =
        after_job-epoch K L H S w world job_id d epoch
    Step-SameUse {w} (check world) quiet epoch = rw (after_check-cache K L H S w world) refl
    Step-SameUse (block chain hash number) quiet epoch = absurd quiet
    Step-SameUse {w} (record_block chain number) quiet epoch = ground (
      arith,
      L.get-set w.cache last_seen_block_number_key (to_string number) (epoch_capacity_key epoch),
      last_seen_block_number_key-ne epoch,
    )
    Step-SameUse (outside cache) same epoch = same epoch

    AllQuiet-SameUse :
        {w u : Worker K H S} (run : Reaches K H S w u) → AllQuiet run → SameUse w.cache u.cache
    AllQuiet-SameUse here quiet epoch = refl
    AllQuiet-SameUse (next run step) (before, last) epoch =
        Step-SameUse step last epoch ∙ AllQuiet-SameUse run before epoch

    -- Between two blocks the limit does not count: along any run of jobs, tests of the capacity and
    -- records of seen blocks, with no block processed and nobody else writing there, the recorded use
    -- of each epoch stays what it was, and so does the answer of `checkCapacity` to whatever the chain
    -- says, however many transactions the run has submitted.
    pub AllQuiet-check_capacity :
        {w u : Worker K H S} (run : Reaches K H S w u)
        → AllQuiet run
        → SameUse w.cache u.cache
          × ((world : World)
              → (check_capacity K H S world (publisher K H S u)).0
                ≡ (check_capacity K H S world (publisher K H S w)).0)
    AllQuiet-check_capacity {w} {u} run quiet =
        let same = AllQuiet-SameUse run quiet in
        (
          same,
          λ world. check_capacity-answer K H S world (publisher K H S u) (publisher K H S w) same,
        )

    get_next_nonce-resolved :
        (s : K.State) (n : Index)
        → (nonce : ℕ) × ((get_next_nonce K (resolved n) s).0 ≡ resolved nonce)
    get_next_nonce-resolved s n = elim (get_next_nonce-Taken K n L s) [
      | inl (k, less, before, free, e) ↦ (_, ap (λ r. r.0) e)
      | inr (all, e) ↦ (_, ap (λ r. r.0) e)
    ]

    -- An acceptable job is accepted with any keys of Redis.
    IsAcceptable-Accepted :
        (world : World) (d : TransactionData) (cache : K.State)
        → IsAcceptable world d
        → Accepted K H S world d cache
    IsAcceptable-Accepted world d cache a =
        let (nonce, e) = get_next_nonce-resolved cache a.chain_nonce in
        let (tx_hash, sent, named) = a.sent nonce in
        record {
          last = a.last;
          nonce = nonce;
          planned = a.planned;
          tx_hash = tx_hash;
          era = a.era;
          finalized = a.finalized;
          signed = a.signed;
          built = a.built;
          numbered = ap (λ n. (get_next_nonce K n cache).0) a.counted ∙ e;
          wrapped = a.wrapped;
          sent = sent;
          named = named;
          dated = a.dated;
        }

    AllFree-moved :
        (jobs : List (World × String × TransactionData)) (w u : Worker K H S)
        → SameUse w.cache u.cache
        → AllFree jobs w
        → AllFree jobs u
    AllFree-moved [] w u same free = tt
    AllFree-moved ((world, job_id, d) ∷ jobs) w u same (ok, capacity, free) = (
      ok,
      check_capacity-answer K H S world (publisher K H S u) (publisher K H S w) same ∙ capacity,
      AllFree-moved jobs w u same free,
    )

    module _ (M : IsWatchList H) where
      after_job-length :
          (world : World) (job_id : String) (d : TransactionData) (w : Worker K H S)
          → IsAcceptable world d
          → (check_capacity K H S world (publisher K H S w)).0 ≡ true
          → length (after_job K H S world job_id d w).submitted ≡ length w.submitted + 1
      after_job-length world job_id d w ok capacity =
          let p = publisher K H S w in
          let done =
            (process-resolved_iff K H S world job_id d p).1
              (capacity, IsAcceptable-Accepted world d w.cache ok) in
          let (a, sent, watched) = process-submits K H S world M job_id d p done in
          ap length sent ∙ length-append w.submitted ((a.planned.extrinsic, a.nonce) ∷ [])

      run_jobs-length :
          (jobs : List (World × String × TransactionData)) (w : Worker K H S)
          → AllFree jobs w
          → length (run_jobs jobs w).submitted ≡ length w.submitted + length jobs
      run_jobs-length [] w free = omega arith
      run_jobs-length ((world, job_id, d) ∷ jobs) w (ok, capacity, free) =
          let u = after_job K H S world job_id d w in
          let same : SameUse w.cache u.cache = after_job-epoch K L H S w world job_id d in
          omega (
            arith,
            run_jobs-length jobs u (AllFree-moved jobs w u same free),
            after_job-length world job_id d w ok capacity,
          )

      -- However little the limit leaves: jobs that run one after the other with no block between them,
      -- each of which would find capacity in the state before the first, and is accepted by the chain
      -- with whatever nonce, are all submitted; and after them `checkCapacity` still answers to
      -- whatever the chain says as it did before them.
      pub run_jobs-submitted :
          (jobs : List (World × String × TransactionData)) (w : Worker K H S)
          → AllFree jobs w
          → let u = run_jobs jobs w in
            (length u.submitted ≡ length w.submitted + length jobs)
            × ((world : World)
                → (check_capacity K H S world (publisher K H S u)).0
                  ≡ (check_capacity K H S world (publisher K H S w)).0)
      run_jobs-submitted jobs w free =
          let (run, quiet) = run_jobs-quiet jobs here tt in
          (run_jobs-length jobs w free, (AllQuiet-check_capacity run quiet).1)
