-- ===== src/Worker.antt =====
-- The worker process of apps/worker/src/worker.module.ts: the publisher and the notifier with the
-- Redis that they share. A job, a test of the capacity and a block are one step each.
pub mod Keys
pub mod Nonces
pub mod Watch
pub mod Taken
pub mod Limit
mod Tests
use account_service.Common.{ℕ, String, List}
use account_service.Redis.{Keyspace}
use account_service.Redis.WatchList.{WatchList}
use account_service.Scheduler.{Scheduler}
use account_service.Types.{TransactionData}
use account_service.Scanner.{BlockHash}
use account_service.Notifier.{Notifier, Chain, process_current_block, set_last_seen_block_number}
use account_service.Notifier.Send.{Post}
use account_service.Publisher.{Publisher, World, QueueCall, process, check_capacity}
use account_service.Publisher.Planning.{Extrinsic}

module _ (K : Keyspace) (H : WatchList) (S : Scheduler) where
  pub record Worker : Type 0 where
    pub cache : K.State
    pub watch_list : H.State
    pub registry : S.State
    pub calls : List QueueCall
    pub submitted : List (Extrinsic × ℕ)
    pub posts : List Post

  abbrev pub publisher : Worker → Publisher K H S
  publisher w = record {
    cache = w.cache;
    watch_list = w.watch_list;
    registry = w.registry;
    calls = w.calls;
    submitted = w.submitted;
  }

  abbrev pub with_publisher : Worker → Publisher K H S → Worker
  with_publisher w p = record {
    cache = p.cache;
    watch_list = p.watch_list;
    registry = p.registry;
    calls = p.calls;
    submitted = p.submitted;
    posts = w.posts;
  }

  abbrev pub notifier : Worker → Notifier K H
  notifier w = record { cache = w.cache; watch_list = w.watch_list; posts = w.posts }

  abbrev pub with_notifier : Worker → Notifier K H → Worker
  with_notifier w n = record w { cache = n.cache; watch_list = n.watch_list; posts = n.posts }

  abbrev pub after_job : World → String → TransactionData → Worker → Worker
  after_job world job_id d w = with_publisher w (process K H S world job_id d (publisher w)).1

  abbrev pub after_check : World → Worker → Worker
  after_check world w = with_publisher w (check_capacity K H S world (publisher w)).1

  abbrev pub after_block : Chain → BlockHash → ℕ → Worker → Worker
  after_block chain hash number w =
      with_notifier w (process_current_block K H chain hash number (notifier w)).1

  abbrev pub after_record : Chain → ℕ → Worker → Worker
  after_record chain number w =
      with_notifier w (set_last_seen_block_number K H chain number (notifier w)).1

  -- What the outside answers may differ from step to step, and so may the order of the steps.
  pub data Step (w : Worker) : Worker → Type 0 where
    job :
        (world : World) (job_id : String) (d : TransactionData)
        → Step w (after_job world job_id d w)
    -- the timer of the next epoch, or the start of the publisher
    check : (world : World) → Step w (after_check world w)
    block :
        (chain : Chain) (hash : BlockHash) (number : ℕ) → Step w (after_block chain hash number w)
    -- other clients write to Redis, or a key expires
    outside : (cache : K.State) → Step w (record w { cache = cache })
    -- a block that was processed is recorded as seen
    record_block : (chain : Chain) (number : ℕ) → Step w (after_record chain number w)

  pub data Reaches (w : Worker) : Worker → Type 0 where
    here : Reaches w w
    next : {t u : Worker} → Reaches w t → Step t u → Reaches w u
