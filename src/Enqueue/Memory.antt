-- ===== src/Enqueue/Memory.antt =====
-- A queue that meets the assumptions.
use account_service.Common.{String, Option, none, some, ◌==◌, string_eq, if◌then◌else◌, arith}
use account_service.Js.{resolved}
use account_service.Types.{TransactionData}
use account_service.Enqueue.{JobQueue, IsJobQueue}

abbrev Table : Type 0
Table = String → Option TransactionData

abbrev insert : Option TransactionData → Table → String → TransactionData → Table
insert none s id d n = if n == id then some d else s n
insert (some old) s id d n = s n

abbrev pub memory : JobQueue
memory = record {
  State = Table;
  job = λ s id. s id;
  add = λ s id d. resolved (insert (s id) s id d);
}

pub memory-IsJobQueue : IsJobQueue memory
memory-IsJobQueue = record {
  add_fresh = λ s t id d e p n. ground arith;
  add_taken = λ s t id d old e p n. ground arith;
}

abbrev pub empty : memory.State
empty id = none
