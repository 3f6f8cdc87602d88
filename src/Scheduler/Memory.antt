-- ===== src/Scheduler/Memory.antt =====
-- A registry that meets the assumptions.
use account_service.Common.{ℕ, refl, String, Option, none, some, ◌==◌, string_eq, if◌then◌else◌}
use account_service.Js.{Outcome, resolved, rejected, error}
use account_service.Scheduler.{Scheduler, IsScheduler, is_some}

abbrev Table : Type 0
Table = String → Option ℕ

abbrev register : Table → String → Option ℕ → Table
register s name entry n = if n == name then entry else s n

abbrev add : Option ℕ → Table → String → ℕ → Outcome Table
add none s name delay = resolved (register s name (some delay))
add (some old) s name delay = rejected (error "duplicate")

abbrev delete : Option ℕ → Table → String → Outcome Table
delete none s name = rejected (error "not found")
delete (some old) s name = resolved (register s name none)

abbrev pub memory : Scheduler
memory = record {
  State = Table;
  timeout = λ s name. s name;
  does_exist = λ s name. is_some (s name);
  add_timeout = λ s name delay. add (s name) s name delay;
  delete_timeout = λ s name. delete (s name) s name;
}

pub memory-IsScheduler : IsScheduler memory
memory-IsScheduler = record {
  does_exist-timeout = λ s name. refl;
  add_fresh = λ s name delay e. (register s name (some delay), rw e, λ n. refl);
  add_taken = λ s name delay old e. (error "duplicate", rw e);
  delete_present = λ s name old e. (register s name none, rw e, λ n. refl);
  delete_absent = λ s name e. (error "not found", rw e);
}

-- Nothing is registered.
abbrev pub empty : memory.State
empty name = none
