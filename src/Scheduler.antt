-- ===== src/Scheduler.antt =====
-- `SchedulerRegistry` of @nestjs/schedule, as the services use it: named timeouts. It is not in the
-- repository, so it is an interface: a parameter of the components.
pub mod Memory
use account_service.Common.{
  ℕ, ◌≡◌, String, Bool, true, false, Option, none, some, ◌==◌, string_eq, if◌then◌else◌,
}
use account_service.Js.{Throwable, Outcome, rejected, Resolves}

-- `timeout s name` is the delay in milliseconds of the timeout that is registered under `name`.
pub record Scheduler : Type 1 where
  pub State : Type 0
  pub timeout : State → String → Option ℕ
  pub does_exist : State → String → Bool
  pub add_timeout : State → String → ℕ → Outcome State
  pub delete_timeout : State → String → Outcome State

abbrev pub is_some : Option ℕ → Bool
is_some none = false
is_some (some delay) = true

-- The documented behaviour: a name is registered once, and a name that is not registered cannot be
-- deleted. A timeout that has fired stays registered.
pub record IsScheduler (S : Scheduler) : Type 0 where
  pub does_exist-timeout :
      (s : S.State) (name : String) → S.does_exist s name ≡ is_some (S.timeout s name)
  pub add_fresh :
      (s : S.State) (name : String) (delay : ℕ)
      → S.timeout s name ≡ none
      → Resolves
          (S.add_timeout s name delay)
          λ t. (n : String) → S.timeout t n ≡ (if n == name then some delay else S.timeout s n)
  pub add_taken :
      (s : S.State) (name : String) (delay old : ℕ)
      → S.timeout s name ≡ some old
      → (e : Throwable) × (S.add_timeout s name delay ≡ rejected e)
  pub delete_present :
      (s : S.State) (name : String) (old : ℕ)
      → S.timeout s name ≡ some old
      → Resolves
          (S.delete_timeout s name)
          λ t. (n : String) → S.timeout t n ≡ (if n == name then none else S.timeout s n)
  pub delete_absent :
      (s : S.State) (name : String)
      → S.timeout s name ≡ none
      → (e : Throwable) × (S.delete_timeout s name ≡ rejected e)
