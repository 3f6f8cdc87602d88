-- ===== src/Startup/Outage.antt =====
-- When a process ends, told from what Redis did.
use account_service.Common.{
  ℕ, ◌+◌, ◌-◌, ◌<◌, ◌≤◌, ◌≡◌, refl, ◌∙◌, inl, inr, Bool, true, false, ◌||◌, ◌&&◌, Option, none,
  some, List, [], ◌∷◌, leb, if◌then◌else◌, arith, Bool-cases,
}
use account_service.Startup.{
  redis_timeout_ms, Main, api, worker, Signal, ready, close, redis_error, elapse, Process, start,
  signal, on_redis_ready, on_redis_close, pass, run, created, life,
}

-- The milliseconds until Redis is ready, or of the whole list if it never is.
abbrev pub away_for : List Signal → ℕ
away_for [] = 0
away_for (ready ∷ signals) = 0
away_for (close ∷ signals) = away_for signals
away_for (redis_error ∷ signals) = away_for signals
away_for (elapse ms ∷ signals) = ms + away_for signals

-- Redis closes a connection and is not ready again for 30 seconds.
abbrev pub has_outage : List Signal → Bool
has_outage [] = false
has_outage (close ∷ signals) = leb redis_timeout_ms (away_for signals) || has_outage signals
has_outage (ready ∷ signals) = has_outage signals
has_outage (redis_error ∷ signals) = has_outage signals
has_outage (elapse ms ∷ signals) = has_outage signals

abbrev pub total : List Signal → ℕ
total [] = 0
total (elapse ms ∷ signals) = ms + total signals
total (ready ∷ signals) = total signals
total (close ∷ signals) = total signals
total (redis_error ∷ signals) = total signals

abbrev pub was_ready : List Signal → Bool
was_ready [] = false
was_ready (ready ∷ signals) = true
was_ready (close ∷ signals) = was_ready signals
was_ready (redis_error ∷ signals) = was_ready signals
was_ready (elapse ms ∷ signals) = was_ready signals

abbrev process_of : Option ℕ → Bool → Bool → Bool → Process
process_of timer is_ready is_listening has_exited = record {
  redis_connect_timeout = timer;
  redis_ready = is_ready;
  listening = is_listening;
  exited = has_exited;
}

run_exited :
    (signals : List Signal) (timer : Option ℕ) (is_ready is_listening : Bool)
    → run signals (process_of timer is_ready is_listening true)
      ≡ process_of timer is_ready is_listening true
unfolding run
run_exited [] timer is_ready is_listening = refl
run_exited (s ∷ signals) timer is_ready is_listening = refl

abbrev ends : Option ℕ → List Signal → Bool
ends none signals = has_outage signals
ends (some left) signals = leb left (away_for signals) || has_outage signals

abbrev IsRunning : Option ℕ → Type 0
IsRunning none = Unit
IsRunning (some left) = (0 < left) × (left ≤ redis_timeout_ms)

leb-false : (left ms : ℕ) → leb left ms ≡ false → 0 < left - ms
leb-false left ms e = ground arith

listening-run :
    (signals : List Signal) (timer : Option ℕ) (is_ready : Bool)
    → IsRunning timer
    → (run signals (process_of timer is_ready true false)).exited ≡ ends timer signals
unfolding run signal on_redis_ready on_redis_close pass
listening-run [] none is_ready h = refl
listening-run [] (some left) is_ready h = ground arith
listening-run (ready ∷ signals) none is_ready h = listening-run signals none true tt
listening-run (ready ∷ signals) (some left) is_ready h =
    ground (arith, listening-run signals none true tt)
listening-run (close ∷ signals) none is_ready h =
    listening-run signals (some redis_timeout_ms) is_ready (omega arith, omega arith)
listening-run (close ∷ signals) (some left) is_ready h =
    ground (arith, listening-run signals (some left) is_ready h)
listening-run (redis_error ∷ signals) none is_ready h = listening-run signals none is_ready h
listening-run (redis_error ∷ signals) (some left) is_ready h =
    listening-run signals (some left) is_ready h
listening-run (elapse ms ∷ signals) none is_ready h = listening-run signals none is_ready h
listening-run (elapse ms ∷ signals) (some left) is_ready h = elim (Bool-cases (leb left ms)) [
  | inl over ↦ ground (arith, run_exited signals (some left) is_ready true)
  | inr more ↦ ground (
    arith,
    listening-run signals (some (left - ms)) is_ready (leb-false left ms more, omega arith),
  )
]

-- Before the application is created only the time counts, and that Redis was ready is noted.
before_exits :
    (signals : List Signal) (left : ℕ) (is_ready : Bool)
    → 0 < left
    → leb left (total signals) ≡ true
    → (run signals (process_of (some left) is_ready false false)).exited ≡ true
unfolding run signal on_redis_ready on_redis_close pass
before_exits [] left is_ready h over = ground arith
before_exits (ready ∷ signals) left is_ready h over = before_exits signals left true h over
before_exits (close ∷ signals) left is_ready h over = before_exits signals left is_ready h over
before_exits (redis_error ∷ signals) left is_ready h over =
    before_exits signals left is_ready h over
before_exits (elapse ms ∷ signals) left is_ready h over = elim (Bool-cases (leb left ms)) [
  | inl now ↦ ground (arith, run_exited signals (some left) is_ready false)
  | inr later ↦ ground (arith, before_exits signals (left - ms) is_ready)
]

before_runs :
    (signals : List Signal) (left : ℕ) (is_ready : Bool)
    → leb left (total signals) ≡ false
    → run signals (process_of (some left) is_ready false false)
      ≡ process_of (some (left - total signals)) (is_ready || was_ready signals) false false
unfolding run signal on_redis_ready on_redis_close pass
before_runs [] left is_ready more = ground arith
before_runs (ready ∷ signals) left is_ready more =
    ground (arith, before_runs signals left true more)
before_runs (close ∷ signals) left is_ready more = before_runs signals left is_ready more
before_runs (redis_error ∷ signals) left is_ready more = before_runs signals left is_ready more
before_runs (elapse ms ∷ signals) left is_ready more = elim (Bool-cases (leb left ms)) [
  | inl now ↦ ground arith
  | inr later ↦ ground (arith, before_runs signals (left - ms) is_ready)
]

run_exited-stays :
    (signals : List Signal) (p : Process) → p.exited ≡ true → (run signals p).exited ≡ true
unfolding run
run_exited-stays [] p e = e
run_exited-stays (s ∷ signals) p e = ground arith

created-exited : (main : Main) (p : Process) → (created main p).exited ≡ p.exited
unfolding created
created-exited api p = refl
created-exited worker p = ground arith

-- The worker looks whether Redis was ready before its listeners stand; the API does not.
abbrev looks : Main → Bool
looks api = false
looks worker = true

-- What ends a process, from what Redis did.
abbrev pub ends_process : Main → List Signal → List Signal → Bool
ends_process main before after =
    leb redis_timeout_ms (total before)
    || (if looks main && was_ready before
        then has_outage after
        else leb redis_timeout_ms (total before + away_for after) || has_outage after)

created-ends :
    (main : Main) (after : List Signal) (spent : ℕ) (is_ready : Bool)
    → spent < redis_timeout_ms
    → (run after
        (created main (process_of (some (redis_timeout_ms - spent)) is_ready false false))).exited
      ≡ (if looks main && is_ready
          then has_outage after
          else leb redis_timeout_ms (spent + away_for after) || has_outage after)
unfolding created
created-ends api after spent is_ready h = ground (
  arith,
  listening-run after (some (redis_timeout_ms - spent)) is_ready (omega arith, omega arith),
)
created-ends worker after spent is_ready h = ground (
  arith,
  listening-run after none is_ready tt,
  listening-run after (some (redis_timeout_ms - spent)) is_ready (omega arith, omega arith),
)

-- A process ends if, and only if, 30 seconds pass before its application is created, or Redis is
-- away for 30 seconds after it closed a connection that the listeners saw, or it is not ready within
-- 30 seconds of the start; but the worker counts a Redis that was ready before the listeners stood as
-- ready, and the API does not.
pub life-ends_process :
    (main : Main) (before after : List Signal)
    → (life main before after).exited ≡ ends_process main before after
unfolding life
life-ends_process main before after = elim (Bool-cases (leb redis_timeout_ms (total before))) [
  | inl over ↦
      let ended = before_exits before redis_timeout_ms false (omega arith) over in
      rw over (
        run_exited-stays after (created main (run before start))
          (created-exited main (run before start) ∙ ended))
  | inr more ↦
      rw (more, before_runs before redis_timeout_ms false more)
        (created-ends main after (total before) (was_ready before)
          (omega (arith, leb-false redis_timeout_ms (total before) more)))
]

-- Where the one signal before the listeners of a process stand is that Redis is ready, and no
-- connection is closed for 30 seconds afterwards: the worker goes on, but the API ends if no further
-- ready event comes within 30 seconds; and where a close is the second of two such signals, the worker
-- does not end either, however long Redis stays away.
pub life-ready_early :
    (after : List Signal)
    → has_outage after ≡ false
    → ((life worker (ready ∷ []) after).exited ≡ false)
      × ((life api (ready ∷ []) after).exited ≡ leb redis_timeout_ms (away_for after))
      × ((life worker (ready ∷ close ∷ []) after).exited ≡ false)
life-ready_early after e = (
  life-ends_process worker (ready ∷ []) after ∙ e,
  life-ends_process api (ready ∷ []) after ∙ ground arith,
  life-ends_process worker (ready ∷ close ∷ []) after ∙ e,
)
