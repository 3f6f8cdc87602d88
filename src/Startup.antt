-- ===== src/Startup.antt =====
-- The timers of apps/worker/src/main.ts and apps/api/src/main.ts, with redisEventsToEventEmitter of
-- libs/common/src/utils/redis.ts: a process ends when Redis stays away.
pub mod Outage
mod Tests
use account_service.Common.{
  ℕ, ◌-◌, Bool, true, false, Option, none, some, List, [], ◌∷◌, leb, if◌then◌else◌,
}

abbrev pub redis_timeout_ms : ℕ
redis_timeout_ms = 30000

-- The two processes.
pub data Main : Type 0 where
  api worker : Main

-- What the client of Redis emits, and the milliseconds that pass.
pub data Signal : Type 0 where
  ready close redis_error : Signal
  elapse : ℕ → Signal

pub record Process : Type 0 where
  -- `redisConnectTimeout`: the milliseconds that are left, `none` for null
  pub redis_connect_timeout : Option ℕ
  -- of libs/common/src/utils/redis.ts
  pub redis_ready : Bool
  -- the listeners of the event emitter are registered
  pub listening : Bool
  pub exited : Bool

-- `bootstrap`, up to the call that creates the application.
abbrev pub start : Process
start = record {
  redis_connect_timeout = some redis_timeout_ms;
  redis_ready = false;
  listening = false;
  exited = false;
}

-- The two listeners of `bootstrap`.
on_redis_ready : Process → Process
on_redis_ready p = if p.listening then record p { redis_connect_timeout = none } else p

on_redis_close : Process → Process
on_redis_close p = elim p.redis_connect_timeout [
  | none ↦ if p.listening then record p { redis_connect_timeout = some redis_timeout_ms } else p
  | some left ↦ p
]

-- The timer of Node: `process.exit(1)` when its time has come.
pass : ℕ → Process → Process
pass ms p = elim p.redis_connect_timeout [
  | none ↦ p
  | some left ↦
      if leb left ms
      then record p { exited = true }
      else record p { redis_connect_timeout = some (left - ms) }
]

signal : Signal → Process → Process
unfolding on_redis_ready on_redis_close pass
signal ready p = on_redis_ready (record p { redis_ready = true })
signal close p = on_redis_close p
signal redis_error p = p
signal (elapse ms) p = pass ms p

-- Nothing happens in a process that has ended.
pub run : List Signal → Process → Process
unfolding signal
run [] p = p
run (s ∷ signals) p = if p.exited then p else run signals (signal s p)

-- `bootstrap`, when the application is created: the worker looks whether Redis was ready already.
pub created_api : Process → Process
created_api p = record p { listening = true }

pub created_worker : Process → Process
created_worker p =
    if p.redis_ready
    then record p { redis_connect_timeout = none; listening = true }
    else record p { listening = true }

pub created : Main → Process → Process
unfolding created_api created_worker
created api p = created_api p
created worker p = created_worker p

-- A process, by what happens before the application is created and after it.
unfoldable pub life : Main → List Signal → List Signal → Process
unfolding run created
life main before after = run after (created main (run before start))
