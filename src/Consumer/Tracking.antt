-- ===== src/Consumer/Tracking.antt =====
-- How long an id stays in the set of running jobs.
use account_service.Common.{
  ℕ, zero, suc, ◌+◌, ◌≡◌, String, true, false, List, [], ◌∷◌, ◌==◌, ==_refl, string_eq, All, any,
  arith,
}
use account_service.Consumer.{
  JobEvent, active, completed, failed, track_job, un_track_job, on_event, on_events,
}
use account_service.Consumer.Shutdown.{running}

abbrev pub Tracked : String → List String → Type 0
Tracked id actives = any (λ j. j == id) actives ≡ true

-- The event does not say that the job has ended.
abbrev pub Spares : String → JobEvent → Type 0
Spares id (active j) = Unit
Spares id (completed j) = (id == j) ≡ false
Spares id (failed j) = (id == j) ≡ false

track_job-Tracked_self : (id : String) (actives : List String) → Tracked id (track_job id actives)
unfolding track_job
track_job-Tracked_self id actives = ground (arith, ==_refl id)

track_job-Tracked :
    (id j : String) (actives : List String) → Tracked id actives → Tracked id (track_job j actives)
unfolding track_job
track_job-Tracked id j actives t = ground arith

un_track_job-Tracked :
    (id j : String) (actives : List String)
    → (id == j) ≡ false
    → Tracked id actives
    → Tracked id (un_track_job j actives)
unfolding un_track_job
un_track_job-Tracked id j [] other t = t
un_track_job-Tracked id j (x ∷ xs) other t = ground (arith, un_track_job-Tracked id j xs other)

pub on_events-Tracked :
    (id : String) (events : List JobEvent) (actives : List String)
    → All (Spares id) events
    → Tracked id actives
    → Tracked id (on_events events actives)
unfolding on_events on_event
on_events-Tracked id [] actives spared t = t
on_events-Tracked id (active j ∷ es) actives spared t =
    on_events-Tracked id es (track_job j actives) spared.1 (track_job-Tracked id j actives t)
on_events-Tracked id (completed j ∷ es) actives spared t =
    on_events-Tracked id es (un_track_job j actives) spared.1
      (un_track_job-Tracked id j actives spared.0 t)
on_events-Tracked id (failed j ∷ es) actives spared t =
    on_events-Tracked id es (un_track_job j actives) spared.1
      (un_track_job-Tracked id j actives spared.0 t)

pub running-Tracked :
    (id : String) (round delays : ℕ) (events : ℕ → List JobEvent) (actives : List String)
    → ((n : ℕ) → All (Spares id) (events n))
    → Tracked id actives
    → Tracked id (running round delays events actives)
running-Tracked id round zero events actives spared t = t
running-Tracked id round (suc delays) events actives spared t =
    running-Tracked id (round + 1) delays events (on_events (events round) actives) spared
      (on_events-Tracked id (events round) actives (spared round) t)

pub active-Tracked :
    (id : String) (actives : List String) → Tracked id (on_events (active id ∷ []) actives)
unfolding on_events
active-Tracked id actives = track_job-Tracked_self id actives
