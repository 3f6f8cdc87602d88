-- ===== src/Startup/Tests.antt =====
-- The theorems on the processes at a few runs.
use account_service.Common.{◌≡◌, refl, true, false, List, [], ◌∷◌}
use account_service.Startup.{api, worker, Signal, ready, close, redis_error, elapse, life}
use account_service.Startup.Outage.{ends_process, life-ends_process}

-- Redis is ready after a second, and away for twice twenty seconds.
abbrev two_short_outages : List Signal
two_short_outages =
    elapse 1000
    ∷ ready
    ∷ close
    ∷ elapse 20000
    ∷ ready
    ∷ close
    ∷ redis_error
    ∷ elapse 20000
    ∷ ready
    ∷ []

goes_on : (life worker (elapse 500 ∷ []) two_short_outages).exited ≡ false
unfolding life
goes_on = refl

ends_in_an_outage : (life api (elapse 500 ∷ []) (ready ∷ close ∷ elapse 30000 ∷ [])).exited ≡ true
unfolding life
ends_in_an_outage = refl

life-ends_process_example :
    (life worker (elapse 500 ∷ []) two_short_outages).exited
    ≡ ends_process worker (elapse 500 ∷ []) two_short_outages
life-ends_process_example = life-ends_process worker (elapse 500 ∷ []) two_short_outages
