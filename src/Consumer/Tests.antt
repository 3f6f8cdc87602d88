-- ===== src/Consumer/Tests.antt =====
-- The wait at two running jobs.
use account_service.Common.{ℕ, ◌≡◌, refl, Option, some, List, [], ◌∷◌, arith, string_eq}
use account_service.Consumer.{JobEvent, active, completed, failed, on_module_destroy}
use account_service.Consumer.Shutdown.{Ends, on_module_destroy-Ends}

-- Both jobs end during the first delay, and a third one begins and ends in it.
abbrev events : ℕ → List JobEvent
events round = completed "a" ∷ active "c" ∷ failed "b" ∷ completed "c" ∷ []

-- The first job ends while the worker closes.
abbrev closing : Option (List JobEvent)
closing = some (completed "a" ∷ [])

one_delay : on_module_destroy 21 closing events ("a" ∷ "b" ∷ []) ≡ some (1, [])
unfolding on_module_destroy string_eq
one_delay = refl

on_module_destroy-Ends_example : Ends 21 closing events ("a" ∷ "b" ∷ [])
on_module_destroy-Ends_example =
    on_module_destroy-Ends 21 closing events ("a" ∷ "b" ∷ []) (omega arith)
