-- ===== src/Consumer/Shutdown.antt =====
-- Why the wait ends, and after how long.
use account_service.Common.{
  ℕ, zero, suc, ◌+◌, ◌-◌, ◌*◌, ◌≤◌, ◌<◌, ◌≡◌, refl, ap, ◌∙◌, ◌⊎◌, inl, inr, String, true, false,
  Option, none, some, List, [], ◌∷◌, string_eq, length, ltb, arith, Bool-cases, lt→ltb,
}
use account_service.Consumer.{
  max_wait_for_grace_full_shutdown_ms, delay_to_check_for_shutdown_ms, JobEvent, on_events,
  wait_loop, on_module_destroy,
}

-- The jobs that run after a number of delays, the first of which is `round`.
abbrev pub running : ℕ → ℕ → (ℕ → List JobEvent) → List String → List String
running round zero events actives = actives
running round (suc delays) events actives =
    running (round + 1) delays events (on_events (events round) actives)

length-nil : (xs : List String) → ltb 0 (length xs) ≡ false → xs ≡ []
length-nil [] e = refl
length-nil (x ∷ xs) e = ground arith

wait_loop-again :
    (fuel k round : ℕ) (events : ℕ → List JobEvent) (actives : List String)
    → ltb 0 (length actives) ≡ true
    → wait_loop (suc fuel) (delay_to_check_for_shutdown_ms * suc k) round events actives
      ≡ wait_loop fuel
          (delay_to_check_for_shutdown_ms * k)
          (round + 1)
          events
          (on_events (events round) actives)
unfolding wait_loop
wait_loop-again fuel k round events actives e =
    let left : delay_to_check_for_shutdown_ms * suc k - delay_to_check_for_shutdown_ms
        ≡ delay_to_check_for_shutdown_ms * k =
      omega arith in
    let positive : ltb 0 (delay_to_check_for_shutdown_ms * suc k) ≡ true =
      lt→ltb 0 (delay_to_check_for_shutdown_ms * suc k) (omega arith) in
    rw (e, positive, left)

wait_loop-ends :
    (fuel k round : ℕ) (events : ℕ → List JobEvent) (actives : List String)
    → k < fuel
    → (delays : ℕ) × (delays ≤ k)
      × (wait_loop fuel (delay_to_check_for_shutdown_ms * k) round events actives
          ≡ some (round + delays, running round delays events actives))
      × ((running round delays events actives ≡ []) ⊎ (delays ≡ k))
unfolding wait_loop
wait_loop-ends zero k round events actives bound = absurd (omega arith)
wait_loop-ends (suc fuel) zero round events actives bound = (0, omega arith, ground arith, inr refl)
wait_loop-ends (suc fuel) (suc k) round events actives bound =
    elim (Bool-cases (ltb 0 (length actives))) [
      | inr idle ↦ (
        0,
        omega arith,
        rw idle (ap (λ (n : ℕ). some (n, actives)) (omega arith)),
        inl (length-nil actives idle),
      )
      | inl busy ↦
          let (delays, low, e, why) =
            wait_loop-ends fuel k (round + 1) events (on_events (events round) actives)
              (omega arith) in
          (
            suc delays,
            omega arith,
            wait_loop-again fuel k round events actives busy
                ∙ e
                ∙ ap
                    (λ (n : ℕ).
                      some
                        (n, running (round + 1) delays events (on_events (events round) actives)))
                    (omega arith),
            elim why [ inl done ↦ inl done | inr same ↦ inr (ap suc same) ],
          )
    ]

-- What the method comes to, by the close of the worker.
abbrev pub Ends : ℕ → Option (List JobEvent) → (ℕ → List JobEvent) → List String → Type 0
Ends fuel none events actives = on_module_destroy fuel none events actives ≡ none
Ends fuel (some es) events actives =
    let left = on_events es actives in
    (delays : ℕ) × (delays * delay_to_check_for_shutdown_ms ≤ max_wait_for_grace_full_shutdown_ms)
    × (on_module_destroy fuel (some es) events actives
        ≡ some (delays, running 0 delays events left))
    × ((running 0 delays events left ≡ [])
        ⊎ (delays * delay_to_check_for_shutdown_ms ≡ max_wait_for_grace_full_shutdown_ms))

-- With fuel for 21 rounds, the wait for the running jobs ends once the worker has closed, whatever
-- events come while it closes and while the wait lasts: after some number of delays, 6 seconds at
-- most, with the jobs that then run, and these are none, or the 6 seconds are over. Where the worker
-- does not close, the method does not end: nothing bounds its close.
pub on_module_destroy-Ends :
    (fuel : ℕ) (closing : Option (List JobEvent)) (events : ℕ → List JobEvent)
    (actives : List String)
    → 20 < fuel
    → Ends fuel closing events actives
unfolding on_module_destroy
on_module_destroy-Ends fuel none events actives bound = refl
on_module_destroy-Ends fuel (some es) events actives bound =
    let left = on_events es actives in
    let (delays, low, e, why) = wait_loop-ends fuel 20 0 events left bound in
    (
      delays,
      omega arith,
      e ∙ ap (λ (n : ℕ). some (n, running 0 delays events left)) (omega arith),
      elim why [ inl done ↦ inl done | inr same ↦ inr (omega (arith, same)) ],
    )
