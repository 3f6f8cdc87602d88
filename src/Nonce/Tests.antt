-- ===== src/Nonce/Tests.antt =====
-- The theorems on nonces at concrete inputs.
use account_service.Common.{ℕ, ◌≡◌, ◌≢◌, refl, arith, ℕ_discrete, string_eq}
use account_service.Js.{resolved}
use account_service.Redis.Memory.{memory, memory-IsKeyspace, empty}
use account_service.Nonce.{get_next_nonce}
use account_service.Nonce.Search.{Taken, get_next_nonce-Taken}
use account_service.Nonce.Unique.{KeepsLocks, get_next_nonce_fresh}
use account_service.Nonce.Repeats.{index_of, get_next_nonce-repeats}

get_next_nonce-Taken_example :
    Taken memory
      (index_of 7)
      memory-IsKeyspace
      empty
      (get_next_nonce memory (resolved (index_of 7)) empty)
get_next_nonce-Taken_example = get_next_nonce-Taken memory (index_of 7) memory-IsKeyspace empty

abbrev after_first : memory.State
after_first = (get_next_nonce memory (resolved (index_of 7)) empty).1

first_nonce : (get_next_nonce memory (resolved (index_of 7)) empty).0 ≡ resolved 7
unfolding get_next_nonce ℕ_discrete
first_nonce = refl

second_nonce : (get_next_nonce memory (resolved (index_of 7)) after_first).0 ≡ resolved 8
unfolding get_next_nonce ℕ_discrete string_eq
second_nonce = refl

-- The chain still answers 7, and the second call returns 8.
get_next_nonce_fresh_example : ◌≢◌ {A = ℕ} 7 8
get_next_nonce_fresh_example =
    get_next_nonce_fresh memory memory-IsKeyspace empty after_first (index_of 7) 7 8 first_nonce
      (λ suffix locked. locked) second_nonce (omega arith) (omega arith)

-- Nonce 8 twice: under the key of "71", and under the key of "80".
get_next_nonce-repeats_example :
    let (first, t) = get_next_nonce memory (resolved (index_of 7)) empty in
    let (second, u) = get_next_nonce memory (resolved (index_of 7)) t in
    let (third, v) = get_next_nonce memory (resolved (index_of 8)) u in
    (first ≡ resolved 7)
    × (second ≡ resolved 8)
    × (third ≡ resolved 8)
    × KeepsLocks memory empty t
    × KeepsLocks memory t u
    × KeepsLocks memory u v
get_next_nonce-repeats_example =
    get_next_nonce-repeats memory memory-IsKeyspace empty 7 refl refl refl
