-- ===== src/Redis.antt =====
-- What the services ask of Redis: string keys with an expiry, and one hash. Redis is not in the
-- repository, so the two are interfaces: the components take them as parameters.
pub mod Memory
pub mod WatchList
use account_service.Common.{
  ℕ, ◌<◌, ◌≡◌, ◌≢◌, String, Option, none, some, List, ◌==◌, string_eq, if◌then◌else◌,
}

-- GET, SET, SETEX and EXISTS.
pub record Keyspace : Type 1 where
  pub State : Type 0
  pub get : State → String → Option String
  pub set : State → String → String → State
  pub setex : State → String → ℕ → String → State
  pub exists : State → String → ℕ

abbrev pub count_some : Option String → ℕ
count_some none = 0
count_some (some v) = 1

-- The documented behaviour of the four commands, at one moment: no key expires between them.
pub record IsKeyspace (K : Keyspace) : Type 0 where
  pub get-set :
      (s : K.State) (k v j : String)
      → K.get (K.set s k v) j ≡ (if j == k then some v else K.get s j)
  pub get-setex :
      (s : K.State) (k : String) (seconds : ℕ) (v j : String)
      → 0 < seconds
      → K.get (K.setex s k seconds v) j ≡ (if j == k then some v else K.get s j)
  -- also where SETEX refuses the number of seconds
  pub get-setex_other :
      (s : K.State) (k : String) (seconds : ℕ) (v j : String)
      → j ≢ k
      → K.get (K.setex s k seconds v) j ≡ K.get s j
  pub exists-get : (s : K.State) (k : String) → K.exists s k ≡ count_some (K.get s k)
