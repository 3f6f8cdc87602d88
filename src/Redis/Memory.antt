-- ===== src/Redis/Memory.antt =====
-- A store that meets the assumptions on Redis.
use account_service.Common.{refl, String, Option, none, some, ◌==◌, ==_ne, string_eq, if◌then◌else◌}
use account_service.Redis.{Keyspace, IsKeyspace, count_some}

abbrev write : (String → Option String) → String → String → String → Option String
write s k v j = if j == k then some v else s j

abbrev pub memory : Keyspace
memory = record {
  State = String → Option String;
  get = λ s k. s k;
  set = write;
  setex = λ s k seconds v. write s k v;
  exists = λ s k. count_some (s k);
}

pub memory-IsKeyspace : IsKeyspace memory
memory-IsKeyspace = record {
  get-set = λ s k v j. refl;
  get-setex = λ s k seconds v j h. refl;
  get-setex_other = λ s k seconds v j ne. rw (==_ne j k ne);
  exists-get = λ s k. refl;
}

-- Nothing is stored.
abbrev pub empty : memory.State
empty k = none
