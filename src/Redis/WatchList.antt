-- ===== src/Redis/WatchList.antt =====
-- The hash `txnWatchList` of Redis: the status of each submitted transaction, by its hash. The code
-- writes a status as its JSON and parses what it reads: the values here are the statuses.
use account_service.Common.{
  ℕ, ◌≡◌, refl, sym, ◌∙◌, ap, ◌↔◌, inl, inr, String, Option, none, some, List, [], ◌∷◌, ◌==◌,
  string_eq, if◌then◌else◌, length, suc, In, arith, ==_refl,
}
use account_service.Types.{TxStatus}

-- HVALS, HKEYS, HLEN, HGET, HSET and HDEL.
pub record WatchList : Type 1 where
  pub State : Type 0
  pub hvals : State → List TxStatus
  pub hkeys : State → List String
  pub hlen : State → ℕ
  pub hget : State → String → Option TxStatus
  pub hset : State → String → TxStatus → State
  pub hdel : State → String → State

-- The documented behaviour of the commands.
pub record IsWatchList (H : WatchList) : Type 0 where
  pub hget-hset :
      (s : H.State) (k : String) (v : TxStatus) (j : String)
      → H.hget (H.hset s k v) j ≡ (if j == k then some v else H.hget s j)
  pub hget-hdel :
      (s : H.State) (k j : String) → H.hget (H.hdel s k) j ≡ (if j == k then none else H.hget s j)
  pub hvals-hget :
      (s : H.State) (v : TxStatus) → In v (H.hvals s) ↔ ((k : String) × (H.hget s k ≡ some v))
  pub hlen-hvals : (s : H.State) → H.hlen s ≡ length (H.hvals s)
  pub length-hkeys : (s : H.State) → length (H.hkeys s) ≡ H.hlen s

-- A store that meets the assumptions: an association list without repeated keys.
abbrev pub Entries : Type 0
Entries = List (String × TxStatus)

abbrev pub lookup : String → Entries → Option TxStatus
lookup k [] = none
lookup k ((j, v) ∷ l) = if k == j then some v else lookup k l

abbrev pub erase : String → Entries → Entries
erase k [] = []
erase k ((j, v) ∷ l) = if k == j then erase k l else (j, v) ∷ erase k l

abbrev pub Distinct : Entries → Type 0
Distinct [] = Unit
Distinct ((k, v) ∷ l) = (lookup k l ≡ none) × Distinct l

lookup-erase :
    (k j : String) (l : Entries) → lookup j (erase k l) ≡ (if j == k then none else lookup j l)
lookup-erase k j [] = ground arith
lookup-erase k j ((i, v) ∷ l) = ground (arith, lookup-erase k j l)

pub erase-Distinct : (k : String) (l : Entries) → Distinct l → Distinct (erase k l)
erase-Distinct k [] d = tt
erase-Distinct k ((i, v) ∷ l) d = ground (arith, lookup-erase k i l, erase-Distinct k l d.1)

abbrev pub values : Entries → List TxStatus
values [] = []
values ((k, v) ∷ l) = v ∷ values l

values-lookup :
    (l : Entries) (v : TxStatus)
    → In v (values l)
    → Distinct l
    → (k : String) × (lookup k l ≡ some v)
values-lookup [] v i d = absurd i
values-lookup ((k, u) ∷ l) v (inl e) d = (k, ground arith)
values-lookup ((k, u) ∷ l) v (inr i) d = let (j, p) = values-lookup l v i d.1 in (j, ground arith)

lookup-values : (l : Entries) (v : TxStatus) (k : String) → lookup k l ≡ some v → In v (values l)
lookup-values [] v k e = cc
lookup-values ((j, u) ∷ l) v k e = ground (arith, lookup-values l v k)

length-values : (l : Entries) → length (values l) ≡ length l
length-values [] = refl
length-values ((k, v) ∷ l) = ap suc (length-values l)

abbrev pub key_list : Entries → List String
key_list [] = []
key_list ((k, v) ∷ l) = k ∷ key_list l

length-key_list : (l : Entries) → length (key_list l) ≡ length l
length-key_list [] = refl
length-key_list ((k, v) ∷ l) = ap suc (length-key_list l)

abbrev pub Table : Type 0
Table = (l : Entries) × Distinct l

pub put-Distinct :
    (k : String) (v : TxStatus) (l : Entries) → Distinct l → Distinct ((k, v) ∷ erase k l)
put-Distinct k v l d = (lookup-erase k k l ∙ rw (==_refl k), erase-Distinct k l d)

abbrev pub put : Table → String → TxStatus → Table
put (l, d) k v = ((k, v) ∷ erase k l, put-Distinct k v l d)

abbrev pub remove : Table → String → Table
remove (l, d) k = (erase k l, erase-Distinct k l d)

abbrev pub memory : WatchList
memory = record {
  State = Table;
  hvals = λ s. values s.0;
  hkeys = λ s. key_list s.0;
  hlen = λ s. length s.0;
  hget = λ s k. lookup k s.0;
  hset = put;
  hdel = remove;
}

pub memory-IsWatchList : IsWatchList memory
memory-IsWatchList = record {
  hget-hset = λ s k v j. ground (arith, lookup-erase k j s.0);
  hget-hdel = λ s k j. lookup-erase k j s.0;
  hvals-hget = λ s v. (λ i. values-lookup s.0 v i s.1, λ p. lookup-values s.0 v p.0 p.1);
  hlen-hvals = λ s. sym (length-values s.0);
  length-hkeys = λ s. length-key_list s.0;
}

-- One transaction is watched.
abbrev pub watching : String → TxStatus → memory.State
watching k v = ((k, v) ∷ [], (refl, tt))

abbrev pub nothing : memory.State
nothing = ([], tt)
