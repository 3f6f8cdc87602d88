-- ===== src/Worker/Nonces.antt =====
-- The nonces that the worker submits extrinsics with, along any order of its jobs and blocks.
use account_service.Common.{
  ℕ, ◌+◌, ◌<◌, ◌≡◌, refl, sym, ap, ◌∙◌, ◌⊎◌, inl, inr, List, [], ◌∷◌, ◌++◌, In, arith,
}
use account_service.Js.{Throwable, Outcome, resolved, rejected, resolved-injective}
use account_service.Redis.{Keyspace, IsKeyspace}
use account_service.Redis.WatchList.{WatchList}
use account_service.Scheduler.{Scheduler}
use account_service.Nonce.{get_next_nonce, Index, number_of_nonce_keys_to_check}
use account_service.Nonce.Search.{suffix, IsLocked, IsFree, locked_by, get_next_nonce-Taken}
use account_service.Nonce.Unique.{KeepsLocks, locked_by_self, AllLocked-at, free-locked}
use account_service.Publisher.Planning.{Extrinsic}
use account_service.Publisher.Submit.{check_capacity-Same}
use account_service.Publisher.Nonces.{process-Numbered}
use account_service.Worker.{
  Worker, publisher, after_job, Step, job, check, block, record_block, outside, Reaches, here, next,
}
use account_service.Worker.Keys.{
  get_next_nonce-rejected, after_job-KeepsLocks, after_block-KeepsLocks, after_record-KeepsLocks,
}

abbrev pub nonces : List (Extrinsic × ℕ) → List ℕ
nonces [] = []
nonces ((extrinsic, nonce) ∷ submitted) = nonce ∷ nonces submitted

nonces-append : (xs ys : List (Extrinsic × ℕ)) → nonces (xs ++ ys) ≡ nonces xs ++ nonces ys
nonces-append [] ys = refl
nonces-append ((x, n) ∷ xs) ys = ap (◌∷◌ n) (nonces-append xs ys)

-- No entry stands twice in the list.
abbrev pub NoRepeats : List ℕ → Type 0
NoRepeats [] = Unit
NoRepeats (n ∷ ns) = (In n ns → ⊥) × NoRepeats ns

In-snoc : (m n : ℕ) (ns : List ℕ) → In m (ns ++ (n ∷ [])) → In m ns ⊎ (m ≡ n)
In-snoc m n [] (inl e) = inr e
In-snoc m n [] (inr i) = absurd i
In-snoc m n (k ∷ ns) (inl e) = inl (inl e)
In-snoc m n (k ∷ ns) (inr i) = elim (In-snoc m n ns i) [ inl j ↦ inl (inr j) | inr e ↦ inr e ]

NoRepeats-snoc : (n : ℕ) (ns : List ℕ) → NoRepeats ns → (In n ns → ⊥) → NoRepeats (ns ++ (n ∷ []))
NoRepeats-snoc n [] d new = ((λ i. i), tt)
NoRepeats-snoc n (k ∷ ns) (first, d) new = (
  λ i. elim (In-snoc k n ns i) [ inl j ↦ first j | inr e ↦ new (inl (sym e)) ],
  NoRepeats-snoc n ns d (λ i. new (inr i)),
)

rejected≢resolved :
    {C : Type 0} {t : Throwable} {n : ℕ} {a b : C}
    → Path (Outcome ℕ × C) (rejected t, a) (resolved n, b)
    → ⊥
rejected≢resolved e = ground arith

module _ (K : Keyspace) (H : WatchList) (S : Scheduler) where
  -- One of the 50 keys of this answer is free.
  abbrev pub HasRoom : K.State → Index → Type 0
  HasRoom s c = (k : ℕ) × (k < number_of_nonce_keys_to_check) × IsFree K s (suffix c k)

  module _ (c : Index) where
    -- What a step takes: that the chain still gives this answer to a job, room for its nonce, and no
    -- lock that expires.
    abbrev pub IsTimely : {w u : Worker K H S} → Step K H S w u → Type 0
    IsTimely {w} (job world job_id d) =
        (d : Index) → world.chain_nonce ≡ resolved d → (d ≡ c) × HasRoom w.cache c
    IsTimely (check world) = Unit
    IsTimely (block chain hash number) = Unit
    IsTimely (record_block chain number) = Unit
    IsTimely {w} (outside cache) = KeepsLocks K w.cache cache

    abbrev pub AllTimely : {w u : Worker K H S} → Reaches K H S w u → Type 0
    AllTimely here = Unit
    AllTimely (next run step) = AllTimely run × IsTimely step

    -- The nonce is one of the window, and its key is there.
    abbrev pub IsReserved : K.State → ℕ → Type 0
    IsReserved s n = (k : ℕ) × (n ≡ c.number + k) × IsLocked K s (suffix c k)

    -- The submitted nonces are distinct and still locked.
    record IsNumbered (w : Worker K H S) : Type 0 where
      distinct : NoRepeats (nonces w.submitted)
      locked : (n : ℕ) → In n (nonces w.submitted) → IsReserved w.cache n

    IsReserved-kept : (s t : K.State) (n : ℕ) → KeepsLocks K s t → IsReserved s n → IsReserved t n
    IsReserved-kept s t n kept (k, e, l) = (k, e, kept (suffix c k) l)

    module _ (L : IsKeyspace K) where
      -- A nonce that a call returns is none of those that are locked, and is locked afterwards.
      get_next_nonce-new :
          (answer : Outcome Index) (s : K.State) (nonce : ℕ) (s' : K.State)
          → ((d : Index) → answer ≡ resolved d → (d ≡ c) × HasRoom s c)
          → get_next_nonce K answer s ≡ (resolved nonce, s')
          → (k : ℕ) × (nonce ≡ c.number + k) × IsFree K s (suffix c k) × IsLocked K s' (suffix c k)
      get_next_nonce-new (rejected t) s nonce s' room e =
          absurd (rejected≢resolved (sym (get_next_nonce-rejected K t s) ∙ e))
      get_next_nonce-new (resolved d) s nonce s' room e =
          let (same_answer, (j, less_j, free_j)) = room d refl in
          let at_c = ap (λ (x : Index). get_next_nonce K (resolved x) s) (sym same_answer) ∙ e in
          elim (get_next_nonce-Taken K c L s) [
            | inl (k, less, before, free, taken) ↦
                let both : (resolved (c.number + k), locked_by K s (suffix c k))
                    ≡ (resolved nonce, s') =
                  sym taken ∙ at_c in
                let same : c.number + k ≡ nonce = resolved-injective (ap (λ o. o.0) both) in
                let after : locked_by K s (suffix c k) ≡ s' = ap (λ o. o.1) both in
                (k, sym same, free, rw (← after) (locked_by_self K L s (suffix c k)))
            | inr (all, taken) ↦ absurd (
                free-locked K s (suffix c j) (suffix c j) refl free_j
                  (AllLocked-at K c s _ j all less_j))
          ]

      IsNumbered-kept :
          (w u : Worker K H S)
          → u.submitted ≡ w.submitted
          → KeepsLocks K w.cache u.cache
          → IsNumbered w
          → IsNumbered u
      IsNumbered-kept w u same kept i = record {
        distinct = rw same i.distinct;
        locked = λ n h. IsReserved-kept w.cache u.cache n kept (i.locked n (rw same at h));
      }

      Step-IsNumbered :
          {w u : Worker K H S}
          → (step : Step K H S w u) → IsTimely step
          → IsNumbered w
          → IsNumbered u
      Step-IsNumbered {w} (job world job_id d) room i =
          let kept = after_job-KeepsLocks K L H S w world job_id d in
          elim (process-Numbered K H S world job_id d (publisher K H S w)) [
            | inl same ↦ IsNumbered-kept w _ same kept i
            | inr (extrinsic, nonce, taken, sent) ↦
                let (k, at, free, lock) =
                  get_next_nonce-new world.chain_nonce w.cache nonce
                    (after_job K H S world job_id d w).cache room taken in
                let new : In nonce (nonces w.submitted) → ⊥ = λ h.
                  let (j, at', l) = i.locked nonce h in
                  let positions : k ≡ j = omega (arith, at, at') in
                  free-locked K w.cache (suffix c k) (suffix c j) (ap (suffix c) positions) free
                    l in
                let numbers =
                  ap nonces sent ∙ nonces-append w.submitted ((extrinsic, nonce) ∷ []) in
                record {
                  distinct = rw numbers (NoRepeats-snoc nonce (nonces w.submitted) i.distinct new);
                  locked = λ n h. elim (In-snoc n nonce (nonces w.submitted) (rw numbers at h)) [
                    | inl before ↦
                        IsReserved-kept w.cache (after_job K H S world job_id d w).cache n kept
                          (i.locked n before)
                    | inr same ↦ (k, same ∙ at, lock)
                  ];
                }
          ]
      Step-IsNumbered {w} (check world) timely i =
          let (submitted, watched, cache) = check_capacity-Same K H S world (publisher K H S w) in
          IsNumbered-kept w _ submitted (λ n l. rw cache l) i
      Step-IsNumbered {w} (block chain hash number) timely i =
          IsNumbered-kept w _ refl (after_block-KeepsLocks K L H S w chain hash number) i
      Step-IsNumbered {w} (record_block chain number) timely i =
          IsNumbered-kept w _ refl (after_record-KeepsLocks K L H S w chain number) i
      Step-IsNumbered {w} (outside cache) kept i = IsNumbered-kept w _ refl kept i

      AllTimely-IsNumbered :
          {w u : Worker K H S}
          → (run : Reaches K H S w u) → AllTimely run
          → IsNumbered w
          → IsNumbered u
      AllTimely-IsNumbered here timely i = i
      AllTimely-IsNumbered (next run step) (before, timely) i =
          Step-IsNumbered step timely (AllTimely-IsNumbered run before i)

      -- From a worker that has submitted nothing, in whatever order jobs, tests of the capacity, blocks
      -- and writes of others come: while the chain gives one answer to all jobs, no lock expires, and
      -- each job finds one of the 50 keys of the answer free, no nonce is submitted twice, and the keys
      -- of all that were submitted are still there.
      pub submitted-NoRepeats :
          {w u : Worker K H S}
          → (run : Reaches K H S w u) → AllTimely run
          → w.submitted ≡ []
          → NoRepeats (nonces u.submitted)
            × ((n : ℕ) → In n (nonces u.submitted) → IsReserved u.cache n)
      submitted-NoRepeats {w} run timely none_yet =
          let start : IsNumbered w = record {
            distinct = rw none_yet tt;
            locked = λ n i. absurd (rw none_yet at i);
          } in
          let i = AllTimely-IsNumbered run timely start in (i.distinct, i.locked)
