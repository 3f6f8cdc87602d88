-- ===== src/Worker/Taken.antt =====
-- When a transaction stops being watched.
use account_service.Common.{
  ℕ, ◌≡◌, refl, sym, ap, ◌∙◌, ◌⊎◌, inl, inr, String, true, ◌||◌, none, some, List, string_eq, leb,
  arith, Option-cases,
}
use account_service.Js.{resolved}
use account_service.Redis.{Keyspace}
use account_service.Redis.WatchList.{WatchList, IsWatchList}
use account_service.Scheduler.{Scheduler}
use account_service.Types.{TxStatus}
use account_service.Notifier.Watch.{elem}
use account_service.Worker.{
  Worker, Step, job, check, block, record_block, outside, Reaches, here, next,
}
use account_service.Worker.Watch.{
  View, Event, watched, settled, quiet, apply, view, IsKeyed, Refines, Step-Refines,
  Reaches-AllRefine,
}

module _ (K : Keyspace) (H : WatchList) (S : Scheduler) where
  module _ (L : IsWatchList H) where
    -- A block of the run takes the status of the transaction: it holds the transaction, or it is at the
    -- death of the status that is watched then or past it.
    abbrev pub IsTaken : {w u : Worker K H S} → Reaches K H S w u → String → Type 0
    IsTaken here k = ⊥
    IsTaken (next {t} run (block chain hash number)) k =
        IsTaken run k
        ⊎ ((hashes : List String) × (v : TxStatus) × (chain.get_block hash ≡ resolved hashes)
            × (view K H S t k ≡ some v)
            × ((elem k hashes || leb v.death number) ≡ true))
    IsTaken (next run (job world job_id d)) k = IsTaken run k
    IsTaken (next run (check world)) k = IsTaken run k
    IsTaken (next run (record_block chain number)) k = IsTaken run k
    IsTaken (next run (outside cache)) k = IsTaken run k

    IsTaken-next :
        {w t u : Worker K H S}
        → (run : Reaches K H S w t) (step : Step K H S t u) → (k : String) → IsTaken run k
        → IsTaken (next run step) k
    IsTaken-next run (job world job_id d) k taken = taken
    IsTaken-next run (check world) k taken = taken
    IsTaken-next run (block chain hash number) k taken = inl taken
    IsTaken-next run (record_block chain number) k taken = taken
    IsTaken-next run (outside cache) k taken = taken

    -- An event under which a status disappears.
    settles :
        (event : Event) (before : View) (k : String) (v : TxStatus)
        → before k ≡ some v
        → apply event before k ≡ none
        → (hashes : List String) × (number : ℕ) × (event ≡ settled hashes number)
          × ((elem k hashes || leb v.death number) ≡ true)
    settles (watched j u) before k v there gone = ground arith
    settles (settled hashes number) before k v there gone = (hashes, number, refl, ground arith)
    settles quiet before k v there gone = ground arith

    Refines-IsTaken :
        {w t u : Worker K H S}
        → (run : Reaches K H S w t) (step : Step K H S t u) (hashes : List String) (number : ℕ)
        → Refines K H S step (settled hashes number)
        → (k : String) (v : TxStatus) → view K H S t k ≡ some v
        → (elem k hashes || leb v.death number) ≡ true
        → IsTaken (next run step) k
    Refines-IsTaken run (job world job_id d) hashes n r k v there ended = absurd r
    Refines-IsTaken run (check world) hashes n r k v there ended = ground arith
    Refines-IsTaken run (block chain hash number) hashes n (done, read, same) k v there ended =
        inr (hashes, v, read, there, rw same at ended)
    Refines-IsTaken run (record_block chain number) hashes n r k v there ended = ground arith
    Refines-IsTaken run (outside cache) hashes n r k v there ended = ground arith

    -- No status is lost: along a run from a watch list whose statuses stand under their own hashes, a
    -- transaction that is watched at the beginning and not at the end was
    -- taken by a block of the run that could be read, and that holds the transaction or has reached the
    -- death of the status.
    pub unwatched-IsTaken :
        {w u : Worker K H S}
        → (run : Reaches K H S w u) → IsKeyed K H S w
        → (k : String) (v : TxStatus) → view K H S w k ≡ some v
        → view K H S u k ≡ none
        → IsTaken run k
    unwatched-IsTaken here keyed k v there gone = ground arith
    unwatched-IsTaken (next {t} run step) keyed k v there gone =
        elim (Option-cases (view K H S t k)) [
          | inl earlier ↦ IsTaken-next run step k (unwatched-IsTaken run keyed k v there earlier)
          | inr (x, still) ↦
              let (events, before, same, keyed') = Reaches-AllRefine K H S L run keyed in
              let (event, r, after) = Step-Refines K H S L step keyed' in
              let (hashes, number, e, ended) =
                settles event (view K H S t) k x still (ap (λ f. f k) (sym after) ∙ gone) in
              Refines-IsTaken run step hashes number (rw e at r) k x still ended
        ]
