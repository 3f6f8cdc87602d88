-- ===== src/Worker/Watch.antt =====
-- What the watch list of apps/worker/src/transaction_publisher/publisher.service.ts and
-- apps/worker/src/transaction_notifier/notifier.service.ts is for: a map from the hash of a
-- transaction to its status, that jobs add to and blocks take from.
use mathlib.Core.Path.{fun_ext}
use account_service.Common.{
  ℕ, ◌≡◌, refl, sym, ap, ◌∙◌, inl, inr, String, Option, some, List, [], ◌∷◌, ◌==◌, string_eq,
  if◌then◌else◌, arith, Option-cases,
}
use account_service.Js.{Throwable, resolved, rejected, Outcome-cases}
use account_service.Redis.{Keyspace}
use account_service.Redis.WatchList.{WatchList, IsWatchList}
use account_service.Scheduler.{Scheduler}
use account_service.Types.{TxStatus, type_of}
use account_service.Notifier.{Chain, process_current_block, set_last_seen_block_number}
use account_service.Notifier.Watch.{left, process_current_block-hget, process_current_block-read}
use account_service.Notifier.Failure.{process_current_block-rejected}
use account_service.Publisher.{process, status_of}
use account_service.Publisher.Submit.{check_capacity-Same}
use account_service.Publisher.Process.{process-submits, process-rejected}
use account_service.Worker.{
  Worker, publisher, notifier, after_record, Step, job, check, block, record_block, outside,
  Reaches, here, next,
}

-- The abstract watch list: order and representation of the hash are forgotten.
abbrev pub View : Type 0
View = String → Option TxStatus

pub data Event : Type 0 where
  -- a transaction is watched from now on
  watched : String → TxStatus → Event
  -- the hashes of a block and its number
  settled : List String → ℕ → Event
  quiet : Event

abbrev pub apply : Event → View → View
apply (watched k v) view = λ j. if j == k then some v else view j
apply (settled hashes number) view = λ j. left hashes number j (view j)
apply quiet view = view

-- The last event stands first.
abbrev pub apply_all : List Event → View → View
apply_all [] view = view
apply_all (event ∷ events) view = apply event (apply_all events view)

module _ (K : Keyspace) (H : WatchList) (S : Scheduler) where
  abbrev pub view : Worker K H S → View
  view w = λ k. H.hget w.watch_list k

  -- Every status is stored under its own hash.
  abbrev pub IsKeyed : Worker K H S → Type 0
  IsKeyed w = (k : String) (v : TxStatus) → H.hget w.watch_list k ≡ some v → v.tx_hash ≡ k

  -- Which event a step is: a resolved job watches one transaction, for its own request; a processed
  -- block settles the transactions in it; all other steps are quiet.
  abbrev pub Refines : {w u : Worker K H S} → Step K H S w u → Event → Type 0
  Refines {w} (job world job_id d) (watched k v) =
      ((process K H S world job_id d (publisher K H S w)).0 ≡ resolved tt)
      × (v.tx_hash ≡ k)
      × (v.reference_id ≡ d.reference_id)
      × (v.provider_id ≡ d.provider_id)
      × (v.type ≡ type_of d.request)
  Refines {w} (job world job_id d) quiet =
      (t : Throwable) × ((process K H S world job_id d (publisher K H S w)).0 ≡ rejected t)
  Refines (job world job_id d) (settled hashes number) = ⊥
  Refines {w} (block chain hash number) (settled hashes n) =
      ((process_current_block K H chain hash number (notifier K H S w)).0 ≡ resolved tt)
      × (chain.get_block hash ≡ resolved hashes)
      × (n ≡ number)
  Refines {w} (block chain hash number) quiet =
      (t : Throwable) × ((process_current_block K H chain hash number (notifier K H S w)).0
        ≡ rejected t)
  Refines (block chain hash number) (watched k v) = ⊥
  Refines (check world) event = event ≡ quiet
  Refines (record_block chain number) event = event ≡ quiet
  Refines (outside cache) event = event ≡ quiet

  abbrev pub AllRefine : {w u : Worker K H S} → Reaches K H S w u → List Event → Type 0
  AllRefine here [] = Unit
  AllRefine here (event ∷ events) = ⊥
  AllRefine (next run step) [] = ⊥
  AllRefine (next run step) (event ∷ events) = Refines step event × AllRefine run events

  abbrev NamesHash : Event → Type 0
  NamesHash (watched k v) = v.tx_hash ≡ k
  NamesHash (settled hashes number) = Unit
  NamesHash quiet = Unit

  Refines-NamesHash :
      {w u : Worker K H S}
      → (step : Step K H S w u) → (event : Event) → Refines step event
      → NamesHash event
  Refines-NamesHash step (settled hashes number) r = tt
  Refines-NamesHash step quiet r = tt
  Refines-NamesHash (job world job_id d) (watched k v) (done, named, reference, provider, kind) =
      named
  Refines-NamesHash (block chain hash number) (watched k v) r = absurd r
  Refines-NamesHash (check world) (watched k v) r = ground arith
  Refines-NamesHash (record_block chain number) (watched k v) r = ground arith
  Refines-NamesHash (outside cache) (watched k v) r = ground arith

  apply-IsKeyed :
      (event : Event) (before : View) (k : String) (v : TxStatus)
      → NamesHash event
      → ((j : String) (u : TxStatus) → before j ≡ some u → u.tx_hash ≡ j)
      → apply event before k ≡ some v
      → v.tx_hash ≡ k
  apply-IsKeyed (watched j u) before k v named keyed e = ground (arith, keyed k v)
  apply-IsKeyed (settled hashes number) before k v named keyed e = elim (Option-cases (before k)) [
    | inl none_there ↦ ground arith
    | inr (u, there) ↦ ground (arith, keyed k u there)
  ]
  apply-IsKeyed quiet before k v named keyed e = keyed k v e

  module _ (L : IsWatchList H) where
    after_record-view :
        (w : Worker K H S) (chain : Chain) (number : ℕ)
        → view (after_record K H S chain number w) ≡ view w
    unfolding set_last_seen_block_number
    after_record-view w chain number = refl

    pub Step-Refines :
        {w u : Worker K H S}
        → (step : Step K H S w u) → IsKeyed w
        → (event : Event) × Refines step event × (view u ≡ apply event (view w))
    unfolding status_of
    Step-Refines {w} (job world job_id d) keyed =
        elim (Outcome-cases (process K H S world job_id d (publisher K H S w)).0) [
          | inl (u, e) ↦
              let (a, sent, seen) = process-submits K H S world L job_id d (publisher K H S w) e in
              (
                watched a.tx_hash (status_of K H S d a.planned a.tx_hash a.era),
                (e, refl, refl, refl, refl),
                fun_ext seen,
              )
          | inr (t, e) ↦
              let (same, sent) = process-rejected K H S world job_id d (publisher K H S w) t e in
              (quiet, (t, e), ap (λ s k. H.hget s k) same)
        ]
    Step-Refines {w} (check world) keyed =
        let same = (check_capacity-Same K H S world (publisher K H S w)).1 in
        (quiet, refl, ap (λ s k. H.hget s k) same)
    Step-Refines {w} (block chain hash number) keyed =
        let out = process_current_block K H chain hash number (notifier K H S w) in
        elim (Outcome-cases out.0) [
          | inl (u, e) ↦
              let (hashes, read) =
                process_current_block-read K H chain hash number (notifier K H S w) out.1
                  (ap (λ o. (o, out.1)) e) in
              (
                settled hashes number,
                (e, read, refl),
                fun_ext λ k.
                    process_current_block-hget K H chain L hash number (notifier K H S w) out.1
                      hashes k keyed read (ap (λ o. (o, out.1)) e),
              )
          | inr (t, e) ↦ (
            quiet,
            (t, e),
            ap (λ s k. H.hget s k)
                (process_current_block-rejected K H chain hash number (notifier K H S w) out.1 t
                  (ap (λ o. (o, out.1)) e)),
          )
        ]
    Step-Refines {w} (record_block chain number) keyed =
        (quiet, refl, after_record-view w chain number)
    Step-Refines {w} (outside cache) keyed = (quiet, refl, refl)

    -- The worker refines the abstract watch list, whatever the order of its steps and whatever the
    -- chain and the provider answer: along a run from a watch list whose statuses stand under their
    -- own hashes, each step does to the view of the watch list what one abstract event does, a resolved
    -- job watching one transaction of its request, a processed block settling its transactions and
    -- those at their death, every other step leaving the view alone; and the statuses still stand under
    -- their own hashes.
    pub Reaches-AllRefine :
        {w u : Worker K H S}
        → (run : Reaches K H S w u) → IsKeyed w
        → (events : List Event) × AllRefine run events
          × (view u ≡ apply_all events (view w))
          × IsKeyed u
    Reaches-AllRefine here keyed = ([], tt, refl, keyed)
    Reaches-AllRefine (next {t} {u} run step) keyed =
        let (events, before, same, keyed') = Reaches-AllRefine run keyed in
        let (event, r, after) = Step-Refines step keyed' in
        (
          event ∷ events,
          (r, before),
          after ∙ ap (apply event) same,
          λ k v there.
              apply-IsKeyed event (view t) k v (Refines-NamesHash step event r) keyed'
                (ap (λ f. f k) (sym after) ∙ there),
        )
