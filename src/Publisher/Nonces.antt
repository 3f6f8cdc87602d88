-- ===== src/Publisher/Nonces.antt =====
-- What a job does to the keys of Redis, and the nonce that it submits with.
use account_service.Common.{
  ℕ, ◌≡◌, refl, ◌∙◌, ◌⊎◌, inl, inr, String, [], ◌∷◌, ◌++◌, string_eq, arith, Bool-cases,
}
use account_service.Js.{Outcome, resolved, rejected, Outcome-cases}
use account_service.Redis.{Keyspace}
use account_service.Redis.WatchList.{WatchList}
use account_service.Scheduler.{Scheduler}
use account_service.Nonce.{get_next_nonce}
use account_service.Types.{TransactionData}
use account_service.Publisher.{
  process, with_capacity, Publisher, World, check_capacity, prepare, called, process_txn, send,
  watch, submit,
}
use account_service.Publisher.Planning.{Plan, Extrinsic}
use account_service.Publisher.Submit.{check_capacity-Same}

module _ (K : Keyspace) (H : WatchList) (S : Scheduler) (world : World) where
  -- What a job may do to the keys: nothing, or what one call for a nonce does.
  submit-cache :
      (d : TransactionData) (p : Publisher K H S)
      → let q = (submit K H S world d (prepare K H S world d) p).1 in
        (q.cache ≡ p.cache) ⊎ (q.cache ≡ (get_next_nonce K world.chain_nonce p.cache).1)
  unfolding submit watch process_txn send
  submit-cache d p = elim (Outcome-cases (prepare K H S world d)) [
    | inr (x, q) ↦ inl (rw (q, submit))
    | inl ((last, planned), q) ↦ elim (Outcome-cases (world.create_extrinsic planned.extrinsic)) [
      | inr (x, c) ↦ inl (ground arith)
      | inl (done, c) ↦ inr (ground arith)
    ]
  ]

  pub process-cache :
      (job_id : String) (d : TransactionData) (p : Publisher K H S)
      → let q = (process K H S world job_id d p).1 in
        (q.cache ≡ p.cache) ⊎ (q.cache ≡ (get_next_nonce K world.chain_nonce p.cache).1)
  unfolding process with_capacity
  process-cache job_id d p =
      let same = (check_capacity-Same K H S world p).2 in
      elim (Bool-cases (check_capacity K H S world p).0) [
        | inr spent ↦ inl (rw (spent, with_capacity) same)
        | inl free ↦
            rw (free, with_capacity) (rw same at (submit-cache d (check_capacity K H S world p).1))
      ]

  -- How a job comes to submit: with the nonce that one call returns, whose lock it leaves.
  abbrev pub Numbered : Publisher K H S → Publisher K H S → Type 0
  Numbered p q =
      (q.submitted ≡ p.submitted)
      ⊎ ((ext : Extrinsic) × (nonce : ℕ) × (get_next_nonce K world.chain_nonce p.cache
            ≡ (resolved nonce, q.cache))
          × (q.submitted ≡ p.submitted ++ ((ext, nonce) ∷ [])))

  process_txn-Numbered :
      (ext : Extrinsic) (p : Publisher K H S) → Numbered p (process_txn K H S world ext p).1
  unfolding process_txn send
  process_txn-Numbered ext p = elim (Outcome-cases (world.create_extrinsic ext)) [
    | inr (t, c) ↦ inl (rw (c, process_txn))
    | inl (done, c) ↦ elim (Outcome-cases (get_next_nonce K world.chain_nonce p.cache).0) [
      | inr (t, e) ↦ inl (rw (c, process_txn) (rw (e, send)))
      | inl (nonce, e) ↦
          inr (ext, nonce, rw (c, process_txn) (rw (e, send)), rw (c, process_txn) (rw (e, send)))
    ]
  ]

  abbrev SameNonces : Publisher K H S → Publisher K H S → Type 0
  SameNonces p q = (q.submitted ≡ p.submitted) × (q.cache ≡ p.cache)

  Numbered-moved :
      (p p' q q' : Publisher K H S)
      → SameNonces p' p
      → SameNonces q q'
      → Numbered p q
      → Numbered p' q'
  Numbered-moved p p' q q' (es, ec) (es', ec') (inl same) = inl (es' ∙ same ∙ es)
  Numbered-moved p p' q q' (es, ec) (es', ec') (inr (ext, nonce, taken, sent)) =
      inr (ext, nonce, rw (ec, ← ec') at taken, rw (es, ← es') at sent)

  watch-Same :
      (d : TransactionData) (planned : Plan) (last : ℕ) (r : Outcome String) (p : Publisher K H S)
      → let q = (watch K H S world d planned last (r, p)).1 in SameNonces p q
  unfolding watch
  watch-Same d planned last (rejected e) p = (refl, refl)
  watch-Same d planned last (resolved h) p = ground arith

  submit-Numbered :
      (d : TransactionData) (p : Publisher K H S)
      → Numbered p (submit K H S world d (prepare K H S world d) p).1
  unfolding submit
  submit-Numbered d p = elim (Outcome-cases (prepare K H S world d)) [
    | inr (x, q) ↦ inl (rw (q, submit))
    | inl ((last, planned), q) ↦
        let sent = process_txn K H S world planned.extrinsic p in
        rw (q, submit)
          (Numbered-moved p p sent.1 (watch K H S world d planned last sent).1 (refl, refl)
            (watch-Same d planned last sent.0 sent.1) (process_txn-Numbered planned.extrinsic p))
  ]

  pub process-Numbered :
      (job_id : String) (d : TransactionData) (p : Publisher K H S)
      → Numbered p (process K H S world job_id d p).1
  unfolding process with_capacity called
  process-Numbered job_id d p =
      let (submitted, watched, cache) = check_capacity-Same K H S world p in
      elim (Bool-cases (check_capacity K H S world p).0) [
        | inr spent ↦ inl (rw (spent, with_capacity) submitted)
        | inl free ↦
            let q = (check_capacity K H S world p).1 in
            let after = (submit K H S world d (prepare K H S world d) q).1 in
            rw (free, with_capacity)
              (Numbered-moved q p after after (submitted, cache) (refl, refl) (submit-Numbered d q))
      ]
