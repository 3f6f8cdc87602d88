-- ===== src/Publisher/Process.antt =====
-- What a job does: to the chain, to the watch list, and to the queue.
use account_service.Common.{
  ◌≡◌, sym, ◌↔◌, subst, ap, ◌∙◌, inl, inr, String, true, false, some, [], ◌∷◌, ◌++◌, ◌==◌,
  string_eq, if◌then◌else◌, arith, Bool-cases,
}
use account_service.Js.{Throwable, resolved, rejected, delayed_error}
use account_service.Redis.{Keyspace}
use account_service.Redis.WatchList.{WatchList, IsWatchList}
use account_service.Scheduler.{Scheduler}
use account_service.Nonce.{get_next_nonce}
use account_service.Types.{TransactionData}
use account_service.Publisher.{
  Publisher, World, check_capacity, process, prepare, status_of, submit,
}
use account_service.Publisher.Submit.{
  AtMostOne, AtMostOne-moved, Same, check_capacity-Same, submit-accepted, Accepted, submit-Accepted,
  submit-rejected,
}

module _ (K : Keyspace) (H : WatchList) (S : Scheduler) (world : World) where
  -- What `process` does once it is known that capacity is available.
  submitting-eq :
      (job_id : String) (d : TransactionData) (p : Publisher K H S)
      → (check_capacity K H S world p).0 ≡ true
      → process K H S world job_id d p
        ≡ submit K H S world d (prepare K H S world d) (check_capacity K H S world p).1
  unfolding process
  submitting-eq job_id d p e = ground arith

  -- A job that meets no capacity is delayed: nothing is submitted and nothing is watched, and no
  -- nonce is taken.
  pub process-delayed :
      (job_id : String) (d : TransactionData) (p : Publisher K H S)
      → (check_capacity K H S world p).0 ≡ false
      → let out = process K H S world job_id d p in
        (out.0 ≡ rejected delayed_error) × Same K H S world p out.1
  unfolding process
  process-delayed job_id d p e = ground (arith, check_capacity-Same K H S world p)

  process-true :
      (job_id : String) (d : TransactionData) (p : Publisher K H S)
      → (process K H S world job_id d p).0 ≡ resolved tt
      → (check_capacity K H S world p).0 ≡ true
  unfolding process
  process-true job_id d p e = ground arith

  -- A job is resolved if, and only if, capacity is available, the finalized block is known, the
  -- extrinsic can be built, a nonce is found for it, and the chain accepts it with a hash and an era.
  pub process-resolved_iff :
      (job_id : String) (d : TransactionData) (p : Publisher K H S)
      → ((process K H S world job_id d p).0 ≡ resolved tt)
        ↔ (((check_capacity K H S world p).0 ≡ true) × Accepted K H S world d p.cache)
  process-resolved_iff job_id d p = (
    λ e.
        let free = process-true job_id d p e in
        let a =
          submit-Accepted K H S world d (check_capacity K H S world p).1
            (ap (λ r. r.0) (sym (submitting-eq job_id d p free)) ∙ e) in
        (free, subst (Accepted K H S world d) (check_capacity-Same K H S world p).2 a),
    λ both.
        let a = subst (Accepted K H S world d) (sym (check_capacity-Same K H S world p).2) both.1 in
        ap (λ r. r.0)
          (submitting-eq job_id d p both.0
            ∙ submit-accepted K H S world d (check_capacity K H S world p).1 a.last a.nonce
                a.planned a.tx_hash a.era a.finalized a.signed a.built a.wrapped a.numbered a.sent
                a.named a.dated),
  )

  -- A resolved job has submitted one extrinsic, the one planned for its request, with the nonce that
  -- the nonce service gave; the status of the job is watched under the hash of the extrinsic, and the
  -- other statuses are as before.
  pub process-submits :
      IsWatchList H
      → (job_id : String) (d : TransactionData) (p : Publisher K H S)
      → (process K H S world job_id d p).0 ≡ resolved tt
      → let out = process K H S world job_id d p in
        (a : Accepted K H S world d p.cache) × (out.1.submitted
          ≡ p.submitted ++ ((a.planned.extrinsic, a.nonce) ∷ []))
        × ((k : String)
            → H.hget out.1.watch_list k ≡ (
                if k == a.tx_hash
                then some (status_of K H S d a.planned a.tx_hash a.era)
                else H.hget p.watch_list k))
  process-submits L job_id d p e =
      let (free, a) = (process-resolved_iff job_id d p).0 e in
      let q = (check_capacity K H S world p).1 in
      let (same_submitted, same_watched, same_cache) = check_capacity-Same K H S world p in
      let b = subst (Accepted K H S world d) (sym same_cache) a in
      let done =
        submitting-eq job_id d p free
        ∙ submit-accepted K H S world d q a.last a.nonce a.planned a.tx_hash a.era a.finalized
            a.signed a.built a.wrapped
            (ap (λ c. (get_next_nonce K world.chain_nonce c).0) same_cache ∙ a.numbered) a.sent
            a.named a.dated in
      (
        a,
        ap (λ r. r.1.submitted) done
            ∙ ap (λ xs. xs ++ ((a.planned.extrinsic, a.nonce) ∷ [])) same_submitted,
        λ k.
            ap (λ r. H.hget r.1.watch_list k) done
            ∙ L.hget-hset q.watch_list a.tx_hash (status_of K H S d a.planned a.tx_hash a.era) k
            ∙ rw same_watched,
      )

  -- A job that is not resolved leaves the watch list as it was, and has submitted one extrinsic at
  -- most.
  pub process-rejected :
      (job_id : String) (d : TransactionData) (p : Publisher K H S) (t : Throwable)
      → (process K H S world job_id d p).0 ≡ rejected t
      → let out = process K H S world job_id d p in
        (out.1.watch_list ≡ p.watch_list) × AtMostOne p.submitted out.1.submitted
  process-rejected job_id d p t e = elim (Bool-cases (check_capacity K H S world p).0) [
    | inr none_left ↦ let (r, kept) = process-delayed job_id d p none_left in (kept.1, inl kept.0)
    | inl free ↦
        let (same_submitted, same_watched, _) = check_capacity-Same K H S world p in
        let eq = submitting-eq job_id d p free in
        let (w, s) =
          submit-rejected K H S world d (check_capacity K H S world p).1 t
            (ap (λ r. r.0) (sym eq) ∙ e) in
        (
          ap (λ r. r.1.watch_list) eq ∙ w ∙ same_watched,
          AtMostOne-moved same_submitted (ap (λ r. r.1.submitted) (sym eq)) s,
        )
  ]
