-- ===== src/Publisher/Submit.antt =====
-- What one submission writes, and when it succeeds.
use account_service.Common.{
  ℕ, ◌≡◌, refl, sym, ap, ◌∙◌, ◌⊎◌, inl, inr, String, Bool, true, false, Option, none, some, List,
  [], ◌∷◌, ◌++◌, ◌==◌, string_eq, arith, Bool-cases, Option-cases,
}
use account_service.Js.{Throwable, Outcome, resolved, rejected, Outcome-cases}
use account_service.Redis.{Keyspace}
use account_service.Redis.WatchList.{WatchList}
use account_service.Scheduler.{Scheduler}
use account_service.Nonce.{get_next_nonce}
use account_service.Types.{TransactionData}
use account_service.Publisher.{
  Publisher, World, QueueCall, check_capacity, prepare, status_of, called, process_txn, send, watch,
  submit, not_empty, retry_all, available, exhausted, after_decision, with_info,
}
use account_service.Publisher.Planning.{Plan, Extrinsic, plan}
use account_service.Publisher.Decide.{retried, decide, CapacityInfo}
use account_service.Notifier.{epoch_capacity_key, number_or_zero}

abbrev pub AtMostOne : List (Extrinsic × ℕ) → List (Extrinsic × ℕ) → Type 0
AtMostOne before after =
    (after ≡ before) ⊎ ((sent : Extrinsic × ℕ) × (after ≡ before ++ (sent ∷ [])))

pub AtMostOne-moved :
    {xs xs' ys ys' : List (Extrinsic × ℕ)}
    → xs ≡ xs'
    → ys ≡ ys'
    → AtMostOne xs ys
    → AtMostOne xs' ys'
AtMostOne-moved e e' (inl same) = inl (sym e' ∙ same ∙ e)
AtMostOne-moved e e' (inr (sent, more)) = inr (sent, sym e' ∙ more ∙ ap (λ zs. zs ++ (sent ∷ [])) e)

module _ (K : Keyspace) (H : WatchList) (S : Scheduler) (world : World) where
  -- The parts that only a submission writes.
  abbrev pub Same : Publisher K H S → Publisher K H S → Type 0
  Same p q = (q.submitted ≡ p.submitted) × (q.watch_list ≡ p.watch_list) × (q.cache ≡ p.cache)

  retry_all-Same : (ids : List String) (p : Publisher K H S) → Same p (retry_all K H S ids p)
  unfolding retry_all
  retry_all-Same [] p = (refl, refl, refl)
  retry_all-Same (id ∷ ids) p = retry_all-Same ids (called K H S (QueueCall.retry id) p)

  available-Same : (p : Publisher K H S) → Same p (available K H S world p)
  unfolding available
  available-Same p = elim (Outcome-cases world.failed_jobs) [
    | inl (jobs, e) ↦ rw (e, available) (retry_all-Same (retried jobs) p)
    | inr (t, e) ↦ rw (e, available) (refl, refl, refl)
  ]

  exhausted-Same :
      (info : CapacityInfo) (p : Publisher K H S) → Same p (exhausted K H S world info p)
  unfolding exhausted
  exhausted-Same info p = ground arith

  after_decision-Same :
      (info : CapacityInfo) (decision : Outcome Bool) (p : Publisher K H S)
      → Same p (after_decision K H S world info decision p).1
  unfolding after_decision
  after_decision-Same info (rejected e) p = (refl, refl, refl)
  after_decision-Same info (resolved true) p = exhausted-Same info p
  after_decision-Same info (resolved false) p = available-Same p

  with_info-Same :
      (info : CapacityInfo) (used : Option ℕ) (p : Publisher K H S)
      → Same p (with_info K H S world info used p).1
  unfolding with_info
  with_info-Same info none p = (refl, refl, refl)
  with_info-Same info (some used) p = after_decision-Same info _ p

  -- The test of the capacity writes none of them.
  pub check_capacity-Same : (p : Publisher K H S) → Same p (check_capacity K H S world p).1
  unfolding check_capacity
  check_capacity-Same p = elim (Outcome-cases world.capacity_info) [
    | inl (info, e) ↦
        rw (e, check_capacity)
          (with_info-Same info
            (number_or_zero (K.get p.cache (epoch_capacity_key info.current_epoch))) p)
    | inr (t, e) ↦ rw (e, check_capacity) (refl, refl, refl)
  ]

  -- The answer depends on the recorded use alone.
  pub check_capacity-answer :
      (p q : Publisher K H S)
      → ((epoch : ℕ)
          → K.get p.cache (epoch_capacity_key epoch) ≡ K.get q.cache (epoch_capacity_key epoch))
      → (check_capacity K H S world p).0 ≡ (check_capacity K H S world q).0
  unfolding check_capacity with_info after_decision
  check_capacity-answer p q same = elim (Outcome-cases world.capacity_info) [
    | inr (t, e) ↦ rw (e, check_capacity) refl
    | inl (info, e) ↦
        rw (e, check_capacity, same info.current_epoch)
          (elim (Option-cases
            (number_or_zero (K.get q.cache (epoch_capacity_key info.current_epoch)))) [
              | inl u ↦ rw (u, with_info) refl
              | inr (used, u) ↦ elim (Outcome-cases (decide world.capacity_limit info used)) [
                | inr (t, d) ↦ rw (u, with_info) (rw (d, after_decision) refl)
                | inl (true, d) ↦ rw (u, with_info) (rw (d, after_decision) refl)
                | inl (false, d) ↦ rw (u, with_info) (rw (d, after_decision) refl)
              ]
            ])
  ]

  pub submit-accepted :
      (d : TransactionData) (p : Publisher K H S) (last nonce : ℕ) (planned : Plan)
      (tx_hash : String) (era : ℕ × ℕ)
      → world.latest_finalized ≡ resolved last
      → world.provider_keys ≡ resolved tt
      → plan world.builder d.request ≡ resolved planned
      → world.create_extrinsic planned.extrinsic ≡ resolved tt
      → (get_next_nonce K world.chain_nonce p.cache).0 ≡ resolved nonce
      → world.sign_and_send planned.extrinsic nonce ≡ resolved tx_hash
      → (tx_hash == "") ≡ false
      → world.mortal_era planned.era_of last ≡ resolved era
      → submit K H S world d (prepare K H S world d) p ≡ (
        resolved tt,
        record {
          cache = (get_next_nonce K world.chain_nonce p.cache).1;
          watch_list = H.hset p.watch_list tx_hash (status_of K H S d planned tx_hash era);
          registry = p.registry;
          calls = p.calls;
          submitted = p.submitted ++ ((planned.extrinsic, nonce) ∷ []);
        },
      )
  unfolding submit prepare watch process_txn send not_empty
  submit-accepted d p last nonce planned tx_hash era e₁ e₀ e₂ c e₃ e₄ e₅ e₆ =
      rw (e₁, e₀, submit)
        (rw (e₂, submit)
          (rw (c, process_txn) (rw (e₃, send) (rw (e₄, send) (rw (e₅, watch) (rw (e₆, watch)))))))

  -- What a resolved job has met on its way.
  pub record Accepted (d : TransactionData) (cache : K.State) : Type 0 where
    pub last : ℕ
    pub nonce : ℕ
    pub planned : Plan
    pub tx_hash : String
    pub era : ℕ × ℕ
    pub finalized : world.latest_finalized ≡ resolved last
    pub signed : world.provider_keys ≡ resolved tt
    pub built : plan world.builder d.request ≡ resolved planned
    pub wrapped : world.create_extrinsic planned.extrinsic ≡ resolved tt
    pub numbered : (get_next_nonce K world.chain_nonce cache).0 ≡ resolved nonce
    pub sent : world.sign_and_send planned.extrinsic nonce ≡ resolved tx_hash
    pub named : (tx_hash == "") ≡ false
    pub dated : world.mortal_era planned.era_of last ≡ resolved era

  pub submit-Accepted :
      (d : TransactionData) (p : Publisher K H S)
      → (submit K H S world d (prepare K H S world d) p).0 ≡ resolved tt
      → Accepted d p.cache
  unfolding submit prepare watch process_txn send not_empty
  submit-Accepted d p r = elim (Outcome-cases world.latest_finalized) [
    | inr (t, e) ↦ ground arith
    | inl (last, e₁) ↦ elim (Outcome-cases world.provider_keys) [
      | inr (t, e) ↦ ground arith
      | inl (tt, e₀) ↦ elim (Outcome-cases (plan world.builder d.request)) [
        | inr (t, e) ↦ ground arith
        | inl (planned, e₂) ↦ elim (Outcome-cases (world.create_extrinsic planned.extrinsic)) [
          | inr (t, e) ↦ ground arith
          | inl (done, c) ↦ elim (Outcome-cases (get_next_nonce K world.chain_nonce p.cache).0) [
            | inr (t, e) ↦ ground arith
            | inl (nonce, e₃) ↦ elim (Outcome-cases (world.sign_and_send planned.extrinsic nonce)) [
              | inr (t, e) ↦ ground arith
              | inl (tx_hash, e₄) ↦ elim (Bool-cases (tx_hash == "")) [
                | inl e ↦ ground arith
                | inr e₅ ↦ elim (Outcome-cases (world.mortal_era planned.era_of last)) [
                  | inr (t, e) ↦ ground arith
                  | inl (era, e₆) ↦ record {
                    last = last;
                    nonce = nonce;
                    planned = planned;
                    tx_hash = tx_hash;
                    era = era;
                    finalized = e₁;
                    signed = e₀;
                    built = e₂;
                    wrapped = c;
                    numbered = e₃;
                    sent = e₄;
                    named = e₅;
                    dated = e₆;
                  }
                ]
              ]
            ]
          ]
        ]
      ]
    ]
  ]

  watch-rejected :
      (d : TransactionData) (planned : Plan) (last : ℕ) (r : Outcome String) (p : Publisher K H S)
      (t : Throwable)
      → (watch K H S world d planned last (r, p)).0 ≡ rejected t
      → (watch K H S world d planned last (r, p)).1 ≡ p
  unfolding watch
  watch-rejected d planned last (rejected x) p t e = refl
  watch-rejected d planned last (resolved h) p t e = ground arith

  process_txn-sends :
      (ext : Extrinsic) (p : Publisher K H S)
      → let q = (process_txn K H S world ext p).1 in
        (q.watch_list ≡ p.watch_list) × AtMostOne p.submitted q.submitted
  unfolding process_txn send
  process_txn-sends ext p = elim (Outcome-cases (world.create_extrinsic ext)) [
    | inr (t, c) ↦ rw (c, process_txn) (refl, inl refl)
    | inl (done, c) ↦
        rw (c, process_txn)
          (elim (Outcome-cases (get_next_nonce K world.chain_nonce p.cache).0) [
            | inr (t, e) ↦ (rw (e, send), inl (rw (e, send)))
            | inl (nonce, e) ↦ (rw (e, send), inr ((ext, nonce), rw (e, send)))
          ])
  ]

  pub submit-rejected :
      (d : TransactionData) (p : Publisher K H S) (t : Throwable)
      → (submit K H S world d (prepare K H S world d) p).0 ≡ rejected t
      → let q = (submit K H S world d (prepare K H S world d) p).1 in
        (q.watch_list ≡ p.watch_list) × AtMostOne p.submitted q.submitted
  unfolding submit
  submit-rejected d p t e = elim (Outcome-cases (prepare K H S world d)) [
    | inr (x, q) ↦ (rw (q, submit), inl (rw (q, submit)))
    | inl ((last, planned), q) ↦
        let sent = process_txn K H S world planned.extrinsic p in
        let kept = watch-rejected d planned last sent.0 sent.1 t (rw (q, submit) at e) in
        rw (q, submit) (rw kept (process_txn-sends planned.extrinsic p))
  ]
