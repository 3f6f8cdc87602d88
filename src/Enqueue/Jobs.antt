-- ===== src/Enqueue/Jobs.antt =====
-- What the queue holds after a request.
use account_service.Common.{
  ◌≡◌, sym, ap, ◌∙◌, ◌≢◌, ◌⊎◌, inl, inr, String, none, some, string_eq, arith, ==_refl,
  Option-cases,
}
use account_service.Js.{resolved, Outcome-cases}
use account_service.Types.{PublishRequest, TransactionData}
use account_service.Enqueue.{JobQueue, IsJobQueue, job_data, enqueue_request}

module _ (Q : JobQueue) (L : IsJobQueue Q) (calculate_job_id : PublishRequest → String)
    (provider_id : String) where
  -- Every job is stored under the id of its request, which is its reference too.
  abbrev pub IsKeyed : Q.State → Type 0
  IsKeyed q =
      (id : String) (d : TransactionData)
      → Q.job q id ≡ some d
      → (d ≡ job_data Q calculate_job_id provider_id d.request) × (id ≡ calculate_job_id d.request)

  -- No other request has the id of this one.
  abbrev pub NoCollision : PublishRequest → Q.State → Type 0
  NoCollision r q = (d : TransactionData) → Q.job q (calculate_job_id r) ≡ some d → d.request ≡ r

  -- `add` in either case.
  add-job :
      (q q' : Q.State) (id : String) (d : TransactionData)
      → Q.add q id d ≡ resolved q'
      → (n : String)
      → (Q.job q' n ≡ Q.job q n) ⊎ ((n ≡ id) × (Q.job q n ≡ none) × (Q.job q' n ≡ some d))
  add-job q q' id d e n = elim (Option-cases (Q.job q id)) [
    | inl fresh ↦ ground (arith, L.add_fresh q q' id d fresh e n)
    | inr (old, taken) ↦ inl (L.add_taken q q' id d old taken e n)
  ]

  -- A request leaves a queue whose jobs stand under the ids of their requests as such a queue, whether
  -- it is answered or refused.
  pub enqueue_request-IsKeyed :
      (r : PublishRequest) (q : Q.State)
      → IsKeyed q
      → IsKeyed (enqueue_request Q calculate_job_id provider_id r q).1
  unfolding enqueue_request job_data
  enqueue_request-IsKeyed r q keyed id d at =
      let data' = job_data Q calculate_job_id provider_id r in
      elim (Outcome-cases (Q.add q (calculate_job_id r) data')) [
        | inr (t, e) ↦ keyed id d (rw (e, enqueue_request) at at)
        | inl (q', e) ↦
            added q' e (add-job q q' (calculate_job_id r) data' e id)
              (rw (e, enqueue_request) at at)
      ]
    where
      added :
          (q' : Q.State)
          → Q.add q (calculate_job_id r) (job_data Q calculate_job_id provider_id r) ≡ resolved q'
          → (Q.job q' id ≡ Q.job q id)
            ⊎ ((id ≡ calculate_job_id r)
                × (Q.job q id ≡ none)
                × (Q.job q' id ≡ some (job_data Q calculate_job_id provider_id r)))
          → Q.job q' id ≡ some d
          → (d ≡ job_data Q calculate_job_id provider_id d.request)
            × (id ≡ calculate_job_id d.request)
      added q' e (inl same) p = keyed id d (sym same ∙ p)
      added q' e (inr (own, fresh, new)) p = ground arith

  resolved-id :
      (r : PublishRequest) (q : Q.State) (id : String)
      → (enqueue_request Q calculate_job_id provider_id r q).0 ≡ resolved id
      → (q' : Q.State) × (Q.add q (calculate_job_id r) (job_data Q calculate_job_id provider_id r)
          ≡ resolved q')
        × (id ≡ calculate_job_id r)
        × ((enqueue_request Q calculate_job_id provider_id r q).1 ≡ q')
  unfolding enqueue_request job_data
  resolved-id r q id e =
      elim (Outcome-cases
        (Q.add q (calculate_job_id r) (job_data Q calculate_job_id provider_id r))) [
          | inl (q', p) ↦ (q', p, ground arith, rw (p, enqueue_request))
          | inr (t, p) ↦ ground arith
        ]

  -- Where the jobs stand under the ids of their requests, and the queue holds no other request under
  -- the id of this one: a request that is answered is in the queue under the reference of the answer,
  -- with the provider's id, and the other jobs are as before.
  pub enqueue_request-job :
      (r : PublishRequest) (q : Q.State) (id : String)
      → IsKeyed q
      → NoCollision r q
      → (enqueue_request Q calculate_job_id provider_id r q).0 ≡ resolved id
      → let q' = (enqueue_request Q calculate_job_id provider_id r q).1 in
        (id ≡ calculate_job_id r)
        × (Q.job q' id ≡ some (job_data Q calculate_job_id provider_id r))
        × ((n : String) → n ≢ id → Q.job q' n ≡ Q.job q n)
  unfolding job_data
  enqueue_request-job r q id keyed alone e =
      let (q', p, own, same) = resolved-id r q id e in
      let d = job_data Q calculate_job_id provider_id r in
      (
        own,
        rw (same, own) (present q' p (Option-cases (Q.job q (calculate_job_id r)))),
        λ n ne.
            rw same
              (others q' p n (λ h. ne (h ∙ sym own)) (add-job q q' (calculate_job_id r) d p n)),
      )
    where
      present :
          (q' : Q.State)
          → Q.add q (calculate_job_id r) (job_data Q calculate_job_id provider_id r) ≡ resolved q'
          → (Q.job q (calculate_job_id r) ≡ none)
            ⊎ ((old : TransactionData) × (Q.job q (calculate_job_id r) ≡ some old))
          → Q.job q' (calculate_job_id r) ≡ some (job_data Q calculate_job_id provider_id r)
      present q' p (inl fresh) =
          ground (arith, L.add_fresh q q' (calculate_job_id r) _ fresh p (calculate_job_id r))
      present q' p (inr (old, taken)) =
          let (shape, id') = keyed (calculate_job_id r) old taken in
          L.add_taken q q' (calculate_job_id r) (job_data Q calculate_job_id provider_id r) old
            taken p (calculate_job_id r)
          ∙ taken
          ∙ ap some (
              shape
              ∙ ap (λ (x : PublishRequest). job_data Q calculate_job_id provider_id x)
                  (alone old taken))

      others :
          (q' : Q.State)
          → Q.add q (calculate_job_id r) (job_data Q calculate_job_id provider_id r) ≡ resolved q'
          → (n : String) → n ≢ calculate_job_id r
          → (Q.job q' n ≡ Q.job q n)
            ⊎ ((n ≡ calculate_job_id r)
                × (Q.job q n ≡ none)
                × (Q.job q' n ≡ some (job_data Q calculate_job_id provider_id r)))
          → Q.job q' n ≡ Q.job q n
      others q' p n ne (inl same) = same
      others q' p n ne (inr (h, _, _)) = absurd (ne h)

  held :
      (q q' : Q.State) (id : String) (d : TransactionData)
      → Q.add q id d ≡ resolved q'
      → (old : TransactionData) × (Q.job q' id ≡ some old)
  held q q' id d e = elim (Option-cases (Q.job q id)) [
    | inl fresh ↦ (d, L.add_fresh q q' id d fresh e id ∙ rw (==_refl id))
    | inr (old, taken) ↦ (old, L.add_taken q q' id d old taken e id ∙ taken)
  ]

  -- A request that is sent again is answered with the same reference, and changes no job.
  pub enqueue_request_twice :
      (r : PublishRequest) (q : Q.State) (id id' : String)
      → (enqueue_request Q calculate_job_id provider_id r q).0 ≡ resolved id
      → let q' = (enqueue_request Q calculate_job_id provider_id r q).1 in
        (enqueue_request Q calculate_job_id provider_id r q').0 ≡ resolved id'
        → (id' ≡ id)
          × ((n : String)
              → Q.job (enqueue_request Q calculate_job_id provider_id r q').1 n ≡ Q.job q' n)
  unfolding job_data
  enqueue_request_twice r q id id' e e' =
      let (q₁, p, own, same) = resolved-id r q id e in
      let (q₂, p', own', same') =
        resolved-id r (enqueue_request Q calculate_job_id provider_id r q).1 id' e' in
      let d = job_data Q calculate_job_id provider_id r in
      let (old, there) = held q q₁ (calculate_job_id r) d p in
      let again = rw same at p' in
      (
        own' ∙ sym own,
        λ n.
            ap (λ s. Q.job s n) same'
            ∙ L.add_taken q₁ q₂ (calculate_job_id r) d old there again n
            ∙ ap (λ s. Q.job s n) (sym same),
      )
