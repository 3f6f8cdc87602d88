-- ===== src/Lifecycle/Spared.antt =====
-- A job that has failed, against the calls on the queue that leave it as it is.
use account_service.Common.{
  ◌≡◌, refl, sym, ◌∙◌, inl, inr, String, true, false, Option, none, some, List, [], ◌∷◌, map, ◌==◌,
  ==→eq, string_eq, In, All, arith, Bool-cases, Option-cases,
}
use account_service.Js.{
  Outcome-cases, Outcome, resolved, rejected, error, http_exception, delayed_error,
  end_of_chain_error, null_scan_error,
}
use account_service.Types.{PublishRequest}
use account_service.Enqueue.{enqueue_request, job_data}
use account_service.Publisher.{QueueCall, pause, resume, retry, move_to_delayed}
use account_service.Publisher.Decide.{FailedJob, retried, failed_for_capacity}
use account_service.Lifecycle.{Jobs, IsJobs, Status, failed, by_calls, settle}

In-retried :
    (id : String) (jobs : List FailedJob)
    → In id (retried jobs)
    → (job : FailedJob) × In job jobs × (job.id ≡ id) × (failed_for_capacity job ≡ true)
unfolding retried
In-retried id [] i = absurd i
In-retried id (job ∷ jobs) i = elim (Bool-cases (failed_for_capacity job)) [
  | inl yes_ ↦ elim (rw yes_ at i) [
    | inl e ↦ (job, inl refl, sym e, yes_)
    | inr later ↦ let (j, there, e, f) = In-retried id jobs later in (j, inr there, e, f)
  ]
  | inr not ↦ let (j, there, e, f) = In-retried id jobs (rw not at i) in (j, inr there, e, f)
]

module _ (Q : Jobs) (L : IsJobs Q) (n : String) (reason : Option String) where
  abbrev pub Fails : Q.queue.State → Type 0
  Fails s = Q.status s n ≡ some (failed reason)

  -- The call is not on this job.
  abbrev pub Spares : QueueCall → Type 0
  Spares pause = Unit
  Spares resume = Unit
  Spares (retry id) = (n == id) ≡ false
  Spares (move_to_delayed id) = (n == id) ≡ false

  pub by_calls-Fails :
      (calls : List QueueCall) (s : Q.queue.State)
      → All Spares calls
      → Fails s
      → Fails (by_calls Q calls s)
  unfolding by_calls
  by_calls-Fails [] s spared e = e
  by_calls-Fails (pause ∷ calls) s spared e = by_calls-Fails calls s spared.1 e
  by_calls-Fails (resume ∷ calls) s spared e = by_calls-Fails calls s spared.1 e
  by_calls-Fails (retry id ∷ calls) s spared e =
      by_calls-Fails calls (Q.retry s id) spared.1 (L.retry_other s id n spared.0 ∙ e)
  by_calls-Fails (move_to_delayed id ∷ calls) s spared e =
      by_calls-Fails calls (Q.delay s id) spared.1 (L.delay_other s id n spared.0 ∙ e)

  pub settle-Fails :
      (out : Outcome (Unit {0})) (id : String) (s : Q.queue.State)
      → (n == id) ≡ false
      → Fails s
      → Fails (settle Q out id s)
  unfolding settle
  settle-Fails (resolved u) id s other e = elim (L.complete_other s id n other) [
    | inl same ↦ same ∙ e
    | inr wrong ↦ cc
  ]
  settle-Fails (rejected (error m)) id s other e = L.fail_status s id (some m) n ∙ rw other e
  settle-Fails (rejected (http_exception m code)) id s other e =
      L.fail_status s id (some m) n ∙ rw other e
  settle-Fails (rejected delayed_error) id s other e = e
  settle-Fails (rejected (end_of_chain_error m)) id s other e =
      L.fail_status s id (some m) n ∙ rw other e
  settle-Fails (rejected (null_scan_error m)) id s other e =
      L.fail_status s id (some m) n ∙ rw other e

  -- The job failed for another reason than the capacity.
  module _
      (other_reason : failed_for_capacity (record { id = n; failed_reason = reason }) ≡ false) where
    same_reason :
        (job : FailedJob) → job.failed_reason ≡ reason → failed_for_capacity job ≡ true → ⊥
    unfolding failed_for_capacity
    same_reason job e f = ground arith

    pub retries-Spare :
        (s : Q.queue.State)
        → Fails s
        → (ids : List String) → ((id : String) → In id ids → In id (retried (Q.get_failed s)))
        → All Spares (map retry ids)
    retries-Spare s e [] among = tt
    retries-Spare s e (id ∷ ids) among = (
      other id (In-retried id (Q.get_failed s) (among id (inl refl))),
      retries-Spare s e ids (λ i there. among i (inr there)),
    )
      where
        other :
            (id : String)
            → (job : FailedJob) × In job (Q.get_failed s)
              × (job.id ≡ id)
              × (failed_for_capacity job ≡ true)
            → (n == id) ≡ false
        other id (job, there, at, f) = elim (Bool-cases (n == id)) [
          | inr differs ↦ differs
          | inl equal ↦
              let same : n ≡ job.id = ==→eq n id equal ∙ sym at in
              let fails : Q.status s n ≡ some (failed job.failed_reason) =
                rw same (L.get_failed_status s job there) in
              absurd (same_reason job (cc) f)
        ]

    -- Another status stands under another id.
    pub apart :
        (s : Q.queue.State) (id : String) (o : Option Status)
        → Fails s
        → Q.status s id ≡ o
        → (o ≡ some (failed reason) → ⊥)
        → (n == id) ≡ false
    apart s id o e other differs = elim (Bool-cases (n == id)) [
      | inr no_ ↦ no_
      | inl equal ↦
          let same : n ≡ id = ==→eq n id equal in absurd (differs (sym other ∙ rw (← same) e))
    ]

    pub post-Fails :
        (calculate_job_id : PublishRequest → String) (provider_id : String)
        (request : PublishRequest) (s : Q.queue.State)
        → Fails s
        → Fails (enqueue_request Q.queue calculate_job_id provider_id request s).1
    unfolding enqueue_request job_data
    post-Fails calculate_job_id provider_id request s e =
        let id = calculate_job_id request in
        let d = job_data Q.queue calculate_job_id provider_id request in
        elim (Outcome-cases (Q.queue.add s id d)) [
          | inr (x, q) ↦ rw (q, enqueue_request) e
          | inl (t, q) ↦
              rw (q, enqueue_request)
                (elim (Option-cases (Q.status s id)) [
                  | inl fresh ↦
                      L.add_fresh s t id d fresh q n ∙ rw (apart s id none e fresh (λ wrong. cc)) e
                  | inr (old, there) ↦ L.add_taken s t id d old there q n ∙ e
                ])
        ]
