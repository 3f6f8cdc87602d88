-- ===== src/Api/Requests.antt =====
-- What the requests that are enqueued leave in the queue.
use account_service.Common.{
  ◌≡◌, ◌≢◌, refl, sym, ap, ◌∙◌, inl, inr, String, some, arith, Option-cases,
}
use account_service.Js.{
  Throwable, Outcome, resolved, rejected, error, http_exception, Outcome-cases,
}
use account_service.Types.{
  PublishRequest, create_handle_request, change_handle_request, add_key_request,
  siwf_signup_request, HandleRequest, KeysRequest, ValidSignUpPayloads,
}
use account_service.Enqueue.{JobQueue, IsJobQueue, job_data, enqueue_request}
use account_service.Enqueue.Jobs.{IsKeyed, NoCollision, enqueue_request-job}
use account_service.Api.{
  enqueue_or, sign_up, login, sign_in_with_frequency, sign_up_response, Siwf, WalletLoginRequest,
  WalletLoginResponse,
}
use account_service.Api.Controllers.{
  create_handle, change_handle, add_key, post_sign_in_with_frequency, or_bad_request, bad_request,
}

-- If the answer is an error, it is this one, and the queue is as it was.
abbrev pub Refuses :
    {A : Type 0} (Q : JobQueue) → Outcome A × Q.State → Throwable → Q.State → Type 0
Refuses Q (resolved a, s') t s = Unit
Refuses Q (rejected e, s') t s = (e ≡ t) × (s' ≡ s)

module _ (Q : JobQueue) (calculate_job_id : PublishRequest → String) (provider_id : String) where
  enqueue_rejected :
      (r : PublishRequest) (s : Q.State) (e : Throwable)
      → (enqueue_request Q calculate_job_id provider_id r s).0 ≡ rejected e
      → (enqueue_request Q calculate_job_id provider_id r s).1 ≡ s
  unfolding enqueue_request
  enqueue_rejected r s e h =
      elim (Outcome-cases
        (Q.add s (calculate_job_id r) (job_data Q calculate_job_id provider_id r))) [
          | inl (s', p) ↦ ground arith
          | inr (t, p) ↦ rw (p, enqueue_request)
        ]

  enqueue_or-rejected :
      {A : Type 0} (message : String) (f : String → A) (r : PublishRequest) (s : Q.State)
      (e : Throwable)
      → (enqueue_or Q calculate_job_id provider_id message f r s).0 ≡ rejected e
      → (e ≡ error message) × ((enqueue_or Q calculate_job_id provider_id message f r s).1 ≡ s)
  unfolding enqueue_or
  enqueue_or-rejected message f r s e h =
      elim (Outcome-cases (enqueue_request Q calculate_job_id provider_id r s).0) [
        | inl (id, p) ↦ ground arith
        | inr (t, p) ↦ (ground arith, enqueue_rejected r s t p)
      ]

  enqueue_or-resolved :
      {A : Type 0} (message : String) (f : String → A) (r : PublishRequest) (s : Q.State) (a : A)
      → (enqueue_or Q calculate_job_id provider_id message f r s).0 ≡ resolved a
      → (id : String) × ((enqueue_request Q calculate_job_id provider_id r s).0 ≡ resolved id)
        × (a ≡ f id)
        × ((enqueue_or Q calculate_job_id provider_id message f r s).1
            ≡ (enqueue_request Q calculate_job_id provider_id r s).1)
  unfolding enqueue_or
  enqueue_or-resolved message f r s a h =
      elim (Outcome-cases (enqueue_request Q calculate_job_id provider_id r s).0) [
        | inl (id, p) ↦ (id, p, ground arith, refl)
        | inr (t, p) ↦ ground arith
      ]

  sign_up-enqueues :
      (siwf : Siwf) (request : WalletLoginRequest) (s : Q.State) (u : Unit {0}) (r : String)
      (payload : ValidSignUpPayloads)
      → siwf.api_ready ≡ resolved u
      → request.sign_up ≡ some r
      → siwf.validate_signup r ≡ resolved payload
      → sign_in_with_frequency Q calculate_job_id provider_id siwf request s
        ≡ enqueue_or Q calculate_job_id provider_id "Failed to sign up"
            (sign_up_response Q calculate_job_id provider_id)
            (siwf_signup_request payload)
            s
  unfolding sign_in_with_frequency login sign_up
  sign_up-enqueues siwf request s u r payload p some_up v =
      rw (p, sign_in_with_frequency) (rw (some_up, login) (rw (v, sign_up)))

  login-refused :
      (siwf : Siwf) (request : WalletLoginRequest) (s : Q.State) (e : Throwable)
      → (sign_in_with_frequency Q calculate_job_id provider_id siwf request s).0 ≡ rejected e
      → (sign_in_with_frequency Q calculate_job_id provider_id siwf request s).1 ≡ s
  unfolding sign_in_with_frequency login sign_up
  login-refused siwf request s e h = elim (Outcome-cases siwf.api_ready) [
    | inr (t, p) ↦ rw (p, sign_in_with_frequency)
    | inl (u, p) ↦ elim (Option-cases request.sign_up) [
      | inl none_up ↦ elim (Option-cases request.sign_in) [
        | inl none_in ↦ rw (p, sign_in_with_frequency) (rw (none_up, login) (rw (none_in, login)))
        | inr (r, some_in) ↦
            rw (p, sign_in_with_frequency) (rw (none_up, login) (rw (some_in, login)))
      ]
      | inr (r, some_up) ↦ elim (Outcome-cases (siwf.validate_signup r)) [
        | inr (t, v) ↦ rw (p, sign_in_with_frequency) (rw (some_up, login) (rw (v, sign_up)))
        | inl (payload, v) ↦
            let same = sign_up-enqueues siwf request s u r payload p some_up v in
            ap (λ x. x.1) same
            ∙ (enqueue_or-rejected "Failed to sign up"
                (sign_up_response Q calculate_job_id provider_id) (siwf_signup_request payload) s e
                (ap (λ x. x.0) (sym same) ∙ h)).1
      ]
    ]
  ]

  refuses :
      {A : Type 0} (out : Outcome A × Q.State) (t : Throwable) (s : Q.State)
      → ((e : Throwable) → out.0 ≡ rejected e → (e ≡ t) × (out.1 ≡ s))
      → Refuses Q out t s
  refuses (resolved a, s') t s h = tt
  refuses (rejected e, s') t s h = h e refl

  -- A request that is refused leaves the queue as it was: one for a handle, new or changed, with the
  -- controller's error, which is answered with 500, and one for a key or for a sign-in with 400.
  pub posts_refused :
      (h : HandleRequest) (r : KeysRequest) (siwf : Siwf) (request : WalletLoginRequest)
      (s : Q.State)
      → Refuses Q
          (create_handle Q calculate_job_id provider_id h s)
          (error "Failed to create handle")
          s
        × Refuses Q
            (change_handle Q calculate_job_id provider_id h s)
            (error "Failed to change handle")
            s
        × Refuses Q
            (add_key Q calculate_job_id provider_id r s)
            (http_exception "Failed to find public keys for the given msaId" bad_request)
            s
        × Refuses Q
            (post_sign_in_with_frequency Q calculate_job_id provider_id siwf request s)
            (http_exception "Failed to Sign In With Frequency" bad_request)
            s
  unfolding create_handle change_handle add_key post_sign_in_with_frequency or_bad_request
  posts_refused h r siwf request s = (
    refuses (create_handle Q calculate_job_id provider_id h s) _ s
        (enqueue_or-rejected "Failed to create handle" (λ id. id) (create_handle_request h) s),
    refuses (change_handle Q calculate_job_id provider_id h s) _ s
        (enqueue_or-rejected "Failed to change handle" (λ id. id) (change_handle_request h) s),
    refuses (add_key Q calculate_job_id provider_id r s) _ s λ e x.
        elim (Outcome-cases
          (enqueue_request Q calculate_job_id provider_id (add_key_request r) s).0) [
            | inl (id, p) ↦ ground arith
            | inr (t, p) ↦ (ground arith, enqueue_rejected (add_key_request r) s t p)
          ],
    refuses (post_sign_in_with_frequency Q calculate_job_id provider_id siwf request s) _ s λ e x.
        elim (Outcome-cases
          (sign_in_with_frequency Q calculate_job_id provider_id siwf request s).0) [
            | inl (id, p) ↦ ground arith
            | inr (t, p) ↦ (ground arith, login-refused siwf request s t p)
          ],
  )

  module _ (L : IsJobQueue Q) where
    -- Where the jobs stand under the ids of their requests, and the queue holds no other request under
    -- the id of this one: a request to create a handle that is answered is in the queue under the
    -- reference of the answer, and the other jobs are as before.
    pub create_handle-job :
        (r : HandleRequest) (s : Q.State) (id : String)
        → IsKeyed Q L calculate_job_id provider_id s
        → NoCollision Q L calculate_job_id provider_id (create_handle_request r) s
        → (create_handle Q calculate_job_id provider_id r s).0 ≡ resolved id
        → let s' = (create_handle Q calculate_job_id provider_id r s).1 in
          (Q.job s' id ≡ some (job_data Q calculate_job_id provider_id (create_handle_request r)))
          × ((n : String) → n ≢ id → Q.job s' n ≡ Q.job s n)
    unfolding create_handle
    create_handle-job r s id keyed alone h =
        let (id', p, own, same) =
          enqueue_or-resolved "Failed to create handle" (λ id. id) (create_handle_request r) s id
            h in
        let (_, there, others) =
          enqueue_request-job Q L calculate_job_id provider_id (create_handle_request r) s id keyed
            alone (p ∙ ap resolved (sym own)) in
        (ap (λ x. Q.job x id) same ∙ there, λ n ne. ap (λ x. Q.job x n) same ∙ others n ne)

    -- Where the jobs stand under the ids of their requests, and the queue holds no other request under
    -- the id of this sign-up: if the request holds a sign-up that is valid, an answer means that the
    -- sign-up is in the queue under the reference of the answer, and the other jobs are as before.
    pub post_sign_up-job :
        (siwf : Siwf) (request : WalletLoginRequest) (s : Q.State) (r : String)
        (payload : ValidSignUpPayloads) (a : WalletLoginResponse)
        → IsKeyed Q L calculate_job_id provider_id s
        → NoCollision Q L calculate_job_id provider_id (siwf_signup_request payload) s
        → siwf.api_ready ≡ resolved tt
        → request.sign_up ≡ some r
        → siwf.validate_signup r ≡ resolved payload
        → (post_sign_in_with_frequency Q calculate_job_id provider_id siwf request s).0 ≡ resolved a
        → let s' = (post_sign_in_with_frequency Q calculate_job_id provider_id siwf request s).1 in
          (Q.job s' a.reference_id
            ≡ some (job_data Q calculate_job_id provider_id (siwf_signup_request payload)))
          × ((n : String) → n ≢ a.reference_id → Q.job s' n ≡ Q.job s n)
    unfolding post_sign_in_with_frequency or_bad_request sign_up_response
    post_sign_up-job siwf request s r payload a keyed alone ready some_up valid h =
        let eq = sign_up-enqueues siwf request s tt r payload ready some_up valid in
        let (id, p, own, same) =
          enqueue_or-resolved "Failed to sign up" (sign_up_response Q calculate_job_id provider_id)
            (siwf_signup_request payload) s a (ap (λ x. x.0) (sym eq) ∙ answered_inside _ h) in
        let (_, there, others) =
          enqueue_request-job Q L calculate_job_id provider_id (siwf_signup_request payload) s
            a.reference_id keyed alone
            (p ∙ ap (λ (x : WalletLoginResponse). resolved x.reference_id) (sym own)) in
        (
          ap (λ x. Q.job x.1 a.reference_id) eq ∙ ap (λ x. Q.job x a.reference_id) same ∙ there,
          λ n ne. ap (λ x. Q.job x.1 n) eq ∙ ap (λ x. Q.job x n) same ∙ others n ne,
        )
      where
        answered_inside :
            (o : Outcome WalletLoginResponse)
            → or_bad_request "Failed to Sign In With Frequency" o ≡ resolved a
            → o ≡ resolved a
        answered_inside (resolved x) e = e
        answered_inside (rejected x) e = cc
