-- ===== src/Lifecycle/Memory.antt =====
-- A queue with statuses that meets the assumptions.
use account_service.Common.{
  ==_refl, ◌≡◌, refl, sym, ◌∙◌, ap, inl, inr, String, Bool, true, false, Option, none, some, List,
  [], ◌∷◌, ◌++◌, ◌==◌, string_eq, if◌then◌else◌, In, arith,
}
use account_service.Js.{resolved}
use account_service.Types.{TransactionData}
use account_service.Publisher.Decide.{FailedJob}
use account_service.Lifecycle.{Jobs, IsJobs, Status, waiting, active, delayed, completed, failed}

pub record Table : Type 0 where
  pub jobs : String → Option TransactionData
  pub status : String → Option Status
  -- the ids, in the order in which they were added
  pub ids : List String

abbrev pub put : Option Status → Table → String → TransactionData → Table
put none s id d = record {
  jobs = λ n. if n == id then some d else s.jobs n;
  status = λ n. if n == id then some waiting else s.status n;
  ids = s.ids ++ (id ∷ []);
}
put (some old) s id d = s

abbrev pub with_status : Status → Table → String → Table
with_status v s id = record s { status = λ n. if n == id then some v else s.status n }

abbrev pub is_waiting : Option Status → Bool
is_waiting none = false
is_waiting (some waiting) = true
is_waiting (some active) = false
is_waiting (some delayed) = false
is_waiting (some completed) = false
is_waiting (some (failed reason)) = false

abbrev pub first_waiting : (String → Option Status) → List String → Option String
first_waiting status [] = none
first_waiting status (id ∷ ids) =
    if is_waiting (status id) then some id else first_waiting status ids

abbrev pub failed_job : String → Option Status → List FailedJob
failed_job id none = []
failed_job id (some waiting) = []
failed_job id (some active) = []
failed_job id (some delayed) = []
failed_job id (some completed) = []
failed_job id (some (failed reason)) = record { id = id; failed_reason = reason } ∷ []

abbrev pub failed_jobs : (String → Option Status) → List String → List FailedJob
failed_jobs status [] = []
failed_jobs status (id ∷ ids) = failed_job id (status id) ++ failed_jobs status ids

abbrev pub taken : Table → Option String → Option (String × Table)
taken s none = none
taken s (some id) = some (id, with_status active s id)

abbrev pub memory : Jobs
memory = record {
  queue = record {
    State = Table;
    job = λ s id. s.jobs id;
    add = λ s id d. resolved (put (s.status id) s id d);
  };
  status = λ s id. s.status id;
  get_failed = λ s. failed_jobs s.status s.ids;
  take = λ s. taken s (first_waiting s.status s.ids);
  complete = λ s id. with_status completed s id;
  fail = λ s id reason. with_status (failed reason) s id;
  delay = λ s id. with_status delayed s id;
  promote = λ s id. with_status waiting s id;
  retry = λ s id. with_status waiting s id;
}

first_waiting-status :
    (status : String → Option Status) (ids : List String) (id : String)
    → first_waiting status ids ≡ some id
    → status id ≡ some waiting
first_waiting-status status [] id e = cc
first_waiting-status status (x ∷ ids) id e = ground (arith, first_waiting-status status ids id)

failed_job-status :
    (status : String → Option Status) (id : String) (rest : List FailedJob) (job : FailedJob)
    → (In job rest → status job.id ≡ some (failed job.failed_reason))
    → (o : Option Status) → status id ≡ o
    → In job (failed_job id o ++ rest)
    → status job.id ≡ some (failed job.failed_reason)
failed_job-status status id rest job later none e i = later i
failed_job-status status id rest job later (some waiting) e i = later i
failed_job-status status id rest job later (some active) e i = later i
failed_job-status status id rest job later (some delayed) e i = later i
failed_job-status status id rest job later (some completed) e i = later i
failed_job-status status id rest job later (some (failed reason)) e (inl same) = rw same e
failed_job-status status id rest job later (some (failed reason)) e (inr i) = later i

failed_jobs-status :
    (status : String → Option Status) (ids : List String) (job : FailedJob)
    → In job (failed_jobs status ids)
    → status job.id ≡ some (failed job.failed_reason)
failed_jobs-status status [] job i = absurd i
failed_jobs-status status (id ∷ ids) job i =
    failed_job-status status id (failed_jobs status ids) job (failed_jobs-status status ids job)
      (status id) refl i

taken-status :
    (s t : Table) (o : Option String) (id : String)
    → taken s o ≡ some (id, t)
    → (o ≡ some id) × ((n : String) → t.status n ≡ (if n == id then some active else s.status n))
taken-status s t none id e = cc
taken-status s t (some x) id e =
    let pair : ◌≡◌ {A = String × Table} (x, with_status active s x) (id, t) = cc in
    let same : x ≡ id = ap (λ r. r.0) pair in
    (ap some same, λ n. sym (ap (λ r. r.1.status n) pair) ∙ rw same refl)

pub memory-IsJobs : IsJobs memory
memory-IsJobs = record {
  add_fresh = λ s t id d fresh e n. ground arith;
  add_taken = λ s t id d old there e n. ground arith;
  take_waiting = λ s t id e.
      let (found, at) = taken-status s t (first_waiting s.status s.ids) id e in
      (first_waiting-status s.status s.ids id found, at);
  complete_other = λ s id n other. inl (rw other refl);
  fail_status = λ s id reason n. refl;
  delay_other = λ s id n other. rw other refl;
  delay_active = λ s id e. rw (==_refl id) refl;
  promote_other = λ s id n other. rw other refl;
  retry_other = λ s id n other. rw other refl;
  retry_failed = λ s id reason e. ground arith;
  get_failed_status = λ s job there. failed_jobs-status s.status s.ids job there;
}

abbrev pub empty : memory.queue.State
empty = record { jobs = λ id. none; status = λ id. none; ids = [] }
