-- ===== src/Jobs/Cancel.antt =====
-- internal/jobs/cancel.go: a request to cancel, on every status of the job.
use task_forge.Base.{
  Text, text_eq, ℕ, Bool, true, false, ◌&&◌, Option, none, some, Result, ok, ◌>>=◌, or_fail,
  job_not_found, job_not_cancelable, database_error,
}
use task_forge.Table.{find_if, update}
use task_forge.Schema.{Db, Job, Status, find_queue}

pub record CancelResult : Type 0 where
  pub job_id : ℕ
  pub status : Status
  -- `none` is the zero time.
  pub cancel_requested_at : Option ℕ
  pub already_requested : Bool

-- The switch on the status: where a cancellation leads, or no target.
abbrev pub cancel_target : Status → Option Status
cancel_target Status.pending = some Status.canceled
cancel_target Status.queued = some Status.canceled
cancel_target Status.retry_wait = some Status.canceled
cancel_target Status.leased = some Status.cancel_requested
cancel_target Status.running = some Status.cancel_requested
cancel_target _ = none

abbrev pub same_status : Status → Status → Bool
same_status Status.pending Status.pending = true
same_status Status.queued Status.queued = true
same_status Status.leased Status.leased = true
same_status Status.running Status.running = true
same_status Status.retry_wait Status.retry_wait = true
same_status Status.cancel_requested Status.cancel_requested = true
same_status Status.succeeded Status.succeeded = true
same_status Status.canceled Status.canceled = true
same_status Status.dead_lettered Status.dead_lettered = true
same_status _ _ = false

abbrev pub cancel_row : Status → ℕ → Job → Job
cancel_row target now j = record j {
  status = target;
  cancel_requested_at = some now;
  updated_at = now;
}

unfoldable pub cancel_now : Db → Text → ℕ → ℕ → Job → Result (Db × CancelResult)
cancel_now db scope job_id now j = do
  target ← or_fail (cancel_target j.status) job_not_cancelable
  jobs ←
      or_fail
        (update job_id (λ (k : Job). text_eq k.scope scope && same_status k.status j.status)
          (cancel_row target now) db.jobs)
        job_not_cancelable
  ok (
    record db { jobs = jobs },
    record {
      job_id = job_id;
      status = target;
      cancel_requested_at = some now;
      already_requested = false;
    },
  )

abbrev requested_already : Db → ℕ → Job → Result (Db × CancelResult)
requested_already db job_id j = ok (
  db,
  record {
    job_id = job_id;
    status = j.status;
    cancel_requested_at = j.cancel_requested_at;
    already_requested = true;
  },
)

unfoldable pub cancel_by_status : Status → Db → Text → ℕ → ℕ → Job → Result (Db × CancelResult)
cancel_by_status Status.cancel_requested db scope job_id now j = requested_already db job_id j
cancel_by_status Status.canceled db scope job_id now j = requested_already db job_id j
cancel_by_status _ db scope job_id now j = cancel_now db scope job_id now j

-- RequestCancel
unfoldable pub request_cancel : Db → Text → ℕ → ℕ → Result (Db × CancelResult)
request_cancel db scope job_id now = do
  j ← or_fail (find_if job_id (λ (j : Job). text_eq j.scope scope) db.jobs) job_not_found
  _ ← or_fail (find_queue j.queue db.queues) database_error
  cancel_by_status j.status db scope job_id now j
