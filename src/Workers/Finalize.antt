-- ===== src/Workers/Finalize.antt =====
-- internal/workers/outcome.go: the writes that end an attempt, whoever decided its end.
pub mod Steps
pub mod Answer
use task_forge.Base.{
  Text, ℕ, ◌+◌, ◌*◌, ◌/◌, ◌==◌, Bool, true, false, not, ◌&&◌, Option, none, some, ltb, is_at,
  if◌then◌else◌, Result, ok, err, ◌>>=◌, ◌>>◌, refuse, or_fail, state_conflict, outcome_conflict,
}
use task_forge.Table.{Table, find, update, find_where}
use task_forge.Lifecycle.{FailureClass, DlqReason, is_empty, code_canceled, message_canceled}
use task_forge.Lifecycle.Retry.{Decision}
use task_forge.Lifecycle.Dlq.{insert_dlq_entry}
use task_forge.Schema.{
  Db, Job, Attempt, Lease, Status, AttemptStatus, LeaseStatus, is_executing, is_cancel_requested,
  attempt_executing, lease_active, millisecond,
}
use task_forge.Outbox.{insert_work_available}
use task_forge.Workers.{Fence, OutcomeResult}
use task_forge.Workers.Authority.{FenceState}
use task_forge.Workers.Execution.{release_lease}

pub record AttemptOutcome : Type 0 where
  pub status : AttemptStatus
  pub class : FailureClass
  pub error_code : Text
  pub error_message : Text
  pub outcome_request_id : Option ℕ
  pub lease_status : LeaseStatus

-- The UUIDs that a transaction draws for the rows it may insert, and its own time.
pub record Fresh : Type 0 where
  pub event_id : ℕ
  pub dlq_id : ℕ
  pub tx_now : ℕ

-- nullableString
abbrev pub nullable : Text → Option Text
nullable t = if is_empty t then none else some t

-- COALESCE(new, old)
abbrev pub coalesce : Option ℕ → Option ℕ → Option ℕ
coalesce none old = old
coalesce (some v) old = some v

-- job_attempts_outcome_request_id_idx: the identity is on another attempt already.
abbrev other_attempt : ℕ → Option (ℕ × Attempt) → Bool
other_attempt i none = false
other_attempt i (some (k, a)) = not (k == i)

abbrev holds_outcome : Option ℕ → Attempt → Bool
holds_outcome none a = false
holds_outcome (some r) a = is_at r a.outcome_request_id

-- rejectForeignOutcomeIdentity, and the unique index behind it.
unfoldable pub foreign_outcome : Db → Option ℕ → ℕ → Bool
foreign_outcome db request_id attempt_id =
    other_attempt attempt_id (find_where (holds_outcome request_id) db.attempts)

-- setJobStatus; `none` leaves `available_at`.
abbrev pub set_status : Status → Option ℕ → ℕ → Job → Job
set_status status none now j = record j { status = status; updated_at = now }
set_status status (some t) now j = record j { status = status; updated_at = now; available_at = t }

-- requeueJob
abbrev pub requeue : ℕ → Job → Job
requeue now j = record j {
  status = Status.queued;
  available_at = now;
  updated_at = now;
  notification_generation = j.notification_generation + 1;
  last_notification_at = some now;
}

-- The retry that a decision stores, in milliseconds.
abbrev pub stored_millis : Decision → Option ℕ
stored_millis d = if d.retry then some (d.delay / millisecond) else none

abbrev pub retry_instant : ℕ → Option ℕ → Option ℕ
retry_instant now none = none
retry_instant now (some ms) = some (now + ms * millisecond)

abbrev pub end_attempt : FenceState → AttemptOutcome → Decision → Attempt → Attempt
end_attempt s o d a = record a {
  status = o.status;
  finished_at = some s.server_now;
  failure_class = some o.class;
  error_code = nullable o.error_code;
  error_message = nullable o.error_message;
  outcome_request_id = coalesce o.outcome_request_id a.outcome_request_id;
  retry_delay_ms = stored_millis d;
  retry_at = retry_instant s.server_now (stored_millis d);
}

abbrev outcome_result :
    Fence → AttemptOutcome → Status → Option ℕ → Option ℕ → Option DlqReason → OutcomeResult
outcome_result f o status retry_at retry_delay reason = record {
  job_id = f.job_id;
  job_status = status;
  attempt_status = o.status;
  retry_at = retry_at;
  retry_delay = retry_delay;
  dead_letter_reason = reason;
  replayed = false;
}

-- The job's part of `finalizeAttempt`, after a stored decision: wait, go back to the queue, or
-- be dead-lettered.
unfoldable pub wait_for_retry :
    Db → FenceState → Fence → AttemptOutcome → ℕ → Result (Db × OutcomeResult)
wait_for_retry db s f o ms = do
  let at = s.server_now + ms * millisecond
  jobs ←
      or_fail
        (update f.job_id (λ (j : Job). is_executing j.status)
          (set_status Status.retry_wait (some at) s.server_now) db.jobs)
        state_conflict
  ok (record db { jobs = jobs }, outcome_result f o Status.retry_wait (some at) (some ms) none)

unfoldable pub back_to_queue :
    Db → FenceState → Fence → AttemptOutcome → Fresh → Result (Db × OutcomeResult)
back_to_queue db s f o fresh = do
  jobs ←
      or_fail (update f.job_id (λ (j : Job). is_executing j.status) (requeue s.server_now) db.jobs)
        state_conflict
  j ← or_fail (find f.job_id jobs) state_conflict
  db' ←
      insert_work_available fresh.event_id f.job_id s.queue j.notification_generation fresh.tx_now
        (record db { jobs = jobs })
  ok (db', outcome_result f o Status.queued (some s.server_now) (some 0) none)

unfoldable pub dead_letter_job :
    Db
    → FenceState
    → Fence
    → AttemptOutcome
    → Option DlqReason
    → Fresh
    → Result (Db × OutcomeResult)
dead_letter_job db s f o reason fresh = do
  jobs ←
      or_fail
        (update f.job_id (λ (j : Job). is_executing j.status)
          (set_status Status.dead_lettered none s.server_now) db.jobs)
        state_conflict
  db' ←
      insert_dlq_entry fresh.dlq_id s.scope s.queue f.job_id (some f.attempt_id) reason s.server_now
        (record db { jobs = jobs })
  ok (db', outcome_result f o Status.dead_lettered none none reason)

unfoldable pub settle_job :
    Db → FenceState → Fence → AttemptOutcome → Decision → Fresh → Result (Db × OutcomeResult)
unfolding wait_for_retry back_to_queue dead_letter_job
settle_job db s f o d fresh =
    if d.retry
    then (let ms = d.delay / millisecond in
        if ltb 0 ms then wait_for_retry db s f o ms else back_to_queue db s f o fresh)
    else dead_letter_job db s f o d.dead_letter_reason fresh

-- finalizeAttempt
unfoldable pub finalize_attempt :
    Db → FenceState → Fence → AttemptOutcome → Decision → Fresh → Result (Db × OutcomeResult)
unfolding settle_job
finalize_attempt db s f o d fresh = do
  attempts ←
      or_fail
        (update f.attempt_id (λ (a : Attempt). attempt_executing a.status) (end_attempt s o d)
          db.attempts)
        state_conflict
  refuse (foreign_outcome db o.outcome_request_id f.attempt_id) outcome_conflict
  leases ←
      or_fail
        (update f.lease_id (λ (l : Lease). lease_active l.status)
          (release_lease o.lease_status s.server_now) db.leases)
        state_conflict
  settle_job (record db { attempts = attempts; leases = leases }) s f o d fresh

abbrev pub cancel_attempt : ℕ → Option ℕ → Attempt → Attempt
cancel_attempt now request_id a = record a {
  status = AttemptStatus.canceled;
  finished_at = some now;
  failure_class = some FailureClass.canceled;
  error_code = some code_canceled;
  error_message = some message_canceled;
  outcome_request_id = coalesce request_id a.outcome_request_id;
}

-- finalizeCancellation
unfoldable pub finalize_cancellation :
    Db → FenceState → Fence → Option ℕ → LeaseStatus → Result (Db × OutcomeResult)
finalize_cancellation db s f request_id lease_status = do
  attempts ←
      or_fail
        (update f.attempt_id (λ (a : Attempt). attempt_executing a.status)
          (cancel_attempt s.server_now request_id) db.attempts)
        state_conflict
  refuse (foreign_outcome db request_id f.attempt_id) outcome_conflict
  leases ←
      or_fail
        (update f.lease_id (λ (l : Lease). lease_active l.status)
          (release_lease lease_status s.server_now) db.leases)
        state_conflict
  jobs ←
      or_fail
        (update f.job_id (λ (j : Job). is_cancel_requested j.status)
          (set_status Status.canceled none s.server_now) db.jobs)
        state_conflict
  ok (
    record db { jobs = jobs; attempts = attempts; leases = leases },
    record {
      job_id = f.job_id;
      job_status = Status.canceled;
      attempt_status = AttemptStatus.canceled;
      retry_at = none;
      retry_delay = none;
      dead_letter_reason = none;
      replayed = false;
    },
  )
