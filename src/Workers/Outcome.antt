-- ===== src/Workers/Outcome.antt =====
-- internal/workers/outcome.go: a worker's report of a failure, and its acknowledgment of a
-- cancellation. The first writes one decision; a repeat is answered with that decision.
use task_forge.Base.{
  [], Text, text_eq, ℕ, ◌==◌, Bool, true, false, ◌&&◌, Option, none, some, is_at, if◌then◌else◌,
  beside, Result, ok, err, ◌>>=◌, ◌>>◌, guard, refuse, validation_failed, fence_rejected,
  lease_expired, attempt_timed_out, state_conflict, outcome_conflict,
}
use task_forge.Lifecycle.{FailureClass, DlqReason, same_class}
use task_forge.Lifecycle.Retry.{Float64, RetryPolicy, decide}
use task_forge.Schema.{
  Db, Status, AttemptStatus, LeaseStatus, is_running, is_cancel_requested, attempt_running,
  attempt_executing,
}
use task_forge.Workers.{
  FailureReport, valid_failure_report, CancelAcknowledgment, valid_cancel_acknowledgment,
  OutcomeResult,
}
use task_forge.Workers.Authority.{FenceState, timed_out, lease_usable, lock_authority_rows}
use task_forge.Workers.Finalize.{
  AttemptOutcome, Fresh, finalize_attempt, finalize_cancellation, foreign_outcome,
}

-- derefString
abbrev pub deref : Option Text → Text
deref none = []
deref (some t) = t

abbrev decided_delay : Option ℕ → Status
decided_delay none = Status.dead_lettered
decided_delay (some ms) = if ms == 0 then Status.queued else Status.retry_wait

abbrev decided_for : AttemptStatus → Option ℕ → Status
decided_for AttemptStatus.canceled d = Status.canceled
decided_for AttemptStatus.leased d = decided_delay d
decided_for AttemptStatus.running d = decided_delay d
decided_for AttemptStatus.succeeded d = decided_delay d
decided_for AttemptStatus.failed d = decided_delay d
decided_for AttemptStatus.timed_out d = decided_delay d
decided_for AttemptStatus.abandoned d = decided_delay d

-- decidedJobStatus
abbrev pub decided_job_status : FenceState → Status
decided_job_status s = decided_for s.attempt_status s.retry_delay_ms

abbrev pub class_is : FailureClass → Option FailureClass → Bool
class_is c none = false
class_is c (some d) = same_class d c

abbrev pub replayed_reason : Status → Option FailureClass → Option DlqReason
replayed_reason Status.dead_lettered (some FailureClass.permanent) =
    some DlqReason.permanent_failure
replayed_reason Status.dead_lettered _ = some DlqReason.attempts_exhausted
replayed_reason _ _ = none

-- replayedOutcome, with the job id that `Fail` adds.
unfoldable pub replayed_outcome : FenceState → FailureReport → Result OutcomeResult
replayed_outcome s r = do
  guard (class_is r.class s.failure_class) outcome_conflict
  guard
      (text_eq (deref s.error_code) r.error_code && text_eq (deref s.error_message) r.error_message)
      outcome_conflict
  ok (record {
    job_id = r.fence.job_id;
    job_status = decided_job_status s;
    attempt_status = s.attempt_status;
    retry_at = s.retry_at;
    retry_delay = s.retry_delay_ms;
    dead_letter_reason = replayed_reason (decided_job_status s) s.failure_class;
    replayed = true;
  })

abbrev pub failed_outcome : FailureReport → AttemptOutcome
failed_outcome r = record {
  status = AttemptStatus.failed;
  class = r.class;
  error_code = r.error_code;
  error_message = r.error_message;
  outcome_request_id = some r.outcome_request_id;
  lease_status = LeaseStatus.released;
}

-- A cancellation's answer to its own identity.
unfoldable pub replayed_cancellation : FenceState → CancelAcknowledgment → Result OutcomeResult
replayed_cancellation s a = elim s.attempt_status [
  | AttemptStatus.canceled ↦ ok (record {
    job_id = a.fence.job_id;
    job_status = decided_job_status s;
    attempt_status = s.attempt_status;
    retry_at = none;
    retry_delay = none;
    dead_letter_reason = none;
    replayed = true;
  })
  | _ ↦ err outcome_conflict
]

unfoldable pub acknowledge_locked :
    Db → CancelAcknowledgment → FenceState → Result (Db × OutcomeResult)
acknowledge_locked db a s =
    if is_at a.outcome_request_id s.outcome_request_id
    then beside db (replayed_cancellation s a)
    else (do
      refuse (foreign_outcome db (some a.outcome_request_id) a.fence.attempt_id) outcome_conflict
      guard s.session_healthy fence_rejected
      guard (lease_usable s) lease_expired
      guard (is_cancel_requested s.job_status && attempt_executing s.attempt_status) state_conflict
      finalize_cancellation db s a.fence (some a.outcome_request_id) LeaseStatus.released)

-- AcknowledgeCancellation
unfoldable pub acknowledge_cancellation :
    Db → Text → CancelAcknowledgment → ℕ → Result (Db × OutcomeResult)
acknowledge_cancellation db scope a now = do
  guard (valid_cancel_acknowledgment a) validation_failed
  s ← lock_authority_rows db scope a.fence now
  acknowledge_locked db a s

-- `fmt.Errorf("%w: %v", ErrStateConflict, err)`
abbrev pub as_conflict {ℓ} : {A : Type ℓ} → Result A → Result A
as_conflict (ok a) = ok a
as_conflict (err _) = err state_conflict

module _ (fl : Float64) where
  open fl use {Carrier}

  -- The first report of a failure.
  unfoldable pub report_failure :
      Db
      → RetryPolicy fl
      → Option Carrier
      → FailureReport
      → FenceState
      → Fresh
      → Result (Db × OutcomeResult)
  report_failure db p jitter r s fresh = do
    refuse (foreign_outcome db (some r.outcome_request_id) r.fence.attempt_id) outcome_conflict
    guard s.session_healthy fence_rejected
    refuse (timed_out s) attempt_timed_out
    guard (lease_usable s) lease_expired
    guard (is_running s.job_status && attempt_running s.attempt_status) state_conflict
    d ← as_conflict (decide fl p r.class s.attempt_number s.attempt_number s.max_attempts jitter)
    finalize_attempt db s r.fence (failed_outcome r) d fresh

  unfoldable pub fail_locked :
      Db
      → RetryPolicy fl
      → Option Carrier
      → FailureReport
      → FenceState
      → Fresh
      → Result (Db × OutcomeResult)
  fail_locked db p jitter r s fresh =
      if is_at r.outcome_request_id s.outcome_request_id
      then beside db (replayed_outcome s r)
      else report_failure db p jitter r s fresh

  -- Fail
  unfoldable pub fail :
      Db
      → RetryPolicy fl
      → Option Carrier
      → Text
      → FailureReport
      → Fresh
      → ℕ
      → Result (Db × OutcomeResult)
  fail db p jitter scope r fresh now = do
    guard (valid_failure_report r) validation_failed
    s ← lock_authority_rows db scope r.fence now
    fail_locked db p jitter r s fresh
