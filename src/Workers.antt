-- ===== src/Workers.antt =====
-- internal/workers/types.go and validation.go: what a worker sends, and what it is answered.
-- A validation error's list of fields is left out: a request passes or fails.
pub mod Authority
pub mod Execution
pub mod Finalize
pub mod Outcome
pub mod Steps
pub mod Reconcile
pub mod Claim
pub mod Replays
pub mod Calls
pub mod Success
pub mod Sessions
use task_forge.Base.{
  Text, ℕ, ◌+◌, ◌==◌, Bool, true, false, not, ◌&&◌, ◌||◌, Option, none, some, List, leb,
}
use task_forge.Lifecycle.{
  FailureClass, DlqReason, reportable_by_handler, valid_error_code, valid_error_message,
}
use task_forge.Schema.{Status, AttemptStatus, Location}

pub record Fence : Type 0 where
  pub job_id : ℕ
  pub attempt_id : ℕ
  pub lease_id : ℕ
  pub worker_id : ℕ
  pub session_id : ℕ

-- ValidateFence: no part is uuid.Nil.
unfoldable pub valid_fence : Fence → Bool
valid_fence f =
    not (f.job_id == 0)
    && not (f.attempt_id == 0)
    && not (f.lease_id == 0)
    && not (f.worker_id == 0)
    && not (f.session_id == 0)

pub record FailureReport : Type 0 where
  pub fence : Fence
  pub outcome_request_id : ℕ
  pub class : FailureClass
  pub error_code : Text
  pub error_message : Text

unfoldable pub valid_failure_report : FailureReport → Bool
valid_failure_report r =
    valid_fence r.fence
    && not (r.outcome_request_id == 0)
    && reportable_by_handler r.class
    && valid_error_code r.error_code
    && valid_error_message r.error_message

pub record CancelAcknowledgment : Type 0 where
  pub fence : Fence
  pub outcome_request_id : ℕ

unfoldable pub valid_cancel_acknowledgment : CancelAcknowledgment → Bool
valid_cancel_acknowledgment a = valid_fence a.fence && not (a.outcome_request_id == 0)

pub record OutcomeResult : Type 0 where
  pub job_id : ℕ
  pub job_status : Status
  pub attempt_status : AttemptStatus
  pub retry_at : Option ℕ
  -- In milliseconds, the unit that is stored.
  pub retry_delay : Option ℕ
  pub dead_letter_reason : Option DlqReason
  pub replayed : Bool

pub record StartResult : Type 0 where
  pub attempt_id : ℕ
  pub started_at : ℕ
  pub timeout_at : ℕ
  pub remaining : ℕ
  pub replayed : Bool

pub record ResultRef : Type 0 where
  pub location : Location
  pub inline_body : Option Text
  pub bucket : Text
  pub key : Text
  pub size_bytes : ℕ
  pub checksum : Text

pub record RenewalRequest : Type 0 where
  pub fence : Fence
  pub renewal_request_id : ℕ
  pub expected_version : ℕ

-- ValidateRenewal. The expected version is a number here, so it is not negative.
unfoldable pub valid_renewal : RenewalRequest → Bool
valid_renewal r = valid_fence r.fence && not (r.renewal_request_id == 0)

pub record RenewalResult : Type 0 where
  pub lease_id : ℕ
  pub renewal_version : ℕ
  pub expires_at : ℕ
  pub remaining : ℕ
  pub replayed : Bool

pub record ReconcileStats : Type 0 where
  pub stale_sessions : ℕ
  pub expired_leases : ℕ
  pub timed_out_attempts : ℕ
  pub canceled_attempts : ℕ
  pub requeued_jobs : ℕ
  pub retry_waiting_jobs : ℕ
  pub dead_lettered_jobs : ℕ
  pub skipped : ℕ

pub record ClaimRequest : Type 0 where
  pub worker_id : ℕ
  pub session_id : ℕ
  pub claim_request_id : ℕ
  pub queue : Text

pub data ClaimDisposition : Type 0 where
  claimed queue_empty duplicate_notification no_eligible_job capacity_exhausted : ClaimDisposition

pub record Assignment : Type 0 where
  pub scope : Text
  pub job_id : ℕ
  pub queue : Text
  pub job_type : Text
  pub payload : Text
  pub priority : ℕ
  pub timeout_seconds : ℕ
  pub required_capabilities : List Text
  pub attempt_id : ℕ
  pub attempt_number : ℕ
  pub lease_id : ℕ
  pub lease_expires_at : ℕ
  pub lease_remaining : ℕ
  pub worker_id : ℕ
  pub session_id : ℕ

pub record ClaimResult : Type 0 where
  pub disposition : ClaimDisposition
  pub assignment : Option Assignment
  pub replayed : Bool

abbrev acknowledgeable : ClaimDisposition → Option Assignment → Bool
acknowledgeable ClaimDisposition.claimed (some _) = true
acknowledgeable ClaimDisposition.queue_empty none = true
acknowledgeable ClaimDisposition.duplicate_notification none = true
acknowledgeable _ _ = false

-- SafeToAcknowledge
unfoldable pub safe_to_acknowledge : ClaimResult → Bool
safe_to_acknowledge r = acknowledgeable r.disposition r.assignment
