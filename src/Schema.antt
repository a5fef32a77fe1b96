-- ===== src/Schema.antt =====
-- The tables of migrations/0001 to 0018 that the stores read and write. A row's primary key is
-- its key in the table; a UUID is a number, the nil UUID is 0. An instant is the number of
-- nanoseconds since an origin before every instant of a run.
use task_forge.Base.{
  Text, text_eq, ℕ, Bool, true, false, List, [], ◌∷◌, Option, none, some, if◌then◌else◌,
}
use task_forge.Table.{Table}
use task_forge.Lifecycle.{FailureClass, DlqReason}

pub data Status : Type 0 where
  pending queued leased running retry_wait cancel_requested succeeded canceled dead_lettered :
      Status

pub data AttemptStatus : Type 0 where
  leased running succeeded failed timed_out canceled abandoned : AttemptStatus

pub data LeaseStatus : Type 0 where
  active completed expired released : LeaseStatus

pub data SessionStatus : Type 0 where
  starting healthy draining unhealthy offline : SessionStatus

pub record Queue : Type 0 where
  pub name : Text
  pub worker_group : Text
  pub max_concurrency : ℕ

pub record Job : Type 0 where
  pub scope : Text
  pub queue : Text
  pub job_type : Text
  pub payload : Text
  pub status : Status
  pub priority : ℕ
  pub max_attempts : ℕ
  pub timeout_seconds : ℕ
  pub required_capabilities : List Text
  pub scheduled_at : Option ℕ
  pub available_at : ℕ
  pub cancel_requested_at : Option ℕ
  pub replayed_from_job_id : Option ℕ
  pub notification_generation : ℕ
  pub last_notification_at : Option ℕ
  pub created_at : ℕ
  pub updated_at : ℕ

pub record Attempt : Type 0 where
  pub job_id : ℕ
  pub scope : Text
  pub queue : Text
  pub attempt_number : ℕ
  pub worker_id : ℕ
  pub session_id : ℕ
  pub status : AttemptStatus
  pub started_at : Option ℕ
  pub finished_at : Option ℕ
  pub timeout_at : Option ℕ
  pub outcome_request_id : Option ℕ
  pub failure_class : Option FailureClass
  pub error_code : Option Text
  pub error_message : Option Text
  pub retry_delay_ms : Option ℕ
  pub retry_at : Option ℕ

pub record Lease : Type 0 where
  pub job_id : ℕ
  pub attempt_id : ℕ
  pub scope : Text
  pub queue : Text
  pub worker_id : ℕ
  pub session_id : ℕ
  pub claim_request_id : ℕ
  pub status : LeaseStatus
  pub acquired_at : ℕ
  pub renewed_at : ℕ
  pub expires_at : ℕ
  pub released_at : Option ℕ
  pub renewal_version : ℕ
  pub last_renewal_request_id : Option ℕ

pub record Worker : Type 0 where
  pub scope : Text
  pub name : Text

pub record Session : Type 0 where
  pub worker_id : ℕ
  pub scope : Text
  pub name : Text
  pub hostname : Text
  pub worker_group : Text
  pub concurrency_limit : ℕ
  pub capabilities : List Text
  pub supported_job_types : List Text
  pub status : SessionStatus
  pub registered_at : ℕ
  pub last_heartbeat_at : ℕ
  pub ended_at : Option ℕ
  pub worker_key_id : Option ℕ

pub record DlqEntry : Type 0 where
  pub scope : Text
  pub queue : Text
  pub job_id : ℕ
  pub terminal_attempt_id : Option ℕ
  pub reason : DlqReason
  pub created_at : ℕ

-- A `work.available` event; its payload is the queue and the job id.
pub record Event : Type 0 where
  pub job_id : ℕ
  pub queue : Text
  pub notification_generation : ℕ
  pub published : Bool
  pub attempts : ℕ
  pub available_at : ℕ
  pub claimed_at : Option ℕ
  pub published_at : Option ℕ
  pub last_error : Option Text
  pub created_at : ℕ

pub record IdempotencyRecord : Type 0 where
  pub scope : Text
  pub idempotency_key : Text
  pub request_fingerprint : Text
  pub job_id : ℕ

pub record DlqReplay : Type 0 where
  pub scope : Text
  pub original_job_id : ℕ
  pub idempotency_key : Text
  pub replacement_job_id : ℕ

pub data Location : Type 0 where
  inline object : Location

-- A row of `results`, behind its job's id; NULL and the empty text are both the empty text.
pub record StoredResult : Type 0 where
  pub attempt_id : ℕ
  pub scope : Text
  pub location : Location
  pub inline_body : Option Text
  pub object_bucket : Text
  pub object_key : Text
  pub size_bytes : ℕ
  pub checksum_sha256 : Text

pub record Db : Type 0 where
  pub queues : List Queue
  pub workers : Table Worker
  pub sessions : Table Session
  pub jobs : Table Job
  pub attempts : Table Attempt
  pub leases : Table Lease
  pub dlq : Table DlqEntry
  pub outbox : Table Event
  pub results : Table StoredResult
  pub idempotency : List IdempotencyRecord
  pub replays : List DlqReplay

-- SELECT ... FROM queues WHERE name = $1
unfoldable pub find_queue : Text → List Queue → Option Queue
find_queue n [] = none
find_queue n (q ∷ qs) = if text_eq q.name n then some q else find_queue n qs

-- jobs.Status.Executing, and workers.isExecutingJobStatus
abbrev pub is_executing : Status → Bool
is_executing Status.leased = true
is_executing Status.running = true
is_executing _ = false

-- jobs.Status.Terminal
abbrev pub is_terminal : Status → Bool
is_terminal Status.succeeded = true
is_terminal Status.canceled = true
is_terminal Status.dead_lettered = true
is_terminal _ = false

abbrev pub is_queued : Status → Bool
is_queued Status.queued = true
is_queued _ = false

abbrev pub is_leased : Status → Bool
is_leased Status.leased = true
is_leased _ = false

abbrev pub is_running : Status → Bool
is_running Status.running = true
is_running _ = false

abbrev pub is_cancel_requested : Status → Bool
is_cancel_requested Status.cancel_requested = true
is_cancel_requested _ = false

abbrev pub is_canceled : Status → Bool
is_canceled Status.canceled = true
is_canceled _ = false

abbrev pub is_dead_lettered : Status → Bool
is_dead_lettered Status.dead_lettered = true
is_dead_lettered _ = false

-- The two statuses that wait for `available_at`.
abbrev pub is_waiting : Status → Bool
is_waiting Status.pending = true
is_waiting Status.retry_wait = true
is_waiting _ = false

-- workers.isExecutingAttemptStatus
abbrev pub attempt_executing : AttemptStatus → Bool
attempt_executing AttemptStatus.leased = true
attempt_executing AttemptStatus.running = true
attempt_executing _ = false

abbrev pub attempt_leased : AttemptStatus → Bool
attempt_leased AttemptStatus.leased = true
attempt_leased _ = false

abbrev pub attempt_running : AttemptStatus → Bool
attempt_running AttemptStatus.running = true
attempt_running _ = false

abbrev pub lease_active : LeaseStatus → Bool
lease_active LeaseStatus.active = true
lease_active _ = false

abbrev pub session_healthy : SessionStatus → Bool
session_healthy SessionStatus.healthy = true
session_healthy _ = false

-- workers.isCurrentSessionStatus
abbrev pub session_current : SessionStatus → Bool
session_current SessionStatus.starting = true
session_current SessionStatus.healthy = true
session_current SessionStatus.draining = true
session_current _ = false

abbrev pub millisecond : ℕ
millisecond = 1_000_000

abbrev pub second : ℕ
second = 1_000_000_000
