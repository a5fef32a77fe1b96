-- ===== src/Workers/Execution.antt =====
-- internal/workers/store.go Start and Succeed, and heartbeat.go RenewLease: a worker's fenced
-- transitions while it holds a lease. Each is one transaction: on an error nothing is written.
use task_forge.Base.{
  Text, ℕ, ◌+◌, ◌-◌, ◌*◌, ◌==◌, Bool, true, false, not, ◌&&◌, ◌||◌, Option, none, some,
  if◌then◌else◌, beside, is_at, is_some, Result, ok, ◌>>=◌, ◌>>◌, guard, refuse, or_fail,
  validation_failed, lease_expired, state_conflict, cancellation_requested, database_error,
  fence_rejected, attempt_timed_out, invalid_argument, renewal_conflict, invalid_result,
}
use task_forge.Table.{find, insert, update, find_where}
use task_forge.Lifecycle.{is_empty}
use task_forge.Schema.{
  Db, Job, Attempt, Lease, Status, AttemptStatus, LeaseStatus, StoredResult, inline, object,
  is_executing, is_leased, is_running, is_cancel_requested, is_canceled, attempt_executing,
  attempt_leased, attempt_running, lease_active, second,
}
use task_forge.Workers.{
  Fence, valid_fence, StartResult, ResultRef, RenewalRequest, valid_renewal, RenewalResult,
}
use task_forge.Workers.Authority.{
  FenceState, timed_out, lease_usable, lock_authority_rows, lock_fence,
}

-- remainingUntil: truncated at zero, as `-` is.
abbrev pub remaining_until : ℕ → ℕ → ℕ
remaining_until expires_at now = expires_at - now

abbrev pub start_attempt : ℕ → ℕ → Attempt → Attempt
start_attempt now timeout_at a = record a {
  status = AttemptStatus.running;
  started_at = some now;
  timeout_at = some timeout_at;
}

abbrev pub start_job : ℕ → Job → Job
start_job now j = record j { status = Status.running; updated_at = now }

-- The answer to a `Start` of an attempt that runs already, from its own row.
unfoldable pub replay_start : Db → Fence → ℕ → Result (Db × StartResult)
replay_start db f now = do
  a ← or_fail (find f.attempt_id db.attempts) database_error
  started_at ← or_fail a.started_at database_error
  timeout_at ← or_fail a.timeout_at state_conflict
  ok (
    db,
    record {
      attempt_id = f.attempt_id;
      started_at = started_at;
      timeout_at = timeout_at;
      remaining = remaining_until timeout_at now;
      replayed = true;
    },
  )

-- The first `Start` of an attempt.
unfoldable pub begin_attempt : Db → Fence → ℕ → Result (Db × StartResult)
begin_attempt db f now = do
  j ← or_fail (find f.job_id db.jobs) database_error
  let timeout_at = now + j.timeout_seconds * second
  attempts ←
      or_fail
        (update f.attempt_id (λ (a : Attempt). attempt_leased a.status)
          (start_attempt now timeout_at) db.attempts)
        state_conflict
  jobs ←
      or_fail (update f.job_id (λ (j : Job). is_leased j.status) (start_job now) db.jobs)
        state_conflict
  ok (
    record db { jobs = jobs; attempts = attempts },
    record {
      attempt_id = f.attempt_id;
      started_at = now;
      timeout_at = timeout_at;
      remaining = j.timeout_seconds * second;
      replayed = false;
    },
  )

-- `Start` behind its fence.
unfoldable pub start_locked : Db → Fence → FenceState → ℕ → Result (Db × StartResult)
start_locked db f s now =
    if is_running s.job_status && attempt_running s.attempt_status
    then replay_start db f now
    else (do
      refuse (is_cancel_requested s.job_status || is_canceled s.job_status) cancellation_requested
      guard (is_leased s.job_status && attempt_leased s.attempt_status) state_conflict
      begin_attempt db f now)

-- Start
unfoldable pub start : Db → Text → Fence → ℕ → Result (Db × StartResult)
start db scope f now = do
  guard (valid_fence f) validation_failed
  s ← lock_fence db scope f now
  guard (lease_usable s) lease_expired
  start_locked db f s now

abbrev pub succeed_job : ℕ → Job → Job
succeed_job now j = record j { status = Status.succeeded; updated_at = now }

abbrev pub succeed_attempt : ℕ → Attempt → Attempt
succeed_attempt now a = record a { status = AttemptStatus.succeeded; finished_at = some now }

abbrev pub release_lease : LeaseStatus → ℕ → Lease → Lease
release_lease status now l = record l { status = status; released_at = some now }

abbrev pub no_body : Option Text → Bool
no_body none = true
no_body (some b) = is_empty b

-- results.Result.Validate
unfoldable pub valid_result : ResultRef → Bool
valid_result r = elim r.location [
  | inline ↦
      not (no_body r.inline_body) && is_empty r.bucket && is_empty r.key && is_empty r.checksum
  | object ↦
      not (is_some r.inline_body)
      && not (is_empty r.bucket)
      && not (is_empty r.key)
      && not (is_empty r.checksum)
]

abbrev pub stored : Text → Fence → ResultRef → StoredResult
stored scope f r = record {
  attempt_id = f.attempt_id;
  scope = scope;
  location = r.location;
  inline_body = r.inline_body;
  object_bucket = r.bucket;
  object_key = r.key;
  size_bytes = r.size_bytes;
  checksum_sha256 = r.checksum;
}

-- results.InsertResultTx, where a result was given.
unfoldable pub insert_result : Option ResultRef → Text → Fence → Db → Result Db
insert_result none scope f db = ok db
insert_result (some r) scope f db = do
  guard (valid_result r) invalid_result
  results ← or_fail (insert f.job_id (stored scope f r) db.results) database_error
  ok (record db { results = results })

abbrev completed_rows : Status → AttemptStatus → LeaseStatus → Bool
completed_rows Status.succeeded AttemptStatus.succeeded LeaseStatus.completed = true
completed_rows _ _ _ = false

abbrev pub already_succeeded : FenceState → Bool
already_succeeded s = completed_rows s.job_status s.attempt_status s.lease_status

-- The three writes of a successful outcome, and its result.
unfoldable pub complete : Db → Text → Fence → Option ResultRef → ℕ → Result Db
complete db scope f result now = do
  jobs ←
      or_fail (update f.job_id (λ (j : Job). is_running j.status) (succeed_job now) db.jobs)
        state_conflict
  attempts ←
      or_fail
        (update f.attempt_id (λ (a : Attempt). attempt_running a.status) (succeed_attempt now)
          db.attempts)
        state_conflict
  leases ←
      or_fail
        (update f.lease_id (λ (l : Lease). lease_active l.status)
          (release_lease LeaseStatus.completed now) db.leases)
        state_conflict
  insert_result result scope f (record db { jobs = jobs; attempts = attempts; leases = leases })

-- `Succeed` over the locked rows.
unfoldable pub succeed_locked : Db → Text → Fence → Option ResultRef → FenceState → ℕ → Result Db
succeed_locked db scope f result s now = if already_succeeded s then ok db else (do
  guard s.session_healthy fence_rejected
  refuse (timed_out s) attempt_timed_out
  guard (lease_usable s) lease_expired
  guard (is_running s.job_status && attempt_running s.attempt_status) state_conflict
  complete db scope f result now)

-- Succeed
unfoldable pub succeed : Db → Text → Fence → Option ResultRef → ℕ → Result Db
succeed db scope f result now = do
  guard (valid_fence f) validation_failed
  s ← lock_authority_rows db scope f now
  succeed_locked db scope f result s now

abbrev pub renew_row : ℕ → ℕ → ℕ → Lease → Lease
renew_row now expires_at request_id l = record l {
  renewed_at = now;
  expires_at = expires_at;
  renewal_version = l.renewal_version + 1;
  last_renewal_request_id = some request_id;
}

-- The first lease that another renewal identity is stored on.
abbrev pub holds_renewal : ℕ → Lease → Bool
holds_renewal request_id l = is_at request_id l.last_renewal_request_id

abbrev pub other_owner : ℕ → Option (ℕ × Lease) → Bool
other_owner i none = false
other_owner i (some (k, l)) = not (k == i)

unfoldable pub replay_renewal : FenceState → RenewalRequest → Result RenewalResult
replay_renewal s req = do
  guard (s.renewal_version == req.expected_version + 1) renewal_conflict
  ok (record {
    lease_id = req.fence.lease_id;
    renewal_version = s.renewal_version;
    expires_at = s.expires_at;
    remaining = remaining_until s.expires_at s.server_now;
    replayed = true;
  })

unfoldable pub extend_lease : Db → FenceState → RenewalRequest → ℕ → Result (Db × RenewalResult)
extend_lease db s req lease_duration = do
  refuse
      (other_owner req.fence.lease_id (find_where (holds_renewal req.renewal_request_id) db.leases))
      renewal_conflict
  guard (s.renewal_version == req.expected_version) renewal_conflict
  let expires_at = s.server_now + lease_duration
  leases ←
      or_fail
        (update req.fence.lease_id
          (λ (l : Lease). lease_active l.status && l.renewal_version == req.expected_version)
          (renew_row s.server_now expires_at req.renewal_request_id) db.leases)
        renewal_conflict
  ok (
    record db { leases = leases },
    record {
      lease_id = req.fence.lease_id;
      renewal_version = req.expected_version + 1;
      expires_at = expires_at;
      remaining = remaining_until expires_at s.server_now;
      replayed = false;
    },
  )

unfoldable pub renew_locked : Db → RenewalRequest → ℕ → FenceState → Result (Db × RenewalResult)
renew_locked db req lease_duration s =
    if is_at req.renewal_request_id s.last_renewal_request_id
    then beside db (replay_renewal s req)
    else extend_lease db s req lease_duration

-- RenewLease. A duration of 0 stands for every one that is not positive.
unfoldable pub renew_lease : Db → Text → RenewalRequest → ℕ → ℕ → Result (Db × RenewalResult)
renew_lease db scope req lease_duration now = do
  guard (valid_renewal req) validation_failed
  refuse (lease_duration == 0) invalid_argument
  s ← lock_fence db scope req.fence now
  guard (lease_usable s) lease_expired
  refuse (timed_out s) attempt_timed_out
  guard (is_executing s.job_status && attempt_executing s.attempt_status) state_conflict
  renew_locked db req lease_duration s
