-- ===== src/Workers/Reconcile.antt =====
-- internal/workers/reconcile.go and timeout.go: what the reconciler does to a lease that lapsed
-- and to an attempt that outlived its deadline. Each candidate is a transaction of its own.
pub mod Steps
pub mod Expiry
use task_forge.Base.{
  Text, ℕ, ◌+◌, ◌==◌, Bool, true, false, not, ◌&&◌, ◌||◌, Option, none, some, ltb, leb,
  if◌then◌else◌, Result, ok, err, ◌>>=◌, ◌>>◌, Error, fence_rejected,
}
use task_forge.Table.{Table, find, find_where}
use task_forge.Lifecycle.{
  FailureClass, code_timeout, message_timeout, code_abandoned, message_abandoned,
}
use task_forge.Lifecycle.Retry.{Float64, RetryPolicy, decide}
use task_forge.Schema.{
  Db, Attempt, Lease, Status, AttemptStatus, LeaseStatus, is_executing, is_running,
  is_cancel_requested, is_dead_lettered, is_queued, attempt_executing, attempt_running,
  lease_active,
}
use task_forge.Workers.{Fence, ReconcileStats, OutcomeResult}
use task_forge.Workers.Authority.{FenceState, timed_out, lease_usable, lock_authority_rows}
use task_forge.Workers.Finalize.{AttemptOutcome, Fresh, finalize_attempt, finalize_cancellation}

abbrev pub skip : ReconcileStats → ReconcileStats
skip st = record st { skipped = st.skipped + 1 }

-- The fence that a lease's own row names.
abbrev pub lease_fence : ℕ → Lease → Fence
lease_fence id l = record {
  job_id = l.job_id;
  attempt_id = l.attempt_id;
  lease_id = id;
  worker_id = l.worker_id;
  session_id = l.session_id;
}

abbrev on_or_before : Option ℕ → ℕ → Bool
on_or_before none e = false
on_or_before (some t) e = leb t e

-- timedOutBeforeLapse: the deadline had passed when the lease lapsed.
abbrev pub timed_out_before_lapse : FenceState → Bool
timed_out_before_lapse s = on_or_before s.timeout_at s.expires_at && timed_out s

-- The lease status that finalizeTimeout leaves.
abbrev pub timeout_lease_status : FenceState → LeaseStatus
timeout_lease_status s =
    if lease_active s.lease_status && leb s.expires_at s.server_now
    then LeaseStatus.expired
    else LeaseStatus.released

abbrev pub timeout_outcome : FenceState → AttemptOutcome
timeout_outcome s = record {
  status = AttemptStatus.timed_out;
  class = FailureClass.timed_out;
  error_code = code_timeout;
  error_message = message_timeout;
  outcome_request_id = none;
  lease_status = timeout_lease_status s;
}

abbrev pub abandoned_outcome : AttemptOutcome
abandoned_outcome = record {
  status = AttemptStatus.abandoned;
  class = FailureClass.abandoned;
  error_code = code_abandoned;
  error_message = message_abandoned;
  outcome_request_id = none;
  lease_status = LeaseStatus.expired;
}

abbrev count_timeout : OutcomeResult → ReconcileStats → ReconcileStats
count_timeout r st =
    if is_dead_lettered r.job_status
    then record st { dead_lettered_jobs = st.dead_lettered_jobs + 1 }
    else record st { retry_waiting_jobs = st.retry_waiting_jobs + 1 }

abbrev count_abandoned : OutcomeResult → ReconcileStats → ReconcileStats
count_abandoned r st =
    if is_queued r.job_status
    then record st { expired_leases = st.expired_leases + 1; requeued_jobs = st.requeued_jobs + 1 }
    else record st {
      expired_leases = st.expired_leases + 1;
      dead_lettered_jobs = st.dead_lettered_jobs + 1;
    }

-- A rejected fence is a skip, any other error an error.
abbrev pub unless_rejected {ℓ} :
    {A : Type ℓ} → Result FenceState → Result A → (FenceState → Result A) → Result A
unless_rejected (ok s) skipped k = k s
unless_rejected (err Error.fence_rejected) skipped k = skipped
unless_rejected (err e) skipped k = err e

-- The lease of an attempt: `JOIN leases l ON l.attempt_id = a.id`.
abbrev pub lease_of : ℕ → Lease → Bool
lease_of attempt_id l = l.attempt_id == attempt_id

module _ (fl : Float64) where
  open fl use {Carrier}

  -- finalizeTimeout
  unfoldable pub finalize_timeout :
      Db
      → RetryPolicy fl
      → Option Carrier
      → FenceState
      → Fence
      → Fresh
      → ReconcileStats
      → Result (Db × ReconcileStats)
  finalize_timeout db p jitter s f fresh st = do
    d ← decide fl p FailureClass.timed_out s.attempt_number s.attempt_number s.max_attempts jitter
    r ← finalize_attempt db s f (timeout_outcome s) d fresh
    ok (r.0, count_timeout r.1 st)

  unfoldable pub expire_canceled :
      Db → FenceState → Fence → ReconcileStats → Result (Db × ReconcileStats)
  expire_canceled db s f st = do
    r ← finalize_cancellation db s f none LeaseStatus.expired
    ok (
      r.0,
      record st {
        expired_leases = st.expired_leases + 1;
        canceled_attempts = st.canceled_attempts + 1;
      },
    )

  unfoldable pub expire_timed_out :
      Db
      → RetryPolicy fl
      → Option Carrier
      → FenceState
      → Fence
      → Fresh
      → ReconcileStats
      → Result (Db × ReconcileStats)
  expire_timed_out db p jitter s f fresh st = do
    r ← finalize_timeout db p jitter s f fresh st
    ok (
      r.0,
      record (r.1) {
        expired_leases = r.1.expired_leases + 1;
        timed_out_attempts = r.1.timed_out_attempts + 1;
      },
    )

  unfoldable pub expire_abandoned :
      Db
      → RetryPolicy fl
      → Option Carrier
      → FenceState
      → Fence
      → Fresh
      → ReconcileStats
      → Result (Db × ReconcileStats)
  expire_abandoned db p jitter s f fresh st = do
    d ← decide fl p FailureClass.abandoned s.attempt_number s.attempt_number s.max_attempts jitter
    r ← finalize_attempt db s f abandoned_outcome d fresh
    ok (r.0, count_abandoned r.1 st)

  -- The body of reconcileExpiredLease, over the locked rows.
  unfoldable pub expire_locked :
      Db
      → RetryPolicy fl
      → Option Carrier
      → Fence
      → Fresh
      → ReconcileStats
      → FenceState
      → Result (Db × ReconcileStats)
  expire_locked db p jitter f fresh st s =
      if not (lease_active s.lease_status) || ltb s.server_now s.expires_at
      then ok (db, skip st)
      else if not (attempt_executing s.attempt_status)
      then ok (db, skip st)
      else if is_cancel_requested s.job_status
      then expire_canceled db s f st
      else if not (is_executing s.job_status)
      then ok (db, skip st)
      else if timed_out_before_lapse s
      then expire_timed_out db p jitter s f fresh st
      else expire_abandoned db p jitter s f fresh st

  unfoldable pub expire_routed :
      Db
      → RetryPolicy fl
      → Option Carrier
      → ℕ
      → Fresh
      → ℕ
      → ReconcileStats
      → Option Lease
      → Result (Db × ReconcileStats)
  expire_routed db p jitter lease_id fresh now st none = ok (db, skip st)
  expire_routed db p jitter lease_id fresh now st (some l) =
      unless_rejected (lock_authority_rows db l.scope (lease_fence lease_id l) now)
        (ok (db, skip st)) (expire_locked db p jitter (lease_fence lease_id l) fresh st)

  -- reconcileExpiredLease
  unfoldable pub reconcile_expired_lease :
      Db
      → RetryPolicy fl
      → Option Carrier
      → ℕ
      → Fresh
      → ℕ
      → ReconcileStats
      → Result (Db × ReconcileStats)
  unfolding expire_routed
  reconcile_expired_lease db p jitter lease_id fresh now st =
      expire_routed db p jitter lease_id fresh now st (find lease_id db.leases)

  -- The body of reconcileDueTimeout, over the locked rows.
  unfoldable pub timeout_locked :
      Db
      → RetryPolicy fl
      → Option Carrier
      → Fence
      → Fresh
      → ReconcileStats
      → FenceState
      → Result (Db × ReconcileStats)
  timeout_locked db p jitter f fresh st s =
      if not (lease_usable s)
        || not (timed_out s)
        || not (is_running s.job_status)
        || not (attempt_running s.attempt_status)
      then ok (db, skip st)
      else (do
        r ← finalize_timeout db p jitter s f fresh st
        ok (r.0, record (r.1) { timed_out_attempts = r.1.timed_out_attempts + 1 }))

  unfoldable pub timeout_routed :
      Db
      → RetryPolicy fl
      → Option Carrier
      → Fresh
      → ℕ
      → ReconcileStats
      → Option (ℕ × Lease)
      → Result (Db × ReconcileStats)
  timeout_routed db p jitter fresh now st none = ok (db, skip st)
  timeout_routed db p jitter fresh now st (some (id, l)) =
      unless_rejected (lock_authority_rows db l.scope (lease_fence id l) now) (ok (db, skip st))
        (timeout_locked db p jitter (lease_fence id l) fresh st)

  -- reconcileDueTimeout. The attempt's columns that the route reads are its lease's, to which
  -- leases_attempt_binding_fkey ties them.
  unfoldable pub reconcile_due_timeout :
      Db
      → RetryPolicy fl
      → Option Carrier
      → ℕ
      → Fresh
      → ℕ
      → ReconcileStats
      → Result (Db × ReconcileStats)
  unfolding timeout_routed
  reconcile_due_timeout db p jitter attempt_id fresh now st =
      timeout_routed db p jitter fresh now st (find_where (lease_of attempt_id) db.leases)
