-- ===== src/Workers/Reconcile/Expiry.antt =====
-- What the reconciler makes of a lease that lapsed.
use task_forge.Base.{◌+◌, ◌≡◌, ◌⊎◌, Bool, true, false, ◌||◌, ◌&&◌, some, leb, if◌then◌else◌}
use task_forge.Table.{find}
use task_forge.Schema.{
  Db, Attempt, Lease, AttemptStatus, LeaseStatus, attempt_executing, lease_active,
  is_cancel_requested, is_executing,
}
use task_forge.Workers.{Fence, ReconcileStats}
use task_forge.Workers.Authority.{FenceState}
use task_forge.Workers.Reconcile.{timed_out_before_lapse}

-- The lease has expired, and its attempt has the given status.
abbrev pub IsEnded : Db → Fence → AttemptStatus → Type 0
IsEnded db f status =
    (l : Lease) × (a : Attempt) × (find f.lease_id db.leases ≡ some l)
    × (l.status ≡ LeaseStatus.expired)
    × (find f.attempt_id db.attempts ≡ some a)
    × (a.status ≡ status)

-- A job whose cancellation was requested is canceled; an attempt whose deadline came no later than
-- the lapse timed out; any other was abandoned.
abbrev pub ended_as : FenceState → AttemptStatus
ended_as s =
    if is_cancel_requested s.job_status
    then AttemptStatus.canceled
    else if timed_out_before_lapse s
    then AttemptStatus.timed_out
    else AttemptStatus.abandoned

-- What the locked rows must show before a lease is expired: it is active and its end has come, its
-- attempt is LEASED or RUNNING, and its job is LEASED, RUNNING or CANCEL_REQUESTED.
abbrev pub is_lapsed : FenceState → Bool
is_lapsed s =
    lease_active s.lease_status
    && leb s.expires_at s.server_now
    && attempt_executing s.attempt_status
    && (is_cancel_requested s.job_status || is_executing s.job_status)

-- The lease is expired with its attempt and counted, or nothing happens and a skip is counted.
abbrev pub IsExpiry : Db → Fence → ReconcileStats → FenceState → Db × ReconcileStats → Type 0
IsExpiry db f st s v =
    ((is_lapsed s ≡ true)
      × IsEnded v.0 f (ended_as s)
      × (v.1.expired_leases ≡ st.expired_leases + 1))
    ⊎ ((is_lapsed s ≡ false) × (v.0 ≡ db) × (v.1 ≡ record st { skipped = st.skipped + 1 }))
