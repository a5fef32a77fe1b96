-- ===== src/Examples/Expiry.antt =====
-- The reconciler finds the lease of the example's started attempt long after its end.
use task_forge.Base.{text, false, none}
use task_forge.Schema.{Db, Lease, Status, AttemptStatus, LeaseStatus}
use task_forge.Workers.{ReconcileStats}
use task_forge.Workers.Authority.{FenceState, lock_authority_rows}
use task_forge.Workers.Claim.{new_lease}
use task_forge.Workers.Reconcile.{lease_fence, reconcile_expired_lease}
use task_forge.Passes.Reconciler.{nothing}
use task_forge.Examples.{whole, policy, scope, fresh, db4, job2, claim_request, claim_draw, value}

abbrev lease21 : Lease
lease21 = new_lease scope claim_request 10 job2 claim_draw 1000

abbrev no_rows : FenceState
no_rows = record {
  queue = text "";
  scope = text "";
  job_status = Status.pending;
  attempt_status = AttemptStatus.leased;
  lease_status = LeaseStatus.released;
  expires_at = 0;
  server_now = 0;
  renewal_version = 0;
  last_renewal_request_id = none;
  attempt_number = 0;
  max_attempts = 0;
  timeout_at = none;
  outcome_request_id = none;
  failure_class = none;
  error_code = none;
  error_message = none;
  retry_delay_ms = none;
  retry_at = none;
  session_healthy = false;
}

abbrev rows : FenceState
rows = value no_rows (lock_authority_rows db4 scope (lease_fence 21 lease21) 5000)

abbrev repaired : Db × ReconcileStats
repaired =
    value (db4, nothing) (reconcile_expired_lease whole db4 policy none 21 fresh 5000 nothing)
