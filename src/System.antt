-- ===== src/System.antt =====
-- The whole system: the transactions of the stores, in any order and with any arguments, on one
-- database, from a new installation on.
pub mod Safety
use task_forge.Base.{Text, ℕ, ◌≡◌, Bool, List, Option, Result, ok, subst, sym}
use task_forge.Lifecycle.Retry.{Float64, RetryPolicy}
use task_forge.Schema.{Db, Queue, Session}
use task_forge.Workers.{
  Fence, ResultRef, RenewalRequest, FailureReport, CancelAcknowledgment, ReconcileStats,
  ClaimRequest, StartResult, RenewalResult, OutcomeResult, ClaimResult,
}
use task_forge.Workers.Execution.{start, succeed, renew_lease}
use task_forge.Workers.Finalize.{Fresh}
use task_forge.Workers.Outcome.{fail, acknowledge_cancellation}
use task_forge.Workers.Reconcile.{reconcile_expired_lease, reconcile_due_timeout}
use task_forge.Workers.Claim.{ClaimDraw, claim}
use task_forge.Workers.Steps.{
  start-Transition, succeed-Transition, renew_lease-Transition, fail-Transition,
  acknowledge_cancellation-Transition,
}
use task_forge.Workers.Reconcile.Steps.{
  reconcile_expired_lease-Transition, reconcile_due_timeout-Transition,
}
use task_forge.Workers.Claim.Steps.{claim-Transition}
use task_forge.Workers.Sessions.{Registration, register, heartbeat, mark_session_stale}
use task_forge.Workers.Sessions.Laws.{
  SameButSessions, register-SameButSessions, heartbeat-SameButSessions,
  mark_session_stale-SameButSessions,
}
use task_forge.Jobs.Submit.{NormalizedRequest, SubmitDraw, SubmitResult, submit}
use task_forge.Jobs.Cancel.{CancelResult, request_cancel}
use task_forge.Jobs.Replay.{ReplayDraw, ReplayResult, replay}
use task_forge.Jobs.Schedule.{ScheduleDraw, promote_due_job, renotify_stranded_job}
use task_forge.Jobs.Steps.{submit-Transition, request_cancel-Transition, replay-Transition}
use task_forge.Jobs.Schedule.Steps.{promote_due_job-Transition, renotify_stranded_job-Transition}
use task_forge.Outbox.Delivery.{claim_due, mark_published, record_failure, release_claim}
use task_forge.Outbox.Delivery.Steps.{
  claim_due-Transition, mark_published-Transition, record_failure-Transition,
  release_claim-Transition,
}
use task_forge.Transitions.{Transition, registered}
use task_forge.Transitions.Invariant.{Inv, installed, installed-Inv}
use task_forge.Transitions.Preserve.{Transition-Inv}

same_but_sessions : {db db' : Db} → SameButSessions db db' → Transition db db'
same_but_sessions {db} (ws, ss, e) = subst (Transition db) (sym e) (registered ws ss)

module _ (fl : Float64) where
  open fl use {Carrier}

  -- A transaction that committed. One that returned an error wrote nothing, and is no step.
  pub data Step (db : Db) : Db → Type 0 where
    by_registration :
        (scope : Text) (r : Registration) (fresh now : ℕ) (v : Db × Session)
        → register db scope r fresh now ≡ ok v
        → Step db v.0
    by_heartbeat :
        (scope : Text) (worker_id session_id now : ℕ) (v : Db × ℕ)
        → heartbeat db scope worker_id session_id now ≡ ok v
        → Step db v.0
    by_staleness :
        (session_id stale_after now : ℕ)
        → Step db (mark_session_stale db session_id stale_after now).0
    by_submit :
        (fingerprint : NormalizedRequest → Text) (scope key : Text) (r : NormalizedRequest)
        (draw : SubmitDraw) (v : Db × SubmitResult)
        → submit db fingerprint scope key r draw ≡ ok v
        → Step db v.0
    by_cancel :
        (scope : Text) (job_id now : ℕ) (v : Db × CancelResult)
        → request_cancel db scope job_id now ≡ ok v
        → Step db v.0
    by_replay :
        (scope : Text) (original : ℕ) (key : Text) (draw : ReplayDraw) (v : Db × ReplayResult)
        → replay db scope original key draw ≡ ok v
        → Step db v.0
    by_promotion :
        (job_id : ℕ) (draw : ScheduleDraw) (v : Db × Bool)
        → promote_due_job db job_id draw ≡ ok v
        → Step db v.0
    by_renotification :
        (job_id interval : ℕ) (draw : ScheduleDraw) (v : Db × Bool)
        → renotify_stranded_job db job_id interval draw ≡ ok v
        → Step db v.0
    by_claim :
        (scope : Text) (r : ClaimRequest) (locked : ℕ → Bool) (draw : ClaimDraw) (duration : ℕ)
        (v : Db × ClaimResult)
        → claim db scope r locked draw duration ≡ ok v
        → Step db v.0
    by_start :
        (scope : Text) (f : Fence) (now : ℕ) (v : Db × StartResult)
        → start db scope f now ≡ ok v
        → Step db v.0
    by_renewal :
        (scope : Text) (r : RenewalRequest) (duration now : ℕ) (v : Db × RenewalResult)
        → renew_lease db scope r duration now ≡ ok v
        → Step db v.0
    by_success :
        (scope : Text) (f : Fence) (result : Option ResultRef) (now : ℕ) (db' : Db)
        → succeed db scope f result now ≡ ok db'
        → Step db db'
    by_failure :
        (p : RetryPolicy fl) (jitter : Option Carrier) (scope : Text) (q : FailureReport)
        (fresh : Fresh) (now : ℕ) (v : Db × OutcomeResult)
        → fail fl db p jitter scope q fresh now ≡ ok v
        → Step db v.0
    by_acknowledgment :
        (scope : Text) (a : CancelAcknowledgment) (now : ℕ) (v : Db × OutcomeResult)
        → acknowledge_cancellation db scope a now ≡ ok v
        → Step db v.0
    by_expiry :
        (p : RetryPolicy fl) (jitter : Option Carrier) (lease_id : ℕ) (fresh : Fresh) (now : ℕ)
        (st : ReconcileStats) (v : Db × ReconcileStats)
        → reconcile_expired_lease fl db p jitter lease_id fresh now st ≡ ok v
        → Step db v.0
    by_timeout :
        (p : RetryPolicy fl) (jitter : Option Carrier) (attempt_id : ℕ) (fresh : Fresh) (now : ℕ)
        (st : ReconcileStats) (v : Db × ReconcileStats)
        → reconcile_due_timeout fl db p jitter attempt_id fresh now st ≡ ok v
        → Step db v.0
    by_outbox_claim :
        (locked : ℕ → Bool) (limit timeout now : ℕ)
        → Step db (claim_due db locked limit timeout now).0
    by_publication : (id now : ℕ) → Step db (mark_published db id now).0
    by_publish_failure :
        (id : ℕ) (cause : Text) (retry_after now : ℕ)
        → Step db (record_failure db id cause retry_after now)
    by_release : (id now : ℕ) → Step db (release_claim db id now)

  -- The databases that a run passes through.
  pub data Run (db : Db) : Db → Type 0 where
    stop : Run db db
    step : {mid db' : Db} → Run db mid → Step mid db' → Run db db'

  -- Every step from a database with the invariant is one transition of the abstract system.
  pub Step-Transition : (db db' : Db) → Inv db → Step db db' → Transition db db'
  Step-Transition db db' v (by_registration scope r fresh now w e) =
      same_but_sessions (register-SameButSessions db scope r fresh now w e)
  Step-Transition db db' v (by_heartbeat scope i k now w e) =
      same_but_sessions (heartbeat-SameButSessions db scope i k now w e)
  Step-Transition db db' v (by_staleness k after now) =
      same_but_sessions (mark_session_stale-SameButSessions db k after now)
  Step-Transition db db' v (by_submit fingerprint scope key r draw w e) =
      submit-Transition db fingerprint scope key r draw w e
  Step-Transition db db' v (by_cancel scope i now w e) =
      request_cancel-Transition db scope i now w e
  Step-Transition db db' v (by_replay scope original key draw w e) =
      replay-Transition db scope original key draw w e
  Step-Transition db db' v (by_promotion i draw w e) = promote_due_job-Transition db i draw w e
  Step-Transition db db' v (by_renotification i interval draw w e) =
      renotify_stranded_job-Transition db i interval draw w e
  Step-Transition db db' v (by_claim scope r locked draw duration w e) =
      claim-Transition db scope r locked draw duration w v.keyed e
  Step-Transition db db' v (by_start scope f now w e) = start-Transition db scope f now w e
  Step-Transition db db' v (by_renewal scope r duration now w e) =
      renew_lease-Transition db scope r duration now w e
  Step-Transition db db' v (by_success scope f result now _ e) =
      succeed-Transition db scope f result now db' e
  Step-Transition db db' v (by_failure p jitter scope q fresh now w e) =
      fail-Transition fl db p jitter scope q fresh now w e
  Step-Transition db db' v (by_acknowledgment scope a now w e) =
      acknowledge_cancellation-Transition db scope a now w e
  Step-Transition db db' v (by_expiry p jitter id fresh now st w e) =
      reconcile_expired_lease-Transition fl db p jitter fresh now st w id v e
  Step-Transition db db' v (by_timeout p jitter id fresh now st w e) =
      reconcile_due_timeout-Transition fl db p jitter fresh now st w id e
  Step-Transition db db' v (by_outbox_claim locked limit timeout now) =
      claim_due-Transition db locked limit timeout now
  Step-Transition db db' v (by_publication id now) = mark_published-Transition db id now
  Step-Transition db db' v (by_publish_failure id cause retry_after now) =
      record_failure-Transition db id cause retry_after now
  Step-Transition db db' v (by_release id now) = release_claim-Transition db id now

  -- One run after another.
  pub Run-join : {db mid db' : Db} → Run db mid → Run mid db' → Run db db'
  Run-join r stop = r
  Run-join r (step s t) = step (Run-join r s) t

  pub Step-Run : {db db' : Db} → Step db db' → Run db db'
  Step-Run s = step stop s

  -- Every run from a database with the invariant ends in a database with it.
  pub Run-Inv : (db db' : Db) → Run db db' → Inv db → Inv db'
  Run-Inv db db' stop v = v
  Run-Inv db db' (step {mid} r s) v =
      let here = Run-Inv db mid r v in Transition-Inv (Step-Transition mid db' here s) here
