-- ===== src/Workers/Calls.antt =====
-- The authority of a worker: a call that writes came from the worker that holds the lease.
use task_forge.Base.{
  Text, ℕ, ◌<◌, ◌≡◌, sym, arith, subst, true, ◌==◌, Option, some, Result, ok, err, guard_ok,
  refuse_ok, bind_ok, if_ok, state-eq, is_at, beside, ◌⊎◌, inl, inr,
}
use task_forge.Table.{find}
use task_forge.Lifecycle.Retry.{Float64, RetryPolicy}
use task_forge.Schema.{Db, Session, Lease, lease_active, session_healthy}
use task_forge.Workers.{
  Fence, valid_fence, StartResult, ResultRef, RenewalRequest, valid_renewal, RenewalResult,
  FailureReport, valid_failure_report, CancelAcknowledgment, valid_cancel_acknowledgment,
  OutcomeResult,
}
use task_forge.Workers.Authority.{
  FenceState, IsLocked, lock_fence, lock_authority_rows, lock_authority_rows-IsLocked, timed_out,
  lease_usable, names_lease, names_session, fence_state,
}
use task_forge.Workers.Execution.{start, succeed, succeed_locked, already_succeeded, renew_lease}
use task_forge.Workers.Finalize.{Fresh, foreign_outcome}
use task_forge.Workers.Outcome.{
  fail, fail_locked, report_failure, replayed_outcome, acknowledge_cancellation, acknowledge_locked,
  replayed_cancellation,
}

-- The fence's session is healthy, and its lease names the caller, is active and has not expired.
abbrev pub HasAuthority : Db → Text → Fence → ℕ → Type 0
HasAuthority db scope f now =
    (s : Session) × (l : Lease) × (find f.session_id db.sessions ≡ some s)
    × (find f.lease_id db.leases ≡ some l)
    × (names_session scope f.worker_id s ≡ true)
    × (names_lease scope f l ≡ true)
    × (session_healthy s.status ≡ true)
    × (lease_active l.status ≡ true)
    × (now < l.expires_at)

locked-HasAuthority :
    (db : Db) (scope : Text) (f : Fence) (now : ℕ) (s : FenceState)
    → IsLocked db scope f now s
    → s.session_healthy ≡ true
    → lease_usable s ≡ true
    → HasAuthority db scope f now
unfolding fence_state
locked-HasAuthority db scope f now s k healthy usable = (
  k.session,
  k.lease,
  k.found_session,
  k.found_lease,
  k.session_named,
  k.lease_named,
  rw k.state_eq at healthy,
  ground (arith, k.state_eq, usable),
  ground (arith, k.state_eq, usable),
)

lock_fence-HasAuthority :
    (db : Db) (scope : Text) (f : Fence) (now : ℕ) (s : FenceState)
    → lock_fence db scope f now ≡ ok s
    → lease_usable s ≡ true
    → HasAuthority db scope f now
unfolding lock_fence
lock_fence-HasAuthority db scope f now s h usable =
    bind_ok (lock_authority_rows db scope f now) _ h λ s' done rest.
      guard_ok s'.session_healthy _ _ rest λ healthy last.
        let same : s' ≡ s = ground arith in
        locked-HasAuthority db scope f now s
          (lock_authority_rows-IsLocked db scope f now s
            (subst (λ x. lock_authority_rows db scope f now ≡ ok x) same done))
          (subst (λ (x : FenceState). x.session_healthy ≡ true) same healthy) usable

unchanged {ℓ} : {A : Type ℓ} (db : Db) (m : Result A) (v : Db × A) → beside db m ≡ ok v → v.0 ≡ db
unchanged db (ok a) v h = sym (state-eq v h)
unchanged db (err e) v h = cc

module _ (fl : Float64) where
  open fl use {Carrier}

  -- A fenced call that returned, and the database after it.
  pub data Call (db : Db) (scope : Text) (now : ℕ) : Fence → Db → Type 0 where
    starts :
        (f : Fence) (v : Db × StartResult) → start db scope f now ≡ ok v → Call db scope now f v.0
    renews :
        (r : RenewalRequest) (duration : ℕ) (v : Db × RenewalResult)
        → renew_lease db scope r duration now ≡ ok v
        → Call db scope now r.fence v.0
    succeeds :
        (f : Fence) (result : Option ResultRef) (db' : Db)
        → succeed db scope f result now ≡ ok db'
        → Call db scope now f db'
    fails :
        (p : RetryPolicy fl) (jitter : Option Carrier) (q : FailureReport) (fresh : Fresh)
        (v : Db × OutcomeResult)
        → fail fl db p jitter scope q fresh now ≡ ok v
        → Call db scope now q.fence v.0
    acknowledges :
        (a : CancelAcknowledgment) (v : Db × OutcomeResult)
        → acknowledge_cancellation db scope a now ≡ ok v
        → Call db scope now a.fence v.0

  -- A fenced call that returned left the database as it was, or had authority: its session was
  -- healthy, and the lease it names was the caller's, active and not expired.
  pub Call-HasAuthority :
      (db : Db) (scope : Text) (now : ℕ) (f : Fence) (db' : Db)
      → Call db scope now f db'
      → (db' ≡ db) ⊎ HasAuthority db scope f now
  unfolding start renew_lease succeed succeed_locked fail fail_locked report_failure
      acknowledge_cancellation acknowledge_locked
  Call-HasAuthority db scope now f db' (starts _ v h) = guard_ok (valid_fence f) _ _ h λ _ h1.
      bind_ok (lock_fence db scope f now) _ h1 λ s locked h2.
        guard_ok (lease_usable s) _ _ h2
          λ usable _. inr (lock_fence-HasAuthority db scope f now s locked usable)
  Call-HasAuthority db scope now f db' (renews r duration v h) =
      guard_ok (valid_renewal r) _ _ h λ _ h1. refuse_ok (duration == 0) _ _ h1 λ _ h2.
        bind_ok (lock_fence db scope r.fence now) _ h2 λ s locked h3.
          guard_ok (lease_usable s) _ _ h3
            λ usable _. inr (lock_fence-HasAuthority db scope r.fence now s locked usable)
  Call-HasAuthority db scope now f db' (succeeds _ result _ h) =
      guard_ok (valid_fence f) _ _ h λ _ h1.
        bind_ok (lock_authority_rows db scope f now) _ h1 λ s locked h2.
          if_ok (already_succeeded s) _ _ h2 (λ _ same. inl (ground arith))
            λ _ new. guard_ok s.session_healthy _ _ new λ healthy h3.
              refuse_ok (timed_out s) _ _ h3 λ _ h4. guard_ok (lease_usable s) _ _ h4 λ usable _.
                inr (
                  locked-HasAuthority db scope f now s
                    (lock_authority_rows-IsLocked db scope f now s locked) healthy usable)
  Call-HasAuthority db scope now f db' (fails p jitter q fresh v h) =
      guard_ok (valid_failure_report q) _ _ h λ _ h1.
        bind_ok (lock_authority_rows db scope q.fence now) _ h1 λ s locked h2.
          if_ok (is_at q.outcome_request_id s.outcome_request_id) _ _ h2
            (λ _ again. inl (unchanged db (replayed_outcome s q) v again))
            λ _ new.
              refuse_ok (foreign_outcome db (some q.outcome_request_id) q.fence.attempt_id) _ _ new
                λ _ h3. guard_ok s.session_healthy _ _ h3 λ healthy h4.
                  refuse_ok (timed_out s) _ _ h4 λ _ h5.
                    guard_ok (lease_usable s) _ _ h5 λ usable _. inr (
                      locked-HasAuthority db scope q.fence now s
                        (lock_authority_rows-IsLocked db scope q.fence now s locked) healthy usable)
  Call-HasAuthority db scope now f db' (acknowledges a v h) =
      guard_ok (valid_cancel_acknowledgment a) _ _ h λ _ h1.
        bind_ok (lock_authority_rows db scope a.fence now) _ h1 λ s locked h2.
          if_ok (is_at a.outcome_request_id s.outcome_request_id) _ _ h2
            (λ _ again. inl (unchanged db (replayed_cancellation s a) v again))
            λ _ new.
              refuse_ok (foreign_outcome db (some a.outcome_request_id) a.fence.attempt_id) _ _ new
                λ _ h3. guard_ok s.session_healthy _ _ h3 λ healthy h4.
                  guard_ok (lease_usable s) _ _ h4 λ usable _. inr (
                    locked-HasAuthority db scope a.fence now s
                      (lock_authority_rows-IsLocked db scope a.fence now s locked) healthy usable)
