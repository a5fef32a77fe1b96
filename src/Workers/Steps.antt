-- ===== src/Workers/Steps.antt =====
-- Each fenced operation of a worker that returns a value is one transition.
use task_forge.Base.{
  Text, ℕ, ◌≡◌, refl, sym, arith, subst, ◌==◌, ◌&&◌, ◌||◌, true, Option, none, some, ◌*◌, ◌+◌,
  Result, ok, err, or_fail_ok, guard_ok, refuse_ok, if_ok, bind_ok, state-eq, is_at, beside, List,
}
use task_forge.Table.{find, insert, find_where}
use task_forge.Table.Laws.{update_ok}
use task_forge.Lifecycle.Retry.{Float64, RetryPolicy, decide}
use task_forge.Schema.{
  Db, Job, Attempt, Lease, LeaseStatus, StoredResult, is_leased, is_running, is_canceled,
  is_cancel_requested, is_executing, attempt_leased, attempt_running, attempt_executing,
  lease_active, second,
}
use task_forge.Workers.{
  Fence, valid_fence, StartResult, ResultRef, RenewalRequest, valid_renewal, RenewalResult,
  FailureReport, valid_failure_report, CancelAcknowledgment, valid_cancel_acknowledgment,
  OutcomeResult,
}
use task_forge.Workers.Authority.{
  FenceState, IsLocked, lock_fence, lock_authority_rows, lock_authority_rows-IsLocked, timed_out,
  lease_usable, names_attempt,
}
use task_forge.Workers.Execution.{
  start, start_locked, begin_attempt, replay_start, start_attempt, start_job, succeed,
  succeed_locked, already_succeeded, complete, succeed_job, succeed_attempt, release_lease,
  insert_result, stored, valid_result, other_owner, renew_lease, renew_locked, extend_lease,
  renew_row, replay_renewal, holds_renewal,
}
use task_forge.Workers.Finalize.{Fresh, foreign_outcome}
use task_forge.Workers.Finalize.Steps.{
  finalize_attempt-Transition, finalize_cancellation-Transition, IsFinal-rows, IsEnd-of,
  locked_running, attempt_of_fence,
}
use task_forge.Workers.Outcome.{
  fail, fail_locked, report_failure, replayed_outcome, failed_outcome, as_conflict,
  acknowledge_cancellation, acknowledge_locked, replayed_cancellation,
}
use task_forge.Transitions.{Transition, idle, started, ended, renewed}

lock_fence_ok :
    (db : Db) (scope : Text) (f : Fence) (now : ℕ) (s : FenceState)
    → lock_fence db scope f now ≡ ok s
    → IsLocked db scope f now s
unfolding lock_fence
lock_fence_ok db scope f now s h = bind_ok (lock_authority_rows db scope f now) _ h λ s' done rest.
    guard_ok s'.session_healthy _ _ rest
      λ _ last. lock_authority_rows-IsLocked db scope f now s (ground arith)

-- An answer beside an unchanged database.
unchanged {ℓ} :
    {A : Type ℓ} (db : Db) (m : Result A) (r : Db × A) → beside db m ≡ ok r → Transition db r.0
unchanged db (ok a) r h = subst (Transition db) (state-eq r h) idle
unchanged db (err e) r h = cc

locked_attempt :
    (db : Db) (scope : Text) (f : Fence) (now : ℕ) (s : FenceState)
    → IsLocked db scope f now s
    → (a : Attempt) → find f.attempt_id db.attempts ≡ some a
    → names_attempt scope f a ≡ true
locked_attempt db scope f now s k a found = ground (arith, k.found_attempt, k.attempt_named, found)

begin_attempt-Transition :
    (db : Db) (scope : Text) (f : Fence) (now : ℕ) (s : FenceState) (r : Db × StartResult)
    → IsLocked db scope f now s
    → begin_attempt db f now ≡ ok r
    → Transition db r.0
unfolding begin_attempt
begin_attempt-Transition db scope f now s r l h =
    or_fail_ok (find f.job_id db.jobs) _ _ h λ j found h1.
      let deadline = now + j.timeout_seconds * second in
      update_ok f.attempt_id (λ (a : Attempt). attempt_leased a.status) (start_attempt now deadline)
        db.attempts _ _ h1
        λ a fa ea h2.
          update_ok f.job_id (λ (k : Job). is_leased k.status) (start_job now) db.jobs _ _ h2
            λ k fk ek last. subst (Transition db) (state-eq r last) (
              started f.job_id f.attempt_id k (start_job now k) a (start_attempt now deadline a)
                (record {
                  found = fk;
                  edge = ground arith;
                  same_budget = refl;
                  same_identity = (refl, refl);
                })
                (ground arith) refl fa
                (attempt_of_fence scope f a (locked_attempt db scope f now s l a fa)) refl
                (ground arith) refl)

replay_start-Transition :
    (db : Db) (f : Fence) (now : ℕ) (r : Db × StartResult)
    → replay_start db f now ≡ ok r
    → Transition db r.0
unfolding replay_start
replay_start-Transition db f now r h = or_fail_ok (find f.attempt_id db.attempts) _ _ h λ a _ h1.
    or_fail_ok a.started_at _ _ h1 λ _ _ h2.
      or_fail_ok a.timeout_at _ _ h2 λ _ _ last. subst (Transition db) (state-eq r last) idle

pub start-Transition :
    (db : Db) (scope : Text) (f : Fence) (now : ℕ) (r : Db × StartResult)
    → start db scope f now ≡ ok r
    → Transition db r.0
unfolding start start_locked
start-Transition db scope f now r h = guard_ok (valid_fence f) _ _ h λ _ h1.
    bind_ok (lock_fence db scope f now) _ h1 λ s locked h2. guard_ok (lease_usable s) _ _ h2 λ _ h3.
      if_ok (is_running s.job_status && attempt_running s.attempt_status) _ _ h3
        (λ _ again. replay_start-Transition db f now r again)
        λ _ new.
          refuse_ok (is_cancel_requested s.job_status || is_canceled s.job_status) _ _ new λ _ new'.
            guard_ok (is_leased s.job_status && attempt_leased s.attempt_status) _ _ new' λ _ last.
              begin_attempt-Transition db scope f now s r (lock_fence_ok db scope f now s locked)
                last

pub insert_result-eq-ok :
    (r : Option ResultRef) (scope : Text) (f : Fence) (db db' : Db)
    → insert_result r scope f db ≡ ok db'
    → (t : List (ℕ × StoredResult)) × (db' ≡ record db { results = t })
unfolding insert_result
insert_result-eq-ok none scope f db db' h = (db.results, ground arith)
insert_result-eq-ok (some r) scope f db db' h = guard_ok (valid_result r) _ _ h λ _ h1.
    or_fail_ok (insert f.job_id (stored scope f r) db.results) _ _ h1 λ t _ last. (t, ground arith)

complete-Transition :
    (db : Db) (scope : Text) (f : Fence) (result : Option ResultRef) (s : FenceState) (now : ℕ)
    (k : IsLocked db scope f now s) (db' : Db)
    → complete db scope f result now ≡ ok db'
    → Transition db db'
unfolding complete
complete-Transition db scope f result s now k db' h =
    update_ok f.job_id (λ (j : Job). is_running j.status) (succeed_job now) db.jobs _ _ h
      λ j fj ej h1.
        update_ok f.attempt_id (λ (a : Attempt). attempt_running a.status) (succeed_attempt now)
          db.attempts _ _ h1
          λ a fa ea h2.
            update_ok f.lease_id (λ (l : Lease). lease_active l.status)
              (release_lease LeaseStatus.completed now) db.leases _ _ h2
              λ l fl el h3.
                let j' = succeed_job now j in
                let a' = succeed_attempt now a in
                let l' = release_lease LeaseStatus.completed now l in
                let (t, e) = insert_result-eq-ok result scope f _ db' h3 in
                subst (Transition db) (sym e) (
                  ended f.job_id f.attempt_id f.lease_id j j' a a' l l' t
                    (IsEnd-of db f a a' l l'
                      (IsFinal-rows db scope f now s k a a' l l' fa fl refl refl refl (ground arith)
                        refl el refl)
                      j j' fj (ground arith) (ground arith) refl refl (refl, refl))
                    refl refl)

pub succeed-Transition :
    (db : Db) (scope : Text) (f : Fence) (result : Option ResultRef) (now : ℕ) (db' : Db)
    → succeed db scope f result now ≡ ok db'
    → Transition db db'
unfolding succeed succeed_locked
succeed-Transition db scope f result now db' h = guard_ok (valid_fence f) _ _ h λ _ h1.
    bind_ok (lock_authority_rows db scope f now) _ h1 λ s locked h2.
      if_ok (already_succeeded s) _ _ h2 (λ _ same. subst (Transition db) (ground arith) idle)
        λ _ new. guard_ok s.session_healthy _ _ new λ _ h3. refuse_ok (timed_out s) _ _ h3 λ _ h4.
          guard_ok (lease_usable s) _ _ h4 λ _ h5.
            guard_ok (is_running s.job_status && attempt_running s.attempt_status) _ _ h5 λ _ last.
              complete-Transition db scope f result s now
                (lock_authority_rows-IsLocked db scope f now s locked) db' last

extend_lease-Transition :
    (db : Db) (s : FenceState) (req : RenewalRequest) (duration : ℕ) (r : Db × RenewalResult)
    → extend_lease db s req duration ≡ ok r
    → Transition db r.0
unfolding extend_lease
extend_lease-Transition db s req duration r h =
    refuse_ok
      (other_owner req.fence.lease_id (find_where (holds_renewal req.renewal_request_id) db.leases))
      _ _ h
      λ _ h1. guard_ok (s.renewal_version == req.expected_version) _ _ h1 λ _ h2.
        update_ok req.fence.lease_id
          (λ (l : Lease). lease_active l.status && l.renewal_version == req.expected_version)
          (renew_row s.server_now (s.server_now + duration) req.renewal_request_id) db.leases _ _ h2
          λ l found _ last.
            subst (Transition db) (state-eq r last)
              (renewed req.fence.lease_id l _ found refl refl refl)

pub renew_lease-Transition :
    (db : Db) (scope : Text) (req : RenewalRequest) (duration now : ℕ) (r : Db × RenewalResult)
    → renew_lease db scope req duration now ≡ ok r
    → Transition db r.0
unfolding renew_lease renew_locked
renew_lease-Transition db scope req duration now r h = guard_ok (valid_renewal req) _ _ h λ _ h1.
    refuse_ok (duration == 0) _ _ h1 λ _ h2.
      bind_ok (lock_fence db scope req.fence now) _ h2 λ s _ h3.
        guard_ok (lease_usable s) _ _ h3 λ _ h4. refuse_ok (timed_out s) _ _ h4 λ _ h5.
          guard_ok (is_executing s.job_status && attempt_executing s.attempt_status) _ _ h5 λ _ h6.
            if_ok (is_at req.renewal_request_id s.last_renewal_request_id) _ _ h6
              (λ _ again. unchanged db (replay_renewal s req) r again)
              λ _ new. extend_lease-Transition db s req duration r new

pub acknowledge_cancellation-Transition :
    (db : Db) (scope : Text) (a : CancelAcknowledgment) (now : ℕ) (r : Db × OutcomeResult)
    → acknowledge_cancellation db scope a now ≡ ok r
    → Transition db r.0
unfolding acknowledge_cancellation acknowledge_locked
acknowledge_cancellation-Transition db scope a now r h =
    guard_ok (valid_cancel_acknowledgment a) _ _ h λ _ h1.
      bind_ok (lock_authority_rows db scope a.fence now) _ h1 λ s locked h2.
        if_ok (is_at a.outcome_request_id s.outcome_request_id) _ _ h2
          (λ _ again. unchanged db (replayed_cancellation s a) r again)
          λ _ new.
            refuse_ok (foreign_outcome db (some a.outcome_request_id) a.fence.attempt_id) _ _ new
              λ _ h3. guard_ok s.session_healthy _ _ h3 λ _ h4.
                guard_ok (lease_usable s) _ _ h4 λ _ h5.
                  guard_ok (is_cancel_requested s.job_status && attempt_executing s.attempt_status)
                    _ _ h5
                    λ _ last.
                      finalize_cancellation-Transition db scope a.fence now s
                        (lock_authority_rows-IsLocked db scope a.fence now s locked)
                        (some a.outcome_request_id) LeaseStatus.released r refl last

module _ (fl : Float64) where
  open fl use {Carrier}

  report_failure-Transition :
      (db : Db) (p : RetryPolicy fl) (jitter : Option Carrier) (scope : Text) (q : FailureReport)
      (s : FenceState) (fresh : Fresh) (now : ℕ) (r : Db × OutcomeResult)
      → IsLocked db scope q.fence now s
      → report_failure fl db p jitter q s fresh ≡ ok r
      → Transition db r.0
  unfolding report_failure
  report_failure-Transition db p jitter scope q s fresh now r k h =
      refuse_ok (foreign_outcome db (some q.outcome_request_id) q.fence.attempt_id) _ _ h λ _ h1.
        guard_ok s.session_healthy _ _ h1 λ _ h2. refuse_ok (timed_out s) _ _ h2 λ _ h3.
          guard_ok (lease_usable s) _ _ h3 λ _ h4.
            guard_ok (is_running s.job_status && attempt_running s.attempt_status) _ _ h4 λ runs h5.
              bind_ok
                (as_conflict
                  (decide fl p q.class s.attempt_number s.attempt_number s.max_attempts jitter))
                _ h5
                λ d _ last.
                  finalize_attempt-Transition db scope q.fence now s k (failed_outcome q) d fresh r
                    refl refl (λ _. locked_running db scope q.fence now s k (ground (arith, runs)))
                    last

  pub fail-Transition :
      (db : Db) (p : RetryPolicy fl) (jitter : Option Carrier) (scope : Text) (q : FailureReport)
      (fresh : Fresh) (now : ℕ) (r : Db × OutcomeResult)
      → fail fl db p jitter scope q fresh now ≡ ok r
      → Transition db r.0
  unfolding fail fail_locked
  fail-Transition db p jitter scope q fresh now r h =
      guard_ok (valid_failure_report q) _ _ h λ _ h1.
        bind_ok (lock_authority_rows db scope q.fence now) _ h1 λ s locked h2.
          if_ok (is_at q.outcome_request_id s.outcome_request_id) _ _ h2
            (λ _ again. unchanged db (replayed_outcome s q) r again)
            λ _ new.
              report_failure-Transition db p jitter scope q s fresh now r
                (lock_authority_rows-IsLocked db scope q.fence now s locked) new
