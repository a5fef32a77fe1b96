-- ===== src/Workers/Replays.antt =====
-- A repeated report of an outcome is answered from the rows that the first one left.
use task_forge.Base.{
  [], ◌∷◌, Text, text_eq, text_eq_refl, ℕ, ◌≡◌, refl, sym, ◌∙◌, arith, subst, true, false, ◌&&◌,
  Option, some, Result, ok, err, guard_ok, refuse_ok, bind_ok, if_ok, is_at, beside, eqb_refl,
  Bool-cases, inl, inr, ap,
}
use task_forge.Table.Laws.{update_ok, find-put_self}
use task_forge.Lifecycle.{FailureClass, DlqReason, same_class}
use task_forge.Lifecycle.Retry.{Float64, RetryPolicy, Decision, decide}
use task_forge.Schema.{
  Db, Attempt, Lease, AttemptStatus, LeaseStatus, attempt_executing, attempt_running, is_running,
  lease_active,
}
use task_forge.Workers.{FailureReport, valid_failure_report, OutcomeResult}
use task_forge.Workers.Authority.{
  FenceState, IsLocked, fence_state, lock_authority_rows, lock_authority_rows-IsLocked,
  lock_authority_rows_hit, timed_out, lease_usable,
}
use task_forge.Workers.Execution.{release_lease}
use task_forge.Workers.Finalize.{
  Fresh, finalize_attempt, end_attempt, foreign_outcome, nullable, stored_millis, retry_instant,
}
use task_forge.Workers.Finalize.Answer.{answer, settle_job-Settled, settled, unless_retry}
use task_forge.Workers.Outcome.{
  fail, fail_locked, report_failure, replayed_outcome, failed_outcome, as_conflict, deref,
  replayed_reason, class_is,
}

abbrev as_replay : OutcomeResult → OutcomeResult
as_replay a = record {
  job_id = a.job_id;
  job_status = a.job_status;
  attempt_status = a.attempt_status;
  retry_at = a.retry_at;
  retry_delay = a.retry_delay;
  dead_letter_reason = a.dead_letter_reason;
  replayed = true;
}

deref-nullable : (t : Text) → deref (nullable t) ≡ t
deref-nullable [] = refl
deref-nullable (c ∷ t) = refl

same_class_refl : (c : FailureClass) → same_class c c ≡ true
same_class_refl c = ground arith

-- The reason that a report's class gives.
abbrev reason_for : FailureClass → DlqReason
reason_for FailureClass.permanent = DlqReason.permanent_failure
reason_for _ = DlqReason.attempts_exhausted

-- The rows that answer a report: those its fence names, with the attempt as its outcome left it.
record Reported (fl : Float64) (db : Db) (scope : Text) (q : FailureReport) (a : OutcomeResult)
    : Type 0 where
  state : ℕ → FenceState
  locked : (now : ℕ) → lock_authority_rows db scope q.fence now ≡ ok (state now)
  same : (now : ℕ) → is_at q.outcome_request_id (state now).outcome_request_id ≡ true
  answered : (now : ℕ) → replayed_outcome (state now) q ≡ ok (as_replay a)

as_conflict_ok {ℓ} : {A : Type ℓ} (m : Result A) (a : A) → as_conflict m ≡ ok a → m ≡ ok a
as_conflict_ok (ok b) a h = h
as_conflict_ok (err e) a h = cc

module _ (fl : Float64) where
  open fl use {Carrier}

  decide_reason :
      (p : RetryPolicy fl) (c : FailureClass) (n used max : ℕ) (jitter : Option Carrier)
      (d : Decision)
      → decide fl p c n used max jitter ≡ ok d
      → d.retry ≡ false
      → d.dead_letter_reason ≡ some (reason_for c)
  unfolding decide
  decide_reason p FailureClass.permanent n used max jitter d h dead = ground (arith, h)
  decide_reason p FailureClass.retryable n used max jitter d h dead = ground (arith, h)
  decide_reason p FailureClass.timed_out n used max jitter d h dead = ground (arith, h)
  decide_reason p FailureClass.abandoned n used max jitter d h dead = ground (arith, h)
  decide_reason p FailureClass.canceled n used max jitter d h dead = cc

  reason_of_settled :
      (c : FailureClass) (d : Decision)
      → (d.retry ≡ false → d.dead_letter_reason ≡ some (reason_for c))
      → replayed_reason (settled (stored_millis d)) (some c) ≡ unless_retry d
  reason_of_settled c d why = elim (Bool-cases d.retry) [
    | inl again ↦ ground (arith, again)
    | inr dead ↦ let reason = why dead in ground (arith, dead, reason)
  ]

  -- The answer that an ended attempt's row gives to its own report.
  replayed_outcome_of :
      (now : ℕ) (s : FenceState) (q : FailureReport) (d : Decision)
      → (d.retry ≡ false → d.dead_letter_reason ≡ some (reason_for q.class))
      → s.attempt_status ≡ AttemptStatus.failed
      → s.failure_class ≡ some q.class
      → s.error_code ≡ nullable q.error_code
      → s.error_message ≡ nullable q.error_message
      → s.retry_delay_ms ≡ stored_millis d
      → s.retry_at ≡ retry_instant now (stored_millis d)
      → replayed_outcome s q ≡ ok (as_replay (answer q.fence (failed_outcome q) d now))
  unfolding replayed_outcome
  replayed_outcome_of now s q d why status class code message delay at =
      rw
        (
          status,
          class,
          code,
          message,
          delay,
          at,
          same_class_refl q.class,
          deref-nullable q.error_code,
          deref-nullable q.error_message,
          text_eq_refl q.error_code,
          text_eq_refl q.error_message,
          reason_of_settled q.class d why,
        )
        refl

  finalized-Reported :
      (db : Db) (scope : Text) (now : ℕ) (q : FailureReport) (s : FenceState) (d : Decision)
      (fresh : Fresh) (v : Db × OutcomeResult)
      → IsLocked db scope q.fence now s
      → (d.retry ≡ false → d.dead_letter_reason ≡ some (reason_for q.class))
      → finalize_attempt db s q.fence (failed_outcome q) d fresh ≡ ok v
      → Reported fl v.0 scope q v.1
  unfolding finalize_attempt fence_state
  finalized-Reported db scope now q s d fresh v k why h =
      let f = q.fence in
      let o = failed_outcome q in
      update_ok f.attempt_id (λ (a : Attempt). attempt_executing a.status) (end_attempt s o d)
        db.attempts _ _ h
        λ a fa ea h1.
          refuse_ok (foreign_outcome db o.outcome_request_id f.attempt_id) _ _ h1 λ _ h2.
            update_ok f.lease_id (λ (l : Lease). lease_active l.status)
              (release_lease LeaseStatus.released s.server_now) db.leases _ _ h2
              λ l fl el last.
                let a' = end_attempt s o d a in
                let l' = release_lease LeaseStatus.released s.server_now l in
                let (st, is_answer) = settle_job-Settled _ s f o d fresh v last in
                let lease : l ≡ k.lease = cc (fl, k.found_lease) in
                let attempt : a ≡ k.attempt = cc (fa, k.found_attempt) in
                let job : st.before ≡ k.job = cc (st.found, k.found_job) in
                record {
                  state = λ now'. fence_state k.queue.name scope k.session st.after a' l' now';
                  locked = λ now'.
                      lock_authority_rows_hit v.0 scope f now' k.queue k.session st.after a' l'
                        (rw st.same_leases (find-put_self f.lease_id l' db.leases))
                        (rw lease k.lease_named) (rw (st.same_queues, lease) k.found_queue)
                        (rw st.same_sessions k.found_session) k.session_named st.found'
                        (rw (st.same_scope, job) k.job_scope)
                        (rw st.same_attempts (find-put_self f.attempt_id a' db.attempts))
                        (rw attempt k.attempt_named);
                  same = λ now'. eqb_refl q.outcome_request_id;
                  answered = λ now'. rw is_answer (
                      replayed_outcome_of s.server_now
                        (fence_state k.queue.name scope k.session st.after a' l' now') q d why refl
                        refl refl refl refl refl);
                }

  replayed_outcome_twice :
      (s s' : FenceState) (q : FailureReport) (a : OutcomeResult)
      → replayed_outcome s q ≡ ok a
      → replayed_outcome s' q ≡ replayed_outcome s q
      → replayed_outcome s' q ≡ ok (as_replay a)
  unfolding replayed_outcome
  replayed_outcome_twice s s' q a h same = guard_ok (class_is q.class s.failure_class) _ _ h λ _ h1.
      guard_ok
        (text_eq (deref s.error_code) q.error_code
          && text_eq (deref s.error_message) q.error_message)
        _ _ h1 λ _ last. let self : a ≡ as_replay a = ground (arith, last) in same ∙ h ∙ ap ok self

  beside_ok :
      (db : Db) (m : Result OutcomeResult) (v : Db × OutcomeResult)
      → beside db m ≡ ok v
      → (v.0 ≡ db) × (m ≡ ok v.1)
  beside_ok db (ok a) v h = (ground arith, ground arith)
  beside_ok db (err e) v h = cc

  replayed-Reported :
      (db : Db) (scope : Text) (now : ℕ) (q : FailureReport) (s : FenceState)
      (v : Db × OutcomeResult)
      → IsLocked db scope q.fence now s
      → is_at q.outcome_request_id s.outcome_request_id ≡ true
      → beside db (replayed_outcome s q) ≡ ok v
      → Reported fl v.0 scope q v.1
  unfolding fence_state replayed_outcome
  replayed-Reported db scope now q s v k mine h =
      let (at, answered) = beside_ok db (replayed_outcome s q) v h in
      let again : ℕ → FenceState =
        λ now'. fence_state k.queue.name scope k.session k.job k.attempt k.lease now' in
      record {
        state = again;
        locked = λ now'.
            subst (λ x. lock_authority_rows x scope q.fence now' ≡ ok (again now')) (sym at)
              (lock_authority_rows_hit db scope q.fence now' k.queue k.session k.job k.attempt
                k.lease k.found_lease k.lease_named k.found_queue k.found_session k.session_named
                k.found_job k.job_scope k.found_attempt k.attempt_named);
        same = λ now'. rw k.state_eq at mine;
        answered =
            λ now'. replayed_outcome_twice s (again now') q v.1 answered (rw k.state_eq refl);
      }

  fail-Reported :
      (db : Db) (p : RetryPolicy fl) (jitter : Option Carrier) (scope : Text) (q : FailureReport)
      (fresh : Fresh) (now : ℕ) (v : Db × OutcomeResult)
      → fail fl db p jitter scope q fresh now ≡ ok v
      → (valid_failure_report q ≡ true) × Reported fl v.0 scope q v.1
  unfolding fail fail_locked report_failure
  fail-Reported db p jitter scope q fresh now v h =
      guard_ok (valid_failure_report q) _ _ h λ valid h1.
        bind_ok (lock_authority_rows db scope q.fence now) _ h1 λ s locked h2.
          let k = lock_authority_rows-IsLocked db scope q.fence now s locked in
          if_ok (is_at q.outcome_request_id s.outcome_request_id) _ _ h2
            (λ mine again. (valid, replayed-Reported db scope now q s v k mine again))
            λ _ new.
              refuse_ok (foreign_outcome db (some q.outcome_request_id) q.fence.attempt_id) _ _ new
                λ _ h3. guard_ok s.session_healthy _ _ h3 λ _ h4.
                  refuse_ok (timed_out s) _ _ h4 λ _ h5. guard_ok (lease_usable s) _ _ h5 λ _ h6.
                    guard_ok (is_running s.job_status && attempt_running s.attempt_status) _ _ h6
                      λ _ h7.
                        bind_ok
                          (as_conflict (
                            decide fl p q.class s.attempt_number s.attempt_number s.max_attempts
                              jitter))
                          _ h7
                          λ d decided last. (
                            valid,
                            finalized-Reported db scope now q s d fresh v k
                                (decide_reason p q.class s.attempt_number s.attempt_number
                                  s.max_attempts jitter d (as_conflict_ok _ d decided))
                                last,
                          )

  -- A report of a failure that returned a decision, made again at any later or earlier time, under
  -- any policy, jitter and fresh ids, returns that decision, marked as replayed, and leaves the
  -- database as it is: a decision is stored, never computed anew.
  pub fail-fail :
      (db : Db) (p p' : RetryPolicy fl) (jitter jitter' : Option Carrier) (scope : Text)
      (q : FailureReport) (fresh fresh' : Fresh) (now now' : ℕ) (v : Db × OutcomeResult)
      → fail fl db p jitter scope q fresh now ≡ ok v
      → fail fl v.0 p' jitter' scope q fresh' now'
        ≡ ok (
          v.0,
          record {
            job_id = v.1.job_id;
            job_status = v.1.job_status;
            attempt_status = v.1.attempt_status;
            retry_at = v.1.retry_at;
            retry_delay = v.1.retry_delay;
            dead_letter_reason = v.1.dead_letter_reason;
            replayed = true;
          },
        )
  unfolding fail fail_locked
  fail-fail db p p' jitter jitter' scope q fresh fresh' now now' v h =
      let (valid, r) = fail-Reported db p jitter scope q fresh now v h in
      rw (valid, r.locked now', r.same now', r.answered now') refl
