-- ===== src/Workers/Finalize/Steps.antt =====
-- The end of an attempt is one transition of the job, its attempt and its lease.
use task_forge.Base.{
  Text, ℕ, ◌≡◌, refl, sym, ap, ◌∙◌, arith, subst, true, false, Option, none, some, ltb, ◌*◌, ◌+◌,
  ◌/◌, ok, or_fail_ok, refuse_ok, if_ok, bind_ok, state-eq,
}
use task_forge.Table.{find, put}
use task_forge.Table.Laws.{update_ok, find-put_self}
use task_forge.Lifecycle.{DlqReason}
use task_forge.Lifecycle.Retry.{Decision}
use task_forge.Lifecycle.Dlq.{insert_dlq_entry, insert_dlq_entry-eq-ok, new_entry}
use task_forge.Schema.{
  Db, Job, Attempt, Lease, Status, LeaseStatus, is_executing, is_running, attempt_executing,
  is_cancel_requested, lease_active, millisecond,
}
use task_forge.Outbox.{
  insert_work_available, new_event, advertises_new, insert_work_available-eq-ok,
}
use task_forge.Workers.{Fence, OutcomeResult}
use task_forge.Workers.Authority.{FenceState, IsLocked, names_attempt, names_lease, fence_state}
use task_forge.Workers.Execution.{release_lease}
use task_forge.Workers.Finalize.{
  AttemptOutcome, Fresh, finalize_attempt, settle_job, wait_for_retry, back_to_queue,
  dead_letter_job, finalize_cancellation, end_attempt, foreign_outcome, cancel_attempt, set_status,
  requeue,
}
use task_forge.Transitions.{Transition, IsEnd, is_held, allowed, ended, requeued, buried}

-- The attempt and the lease that a fence names, before and after their updates.
pub record IsFinal (db : Db) (f : Fence) (att att' : Attempt) (lease lease' : Lease) : Type 0 where
  pub found_attempt : find f.attempt_id db.attempts ≡ some att
  pub found_lease : find f.lease_id db.leases ≡ some lease
  pub attempt_job : att.job_id ≡ f.job_id
  pub attempt_job' : att'.job_id ≡ f.job_id
  pub lease_job : lease.job_id ≡ f.job_id
  pub lease_job' : lease'.job_id ≡ f.job_id
  pub lease_queue : lease'.queue ≡ lease.queue
  pub was_executing : attempt_executing att.status ≡ true
  pub no_longer : attempt_executing att'.status ≡ false
  pub was_active : lease_active lease.status ≡ true
  pub inactive : lease_active lease'.status ≡ false

-- The database after the two updates.
abbrev finalized : Db → Fence → Attempt → Lease → Db
finalized db f att' lease' = record db {
  attempts = put f.attempt_id att' db.attempts;
  leases = put f.lease_id lease' db.leases;
}

module _ (db : Db) (f : Fence) (att att' : Attempt) (lease lease' : Lease)
    (w : IsFinal db f att att' lease lease') where
  pub IsEnd-of :
      (j j' : Job)
      → find f.job_id db.jobs ≡ some j
      → allowed j.status j'.status ≡ true
      → is_held j.status ≡ true
      → is_held j'.status ≡ false
      → j'.max_attempts ≡ j.max_attempts
      → (j'.scope ≡ j.scope) × (j'.queue ≡ j.queue)
      → IsEnd db f.job_id f.attempt_id f.lease_id j j' att att' lease lease'
  IsEnd-of j j' found edge was now same identity = record {
    move = record { found = found; edge = edge; same_budget = same; same_identity = identity };
    was_held = was;
    released = now;
    found_attempt = w.found_attempt;
    found_lease = w.found_lease;
    attempt_job = w.attempt_job;
    attempt_job' = w.attempt_job';
    lease_job = w.lease_job;
    lease_job' = w.lease_job';
    lease_queue = w.lease_queue;
    was_executing = w.was_executing;
    ended = w.no_longer;
    was_active = w.was_active;
    inactive = w.inactive;
  }

module _ (db : Db) (f : Fence) (s : FenceState) (o : AttemptOutcome) (att att' : Attempt)
    (lease lease' : Lease) (w : IsFinal db f att att' lease lease') where
  wait_for_retry-Transition :
      (ms : ℕ) (r : Db × OutcomeResult)
      → ((j : Job) → find f.job_id db.jobs ≡ some j → j.status ≡ Status.running)
      → wait_for_retry (finalized db f att' lease') s f o ms ≡ ok r
      → Transition db r.0
  unfolding wait_for_retry
  wait_for_retry-Transition ms r runs h =
      let waiting =
        set_status Status.retry_wait (some (s.server_now + ms * millisecond)) s.server_now in
      update_ok f.job_id (λ (j : Job). is_executing j.status) waiting db.jobs _ _ h
        λ j found hit rest.
          let ran = runs j found in
          subst (Transition db) (state-eq r rest) (
            ended f.job_id f.attempt_id f.lease_id j (waiting j) att att' lease lease' db.results
              (IsEnd-of db f att att' lease lease' w j (waiting j) found (rw ran refl) (rw ran refl)
                refl refl (refl, refl))
              refl refl)

  back_to_queue-Transition :
      (fresh : Fresh) (r : Db × OutcomeResult)
      → back_to_queue (finalized db f att' lease') s f o fresh ≡ ok r
      → Transition db r.0
  unfolding back_to_queue
  back_to_queue-Transition fresh r h =
      update_ok f.job_id (λ (j : Job). is_executing j.status) (requeue s.server_now) db.jobs _ _ h
        λ j found hit rest.
          let j' = requeue s.server_now j in
          or_fail_ok (find f.job_id (put f.job_id j' db.jobs)) _ _ rest λ k again rest'.
            let same : k.notification_generation ≡ j'.notification_generation =
              ground (arith, find-put_self f.job_id j' db.jobs) in
            bind_ok
              (insert_work_available fresh.event_id f.job_id s.queue k.notification_generation
                fresh.tx_now
                (record (finalized db f att' lease') { jobs = put f.job_id j' db.jobs }))
              _ rest'
              λ db' done last.
                let (free, written) = insert_work_available-eq-ok _ _ _ _ _ _ done in
                subst (Transition db) (sym written ∙ state-eq r last) (
                  requeued f.job_id f.attempt_id f.lease_id fresh.event_id j j' att att' lease
                    lease' (new_event f.job_id s.queue k.notification_generation fresh.tx_now)
                    (IsEnd-of db f att att' lease lease' w j j' found (ground arith) (ground arith)
                      refl refl (refl, refl))
                    refl free
                    (rw same
                      (advertises_new f.job_id s.queue j'.notification_generation fresh.tx_now)))

  dead_letter_job-Transition :
      (reason : Option DlqReason) (fresh : Fresh) (r : Db × OutcomeResult)
      → dead_letter_job (finalized db f att' lease') s f o reason fresh ≡ ok r
      → Transition db r.0
  unfolding dead_letter_job
  dead_letter_job-Transition reason fresh r h =
      let dead = set_status Status.dead_lettered none s.server_now in
      update_ok f.job_id (λ (j : Job). is_executing j.status) dead db.jobs _ _ h
        λ j found hit rest.
          bind_ok
            (insert_dlq_entry fresh.dlq_id s.scope s.queue f.job_id (some f.attempt_id) reason
              s.server_now
              (record (finalized db f att' lease') { jobs = put f.job_id (dead j) db.jobs }))
            _ rest
            λ db' done last.
              let (why, given, free, written) = insert_dlq_entry-eq-ok _ _ _ _ _ _ _ _ done in
              subst (Transition db) (sym written ∙ state-eq r last) (
                buried f.job_id f.attempt_id f.lease_id fresh.dlq_id j (dead j) att att' lease
                  lease' (new_entry s.scope s.queue f.job_id (some f.attempt_id) why s.server_now)
                  (IsEnd-of db f att att' lease lease' w j (dead j) found (ground arith)
                    (ground arith) refl refl (refl, refl))
                  refl free refl)

  settle_job-Transition :
      (d : Decision) (fresh : Fresh) (r : Db × OutcomeResult)
      → (ltb 0 (d.delay / millisecond) ≡ true
          → (j : Job) → find f.job_id db.jobs ≡ some j
          → j.status ≡ Status.running)
      → settle_job (finalized db f att' lease') s f o d fresh ≡ ok r
      → Transition db r.0
  unfolding settle_job
  settle_job-Transition d fresh r runs h =
      if_ok d.retry _ _ h
        (λ _ again.
          if_ok (ltb 0 (d.delay / millisecond)) _ _ again
            (λ waits e. wait_for_retry-Transition (d.delay / millisecond) r (runs waits) e)
            (λ _ e. back_to_queue-Transition fresh r e))
        (λ _ e. dead_letter_job-Transition d.dead_letter_reason fresh r e)

running_status : (s : Status) → is_running s ≡ true → s ≡ Status.running
running_status s h = ground arith

pub attempt_of_fence :
    (scope : Text) (f : Fence) (a : Attempt) → names_attempt scope f a ≡ true → a.job_id ≡ f.job_id
attempt_of_fence scope f a h = ground arith

lease_of_fence :
    (scope : Text) (f : Fence) (l : Lease) → names_lease scope f l ≡ true → l.job_id ≡ f.job_id
lease_of_fence scope f l h = ground arith

module _ (db : Db) (scope : Text) (f : Fence) (now : ℕ) (s : FenceState)
    (k : IsLocked db scope f now s) where
  -- The rows that the two updates found are the locked ones.
  pub IsFinal-rows :
      (att att' : Attempt) (lease lease' : Lease)
      → find f.attempt_id db.attempts ≡ some att
      → find f.lease_id db.leases ≡ some lease
      → att'.job_id ≡ att.job_id
      → lease'.job_id ≡ lease.job_id
      → lease'.queue ≡ lease.queue
      → attempt_executing att.status ≡ true
      → attempt_executing att'.status ≡ false
      → lease_active lease.status ≡ true
      → lease_active lease'.status ≡ false
      → IsFinal db f att att' lease lease'
  IsFinal-rows att att' lease lease' fa fl sa sl sq e e' l l' =
      let same_attempt : some att ≡ some k.attempt = sym fa ∙ k.found_attempt in
      let same_lease : some lease ≡ some k.lease = sym fl ∙ k.found_lease in
      let named : att.job_id ≡ f.job_id =
        cc (same_attempt, attempt_of_fence scope f k.attempt k.attempt_named) in
      let leased : lease.job_id ≡ f.job_id =
        cc (same_lease, lease_of_fence scope f k.lease k.lease_named) in
      record {
        found_attempt = fa;
        found_lease = fl;
        attempt_job = named;
        attempt_job' = sa ∙ named;
        lease_job = leased;
        lease_job' = sl ∙ leased;
        lease_queue = sq;
        was_executing = e;
        no_longer = e';
        was_active = l;
        inactive = l';
      }

  -- The locked status is that of the job's row.
  pub locked_running :
      is_running s.job_status ≡ true
      → (j : Job) → find f.job_id db.jobs ≡ some j
      → j.status ≡ Status.running
  unfolding fence_state
  locked_running runs j found =
      let same : k.job ≡ j = ground (arith, k.found_job, found) in
      let status : s.job_status ≡ k.job.status = ap (λ (x : FenceState). x.job_status) k.state_eq in
      subst (λ (x : Job). x.status ≡ Status.running) same
        (running_status k.job.status (rw status at runs))

  -- `finalizeAttempt` with a final outcome is one transition, where a job that is to wait for its
  -- retry was running.
  pub finalize_attempt-Transition :
      (o : AttemptOutcome) (d : Decision) (fresh : Fresh) (r : Db × OutcomeResult)
      → attempt_executing o.status ≡ false
      → lease_active o.lease_status ≡ false
      → (ltb 0 (d.delay / millisecond) ≡ true
          → (j : Job) → find f.job_id db.jobs ≡ some j
          → j.status ≡ Status.running)
      → finalize_attempt db s f o d fresh ≡ ok r
      → Transition db r.0
  unfolding finalize_attempt
  finalize_attempt-Transition o d fresh r final over runs h =
      update_ok f.attempt_id (λ (a : Attempt). attempt_executing a.status) (end_attempt s o d)
        db.attempts _ _ h
        λ att fa ea h1.
          refuse_ok (foreign_outcome db o.outcome_request_id f.attempt_id) _ _ h1 λ _ h2.
            update_ok f.lease_id (λ (l : Lease). lease_active l.status)
              (release_lease o.lease_status s.server_now) db.leases _ _ h2
              λ lease fl el h3.
                let att' = end_attempt s o d att in
                let lease' = release_lease o.lease_status s.server_now lease in
                settle_job-Transition db f s o att att' lease lease'
                  (IsFinal-rows att att' lease lease' fa fl refl refl refl ea final el over) d fresh
                  r runs h3

  -- So is `finalizeCancellation`.
  pub finalize_cancellation-Transition :
      (request_id : Option ℕ) (status : LeaseStatus) (r : Db × OutcomeResult)
      → lease_active status ≡ false
      → finalize_cancellation db s f request_id status ≡ ok r
      → Transition db r.0
  unfolding finalize_cancellation
  finalize_cancellation-Transition request_id status r over h =
      update_ok f.attempt_id (λ (a : Attempt). attempt_executing a.status)
        (cancel_attempt s.server_now request_id) db.attempts _ _ h
        λ att fa ea h1. refuse_ok (foreign_outcome db request_id f.attempt_id) _ _ h1 λ _ h2.
          update_ok f.lease_id (λ (l : Lease). lease_active l.status)
            (release_lease status s.server_now) db.leases _ _ h2
            λ lease fl el h3.
              update_ok f.job_id (λ (j : Job). is_cancel_requested j.status)
                (set_status Status.canceled none s.server_now) db.jobs _ _ h3
                λ j fj ej last.
                  let att' = cancel_attempt s.server_now request_id att in
                  let lease' = release_lease status s.server_now lease in
                  let j' = set_status Status.canceled none s.server_now j in
                  subst (Transition db) (state-eq r last) (
                    ended f.job_id f.attempt_id f.lease_id j j' att att' lease lease' db.results
                      (IsEnd-of db f att att' lease lease'
                        (IsFinal-rows att att' lease lease' fa fl refl refl refl ea refl el over) j
                        j' fj (ground arith) (ground arith) refl refl (refl, refl))
                      refl refl)
