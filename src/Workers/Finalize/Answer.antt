-- ===== src/Workers/Finalize/Answer.antt =====
-- What `finalizeAttempt` answers, and which rows it leaves alone.
use task_forge.Base.{
  ℕ, ◌+◌, ◌*◌, ◌/◌, ◌≡◌, refl, sym, ◌∙◌, arith, subst, true, false, ◌==◌, ltb, Option, none, some,
  if◌then◌else◌, ok, or_fail_ok, bind_ok, if_ok,
}
use task_forge.Table.{find, put}
use task_forge.Table.Laws.{find-put_self, update_ok}
use task_forge.Lifecycle.{DlqReason}
use task_forge.Lifecycle.Retry.{Decision}
use task_forge.Lifecycle.Dlq.{insert_dlq_entry, insert_dlq_entry-eq-ok}
use task_forge.Schema.{Db, Job, Status, is_executing, millisecond}
use task_forge.Outbox.{insert_work_available, insert_work_available-eq-ok}
use task_forge.Workers.{Fence, OutcomeResult}
use task_forge.Workers.Authority.{FenceState}
use task_forge.Workers.Finalize.{
  AttemptOutcome, Fresh, settle_job, wait_for_retry, back_to_queue, dead_letter_job, set_status,
  requeue, stored_millis, retry_instant,
}

-- The status of a job after a decision that stored this delay.
abbrev pub settled : Option ℕ → Status
settled none = Status.dead_lettered
settled (some ms) = if ms == 0 then Status.queued else Status.retry_wait

abbrev pub unless_retry : Decision → Option DlqReason
unless_retry d = if d.retry then none else d.dead_letter_reason

-- The answer that follows from the decision alone.
abbrev pub answer : Fence → AttemptOutcome → Decision → ℕ → OutcomeResult
answer f o d now = record {
  job_id = f.job_id;
  job_status = settled (stored_millis d);
  attempt_status = o.status;
  retry_at = retry_instant now (stored_millis d);
  retry_delay = stored_millis d;
  dead_letter_reason = unless_retry d;
  replayed = false;
}

-- The job's row is there under its scope, and the tables of other rows are as they were.
pub record Settled (db : Db) (f : Fence) (db' : Db) : Type 0 where
  pub before : Job
  pub after : Job
  pub found : find f.job_id db.jobs ≡ some before
  pub found' : find f.job_id db'.jobs ≡ some after
  pub same_scope : after.scope ≡ before.scope
  pub same_attempts : db'.attempts ≡ db.attempts
  pub same_leases : db'.leases ≡ db.leases
  pub same_sessions : db'.sessions ≡ db.sessions
  pub same_queues : db'.queues ≡ db.queues

ok_inj {ℓ} : {A : Type ℓ} {a b : A} → ok a ≡ ok b → a ≡ b
ok_inj h = cc

module _ (db : Db) (s : FenceState) (f : Fence) (o : AttemptOutcome) where
  -- The job's row written, and other tables than the four.
  written-Settled :
      (j j' : Job) (db' : Db)
      → find f.job_id db.jobs ≡ some j
      → j'.scope ≡ j.scope
      → db'.jobs ≡ put f.job_id j' db.jobs
      → db'.attempts ≡ db.attempts
      → db'.leases ≡ db.leases
      → db'.sessions ≡ db.sessions
      → db'.queues ≡ db.queues
      → Settled db f db'
  written-Settled j j' db' found scope jobs a l se q = record {
    before = j;
    after = j';
    found = found;
    found' = rw jobs (find-put_self f.job_id j' db.jobs);
    same_scope = scope;
    same_attempts = a;
    same_leases = l;
    same_sessions = se;
    same_queues = q;
  }

  wait_for_retry-Settled :
      (d : Decision) (v : Db × OutcomeResult)
      → d.retry ≡ true
      → ltb 0 (d.delay / millisecond) ≡ true
      → wait_for_retry db s f o (d.delay / millisecond) ≡ ok v
      → Settled db f v.0 × (v.1 ≡ answer f o d s.server_now)
  unfolding wait_for_retry
  wait_for_retry-Settled d v retry later h =
      let ms = d.delay / millisecond in
      let waiting =
        set_status Status.retry_wait (some (s.server_now + ms * millisecond)) s.server_now in
      update_ok f.job_id (λ (j : Job). is_executing j.status) waiting db.jobs _ _ h
        λ j found _ last.
          subst (λ (x : Db × OutcomeResult). Settled db f x.0 × (x.1 ≡ answer f o d s.server_now))
            (ok_inj last)
            (written-Settled j (waiting j) _ found refl refl refl refl refl refl, ground arith)

  back_to_queue-Settled :
      (d : Decision) (fresh : Fresh) (v : Db × OutcomeResult)
      → d.retry ≡ true
      → ltb 0 (d.delay / millisecond) ≡ false
      → back_to_queue db s f o fresh ≡ ok v
      → Settled db f v.0 × (v.1 ≡ answer f o d s.server_now)
  unfolding back_to_queue
  back_to_queue-Settled d fresh v retry now h =
      update_ok f.job_id (λ (j : Job). is_executing j.status) (requeue s.server_now) db.jobs _ _ h
        λ j found _ rest.
          let j' = requeue s.server_now j in
          or_fail_ok (find f.job_id (put f.job_id j' db.jobs)) _ _ rest λ k _ rest'.
            bind_ok
              (insert_work_available fresh.event_id f.job_id s.queue k.notification_generation
                fresh.tx_now (record db { jobs = put f.job_id j' db.jobs }))
              _ rest'
              λ db' done last.
                let (_, written) = insert_work_available-eq-ok _ _ _ _ _ _ done in
                let at : v.0 ≡ db' = ground (arith, last) in
                let none_left : d.delay / millisecond ≡ 0 = ground (arith, now) in
                let to : v.1 ≡ answer f o d s.server_now = ground (arith, retry, none_left) in
                (
                  subst (Settled db f) (sym (at ∙ written))
                      (written-Settled j j' _ found refl refl refl refl refl refl),
                  to,
                )

  dead_letter_job-Settled :
      (d : Decision) (fresh : Fresh) (v : Db × OutcomeResult)
      → d.retry ≡ false
      → dead_letter_job db s f o d.dead_letter_reason fresh ≡ ok v
      → Settled db f v.0 × (v.1 ≡ answer f o d s.server_now)
  unfolding dead_letter_job
  dead_letter_job-Settled d fresh v retry h =
      let dead = set_status Status.dead_lettered none s.server_now in
      update_ok f.job_id (λ (j : Job). is_executing j.status) dead db.jobs _ _ h
        λ j found _ rest.
          bind_ok
            (insert_dlq_entry fresh.dlq_id s.scope s.queue f.job_id (some f.attempt_id)
              d.dead_letter_reason s.server_now
              (record db { jobs = put f.job_id (dead j) db.jobs }))
            _ rest
            λ db' done last.
              let (why, _, _, written) = insert_dlq_entry-eq-ok _ _ _ _ _ _ _ _ done in
              let at : v.0 ≡ db' = ground (arith, last) in
              (
                subst (Settled db f) (sym (at ∙ written))
                    (written-Settled j (dead j) _ found refl refl refl refl refl refl),
                ground (arith, retry, last),
              )

  pub settle_job-Settled :
      (d : Decision) (fresh : Fresh) (v : Db × OutcomeResult)
      → settle_job db s f o d fresh ≡ ok v
      → Settled db f v.0 × (v.1 ≡ answer f o d s.server_now)
  unfolding settle_job
  settle_job-Settled d fresh v h =
      if_ok d.retry _ _ h
        (λ retry h1.
          if_ok (ltb 0 (d.delay / millisecond)) _ _ h1
            (λ later e. wait_for_retry-Settled d v retry later e)
            λ now e. back_to_queue-Settled d fresh v retry now e)
        λ no e. dead_letter_job-Settled d fresh v no e
