-- ===== src/Jobs/Cancellation.antt =====
-- What a request to cancel does on each status, and a second request.
use task_forge.Base.{
  Text, text_eq, ℕ, ◌≡◌, refl, arith, subst, Bool, true, false, ◌&&◌, Option, none, some, Result,
  ok, err, or_fail_ok, job_not_cancelable,
}
use task_forge.Table.{find, put}
use task_forge.Table.Laws.{find-put_self, find_if_ok, find_if_hit, update_ok, update_hit}
use task_forge.Schema.{Db, Job, Status, Queue, find_queue}
use task_forge.Jobs.Cancel.{
  CancelResult, request_cancel, cancel_by_status, cancel_now, cancel_target, cancel_row,
  same_status,
}
use task_forge.Jobs.Idempotency.{ok_inj}

-- A cancellation was asked for: it is being delivered, or done.
abbrev pub is_asked : Status → Bool
is_asked Status.cancel_requested = true
is_asked Status.canceled = true
is_asked _ = false

-- The answer agrees with the job's row, and the row is marked.
abbrev Answered : Text → ℕ → Db × CancelResult → Type 0
Answered scope i v =
    (j : Job) × (q : Queue) × (find i v.0.jobs ≡ some j)
    × (text_eq j.scope scope ≡ true)
    × (find_queue j.queue v.0.queues ≡ some q)
    × (is_asked j.status ≡ true)
    × (v.1.job_id ≡ i)
    × (v.1.status ≡ j.status)
    × (v.1.cancel_requested_at ≡ j.cancel_requested_at)

target_is_asked : (s t : Status) → cancel_target s ≡ some t → is_asked t ≡ true
target_is_asked s t h = ground arith

cancel_now-Answered :
    (db : Db) (scope : Text) (i now : ℕ) (j : Job) (q : Queue) (v : Db × CancelResult)
    → find i db.jobs ≡ some j
    → find_queue j.queue db.queues ≡ some q
    → cancel_now db scope i now j ≡ ok v
    → Answered scope i v
unfolding cancel_now
cancel_now-Answered db scope i now j q v fj fq h =
    or_fail_ok (cancel_target j.status) _ _ h λ target et h1.
      update_ok i (λ (k : Job). text_eq k.scope scope && same_status k.status j.status)
        (cancel_row target now) db.jobs _ _ h1
        λ k fk ek last.
          let same : j ≡ k = cc (fj, fk) in
          subst (Answered scope i) (ok_inj last) (
            cancel_row target now k,
            q,
            find-put_self i (cancel_row target now k) db.jobs,
            ground (arith, ek),
            subst (λ (x : Job). find_queue x.queue db.queues ≡ some q) same fq,
            target_is_asked j.status target et,
            refl,
            refl,
            refl,
          )

cancel_by_status-Answered :
    (s : Status) (db : Db) (scope : Text) (i now : ℕ) (j : Job) (q : Queue) (v : Db × CancelResult)
    → j.status ≡ s
    → find i db.jobs ≡ some j
    → text_eq j.scope scope ≡ true
    → find_queue j.queue db.queues ≡ some q
    → cancel_by_status s db scope i now j ≡ ok v
    → Answered scope i v
unfolding cancel_by_status
cancel_by_status-Answered Status.cancel_requested db scope i now j q v e fj es fq h =
    subst (Answered scope i) (ok_inj h) (j, q, fj, es, fq, rw e refl, refl, refl, refl)
cancel_by_status-Answered Status.canceled db scope i now j q v e fj es fq h =
    subst (Answered scope i) (ok_inj h) (j, q, fj, es, fq, rw e refl, refl, refl, refl)
cancel_by_status-Answered Status.pending db scope i now j q v e fj es fq h =
    cancel_now-Answered db scope i now j q v fj fq h
cancel_by_status-Answered Status.queued db scope i now j q v e fj es fq h =
    cancel_now-Answered db scope i now j q v fj fq h
cancel_by_status-Answered Status.leased db scope i now j q v e fj es fq h =
    cancel_now-Answered db scope i now j q v fj fq h
cancel_by_status-Answered Status.running db scope i now j q v e fj es fq h =
    cancel_now-Answered db scope i now j q v fj fq h
cancel_by_status-Answered Status.retry_wait db scope i now j q v e fj es fq h =
    cancel_now-Answered db scope i now j q v fj fq h
cancel_by_status-Answered Status.succeeded db scope i now j q v e fj es fq h =
    cancel_now-Answered db scope i now j q v fj fq h
cancel_by_status-Answered Status.dead_lettered db scope i now j q v e fj es fq h =
    cancel_now-Answered db scope i now j q v fj fq h

request_cancel-Answered :
    (db : Db) (scope : Text) (i now : ℕ) (v : Db × CancelResult)
    → request_cancel db scope i now ≡ ok v
    → Answered scope i v
unfolding request_cancel
request_cancel-Answered db scope i now v h =
    find_if_ok i (λ (j : Job). text_eq j.scope scope) db.jobs _ _ h
      λ j fj es h1.
        or_fail_ok (find_queue j.queue db.queues) _ _ h1
          λ q fq last. cancel_by_status-Answered j.status db scope i now j q v refl fj es fq last

-- An answer for a job that was asked already.
asked_again :
    (s : Status) (db : Db) (scope : Text) (i now : ℕ) (j : Job)
    → is_asked s ≡ true
    → cancel_by_status s db scope i now j
      ≡ ok (
        db,
        record {
          job_id = i;
          status = j.status;
          cancel_requested_at = j.cancel_requested_at;
          already_requested = true;
        },
      )
unfolding cancel_by_status
asked_again Status.cancel_requested db scope i now j h = refl
asked_again Status.canceled db scope i now j h = refl
asked_again Status.pending db scope i now j h = cc
asked_again Status.queued db scope i now j h = cc
asked_again Status.leased db scope i now j h = cc
asked_again Status.running db scope i now j h = cc
asked_again Status.retry_wait db scope i now j h = cc
asked_again Status.succeeded db scope i now j h = cc
asked_again Status.dead_lettered db scope i now j h = cc

-- A request to cancel that was accepted, made again at any time, returns the same status and
-- instant, marked as requested already, and leaves the database as it is.
pub request_cancel-request_cancel :
    (db : Db) (scope : Text) (i now now' : ℕ) (v : Db × CancelResult)
    → request_cancel db scope i now ≡ ok v
    → request_cancel v.0 scope i now'
      ≡ ok (
        v.0,
        record {
          job_id = v.1.job_id;
          status = v.1.status;
          cancel_requested_at = v.1.cancel_requested_at;
          already_requested = true;
        },
      )
unfolding request_cancel
request_cancel-request_cancel db scope i now now' v h =
    let (j, q, fj, es, fq, asked, id, status, at) = request_cancel-Answered db scope i now v h in
    rw (find_if_hit i (λ (k : Job). text_eq k.scope scope) v.0.jobs j fj es, fq, id, status, at)
      (asked_again j.status v.0 scope i now' j asked)

-- Where a request leads from each status.
abbrev pub canceled_from : Status → Option Status
canceled_from Status.pending = some Status.canceled
canceled_from Status.queued = some Status.canceled
canceled_from Status.retry_wait = some Status.canceled
canceled_from Status.leased = some Status.cancel_requested
canceled_from Status.running = some Status.cancel_requested
canceled_from Status.cancel_requested = some Status.cancel_requested
canceled_from Status.canceled = some Status.canceled
canceled_from Status.succeeded = none
canceled_from Status.dead_lettered = none

-- The request ends with the job in that status, or is refused.
abbrev pub LeadsTo : ℕ → Option Status → Result (Db × CancelResult) → Type 0
LeadsTo i none m = m ≡ err job_not_cancelable
LeadsTo i (some t) m =
    (v : Db × CancelResult) × (m ≡ ok v)
    × (v.1.status ≡ t)
    × ((k : Job) × (find i v.0.jobs ≡ some k) × (k.status ≡ t))

pub same_status_refl : (s : Status) → same_status s s ≡ true
same_status_refl s = ground arith

cancel_now_hit :
    (db : Db) (scope : Text) (i now : ℕ) (j : Job) (t : Status)
    → find i db.jobs ≡ some j
    → text_eq j.scope scope ≡ true
    → cancel_target j.status ≡ some t
    → LeadsTo i (some t) (cancel_now db scope i now j)
unfolding cancel_now
cancel_now_hit db scope i now j t fj es et =
    let k = cancel_row t now j in
    (
      (
        record db { jobs = put i k db.jobs },
        record {
          job_id = i;
          status = t;
          cancel_requested_at = some now;
          already_requested = false;
        },
      ),
      rw
          (
            et,
            update_hit i (λ (k : Job). text_eq k.scope scope && same_status k.status j.status)
                (cancel_row t now) db.jobs j fj (rw (es, same_status_refl j.status) refl),
          )
          refl,
      refl,
      (k, find-put_self i k db.jobs, refl),
    )

cancel_now_miss :
    (db : Db) (scope : Text) (i now : ℕ) (j : Job)
    → cancel_target j.status ≡ none
    → cancel_now db scope i now j ≡ err job_not_cancelable
unfolding cancel_now
cancel_now_miss db scope i now j et = rw et refl

cancel_by_status-LeadsTo :
    (s : Status) (db : Db) (scope : Text) (i now : ℕ) (j : Job)
    → j.status ≡ s
    → find i db.jobs ≡ some j
    → text_eq j.scope scope ≡ true
    → LeadsTo i (canceled_from s) (cancel_by_status s db scope i now j)
unfolding cancel_by_status
cancel_by_status-LeadsTo Status.cancel_requested db scope i now j e fj es =
    ((db, _), refl, e, (j, fj, e))
cancel_by_status-LeadsTo Status.canceled db scope i now j e fj es = ((db, _), refl, e, (j, fj, e))
cancel_by_status-LeadsTo Status.pending db scope i now j e fj es =
    cancel_now_hit db scope i now j Status.canceled fj es (rw e refl)
cancel_by_status-LeadsTo Status.queued db scope i now j e fj es =
    cancel_now_hit db scope i now j Status.canceled fj es (rw e refl)
cancel_by_status-LeadsTo Status.retry_wait db scope i now j e fj es =
    cancel_now_hit db scope i now j Status.canceled fj es (rw e refl)
cancel_by_status-LeadsTo Status.leased db scope i now j e fj es =
    cancel_now_hit db scope i now j Status.cancel_requested fj es (rw e refl)
cancel_by_status-LeadsTo Status.running db scope i now j e fj es =
    cancel_now_hit db scope i now j Status.cancel_requested fj es (rw e refl)
cancel_by_status-LeadsTo Status.succeeded db scope i now j e fj es =
    cancel_now_miss db scope i now j (rw e refl)
cancel_by_status-LeadsTo Status.dead_lettered db scope i now j e fj es =
    cancel_now_miss db scope i now j (rw e refl)

-- A request to cancel a job of the scope, whose queue exists, ends with the job canceled when it
-- was pending, queued or waiting for a retry, with its cancellation requested when it was leased
-- or running, as it was when a cancellation was asked for before, and is refused when the job
-- succeeded or was dead-lettered.
pub request_cancel_lem :
    (db : Db) (scope : Text) (i now : ℕ) (j : Job) (q : Queue)
    → find i db.jobs ≡ some j
    → text_eq j.scope scope ≡ true
    → find_queue j.queue db.queues ≡ some q
    → LeadsTo i (canceled_from j.status) (request_cancel db scope i now)
unfolding request_cancel
request_cancel_lem db scope i now j q fj es fq =
    subst (LeadsTo i (canceled_from j.status))
      (rw (find_if_hit i (λ (k : Job). text_eq k.scope scope) db.jobs j fj es, fq) refl)
      (cancel_by_status-LeadsTo j.status db scope i now j refl fj es)
