-- ===== src/Jobs/Schedule/Promotion.antt =====
-- What a promotion does to a job, whatever its status, and what a second replica does after it.
use task_forge.Base.{
  ℕ, ◌+◌, ◌<◌, ◌≤◌, ◌≡◌, ◌⊎◌, inl, inr, refl, arith, true, false, ◌==◌, ◌&&◌, none, some, ltb, ok,
  Bool-cases, eqb_refl,
}
use task_forge.Table.{find, put, update}
use task_forge.Table.Laws.{update_hit, find-put_self}
use task_forge.Schema.{Db, Job, Event, Status, Queue, find_queue, is_waiting}
use task_forge.Outbox.{new_event, insert_work_available_hit, advertises, advertises_new}
use task_forge.Jobs.Cancel.{same_status}
use task_forge.Jobs.Cancellation.{same_status_refl}
use task_forge.Jobs.Schedule.{
  ScheduleDraw, promote_due_job, promote_found, promote_locked, promote_row,
}

-- A job that waits, and whose time has come.
abbrev pub IsDue : ℕ → Job → Type 0
IsDue now j =
    ((j.status ≡ Status.pending) ⊎ (j.status ≡ Status.retry_wait)) × (j.available_at ≤ now)

waiting_cases : (s : Status) → is_waiting s ≡ true → (s ≡ Status.pending) ⊎ (s ≡ Status.retry_wait)
waiting_cases Status.pending h = inl refl
waiting_cases Status.retry_wait h = inr refl
waiting_cases _ h = cc

module _ (db : Db) (i : ℕ) (draw : ScheduleDraw) (j : Job) (q : Queue)
    (found : find i db.jobs ≡ some j) (fq : find_queue j.queue db.queues ≡ some q) where
  -- A job of any other status, or one that is not due yet, is left alone.
  promote_due_job-not_waiting :
      is_waiting j.status ≡ false → promote_due_job db i draw ≡ ok (db, false)
  unfolding promote_due_job promote_found promote_locked
  promote_due_job-not_waiting h = rw (found, fq, h) refl

  promote_due_job-early :
      is_waiting j.status ≡ true
      → ltb draw.server_now j.available_at ≡ true
      → promote_due_job db i draw ≡ ok (db, false)
  unfolding promote_due_job promote_found promote_locked
  promote_due_job-early h k = rw (found, fq, h, k) refl

  promote_due_job_hit :
      is_waiting j.status ≡ true
      → ltb draw.server_now j.available_at ≡ false
      → find draw.event_id db.outbox ≡ none
      → promote_due_job db i draw
        ≡ ok (
          record db {
            jobs = put i (promote_row draw.server_now j) db.jobs;
            outbox =
                put draw.event_id
                  (new_event i q.name (j.notification_generation + 1) draw.tx_now)
                  db.outbox;
          },
          true,
        )
  unfolding promote_due_job promote_found promote_locked
  promote_due_job_hit waits now fresh =
      let j' = promote_row draw.server_now j in
      let written : update i
            (λ (k : Job).
              same_status k.status j.status
              && k.notification_generation == j.notification_generation)
            (promote_row draw.server_now) db.jobs
          ≡ some (put i j' db.jobs) =
        update_hit i _ (promote_row draw.server_now) db.jobs j found
          (rw (same_status_refl j.status, eqb_refl j.notification_generation) refl) in
      rw
        (
          found,
          fq,
          waits,
          now,
          written,
          find-put_self i j' db.jobs,
          insert_work_available_hit draw.event_id i q.name (j.notification_generation + 1)
              draw.tx_now (record db { jobs = put i j' db.jobs }) fresh (ground arith),
        )
        refl

-- A job whose queue exists, and an event id that is fresh: if the job is PENDING or RETRY_WAIT and
-- its time has come, it is promoted, which is to write one row and to insert one event. The row is
-- the job's, QUEUED under the next generation and stamped with the instant, and otherwise as it was;
-- the event is unpublished, of the job's queue, and advertises that generation. A replica that comes
-- second then changes nothing, whatever its clock and its ids. In every other case the promotion
-- changes nothing.
pub promote_due_job_lem :
    (db : Db) (i : ℕ) (draw draw' : ScheduleDraw) (j : Job) (q : Queue)
    → find i db.jobs ≡ some j
    → find_queue j.queue db.queues ≡ some q
    → find draw.event_id db.outbox ≡ none
    → (IsDue draw.server_now j
        × (db' : Db) × (e : Event) × (promote_due_job db i draw ≡ ok (db', true))
        × (db' ≡ record db {
          jobs =
              put i
                (record j {
                  status = Status.queued;
                  updated_at = draw.server_now;
                  notification_generation = j.notification_generation + 1;
                  last_notification_at = some draw.server_now;
                })
                db.jobs;
          outbox = put draw.event_id e db.outbox;
        })
        × (advertises i (j.notification_generation + 1) e ≡ true)
        × (e.queue ≡ q.name)
        × (e.published ≡ false)
        × (promote_due_job db' i draw' ≡ ok (db', false)))
      ⊎ (((is_waiting j.status ≡ false) ⊎ (draw.server_now < j.available_at))
          × (promote_due_job db i draw ≡ ok (db, false)))
promote_due_job_lem db i draw draw' j q found fq fresh = elim (Bool-cases (is_waiting j.status)) [
  | inr busy ↦ inr (inl busy, promote_due_job-not_waiting db i draw j q found fq busy)
  | inl waits ↦ elim (Bool-cases (ltb draw.server_now j.available_at)) [
    | inl early ↦
        inr (inr (ground (arith, early)), promote_due_job-early db i draw j q found fq waits early)
    | inr now ↦
        let j' = promote_row draw.server_now j in
        let e = new_event i q.name (j.notification_generation + 1) draw.tx_now in
        let db' : Db = record db {
          jobs = put i j' db.jobs;
          outbox = put draw.event_id e db.outbox;
        } in
        inl (
          (waiting_cases j.status waits, ground (arith, now)),
          db',
          e,
          promote_due_job_hit db i draw j q found fq waits now fresh,
          refl,
          advertises_new i q.name (j.notification_generation + 1) draw.tx_now,
          refl,
          refl,
          promote_due_job-not_waiting db' i draw' j' q (find-put_self i j' db.jobs) fq refl,
        )
  ]
]
