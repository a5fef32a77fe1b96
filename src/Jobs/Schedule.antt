-- ===== src/Jobs/Schedule.antt =====
-- internal/jobs/schedule.go: the scheduler promotes jobs that are due and announces again queued
-- jobs whose notification was lost.
pub mod Steps
pub mod Promotion
use task_forge.Base.{
  Text, ℕ, ◌+◌, ◌-◌, ◌==◌, Bool, true, false, not, ◌&&◌, ◌||◌, Option, none, some, ltb, leb,
  if◌then◌else◌, Result, ok, err, ◌>>=◌, ◌>>◌, or_fail, database_error,
}
use task_forge.Table.{Table, find, update}
use task_forge.Schema.{Db, Job, Status, find_queue, is_waiting, is_queued}
use task_forge.Outbox.{insert_work_available, has_pending_work_available}
use task_forge.Jobs.Cancel.{same_status}

pub record SchedulerStats : Type 0 where
  pub promoted_jobs : ℕ
  pub renotified : ℕ
  pub skipped : ℕ

-- The instant of the transaction, and the UUID and time of the event that it inserts.
pub record ScheduleDraw : Type 0 where
  pub event_id : ℕ
  pub server_now : ℕ
  pub tx_now : ℕ

abbrev pub promote_row : ℕ → Job → Job
promote_row now j = record j {
  status = Status.queued;
  updated_at = now;
  notification_generation = j.notification_generation + 1;
  last_notification_at = some now;
}

abbrev pub unchanged : Db → Result (Db × Bool)
unchanged db = ok (db, false)

abbrev pub promote_written : Db → ℕ → Text → ScheduleDraw → Option (Table Job) → Result (Db × Bool)
promote_written db job_id queue draw none = unchanged db
promote_written db job_id queue draw (some jobs) = do
  j ← or_fail (find job_id jobs) database_error
  db' ←
      insert_work_available draw.event_id job_id queue j.notification_generation draw.tx_now
        (record db { jobs = jobs })
  ok (db', true)

-- The locked row, decided and written.
unfoldable pub promote_locked : Db → ℕ → Text → ScheduleDraw → Job → Result (Db × Bool)
promote_locked db job_id queue draw j =
    if not (is_waiting j.status)
    then unchanged db
    else if ltb draw.server_now j.available_at
    then unchanged db
    else promote_written db job_id queue draw (
        update job_id
          (λ (k : Job).
            same_status k.status j.status && k.notification_generation == j.notification_generation)
          (promote_row draw.server_now) db.jobs)

unfoldable pub promote_found : Db → ℕ → ScheduleDraw → Option Job → Result (Db × Bool)
promote_found db job_id draw none = unchanged db
promote_found db job_id draw (some j) = do
  q ← or_fail (find_queue j.queue db.queues) database_error
  promote_locked db job_id q.name draw j

-- promoteDueJob: whether the job was promoted.
unfoldable pub promote_due_job : Db → ℕ → ScheduleDraw → Result (Db × Bool)
unfolding promote_found
promote_due_job db job_id draw = promote_found db job_id draw (find job_id db.jobs)

abbrev pub older_than : ℕ → ℕ → Option ℕ → Bool
older_than interval now none = false
older_than interval now (some t) = ltb t (now - interval)

abbrev pub stamp_row : ℕ → Job → Job
stamp_row now j = record j { last_notification_at = some now }

abbrev pub renotify_written :
    Db → ℕ → Text → ℕ → ScheduleDraw → Option (Table Job) → Result (Db × Bool)
renotify_written db job_id queue generation draw none = unchanged db
renotify_written db job_id queue generation draw (some jobs) = do
  db' ←
      insert_work_available draw.event_id job_id queue generation draw.tx_now
        (record db { jobs = jobs })
  ok (db', true)

unfoldable pub renotify_locked : Db → ℕ → Text → ℕ → ScheduleDraw → Job → Result (Db × Bool)
renotify_locked db job_id queue interval draw j =
    if not (is_queued j.status) || ltb j.notification_generation 1
    then unchanged db
    else if not (older_than interval draw.server_now j.last_notification_at)
    then unchanged db
    else if has_pending_work_available job_id j.notification_generation db
    then unchanged db
    else renotify_written db job_id queue j.notification_generation draw (
        update job_id
          (λ (k : Job).
            is_queued k.status && k.notification_generation == j.notification_generation)
          (stamp_row draw.server_now) db.jobs)

unfoldable pub renotify_found : Db → ℕ → ℕ → ScheduleDraw → Option Job → Result (Db × Bool)
renotify_found db job_id interval draw none = unchanged db
renotify_found db job_id interval draw (some j) = do
  q ← or_fail (find_queue j.queue db.queues) database_error
  renotify_locked db job_id q.name interval draw j

-- renotifyStrandedJob: whether the job was announced again.
unfoldable pub renotify_stranded_job : Db → ℕ → ℕ → ScheduleDraw → Result (Db × Bool)
unfolding renotify_found
renotify_stranded_job db job_id interval draw =
    renotify_found db job_id interval draw (find job_id db.jobs)
