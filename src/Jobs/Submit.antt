-- ===== src/Jobs/Submit.antt =====
-- internal/jobs/store.go, Submit: one job for one idempotency key.
use task_forge.Base.{
  Text, text_eq, ℕ, Bool, true, false, ◌&&◌, Option, none, some, List, [], ◌∷◌, ltb, if◌then◌else◌,
  is_some, Result, ok, ◌>>=◌, ◌>>◌, guard, or_fail, unknown_queue, idempotency_conflict,
  job_not_found, database_error,
}
use task_forge.Table.{find_if, insert}
use task_forge.Schema.{Db, Job, Status, IdempotencyRecord, find_queue, is_queued}
use task_forge.Outbox.{insert_work_available}

pub record NormalizedRequest : Type 0 where
  pub queue : Text
  pub job_type : Text
  pub payload : Text
  pub priority : ℕ
  pub max_attempts : ℕ
  pub timeout_seconds : ℕ
  pub required_capabilities : List Text
  pub scheduled_at : Option ℕ

pub record SubmitResult : Type 0 where
  pub job_id : ℕ
  pub job : Job
  pub replayed : Bool

-- What a submission draws: the UUIDs of its rows, its clock_timestamp() and its transaction's now().
pub record SubmitDraw : Type 0 where
  pub job_id : ℕ
  pub event_id : ℕ
  pub server_now : ℕ
  pub tx_now : ℕ

abbrev after : Option ℕ → ℕ → Bool
after none now = false
after (some t) now = ltb now t

-- `req.ScheduledAt != nil && req.ScheduledAt.After(serverNow)`
abbrev pub is_delayed : NormalizedRequest → ℕ → Bool
is_delayed r now = after r.scheduled_at now

abbrev pub instant_or : ℕ → Option ℕ → ℕ
instant_or d none = d
instant_or d (some t) = t

-- The row of a new job: QUEUED with its first notification, or PENDING with none.
unfoldable pub new_job : Text → NormalizedRequest → SubmitDraw → Job
new_job scope r draw = record {
  scope = scope;
  queue = r.queue;
  job_type = r.job_type;
  payload = r.payload;
  status = if is_delayed r draw.server_now then Status.pending else Status.queued;
  priority = r.priority;
  max_attempts = r.max_attempts;
  timeout_seconds = r.timeout_seconds;
  required_capabilities = r.required_capabilities;
  scheduled_at = r.scheduled_at;
  available_at =
      if is_delayed r draw.server_now
      then instant_or draw.server_now r.scheduled_at
      else draw.server_now;
  cancel_requested_at = none;
  replayed_from_job_id = none;
  notification_generation = if is_delayed r draw.server_now then 0 else 1;
  last_notification_at = if is_delayed r draw.server_now then none else some draw.server_now;
  created_at = draw.tx_now;
  updated_at = draw.tx_now;
}

unfoldable pub find_record : Text → Text → List IdempotencyRecord → Option IdempotencyRecord
find_record scope key [] = none
find_record scope key (r ∷ rs) =
    if text_eq r.scope scope && text_eq r.idempotency_key key
    then some r
    else find_record scope key rs

-- getByID
unfoldable pub get_by_id : Db → Text → ℕ → Option Job
get_by_id db scope id = find_if id (λ (j : Job). text_eq j.scope scope) db.jobs

-- resolveExisting, over the record that the key has.
unfoldable pub resolve_existing : Db → Text → Text → IdempotencyRecord → Result (Db × SubmitResult)
resolve_existing db scope fingerprint e = do
  guard (text_eq e.request_fingerprint fingerprint) idempotency_conflict
  j ← or_fail (get_by_id db scope e.job_id) job_not_found
  ok (db, record { job_id = e.job_id; job = j; replayed = true })

-- The notification of a job that is queued at once.
unfoldable pub notify_new : Db → Job → SubmitDraw → Result Db
notify_new db j draw =
    if is_queued j.status
    then insert_work_available draw.event_id draw.job_id j.queue j.notification_generation
        draw.tx_now db
    else ok db

-- The transaction of the submission that wins the key.
unfoldable pub submit_new :
    Db → Text → Text → Text → NormalizedRequest → SubmitDraw → Result (Db × SubmitResult)
submit_new db scope key fingerprint r draw = do
  let j = new_job scope r draw
  jobs ← or_fail (insert draw.job_id j db.jobs) database_error
  let e : IdempotencyRecord = record {
    scope = scope;
    idempotency_key = key;
    request_fingerprint = fingerprint;
    job_id = draw.job_id;
  }
  db' ← notify_new (record db { jobs = jobs; idempotency = e ∷ db.idempotency }) j draw
  ok (db', record { job_id = draw.job_id; job = j; replayed = false })

unfoldable pub submit_keyed :
    Db
    → Text
    → Text
    → Text
    → NormalizedRequest
    → SubmitDraw
    → Option IdempotencyRecord
    → Result (Db × SubmitResult)
submit_keyed db scope key fingerprint r draw none = submit_new db scope key fingerprint r draw
submit_keyed db scope key fingerprint r draw (some e) = resolve_existing db scope fingerprint e

-- Submit. The job inserted before the key is found taken is rolled back, so nothing of it is
-- seen; `fingerprint` is the request's SHA-256.
unfoldable pub submit :
    Db
    → (NormalizedRequest → Text)
    → Text
    → Text
    → NormalizedRequest
    → SubmitDraw
    → Result (Db × SubmitResult)
submit db fingerprint scope key r draw = do
  guard (is_some (find_queue r.queue db.queues)) unknown_queue
  submit_keyed db scope key (fingerprint r) r draw (find_record scope key db.idempotency)
