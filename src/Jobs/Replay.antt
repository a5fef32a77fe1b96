-- ===== src/Jobs/Replay.antt =====
-- internal/jobs/dlq.go, Replay: a dead-lettered job is replaced, never changed.
use task_forge.Base.{
  Text, text_eq, ℕ, ◌==◌, Bool, true, false, ◌&&◌, Option, none, some, List, [], ◌∷◌, if◌then◌else◌,
  Result, ok, ◌>>=◌, ◌>>◌, guard, or_fail, job_not_found, not_dead_lettered, database_error,
}
use task_forge.Table.{find_if, insert, any}
use task_forge.Schema.{Db, Job, Status, DlqEntry, DlqReplay, find_queue, is_dead_lettered}
use task_forge.Outbox.{insert_work_available}
use task_forge.Jobs.Submit.{get_by_id}

pub record ReplayResult : Type 0 where
  pub original_job_id : ℕ
  pub replacement_job_id : ℕ
  pub replacement : Job
  pub replayed : Bool

pub record ReplayDraw : Type 0 where
  pub job_id : ℕ
  pub event_id : ℕ
  pub server_now : ℕ
  pub tx_now : ℕ

abbrev pub entry_of : ℕ → DlqEntry → Bool
entry_of job_id e = e.job_id == job_id

unfoldable pub replacement_job : Text → ℕ → Job → ℕ → Job
replacement_job scope original j now = record {
  scope = scope;
  queue = j.queue;
  job_type = j.job_type;
  payload = j.payload;
  status = Status.queued;
  priority = j.priority;
  max_attempts = j.max_attempts;
  timeout_seconds = j.timeout_seconds;
  required_capabilities = j.required_capabilities;
  scheduled_at = none;
  available_at = now;
  cancel_requested_at = none;
  replayed_from_job_id = some original;
  notification_generation = 1;
  last_notification_at = some now;
  created_at = now;
  updated_at = now;
}

abbrev same_replay : Text → ℕ → Text → DlqReplay → Bool
same_replay scope original key r =
    text_eq r.scope scope && r.original_job_id == original && text_eq r.idempotency_key key

unfoldable pub find_replay : Text → ℕ → Text → List DlqReplay → Option DlqReplay
find_replay scope original key [] = none
find_replay scope original key (r ∷ rs) =
    if same_replay scope original key r then some r else find_replay scope original key rs

-- resolveExistingReplay
unfoldable pub resolve_replay : Db → Text → ℕ → DlqReplay → Result (Db × ReplayResult)
resolve_replay db scope original r = do
  j ← or_fail (get_by_id db scope r.replacement_job_id) job_not_found
  ok (
    db,
    record {
      original_job_id = original;
      replacement_job_id = r.replacement_job_id;
      replacement = j;
      replayed = true;
    },
  )

unfoldable pub replay_new : Db → Text → ℕ → Text → Job → ReplayDraw → Result (Db × ReplayResult)
replay_new db scope original key j draw = do
  let k = replacement_job scope original j draw.server_now
  jobs ← or_fail (insert draw.job_id k db.jobs) database_error
  let r : DlqReplay = record {
    scope = scope;
    original_job_id = original;
    idempotency_key = key;
    replacement_job_id = draw.job_id;
  }
  db' ←
      insert_work_available draw.event_id draw.job_id k.queue 1 draw.tx_now
        (record db { jobs = jobs; replays = r ∷ db.replays })
  ok (
    db',
    record {
      original_job_id = original;
      replacement_job_id = draw.job_id;
      replacement = k;
      replayed = false;
    },
  )

unfoldable pub replay_keyed :
    Db → Text → ℕ → Text → Job → ReplayDraw → Option DlqReplay → Result (Db × ReplayResult)
replay_keyed db scope original key j draw none = replay_new db scope original key j draw
replay_keyed db scope original key j draw (some r) = resolve_replay db scope original r

-- Replay. The replacement inserted before the key is found taken is rolled back.
unfoldable pub replay : Db → Text → ℕ → Text → ReplayDraw → Result (Db × ReplayResult)
replay db scope original key draw = do
  j ← or_fail (find_if original (λ (j : Job). text_eq j.scope scope) db.jobs) job_not_found
  _ ← or_fail (find_queue j.queue db.queues) database_error
  guard (is_dead_lettered j.status) not_dead_lettered
  guard (any (entry_of original) db.dlq) not_dead_lettered
  replay_keyed db scope original key j draw (find_replay scope original key db.replays)
