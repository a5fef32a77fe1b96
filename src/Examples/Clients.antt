-- ===== src/Examples/Clients.antt =====
-- The client's requests of the example run, made again.
use task_forge.Base.{
  ◌+◌, ◌≡◌, ◌<◌, ◌⊎◌, refl, text, some, true, false, ok, err, idempotency_conflict,
}
use task_forge.Table.{find, any, put}
use task_forge.Schema.{Db, Job, Event, Status, is_waiting, is_dead_lettered}
use task_forge.Outbox.{advertises}
use task_forge.Jobs.Submit.{submit, get_by_id}
use task_forge.Jobs.Idempotency.{submit-submit, submit-conflict}
use task_forge.Jobs.Cancel.{request_cancel}
use task_forge.Jobs.Cancellation.{
  request_cancel-request_cancel, request_cancel_lem, LeadsTo, canceled_from,
}
use task_forge.Jobs.Replay.{replay, entry_of}
use task_forge.Jobs.Replays.{replay_keeps_original, replay-replay}
use task_forge.Jobs.Schedule.{promote_due_job}
use task_forge.Jobs.Schedule.Promotion.{IsDue, promote_due_job_lem}
use task_forge.Examples.{
  scope, fingerprint, request, submit_draw, submitted, submitted_ok, db1, db2, db4, db5, db6, job4,
  job4_found, replay_draw, replayed, replayed_ok,
}
use task_forge.Examples.Facts.{
  other_request, other_fingerprint, canceled, canceled_ok, job4_scope, job4_queue, later, later_job,
  later_facts, schedule_draw,
}

submit-submit_example :
    submit db2 fingerprint scope
      (text "k")
      request
      (record { job_id = 12; event_id = 13; server_now = 900; tx_now = 900 })
    ≡ ok (db2, record { job_id = submitted.1.job_id; job = submitted.1.job; replayed = true })
submit-submit_example =
    submit-submit db1 fingerprint scope (text "k") request submit_draw
      (record { job_id = 12; event_id = 13; server_now = 900; tx_now = 900 }) submitted submitted_ok

submit-conflict_example :
    submit db2 fingerprint scope (text "k") other_request submit_draw ≡ err idempotency_conflict
submit-conflict_example =
    submit-conflict db1 fingerprint scope (text "k") request other_request submit_draw submit_draw
      submitted submitted_ok refl other_fingerprint

request_cancel-request_cancel_example :
    request_cancel canceled.0 scope 10 950
    ≡ ok (
      canceled.0,
      record {
        job_id = canceled.1.job_id;
        status = canceled.1.status;
        cancel_requested_at = canceled.1.cancel_requested_at;
        already_requested = true;
      },
    )
request_cancel-request_cancel_example =
    request_cancel-request_cancel db4 scope 10 450 950 canceled canceled_ok

request_cancel_lem_example :
    LeadsTo 10 (canceled_from job4.status) (request_cancel db4 scope 10 450)
request_cancel_lem_example =
    request_cancel_lem db4 scope 10 450 job4
      (record { name = text "q"; worker_group = text "g"; max_concurrency = 2 }) job4_found
      job4_scope job4_queue

replay_keeps_original_example :
    ((j : Job) × (find 10 db5.jobs ≡ some j)
      × (is_dead_lettered j.status ≡ true)
      × (find 10 db6.jobs ≡ some j))
    × (any (entry_of 10) db5.dlq ≡ true)
    × (get_by_id db6 scope replayed.1.replacement_job_id ≡ some replayed.1.replacement)
replay_keeps_original_example =
    replay_keeps_original db5 scope 10 (text "again") replay_draw replayed replayed_ok

replay-replay_example :
    replay db6 scope 10 (text "again") replay_draw
    ≡ ok (
      db6,
      record {
        original_job_id = replayed.1.original_job_id;
        replacement_job_id = replayed.1.replacement_job_id;
        replacement = replayed.1.replacement;
        replayed = true;
      },
    )
replay-replay_example =
    replay-replay db5 scope 10 (text "again") replay_draw replay_draw replayed replayed_ok

promote_due_job_lem_example :
    (IsDue 1000 later_job
      × (db' : Db) × (e : Event) × (promote_due_job later.0 10 schedule_draw ≡ ok (db', true))
      × (db' ≡ record (later.0) {
        jobs =
            put 10
              (record later_job {
                status = Status.queued;
                updated_at = 1000;
                notification_generation = later_job.notification_generation + 1;
                last_notification_at = some 1000;
              })
              (later.0).jobs;
        outbox = put 50 e (later.0).outbox;
      })
      × (advertises 10 (later_job.notification_generation + 1) e ≡ true)
      × (e.queue ≡ text "q")
      × (e.published ≡ false)
      × (promote_due_job db' 10 schedule_draw ≡ ok (db', false)))
    ⊎ (((is_waiting later_job.status ≡ false) ⊎ (1000 < later_job.available_at))
        × (promote_due_job later.0 10 schedule_draw ≡ ok (later.0, false)))
promote_due_job_lem_example =
    promote_due_job_lem later.0 10 schedule_draw schedule_draw later_job
      (record { name = text "q"; worker_group = text "g"; max_concurrency = 2 }) later_facts.0
      later_facts.3 later_facts.4
