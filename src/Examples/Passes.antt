-- ===== src/Examples/Passes.antt =====
-- Passes of the scheduler and the publisher over the databases of the example run.
use task_forge.Base.{
  ℕ, ◌+◌, ◌≡◌, ◌≤◌, refl, arith, pos, Bool, true, false, some, none, [], text, text_eq, length, inl,
}
use task_forge.Schema.{Event, Status, find_queue}
use task_forge.Workers.{valid_fence}
use task_forge.Workers.Authority.{fence_state, lock_authority_rows, lock_fence}
use task_forge.Workers.Execution.{start, start_locked, begin_attempt}
use task_forge.Workers.Claim.{
  claim, claim_tx, claim_known, claim_new, valid_claim, lookup_claim, eligible, member, contained,
  first_job, max_number, take_job, grant,
}
use task_forge.Workers.Sessions.{
  register, register_session, upsert_worker, fence_sessions, new_session,
}
use task_forge.Table.{find, put, count, update, find_if, find_where}
use task_forge.Lifecycle.{matches_token, is_token_head, is_token_tail, all_bytes}
use task_forge.Jobs.Submit.{submit, submit_keyed, submit_new, new_job, notify_new, find_record}
use task_forge.Outbox.{insert_work_available, new_event}
use task_forge.Table.Scan.{has_id, insert_row, ordered, matching, select, touch, touch_all}
use task_forge.Outbox.Delivery.{claim_due, due_events, claim_row, record_failure}
use task_forge.Outbox.Publisher.{World, run_once, handle_batch, handle_event, note_failure}
use task_forge.Jobs.Schedule.{ScheduleDraw, promote_due_job, promote_found, promote_locked}
use task_forge.Jobs.Schedule.Promotion.{IsDue}
use task_forge.Outbox.Backoff.{BackoffPolicy, backoff}
use task_forge.Outbox.Publisher.Laws.{marks, unaccepted_is_unmarked, settled, run_once-settles}
use task_forge.Outbox.Publisher.Outcomes.{settled_row, run_once-settles_row}
use task_forge.Passes.{Scan, for_each}
use task_forge.Passes.Scheduler.{run_scheduler, promote_due_jobs, promote_candidate, due_jobs}
use task_forge.Passes.Accounts.{IsApart, events, scheduler_pass-announces}
use task_forge.Passes.Promotions.{promote_due_jobs-promotes}
use task_forge.Examples.{whole, db2}
use task_forge.Examples.Facts.{later, later_job, later_facts}

-- No other process writes, and every transaction begins.
abbrev alone : {D : Type 0} → ℕ → (ℕ → D) → Scan D
alone now draw = record {
  scanned_at = now;
  before = λ db. db;
  others = λ id db. db;
  broken = λ id. false;
  draw = draw;
}

abbrev schedule_scan : Scan ScheduleDraw
schedule_scan = alone 1000 (λ id. record { event_id = 50 + id; server_now = 1000; tx_now = 1000 })

schedule-IsApart : IsApart schedule_scan
schedule-IsApart = record { before = λ db. refl; others = λ id db. refl }

scheduler_pass-announces_example :
    events (run_scheduler schedule_scan schedule_scan (pos 10) (pos 100) later.0).db
    ≡ events later.0
      + ((run_scheduler schedule_scan schedule_scan (pos 10) (pos 100) later.0).stats.promoted_jobs
          + (run_scheduler schedule_scan schedule_scan (pos 10) (pos 100) later.0).stats.renotified)
scheduler_pass-announces_example =
    scheduler_pass-announces schedule_scan schedule_scan (pos 10) (pos 100) later.0 schedule-IsApart
      schedule-IsApart

abbrev pauses : BackoffPolicy whole
pauses = record { base = pos 1000; max = pos 60_000; multiplier = 2; jitter = 0 }

-- A broker that is down.
abbrev outage : World ℕ
outage = record {
  stopped = λ id. false;
  body = λ id. some (text "body");
  body_error = λ id. [];
  publish = λ id. some (text "connection refused");
  can_mark = λ id. true;
  can_record = λ id. true;
  clock = λ id. 600;
  jitter = λ id. none;
  others = λ id db. db;
}

abbrev unheld : ℕ → Bool
unheld id = false

unaccepted_is_unmarked_example :
    marks 11 (run_once whole pauses outage unheld 10 30 500 db2).db ≡ marks 11 db2
unaccepted_is_unmarked_example =
    unaccepted_is_unmarked whole pauses outage 11 unheld 10 30 500 db2 (λ id db. refl) refl

-- The scheduler's scan, alone, of the database in which job 10 waits for its retry.
scan_facts :
    (IsDue 1000 later_job)
    × (1000 ≤ 1000)
    × (length (later.0).jobs ≤ 10)
    × ((promote_due_jobs schedule_scan (pos 10) later.0).error ≡ none)
unfolding register register_session upsert_worker fence_sessions new_session find find_where put
    submit submit_keyed submit_new new_job notify_new find_record find_queue text_eq
    insert_work_available claim claim_tx claim_known claim_new valid_claim lookup_claim eligible
    member contained first_job max_number take_job grant matches_token is_token_head is_token_tail
    all_bytes find_if count update start valid_fence lock_fence lock_authority_rows fence_state
    start_locked begin_attempt promote_due_job promote_found promote_locked promote_candidate
    promote_due_jobs due_jobs for_each insert_row ordered matching select
scan_facts = ((inl refl, omega arith), omega arith, omega arith, refl)

promote_due_jobs-promotes_example :
    find 10 (promote_due_jobs schedule_scan (pos 10) later.0).db.jobs
    ≡ some (record later_job {
      status = Status.queued;
      updated_at = 1000;
      notification_generation = later_job.notification_generation + 1;
      last_notification_at = some 1000;
    })
promote_due_jobs-promotes_example =
    promote_due_jobs-promotes schedule_scan 10 10 later.0 later_job later_facts.0 scan_facts.0
      scan_facts.1 scan_facts.2 (λ id db. refl) scan_facts.3

-- The event of the submission, as a claim of the publisher leaves it.
abbrev claimed_event : Event
claimed_event = claim_row 500 30 (new_event 10 (text "q") 1 200)

publisher_facts :
    (has_id 11 (claim_due db2 unheld 10 30 500).1 ≡ true)
    × (find 11 (claim_due db2 unheld 10 30 500).0.outbox ≡ some claimed_event)
    × ((run_once whole pauses outage unheld 10 30 500 db2).interrupted ≡ false)
unfolding register register_session upsert_worker fence_sessions new_session find find_where put
    submit submit_keyed submit_new new_job notify_new find_record find_queue text_eq
    insert_work_available claim claim_tx claim_known claim_new valid_claim lookup_claim eligible
    member contained first_job max_number take_job grant matches_token is_token_head is_token_tail
    all_bytes find_if count update start valid_fence lock_fence lock_authority_rows fence_state
    start_locked begin_attempt claim_due due_events run_once handle_batch handle_event note_failure
    record_failure touch touch_all backoff insert_row ordered matching select
publisher_facts = (refl, refl, refl)

run_once-settles_row_example :
    find 11 (run_once whole pauses outage unheld 10 30 500 db2).db.outbox
    ≡ some (settled_row whole pauses outage 11 claimed_event)
run_once-settles_row_example =
    run_once-settles_row whole pauses outage 11 claimed_event unheld 10 30 500 db2 (λ id db. refl)
      publisher_facts.0 publisher_facts.1 refl publisher_facts.2

run_once-settles_example :
    (settled (run_once whole pauses outage unheld 10 30 500 db2).stats
      ≡ (run_once whole pauses outage unheld 10 30 500 db2).stats.claimed)
    × ((run_once whole pauses outage unheld 10 30 500 db2).stats.claimed ≤ 10)
run_once-settles_example =
    run_once-settles whole pauses outage unheld 10 30 500 db2 publisher_facts.2
