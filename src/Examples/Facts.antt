-- ===== src/Examples/Facts.antt =====
-- Further databases of the example, and what the examples ask of them.
use task_forge.Base.{
  not, ◌&&◌, text, text_eq, ℕ, ◌≡◌, refl, true, false, [], none, some, ltb, leb, ok,
}
use task_forge.Table.{any, find, put, count, update, find_if, find_where}
use task_forge.Lifecycle.{matches_token, is_token_head, is_token_tail, all_bytes}
use task_forge.Schema.{
  session_healthy, Db, Queue, Job, Session, Status, find_queue, is_waiting, session_current,
}
use task_forge.Outbox.{insert_work_available}
use task_forge.Workers.{valid_fence, ClaimDisposition}
use task_forge.Workers.Authority.{names_session, fence_state, lock_authority_rows, lock_fence}
use task_forge.Workers.Execution.{
  start, start_locked, begin_attempt, succeed, succeed_locked, complete, insert_result,
}
use task_forge.Workers.Claim.{
  consumed_by, active_in_queue, active_for_worker, claim, claim_tx, claim_known, claim_new,
  valid_claim, lookup_claim, eligible, member, contained, first_job, max_number, take_job, grant,
}
use task_forge.Workers.Sessions.{
  Registration, register, register_session, upsert_worker, fence_sessions, new_session, heartbeat,
}
use task_forge.Jobs.Submit.{
  NormalizedRequest, SubmitResult, submit, submit_keyed, submit_new, new_job, notify_new,
  find_record,
}
use task_forge.Jobs.Cancel.{CancelResult, request_cancel, cancel_by_status, cancel_now}
use task_forge.Jobs.Schedule.{ScheduleDraw}
use task_forge.Examples.{
  claim_request, claimed, db0, db1, db2, db4, fence, fingerprint, job2, job4, job_or, no_job,
  registration, request, scope, submit_draw, unlocked, value,
}

-- A second boot of the worker.
abbrev pub reboot : Registration
reboot = record registration { session_id = 7 }

abbrev pub rebooted : Db × Session
unfolding new_session
rebooted = value (db0, new_session [] 0 registration 0) (register db1 scope reboot 8 700)

pub rebooted_ok : register db1 scope reboot 8 700 ≡ ok rebooted
unfolding register register_session upsert_worker fence_sessions new_session find find_where put
    submit submit_keyed submit_new new_job notify_new find_record find_queue text_eq
    insert_work_available claim claim_tx claim_known claim_new valid_claim lookup_claim eligible
    member contained first_job max_number take_job grant matches_token is_token_head is_token_tail
    all_bytes find_if count update start valid_fence lock_fence lock_authority_rows fence_state
    start_locked begin_attempt
rebooted_ok = refl

pub no_session7 : find 7 db1.sessions ≡ none
unfolding register register_session upsert_worker fence_sessions new_session find find_where put
    submit submit_keyed submit_new new_job notify_new find_record find_queue text_eq
    insert_work_available claim claim_tx claim_known claim_new valid_claim lookup_claim eligible
    member contained first_job max_number take_job grant matches_token is_token_head is_token_tail
    all_bytes find_if count update start valid_fence lock_fence lock_authority_rows fence_state
    start_locked begin_attempt
no_session7 = refl

abbrev pub session7 : Session
unfolding new_session
session7 = new_session scope 5 reboot 700

pub session7_found :
    (find 7 rebooted.0.sessions ≡ some session7)
    × (session7.worker_id ≡ rebooted.1.worker_id)
    × (session_current session7.status ≡ true)
unfolding register register_session upsert_worker fence_sessions new_session find find_where put
    submit submit_keyed submit_new new_job notify_new find_record find_queue text_eq
    insert_work_available claim claim_tx claim_known claim_new valid_claim lookup_claim eligible
    member contained first_job max_number take_job grant matches_token is_token_head is_token_tail
    all_bytes find_if count update start valid_fence lock_fence lock_authority_rows fence_state
    start_locked begin_attempt
session7_found = (refl, refl, refl)

abbrev pub heard : Db × ℕ
heard = value (db0, 0) (heartbeat db1 scope 5 6 800)

pub heard_ok : heartbeat db1 scope 5 6 800 ≡ ok heard
unfolding register register_session upsert_worker fence_sessions new_session find find_where put
    submit submit_keyed submit_new new_job notify_new find_record find_queue text_eq
    insert_work_available claim claim_tx claim_known claim_new valid_claim lookup_claim eligible
    member contained first_job max_number take_job grant matches_token is_token_head is_token_tail
    all_bytes find_if count update start valid_fence lock_fence lock_authority_rows fence_state
    start_locked begin_attempt heartbeat
heard_ok = refl

-- The request to cancel the running job.
abbrev pub canceled : Db × CancelResult
canceled =
    value
      (
        db0,
        record {
          job_id = 0;
          status = Status.pending;
          cancel_requested_at = none;
          already_requested = false;
        },
      )
      (request_cancel db4 scope 10 450)

pub canceled_ok : request_cancel db4 scope 10 450 ≡ ok canceled
unfolding register register_session upsert_worker fence_sessions new_session find find_where put
    submit submit_keyed submit_new new_job notify_new find_record find_queue text_eq
    insert_work_available claim claim_tx claim_known claim_new valid_claim lookup_claim eligible
    member contained first_job max_number take_job grant matches_token is_token_head is_token_tail
    all_bytes find_if count update start valid_fence lock_fence lock_authority_rows fence_state
    start_locked begin_attempt request_cancel cancel_by_status cancel_now
canceled_ok = refl

pub job4_scope : text_eq job4.scope scope ≡ true
unfolding register register_session upsert_worker fence_sessions new_session find find_where put
    submit submit_keyed submit_new new_job notify_new find_record find_queue text_eq
    insert_work_available claim claim_tx claim_known claim_new valid_claim lookup_claim eligible
    member contained first_job max_number take_job grant matches_token is_token_head is_token_tail
    all_bytes find_if count update start valid_fence lock_fence lock_authority_rows fence_state
    start_locked begin_attempt
job4_scope = refl

pub job4_queue :
    find_queue job4.queue db4.queues
    ≡ some (record { name = text "q"; worker_group = text "g"; max_concurrency = 2 })
unfolding register register_session upsert_worker fence_sessions new_session find find_where put
    submit submit_keyed submit_new new_job notify_new find_record find_queue text_eq
    insert_work_available claim claim_tx claim_known claim_new valid_claim lookup_claim eligible
    member contained first_job max_number take_job grant matches_token is_token_head is_token_tail
    all_bytes find_if count update start valid_fence lock_fence lock_authority_rows fence_state
    start_locked begin_attempt
job4_queue = refl

-- Another request under the same key.
abbrev pub other_request : NormalizedRequest
other_request = record request { payload = text "other" }

pub other_fingerprint : text_eq (fingerprint request) (fingerprint other_request) ≡ false
unfolding text_eq
other_fingerprint = refl

-- A job that waits until 1000.
abbrev pub later : Db × SubmitResult
later =
    value (db1, record { job_id = 0; job = no_job; replayed = false })
      (submit db1 fingerprint scope (text "k") (record request { scheduled_at = some 1000 })
        submit_draw)

abbrev pub later_job : Job
later_job = job_or no_job (find 10 later.0.jobs)

abbrev pub schedule_draw : ScheduleDraw
schedule_draw = record { event_id = 50; server_now = 1000; tx_now = 1000 }

pub later_facts :
    (find 10 later.0.jobs ≡ some later_job)
    × (is_waiting later_job.status ≡ true)
    × (ltb 1000 later_job.available_at ≡ false)
    × (find_queue later_job.queue later.0.queues
        ≡ some (record { name = text "q"; worker_group = text "g"; max_concurrency = 2 }))
    × (find 50 later.0.outbox ≡ none)
unfolding register register_session upsert_worker fence_sessions new_session find find_where put
    submit submit_keyed submit_new new_job notify_new find_record find_queue text_eq
    insert_work_available claim claim_tx claim_known claim_new valid_claim lookup_claim eligible
    member contained first_job max_number take_job grant matches_token is_token_head is_token_tail
    all_bytes find_if count update start valid_fence lock_fence lock_authority_rows fence_state
    start_locked begin_attempt
later_facts = (refl, refl, refl, refl, refl)

abbrev pub queue : Queue
queue = record { name = text "q"; worker_group = text "g"; max_concurrency = 2 }

abbrev pub session6 : Session
unfolding new_session
session6 = new_session scope 5 registration 100

-- What a claim of the submitted job asks for.
pub claim_facts :
    (valid_claim claim_request ≡ true)
    × (any (consumed_by 11) db2.leases ≡ false)
    × (find_queue (text "q") db2.queues ≡ some queue)
    × (find_if 6 (names_session scope 5) db2.sessions ≡ some session6)
    × (text_eq session6.worker_group queue.worker_group ≡ true)
    × (leb 2 (count (active_in_queue (text "q")) db2.leases) ≡ false)
    × (leb session6.concurrency_limit (count (active_for_worker 5) db2.leases) ≡ false)
    × ((eligible db2 scope claim_request session6 300 10 job2 && not (unlocked 10)) ≡ true)
    × (find 20 db2.attempts ≡ none)
    × (find 21 db2.leases ≡ none)
    × (session_healthy session6.status ≡ true)
unfolding register register_session upsert_worker fence_sessions new_session find find_where put
    submit submit_keyed submit_new new_job notify_new find_record find_queue text_eq
    insert_work_available claim claim_tx claim_known claim_new valid_claim lookup_claim eligible
    member contained first_job max_number take_job grant matches_token is_token_head is_token_tail
    all_bytes find_if count update start valid_fence lock_fence lock_authority_rows fence_state
    start_locked begin_attempt
claim_facts = (refl, refl, refl, refl, refl, refl, refl, refl, refl, refl, refl)

-- The claim is a new one.
pub claimed_new : (claimed.1.disposition ≡ ClaimDisposition.claimed) × (claimed.1.replayed ≡ false)
unfolding register register_session upsert_worker fence_sessions new_session find find_where put
    submit submit_keyed submit_new new_job notify_new find_record find_queue text_eq
    insert_work_available claim claim_tx claim_known claim_new valid_claim lookup_claim eligible
    member contained first_job max_number take_job grant matches_token is_token_head is_token_tail
    all_bytes find_if count update
claimed_new = (refl, refl)

-- The success of the started attempt.
abbrev pub done : Db
done = value db0 (succeed db4 scope fence none 500)

pub done_ok : succeed db4 scope fence none 500 ≡ ok done
unfolding register register_session upsert_worker fence_sessions new_session find find_where put
    submit submit_keyed submit_new new_job notify_new find_record find_queue text_eq
    insert_work_available claim claim_tx claim_known claim_new valid_claim lookup_claim eligible
    member contained first_job max_number take_job grant matches_token is_token_head is_token_tail
    all_bytes find_if count update start valid_fence lock_fence lock_authority_rows fence_state
    start_locked begin_attempt succeed succeed_locked complete insert_result
done_ok = refl
