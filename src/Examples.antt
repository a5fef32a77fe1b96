-- ===== src/Examples.antt =====
-- A run of the system on small numbers: a worker registers, a client submits a job, the worker
-- claims it, starts it, and fails it for the last time; the client replays it.
pub mod Safety
pub mod Calls
pub mod Clients
pub mod Facts
pub mod Passes
pub mod Expiry
pub mod Keys
pub mod Process
pub mod Cancellation
pub mod Requests
pub mod Reports
use task_forge.Base.{
  not, ◌&&◌, text, text_eq, Text, ℕ, ◌*◌, ◌/◌, ◌<◌, ◌≤◌, ◌≡◌, refl, arith, Bool, true, false, List,
  [], ◌∷◌, Option, none, some, ltb, leb, pos, Result, ok, err,
}
use task_forge.Table.{any, find, put, count, update, find_if, find_where}
use task_forge.Lifecycle.{
  FailureClass, matches_token, is_token_head, is_token_tail, all_bytes, valid_error_code,
  valid_error_message, has_control,
}
use task_forge.Lifecycle.Retry.{Float64, RetryPolicy, decide}
use task_forge.Lifecycle.Dlq.{insert_dlq_entry}
use task_forge.Schema.{
  Db, Queue, Job, Session, Status, AttemptStatus, find_queue, is_terminal, is_waiting,
  session_current,
}
use task_forge.Outbox.{insert_work_available}
use task_forge.Workers.{
  Fence, valid_fence, FailureReport, valid_failure_report, OutcomeResult, ClaimRequest, ClaimResult,
  ClaimDisposition, StartResult,
}
use task_forge.Workers.Authority.{names_session, fence_state, lock_authority_rows, lock_fence}
use task_forge.Workers.Execution.{
  start, start_locked, begin_attempt, succeed, succeed_locked, complete, insert_result,
}
use task_forge.Workers.Finalize.{
  Fresh, foreign_outcome, finalize_attempt, settle_job, dead_letter_job,
}
use task_forge.Workers.Outcome.{fail, fail_locked, report_failure}
use task_forge.Workers.Claim.{
  consumed_by, active_in_queue, active_for_worker, ClaimDraw, claim, claim_tx, claim_known,
  claim_new, valid_claim, lookup_claim, eligible, member, contained, first_job, max_number,
  take_job, grant,
}
use task_forge.Workers.Sessions.{
  Registration, register, register_session, upsert_worker, fence_sessions, new_session, heartbeat,
}
use task_forge.Jobs.Submit.{
  NormalizedRequest, SubmitDraw, SubmitResult, submit, submit_keyed, submit_new, new_job,
  notify_new, find_record,
}
use task_forge.Jobs.Replay.{
  ReplayDraw, ReplayResult, replay, replay_keyed, replay_new, replacement_job, find_replay,
}
use task_forge.Jobs.Cancel.{CancelResult, request_cancel, cancel_by_status, cancel_now}
use task_forge.Jobs.Schedule.{ScheduleDraw}
use task_forge.System.{
  Step, Run, stop, step, by_registration, by_submit, by_claim, by_start, by_failure, by_replay,
}
use task_forge.Transitions.Invariant.{installed}

-- Whole numbers in the place of floats.
abbrev pub whole : Float64
whole = record {
  Carrier = ℕ;
  of_ℕ = λ n. n;
  truncate = λ n. n;
  is_nan = λ n. false;
  is_inf = λ n. false;
  is_pos_inf = λ n. false;
  lt = ltb;
  le = leb;
  add = λ a b. a;
  sub = λ a b. a;
  mul = λ a b. a * b;
  div = λ a b. a / b;
  pow = λ a b. a;
  ceil = λ n. n;
  below_one = 0;
  of_ℕ_number = λ n. refl;
  zero_le = λ n. ground arith;
  div_number = λ x n h k. refl;
  ceil_number = λ x h. refl;
  le_of_not_lt = λ x y h k l. ground (arith, l);
  le_refl = λ x h. ground arith;
  truncate_bounds = λ x n h low high few. (ground (arith, low), ground (arith, high));
  truncate_le = λ x n h low high few. ground (arith, high);
}

abbrev is_ok {ℓ} : {A : Type ℓ} → Result A → Bool
is_ok (ok a) = true
is_ok (err e) = false

abbrev pub value {ℓ} : {A : Type ℓ} → A → Result A → A
value d (ok a) = a
value d (err e) = d

pub ok-value {ℓ} : {A : Type ℓ} (d : A) (m : Result A) → is_ok m ≡ true → m ≡ ok (value d m)
ok-value d (ok a) h = refl
ok-value d (err e) h = cc

abbrev pub scope : Text
scope = text "s"

abbrev pub queues : List Queue
queues = record { name = text "q"; worker_group = text "g"; max_concurrency = 2 } ∷ []

abbrev pub db0 : Db
db0 = installed queues

abbrev pub registration : Registration
registration = record {
  session_id = 6;
  name = text "w";
  hostname = text "h";
  worker_group = text "g";
  concurrency_limit = 1;
  capabilities = [];
  supported_job_types = text "t" ∷ [];
  worker_key_id = none;
}

abbrev pub registered : Db × Session
unfolding new_session
registered = value (db0, new_session [] 0 registration 0) (register db0 scope registration 5 100)

abbrev pub db1 : Db
db1 = registered.0

registered_ok : register db0 scope registration 5 100 ≡ ok registered
unfolding register register_session upsert_worker fence_sessions new_session find find_where put
registered_ok = refl

abbrev pub fingerprint : NormalizedRequest → Text
fingerprint r = r.payload

abbrev pub request : NormalizedRequest
request = record {
  queue = text "q";
  job_type = text "t";
  payload = text "p";
  priority = 0;
  max_attempts = 1;
  timeout_seconds = 60;
  required_capabilities = [];
  scheduled_at = none;
}

abbrev pub submit_draw : SubmitDraw
submit_draw = record { job_id = 10; event_id = 11; server_now = 200; tx_now = 200 }

abbrev pub no_job : Job
unfolding new_job
no_job = new_job [] request submit_draw

abbrev pub submitted : Db × SubmitResult
submitted =
    value (db1, record { job_id = 0; job = no_job; replayed = false })
      (submit db1 fingerprint scope (text "k") request submit_draw)

abbrev pub db2 : Db
db2 = submitted.0

pub submitted_ok : submit db1 fingerprint scope (text "k") request submit_draw ≡ ok submitted
unfolding register register_session upsert_worker fence_sessions new_session find find_where put
    submit submit_keyed submit_new new_job notify_new find_record find_queue text_eq
    insert_work_available
submitted_ok = refl

abbrev pub claim_request : ClaimRequest
claim_request = record { worker_id = 5; session_id = 6; claim_request_id = 11; queue = text "q" }

abbrev pub claim_draw : ClaimDraw
claim_draw = record { attempt_id = 20; lease_id = 21; first_now = 300; second_now = 300 }

abbrev pub unlocked : ℕ → Bool
unlocked i = false

abbrev pub claimed : Db × ClaimResult
claimed =
    value
      (
        db2,
        record { disposition = ClaimDisposition.queue_empty; assignment = none; replayed = false },
      )
      (claim db2 scope claim_request unlocked claim_draw 1000)

abbrev pub db3 : Db
db3 = claimed.0

pub claimed_ok : claim db2 scope claim_request unlocked claim_draw 1000 ≡ ok claimed
unfolding register register_session upsert_worker fence_sessions new_session find find_where put
    submit submit_keyed submit_new new_job notify_new find_record find_queue text_eq
    insert_work_available claim claim_tx claim_known claim_new valid_claim lookup_claim eligible
    member contained first_job max_number take_job grant matches_token is_token_head is_token_tail
    all_bytes find_if count update
claimed_ok = refl

abbrev pub fence : Fence
fence = record { job_id = 10; attempt_id = 20; lease_id = 21; worker_id = 5; session_id = 6 }

abbrev pub begun : Db × StartResult
begun =
    value
      (
        db3,
        record { attempt_id = 0; started_at = 0; timeout_at = 0; remaining = 0; replayed = false },
      )
      (start db3 scope fence 400)

abbrev pub db4 : Db
db4 = begun.0

pub begun_ok : start db3 scope fence 400 ≡ ok begun
unfolding register register_session upsert_worker fence_sessions new_session find find_where put
    submit submit_keyed submit_new new_job notify_new find_record find_queue text_eq
    insert_work_available claim claim_tx claim_known claim_new valid_claim lookup_claim eligible
    member contained first_job max_number take_job grant matches_token is_token_head is_token_tail
    all_bytes find_if count update start valid_fence lock_fence lock_authority_rows fence_state
    start_locked begin_attempt
begun_ok = refl

abbrev pub policy : RetryPolicy whole
policy = record { base = pos 1_000_000_000; max = pos 60_000_000_000; multiplier = 2; jitter = 0 }

abbrev pub report : FailureReport
report = record {
  fence = fence;
  outcome_request_id = 30;
  class = FailureClass.retryable;
  error_code = text "boom";
  error_message = text "no luck";
}

abbrev pub fresh : Fresh
fresh = record { event_id = 31; dlq_id = 32; tx_now = 500 }

abbrev pub no_outcome : OutcomeResult
no_outcome = record {
  job_id = 0;
  job_status = Status.pending;
  attempt_status = AttemptStatus.leased;
  retry_at = none;
  retry_delay = none;
  dead_letter_reason = none;
  replayed = false;
}

abbrev pub failed : Db × OutcomeResult
failed = value (db4, no_outcome) (fail whole db4 policy none scope report fresh 500)

abbrev pub db5 : Db
db5 = failed.0

pub failed_ok : fail whole db4 policy none scope report fresh 500 ≡ ok failed
unfolding register register_session upsert_worker fence_sessions new_session find find_where put
    submit submit_keyed submit_new new_job notify_new find_record find_queue text_eq
    insert_work_available claim claim_tx claim_known claim_new valid_claim lookup_claim eligible
    member contained first_job max_number take_job grant matches_token is_token_head is_token_tail
    all_bytes find_if count update start valid_fence lock_fence lock_authority_rows fence_state
    start_locked begin_attempt fail fail_locked report_failure foreign_outcome finalize_attempt
    settle_job dead_letter_job insert_dlq_entry valid_failure_report valid_error_code
    valid_error_message has_control decide
failed_ok = refl

abbrev pub replay_draw : ReplayDraw
replay_draw = record { job_id = 40; event_id = 41; server_now = 600; tx_now = 600 }

abbrev pub replayed : Db × ReplayResult
replayed =
    value
      (
        db5,
        record {
          original_job_id = 0;
          replacement_job_id = 0;
          replacement = no_job;
          replayed = false;
        },
      )
      (replay db5 scope 10 (text "again") replay_draw)

abbrev pub db6 : Db
db6 = replayed.0

pub replayed_ok : replay db5 scope 10 (text "again") replay_draw ≡ ok replayed
unfolding register register_session upsert_worker fence_sessions new_session find find_where put
    submit submit_keyed submit_new new_job notify_new find_record find_queue text_eq
    insert_work_available claim claim_tx claim_known claim_new valid_claim lookup_claim eligible
    member contained first_job max_number take_job grant matches_token is_token_head is_token_tail
    all_bytes find_if count update start valid_fence lock_fence lock_authority_rows fence_state
    start_locked begin_attempt fail fail_locked report_failure foreign_outcome finalize_attempt
    settle_job dead_letter_job insert_dlq_entry valid_failure_report valid_error_code
    valid_error_message has_control decide replay replay_keyed replay_new replacement_job
    find_replay
replayed_ok = refl

-- The job behind an id.
abbrev pub job_or {ℓ} : {A : Type ℓ} → A → Option A → A
job_or d none = d
job_or d (some j) = j

abbrev pub job4 : Job
job4 = job_or no_job (find 10 db4.jobs)

pub job4_found : find 10 db4.jobs ≡ some job4
unfolding register register_session upsert_worker fence_sessions new_session find find_where put
    submit submit_keyed submit_new new_job notify_new find_record find_queue text_eq
    insert_work_available claim claim_tx claim_known claim_new valid_claim lookup_claim eligible
    member contained first_job max_number take_job grant matches_token is_token_head is_token_tail
    all_bytes find_if count update start valid_fence lock_fence lock_authority_rows fence_state
    start_locked begin_attempt
job4_found = refl

abbrev pub job5 : Job
job5 = job_or no_job (find 10 db5.jobs)

pub job5_found : find 10 db5.jobs ≡ some job5
unfolding register register_session upsert_worker fence_sessions new_session find find_where put
    submit submit_keyed submit_new new_job notify_new find_record find_queue text_eq
    insert_work_available claim claim_tx claim_known claim_new valid_claim lookup_claim eligible
    member contained first_job max_number take_job grant matches_token is_token_head is_token_tail
    all_bytes find_if count update start valid_fence lock_fence lock_authority_rows fence_state
    start_locked begin_attempt fail fail_locked report_failure foreign_outcome finalize_attempt
    settle_job dead_letter_job insert_dlq_entry valid_failure_report valid_error_code
    valid_error_message has_control decide
job5_found = refl

pub job5_terminal : is_terminal job5.status ≡ true
unfolding register register_session upsert_worker fence_sessions new_session find find_where put
    submit submit_keyed submit_new new_job notify_new find_record find_queue text_eq
    insert_work_available claim claim_tx claim_known claim_new valid_claim lookup_claim eligible
    member contained first_job max_number take_job grant matches_token is_token_head is_token_tail
    all_bytes find_if count update start valid_fence lock_fence lock_authority_rows fence_state
    start_locked begin_attempt fail fail_locked report_failure foreign_outcome finalize_attempt
    settle_job dead_letter_job insert_dlq_entry valid_failure_report valid_error_code
    valid_error_message has_control decide
job5_terminal = refl

abbrev pub job2 : Job
job2 = job_or no_job (find 10 db2.jobs)

pub job2_found : find 10 db2.jobs ≡ some job2
unfolding register register_session upsert_worker fence_sessions new_session find find_where put
    submit submit_keyed submit_new new_job notify_new find_record find_queue text_eq
    insert_work_available claim claim_tx claim_known claim_new valid_claim lookup_claim eligible
    member contained first_job max_number take_job grant matches_token is_token_head is_token_tail
    all_bytes find_if count update start valid_fence lock_fence lock_authority_rows fence_state
    start_locked begin_attempt
job2_found = refl

pub job2_queued : job2.status ≡ Status.queued
unfolding register register_session upsert_worker fence_sessions new_session find find_where put
    submit submit_keyed submit_new new_job notify_new find_record find_queue text_eq
    insert_work_available claim claim_tx claim_known claim_new valid_claim lookup_claim eligible
    member contained first_job max_number take_job grant matches_token is_token_head is_token_tail
    all_bytes find_if count update start valid_fence lock_fence lock_authority_rows fence_state
    start_locked begin_attempt
job2_queued = refl

-- The runs to the second, fourth and fifth of these databases.
pub run2 : Run whole db0 db2
run2 =
    step (step stop (by_registration scope registration 5 100 registered registered_ok))
      (by_submit fingerprint scope (text "k") request submit_draw submitted submitted_ok)

pub run4 : Run whole db0 db4
run4 =
    step (step run2 (by_claim scope claim_request unlocked claim_draw 1000 claimed claimed_ok))
      (by_start scope fence 400 begun begun_ok)

pub run5 : Run whole db0 db5
run5 = step run4 (by_failure policy none scope report fresh 500 failed failed_ok)

pub queue4_found :
    find_queue (text "q") db4.queues
    ≡ some (record { name = text "q"; worker_group = text "g"; max_concurrency = 2 })
unfolding register register_session upsert_worker fence_sessions new_session find find_where put
    submit submit_keyed submit_new new_job notify_new find_record find_queue text_eq
    insert_work_available claim claim_tx claim_known claim_new valid_claim lookup_claim eligible
    member contained first_job max_number take_job grant matches_token is_token_head is_token_tail
    all_bytes find_if count update start valid_fence lock_fence lock_authority_rows fence_state
    start_locked begin_attempt
queue4_found = refl
