-- ===== src/Examples/Process.antt =====
-- The worker's process: a renewal of the example run's lease.
use task_forge.Base.{◌≤◌, ◌≡◌, refl, arith, false, text_eq, ok}
use task_forge.Workers.Sessions.{
  register, register_session, upsert_worker, fence_sessions, new_session,
}
use task_forge.Table.{find, find_where, put, find_if, count, update}
use task_forge.Jobs.Submit.{submit, submit_keyed, submit_new, new_job, notify_new, find_record}
use task_forge.Schema.{find_queue, Db}
use task_forge.Outbox.{insert_work_available}
use task_forge.Workers.Claim.{
  claim, claim_tx, claim_known, claim_new, valid_claim, lookup_claim, eligible, member, contained,
  first_job, max_number, take_job, grant,
}
use task_forge.Lifecycle.{matches_token, is_token_head, is_token_tail, all_bytes}
use task_forge.Workers.Execution.{start, start_locked, begin_attempt}
use task_forge.Workers.{valid_fence, valid_renewal}
use task_forge.Workers.Authority.{lock_fence, lock_authority_rows, fence_state}
use task_forge.Workers.{RenewalRequest, RenewalResult}
use task_forge.Workers.Execution.{renew_lease, renew_locked, extend_lease}
use task_forge.Worker.Renewal.{
  granted, Turn, Loop, start_loop, parse_renewal, turn, Fate, execution_budget,
}
use task_forge.Worker.Renewal.Authority.{stay, next, renews, expiry, authority_within_lease}
use task_forge.Examples.{db0, db4, fence, scope, value}

-- The lease ends at 1300; the request is sent at 450, granted at 460 for 2000, and answered at 470.
abbrev loop : Loop
loop = start_loop 1200

abbrev no_renewal : RenewalResult
no_renewal = record {
  lease_id = 0;
  renewal_version = 0;
  expires_at = 0;
  remaining = 0;
  replayed = false;
}

abbrev renewal_request : RenewalRequest
renewal_request = record { fence = fence; renewal_request_id = 60; expected_version = 0 }

abbrev renewal : Db × RenewalResult
renewal = value (db0, no_renewal) (renew_lease db4 scope renewal_request 2_000_000_000 460)

renewal_ok : renew_lease db4 scope renewal_request 2_000_000_000 460 ≡ ok renewal
unfolding register register_session upsert_worker fence_sessions new_session find find_where put
    submit submit_keyed submit_new new_job notify_new find_record find_queue text_eq
    insert_work_available claim claim_tx claim_known claim_new valid_claim lookup_claim eligible
    member contained first_job max_number take_job grant matches_token is_token_head is_token_tail
    all_bytes find_if count update start valid_fence lock_fence lock_authority_rows fence_state
    start_locked begin_attempt renew_lease renew_locked extend_lease valid_renewal
renewal_ok = refl

abbrev renewed_turn : Turn
renewed_turn = record {
  woke_at = 440;
  new_id = 60;
  started_at = 450;
  answer = granted (record renewal.1 { remaining = 2_000_000_000 });
  context_ended = false;
  checked_at = 470;
  rechecked_at = 470;
}

parsed :
    parse_renewal renewal_request renewal.1
    ≡ granted (record renewal.1 { remaining = 2_000_000_000 })
unfolding register register_session upsert_worker fence_sessions new_session find find_where put
    submit submit_keyed submit_new new_job notify_new find_record find_queue text_eq
    insert_work_available claim claim_tx claim_known claim_new valid_claim lookup_claim eligible
    member contained first_job max_number take_job grant matches_token is_token_head is_token_tail
    all_bytes find_if count update start valid_fence lock_fence lock_authority_rows fence_state
    start_locked begin_attempt renew_lease renew_locked extend_lease valid_renewal parse_renewal
parsed = refl

started_within : 1200 ≤ expiry 21 db4
unfolding register register_session upsert_worker fence_sessions new_session find find_where put
    submit submit_keyed submit_new new_job notify_new find_record find_queue text_eq
    insert_work_available claim claim_tx claim_known claim_new valid_claim lookup_claim eligible
    member contained first_job max_number take_job grant matches_token is_token_head is_token_tail
    all_bytes find_if count update start valid_fence lock_fence lock_authority_rows fence_state
    start_locked begin_attempt
started_within = omega arith

still_running : (turn loop renewed_turn).fate ≡ Fate.running
unfolding register register_session upsert_worker fence_sessions new_session find find_where put
    submit submit_keyed submit_new new_job notify_new find_record find_queue text_eq
    insert_work_available claim claim_tx claim_known claim_new valid_claim lookup_claim eligible
    member contained first_job max_number take_job grant matches_token is_token_head is_token_tail
    all_bytes find_if count update start valid_fence lock_fence lock_authority_rows fence_state
    start_locked begin_attempt renew_lease renew_locked extend_lease valid_renewal turn
    execution_budget
still_running = refl

authority_within_lease_example : (turn loop renewed_turn).deadline ≤ expiry 21 renewal.0
authority_within_lease_example =
    authority_within_lease fence (record { loop = loop; db = db4 })
      (record { loop = turn loop renewed_turn; db = renewal.0 }) started_within
      (next stay (
        renews renewed_turn scope 2_000_000_000 460 renewal
          (record renewal.1 { remaining = 2_000_000_000 }) refl (omega arith) renewal_ok parsed
          refl))
      still_running
