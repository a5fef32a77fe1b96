-- ===== src/Examples/Calls.antt =====
-- The worker's calls, the claim and the retry policy of the example run.
use task_forge.Base.{is_some, ℕ, ◌≤◌, ◌*◌, ◌≡◌, ◌⊎◌, refl, some, none, true, ok, pos}
use task_forge.Table.{find}
use task_forge.Lifecycle.Retry.{delay, validate, is_finite}
use task_forge.Lifecycle.Retry.Bounds.{delay-le-max}
use task_forge.Schema.{Session, session_healthy, millisecond}
use task_forge.Workers.Calls.{HasAuthority, starts, Call-HasAuthority}
use task_forge.Workers.Outcome.{fail}
use task_forge.Workers.Replays.{fail-fail}
use task_forge.Workers.Sessions.Laws.{heartbeat_lem, register_fences}
use task_forge.Schema.{Db}
use task_forge.Workers.{ClaimResult, ClaimDisposition}
use task_forge.Workers.Claim.{claim}
use task_forge.Workers.Claim.Progress.{claim_succeeds}
use task_forge.Workers.Execution.{succeed}
use task_forge.Workers.Success.{succeed-succeed}
use task_forge.Transitions.Invariant.{Inv, installed-Inv}
use task_forge.System.{Run-Inv}
use task_forge.Examples.{
  job2, db0, queues, db2, run2, claim_request, unlocked, claim_draw, claimed, job2_found, whole,
  scope, db1, db3, db4, db5, begun, begun_ok, fence, policy, report, fresh, failed, failed_ok,
}
use task_forge.Examples.Facts.{
  queue, session6, claim_facts, done, done_ok, heard, heard_ok, reboot, rebooted, rebooted_ok,
  no_session7, session7, session7_found,
}

delay-le-max_example :
    (k m : ℕ) × (policy.max ≡ pos m)
    × (delay whole policy 3 none ≡ k * millisecond)
    × (k * millisecond ≤ m)
delay-le-max_example = delay-le-max whole policy 3 none (unfold validate is_finite in refl)

Call-HasAuthority_example : (db4 ≡ db3) ⊎ HasAuthority db3 scope fence 400
Call-HasAuthority_example =
    Call-HasAuthority whole db3 scope 400 fence db4 (starts fence begun begun_ok)

fail-fail_example :
    fail whole db5 policy (some 1) scope report fresh 900
    ≡ ok (
      db5,
      record {
        job_id = failed.1.job_id;
        job_status = failed.1.job_status;
        attempt_status = failed.1.attempt_status;
        retry_at = failed.1.retry_at;
        retry_delay = failed.1.retry_delay;
        dead_letter_reason = failed.1.dead_letter_reason;
        replayed = true;
      },
    )
fail-fail_example =
    fail-fail whole db4 policy policy none (some 1) scope report fresh fresh 500 900 failed
      failed_ok

heartbeat_lem_example :
    (s s' : Session) × (find 6 db1.sessions ≡ some s)
    × (find 6 heard.0.sessions ≡ some s')
    × (session_healthy s.status ≡ true)
    × (s'.status ≡ s.status)
    × (s.last_heartbeat_at ≤ s'.last_heartbeat_at)
    × (800 ≤ s'.last_heartbeat_at)
    × (heard.1 ≡ s'.last_heartbeat_at)
heartbeat_lem_example = heartbeat_lem db1 scope 5 6 800 heard heard_ok

register_fences_example : 7 ≡ reboot.session_id
register_fences_example =
    register_fences db1 scope reboot 8 700 rebooted 7 session7 rebooted_ok no_session7
      session7_found.0 session7_found.1 session7_found.2

inv2 : Inv db2
inv2 = Run-Inv whole db0 db2 run2 (installed-Inv queues)

claim_succeeds_example :
    (v : Db × ClaimResult) × (claim db2 scope claim_request unlocked claim_draw 1000 ≡ ok v)
    × (v.1.disposition ≡ ClaimDisposition.claimed)
    × (is_some v.1.assignment ≡ true)
claim_succeeds_example =
    claim_succeeds db2 scope claim_request unlocked claim_draw 1000 queue session6 10 job2 inv2
      claim_facts.0 refl claim_facts.1 claim_facts.2 claim_facts.3 claim_facts.10 claim_facts.4
      claim_facts.5 claim_facts.6 job2_found claim_facts.7 claim_facts.8 claim_facts.9

succeed-succeed_example : succeed done scope fence none 900 ≡ ok done
succeed-succeed_example = succeed-succeed db4 scope fence none none 500 900 done done_ok
