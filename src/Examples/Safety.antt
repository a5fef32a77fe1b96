-- ===== src/Examples/Safety.antt =====
-- The invariants at the databases of the example run.
use task_forge.Base.{◌≤◌, ◌≡◌, text, some, bit}
use task_forge.Table.{find, count}
use task_forge.Schema.{Job, is_dead_lettered}
use task_forge.Outbox.{advertises}
use task_forge.Workers.Claim.{attempts_of, active_in_queue, active_for_job}
use task_forge.Transitions.{Transition, is_held}
use task_forge.Transitions.Invariant.{Inv, installed-Inv, executing_of, entry_of}
use task_forge.Transitions.Graph.{Follows}
use task_forge.System.{stop, step, by_claim, by_replay, Step-Transition, Run-Inv}
use task_forge.System.Safety.{
  lease_iff_held, within_budget, within_capacity, one_dlq_entry, queued_is_announced, Step-allowed,
  terminal_is_final,
}
use task_forge.Examples.{
  whole, scope, queues, db0, db2, db3, db4, db5, db6, claim_request, claim_draw, unlocked, claimed,
  claimed_ok, replay_draw, replayed, replayed_ok, job2, job2_found, job2_queued, job4, job4_found,
  queue4_found, job5, job5_found, job5_terminal, run2, run4, run5,
}

inv2 : Inv db2
inv2 = Run-Inv whole db0 db2 run2 (installed-Inv queues)

inv3 : Inv db3
inv3 =
    Run-Inv whole db0 db3
      (step run2 (by_claim scope claim_request unlocked claim_draw 1000 claimed claimed_ok))
      (installed-Inv queues)

inv5 : Inv db5
inv5 = Run-Inv whole db0 db5 run5 (installed-Inv queues)

Step-Transition_example : Transition db2 db3
Step-Transition_example =
    Step-Transition whole db2 db3 inv2
      (by_claim scope claim_request unlocked claim_draw 1000 claimed claimed_ok)

Run-Inv_example : Inv db5
Run-Inv_example = Run-Inv whole db0 db5 run5 (installed-Inv queues)

lease_iff_held_example :
    (count (active_for_job 10) db4.leases ≡ bit (is_held job4.status))
    × (count (executing_of 10) db4.attempts ≡ bit (is_held job4.status))
lease_iff_held_example = lease_iff_held whole queues db4 run4 10 job4 job4_found

within_budget_example : count (attempts_of 10) db4.attempts ≤ job4.max_attempts
within_budget_example = within_budget whole queues db4 run4 10 job4 job4_found

within_capacity_example : count (active_in_queue (text "q")) db4.leases ≤ 2
within_capacity_example =
    within_capacity whole queues db4 run4 (text "q")
      (record { name = text "q"; worker_group = text "g"; max_concurrency = 2 }) queue4_found

one_dlq_entry_example : count (entry_of 10) db5.dlq ≡ bit (is_dead_lettered job5.status)
one_dlq_entry_example = one_dlq_entry whole queues db5 run5 10 job5 job5_found

queued_is_announced_example : 1 ≤ count (advertises 10 job2.notification_generation) db2.outbox
queued_is_announced_example =
    queued_is_announced whole queues db2 run2 10 job2 job2_found job2_queued

Step-allowed_example : Follows db6.jobs 10 job5
Step-allowed_example =
    Step-allowed whole db5 db6 10 job5 inv5
      (by_replay scope 10 (text "again") replay_draw replayed replayed_ok) job5_found

terminal_is_final_example : (j : Job) × (find 10 db6.jobs ≡ some j) × (j.status ≡ job5.status)
terminal_is_final_example =
    terminal_is_final whole db5 db6 10 job5 inv5
      (step stop (by_replay scope 10 (text "again") replay_draw replayed replayed_ok)) job5_found
      job5_terminal
