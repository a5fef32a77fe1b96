-- ===== src/System/Safety.antt =====
-- What holds after every run of the system from a new installation.
use task_forge.Base.{Text, ℕ, ◌≡◌, ◌≤◌, refl, sym, ◌∙◌, true, List, some, bit}
use task_forge.Table.{find, count}
use task_forge.Lifecycle.Retry.{Float64}
use task_forge.Schema.{Db, Queue, Job, Status, find_queue, is_terminal, is_dead_lettered}
use task_forge.Outbox.{advertises}
use task_forge.Workers.Claim.{attempts_of, active_in_queue, active_for_job}
use task_forge.System.{Step, Run, stop, step, Step-Transition, Run-Inv}
use task_forge.Transitions.{is_held}
use task_forge.Transitions.Invariant.{Inv, installed, installed-Inv, executing_of, entry_of}
use task_forge.Transitions.Graph.{Follows, Transition-Follows, allowed_terminal}

module _ (fl : Float64) (queues : List Queue) (db : Db) (r : Run fl (installed queues) db) where
  abbrev reached : Inv db
  reached = Run-Inv fl (installed queues) db r (installed-Inv queues)

  -- After every run from a new installation, a job has one active lease and one leased or running
  -- attempt if its status is LEASED, RUNNING or CANCEL_REQUESTED, and none of either if not.
  pub lease_iff_held :
      (i : ℕ) (j : Job)
      → find i db.jobs ≡ some j
      → (count (active_for_job i) db.leases ≡ bit (is_held j.status))
        × (count (executing_of i) db.attempts ≡ bit (is_held j.status))
  lease_iff_held i j found =
      (reached.one_lease i ∙ rw found refl, reached.one_attempt i ∙ rw found refl)

  -- After every run from a new installation, a job has had at most `max_attempts` attempts.
  pub within_budget :
      (i : ℕ) (j : Job)
      → find i db.jobs ≡ some j
      → count (attempts_of i) db.attempts ≤ j.max_attempts
  within_budget i j found = rw found at (reached.budget i)

  -- After every run from a new installation, the active leases of a queue are at most its
  -- `max_concurrency`.
  pub within_capacity :
      (n : Text) (q : Queue)
      → find_queue n db.queues ≡ some q
      → count (active_in_queue n) db.leases ≤ q.max_concurrency
  within_capacity n q found = rw found at (reached.capacity n)

  -- After every run from a new installation, a job has one dead-letter entry if its status is
  -- DEAD_LETTERED, and none if not.
  pub one_dlq_entry :
      (i : ℕ) (j : Job)
      → find i db.jobs ≡ some j
      → count (entry_of i) db.dlq ≡ bit (is_dead_lettered j.status)
  one_dlq_entry i j found = reached.one_entry i ∙ rw found refl

  -- After every run from a new installation, a job that is QUEUED has an outbox event of its current
  -- notification generation.
  pub queued_is_announced :
      (i : ℕ) (j : Job)
      → find i db.jobs ≡ some j
      → j.status ≡ Status.queued
      → 1 ≤ count (advertises i j.notification_generation) db.outbox
  queued_is_announced i j found queued = reached.announced i j found queued

module _ (fl : Float64) where
  -- A step from a database with the invariant keeps every job, with its budget, scope and queue, and
  -- takes its status along one edge of the job's state machine, or leaves it.
  pub Step-allowed :
      (db db' : Db) (i : ℕ) (j : Job)
      → Inv db
      → Step fl db db'
      → find i db.jobs ≡ some j
      → Follows db'.jobs i j
  Step-allowed db db' i j v s found =
      Transition-Follows db db' (Step-Transition fl db db' v s) i j found

  -- A job whose status is terminal keeps that status through every run from a database with the
  -- invariant.
  pub terminal_is_final :
      (db db' : Db) (i : ℕ) (j : Job)
      → Inv db
      → Run fl db db'
      → find i db.jobs ≡ some j
      → is_terminal j.status ≡ true
      → (j' : Job) × (find i db'.jobs ≡ some j') × (j'.status ≡ j.status)
  terminal_is_final db db' i j v stop found done = (j, found, refl)
  terminal_is_final db db' i j v (step {mid} r s) found done =
      let (m, fm, em) = terminal_is_final db mid i j v r found done in
      let (j', fj', edge, _, _, _) = Step-allowed mid db' i m (Run-Inv fl db mid r v) s fm in
      (j', fj', sym (allowed_terminal m.status j'.status (rw em done) edge) ∙ em)
